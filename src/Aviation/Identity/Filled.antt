-- ===== src/Aviation/Identity/Filled.antt =====
-- Merging fills gaps and overwrites nothing.
use Prim.Native.String.{count}
use sky_trax_project.Prelude.{
  ℕ, ◌≤◌, String, Bool, true, false, ◌||◌, Option, none, some, ◌≡◌, refl, or_text, if◌then◌else◌,
  Dict, arith,
}
use sky_trax_project.Aviation.Rows.{Metadata, Airline, OpenFlightsAirline, has}
use sky_trax_project.Aviation.Identity.{
  Host, canonical_airline_slug, merge_raw_metadata, normalize_iata, normalize_icao,
}
use sky_trax_project.Aviation.Identity.Merge.{
  Resolved, fill, patch_raw, longer_name, with_lineage, filled_row, fills_any, stamped_if,
  merge_airline_metadata_from_openflights,
}

-- A text that is there stays.
abbrev pub Stays : Option String → Option String → Type 0
Stays old new = has old ≡ true → new ≡ old

pub record Keeps (old new : Airline) : Type 0 where
  pub slug : new.slug ≡ old.slug
  pub airline_name : count old.airline_name ≤ count new.airline_name
  pub iata_code : Stays old.iata_code new.iata_code
  pub icao_code : Stays old.icao_code new.icao_code
  pub callsign : Stays old.callsign new.callsign
  pub country : Stays old.country new.country
  pub canonical_country : Stays old.canonical_country new.canonical_country
  pub region : Stays old.region new.region
  pub normalized_name : Stays old.normalized_name new.normalized_name
  pub alliance_id : Stays old.alliance_id new.alliance_id
  pub alliance_code : Stays old.alliance_code new.alliance_code
  pub enrichment_status : Stays old.enrichment_status new.enrichment_status
  pub enrichment_confidence : old.enrichment_confidence ≤ new.enrichment_confidence
  pub source_confidence : old.source_confidence ≤ new.source_confidence
  pub normalization_confidence : old.normalization_confidence ≤ new.normalization_confidence
  pub metadata_quality_score : old.metadata_quality_score ≤ new.metadata_quality_score
  pub airline_type : new.airline_type ≡ old.airline_type
  pub coverage_status : new.coverage_status ≡ old.coverage_status

fill-Stays : (given new old : Option String) → Stays old (fill given new old)
fill-Stays given new old h = ground (arith)

longer_name_kept :
    (ofa : OpenFlightsAirline) (existing : Airline)
    → count existing.airline_name
      ≤ count (if longer_name ofa existing then ofa.name else existing.airline_name)
longer_name_kept ofa existing = ground arith

or_text-Stays : (status : Option String) → Stays status (or_text status (some "canonical"))
or_text-Stays none h = absurd (ground arith)
or_text-Stays (some s) h = ground arith

filled_row-Keeps :
    (py : Host) (existing : Airline) (ofa : OpenFlightsAirline) (r : Resolved) (raw : Dict Metadata)
    → Keeps existing (with_lineage raw (filled_row py existing ofa r))
unfolding filled_row
filled_row-Keeps py existing ofa r raw = record {
  slug = refl;
  airline_name = longer_name_kept ofa existing;
  iata_code =
      fill-Stays (normalize_iata py ofa.iata) (normalize_iata py ofa.iata) existing.iata_code;
  icao_code = fill-Stays ofa.icao (normalize_icao py ofa.icao) existing.icao_code;
  callsign = fill-Stays ofa.callsign _ existing.callsign;
  country = fill-Stays ofa.country ofa.country existing.country;
  canonical_country = fill-Stays ofa.country ofa.country existing.canonical_country;
  region = fill-Stays r.region r.region existing.region;
  normalized_name =
      fill-Stays (some (canonical_airline_slug py ofa.name))
        (some (canonical_airline_slug py ofa.name)) existing.normalized_name;
  alliance_id = fill-Stays r.alliance_id r.alliance_id existing.alliance_id;
  alliance_code = fill-Stays r.alliance_code r.alliance_code existing.alliance_code;
  enrichment_status = λ _. refl;
  enrichment_confidence = omega arith;
  source_confidence = omega arith;
  normalization_confidence = omega arith;
  metadata_quality_score = omega arith;
  airline_type = refl;
  coverage_status = refl;
}

stamped_if-Keeps :
    (b : Bool) (now : ℕ) (old row : Airline)
    → row.enrichment_status ≡ old.enrichment_status
    → Keeps old row
    → Keeps old (stamped_if b now row).0
stamped_if-Keeps false now old row same h = h
stamped_if-Keeps true now old row same h = record {
  slug = h.slug;
  airline_name = h.airline_name;
  iata_code = h.iata_code;
  icao_code = h.icao_code;
  callsign = h.callsign;
  country = h.country;
  canonical_country = h.canonical_country;
  region = h.region;
  normalized_name = h.normalized_name;
  alliance_id = h.alliance_id;
  alliance_code = h.alliance_code;
  enrichment_status = rw same (or_text-Stays old.enrichment_status);
  enrichment_confidence = omega (arith, h.enrichment_confidence);
  source_confidence = omega (arith, h.source_confidence);
  normalization_confidence = omega (arith, h.normalization_confidence);
  metadata_quality_score = omega (arith, h.metadata_quality_score);
  airline_type = h.airline_type;
  coverage_status = h.coverage_status;
}

-- A merge keeps the slug, the type of the airline and its coverage status, and every other text that
-- is there but the name, which is never shorter afterwards, and lowers no confidence and no quality
-- score.
pub merge-Keeps :
    (py : Host) (existing : Airline) (ofa : OpenFlightsAirline) (r : Resolved)
    → Keeps existing (merge_airline_metadata_from_openflights py existing ofa r).0
unfolding merge_airline_metadata_from_openflights filled_row
merge-Keeps py existing ofa r =
    let raw = merge_raw_metadata existing.raw_metadata (patch_raw ofa) in
    let assigned = py.differ raw.1 raw.0 in
    let kept = if assigned then raw.1 else raw.0 in
    stamped_if-Keeps (fills_any py existing ofa r || assigned) r.now existing
      (with_lineage kept (filled_row py existing ofa r)) refl
      (filled_row-Keeps py existing ofa r kept)

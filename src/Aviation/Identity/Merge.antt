-- ===== src/Aviation/Identity/Merge.antt =====
-- `merge_airline_metadata_from_openflights`: what a row takes from an airline of OpenFlights.
use Prim.Native.String.{count}
use sky_trax_project.Prelude.{
  ℕ, max, String, Bool, true, false, not, ◌&&◌, ◌||◌, Option, none, some, [], ◌∷◌, or_text,
  if◌then◌else◌, Dict, ltb, take_text,
}
use sky_trax_project.Aviation.Rows.{Metadata, entries, Airline, OpenFlightsAirline, has}
use sky_trax_project.Aviation.Identity.{
  Host, canonical_airline_slug, normalize_iata, normalize_icao, merge_raw_metadata,
}

-- What the caller resolved for the airline, and its clock.
pub record Resolved : Type 0 where
  pub alliance_id : Option String
  pub alliance_code : Option String
  pub region : Option String
  pub now : ℕ

-- `if given and not old: old = new`
abbrev pub fills : Option String → Option String → Bool
fills given old = has given && not (has old)

abbrev pub fill : Option String → Option String → Option String → Option String
fill given new old = if fills given old then new else old

abbrev pub stripped : Host → Option String → Option String
stripped py none = none
stripped py (some callsign) = some (take_text 120 (py.folding.strip callsign))

abbrev pub openflights_entries : OpenFlightsAirline → Dict (Option String)
openflights_entries ofa = ("id", some ofa.openflights_id) ∷ ("alias", ofa.alias) ∷ []

abbrev pub patch_raw : OpenFlightsAirline → Dict (Option Metadata)
patch_raw ofa = ("openflights", some (entries (openflights_entries ofa))) ∷ []

-- Which attribute changes: the disjunction of the assignments to `updated`.
abbrev pub longer_name : OpenFlightsAirline → Airline → Bool
longer_name ofa existing = ltb (count existing.airline_name) (count ofa.name)

unfoldable pub fills_any : Host → Airline → OpenFlightsAirline → Resolved → Bool
fills_any py existing ofa r =
    longer_name ofa existing
    || (fills (normalize_iata py ofa.iata) existing.iata_code
        || (fills ofa.icao existing.icao_code
            || (fills ofa.callsign existing.callsign
                || (fills ofa.country existing.country
                    || (fills ofa.country existing.canonical_country
                        || (fills r.region existing.region
                            || (fills r.alliance_id existing.alliance_id
                                || (fills r.alliance_code existing.alliance_code
                                    || fills (some (canonical_airline_slug py ofa.name))
                                        existing.normalized_name))))))))

-- The row with what the airline fills.
unfoldable pub filled_row : Host → Airline → OpenFlightsAirline → Resolved → Airline
filled_row py existing ofa r = record existing {
  airline_name = if longer_name ofa existing then ofa.name else existing.airline_name;
  iata_code = fill (normalize_iata py ofa.iata) (normalize_iata py ofa.iata) existing.iata_code;
  icao_code = fill ofa.icao (normalize_icao py ofa.icao) existing.icao_code;
  callsign = fill ofa.callsign (stripped py ofa.callsign) existing.callsign;
  country = fill ofa.country ofa.country existing.country;
  canonical_country = fill ofa.country ofa.country existing.canonical_country;
  region = fill r.region r.region existing.region;
  normalized_name =
      fill (some (canonical_airline_slug py ofa.name)) (some (canonical_airline_slug py ofa.name))
        existing.normalized_name;
  alliance_id = fill r.alliance_id r.alliance_id existing.alliance_id;
  alliance_code = fill r.alliance_code r.alliance_code existing.alliance_code;
}

-- The row with its lineage, and with the stamps of an update.
abbrev pub with_lineage : Dict Metadata → Airline → Airline
with_lineage raw a = record a { raw_metadata = raw }

abbrev stamped_row : ℕ → Airline → Airline
stamped_row now a = record a {
  enrichment_status = or_text a.enrichment_status (some "canonical");
  enrichment_confidence = max a.enrichment_confidence 90;
  source_confidence = max a.source_confidence 90;
  normalization_confidence = max a.normalization_confidence 100;
  metadata_quality_score = max a.metadata_quality_score 80;
  last_enriched_at = some now;
  last_seen_at = some now;
}

abbrev pub stamped_if : Bool → ℕ → Airline → Airline × Bool
stamped_if true now row = (stamped_row now row, true)
stamped_if false now row = (row, false)

-- The row as it is left, and whether an attribute was assigned.
unfoldable pub merge_airline_metadata_from_openflights :
    Host → Airline → OpenFlightsAirline → Resolved → Airline × Bool
merge_airline_metadata_from_openflights py existing ofa r =
    let raw = merge_raw_metadata existing.raw_metadata (patch_raw ofa) in
    let assigned = py.differ raw.1 raw.0 in
    let row = with_lineage (if assigned then raw.1 else raw.0) (filled_row py existing ofa r) in
    stamped_if (fills_any py existing ofa r || assigned) r.now row

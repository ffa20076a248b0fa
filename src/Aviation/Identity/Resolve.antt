-- ===== src/Aviation/Identity/Resolve.antt =====
-- `resolve_airline_identity`: merging into the row found, or adding one.
use sky_trax_project.Prelude.{
  ℕ, suc, String, Bool, true, false, not, Option, none, some, [], ◌∷◌, ◌++◌, filled, is_some,
  if◌then◌else◌, Dict, lookup, insert, str_eq, length,
}
use sky_trax_project.Aviation.Rows.{
  entries, Airline, OpenFlightsAirline, Session, object_at, put_object,
}
use sky_trax_project.Aviation.Identity.{
  Host, canonical_airline_slug, normalize_iata, normalize_icao, semantic_airline_lookup,
  first_found,
}
use sky_trax_project.Aviation.Identity.Merge.{
  Resolved, openflights_entries, stripped, merge_airline_metadata_from_openflights,
}

pub record IdentityStats : Type 0 where
  pub slug_collisions_avoided : ℕ
  pub semantic_matches : ℕ
  pub upserts : ℕ
  pub merges : ℕ

pub data IdentityAction : Type 0 where
  merge create skip : IdentityAction

-- What the call leaves and returns.
pub record Resolution : Type 0 where
  pub session : Session
  pub slug_lookup : Dict ℕ
  pub identity_stats : IdentityStats
  pub action : IdentityAction
  pub changed : Bool

-- The row made for an airline that has none.
unfoldable pub new_airline : Host → String → OpenFlightsAirline → Resolved → Airline
unfolding normalize_iata normalize_icao
new_airline py slug ofa r = record {
  airline_name = ofa.name;
  slug = slug;
  iata_code = normalize_iata py ofa.iata;
  icao_code = normalize_icao py ofa.icao;
  callsign = filled (stripped py ofa.callsign);
  country = ofa.country;
  canonical_country = ofa.country;
  region = r.region;
  normalized_name = some slug;
  alliance_id = r.alliance_id;
  alliance_code = r.alliance_code;
  raw_metadata = ("openflights", entries (openflights_entries ofa)) ∷ [];
  enrichment_status = some "canonical";
  enrichment_confidence = 90;
  source_confidence = 90;
  normalization_confidence = 100;
  metadata_quality_score = 80;
  airline_type = some "full_service";
  coverage_status = some "openflights";
  last_enriched_at = some r.now;
  last_seen_at = some r.now;
}

-- `slug_lookup.setdefault(slug, existing)`
unfoldable pub set_default : String → ℕ → Dict ℕ → Dict ℕ
set_default k n d = if is_some (lookup k d) then d else insert k n d

-- The row at `n` takes what it lacks.
abbrev pub merged_at :
    Host → Session → OpenFlightsAirline → Resolved → ℕ → Option Airline → Session × Bool
merged_at py session ofa r n none = (session, false)
merged_at py session ofa r n (some existing) =
    let (row, changed) = merge_airline_metadata_from_openflights py existing ofa r in
    (record session { objects = put_object n row session.objects }, changed)

abbrev is_other : String → Option Airline → Bool
is_other slug none = false
is_other slug (some existing) = not (str_eq existing.slug slug)

abbrev pub count_if : Bool → ℕ → ℕ
count_if b n = if b then suc n else n

unfoldable pub merge_into :
    Host
    → Session
    → String
    → OpenFlightsAirline
    → Dict ℕ
    → Resolved
    → IdentityStats
    → ℕ
    → Resolution
unfolding merge_airline_metadata_from_openflights put_object object_at set_default
merge_into py session slug ofa slug_lookup r stats n =
    let existing = object_at n session.objects in
    let (left, changed) = merged_at py session ofa r n existing in
    record {
      session = left;
      slug_lookup = set_default slug n slug_lookup;
      identity_stats = record stats {
        semantic_matches = count_if (is_other slug existing) stats.semantic_matches;
        merges = count_if changed stats.merges;
      };
      action = merge;
      changed = changed;
    }

unfoldable pub add_airline :
    Host → Session → String → OpenFlightsAirline → Dict ℕ → Resolved → IdentityStats → Resolution
unfolding new_airline
add_airline py session slug ofa slug_lookup r stats = record {
  session = record session { objects = session.objects ++ new_airline py slug ofa r ∷ [] };
  slug_lookup = insert slug (length session.objects) slug_lookup;
  identity_stats = record stats { upserts = suc stats.upserts };
  action = create;
  changed = true;
}

unfoldable pub existing_row : Host → Session → String → OpenFlightsAirline → Dict ℕ → Option ℕ
unfolding semantic_airline_lookup
existing_row py session slug ofa slug_lookup =
    first_found (lookup slug slug_lookup)
      (semantic_airline_lookup py session slug ofa.iata ofa.icao slug_lookup (some ofa.name))

abbrev pub resolved_to :
    Host
    → Session
    → String
    → OpenFlightsAirline
    → Dict ℕ
    → Resolved
    → IdentityStats
    → Option ℕ
    → Resolution
resolved_to py session slug ofa slug_lookup r stats none =
    add_airline py session slug ofa slug_lookup r stats
resolved_to py session slug ofa slug_lookup r stats (some n) =
    merge_into py session slug ofa slug_lookup r stats n

unfoldable pub resolve_airline_identity :
    Host → Session → OpenFlightsAirline → Dict ℕ → Resolved → IdentityStats → Resolution
resolve_airline_identity py session ofa slug_lookup r stats =
    let slug = canonical_airline_slug py ofa.name in
    if str_eq slug ""
    then record {
      session = session;
      slug_lookup = slug_lookup;
      identity_stats = stats;
      action = skip;
      changed = false;
    }
    else resolved_to py session slug ofa slug_lookup r stats
        (existing_row py session slug ofa slug_lookup)

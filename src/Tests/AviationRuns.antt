-- ===== src/Tests/AviationRuns.antt =====
-- Airlines of OpenFlights on concrete rows.
use Prim.Native.Char.{Char, char, code, IsScalar}
use Prim.Native.String.{String, ◌++◌}
use Prim.Native.Nat.{Ordering, compare}
use sky_trax_project.Prelude.{
  lookup, insert, ℕ, ◌+◌, Bool, true, false, not, ◌&&◌, ◌||◌, Option, none, some, List, [], ◌∷◌,
  ◌≡◌, refl, ap, leb, Dict, str_eq, eq_iff, arith, one_of,
}
use sky_trax_project.Aviation.Slug.{
  slugify, drop_marks, dash_runs, strip_left, strip_right, Folding, no_text, normalize_airline_slug,
}
use sky_trax_project.Aviation.Slug.Shape.{is_slug, at_start, at_dash, in_word, is_lowered}
use sky_trax_project.Aviation.Slug.Fixed.{Folds, slug_iff_fixed}
use sky_trax_project.Aviation.Rows.{
  first_row, object_at, put_object, Metadata, value, entries, Airline, OpenFlightsAirline, slugs,
  unique_slugs, has,
}
use sky_trax_project.Aviation.Identity.{
  build_airline_slug_lookup, lookup_from, semantic_airline_lookup, merge_raw_metadata,
  merge_entries, update_entries, Host, canonical_airline_slug, normalize_iata, normalize_icao,
}
use sky_trax_project.Aviation.Identity.Resolve.{
  resolve_airline_identity, merge_into, add_airline, new_airline, set_default, existing_row,
}
use sky_trax_project.Aviation.Identity.Merge.{
  filled_row, fills_any, Resolved, merge_airline_metadata_from_openflights,
}
use sky_trax_project.Aviation.Identity.Filled.{Keeps, merge-Keeps}
use sky_trax_project.Aviation.Identity.Unseen.{malformed_icao_always_updates, lineage_change_unseen}
use sky_trax_project.Aviation.Sync.{
  sync_once, sync_each, sync_slug, resolve_turn, flush, rows_of, Tables, SyncStats, SyncEnd, synced,
  sync_airlines, loop_start, sync_airline,
}
use sky_trax_project.Aviation.Sync.Growth.{Succeeds, sync_airlines-Succeeds}
use sky_trax_project.Aviation.Sync.Carried.{Names}
use sky_trax_project.Aviation.Sync.Second.{CreatesNothing, second_sync-CreatesNothing}
use sky_trax_project.Aviation.Sync.Twins.{OneCode, twins-OneCode}

-- `lower` on ASCII.
abbrev is_capital : Char → Bool
is_capital c = leb b'A' (code c) && leb (code c) b'Z'

scalar : (n : ℕ) → compare n 55296 ≡ Ordering.lt → IsScalar n
scalar n h = rw h tt

capital-IsScalar : (c : Char) → is_capital c ≡ true → IsScalar (code c + 32)
capital-IsScalar c h = scalar (code c + 32) (ground arith)

abbrev lower_as : (c : Char) (b : Bool) → is_capital c ≡ b → Char
lower_as c true h = char (code c + 32) (capital-IsScalar c h)
lower_as c false h = c

lower_as-small : (c : Char) (b : Bool) (h : is_capital c ≡ b) → is_capital (lower_as c b h) ≡ false
lower_as-small c true h = ground arith
lower_as-small c false h = h

lower_as-same : (c : Char) (b : Bool) (h : is_capital c ≡ b) → b ≡ false → lower_as c b h ≡ c
lower_as-same c true h small = absurd (ground arith)
lower_as-same c false h small = refl

abbrev lower_text : String → String
lower_text String.[] = String.[]
lower_text (String.◌∷◌ c s) = String.◌∷◌ (lower_as c (is_capital c) refl) (lower_text s)

lower_lowers : (s : String) → is_lowered (lower_text s) ≡ true
lower_lowers String.[] = refl
lower_lowers (String.◌∷◌ c s) = rw (lower_as-small c (is_capital c) refl, lower_lowers s) refl

lower_keeps : (s : String) → (is_slug in_word s || is_slug at_dash s) ≡ true → lower_text s ≡ s
unfolding is_slug
lower_keeps String.[] h = refl
lower_keeps (String.◌∷◌ c s) h =
    let small : is_capital c ≡ false = ground arith in
    rw (lower_as-same c (is_capital c) refl small, lower_keeps s (ground arith)) refl

lower_keeps_slug : (s : String) → is_slug at_start s ≡ true → lower_text s ≡ s
unfolding is_slug
lower_keeps_slug String.[] h = refl
lower_keeps_slug (String.◌∷◌ c s) h = lower_keeps (String.◌∷◌ c s) (ground arith)

lower_empty : (s : String) → lower_text s ≡ "" → s ≡ ""
lower_empty String.[] h = refl
lower_empty (String.◌∷◌ c s) h = absurd (ground (arith, ap no_text h))

-- Names in ASCII, without spaces at their ends.
abbrev folding : Folding
folding = record { to_ascii = λ s. s; lower = lower_text; strip = λ s. s }

folding-Folds : Folds folding
folding-Folds = record { lowers = lower_lowers; keeps = lower_keeps_slug }

slug_iff_fixed_example :
    (is_slug at_start (normalize_airline_slug folding "Air France_-KLM ") ≡ true)
    × (is_slug at_start "Air France_-KLM "
        ≡ str_eq (normalize_airline_slug folding "Air France_-KLM ") "Air France_-KLM ")
slug_iff_fixed_example = slug_iff_fixed folding folding-Folds "Air France_-KLM "

air_france : normalize_airline_slug folding "Air France_-KLM " ≡ "air-france-klm"
unfolding normalize_airline_slug
air_france = refl

-- The host
abbrev texts_of : Dict Metadata → String
texts_of [] = ""
texts_of ((k, value v) ∷ d) = k ++ "=" ++ v ++ ";" ++ texts_of d
texts_of ((k, entries []) ∷ d) = k ++ "={};" ++ texts_of d
texts_of ((k, entries ((j, none) ∷ _)) ∷ d) = k ++ "={" ++ j ++ "};" ++ texts_of d
texts_of ((k, entries ((j, some v) ∷ _)) ∷ d) = k ++ "={" ++ j ++ "=" ++ v ++ "};" ++ texts_of d

abbrev py : Host
py = record {
  folding = folding;
  upper = λ s. s;
  sql_trim = λ s. s;
  sql_lower = lower_text;
  differ = λ a b. not (str_eq (texts_of a) (texts_of b));
}

py-Names : Names py
py-Names = record { blank = refl; lower_empty = lower_empty }

differ_from_itself : (d : Dict Metadata) → py.differ d d ≡ false
differ_from_itself d = ground (arith, eq_iff (texts_of d) (texts_of d))

abbrev tables : Tables
tables = record {
  resolve_alliance_id = λ iata name. none;
  alliance_by_iata = λ iata. none;
  alliance_by_name = λ name. none;
  region_of = λ country. some "Europe";
}

abbrev row : String → Option String → Airline
row slug iata = record {
  airline_name = slug;
  slug = slug;
  iata_code = iata;
  icao_code = none;
  callsign = none;
  country = none;
  canonical_country = none;
  region = none;
  normalized_name = none;
  alliance_id = none;
  alliance_code = none;
  raw_metadata = ("openflights", entries (("id", some "1") ∷ [])) ∷ [];
  enrichment_status = none;
  enrichment_confidence = 0;
  source_confidence = 0;
  normalization_confidence = 0;
  metadata_quality_score = 0;
  airline_type = none;
  coverage_status = none;
  last_enriched_at = none;
  last_seen_at = none;
}

abbrev airline : String → Option String → Option String → OpenFlightsAirline
airline name iata icao = record {
  openflights_id = "7";
  name = name;
  alias = none;
  iata = iata;
  icao = icao;
  callsign = none;
  country = some "France";
  active = true;
}

abbrev rows : List Airline
rows = row "old-name" (some "AF") ∷ row "idle" none ∷ []

abbrev airlines : List OpenFlightsAirline
airlines =
    airline "Air France" (some "AF") none
    ∷ airline "Twin One" (some "TT") none
    ∷ airline "Twin Two" (some "TT") none
    ∷ record (airline "Idle" none none) { active = false }
    ∷ []

abbrev no_stats : SyncStats
no_stats = record { airlines_created = 0; airlines_updated = 0; airlines_skipped = 0 }

abbrev first_run : SyncEnd
first_run = sync_airlines py tables 5 rows airlines no_stats

abbrev first_stats : SyncStats
first_stats = record { airlines_created = 2; airlines_updated = 1; airlines_skipped = 1 }

-- The idle airline is skipped, the known one found by its code, and the twins are both created.
first_run_ends : first_run ≡ synced (rows_of first_run) first_stats
unfolding sync_airlines sync_once sync_each sync_airline sync_slug resolve_turn loop_start flush
    build_airline_slug_lookup lookup_from resolve_airline_identity existing_row
    semantic_airline_lookup merge_into add_airline new_airline set_default
    merge_airline_metadata_from_openflights filled_row fills_any merge_raw_metadata merge_entries
    update_entries normalize_iata normalize_icao canonical_airline_slug normalize_airline_slug
    slugify drop_marks dash_runs strip_left strip_right first_row object_at put_object slugs
    unique_slugs lookup insert one_of
first_run_ends = refl

first_slugs : slugs (rows_of first_run) ≡ "old-name" ∷ "idle" ∷ "twin-one" ∷ "twin-two" ∷ []
unfolding sync_airlines sync_once sync_each sync_airline sync_slug resolve_turn loop_start flush
    build_airline_slug_lookup lookup_from resolve_airline_identity existing_row
    semantic_airline_lookup merge_into add_airline new_airline set_default
    merge_airline_metadata_from_openflights filled_row fills_any merge_raw_metadata merge_entries
    update_entries normalize_iata normalize_icao canonical_airline_slug normalize_airline_slug
    slugify drop_marks dash_runs strip_left strip_right first_row object_at put_object slugs
    unique_slugs lookup insert one_of
first_slugs = refl

sync_airlines-Succeeds_example : Succeeds rows no_stats first_run
unfolding unique_slugs slugs one_of
sync_airlines-Succeeds_example = sync_airlines-Succeeds py tables 5 rows airlines no_stats refl

second_sync-CreatesNothing_example :
    CreatesNothing
      (rows_of first_run)
      no_stats
      (sync_airlines py tables 9 (rows_of first_run) airlines no_stats)
unfolding unique_slugs slugs one_of
second_sync-CreatesNothing_example =
    second_sync-CreatesNothing py py-Names tables tables 5 9 rows (rows_of first_run) airlines
      no_stats first_stats no_stats refl first_run_ends

abbrev no_help : Resolved
no_help = record { alliance_id = none; alliance_code = none; region = none; now = 3 }

merge-Keeps_example :
    Keeps
      (row "old-name" (some "AF"))
      (merge_airline_metadata_from_openflights py
        (row "old-name" (some "AF"))
        (airline "Air France" (some "XX") none)
        no_help).0
merge-Keeps_example =
    merge-Keeps py (row "old-name" (some "AF")) (airline "Air France" (some "XX") none) no_help

malformed_icao_always_updates_example :
    ((merge_airline_metadata_from_openflights py
        (row "a" none)
        (airline "A" none (some "TOOLONG"))
        no_help).1
      ≡ true)
    × (has
          (merge_airline_metadata_from_openflights py
            (row "a" none)
            (airline "A" none (some "TOOLONG"))
            no_help).0.icao_code
        ≡ false)
unfolding normalize_icao one_of
malformed_icao_always_updates_example =
    malformed_icao_always_updates py (row "a" none) (airline "A" none (some "TOOLONG")) no_help refl
      refl refl

abbrev full_row : Airline
full_row = record (row "air-france" (some "AF")) {
  airline_name = "Air France";
  country = some "France";
  canonical_country = some "France";
  normalized_name = some "air-france";
}

abbrev air_france_again : OpenFlightsAirline
air_france_again = airline "Air France" (some "AF") none

lineage_change_unseen_example :
    ((merge_airline_metadata_from_openflights py full_row air_france_again no_help).1 ≡ false)
    × (lookup "openflights"
          (merge_airline_metadata_from_openflights py full_row air_france_again
            no_help).0.raw_metadata
        ≡ some (
            entries
              (update_entries (("id", some "1") ∷ []) (("id", some "7") ∷ ("alias", none) ∷ []))))
unfolding fills_any normalize_iata canonical_airline_slug normalize_airline_slug lookup one_of
lineage_change_unseen_example =
    lineage_change_unseen py full_row air_france_again no_help (("id", some "1") ∷ [])
      differ_from_itself refl refl

abbrev twin_one : OpenFlightsAirline
twin_one = airline "Twin One" (some "TT") none

abbrev twin_two : OpenFlightsAirline
twin_two = airline "Twin Two" (some "TT") none

twins-OneCode_example :
    OneCode rows
      (sync_airline py tables 5 twin_two
        (sync_airline py tables 5 twin_one (loop_start rows))).session.objects
      "TT"
unfolding loop_start build_airline_slug_lookup lookup_from existing_row semantic_airline_lookup
    first_row canonical_airline_slug normalize_airline_slug normalize_iata normalize_icao lookup
    insert one_of
twins-OneCode_example =
    twins-OneCode py tables 5 twin_one twin_two (loop_start rows) "TT" refl refl refl refl refl refl
      refl

-- ===== src/Aviation/Identity.antt =====
-- aviation/aviation_identity_governance.py: to which row of `airline_metadata` an airline of
-- OpenFlights belongs, and how the row takes what it lacks.
pub mod Merge
pub mod Resolve
pub mod Filled
pub mod Unseen
use Prim.Native.String.{count}
use sky_trax_project.Prelude.{
  ℕ, max, String, Bool, true, false, not, ◌&&◌, ◌||◌, Option, none, some, List, [], ◌∷◌, ◌++◌,
  one_of, filled, or_text, or_default, is_some, if◌then◌else◌, Dict, lookup, insert, str_eq, ltb,
  leb, ◌==◌, ◌+◌, take_text,
}
use sky_trax_project.Aviation.Slug.{Folding, normalize_airline_slug}
use sky_trax_project.Aviation.Rows.{
  Metadata, value, entries, Airline, OpenFlightsAirline, Session, first_row, object_at, put_object,
  has,
}

-- Python's and the database's functions on texts, and Python's `!=` on dictionaries.
pub record Host : Type 0 where
  pub folding : Folding
  pub upper : String → String
  pub sql_trim : String → String
  pub sql_lower : String → String
  pub differ : Dict Metadata → Dict Metadata → Bool

unfoldable pub canonical_airline_slug : Host → String → String
unfolding normalize_airline_slug
canonical_airline_slug py name = normalize_airline_slug py.folding name

abbrev pub no_codes : List String
no_codes = "-" ∷ "\\N" ∷ "" ∷ []

-- The code in capitals, if its length is one of those allowed.
abbrev pub normalize_code : Host → (ℕ → Bool) → String → Option String
normalize_code py allowed code =
    let stripped = py.folding.strip code in
    let capitals = py.upper stripped in
    if one_of stripped no_codes
    then none
    else if allowed (count capitals)
    then some capitals
    else none

unfoldable pub normalize_iata : Host → Option String → Option String
normalize_iata py none = none
normalize_iata py (some code) =
    if str_eq code "" then none else normalize_code py (λ n. n == 2) code

unfoldable pub normalize_icao : Host → Option String → Option String
normalize_icao py none = none
normalize_icao py (some code) =
    if str_eq code "" then none else normalize_code py (λ n. leb 2 n && leb n 4) code

-- `prev.update(v)`
unfoldable pub update_entries : Dict (Option String) → Dict (Option String) → Dict (Option String)
update_entries prev [] = prev
update_entries prev ((k, v) ∷ rest) = update_entries (insert k v prev) rest

-- `merge_raw_metadata`: the dictionary given, whose inner dictionaries are changed in place since
-- `dict(existing)` shares them, and the one returned.
abbrev put_entry :
    String
    → Metadata
    → Option Metadata
    → Dict Metadata × Dict Metadata
    → Dict Metadata × Dict Metadata
put_entry k (entries v) (some (entries prev)) (existing, base) = (
  insert k (entries (update_entries prev v)) existing,
  insert k (entries (update_entries prev v)) base,
)
put_entry k v prev (existing, base) = (existing, insert k v base)

unfoldable pub merge_entries :
    Dict (Option Metadata) → Dict Metadata × Dict Metadata → Dict Metadata × Dict Metadata
merge_entries [] dicts = dicts
merge_entries ((k, none) ∷ patch) dicts = merge_entries patch dicts
merge_entries ((k, some v) ∷ patch) dicts =
    merge_entries patch (put_entry k v (lookup k dicts.1) dicts)

unfoldable pub merge_raw_metadata :
    Dict Metadata → Dict (Option Metadata) → Dict Metadata × Dict Metadata
unfolding merge_entries
merge_raw_metadata existing patch = merge_entries patch (existing, existing)

-- `{m.slug: m for m in rows}`
unfoldable pub lookup_from : ℕ → List Airline → Dict ℕ → Dict ℕ
lookup_from n [] found = found
lookup_from n (a ∷ rows) found = lookup_from (n + 1) rows (insert a.slug n found)

unfoldable pub build_airline_slug_lookup : Session → Dict ℕ
unfolding lookup_from
build_airline_slug_lookup session = lookup_from 0 session.stored []

-- The queries of `semantic_airline_lookup`.
abbrev pub has_code : (Airline → Option String) → String → Airline → Bool
has_code field code a = elim (field a) [ none ↦ false | some c ↦ str_eq c code ]

abbrev pub by_code : (Airline → Option String) → Option String → Session → Option ℕ
by_code field none session = none
by_code field (some code) session = first_row (has_code field code) session.stored

abbrev pub has_name : Host → String → Airline → Bool
has_name py hint a =
    str_eq (py.sql_lower (py.sql_trim (or_default a.normalized_name ""))) (py.folding.lower hint)

abbrev pub by_name : Host → Option String → Session → Option ℕ
by_name py none session = none
by_name py (some name) session =
    let hint = canonical_airline_slug py name in
    if str_eq name "" || str_eq hint "" then none else first_row (has_name py hint) session.stored

-- The first row found.
abbrev pub first_found : Option ℕ → Option ℕ → Option ℕ
first_found none other = other
first_found (some n) _ = some n

unfoldable pub semantic_airline_lookup :
    Host → Session → String → Option String → Option String → Dict ℕ → Option String → Option ℕ
semantic_airline_lookup py session slug iata icao slug_lookup name_norm_hint =
    first_found (by_code (λ a. a.iata_code) (normalize_iata py iata) session) (
      first_found (by_code (λ a. a.icao_code) (normalize_icao py icao) session)
        (first_found (by_name py name_norm_hint session) (lookup slug slug_lookup)))

-- ===== src/Aviation/Sync/Carried.antt =====
-- An airline that found its row in one synchronisation finds one in the next.
use Prim.Native.String.{count}
use sky_trax_project.Prelude.{
  ℕ, String, Bool, true, false, ◌&&◌, ◌||◌, Option, none, some, List, leb, ◌==◌, ◌≡◌, refl, sym, ap,
  ◌∙◌, is_some, or_default, if◌then◌else◌, Dict, lookup, str_eq, eq_iff, one_of, Bool-cases, inl,
  inr, arith,
}
use sky_trax_project.Aviation.Rows.{Airline, OpenFlightsAirline, Session, first_row, has}
use sky_trax_project.Aviation.Identity.{
  Host, canonical_airline_slug, normalize_iata, normalize_icao, normalize_code, no_codes,
  first_found, by_code, by_name, has_code, has_name, semantic_airline_lookup,
}
use sky_trax_project.Aviation.Identity.Merge.{merge_airline_metadata_from_openflights}
use sky_trax_project.Aviation.Identity.Filled.{Stays, merge-Keeps}
use sky_trax_project.Aviation.Identity.Resolve.{existing_row}
use sky_trax_project.Aviation.Sync.Persistent.{IsPersistent, finds, first_row-finds}

-- What the queries by name rely on: a missing name is empty for the database, and only the empty text
-- is empty in small letters.
pub record Names (py : Host) : Type 0 where
  pub blank : py.sql_lower (py.sql_trim "") ≡ ""
  pub lower_empty : (s : String) → py.folding.lower s ≡ "" → s ≡ ""

-- What a query finds among the first rows, it finds among the others.
abbrev pub Carries : Host → List Airline → List Airline → Type 0
Carries py rows after =
    (p : Airline → Bool) → IsPersistent py p → finds p rows ≡ true → finds p after ≡ true

code-Stays :
    (code : String) (old new : Option String)
    → str_eq code "" ≡ false
    → Stays old new
    → (elim old [ none ↦ false | some c ↦ str_eq c code ]) ≡ true
    → (elim new [ none ↦ false | some c ↦ str_eq c code ]) ≡ true
code-Stays code none new full kept h = absurd (ground arith)
code-Stays code (some c) new full kept h =
    let there : has (some c) ≡ true = ground (arith, eq_iff c code, eq_iff c "") in
    rw (kept there) h

allowed_kept :
    (allowed : ℕ → Bool) (b : Bool) (capitals code : String)
    → (if b then none else if allowed (count capitals) then some capitals else none) ≡ some code
    → allowed (count code) ≡ true
allowed_kept allowed true capitals code h = absurd (ground arith)
allowed_kept allowed false capitals code h = elim (Bool-cases (allowed (count capitals))) [
  | inl on ↦
      let same : capitals ≡ code = ground arith in sym (ap (λ c. allowed (count c)) same) ∙ on
  | inr off ↦ absurd (ground arith)
]

normalize_code-full :
    (py : Host) (allowed : ℕ → Bool) (given code : String)
    → allowed 0 ≡ false
    → normalize_code py allowed given ≡ some code
    → str_eq code "" ≡ false
normalize_code-full py allowed given code zero_off h =
    let stripped = py.folding.strip given in
    let ok = allowed_kept allowed (one_of stripped no_codes) (py.upper stripped) code h in
    elim (Bool-cases (str_eq code "")) [
      | inl empty ↦
          absurd (ground (arith, sym (ap (λ c. allowed (count c)) ((eq_iff code "").0 empty)) ∙ ok))
      | inr full ↦ full
    ]

empty_name : (name : Option String) → has name ≡ false → or_default name "" ≡ ""
empty_name none h = refl
empty_name (some s) h = (eq_iff s "").0 (ground arith)

name-IsPersistent :
    (py : Host) (hint : String)
    → Names py
    → str_eq hint "" ≡ false
    → IsPersistent py (has_name py hint)
name-IsPersistent py hint names full existing ofa r h =
    elim (Bool-cases (has existing.normalized_name)) [
      | inl there ↦ rw ((merge-Keeps py existing ofa r).normalized_name there) h
      | inr missing ↦
          let none_there =
            ap (λ n. py.sql_lower (py.sql_trim n)) (empty_name existing.normalized_name missing) in
          let lowered = (eq_iff _ (py.folding.lower hint)).0 h in
          absurd (
            ground (
              arith,
              eq_iff hint "",
              names.lower_empty hint (sym lowered ∙ none_there ∙ names.blank),
            ))
    ]

iata-IsPersistent :
    (py : Host) (code : String)
    → str_eq code "" ≡ false
    → IsPersistent py (has_code (λ a. a.iata_code) code)
iata-IsPersistent py code full existing ofa r h =
    code-Stays code existing.iata_code
      (merge_airline_metadata_from_openflights py existing ofa r).0.iata_code full
      (merge-Keeps py existing ofa r).iata_code h

icao-IsPersistent :
    (py : Host) (code : String)
    → str_eq code "" ≡ false
    → IsPersistent py (has_code (λ a. a.icao_code) code)
icao-IsPersistent py code full existing ofa r h =
    code-Stays code existing.icao_code
      (merge_airline_metadata_from_openflights py existing ofa r).0.icao_code full
      (merge-Keeps py existing ofa r).icao_code h

normalize_iata-full :
    (py : Host) (given : Option String) (code : String)
    → normalize_iata py given ≡ some code
    → str_eq code "" ≡ false
unfolding normalize_iata
normalize_iata-full py none code h = absurd (ground arith)
normalize_iata-full py (some s) code h = elim (Bool-cases (str_eq s "")) [
  | inl empty ↦ absurd (ground arith)
  | inr full ↦ normalize_code-full py (λ n. n == 2) s code refl (ground arith)
]

normalize_icao-full :
    (py : Host) (given : Option String) (code : String)
    → normalize_icao py given ≡ some code
    → str_eq code "" ≡ false
unfolding normalize_icao
normalize_icao-full py none code h = absurd (ground arith)
normalize_icao-full py (some s) code h = elim (Bool-cases (str_eq s "")) [
  | inl empty ↦ absurd (ground arith)
  | inr full ↦ normalize_code-full py (λ n. leb 2 n && leb n 4) s code refl (ground arith)
]

first_row-carried :
    (p : Airline → Bool) (rows after : List Airline)
    → ((finds p rows ≡ true) → (finds p after ≡ true))
    → is_some (first_row p rows) ≡ true
    → is_some (first_row p after) ≡ true
first_row-carried p rows after carried h =
    first_row-finds p after ∙ carried (sym (first_row-finds p rows) ∙ h)

first_found-carried :
    (a b c d : Option ℕ)
    → ((is_some a ≡ true) → (is_some c ≡ true))
    → ((is_some b ≡ true) → (is_some d ≡ true))
    → is_some (first_found a b) ≡ true
    → is_some (first_found c d) ≡ true
first_found-carried none b none d left right h = right h
first_found-carried none b (some n) d left right h = refl
first_found-carried (some n) b none d left right h = absurd (ground (arith, left refl))
first_found-carried (some n) b (some m) d left right h = refl

module _ (py : Host) (names : Names py) (old new : Session)
    (carries : Carries py old.stored new.stored) where
  by_iata-carried :
      (code : Option String)
      → ((c : String) → code ≡ some c → str_eq c "" ≡ false)
      → is_some (by_code (λ a. a.iata_code) code old) ≡ true
      → is_some (by_code (λ a. a.iata_code) code new) ≡ true
  by_iata-carried none full h = h
  by_iata-carried (some c) full h =
      let p = has_code (λ a. a.iata_code) c in
      first_row-carried p old.stored new.stored (carries p (iata-IsPersistent py c (full c refl))) h

  by_icao-carried :
      (code : Option String)
      → ((c : String) → code ≡ some c → str_eq c "" ≡ false)
      → is_some (by_code (λ a. a.icao_code) code old) ≡ true
      → is_some (by_code (λ a. a.icao_code) code new) ≡ true
  by_icao-carried none full h = h
  by_icao-carried (some c) full h =
      let p = has_code (λ a. a.icao_code) c in
      first_row-carried p old.stored new.stored (carries p (icao-IsPersistent py c (full c refl))) h

  by_name-carried :
      (name : String)
      → is_some (by_name py (some name) old) ≡ true
      → is_some (by_name py (some name) new) ≡ true
  by_name-carried name h =
      let hint = canonical_airline_slug py name in
      let p = has_name py hint in
      elim (Bool-cases (str_eq name "" || str_eq hint "")) [
        | inl off ↦ absurd (ground arith)
        | inr on ↦ rw on (
            first_row-carried p old.stored new.stored
              (carries p (name-IsPersistent py hint names (ground arith))) (ground arith))
      ]

  pub existing_row-carried :
      (slug : String) (ofa : OpenFlightsAirline) (d e : Dict ℕ)
      → ((is_some (lookup slug d) ≡ true) → (is_some (lookup slug e) ≡ true))
      → is_some (existing_row py old slug ofa d) ≡ true
      → is_some (existing_row py new slug ofa e) ≡ true
  unfolding existing_row semantic_airline_lookup
  existing_row-carried slug ofa d e known h =
      first_found-carried (lookup slug d) _ (lookup slug e) _ known
        (first_found-carried (by_code (λ a. a.iata_code) (normalize_iata py ofa.iata) old) _
          (by_code (λ a. a.iata_code) (normalize_iata py ofa.iata) new) _
          (by_iata-carried (normalize_iata py ofa.iata) (normalize_iata-full py ofa.iata))
          (first_found-carried (by_code (λ a. a.icao_code) (normalize_icao py ofa.icao) old) _
            (by_code (λ a. a.icao_code) (normalize_icao py ofa.icao) new) _
            (by_icao-carried (normalize_icao py ofa.icao) (normalize_icao-full py ofa.icao))
            (first_found-carried (by_name py (some ofa.name) old) (lookup slug d)
              (by_name py (some ofa.name) new) (lookup slug e) (by_name-carried ofa.name) known)))
        h

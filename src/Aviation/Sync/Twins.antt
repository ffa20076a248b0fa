-- ===== src/Aviation/Sync/Twins.antt =====
-- Two airlines of OpenFlights with one code and different names: the query for the first one's row
-- comes before the flush.
use sky_trax_project.Prelude.{
  ℕ, String, true, false, Option, none, some, List, [], ◌∷◌, ◌++◌, ◌≡◌, refl, insert, lookup-insert,
  str_eq, length, arith,
}
use sky_trax_project.Aviation.Rows.{Airline, OpenFlightsAirline, Session}
use sky_trax_project.Aviation.Identity.{
  Host, canonical_airline_slug, normalize_iata, normalize_icao, semantic_airline_lookup, by_code,
}
use sky_trax_project.Aviation.Identity.Resolve.{
  resolve_airline_identity, existing_row, new_airline, add_airline,
}
use sky_trax_project.Aviation.Sync.{
  Tables, Loop, sync_airline, sync_slug, resolve_turn, resolved_for,
}
use sky_trax_project.Aviation.Sync.Eligible.{is_eligible, sync_airline-eligible}

abbrev slug_of : Host → OpenFlightsAirline → String
slug_of py ofa = canonical_airline_slug py ofa.name

-- The airline has no row: not in the lookup, and by no query.
abbrev pub IsNew : Host → OpenFlightsAirline → Loop → Type 0
IsNew py ofa loop = existing_row py loop.session (slug_of py ofa) ofa loop.slug_lookup ≡ none

-- Two rows of one code, behind those that were there.
pub record OneCode (rows after : List Airline) (code : String) : Type 0 where
  pub first : Airline
  pub second : Airline
  pub behind : after ≡ (rows ++ first ∷ []) ++ second ∷ []
  pub first_code : first.iata_code ≡ some code
  pub second_code : second.iata_code ≡ some code

added_turn :
    (py : Host) (t : Tables) (now : ℕ) (ofa : OpenFlightsAirline) (loop : Loop)
    → is_eligible py ofa ≡ true
    → IsNew py ofa loop
    → ((sync_airline py t now ofa loop).session ≡ record {
      stored = loop.session.stored;
      objects =
          loop.session.objects ++ new_airline py (slug_of py ofa) ofa (resolved_for t now ofa) ∷ [];
    })
      × ((sync_airline py t now ofa loop).slug_lookup
          ≡ insert (slug_of py ofa) (length loop.session.objects) loop.slug_lookup)
unfolding sync_slug resolve_turn resolve_airline_identity add_airline
added_turn py t now ofa loop on new =
    let full : str_eq (slug_of py ofa) "" ≡ false = ground arith in
    rw (sync_airline-eligible py t now ofa loop on, full, new) (refl, refl)

-- The queries do not read the objects.
by_code_stored :
    (field : Airline → Option String) (code : Option String) (session : Session)
    (objects : List Airline)
    → by_code field code (record { stored = session.stored; objects = objects })
      ≡ by_code field code session
by_code_stored field none session objects = refl
by_code_stored field (some c) session objects = refl

still-IsNew :
    (py : Host) (t : Tables) (now : ℕ) (a b : OpenFlightsAirline) (loop : Loop)
    → is_eligible py a ≡ true
    → IsNew py a loop
    → IsNew py b loop
    → str_eq (slug_of py b) (slug_of py a) ≡ false
    → IsNew py b (sync_airline py t now a loop)
unfolding existing_row semantic_airline_lookup
still-IsNew py t now a b loop on new_a new_b apart =
    let turn = added_turn py t now a loop on new_a in
    let objects =
      loop.session.objects ++ new_airline py (slug_of py a) a (resolved_for t now a) ∷ [] in
    rw
      (
        turn.0,
        turn.1,
        lookup-insert (slug_of py b) (slug_of py a) (length loop.session.objects) loop.slug_lookup,
        apart,
        by_code_stored (λ r. r.iata_code) (normalize_iata py b.iata) loop.session objects,
        by_code_stored (λ r. r.icao_code) (normalize_icao py b.icao) loop.session objects,
      )
      new_b

-- Two airlines with one IATA code, whose slugs differ and of which neither has a row, are both added in the same run: the rows behind the two turns are those before and two more, both with that code.
pub twins-OneCode :
    (py : Host) (t : Tables) (now : ℕ) (a b : OpenFlightsAirline) (loop : Loop) (code : String)
    → is_eligible py a ≡ true
    → is_eligible py b ≡ true
    → IsNew py a loop
    → IsNew py b loop
    → str_eq (slug_of py b) (slug_of py a) ≡ false
    → normalize_iata py a.iata ≡ some code
    → normalize_iata py b.iata ≡ some code
    → OneCode loop.session.objects
        (sync_airline py t now b (sync_airline py t now a loop)).session.objects
        code
unfolding new_airline
twins-OneCode py t now a b loop code on_a on_b new_a new_b apart code_a code_b =
    let next = sync_airline py t now a loop in
    let first = added_turn py t now a loop on_a new_a in
    let second =
      added_turn py t now b next on_b (still-IsNew py t now a b loop on_a new_a new_b apart) in
    record {
      first = new_airline py (slug_of py a) a (resolved_for t now a);
      second = new_airline py (slug_of py b) b (resolved_for t now b);
      behind = rw (second.0, first.0) refl;
      first_code = code_a;
      second_code = code_b;
    }

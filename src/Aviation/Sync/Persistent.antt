-- ===== src/Aviation/Sync/Persistent.antt =====
-- What a query finds before a synchronisation, it finds behind it.
use sky_trax_project.Prelude.{
  ℕ, zero, suc, String, Bool, true, false, ◌||◌, Option, none, some, List, [], ◌∷◌, ◌++◌, ◌≡◌, refl,
  ap, is_some, Dict, str_eq, Bool-cases, inl, inr, arith,
}
use sky_trax_project.Aviation.Rows.{
  Airline, OpenFlightsAirline, Session, first_row, object_at, put_object,
}
use sky_trax_project.Aviation.Identity.{Host, canonical_airline_slug}
use sky_trax_project.Aviation.Identity.Merge.{Resolved, merge_airline_metadata_from_openflights}
use sky_trax_project.Aviation.Identity.Resolve.{
  IdentityStats, IdentityAction, merge, create, skip, Resolution, resolve_airline_identity,
  merge_into, add_airline, new_airline, existing_row, merged_at, resolved_to,
}
use sky_trax_project.Aviation.Sync.{
  Tables, Loop, sync_airline, sync_each, resolved_for, tally, resolve_turn, sync_slug,
}
use sky_trax_project.Aviation.Sync.Eligible.{is_eligible, sync_airline-skips, sync_airline-eligible}

-- A condition that a merge does not lose.
abbrev pub IsPersistent : Host → (Airline → Bool) → Type 0
IsPersistent py p =
    (existing : Airline) (ofa : OpenFlightsAirline) (r : Resolved)
    → p existing ≡ true
    → p (merge_airline_metadata_from_openflights py existing ofa r).0 ≡ true

abbrev pub finds : (Airline → Bool) → List Airline → Bool
finds p [] = false
finds p (a ∷ rows) = p a || finds p rows

pub first_row-finds :
    (p : Airline → Bool) (rows : List Airline) → is_some (first_row p rows) ≡ finds p rows
unfolding first_row
first_row-finds p [] = refl
first_row-finds p (a ∷ rows) = ground (arith, first_row-finds p rows)

finds-append :
    (p : Airline → Bool) (rows more : List Airline)
    → finds p rows ≡ true
    → finds p (rows ++ more) ≡ true
finds-append p [] more h = absurd (ground arith)
finds-append p (a ∷ rows) more h = ground (arith, finds-append p rows more)

abbrev or_given : Airline → Option Airline → Airline
or_given b none = b
or_given b (some a) = a

the_old : (b old : Airline) → some b ≡ some old → b ≡ old
the_old b old h = ap (or_given b) h

finds-put :
    (p : Airline → Bool) (n : ℕ) (new : Airline) (rows : List Airline) (old : Airline)
    → object_at n rows ≡ some old
    → ((p old ≡ true) → (p new ≡ true))
    → finds p rows ≡ true
    → finds p (put_object n new rows) ≡ true
unfolding put_object object_at
finds-put p n new [] old at kept h = h
finds-put p zero new (b ∷ rows) old at kept h = ground (arith, ap p (the_old b old at))
finds-put p (suc n) new (b ∷ rows) old at kept h =
    ground (arith, finds-put p n new rows old at kept)

module _ (py : Host) (p : Airline → Bool) (kept : IsPersistent py p) where
  merged_finds :
      (session : Session) (ofa : OpenFlightsAirline) (r : Resolved) (n : ℕ)
      (existing : Option Airline)
      → object_at n session.objects ≡ existing
      → finds p session.objects ≡ true
      → finds p (merged_at py session ofa r n existing).0.objects ≡ true
  merged_finds session ofa r n none at h = h
  merged_finds session ofa r n (some old) at h =
      finds-put p n (merge_airline_metadata_from_openflights py old ofa r).0 session.objects old at
        (kept old ofa r) h

  to_finds :
      (session : Session) (slug : String) (ofa : OpenFlightsAirline) (d : Dict ℕ) (r : Resolved)
      (stats : IdentityStats) (row : Option ℕ)
      → finds p session.objects ≡ true
      → finds p (resolved_to py session slug ofa d r stats row).session.objects ≡ true
  unfolding merge_into add_airline
  to_finds session slug ofa d r stats none h =
      finds-append p session.objects (new_airline py slug ofa r ∷ []) h
  to_finds session slug ofa d r stats (some n) h =
      merged_finds session ofa r n (object_at n session.objects) refl h

  resolve_finds :
      (session : Session) (ofa : OpenFlightsAirline) (d : Dict ℕ) (r : Resolved)
      (stats : IdentityStats)
      → finds p session.objects ≡ true
      → finds p (resolve_airline_identity py session ofa d r stats).session.objects ≡ true
  unfolding resolve_airline_identity
  resolve_finds session ofa d r stats h =
      let slug = canonical_airline_slug py ofa.name in
      elim (Bool-cases (str_eq slug "")) [
        | inl empty ↦ rw empty h
        | inr full ↦
            rw full (to_finds session slug ofa d r stats (existing_row py session slug ofa d) h)
      ]

  tally-finds :
      (loop : Loop) (stream : List String) (found : Resolution) (a : IdentityAction)
      → finds p found.session.objects ≡ true
      → finds p (tally loop stream found a).session.objects ≡ true
  tally-finds loop stream found merge h = h
  tally-finds loop stream found create h = h
  tally-finds loop stream found skip h = h

  airline_finds :
      (t : Tables) (now : ℕ) (ofa : OpenFlightsAirline) (loop : Loop)
      → finds p loop.session.objects ≡ true
      → finds p (sync_airline py t now ofa loop).session.objects ≡ true
  unfolding sync_slug resolve_turn
  airline_finds t now ofa loop h =
      let slug = canonical_airline_slug py ofa.name in
      let found = resolve_turn py t now ofa slug loop in
      elim (Bool-cases (is_eligible py ofa)) [
        | inl on ↦ rw (sync_airline-eligible py t now ofa loop on) (
            tally-finds loop (slug ∷ loop.of_slug_stream) found found.action
              (resolve_finds loop.session ofa loop.slug_lookup (resolved_for t now ofa) _ h))
        | inr off ↦ rw (sync_airline-skips py t now ofa loop off) h
      ]

  pub each_finds :
      (t : Tables) (now : ℕ) (airlines : List OpenFlightsAirline) (loop : Loop)
      → finds p loop.session.objects ≡ true
      → finds p (sync_each py t now airlines loop).session.objects ≡ true
  unfolding sync_each
  each_finds t now [] loop h = h
  each_finds t now (ofa ∷ airlines) loop h =
      each_finds t now airlines (sync_airline py t now ofa loop) (airline_finds t now ofa loop h)

-- ===== src/Aviation/Sync/Unique.antt =====
-- The slugs of the rows stay distinct, since the lookup knows every one of them.
use sky_trax_project.Prelude.{
  ℕ, zero, suc, ◌+◌, String, Bool, true, false, ◌||◌, Option, none, some, List, [], ◌∷◌, ◌++◌, ◌≡◌,
  refl, sym, ap, ◌∙◌, is_some, if◌then◌else◌, Dict, lookup, insert, lookup-insert, str_eq, eq_iff,
  one_of, one_of-append, Bool-cases, Option-cases, inl, inr, arith, length,
}
use sky_trax_project.Aviation.Rows.{
  Airline, OpenFlightsAirline, Session, slugs, unique_slugs, object_at, put_object,
}
use sky_trax_project.Aviation.Identity.{
  Host, canonical_airline_slug, build_airline_slug_lookup, lookup_from, merge_raw_metadata,
}
use sky_trax_project.Aviation.Identity.Merge.{
  Resolved, merge_airline_metadata_from_openflights, filled_row, fills_any, with_lineage, patch_raw,
  stamped_if,
}
use sky_trax_project.Aviation.Identity.Resolve.{
  IdentityStats, IdentityAction, merge, create, skip, Resolution, resolve_airline_identity,
  merge_into, add_airline, set_default, new_airline, existing_row, merged_at, resolved_to,
}
use sky_trax_project.Aviation.Sync.Eligible.{is_eligible, sync_airline-skips, sync_airline-eligible}
use sky_trax_project.Aviation.Sync.{
  Tables, Loop, sync_airline, sync_each, loop_start, resolved_for, resolve_turn, sync_slug, tally,
}

-- The slugs of the objects are distinct, and the lookup has them all.
pub record Known (session : Session) (slug_lookup : Dict ℕ) : Type 0 where
  pub apart : unique_slugs (slugs session.objects) ≡ true
  pub found :
      (s : String) → one_of s (slugs session.objects) ≡ true → is_some (lookup s slug_lookup) ≡ true

pub slugs-append : (rows more : List Airline) → slugs (rows ++ more) ≡ slugs rows ++ slugs more
unfolding slugs
slugs-append [] more = refl
slugs-append (a ∷ rows) more = rw (slugs-append rows more) refl

unique_slugs-append :
    (xs : List String) (s : String)
    → unique_slugs xs ≡ true
    → one_of s xs ≡ false
    → unique_slugs (xs ++ s ∷ []) ≡ true
unfolding unique_slugs one_of
unique_slugs-append [] s h fresh = refl
unique_slugs-append (x ∷ xs) s h fresh =
    rw (one_of-append x xs (s ∷ []))
      (ground (arith, unique_slugs-append xs s, eq_iff x s, eq_iff s x))

abbrev slug_of : Airline → Option Airline → String
slug_of b none = b.slug
slug_of b (some a) = a.slug

pub slugs-put :
    (n : ℕ) (a : Airline) (rows : List Airline) (old : Airline)
    → object_at n rows ≡ some old
    → a.slug ≡ old.slug
    → slugs (put_object n a rows) ≡ slugs rows
unfolding slugs put_object object_at
slugs-put n a [] old h same = refl
slugs-put zero a (b ∷ rows) old h same = rw (same ∙ sym (ap (slug_of b) h)) refl
slugs-put (suc n) a (b ∷ rows) old h same = rw (slugs-put n a rows old h same) refl

stamped_if-slug : (b : Bool) (now : ℕ) (row : Airline) → (stamped_if b now row).0.slug ≡ row.slug
stamped_if-slug true now row = refl
stamped_if-slug false now row = refl

-- Merging keeps the slug.
pub merge-slug :
    (py : Host) (existing : Airline) (ofa : OpenFlightsAirline) (r : Resolved)
    → (merge_airline_metadata_from_openflights py existing ofa r).0.slug ≡ existing.slug
unfolding merge_airline_metadata_from_openflights filled_row
merge-slug py existing ofa r =
    let raw = merge_raw_metadata existing.raw_metadata (patch_raw ofa) in
    let assigned = py.differ raw.1 raw.0 in
    stamped_if-slug (fills_any py existing ofa r || assigned) r.now
      (with_lineage (if assigned then raw.1 else raw.0) (filled_row py existing ofa r))

set_default-keeps :
    (s k : String) (n : ℕ) (d : Dict ℕ)
    → is_some (lookup s d) ≡ true
    → is_some (lookup s (set_default k n d)) ≡ true
unfolding set_default
set_default-keeps s k n d h = ground (arith, lookup-insert s k n d)

merged-Known :
    (py : Host) (session : Session) (ofa : OpenFlightsAirline) (r : Resolved) (d : Dict ℕ) (n : ℕ)
    (existing : Option Airline)
    → object_at n session.objects ≡ existing
    → Known session d
    → Known (merged_at py session ofa r n existing).0 d
merged-Known py session ofa r d n none at h = h
merged-Known py session ofa r d n (some old) at h =
    let same =
      slugs-put n (merge_airline_metadata_from_openflights py old ofa r).0 session.objects old at
        (merge-slug py old ofa r) in
    record { apart = rw same h.apart; found = rw same h.found }

default-Known :
    (session : Session) (slug : String) (n : ℕ) (d : Dict ℕ)
    → Known session d
    → Known session (set_default slug n d)
default-Known session slug n d h = record {
  apart = h.apart;
  found = λ s at. set_default-keeps s slug n d (h.found s at);
}

missed :
    (py : Host) (session : Session) (slug : String) (ofa : OpenFlightsAirline) (d : Dict ℕ)
    → existing_row py session slug ofa d ≡ none
    → lookup slug d ≡ none
unfolding existing_row
missed py session slug ofa d h = elim (Option-cases (lookup slug d)) [
  | inl none_there ↦ none_there
  | inr (n, there) ↦ absurd (ground (arith))
]

among-insert :
    (s slug : String) (n : ℕ) (d : Dict ℕ) (known : List String)
    → ((one_of s known ≡ true) → (is_some (lookup s d) ≡ true))
    → (one_of s known || one_of s (slug ∷ [])) ≡ true
    → is_some (lookup s (insert slug n d)) ≡ true
unfolding one_of
among-insert s slug n d known h at = ground (arith, lookup-insert s slug n d)

added-Known :
    (py : Host) (session : Session) (slug : String) (ofa : OpenFlightsAirline) (d : Dict ℕ)
    (r : Resolved)
    → Known session d
    → lookup slug d ≡ none
    → Known
        (record {
          stored = session.stored;
          objects = session.objects ++ new_airline py slug ofa r ∷ [];
        })
        (insert slug (length session.objects) d)
unfolding new_airline slugs one_of
added-Known py session slug ofa d r h new =
    let more = slugs-append session.objects (new_airline py slug ofa r ∷ []) in
    record {
      apart =
          rw more (
            unique_slugs-append (slugs session.objects) slug h.apart
              (ground (arith, h.found slug)));
      found = λ s at.
          among-insert s slug (length session.objects) d (slugs session.objects) (h.found s)
            (sym (ap (one_of s) more ∙ one_of-append s (slugs session.objects) (slug ∷ [])) ∙ at);
    }

to-Known :
    (py : Host) (session : Session) (slug : String) (ofa : OpenFlightsAirline) (d : Dict ℕ)
    (r : Resolved) (stats : IdentityStats)
    → Known session d
    → (row : Option ℕ) → existing_row py session slug ofa d ≡ row
    → Known
        (resolved_to py session slug ofa d r stats row).session
        (resolved_to py session slug ofa d r stats row).slug_lookup
unfolding merge_into add_airline
to-Known py session slug ofa d r stats h none new =
    added-Known py session slug ofa d r h (missed py session slug ofa d new)
to-Known py session slug ofa d r stats h (some n) old =
    default-Known (merged_at py session ofa r n (object_at n session.objects)).0 slug n d
      (merged-Known py session ofa r d n (object_at n session.objects) refl h)

resolve-Known :
    (py : Host) (session : Session) (ofa : OpenFlightsAirline) (d : Dict ℕ) (r : Resolved)
    (stats : IdentityStats)
    → Known session d
    → Known
        (resolve_airline_identity py session ofa d r stats).session
        (resolve_airline_identity py session ofa d r stats).slug_lookup
unfolding resolve_airline_identity
resolve-Known py session ofa d r stats h =
    let slug = canonical_airline_slug py ofa.name in
    elim (Bool-cases (str_eq slug "")) [
      | inl empty ↦ rw empty h
      | inr full ↦
          rw full
            (to-Known py session slug ofa d r stats h (existing_row py session slug ofa d) refl)
    ]

tally-Known :
    (loop : Loop) (stream : List String) (found : Resolution) (a : IdentityAction)
    → Known found.session found.slug_lookup
    → Known (tally loop stream found a).session (tally loop stream found a).slug_lookup
tally-Known loop stream found merge h = h
tally-Known loop stream found create h = h
tally-Known loop stream found skip h = h

pub sync_airline-Known :
    (py : Host) (t : Tables) (now : ℕ) (ofa : OpenFlightsAirline) (loop : Loop)
    → Known loop.session loop.slug_lookup
    → Known (sync_airline py t now ofa loop).session (sync_airline py t now ofa loop).slug_lookup
unfolding sync_slug resolve_turn
sync_airline-Known py t now ofa loop h =
    let slug = canonical_airline_slug py ofa.name in
    let found = resolve_turn py t now ofa slug loop in
    elim (Bool-cases (is_eligible py ofa)) [
      | inl on ↦ rw (sync_airline-eligible py t now ofa loop on) (
          tally-Known loop (slug ∷ loop.of_slug_stream) found found.action
            (resolve-Known py loop.session ofa loop.slug_lookup (resolved_for t now ofa) _ h))
      | inr off ↦ rw (sync_airline-skips py t now ofa loop off) h
    ]

pub sync_each-Known :
    (py : Host) (t : Tables) (now : ℕ) (airlines : List OpenFlightsAirline) (loop : Loop)
    → Known loop.session loop.slug_lookup
    → Known
        (sync_each py t now airlines loop).session
        (sync_each py t now airlines loop).slug_lookup
unfolding sync_each
sync_each-Known py t now [] loop h = h
sync_each-Known py t now (ofa ∷ airlines) loop h =
    sync_each-Known py t now airlines (sync_airline py t now ofa loop)
      (sync_airline-Known py t now ofa loop h)

pub lookup_from-found :
    (n : ℕ) (rows : List Airline) (d : Dict ℕ) (s : String)
    → is_some (lookup s (lookup_from n rows d)) ≡ (one_of s (slugs rows) || is_some (lookup s d))
unfolding lookup_from slugs one_of
lookup_from-found n [] d s = refl
lookup_from-found n (a ∷ rows) d s =
    rw (lookup_from-found (n + 1) rows (insert a.slug n d) s)
      (ground (arith, lookup-insert s a.slug n d))

pub start-Known :
    (rows : List Airline)
    → unique_slugs (slugs rows) ≡ true
    → Known (loop_start rows).session (loop_start rows).slug_lookup
unfolding loop_start build_airline_slug_lookup
start-Known rows h = record {
  apart = h;
  found = λ s at. rw (lookup_from-found 0 rows [] s, at) refl;
}

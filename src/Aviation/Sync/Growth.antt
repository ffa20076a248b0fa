-- ===== src/Aviation/Sync/Growth.antt =====
-- What a synchronisation leaves: the rows it found, under their slugs, and one more for each creation.
use sky_trax_project.Prelude.{
  ℕ, ◌+◌, String, true, Option, none, some, List, [], ◌∷◌, ◌++◌, ◌≡◌, refl, sym, ◌∙◌, Dict, str_eq,
  Bool-cases, inl, inr, arith, length, length-append,
}
use sky_trax_project.Aviation.Rows.{
  Airline, OpenFlightsAirline, Session, slugs, unique_slugs, object_at,
}
use sky_trax_project.Aviation.Identity.{Host, canonical_airline_slug}
use sky_trax_project.Aviation.Identity.Merge.{Resolved, merge_airline_metadata_from_openflights}
use sky_trax_project.Aviation.Identity.Resolve.{
  IdentityStats, IdentityAction, merge, create, skip, Resolution, resolve_airline_identity,
  merge_into, add_airline, new_airline, existing_row, merged_at, resolved_to,
}
use sky_trax_project.Aviation.Sync.{
  Tables, SyncStats, Loop, sync_airline, sync_each, loop_start, flush, SyncEnd, synced, sync_once,
  sync_airlines, resolved_for, tally, added, resolve_turn, sync_slug, skip_airline,
}
use sky_trax_project.Aviation.Sync.Unique.{
  slugs-append, slugs-put, merge-slug, start-Known, sync_each-Known,
}
use sky_trax_project.Aviation.Sync.Eligible.{is_eligible, sync_airline-skips, sync_airline-eligible}

-- The rows and those added behind them, by their slugs.
pub record Grown (old new : List String) (created : ℕ) : Type 0 where
  pub more : List String
  pub behind : new ≡ old ++ more
  pub counted : created ≡ length more

pub append-nil : (xs : List String) → xs ++ [] ≡ xs
append-nil [] = refl
append-nil (x ∷ xs) = rw (append-nil xs) refl

append_assoc : (xs ys zs : List String) → (xs ++ ys) ++ zs ≡ xs ++ (ys ++ zs)
append_assoc [] ys zs = refl
append_assoc (x ∷ xs) ys zs = rw (append_assoc xs ys zs) refl

not_grown : (old new : List String) → new ≡ old → Grown old new 0
not_grown old new same = record { more = []; behind = same ∙ sym (append-nil old); counted = refl }

grown_twice :
    (old mid new : List String) (m n : ℕ)
    → Grown old mid m
    → Grown mid new n
    → Grown old new (m + n)
grown_twice old mid new m n a b = record {
  more = a.more ++ b.more;
  behind = rw (b.behind, a.behind) (append_assoc old a.more b.more);
  counted = rw (a.counted, b.counted) (sym (length-append a.more b.more));
}

abbrev created_by : IdentityAction → ℕ
created_by create = 1
created_by merge = 0
created_by skip = 0

merged-slugs :
    (py : Host) (session : Session) (ofa : OpenFlightsAirline) (r : Resolved) (n : ℕ)
    (existing : Option Airline)
    → object_at n session.objects ≡ existing
    → slugs (merged_at py session ofa r n existing).0.objects ≡ slugs session.objects
merged-slugs py session ofa r n none at = refl
merged-slugs py session ofa r n (some old) at =
    slugs-put n (merge_airline_metadata_from_openflights py old ofa r).0 session.objects old at
      (merge-slug py old ofa r)

to-Grown :
    (py : Host) (session : Session) (slug : String) (ofa : OpenFlightsAirline) (d : Dict ℕ)
    (r : Resolved) (stats : IdentityStats) (row : Option ℕ)
    → Grown
        (slugs session.objects)
        (slugs (resolved_to py session slug ofa d r stats row).session.objects)
        (created_by (resolved_to py session slug ofa d r stats row).action)
unfolding merge_into add_airline slugs new_airline
to-Grown py session slug ofa d r stats none = record {
  more = slug ∷ [];
  behind = slugs-append session.objects (new_airline py slug ofa r ∷ []);
  counted = refl;
}
to-Grown py session slug ofa d r stats (some n) =
    not_grown (slugs session.objects)
      (slugs (merged_at py session ofa r n (object_at n session.objects)).0.objects)
      (merged-slugs py session ofa r n (object_at n session.objects) refl)

resolve-Grown :
    (py : Host) (session : Session) (ofa : OpenFlightsAirline) (d : Dict ℕ) (r : Resolved)
    (stats : IdentityStats)
    → Grown
        (slugs session.objects)
        (slugs (resolve_airline_identity py session ofa d r stats).session.objects)
        (created_by (resolve_airline_identity py session ofa d r stats).action)
unfolding resolve_airline_identity
resolve-Grown py session ofa d r stats =
    let slug = canonical_airline_slug py ofa.name in
    elim (Bool-cases (str_eq slug "")) [
      | inl empty ↦ rw empty (not_grown (slugs session.objects) (slugs session.objects) refl)
      | inr full ↦
          rw full (to-Grown py session slug ofa d r stats (existing_row py session slug ofa d))
    ]

-- Between two turns of the loop.
pub record LoopGrown (old new : Loop) : Type 0 where
  pub created : ℕ
  pub rows : Grown (slugs old.session.objects) (slugs new.session.objects) created
  pub tallied : new.created_local ≡ old.created_local + created

tally-Grown :
    (loop : Loop) (stream : List String) (found : Resolution) (a : IdentityAction)
    → Grown (slugs loop.session.objects) (slugs found.session.objects) (created_by a)
    → LoopGrown loop (tally loop stream found a)
tally-Grown loop stream found merge h = record { created = 0; rows = h; tallied = omega arith }
tally-Grown loop stream found create h = record { created = 1; rows = h; tallied = omega arith }
tally-Grown loop stream found skip h = record { created = 0; rows = h; tallied = omega arith }

same_loop :
    (old new : Loop)
    → slugs new.session.objects ≡ slugs old.session.objects
    → new.created_local ≡ old.created_local
    → LoopGrown old new
same_loop old new same count = record {
  created = 0;
  rows = not_grown (slugs old.session.objects) (slugs new.session.objects) same;
  tallied = omega (arith, count);
}

sync_airline-Grown :
    (py : Host) (t : Tables) (now : ℕ) (ofa : OpenFlightsAirline) (loop : Loop)
    → LoopGrown loop (sync_airline py t now ofa loop)
unfolding sync_slug resolve_turn
sync_airline-Grown py t now ofa loop =
    let slug = canonical_airline_slug py ofa.name in
    let found = resolve_turn py t now ofa slug loop in
    elim (Bool-cases (is_eligible py ofa)) [
      | inl on ↦ rw (sync_airline-eligible py t now ofa loop on) (
          tally-Grown loop (slug ∷ loop.of_slug_stream) found found.action
            (resolve-Grown py loop.session ofa loop.slug_lookup (resolved_for t now ofa) _))
      | inr off ↦
          rw (sync_airline-skips py t now ofa loop off)
            (same_loop loop (skip_airline loop) refl refl)
    ]

pub sync_each-Grown :
    (py : Host) (t : Tables) (now : ℕ) (airlines : List OpenFlightsAirline) (loop : Loop)
    → LoopGrown loop (sync_each py t now airlines loop)
unfolding sync_each
sync_each-Grown py t now [] loop = same_loop loop loop refl refl
sync_each-Grown py t now (ofa ∷ airlines) loop =
    let next = sync_airline py t now ofa loop in
    let last = sync_each py t now airlines next in
    let a = sync_airline-Grown py t now ofa loop in
    let b = sync_each-Grown py t now airlines next in
    record {
      created = a.created + b.created;
      rows =
          grown_twice (slugs loop.session.objects) (slugs next.session.objects)
            (slugs last.session.objects) a.created b.created a.rows b.rows;
      tallied = omega (arith, a.tallied, b.tallied);
    }

pub sync_airlines-ends :
    (py : Host) (t : Tables) (now : ℕ) (rows : List Airline) (airlines : List OpenFlightsAirline)
    (stats : SyncStats)
    → unique_slugs (slugs rows) ≡ true
    → sync_airlines py t now rows airlines stats
      ≡ synced
          (sync_each py t now airlines (loop_start rows)).session.objects
          (added stats (sync_each py t now airlines (loop_start rows)))
unfolding sync_airlines sync_once flush
sync_airlines-ends py t now rows airlines stats h =
    rw (sync_each-Known py t now airlines (loop_start rows) (start-Known rows h)).apart refl

-- A synchronisation that succeeds, with the rows that it leaves.
pub record Succeeds (rows : List Airline) (stats : SyncStats) (end : SyncEnd) : Type 0 where
  pub left : List Airline
  pub after : SyncStats
  pub ends : end ≡ synced left after
  pub apart : unique_slugs (slugs left) ≡ true
  pub created : ℕ
  pub grown : Grown (slugs rows) (slugs left) created
  pub counted : after.airlines_created ≡ stats.airlines_created + created

-- Where the slugs of the rows are distinct, a synchronisation never meets the unique constraint: it ends, the slugs are distinct again, the rows that were there stand first and under their slugs, and there is one more row for each that the statistics count as created.
pub sync_airlines-Succeeds :
    (py : Host) (t : Tables) (now : ℕ) (rows : List Airline) (airlines : List OpenFlightsAirline)
    (stats : SyncStats)
    → unique_slugs (slugs rows) ≡ true
    → Succeeds rows stats (sync_airlines py t now rows airlines stats)
unfolding loop_start
sync_airlines-Succeeds py t now rows airlines stats h =
    let last = sync_each py t now airlines (loop_start rows) in
    let known = sync_each-Known py t now airlines (loop_start rows) (start-Known rows h) in
    let grown = sync_each-Grown py t now airlines (loop_start rows) in
    record {
      left = last.session.objects;
      after = added stats last;
      ends = sync_airlines-ends py t now rows airlines stats h;
      apart = known.apart;
      created = grown.created;
      grown = grown.rows;
      counted = omega (arith, grown.tallied);
    }

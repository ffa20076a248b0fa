-- ===== src/Aviation/Sync/Second.antt =====
-- A second synchronisation of the same airlines.
use sky_trax_project.Prelude.{
  ℕ, String, true, List, [], ◌∷◌, ◌++◌, ◌≡◌, refl, sym, ap, ◌∙◌, is_some, Dict, lookup, length,
  one_of, one_of-append, Bool-cases, Option-cases, inl, inr, arith,
}
use sky_trax_project.Aviation.Rows.{Airline, OpenFlightsAirline, Session, slugs, unique_slugs}
use sky_trax_project.Aviation.Identity.{Host, canonical_airline_slug, build_airline_slug_lookup}
use sky_trax_project.Aviation.Identity.Resolve.{existing_row}
use sky_trax_project.Aviation.Sync.{
  Tables, SyncStats, Loop, sync_airline, sync_each, skip_airline, loop_start, sync_airlines,
  rows_of, SyncEnd, synced, added,
}
use sky_trax_project.Aviation.Sync.Unique.{lookup_from-found, start-Known, sync_each-Known}
use sky_trax_project.Aviation.Sync.Eligible.{is_eligible, sync_airline-skips}
use sky_trax_project.Aviation.Sync.Growth.{sync_each-Grown, append-nil, sync_airlines-ends}
use sky_trax_project.Aviation.Sync.Persistent.{each_finds}
use sky_trax_project.Aviation.Sync.Carried.{Names, Carries, existing_row-carried}
use sky_trax_project.Aviation.Sync.Turns.{Turns, sync_airline-Turns}

existing_row-known :
    (py : Host) (session : Session) (slug : String) (ofa : OpenFlightsAirline) (d : Dict ℕ)
    → is_some (lookup slug d) ≡ true
    → is_some (existing_row py session slug ofa d) ≡ true
unfolding existing_row
existing_row-known py session slug ofa d h = elim (Option-cases (lookup slug d)) [
  | inl missing ↦ absurd (ground (arith))
  | inr (n, there) ↦ rw there refl
]

-- The lookup of the second run has what the lookup of the first one has, and every slug that the
-- first one leaves.
pub record Ahead (py : Host) (old new : Loop) (last : List String) : Type 0 where
  pub carries : Carries py old.session.stored new.session.stored
  pub lookups :
      (s : String)
      → is_some (lookup s old.slug_lookup) ≡ true
      → is_some (lookup s new.slug_lookup) ≡ true
  pub final : (s : String) → one_of s last ≡ true → is_some (lookup s new.slug_lookup) ≡ true

skipped-Ahead :
    (py : Host) (old new old2 new2 : Loop) (last : List String)
    → old2 ≡ skip_airline old
    → new2 ≡ skip_airline new
    → Ahead py old new last
    → Ahead py old2 new2 last
skipped-Ahead py old new old2 new2 last a b h =
    rw (a, b) (record { carries = h.carries; lookups = h.lookups; final = h.final })

start-Ahead :
    (py : Host) (t : Tables) (now : ℕ) (rows : List Airline) (airlines : List OpenFlightsAirline)
    → Ahead py
        (loop_start rows)
        (loop_start (sync_each py t now airlines (loop_start rows)).session.objects)
        (slugs (sync_each py t now airlines (loop_start rows)).session.objects)
unfolding loop_start build_airline_slug_lookup
start-Ahead py t now rows airlines =
    let last = sync_each py t now airlines (loop_start rows) in
    let grown = (sync_each-Grown py t now airlines (loop_start rows)).rows in
    let found = lookup_from-found 0 last.session.objects [] in
    record {
      carries = λ p kept h. each_finds py p kept t now airlines (loop_start rows) h;
      lookups = λ s known.
          found s
          ∙ rw grown.behind (
              rw (one_of-append s (slugs rows) grown.more)
                (ground (arith, lookup_from-found 0 rows [] s)));
      final = λ s at. rw (found s, at) refl;
    }

module _ (py : Host) (names : Names py) (t u : Tables) (now later : ℕ) where
  finds_row :
      (ofa : OpenFlightsAirline) (airlines : List OpenFlightsAirline) (old new : Loop)
      → Turns py ofa (canonical_airline_slug py ofa.name) old (sync_airline py t now ofa old)
      → Ahead py old new
          (slugs (sync_each py t now airlines (sync_airline py t now ofa old)).session.objects)
      → is_some
          (existing_row py new.session (canonical_airline_slug py ofa.name) ofa new.slug_lookup)
        ≡ true
  finds_row ofa airlines old new turn h =
      let slug = canonical_airline_slug py ofa.name in
      let next = sync_airline py t now ofa old in
      let grown = (sync_each-Grown py t now airlines next).rows in
      elim (Option-cases (existing_row py old.session slug ofa old.slug_lookup)) [
        | inl missing ↦ existing_row-known py new.session slug ofa new.slug_lookup (
            h.final slug (
              ap (one_of slug) grown.behind
              ∙ one_of-append slug (slugs next.session.objects) grown.more
              ∙ rw (turn.creates missing) refl))
        | inr (n, there) ↦
            existing_row-carried py names old.session new.session h.carries slug ofa old.slug_lookup
              new.slug_lookup (h.lookups slug) (rw there refl)
      ]

  turn-Ahead :
      (ofa : OpenFlightsAirline) (slug : String) (old new old2 new2 : Loop) (last : List String)
      → Turns py ofa slug old old2
      → Turns py ofa slug new new2
      → Ahead py old new last
      → Ahead py old2 new2 last
  turn-Ahead ofa slug old new old2 new2 last a b h = record {
    carries = rw (a.stored, b.stored) h.carries;
    lookups = λ s known. rw (b.learns s) (ground (arith, a.learns s, h.lookups s));
    final = λ s at. rw (b.learns s, h.final s at) refl;
  }

  creates_nothing :
      (airlines : List OpenFlightsAirline) (old new : Loop)
      → Ahead py old new (slugs (sync_each py t now airlines old).session.objects)
      → (sync_each py u later airlines new).created_local ≡ new.created_local
  unfolding sync_each
  creates_nothing [] old new h = refl
  creates_nothing (ofa ∷ airlines) old new h =
      let slug = canonical_airline_slug py ofa.name in
      let old2 = sync_airline py t now ofa old in
      let new2 = sync_airline py u later ofa new in
      let last = slugs (sync_each py t now airlines old2).session.objects in
      elim (Bool-cases (is_eligible py ofa)) [
        | inl on ↦
            let a = sync_airline-Turns py t now ofa old on in
            let b = sync_airline-Turns py u later ofa new on in
            creates_nothing airlines old2 new2 (turn-Ahead ofa slug old new old2 new2 last a b h)
            ∙ b.merges (finds_row ofa airlines old new a h)
        | inr off ↦
            let skipped = sync_airline-skips py u later ofa new off in
            creates_nothing airlines old2 new2 (
              skipped-Ahead py old new old2 new2 last (sync_airline-skips py t now ofa old off)
                skipped h)
            ∙ ap (λ loop. loop.created_local) skipped
      ]

-- How a synchronisation leaves the rows' slugs as they are.
pub record CreatesNothing (rows : List Airline) (stats : SyncStats) (end : SyncEnd) : Type 0 where
  pub left : List Airline
  pub after : SyncStats
  pub ends : end ≡ synced left after
  pub same_rows : slugs left ≡ slugs rows
  pub none_created : after.airlines_created ≡ stats.airlines_created

no_more : (more : List String) → 0 ≡ length more → more ≡ []
no_more [] h = refl
no_more (s ∷ more) h = absurd (omega (arith, h))

again-CreatesNothing :
    (py : Host)
    → Names py
    → (t u : Tables) (now later : ℕ) (rows : List Airline) (airlines : List OpenFlightsAirline)
      (second : SyncStats)
    → unique_slugs (slugs (sync_each py t now airlines (loop_start rows)).session.objects) ≡ true
    → CreatesNothing (sync_each py t now airlines (loop_start rows)).session.objects second (
        sync_airlines py u later
          (sync_each py t now airlines (loop_start rows)).session.objects
          airlines
          second)
unfolding loop_start
again-CreatesNothing py names t u now later rows airlines second apart =
    let left = (sync_each py t now airlines (loop_start rows)).session.objects in
    let last = sync_each py u later airlines (loop_start left) in
    let grown = sync_each-Grown py u later airlines (loop_start left) in
    let nothing : last.created_local ≡ 0 =
      creates_nothing py names t u now later airlines (loop_start rows) (loop_start left)
        (start-Ahead py t now rows airlines) in
    record {
      left = last.session.objects;
      after = added second last;
      ends = sync_airlines-ends py u later left airlines second apart;
      same_rows =
          grown.rows.behind
          ∙ ap (λ more. slugs left ++ more)
              (no_more grown.rows.more (omega (arith, nothing, grown.tallied, grown.rows.counted)))
          ∙ append-nil (slugs left);
      none_created = omega (arith, nothing);
    }

-- Where the database's and Python's functions agree on the empty text, a second synchronisation of the same airlines in the rows that the first one left, at whatever time and with whatever tables, succeeds, creates no row and leaves the rows under the same slugs.
pub second_sync-CreatesNothing :
    (py : Host)
    → Names py
    → (t u : Tables) (now later : ℕ) (rows left : List Airline) (airlines : List OpenFlightsAirline)
      (stats after second : SyncStats)
    → unique_slugs (slugs rows) ≡ true
    → sync_airlines py t now rows airlines stats ≡ synced left after
    → CreatesNothing left second (sync_airlines py u later left airlines second)
second_sync-CreatesNothing py names t u now later rows left airlines stats after second h e =
    let first = sync_each py t now airlines (loop_start rows) in
    let apart = (sync_each-Known py t now airlines (loop_start rows) (start-Known rows h)).apart in
    let left_is : left ≡ first.session.objects =
      sym (ap rows_of e) ∙ ap rows_of (sync_airlines-ends py t now rows airlines stats h) in
    rw left_is (again-CreatesNothing py names t u now later rows airlines second apart)

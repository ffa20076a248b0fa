-- ===== src/Aviation/Sync/Turns.antt =====
-- What one turn of the loop does to the lookup, and when it creates a row.
use sky_trax_project.Prelude.{
  ℕ, String, Bool, true, false, ◌||◌, Option, none, some, List, [], ◌∷◌, ◌≡◌, refl, sym, ap, ◌∙◌,
  is_some, Dict, lookup, insert, lookup-insert, str_eq, eq_iff, one_of, one_of-append, arith,
}
use sky_trax_project.Aviation.Rows.{Airline, OpenFlightsAirline, Session, slugs, object_at}
use sky_trax_project.Aviation.Identity.{Host, canonical_airline_slug}
use sky_trax_project.Aviation.Identity.Merge.{Resolved}
use sky_trax_project.Aviation.Identity.Resolve.{
  IdentityStats, IdentityAction, merge, create, skip, Resolution, resolve_airline_identity,
  merge_into, add_airline, new_airline, existing_row, merged_at, resolved_to, set_default,
}
use sky_trax_project.Aviation.Sync.{
  Tables, Loop, sync_airline, resolved_for, tally, resolve_turn, sync_slug,
}
use sky_trax_project.Aviation.Sync.Unique.{slugs-append}
use sky_trax_project.Aviation.Sync.Eligible.{is_eligible, sync_airline-eligible}

-- The lookup behind a resolution has one more slug.
abbrev pub Learns : String → Dict ℕ → Dict ℕ → Type 0
Learns slug d e = (s : String) → is_some (lookup s e) ≡ (is_some (lookup s d) || str_eq s slug)

insert-Learns : (slug : String) (n : ℕ) (d : Dict ℕ) → Learns slug d (insert slug n d)
insert-Learns slug n d s = rw (lookup-insert s slug n d) (ground arith)

set_default-Learns : (slug : String) (n : ℕ) (d : Dict ℕ) → Learns slug d (set_default slug n d)
unfolding set_default
set_default-Learns slug n d s = ground (arith, lookup-insert s slug n d, eq_iff s slug)

merged-stored :
    (py : Host) (session : Session) (ofa : OpenFlightsAirline) (r : Resolved) (n : ℕ)
    (existing : Option Airline)
    → (merged_at py session ofa r n existing).0.stored ≡ session.stored
merged-stored py session ofa r n none = refl
merged-stored py session ofa r n (some old) = refl

-- What resolving promises, by the row that it finds.
pub record Resolves (session : Session) (slug : String) (d : Dict ℕ) (row : Option ℕ)
    (end : Resolution) : Type 0 where
  pub stored : end.session.stored ≡ session.stored
  pub learns : Learns slug d end.slug_lookup
  pub merges : is_some row ≡ true → end.action ≡ merge
  pub creates : row ≡ none → one_of slug (slugs end.session.objects) ≡ true

to-Resolves :
    (py : Host) (session : Session) (slug : String) (ofa : OpenFlightsAirline) (d : Dict ℕ)
    (r : Resolved) (stats : IdentityStats) (row : Option ℕ)
    → Resolves session slug d row (resolved_to py session slug ofa d r stats row)
unfolding merge_into add_airline slugs new_airline one_of
to-Resolves py session slug ofa d r stats none = record {
  stored = refl;
  learns = insert-Learns slug _ d;
  merges = λ h. absurd (ground arith);
  creates = λ h.
      ap (one_of slug) (slugs-append session.objects (new_airline py slug ofa r ∷ []))
      ∙ one_of-append slug (slugs session.objects) (slug ∷ [])
      ∙ ground (arith, eq_iff slug slug);
}
to-Resolves py session slug ofa d r stats (some n) = record {
  stored = merged-stored py session ofa r n (object_at n session.objects);
  learns = set_default-Learns slug n d;
  merges = λ h. refl;
  creates = λ h. absurd (ground arith);
}

resolve-Resolves :
    (py : Host) (session : Session) (ofa : OpenFlightsAirline) (d : Dict ℕ) (r : Resolved)
    (stats : IdentityStats)
    → str_eq (canonical_airline_slug py ofa.name) "" ≡ false
    → Resolves session
        (canonical_airline_slug py ofa.name)
        d
        (existing_row py session (canonical_airline_slug py ofa.name) ofa d)
        (resolve_airline_identity py session ofa d r stats)
unfolding resolve_airline_identity
resolve-Resolves py session ofa d r stats full =
    let slug = canonical_airline_slug py ofa.name in
    rw full (to-Resolves py session slug ofa d r stats (existing_row py session slug ofa d))

-- The same of a turn of the loop.
pub record Turns (py : Host) (ofa : OpenFlightsAirline) (slug : String) (loop next : Loop)
    : Type 0 where
  pub stored : next.session.stored ≡ loop.session.stored
  pub learns : Learns slug loop.slug_lookup next.slug_lookup
  pub merges :
      is_some (existing_row py loop.session slug ofa loop.slug_lookup) ≡ true
      → next.created_local ≡ loop.created_local
  pub creates :
      existing_row py loop.session slug ofa loop.slug_lookup ≡ none
      → one_of slug (slugs next.session.objects) ≡ true

abbrev is_merge : IdentityAction → Bool
is_merge merge = true
is_merge create = false
is_merge skip = false

apart : ¬ (create ≡ merge)
apart e = ground (arith, ap is_merge e)

tally-Turns :
    (py : Host) (ofa : OpenFlightsAirline) (slug : String) (loop : Loop) (stream : List String)
    (found : Resolution) (a : IdentityAction)
    → found.action ≡ a
    → Resolves loop.session slug loop.slug_lookup
        (existing_row py loop.session slug ofa loop.slug_lookup)
        found
    → Turns py ofa slug loop (tally loop stream found a)
tally-Turns py ofa slug loop stream found merge is h = record {
  stored = h.stored;
  learns = h.learns;
  merges = λ _. refl;
  creates = h.creates;
}
tally-Turns py ofa slug loop stream found create is h = record {
  stored = h.stored;
  learns = h.learns;
  merges = λ m. absurd (apart (sym is ∙ h.merges m));
  creates = h.creates;
}
tally-Turns py ofa slug loop stream found skip is h = record {
  stored = h.stored;
  learns = h.learns;
  merges = λ _. refl;
  creates = h.creates;
}

pub sync_airline-Turns :
    (py : Host) (t : Tables) (now : ℕ) (ofa : OpenFlightsAirline) (loop : Loop)
    → is_eligible py ofa ≡ true
    → Turns py ofa (canonical_airline_slug py ofa.name) loop (sync_airline py t now ofa loop)
unfolding sync_slug resolve_turn
sync_airline-Turns py t now ofa loop on =
    let slug = canonical_airline_slug py ofa.name in
    let found = resolve_turn py t now ofa slug loop in
    rw (sync_airline-eligible py t now ofa loop on) (
      tally-Turns py ofa slug loop (slug ∷ loop.of_slug_stream) found found.action refl (
        resolve-Resolves py loop.session ofa loop.slug_lookup (resolved_for t now ofa) _
          (ground arith)))

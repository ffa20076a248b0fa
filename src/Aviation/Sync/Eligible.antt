-- ===== src/Aviation/Sync/Eligible.antt =====
-- The airlines that a turn of the loop does not skip.
use sky_trax_project.Prelude.{
  ℕ, Bool, true, false, not, ◌&&◌, ◌||◌, ◌≡◌, refl, str_eq, Bool-cases, inl, inr, arith,
}
use sky_trax_project.Aviation.Rows.{OpenFlightsAirline}
use sky_trax_project.Aviation.Identity.{Host, canonical_airline_slug}
use sky_trax_project.Aviation.Sync.{Tables, Loop, sync_airline, sync_slug, skip_airline}

-- The airlines that are not skipped.
abbrev pub is_eligible : Host → OpenFlightsAirline → Bool
is_eligible py ofa =
    not (str_eq ofa.name "" || not ofa.active)
    && not (str_eq (canonical_airline_slug py ofa.name) "")

pub sync_airline-skips :
    (py : Host) (t : Tables) (now : ℕ) (ofa : OpenFlightsAirline) (loop : Loop)
    → is_eligible py ofa ≡ false
    → sync_airline py t now ofa loop ≡ skip_airline loop
unfolding sync_airline
sync_airline-skips py t now ofa loop h = elim (Bool-cases (str_eq ofa.name "" || not ofa.active)) [
  | inl off ↦ rw off refl
  | inr on ↦ elim (Bool-cases (str_eq (canonical_airline_slug py ofa.name) "")) [
    | inl empty ↦ rw (on, empty) refl
    | inr full ↦ absurd (ground (arith))
  ]
]

pub sync_airline-eligible :
    (py : Host) (t : Tables) (now : ℕ) (ofa : OpenFlightsAirline) (loop : Loop)
    → is_eligible py ofa ≡ true
    → sync_airline py t now ofa loop
      ≡ sync_slug py t now ofa (canonical_airline_slug py ofa.name) loop
unfolding sync_airline
sync_airline-eligible py t now ofa loop h =
    let named : (str_eq ofa.name "" || not ofa.active) ≡ false = ground arith in
    let full : str_eq (canonical_airline_slug py ofa.name) "" ≡ false = ground arith in
    rw (named, full) refl

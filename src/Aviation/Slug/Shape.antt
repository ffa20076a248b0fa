-- ===== src/Aviation/Slug/Shape.antt =====
-- Every slug has the shape of one: words of small letters and digits between single dashes.
use Prim.Native.Char.{code}
use Prim.Native.String.{String}
use sky_trax_project.Prelude.{
  ◌≡◌, refl, Bool, true, false, not, ◌&&◌, ◌||◌, leb, if◌then◌else◌, arith, Bool-cases, inl, inr,
}
use sky_trax_project.Aviation.Slug.{
  is_dash, is_plain, is_gap, drop_marks, starts, dash_runs, strip_left, no_text, strip_right,
  slugify,
}

-- Where a reader of a slug stands: at its start, behind a word's character, behind a dash.
pub data Place : Type 0 where
  at_start in_word at_dash : Place

-- The text is a slug from there on.
unfoldable pub is_slug : Place → String → Bool
is_slug at_dash String.[] = false
is_slug at_start String.[] = true
is_slug in_word String.[] = true
is_slug in_word (String.◌∷◌ c s) =
    let after = is_slug at_dash s in
    let rest = is_slug in_word s in if is_dash c then after else is_plain c && rest
is_slug at_start (String.◌∷◌ c s) = is_plain c && is_slug in_word s
is_slug at_dash (String.◌∷◌ c s) = is_plain c && is_slug in_word s

-- No capitals of ASCII, as `lower` leaves it.
abbrev pub is_lowered : String → Bool
is_lowered String.[] = true
is_lowered (String.◌∷◌ c s) = not (leb b'A' (code c) && leb (code c) b'Z') && is_lowered s

-- Words and gaps only, and words and dashes only.
abbrev is_kept : String → Bool
is_kept String.[] = true
is_kept (String.◌∷◌ c s) = (is_plain c || is_gap c || is_dash c) && is_kept s

abbrev is_dashed : String → Bool
is_dashed String.[] = true
is_dashed (String.◌∷◌ c s) = (is_plain c || is_dash c) && is_dashed s

-- Words and single dashes; `after` says that a dash stands before the text.
abbrev is_tidy : Bool → String → Bool
is_tidy after String.[] = true
is_tidy after (String.◌∷◌ c s) =
    if is_dash c then not after && is_tidy true s else is_plain c && is_tidy false s

marks_kept : (s : String) → is_lowered s ≡ true → is_kept (drop_marks s) ≡ true
unfolding drop_marks
marks_kept String.[] h = refl
marks_kept (String.◌∷◌ c s) h = ground (arith, marks_kept s)

gaps_dashed : (s : String) → is_kept s ≡ true → is_dashed (dash_runs is_gap s) ≡ true
unfolding dash_runs
gaps_dashed String.[] h = refl
gaps_dashed (String.◌∷◌ c s) h = ground (arith, gaps_dashed s)

dashes_tidy :
    (s : String)
    → is_dashed s ≡ true
    → (is_tidy false (dash_runs is_dash s) ≡ true)
      × (is_tidy (not (starts is_dash s)) (dash_runs is_dash s) ≡ true)
unfolding dash_runs
dashes_tidy String.[] h = (refl, refl)
dashes_tidy (String.◌∷◌ c s) h = ground (arith, dashes_tidy s)

left_tidy :
    (after : Bool) (s : String) → is_tidy after s ≡ true → is_tidy true (strip_left s) ≡ true
unfolding strip_left
left_tidy after String.[] h = refl
left_tidy after (String.◌∷◌ c s) h = ground (arith, left_tidy true s)

abbrev place_of : Bool → Place
place_of true = at_start
place_of false = in_word

-- A nonempty slug may stand behind a dash.
behind_dash :
    (s : String) → no_text s ≡ false → is_slug at_start s ≡ true → is_slug at_dash s ≡ true
unfolding is_slug
behind_dash String.[] full h = absurd (ground arith)
behind_dash (String.◌∷◌ c s) full h = h

right_slug :
    (after : Bool) (s : String)
    → is_tidy after s ≡ true
    → is_slug (place_of after) (strip_right s) ≡ true
unfolding strip_right is_slug
right_slug true String.[] h = refl
right_slug false String.[] h = refl
right_slug true (String.◌∷◌ c s) h = ground (arith, right_slug false s)
right_slug false (String.◌∷◌ c s) h = elim (Bool-cases (is_dash c)) [
  | inl dash ↦ elim (Bool-cases (no_text (strip_right s))) [
    | inl empty ↦ rw (dash, empty) refl
    | inr full ↦ ground (arith, right_slug true s, behind_dash (strip_right s) full)
  ]
  | inr word ↦ ground (arith, right_slug false s)
]

-- The regular expressions make a slug of what has no capitals.
pub slugify-IsSlug : (s : String) → is_lowered s ≡ true → is_slug at_start (slugify s) ≡ true
unfolding slugify
slugify-IsSlug s h =
    let kept = drop_marks s in
    let dashed = dash_runs is_gap kept in
    let tidy = dashes_tidy dashed (gaps_dashed kept (marks_kept s h)) in
    right_slug true (strip_left (dash_runs is_dash dashed))
      (left_tidy false (dash_runs is_dash dashed) tidy.0)

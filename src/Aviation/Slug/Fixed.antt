-- ===== src/Aviation/Slug/Fixed.antt =====
-- A slug is its own slug.
use Prim.Native.Char.{Char}
use Prim.Native.String.{String}
use text.Mathlib.TextEquality.{Char-path}
use sky_trax_project.Prelude.{
  ◌≡◌, refl, sym, ◌∙◌, Bool, true, false, ◌||◌, arith, Bool-cases, inl, inr, str_eq, eq_iff, ap,
}
use sky_trax_project.Aviation.Slug.{
  is_dash, is_gap, drop_marks, starts, dash_runs, strip_left, no_text, strip_right, slugify,
  Folding, normalize_airline_slug,
}
use sky_trax_project.Aviation.Slug.Shape.{
  at_start, in_word, at_dash, is_slug, is_lowered, slugify-IsSlug,
}

-- What a slug has left behind any of its characters.
abbrev is_tail : String → Bool
is_tail s = is_slug in_word s || is_slug at_dash s

marks_fixed : (s : String) → is_tail s ≡ true → drop_marks s ≡ s
unfolding is_slug drop_marks
marks_fixed String.[] h = refl
marks_fixed (String.◌∷◌ c s) h = ground (arith, marks_fixed s)

gaps_fixed : (s : String) → is_tail s ≡ true → dash_runs is_gap s ≡ s
unfolding is_slug dash_runs
gaps_fixed String.[] h = refl
gaps_fixed (String.◌∷◌ c s) h = ground (arith, gaps_fixed s)

-- Behind a dash stands a word.
dash_behind :
    (c : Char) (s : String)
    → is_dash c ≡ true
    → is_tail (String.◌∷◌ c s) ≡ true
    → is_slug at_dash s ≡ true
unfolding is_slug
dash_behind c s dash h = ground arith

single : (s : String) → is_slug at_dash s ≡ true → starts is_dash s ≡ false
unfolding is_slug
single String.[] h = refl
single (String.◌∷◌ c s) h = ground arith

full : (s : String) → is_slug at_dash s ≡ true → no_text s ≡ false
unfolding is_slug
full String.[] h = sym h
full (String.◌∷◌ c s) h = refl

dashes_fixed : (s : String) → is_tail s ≡ true → dash_runs is_dash s ≡ s
unfolding is_slug dash_runs
dashes_fixed String.[] h = refl
dashes_fixed (String.◌∷◌ c s) h = elim (Bool-cases (is_dash c)) [
  | inl dash ↦
      rw (dash, single s (dash_behind c s dash h), dashes_fixed s (ground arith))
        (rw (Char-path "-" c (ground arith)) refl)
  | inr word ↦ ground (arith, dashes_fixed s)
]

right_fixed : (s : String) → is_tail s ≡ true → strip_right s ≡ s
unfolding is_slug strip_right
right_fixed String.[] h = refl
right_fixed (String.◌∷◌ c s) h = elim (Bool-cases (is_dash c)) [
  | inl dash ↦
      rw (right_fixed s (ground (arith, dash_behind c s dash h)), full s (dash_behind c s dash h))
        refl
  | inr word ↦ ground (arith, right_fixed s)
]

left_fixed : (s : String) → is_slug at_start s ≡ true → strip_left s ≡ s
unfolding is_slug strip_left
left_fixed String.[] h = refl
left_fixed (String.◌∷◌ c s) h = ground arith

start_tail : (s : String) → is_slug at_start s ≡ true → is_tail s ≡ true
unfolding is_slug
start_tail String.[] h = refl
start_tail (String.◌∷◌ c s) h = ground arith

-- The regular expressions leave a slug as it is.
pub slugify-fixed : (s : String) → is_slug at_start s ≡ true → slugify s ≡ s
unfolding slugify
slugify-fixed s h =
    let tail = start_tail s h in
    rw (marks_fixed s tail, gaps_fixed s tail, dashes_fixed s tail, left_fixed s h)
      (right_fixed s tail)

-- What Python's folding does: it leaves no capitals, and nothing of a slug changes.
pub record Folds (f : Folding) : Type 0 where
  pub lowers : (s : String) → is_lowered (f.strip (f.lower (f.to_ascii s))) ≡ true
  pub keeps : (s : String) → is_slug at_start s ≡ true → f.strip (f.lower (f.to_ascii s)) ≡ s

normalize_airline_slug-IsSlug :
    (f : Folding)
    → Folds f
    → (name : String) → is_slug at_start (normalize_airline_slug f name) ≡ true
unfolding normalize_airline_slug
normalize_airline_slug-IsSlug f h name =
    slugify-IsSlug (f.strip (f.lower (f.to_ascii name))) (h.lowers name)

normalize_airline_slug_fixed :
    (f : Folding)
    → Folds f
    → (s : String) → is_slug at_start s ≡ true
    → normalize_airline_slug f s ≡ s
unfolding normalize_airline_slug
normalize_airline_slug_fixed f h s slug = rw (h.keeps s slug) (slugify-fixed s slug)

-- Where the folding leaves no capitals and leaves a slug alone, every normalized name is a slug, words of small letters and digits between single dashes, and a text is a slug exactly if it is its own normalized name.
pub slug_iff_fixed :
    (f : Folding)
    → Folds f
    → (name : String)
    → (is_slug at_start (normalize_airline_slug f name) ≡ true)
      × (is_slug at_start name ≡ str_eq (normalize_airline_slug f name) name)
slug_iff_fixed f h name =
    let slug = normalize_airline_slug-IsSlug f h name in
    let fixed = normalize_airline_slug_fixed f h name in
    let back : normalize_airline_slug f name ≡ name → is_slug at_start name ≡ true =
      λ e. ap (is_slug at_start) (sym e) ∙ slug in
    (slug, ground (arith, eq_iff (normalize_airline_slug f name) name, fixed, back))

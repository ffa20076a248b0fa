-- ===== src/Prelude/Lists.antt =====
-- Lists measured by the native numbers, predicates over them, and membership of texts.
use Prim.Native.Nat.{ℕ, zero, suc, ◌+◌, ◌≤◌, Ordering}
use Prim.Native.String.{String, compare as compare_texts}
use mathlib.Core.Path.{◌≡◌, refl}
use mathlib.Core.Bool.{Bool, false, ◌||◌}
use mathlib.Core.List.{List, [], ◌∷◌, ◌++◌}
use native.Mathlib.Omega.{arith}
use text.Mathlib.Text.{◌==◌ as str_eq}
use text.Mathlib.TextEquality.{path_by_compare, eq_iff}

module _ {ℓ} {A : Type ℓ} where
  abbrev pub length : List A → ℕ
  length [] = 0
  length (x ∷ xs) = suc (length xs)

  abbrev pub take : ℕ → List A → List A
  take zero xs = []
  take (suc n) [] = []
  take (suc n) (x ∷ xs) = x ∷ take n xs

  abbrev pub All {κ} : (A → Type κ) → List A → Type κ
  All P [] = Unit
  All P (x ∷ xs) = P x × All P xs

  pub take-all : (n : ℕ) (xs : List A) → length xs ≤ n → take n xs ≡ xs
  take-all zero [] short = refl
  take-all zero (x ∷ xs) short = absurd (omega arith)
  take-all (suc n) [] short = refl
  take-all (suc n) (x ∷ xs) short = rw (take-all n xs (omega arith)) refl

  pub length-take : (n : ℕ) (xs : List A) → length (take n xs) ≤ n
  length-take zero xs = omega arith
  length-take (suc n) [] = omega arith
  length-take (suc n) (x ∷ xs) = omega (arith, length-take n xs)

  pub length-append : (xs ys : List A) → length (xs ++ ys) ≡ length xs + length ys
  length-append [] ys = omega arith
  length-append (x ∷ xs) ys = omega (arith, length-append xs ys)

-- `s in names`
unfoldable pub one_of : String → List String → Bool
one_of s [] = false
one_of s (x ∷ xs) = str_eq s x || one_of s xs

-- `sorted(set(…))`: a text is put in front of the first larger one, and only once.
abbrev put_text : String → String → List String → List String → Ordering → List String
put_text s x xs rest Ordering.lt = s ∷ x ∷ xs
put_text s x xs rest Ordering.eq = x ∷ xs
put_text s x xs rest Ordering.gt = x ∷ rest

unfoldable pub insert_text : String → List String → List String
insert_text s [] = s ∷ []
insert_text s (x ∷ xs) = put_text s x xs (insert_text s xs) (compare_texts s x)

unfoldable pub sorted_set : List String → List String
unfolding insert_text
sorted_set [] = []
sorted_set (x ∷ xs) = insert_text x (sorted_set xs)

one_of-put :
    (t s x : String) (xs rest : List String) (o : Ordering)
    → compare_texts s x ≡ o
    → one_of t rest ≡ (str_eq t s || one_of t xs)
    → one_of t (put_text s x xs rest o) ≡ (str_eq t s || (str_eq t x || one_of t xs))
unfolding one_of
one_of-put t s x xs rest Ordering.lt order inserted = refl
one_of-put t s x xs rest Ordering.eq order inserted = rw (path_by_compare s x order) (ground arith)
one_of-put t s x xs rest Ordering.gt order inserted = rw inserted (ground arith)

one_of-insert :
    (t s : String) (xs : List String) → one_of t (insert_text s xs) ≡ (str_eq t s || one_of t xs)
unfolding one_of insert_text
one_of-insert t s [] = refl
one_of-insert t s (x ∷ xs) =
    one_of-put t s x xs (insert_text s xs) (compare_texts s x) refl (one_of-insert t s xs)

-- Sorting keeps the members.
pub one_of-sorted_set : (t : String) (xs : List String) → one_of t (sorted_set xs) ≡ one_of t xs
unfolding one_of sorted_set
one_of-sorted_set t [] = refl
one_of-sorted_set t (x ∷ xs) = rw (one_of-insert t x (sorted_set xs), one_of-sorted_set t xs) refl

pub one_of-append :
    (t : String) (xs ys : List String) → one_of t (xs ++ ys) ≡ (one_of t xs || one_of t ys)
unfolding one_of
one_of-append t [] ys = refl
one_of-append t (x ∷ xs) ys = rw (one_of-append t xs ys) (ground arith)

-- A list of texts without members is empty.
pub members_none : (xs : List String) → ((s : String) → one_of s xs ≡ false) → xs ≡ []
unfolding one_of
members_none [] h = refl
members_none (x ∷ xs) h = absurd (ground (arith, h x, eq_iff x x))

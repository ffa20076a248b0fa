-- ===== src/Prelude/Texts.antt =====
-- Python's slices of a text, by characters, and its test `in`.
use Prim.Native.Nat.{ℕ, zero, suc}
use Prim.Native.String.{String, [], ◌∷◌, find, len}
use sky_trax_project.Prelude.Tests.{leb}
use mathlib.Core.Bool.{Bool}

-- `s[:n]`
pub take_text : ℕ → String → String
take_text zero s = []
take_text (suc n) [] = []
take_text (suc n) (c ∷ s) = c ∷ take_text n s

-- `part in s`
pub is_in : String → String → Bool
is_in part s = leb (find s part) (len s)

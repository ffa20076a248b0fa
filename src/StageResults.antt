-- ===== src/StageResults.antt =====
-- The results of the pipeline's stages: `self.results` of worker/orchestration/refresh_pipeline.py
-- and `stage_results` of the modules that read it. A number is an integer that is not negative.
use sky_trax_project.Prelude.{
  ℕ, String, Bool, true, false, not, Option, none, some, [], ◌∷◌, Dict, lookup, str_eq, ◌==◌,
}

-- `group` is a dictionary inside a stage's result, by its numbers.
pub data Value : Type 0 where
  null : Value
  flag : Bool → Value
  number : ℕ → Value
  text : String → Value
  group : Dict ℕ → Value

abbrev pub Blob : Type 0
Blob = Dict Value

-- A stage's entry: a dictionary, as stages return, or another value.
pub data Entry : Type 0 where
  blob : Blob → Entry
  plain : Value → Entry

abbrev pub Results : Type 0
Results = Dict Entry

-- The truth value of `d.get(k)`
unfoldable pub is_true : Option Value → Bool
is_true none = false
is_true (some null) = false
is_true (some (flag b)) = b
is_true (some (number n)) = not (n == 0)
is_true (some (text s)) = not (str_eq s "")
is_true (some (group [])) = false
is_true (some (group (_ ∷ _))) = true

abbrev number_of_flag : Bool → ℕ
number_of_flag true = 1
number_of_flag false = 0

-- `int(v) if isinstance(v, (int, float)) and v > 0 else 0`; a bool is an int in Python.
unfoldable pub positive : Option Value → ℕ
positive (some (number n)) = n
positive (some (flag b)) = number_of_flag b
positive _ = 0

-- `results.get(stage)`, if it is a dictionary
unfoldable pub blob_of : Option Entry → Option Blob
blob_of (some (blob b)) = some b
blob_of _ = none

-- `results.get(stage, {})`, if it is a dictionary
unfoldable pub blob_or_empty : Option Entry → Option Blob
blob_or_empty none = some []
blob_or_empty (some (blob b)) = some b
blob_or_empty (some (plain _)) = none

-- A number of a stage's result, 0 where there is none.
unfoldable pub metric_of : Results → String → String → ℕ
unfolding lookup blob_of positive
metric_of results stage key = elim (blob_of (lookup stage results)) [
  | none ↦ 0
  | some b ↦ positive (lookup key b)
]

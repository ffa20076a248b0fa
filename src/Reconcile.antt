-- ===== src/Reconcile.antt =====
-- worker/orchestration/operational_reconciliation.py: the errors, results and events of a run,
-- reconciled with the KPIs and the live schema. The regular expressions and Python's `str` are
-- parameters; the reports on the schema are given.
pub mod Failed
pub mod Steps
pub mod Settled
pub mod Live
pub mod Timeline
pub mod Consistency
use Prim.Native.String.{◌++◌ as append_text}
use sky_trax_project.Prelude.{
  ℕ, ◌+◌, String, Bool, true, false, not, ◌&&◌, ◌||◌, Option, none, some, List, [], ◌∷◌, ◌++◌, ltb,
  ◌==◌, str_eq, if◌then◌else◌, or_default, is_some, one_of, sorted_set, is_in, length, Dict, lookup,
  insert, erase,
}
use sky_trax_project.Store.{Event}
use sky_trax_project.StageResults.{
  Value, null, flag, number, text, group, Blob, Entry, blob, plain, Results, is_true, positive,
  blob_of, blob_or_empty,
}
use sky_trax_project.Integrity.Kpis.{Key, direct, inside, first_number}

-- An entry of `errors`.
pub record Failure : Type 0 where
  pub stage : String
  pub error : String
  pub soft : Bool
  pub classification : Option String

-- The searches of the four regular expressions, and `str(v)` of a value that is no text.
pub record Patterns : Type 0 where
  pub iata_missing : String → Bool
  pub signals_unavailable : String → Bool
  pub upstream_empty : String → Bool
  pub enrichment : String → Bool
  pub show : Value → String

-- What the two reports on the schema say, an empty report where they could not be made.
pub record Schema : Type 0 where
  pub canonical_aviation_valid : Bool
  pub aviation_semantic_drift : Bool
  pub runtime_schema_consistent : Bool

-- The state of `reconcile_pipeline_events` while it goes through the stages; `cleared` are the
-- stages whose degraded history is removed.
pub record Work : Type 0 where
  pub errors : List Failure
  pub results : Results
  pub reconciled_stages : List String
  pub cleared : List String

-- `_metric`: the KPI if it is positive, else the first positive number of the stage's result.
unfoldable pub metric : Dict ℕ → Results → String → String → List Key → ℕ
unfolding lookup blob_or_empty first_number
metric kpis results kpi stage ks =
    let known = or_default (lookup kpi kpis) 0 in
    let found = elim (blob_or_empty (lookup stage results)) as (λ _. ℕ) [
      | none ↦ 0
      | some b ↦ first_number b ks
    ] in
    if known == 0 then found else known

abbrev positive_entry : Option Entry → ℕ
positive_entry (some (plain v)) = positive (some v)
positive_entry _ = 0

abbrev or_number : ℕ → ℕ → ℕ
or_number a b = if a == 0 then b else a

-- `_fusion_signal_count`. Its own look at the keys of the fusion's result finds no more than the two
-- metrics do.
unfoldable pub fusion_signal_count : Dict ℕ → Results → ℕ
unfolding metric lookup positive
fusion_signal_count kpis results =
    or_number
      (metric kpis results "signals" "fusion"
        (inside "fusion" "signals_generated" ∷ direct "signals_generated" ∷ []))
      (or_number
        (metric kpis results "signals" "fusion"
          (inside "fusion" "signals_total" ∷ direct "signals_total" ∷ []))
        (positive_entry (lookup "signals_generated" results)))

module _ (patterns : Patterns) where
  open patterns use {iata_missing, signals_unavailable, upstream_empty, enrichment, show}

  -- `str(v)`
  unfoldable pub str_of : Value → String
  str_of (text s) = s
  str_of v = show v

  -- `str(blob.get("error", ""))`, and the empty text where there is no dictionary
  unfoldable pub error_text : Option Blob → String
  unfolding lookup str_of
  error_text none = ""
  error_text (some b) = elim (lookup "error" b) as (λ _. String) [ none ↦ "" | some v ↦ str_of v ]

  unfoldable pub should_reconcile_aviation : Schema → String → Bool
  should_reconcile_aviation schema error =
      iata_missing error && schema.canonical_aviation_valid && schema.runtime_schema_consistent

  -- `results.get("dependency_contract_failed")`
  abbrev entry_is_true : Option Entry → Bool
  entry_is_true (some (plain v)) = is_true (some v)
  entry_is_true (some (blob [])) = false
  entry_is_true (some (blob (_ ∷ _))) = true
  entry_is_true none = false

  abbrev contract_failed : Option Blob → Bool
  contract_failed none = false
  contract_failed (some b) = is_true (lookup "dependency_contract_failed" b)

  unfoldable pub should_reconcile_fusion : Dict ℕ → Results → String → Bool
  unfolding fusion_signal_count is_true lookup blob_of
  should_reconcile_fusion kpis results error =
      ltb 0 (fusion_signal_count kpis results)
      && (enrichment error
          || signals_unavailable error
          || entry_is_true (lookup "dependency_contract_failed" results)
          || contract_failed (blob_of (lookup "fusion" results)))

  unfoldable pub should_reconcile_graph : Dict ℕ → Results → String → Bool
  unfolding metric
  should_reconcile_graph kpis results error =
      ltb 0 (
        metric kpis results "graph_nodes" "knowledge_graph"
          (inside "knowledge_graph" "total_nodes" ∷ direct "total_nodes" ∷ []))
      && upstream_empty error

  unfoldable pub should_reconcile_metadata : Dict ℕ → Results → String → Bool
  unfolding metric
  should_reconcile_metadata kpis results error =
      ltb 0 (
        metric kpis results "metadata" "metadata"
          (inside "metadata" "metadata_total" ∷ direct "metadata_total" ∷ []))
      && upstream_empty error

-- `_mark_reconciled_stage`: the new result of the stage.
unfoldable pub marked : String → Option Blob → Blob
unfolding insert erase
marked reason b = insert "reconcile_reason" (text reason) (
    insert "degraded_classification" (text "false_degraded_stale_status")
      (insert "reconciled" (flag true) (erase "error" (or_default b []))))

unfoldable pub mark_reconciled_stage : String → String → Results → Results
unfolding insert lookup blob_of marked
mark_reconciled_stage stage reason results =
    insert stage (blob (marked reason (blob_of (lookup stage results)))) results

-- `_drop_stage_failures`
unfoldable pub drop_stage_failures : String → List Failure → List Failure
drop_stage_failures stage [] = []
drop_stage_failures stage (e ∷ es) =
    let rest = drop_stage_failures stage es in if str_eq e.stage stage then rest else e ∷ rest

-- The error of the first failure of a stage.
unfoldable pub first_error : String → List Failure → Option String
first_error stage [] = none
first_error stage (e ∷ es) = if str_eq e.stage stage then some e.error else first_error stage es

-- What `derive_failed_stages` reads of a stage's result.
unfoldable pub text_is : String → Option Value → Bool
text_is s (some (text t)) = str_eq t s
text_is s _ = false

unfoldable pub fusion_excused : Blob → Bool
unfolding lookup is_true text_is
fusion_excused b =
    text_is "completed" (lookup "fusion_status" b)
    && (is_true (lookup "enrichment_warning" b) && not (is_true (lookup "correlation_failed" b))
        || is_true (lookup "stage_warning" b) && not (is_true (lookup "error" b))
        || ltb 0 (positive (lookup "signals_generated" b)))

unfoldable pub result_fails : String → Entry → Bool
unfolding lookup is_true fusion_excused
result_fails stage (plain v) = false
result_fails stage (blob b) =
    not (is_true (lookup "reconciled" b))
    && is_true (lookup "error" b)
    && not (str_eq stage "fusion" && fusion_excused b)

unfoldable pub failing_results : Results → List String
unfolding result_fails
failing_results [] = []
failing_results ((stage, e) ∷ rs) =
    let rest = failing_results rs in if result_fails stage e then stage ∷ rest else rest

unfoldable pub failing_errors : List Failure → List String
failing_errors [] = []
failing_errors (e ∷ es) =
    let rest = failing_errors es in if str_eq e.stage "" then rest else e.stage ∷ rest

-- `derive_failed_stages`
unfoldable pub derive_failed_stages : List Failure → Results → List String
unfolding failing_errors failing_results sorted_set
derive_failed_stages errors results = sorted_set (failing_errors errors ++ failing_results results)

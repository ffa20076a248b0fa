-- ===== src/Reconcile/Live.antt =====
-- `reconcile_live_status_payload`: the reconciliation of each status that is read.
pub mod Contradictions
use sky_trax_project.Prelude.{
  ℕ, String, Bool, true, false, not, ◌&&◌, ◌||◌, Option, none, some, List, [], ◌∷◌, str_eq,
  if◌then◌else◌, or_default, filled, Dict, lookup,
}
use sky_trax_project.Store.{Event}
use sky_trax_project.StageResults.{Value, Blob, Results, is_true, blob_of}
use sky_trax_project.Reconcile.{Failure, Patterns, Schema, str_of}
use sky_trax_project.Reconcile.Steps.{reconcile_pipeline_events, Outcome}

-- The keys of the status that the reconciliation reads or writes.
pub record Payload : Type 0 where
  pub stage : String
  pub operation_id : String
  pub kpis : Dict ℕ
  pub stage_results : Results
  pub events : List Event
  pub failed_stages : List String
  pub pipeline_status : Option String
  pub reconciled_stages : List String
  pub reconciliation_status : Option String

abbrev is_nil : {A : Type 0} → List A → Bool
is_nil [] = true
is_nil (_ ∷ _) = false

abbrev add_error : Option String → String → List Failure → List Failure
add_error none s es = es
add_error (some e) s es = record { stage = s; error = e; soft = true; classification = none } ∷ es

module _ (patterns : Patterns) (schema : Schema) where
  -- The error of a stage's result, if there is one.
  unfoldable pub result_error : Option Blob → Option String
  unfolding is_true lookup
  result_error none = none
  result_error (some b) =
      let v = lookup "error" b in
      if is_true v
      then elim v as (λ _. Option String) [ none ↦ none | some x ↦ some (str_of patterns x) ]
      else none

  -- The errors that are made of the failed stages: only those whose result has an error.
  unfoldable pub errors_of : Results → List String → List Failure
  unfolding blob_of lookup result_error
  errors_of results [] = []
  errors_of results (s ∷ stages) =
      add_error (result_error (blob_of (lookup s results))) s (errors_of results stages)

  -- The keys that are set from the outcome.
  unfoldable pub with_outcome : Payload → Outcome → Payload
  with_outcome d out =
      let completed = is_nil out.failed_stages && str_eq d.stage "completed_degraded" in
      record d {
        stage_results = out.results;
        events = out.events;
        failed_stages = out.failed_stages;
        reconciled_stages = out.reconciled_stages;
        stage = if completed then "completed" else d.stage;
        pipeline_status =
            if completed
            then some "completed"
            else if is_nil out.failed_stages
            then d.pipeline_status
            else some (or_default (filled d.pipeline_status) "running_degraded");
        reconciliation_status =
            if is_nil out.reconciled_stages then d.reconciliation_status else some "reconciled";
      }

  -- `reconcile_live_status_payload`, for a status that is not empty
  unfoldable pub reconcile_live_status_payload : String → Payload → Payload
  unfolding with_outcome
  reconcile_live_status_payload time d =
      let errors = errors_of d.stage_results d.failed_stages in
      if str_eq d.stage "idle"
      then d
      else with_outcome d (
          reconcile_pipeline_events patterns schema d.kpis d.operation_id time errors
            d.stage_results d.events)

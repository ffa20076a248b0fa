-- ===== src/Reconcile/Steps.antt =====
-- `reconcile_pipeline_events`: the stages one after the other, the timeline, and the outcome.
use Prim.Native.String.{◌++◌ as append_text}
use sky_trax_project.Prelude.{
  ℕ, ◌+◌, String, Bool, false, not, ◌&&◌, ◌||◌, Option, none, some, List, [], ◌∷◌, ◌++◌, str_eq,
  if◌then◌else◌, or_default, filled, one_of, is_in, Dict, lookup,
}
use sky_trax_project.Store.{Event}
use sky_trax_project.StageResults.{Results, blob_or_empty}
use sky_trax_project.Reconcile.{
  Failure, Patterns, Schema, Work, error_text, should_reconcile_aviation, should_reconcile_fusion,
  should_reconcile_graph, should_reconcile_metadata, mark_reconciled_stage, drop_stage_failures,
  first_error, derive_failed_stages,
}

-- A stage that was reported as failed and is found healthy.
unfoldable pub close_stage : String → String → List String → Work → Work
close_stage stage reason clears w = record {
  errors = drop_stage_failures stage w.errors;
  results = mark_reconciled_stage stage reason w.results;
  reconciled_stages = w.reconciled_stages ++ stage ∷ [];
  cleared = w.cleared ++ clears;
}

unfoldable pub close_if : Bool → String → String → List String → Work → Work
unfolding close_stage
close_if b stage reason clears w = if b then close_stage stage reason clears w else w

abbrev satisfies : (String → Bool) → Option String → Bool
satisfies test none = false
satisfies test (some e) = test e

-- `"aviation_master"` is reconciled by its result only: the errors stay.
unfoldable pub mark_aviation_if : Bool → Work → Work
mark_aviation_if b w =
    if b
    then record w {
      results = mark_reconciled_stage "aviation_master" "aviation_schema_healthy" w.results;
      reconciled_stages =
          if one_of "aviation_master" w.reconciled_stages
          then w.reconciled_stages
          else w.reconciled_stages ++ "aviation_master" ∷ [];
    }
    else w

pub record Outcome : Type 0 where
  pub errors : List Failure
  pub results : Results
  pub events : List Event
  pub failed_stages : List String
  pub reconciled_stages : List String
  pub stale_events_removed : ℕ
  pub cleared : List String

-- One of the stages is named by the message as degraded or failed.
unfoldable pub is_stale_message : List String → String → Bool
is_stale_message [] msg = false
is_stale_message (s ∷ stages) msg =
    is_in (append_text "Stage '" (append_text s "' degraded")) msg
    || is_in (append_text "Stage '" (append_text s "' failed")) msg
    || is_stale_message stages msg

-- `ev.get("operation_id") or operation_id`
abbrev pub operation_of : String → Event → String
operation_of op ev = or_default (filled ev.event_operation) op

-- The event is of another run, or it reports a stage that was reconciled.
unfoldable pub is_dropped : String → List String → Event → Bool
unfolding is_stale_message
is_dropped op stages ev =
    not (str_eq op "") && not (str_eq (operation_of op ev) op) || is_stale_message stages ev.message

-- The loop over the events, with the number of those that are dropped.
unfoldable pub clean_events : String → List String → List Event → List Event × ℕ
unfolding is_dropped
clean_events op stages [] = ([], 0)
clean_events op stages (ev ∷ evs) =
    let (kept, removed) = clean_events op stages evs in
    if is_dropped op stages ev
    then (kept, removed + 1)
    else (record ev { event_operation = some (operation_of op ev) } ∷ kept, removed)

abbrev recovered_message : String → String
recovered_message s =
    append_text "Stage '" (append_text s "' recovered — stale operational status reconciled")

unfoldable pub recovered_events : String → String → List String → List Event
recovered_events op time [] = []
recovered_events op time (s ∷ stages) =
    record { time = time; message = recovered_message s; event_operation = some op }
    ∷ recovered_events op time stages

module _ (patterns : Patterns) (schema : Schema) (kpis : Dict ℕ) where
  unfoldable pub reconcile_aviation : Work → Work
  reconcile_aviation w =
      close_if
        (satisfies (should_reconcile_aviation patterns schema)
          (first_error "aviation_master" w.errors))
        "aviation_master" "aviation_schema_healthy" ("aviation_master" ∷ []) w

  unfoldable pub reconcile_aviation_result : Work → Work
  reconcile_aviation_result w =
      mark_aviation_if
        (should_reconcile_aviation patterns schema
          (error_text patterns (blob_or_empty (lookup "aviation_master" w.results))))
        w

  -- The text of the first error, or else that of the result.
  unfoldable pub fusion_error : Work → String
  fusion_error w =
      or_default (filled (first_error "fusion" w.errors))
        (error_text patterns (blob_or_empty (lookup "fusion" w.results)))

  unfoldable pub reconcile_fusion : Work → Work
  reconcile_fusion w =
      close_if (should_reconcile_fusion patterns kpis w.results (fusion_error w)) "fusion"
        "signals_available" ("fusion" ∷ []) w

  unfoldable pub reconcile_graph : Work → Work
  reconcile_graph w =
      close_if
        (satisfies (should_reconcile_graph patterns kpis w.results)
          (first_error "knowledge_graph" w.errors))
        "knowledge_graph" "graph_populated" [] w

  unfoldable pub reconcile_metadata : Work → Work
  reconcile_metadata w =
      close_if
        (satisfies (should_reconcile_metadata patterns kpis w.results)
          (first_error "metadata" w.errors))
        "metadata" "metadata_populated" [] w

  unfoldable pub reconcile_stages : Work → Work
  reconcile_stages w =
      reconcile_metadata
        (reconcile_graph (reconcile_fusion (reconcile_aviation_result (reconcile_aviation w))))

  -- `reconcile_pipeline_events`, without its report on consistency, which Consistency.antt adds
  unfoldable pub reconcile_pipeline_events :
      String → String → List Failure → Results → List Event → Outcome
  reconcile_pipeline_events op time errors results events =
      let w =
        reconcile_stages
          (record { errors = errors; results = results; reconciled_stages = []; cleared = [] }) in
      let (kept, removed) = clean_events op w.reconciled_stages events in
      record {
        errors = w.errors;
        results = w.results;
        events = kept ++ recovered_events op time w.reconciled_stages;
        failed_stages = derive_failed_stages w.errors w.results;
        reconciled_stages = w.reconciled_stages;
        stale_events_removed = removed;
        cleared = w.cleared;
      }

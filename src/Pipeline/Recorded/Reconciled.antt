-- ===== src/Pipeline/Recorded/Reconciled.antt =====
-- The reconciliation at the end of a run keeps its bookkeeping.
use sky_trax_project.Prelude.{
  ℕ, ◌≡◌, refl, String, Bool, true, false, Option, none, some, List, [], ◌∷◌, eq_iff, Dict, lookup,
  or_default, lookup-insert, lookup-erase, insert-NodupKeys, NodupKeys, arith,
}
use sky_trax_project.Store.{Event}
use sky_trax_project.StageResults.{blob, Blob, Results, blob_of}
use sky_trax_project.Reconcile.{
  Failure, Patterns, Schema, Work, text_is, marked, mark_reconciled_stage, drop_stage_failures,
}
use sky_trax_project.Reconcile.Settled.{lookup-mark, has_error-drop}
use sky_trax_project.Reconcile.Steps.{
  close_if, close_stage, mark_aviation_if, reconcile_aviation, reconcile_aviation_result,
  reconcile_fusion, reconcile_graph, reconcile_metadata, reconcile_stages,
  reconcile_pipeline_events,
}
use sky_trax_project.Pipeline.{has_delivered, fusion_ok}
use sky_trax_project.Pipeline.Recorded.{IsRecorded, all_named, fusion_after}

-- The marks leave the two keys that say whether the fusion has delivered.
kept_keys :
    (reason : String) (b : Option Blob)
    → (lookup "fusion_status" (marked reason b) ≡ lookup "fusion_status" (or_default b []))
      × (lookup "signals_generated" (marked reason b)
          ≡ lookup "signals_generated" (or_default b []))
unfolding marked
kept_keys reason b = (simp (lookup-insert, lookup-erase), simp (lookup-insert, lookup-erase))

nothing_delivered : has_delivered [] ≡ false
unfolding has_delivered text_is lookup
nothing_delivered = refl

marked_delivers :
    (reason : String) (b : Option Blob) → has_delivered (marked reason b) ≡ fusion_ok b
unfolding has_delivered
marked_delivers reason none =
    let (status, signals) = kept_keys reason none in rw (status, signals) nothing_delivered
marked_delivers reason (some b) =
    let (status, signals) = kept_keys reason (some b) in rw (status, signals) refl

all_named-drop :
    (stage : String) (es : List Failure)
    → all_named es ≡ true
    → all_named (drop_stage_failures stage es) ≡ true
unfolding drop_stage_failures
all_named-drop stage [] h = refl
all_named-drop stage (e ∷ es) h = ground (arith, all_named-drop stage es)

abbrev IsRecordedWork : Work → Type 0
IsRecordedWork w = IsRecorded w.results w.errors

mark-delivered :
    (stage reason : String) (results : Results)
    → fusion_ok (blob_of (lookup "fusion" (mark_reconciled_stage stage reason results)))
      ≡ fusion_ok (blob_of (lookup "fusion" results))
unfolding mark_reconciled_stage
mark-delivered stage reason results =
    rw
      (
        fusion_after stage (marked reason (blob_of (lookup stage results))) results,
        marked_delivers reason (blob_of (lookup stage results)),
      )
      (ground (arith, eq_iff "fusion" stage))

mark-NodupKeys :
    (stage reason : String) (results : Results)
    → NodupKeys results
    → NodupKeys (mark_reconciled_stage stage reason results)
unfolding mark_reconciled_stage
mark-NodupKeys stage reason results h =
    insert-NodupKeys stage (blob (marked reason (blob_of (lookup stage results)))) results h

close-IsRecorded :
    (b : Bool) (stage reason : String) (clears : List String) (w : Work)
    → IsRecordedWork w
    → IsRecordedWork (close_if b stage reason clears w)
unfolding close_if close_stage
close-IsRecorded false stage reason clears w h = h
close-IsRecorded true stage reason clears w h = record {
  distinct = mark-NodupKeys stage reason w.results h.distinct;
  recorded = λ s fails.
      ground (
        arith,
        lookup-mark s stage reason w.results,
        has_error-drop s stage w.errors,
        h.recorded s,
      );
  delivered = λ ok. ground (
    arith,
    mark-delivered stage reason w.results,
    has_error-drop "fusion" stage w.errors,
    h.delivered,
  );
  named = all_named-drop stage w.errors h.named;
}

mark-IsRecorded : (b : Bool) (w : Work) → IsRecordedWork w → IsRecordedWork (mark_aviation_if b w)
unfolding mark_aviation_if
mark-IsRecorded false w h = h
mark-IsRecorded true w h = record {
  distinct = mark-NodupKeys "aviation_master" "aviation_schema_healthy" w.results h.distinct;
  recorded = λ s fails.
      ground
        (arith, lookup-mark s "aviation_master" "aviation_schema_healthy" w.results, h.recorded s);
  delivered = λ ok.
      ground
        (arith, mark-delivered "aviation_master" "aviation_schema_healthy" w.results, h.delivered);
  named = h.named;
}

module _ (patterns : Patterns) (schema : Schema) (kpis : Dict ℕ) where
  stages-IsRecorded :
      (w : Work) → IsRecordedWork w → IsRecordedWork (reconcile_stages patterns schema kpis w)
  unfolding reconcile_stages reconcile_aviation reconcile_aviation_result reconcile_fusion
      reconcile_graph reconcile_metadata
  stages-IsRecorded w h = close-IsRecorded _ "metadata" _ _ _ (
      close-IsRecorded _ "knowledge_graph" _ _ _ (
        close-IsRecorded _ "fusion" _ _ _
          (mark-IsRecorded _ _ (close-IsRecorded _ "aviation_master" _ _ w h))))

  -- The errors and results of the outcome are recorded where the given ones are.
  pub reconcile-IsRecorded :
      (op time : String) (errors : List Failure) (results : Results) (events : List Event)
      → IsRecorded results errors
      → let out = reconcile_pipeline_events patterns schema kpis op time errors results events in
        IsRecorded out.results out.errors
  unfolding reconcile_pipeline_events
  reconcile-IsRecorded op time errors results events h =
      stages-IsRecorded
        (record { errors = errors; results = results; reconciled_stages = []; cleared = [] }) h

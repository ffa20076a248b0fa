-- ===== src/Reconcile/Live/Contradictions.antt =====
-- Where a reconciliation contradicts what the run has recorded.
use sky_trax_project.Prelude.{
  members_none, ℕ, ◌≡◌, refl, String, Bool, true, false, Option, none, some, List, [], ◌∷◌, str_eq,
  eq_iff, one_of, Dict, lookup, NodupKeys, arith, Bool-cases, inl, inr,
}
use sky_trax_project.Store.{Event}
use sky_trax_project.StageResults.{
  Entry, blob, plain, Blob, Results, blob_of, blob_or_empty, is_true,
}
use sky_trax_project.Reconcile.{
  Failure, Patterns, Schema, Work, first_error, result_fails, derive_failed_stages,
  should_reconcile_aviation, error_text,
}
use sky_trax_project.Reconcile.Failed.{has_error, fails_at, failed_iff}
use sky_trax_project.Reconcile.Steps.{
  close_if, close_stage, mark_aviation_if, reconcile_aviation, reconcile_aviation_result,
  reconcile_fusion, reconcile_graph, reconcile_metadata, reconcile_stages,
  reconcile_pipeline_events,
}
use sky_trax_project.Reconcile.Settled.{
  IsClosed, start-IsSound, stages-IsSound, close-IsClosed, lookup-mark, has_error-drop, one_of-snoc,
}
use sky_trax_project.Reconcile.Live.{
  Payload, errors_of, result_error, reconcile_live_status_payload,
}

-- No stage has an error or a result that is a failure.
record IsUntroubled (w : Work) : Type 0 where
  closed : (s : String) → IsClosed s w

close-IsUntroubled :
    (b : Bool) (stage reason : String) (clears : List String) (w : Work)
    → IsUntroubled w
    → IsUntroubled (close_if b stage reason clears w)
unfolding close_if
close-IsUntroubled false stage reason clears w h = h
close-IsUntroubled true stage reason clears w h = record {
  closed = λ s. close-IsClosed s stage reason clears w (λ _. h.closed s);
}

mark-IsUntroubled : (b : Bool) (w : Work) → IsUntroubled w → IsUntroubled (mark_aviation_if b w)
unfolding mark_aviation_if
mark-IsUntroubled false w h = h
mark-IsUntroubled true w h = record {
  closed = λ s. record {
    errors = (h.closed s).errors;
    results =
        rw (lookup-mark s "aviation_master" "aviation_schema_healthy" w.results)
          (ground (arith, (h.closed s).results));
  };
}

-- No stage's result has an error.
abbrev pub has_result_error : Option Entry → Bool
has_result_error (some (blob b)) = is_true (lookup "error" b)
has_result_error _ = false

silent_passes : (s : String) (e : Option Entry) → has_result_error e ≡ false → fails_at s e ≡ false
unfolding result_fails
silent_passes s none h = refl
silent_passes s (some (plain v)) h = refl
silent_passes s (some (blob b)) h = ground arith

start-IsUntroubled :
    (results : Results)
    → ((s : String) → has_result_error (lookup s results) ≡ false)
    → IsUntroubled (record { errors = []; results = results; reconciled_stages = []; cleared = [] })
start-IsUntroubled results silent = record {
  closed = λ s. record { errors = refl; results = silent_passes s (lookup s results) (silent s) };
}

-- The error of the aviation master is still there, and the stage is reported as reconciled.
record IsTorn (w : Work) : Type 0 where
  failed : has_error "aviation_master" w.errors ≡ true
  listed : one_of "aviation_master" w.reconciled_stages ≡ true

close-IsTorn :
    (b : Bool) (stage reason : String) (clears : List String) (w : Work)
    → IsTorn w
    → str_eq "aviation_master" stage ≡ false
    → IsTorn (close_if b stage reason clears w)
unfolding close_if close_stage
close-IsTorn false stage reason clears w h other = h
close-IsTorn true stage reason clears w h other = record {
  failed = rw (has_error-drop "aviation_master" stage w.errors, other) h.failed;
  listed = ground (arith, one_of-snoc "aviation_master" stage w.reconciled_stages, h.listed);
}

first_error-has_error :
    (s e : String) (es : List Failure)
    → str_eq s "" ≡ false
    → first_error s es ≡ some e
    → has_error s es ≡ true
unfolding first_error
first_error-has_error s e [] named found = absurd (ground arith)
first_error-has_error s e (x ∷ es) named found = ground (
  arith,
  eq_iff s x.stage,
  eq_iff x.stage s,
  eq_iff s "",
  eq_iff x.stage "",
  first_error-has_error s e es,
)

mark-IsTorn :
    (w : Work) → has_error "aviation_master" w.errors ≡ true → IsTorn (mark_aviation_if true w)
unfolding mark_aviation_if
mark-IsTorn w failed = record {
  failed = failed;
  listed = elim (Bool-cases (one_of "aviation_master" w.reconciled_stages)) [
    | inl there ↦ rw there there
    | inr absent ↦
        rw absent
          (ground (arith, one_of-snoc "aviation_master" "aviation_master" w.reconciled_stages))
  ];
}

module _ (patterns : Patterns) (schema : Schema) (kpis : Dict ℕ) where
  stages-IsUntroubled :
      (w : Work) → IsUntroubled w → IsUntroubled (reconcile_stages patterns schema kpis w)
  unfolding reconcile_stages reconcile_aviation reconcile_aviation_result reconcile_fusion
      reconcile_graph reconcile_metadata
  stages-IsUntroubled w h = search (close-IsUntroubled, mark-IsUntroubled)

  only_marked :
      (e : String) (b : Blob) (w : Work)
      → first_error "aviation_master" w.errors ≡ some e
      → should_reconcile_aviation patterns schema e ≡ false
      → lookup "aviation_master" w.results ≡ some (blob b)
      → should_reconcile_aviation patterns schema (error_text patterns (some b)) ≡ true
      → reconcile_aviation_result patterns schema kpis (reconcile_aviation patterns schema kpis w)
        ≡ mark_aviation_if true w
  unfolding reconcile_aviation_result reconcile_aviation close_if blob_or_empty
  only_marked e b w found unmatched own matched = rw (found, unmatched, own, matched) refl

  fusion-IsTorn : (w : Work) → IsTorn w → IsTorn (reconcile_fusion patterns schema kpis w)
  unfolding reconcile_fusion
  fusion-IsTorn w h = close-IsTorn _ "fusion" _ _ w h refl

  graph-IsTorn : (w : Work) → IsTorn w → IsTorn (reconcile_graph patterns schema kpis w)
  unfolding reconcile_graph
  graph-IsTorn w h = close-IsTorn _ "knowledge_graph" _ _ w h refl

  metadata-IsTorn : (w : Work) → IsTorn w → IsTorn (reconcile_metadata patterns schema kpis w)
  unfolding reconcile_metadata
  metadata-IsTorn w h = close-IsTorn _ "metadata" _ _ w h refl

  stages-IsTorn :
      (e : String) (b : Blob) (w : Work)
      → first_error "aviation_master" w.errors ≡ some e
      → should_reconcile_aviation patterns schema e ≡ false
      → lookup "aviation_master" w.results ≡ some (blob b)
      → should_reconcile_aviation patterns schema (error_text patterns (some b)) ≡ true
      → IsTorn (reconcile_stages patterns schema kpis w)
  unfolding reconcile_stages
  stages-IsTorn e b w found unmatched own matched =
      rw (only_marked e b w found unmatched own matched) (
        metadata-IsTorn _ (
          graph-IsTorn _ (
            fusion-IsTorn _
              (mark-IsTorn w (first_error-has_error "aviation_master" e w.errors refl found)))))

  -- Where the first error of the aviation master is not about the missing code but the error of its
  -- result is, and the schema is healthy, the stage is reported as reconciled and, in the same
  -- report, as failed.
  pub aviation_is_reconciled_and_failed :
      (op time e : String) (errors : List Failure) (results : Results) (events : List Event)
      (b : Blob)
      → NodupKeys results
      → first_error "aviation_master" errors ≡ some e
      → should_reconcile_aviation patterns schema e ≡ false
      → lookup "aviation_master" results ≡ some (blob b)
      → should_reconcile_aviation patterns schema (error_text patterns (some b)) ≡ true
      → let out = reconcile_pipeline_events patterns schema kpis op time errors results events in
        (one_of "aviation_master" out.reconciled_stages ≡ true)
        × (one_of "aviation_master" out.failed_stages ≡ true)
  unfolding reconcile_pipeline_events
  aviation_is_reconciled_and_failed op time e errors results events b distinct found unmatched own
        matched =
      let start : Work = record {
        errors = errors;
        results = results;
        reconciled_stages = [];
        cleared = [];
      } in
      let w = reconcile_stages patterns schema kpis start in
      let sound =
        stages-IsSound patterns schema kpis start (start-IsSound errors results distinct) in
      let torn = stages-IsTorn e b start found unmatched own matched in
      (
        torn.listed,
        rw (failed_iff "aviation_master" w.errors w.results sound.distinct, torn.failed) refl,
      )

module _ (patterns : Patterns) (schema : Schema) where
  errors_none :
      (results : Results) (stages : List String)
      → ((s : String) → has_result_error (lookup s results) ≡ false)
      → errors_of patterns schema results stages ≡ []
  unfolding errors_of
  errors_none results [] silent = refl
  errors_none results (s ∷ stages) silent =
      rw (no_error_text (lookup s results) (silent s)) (errors_none results stages silent)
    where
      no_error_text :
          (e : Option Entry)
          → has_result_error e ≡ false
          → result_error patterns schema (blob_of e) ≡ none
      no_error_text none h = refl
      no_error_text (some (plain v)) h = refl
      no_error_text (some (blob b)) h = ground arith

  -- A degraded run none of whose results holds an error, as where its failed stages were skipped for
  -- their upstream, is shown as completed: each status that is read has no failed stage and the plain
  -- stage "completed". No stage has two results.
  pub skipped_stages_vanish :
      (time : String) (d : Payload)
      → NodupKeys d.stage_results
      → ((s : String) → has_result_error (lookup s d.stage_results) ≡ false)
      → d.stage ≡ "completed_degraded"
      → ((reconcile_live_status_payload patterns schema time d).failed_stages ≡ [])
        × ((reconcile_live_status_payload patterns schema time d).stage ≡ "completed")
        × ((reconcile_live_status_payload patterns schema time d).pipeline_status
            ≡ some "completed")
  unfolding reconcile_live_status_payload reconcile_pipeline_events
  skipped_stages_vanish time d distinct silent degraded =
      let start : Work = record {
        errors = [];
        results = d.stage_results;
        reconciled_stages = [];
        cleared = [];
      } in
      let w = reconcile_stages patterns schema d.kpis start in
      let calm =
        stages-IsUntroubled patterns schema d.kpis start
          (start-IsUntroubled d.stage_results silent) in
      let sound =
        stages-IsSound patterns schema d.kpis start (start-IsSound [] d.stage_results distinct) in
      let none_failed : derive_failed_stages w.errors w.results ≡ [] = members_none _ (λ s.
        rw
          (
            failed_iff s w.errors w.results sound.distinct,
            (calm.closed s).errors,
            (calm.closed s).results,
          )
          refl) in
      rw (errors_none d.stage_results d.failed_stages silent, none_failed, degraded)
        (refl, refl, refl)

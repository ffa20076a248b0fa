-- ===== src/Reconcile/Settled.antt =====
-- A stage that was reconciled is no failed stage any more, but for the aviation master.
use sky_trax_project.Prelude.{
  ℕ, ◌≡◌, refl, String, Bool, true, false, ◌||◌, Option, List, [], ◌∷◌, ◌++◌, str_eq, eq_iff,
  if◌then◌else◌, one_of, one_of-append, Dict, lookup, lookup-insert, insert-NodupKeys, NodupKeys,
  arith, Bool-cases, inl, inr,
}
use sky_trax_project.Store.{Event}
use sky_trax_project.StageResults.{blob, Blob, Results, blob_of, is_true}
use sky_trax_project.Reconcile.{
  Failure, Patterns, Schema, Work, marked, mark_reconciled_stage, drop_stage_failures, result_fails,
}
use sky_trax_project.Reconcile.Failed.{has_error, fails_at, failed_iff}
use sky_trax_project.Reconcile.Steps.{
  close_stage, close_if, mark_aviation_if, reconcile_aviation, reconcile_aviation_result,
  reconcile_fusion, reconcile_graph, reconcile_metadata, reconcile_stages,
  reconcile_pipeline_events,
}

-- No error names the stage and its result is no failure.
pub record IsClosed (s : String) (w : Work) : Type 0 where
  pub errors : has_error s w.errors ≡ false
  pub results : fails_at s (lookup s w.results) ≡ false

marked_passes :
    (stage reason : String) (b : Option Blob) → result_fails stage (blob (marked reason b)) ≡ false
unfolding result_fails marked is_true
marked_passes stage reason b = simp lookup-insert

pub lookup-mark :
    (s stage reason : String) (results : Results)
    → fails_at s (lookup s (mark_reconciled_stage stage reason results))
      ≡ (if str_eq s stage then false else fails_at s (lookup s results))
unfolding mark_reconciled_stage
lookup-mark s stage reason results =
    rw (lookup-insert s stage (blob (marked reason (blob_of (lookup stage results)))) results)
      (elim (Bool-cases (str_eq s stage)) [
        | inl same ↦ rw same (marked_passes s reason (blob_of (lookup stage results)))
        | inr other ↦ rw other refl
      ])

pub has_error-drop :
    (s stage : String) (es : List Failure)
    → has_error s (drop_stage_failures stage es)
      ≡ (if str_eq s stage then false else has_error s es)
unfolding drop_stage_failures
has_error-drop s stage [] = ground arith
has_error-drop s stage (e ∷ es) =
    ground
      (arith, eq_iff s stage, eq_iff s e.stage, eq_iff e.stage stage, has_error-drop s stage es)

pub close-IsClosed :
    (s stage reason : String) (clears : List String) (w : Work)
    → (str_eq s stage ≡ false → IsClosed s w)
    → IsClosed s (close_stage stage reason clears w)
unfolding close_stage
close-IsClosed s stage reason clears w h = elim (Bool-cases (str_eq s stage)) [
  | inl same ↦ record {
    errors = rw (has_error-drop s stage w.errors, same) refl;
    results = rw (lookup-mark s stage reason w.results, same) refl;
  }
  | inr other ↦ record {
    errors = rw (has_error-drop s stage w.errors, other) (h other).errors;
    results = rw (lookup-mark s stage reason w.results, other) (h other).results;
  }
]

-- Each reconciled stage but the aviation master is closed.
abbrev pub IsSettled : Work → Type 0
IsSettled w =
    (s : String)
    → str_eq s "aviation_master" ≡ false
    → one_of s w.reconciled_stages ≡ true
    → IsClosed s w

pub one_of-snoc :
    (s stage : String) (xs : List String)
    → one_of s (xs ++ stage ∷ []) ≡ (one_of s xs || str_eq s stage)
unfolding one_of
one_of-snoc s stage xs = rw (one_of-append s xs (stage ∷ [])) (ground arith)

close-IsSettled :
    (b : Bool) (stage reason : String) (clears : List String) (w : Work)
    → IsSettled w
    → IsSettled (close_if b stage reason clears w)
unfolding close_if close_stage
close-IsSettled false stage reason clears w h s other listed = h s other listed
close-IsSettled true stage reason clears w h s other listed =
    close-IsClosed s stage reason clears w
      λ different. h s other (ground (arith, one_of-snoc s stage w.reconciled_stages))

mark-IsSettled : (b : Bool) (w : Work) → IsSettled w → IsSettled (mark_aviation_if b w)
unfolding mark_aviation_if
mark-IsSettled false w h s other listed = h s other listed
mark-IsSettled true w h s other listed =
    let before : one_of s w.reconciled_stages ≡ true =
      ground (arith, one_of-snoc s "aviation_master" w.reconciled_stages) in
    record {
      errors = (h s other before).errors;
      results =
          rw (lookup-mark s "aviation_master" "aviation_schema_healthy" w.results, other)
            (h s other before).results;
    }

close-NodupKeys :
    (b : Bool) (stage reason : String) (clears : List String) (w : Work)
    → NodupKeys w.results
    → NodupKeys (close_if b stage reason clears w).results
unfolding close_if mark_reconciled_stage
close-NodupKeys false stage reason clears w h = h
close-NodupKeys true stage reason clears w h =
    insert-NodupKeys stage (blob (marked reason (blob_of (lookup stage w.results)))) w.results h

mark-NodupKeys :
    (b : Bool) (w : Work) → NodupKeys w.results → NodupKeys (mark_aviation_if b w).results
unfolding mark_aviation_if mark_reconciled_stage
mark-NodupKeys false w h = h
mark-NodupKeys true w h =
    insert-NodupKeys "aviation_master"
      (blob (marked "aviation_schema_healthy" (blob_of (lookup "aviation_master" w.results))))
      w.results h

-- Both invariants of the way through the stages.
pub record IsSound (w : Work) : Type 0 where
  pub settled : IsSettled w
  pub distinct : NodupKeys w.results

pub start-IsSound :
    (errors : List Failure) (results : Results)
    → NodupKeys results
    → IsSound (record { errors = errors; results = results; reconciled_stages = []; cleared = [] })
unfolding one_of
start-IsSound errors results distinct = record {
  settled = λ s other listed. cc;
  distinct = distinct;
}

module _ (patterns : Patterns) (schema : Schema) (kpis : Dict ℕ) where
  close-IsSound :
      (b : Bool) (stage reason : String) (clears : List String) (w : Work)
      → IsSound w
      → IsSound (close_if b stage reason clears w)
  close-IsSound b stage reason clears w h = record {
    settled = close-IsSettled b stage reason clears w h.settled;
    distinct = close-NodupKeys b stage reason clears w h.distinct;
  }

  mark-IsSound : (b : Bool) (w : Work) → IsSound w → IsSound (mark_aviation_if b w)
  mark-IsSound b w h = record {
    settled = mark-IsSettled b w h.settled;
    distinct = mark-NodupKeys b w h.distinct;
  }

  pub stages-IsSound : (w : Work) → IsSound w → IsSound (reconcile_stages patterns schema kpis w)
  unfolding reconcile_stages reconcile_aviation reconcile_aviation_result reconcile_fusion
      reconcile_graph reconcile_metadata
  stages-IsSound w h = search (close-IsSound, mark-IsSound)

  -- A stage that a reconciliation reports as reconciled is not among the failed stages that it
  -- reports, whatever the errors, results and KPIs are, unless it is the aviation master.
  pub reconciled_is_not_failed :
      (op time s : String) (errors : List Failure) (results : Results) (events : List Event)
      → NodupKeys results
      → str_eq s "aviation_master" ≡ false
      → one_of s
          (reconcile_pipeline_events patterns schema kpis op time errors results
            events).reconciled_stages
        ≡ true
      → one_of s
          (reconcile_pipeline_events patterns schema kpis op time errors results
            events).failed_stages
        ≡ false
  unfolding reconcile_pipeline_events
  reconciled_is_not_failed op time s errors results events distinct other listed =
      let start : Work = record {
        errors = errors;
        results = results;
        reconciled_stages = [];
        cleared = [];
      } in
      let sound = stages-IsSound start (start-IsSound errors results distinct) in
      let closed = sound.settled s other listed in
      let w = reconcile_stages patterns schema kpis start in
      rw (failed_iff s w.errors w.results sound.distinct, closed.errors, closed.results) refl

-- ===== src/Pipeline/Execute/Verdict.antt =====
-- How a run ends, by its errors, its status and its failed stages.
pub mod Stages
use Prim.Native.String.{◌++◌ as append_text}
use sky_trax_project.Prelude.{
  ℕ, ◌+◌, ◌≡◌, ◌≢◌, refl, sym, ◌∙◌, ap, ◌⊎◌, inl, inr, String, Bool, true, false, not, ◌&&◌, ◌||◌,
  Option, none, some, List, [], ◌∷◌, ◌++◌, str_eq, eq_iff, if◌then◌else◌, one_of, arith, Bool-cases,
  Option-cases, members_none, lookup, Dict,
}
use sky_trax_project.Store.{Stored, nothing, broken, entry, Status, Redis}
use sky_trax_project.StageResults.{Blob, Results, blob_of}
use sky_trax_project.Lifecycle.{transition}
use sky_trax_project.Lifecycle.Stages.{lifecycle_from_stage}
use sky_trax_project.Integrity.{Minima}
use sky_trax_project.Reconcile.{Failure, Patterns, derive_failed_stages}
use sky_trax_project.Reconcile.Failed.{has_error, fails_at, failed_iff}
use sky_trax_project.Pipeline.{
  Keys, no_keys, report_of, World, Run, Write, without_stage, blocking_errors, fusion_ok, no_errors,
  failed_stage_keys, set_status, report_run, sync_to, stages, add_event,
}
use sky_trax_project.Pipeline.Stage.{failure_of}
use sky_trax_project.Pipeline.Recorded.{IsRecorded, all_named, has_error-snoc}
use sky_trax_project.Pipeline.Recorded.Stages.{Books, books}
use sky_trax_project.Pipeline.Recorded.Reconciled.{reconcile-IsRecorded}
use sky_trax_project.Pipeline.Execute.Verdict.Stages.{
  AllDistinct, AllHonest, AllFresh, IsReady, IsOnTrack, run_stages-IsOnTrack,
}
use sky_trax_project.Pipeline.Execute.{
  Course, Progress, going, stopped, finalization_heartbeat, refresh_totals, with_event, assign_kpis,
  reconcile_operational_state, with_outcome, finalize, terminal_of, close_run, fail_run, end_run,
  begin_run, run_stages, run_locked,
}

-- The stage that the status shows.
abbrev stage_of : Stored Status → Option String
stage_of nothing = none
stage_of broken = none
stage_of (entry s) = s.stage

abbrev pub shown_stage : World → Option String
shown_stage world = stage_of world.redis.status

abbrev pub IsCompleted : Run × World → Type 0
IsCompleted (run, world) =
    (shown_stage world ≡ some "completed") × (world.extra.failed_stages ≡ []) × (run.errors ≡ [])

-- The failed stages that the status shows are those of the run's errors.
abbrev pub IsDegraded : Run × World → Type 0
IsDegraded (run, world) =
    (shown_stage world ≡ some "completed_degraded")
    × ((s : String) → one_of s world.extra.failed_stages ≡ has_error s run.errors)
    × (run.errors ≢ [])

abbrev pub HasCrashed : Run × World → Type 0
HasCrashed (run, world) =
    (shown_stage world ≡ some "failed") × (has_error "pipeline" run.errors ≡ true)

abbrev pub Verdict : Run × World → Type 0
Verdict end = IsCompleted end ⊎ IsDegraded end ⊎ HasCrashed end

without_none :
    (s : String) (es : List Failure)
    → str_eq s "" ≡ false
    → has_error s es ≡ false
    → without_stage s es ≡ es
unfolding without_stage
without_none s [] named h = refl
without_none s (e ∷ es) named h =
    ground
      (arith, eq_iff s e.stage, eq_iff e.stage s, eq_iff s "", eq_iff e.stage "", without_none s es)

all_block : (run : Run) → IsRecorded run.results run.errors → blocking_errors run ≡ run.errors
unfolding blocking_errors
all_block run h = elim (Bool-cases (fusion_ok (blob_of (lookup "fusion" run.results)))) [
  | inl ok ↦ rw ok (without_none "fusion" run.errors refl (h.delivered ok))
  | inr other ↦ rw other refl
]

unrecorded :
    (errors : List Failure) (fails : Bool) (s : String)
    → errors ≡ []
    → (fails ≡ true → has_error s errors ≡ true)
    → (has_error s errors || fails) ≡ false
unrecorded [] fails s none_left h = ground arith
unrecorded (e ∷ es) fails s none_left h = absurd (ground arith)

nothing_failed :
    (errors : List Failure) (results : Results)
    → IsRecorded results errors
    → errors ≡ []
    → derive_failed_stages errors results ≡ []
nothing_failed errors results h none_left = members_none _ (λ s.
    rw (failed_iff s errors results h.distinct)
      (unrecorded errors (fails_at s (lookup s results)) s none_left (h.recorded s)))

failed_are_errors :
    (errors : List Failure) (results : Results) (s : String)
    → IsRecorded results errors
    → one_of s (derive_failed_stages errors results) ≡ has_error s errors
failed_are_errors errors results s h =
    rw (failed_iff s errors results h.distinct) (ground (arith, h.recorded s))

synced :
    (b : Bool) (op : String) (state : Option String) (stamp x : String) (r : Redis)
    → stage_of r.status ≡ some x
    → stage_of (if b then r else sync_to op state stamp r).status ≡ some x
unfolding transition
synced true op state stamp x r h = h
synced false op none stamp x r h = h
synced false op (some s) stamp x r h = ground arith

module _ (strip : String → String) (stamp : String) where
  written_stage :
      (run : Run) (wr : Write) (world : World)
      → shown_stage (set_status strip stamp run wr world) ≡ some wr.stage
  unfolding set_status
  written_stage run wr world =
      synced (str_eq run.operation_id "") run.operation_id
        (lifecycle_from_stage strip (some wr.stage) wr.pipeline_status) stamp wr.stage _ refl

  reported_stage :
      (run : Run) (keys : Keys) (stage : String) (progress : ℕ) (label : String) (world : World)
      → shown_stage (report_run strip stamp run keys stage progress label world) ≡ some stage
  unfolding report_run report_of
  reported_stage run keys stage progress label world =
      written_stage run (report_of run keys stage progress label) world

crash_named :
    (es : List Failure) (e : String)
    → has_error "pipeline" (es ++ failure_of "pipeline" e false none ∷ []) ≡ true
crash_named es e =
    rw (has_error-snoc "pipeline" (failure_of "pipeline" e false none) es) (ground arith)

abbrev terminal_for : List Failure → String
terminal_for es = if no_errors es then "completed" else "completed_degraded"

closed_cases :
    {C : Type 0} (errors : List Failure) (results : Results) (shown : Option String)
    → IsRecorded results errors
    → shown ≡ some (terminal_for errors)
    → ((shown ≡ some "completed") × (derive_failed_stages errors results ≡ []) × (errors ≡ []))
      ⊎ ((shown ≡ some "completed_degraded")
          × ((s : String) → one_of s (derive_failed_stages errors results) ≡ has_error s errors)
          × (errors ≢ []))
      ⊎ C
closed_cases [] results shown h e = inl (e, nothing_failed [] results h refl, refl)
closed_cases (x ∷ es) results shown h e =
    inr (inl (e, (λ s. failed_are_errors (x ∷ es) results s h), λ empty. ground arith))

no_books : IsRecorded [] []
unfolding lookup blob_of
no_books = record {
  distinct = tt;
  recorded = λ s fails. absurd (ground arith);
  delivered = λ ok. refl;
  named = refl;
}

clean_IsReady :
    (results : Results) (errors : List Failure)
    → results ≡ []
    → errors ≡ []
    → IsReady stages (results, errors)
clean_IsReady results errors clean calm =
    rw (clean, calm) (record { recorded = no_books; fresh = ground arith })

stages_distinct : AllDistinct stages
unfolding one_of
stages_distinct = ground arith

abbrev Recorded : Books → Type 0
Recorded b = IsRecorded b.0 b.1

module _ (patterns : Patterns) (minima : Minima) (strip lower : String → String)
    (stamp duration : String) where
  event-IsRecorded :
      (o : Option String) (run : Run)
      → Recorded (books run)
      → Recorded (books (with_event patterns minima strip lower stamp duration o run))
  unfolding add_event
  event-IsRecorded none run h = h
  event-IsRecorded (some message) run h = h

  refresh-IsRecorded :
      (course : Course) (run : Run)
      → Recorded (books run)
      → Recorded (books (refresh_totals patterns minima strip lower stamp duration course run))
  unfolding refresh_totals
  refresh-IsRecorded course run h =
      event-IsRecorded course.propagated
        (record run { kpis = assign_kpis course.refreshed run.kpis }) h

  finalize-IsRecorded :
      (course : Course) (run : Run) (world : World)
      → Recorded (books run)
      → Recorded (books (finalize patterns minima strip lower stamp duration course (run, world)).0)
  unfolding finalize finalization_heartbeat reconcile_operational_state with_outcome
  finalize-IsRecorded course run world h =
      let beaten = record run { heartbeat_count = run.heartbeat_count + 1 } in
      let totals = refresh_totals patterns minima strip lower stamp duration course beaten in
      reconcile-IsRecorded patterns course.schema totals.kpis totals.operation_id stamp
        totals.errors totals.results totals.events (refresh-IsRecorded course beaten h)

  close-Verdict :
      (run : Run) (world : World)
      → Recorded (books run)
      → Verdict (close_run patterns minima strip lower stamp duration (run, world))
  unfolding close_run report_run report_of terminal_of add_event failed_stage_keys set_status
  close-Verdict run world h =
      let terminal = terminal_of patterns minima strip lower stamp duration run in
      closed_cases run.errors run.results _ h (
        reported_stage strip stamp (add_event stamp (append_text "Pipeline " terminal) run) no_keys
          terminal 100 terminal world
        ∙ ap (λ es. some (terminal_for es)) (all_block run h))

  fail-Verdict :
      (e : String) (run : Run) (world : World)
      → Verdict (fail_run patterns minima strip lower stamp duration e (run, world))
  unfolding fail_run
  fail-Verdict e run world =
      let failed =
        add_event stamp (append_text "Pipeline failed: " e)
          (record run { errors = run.errors ++ failure_of "pipeline" e false none ∷ [] }) in
      inr (
        inr (
          written_stage strip stamp failed
              (record {
                stage = "failed";
                progress = 0;
                pipeline_status = some "failed";
                keys = no_keys;
                kpis = some failed.kpis;
                completed_stages = [];
                failed_stages = [];
              })
              world,
          crash_named run.errors e,
        ))

  end-Verdict :
      (course : Course) (p : Progress)
      → IsOnTrack [] p
      → Verdict (end_run patterns minima strip lower stamp duration course p)
  unfolding end_run
  end-Verdict course (going (run, world)) h =
      (let (final, left) =
          finalize patterns minima strip lower stamp duration course (run, world) in
        close-Verdict final left (finalize-IsRecorded course run world h.recorded))
  end-Verdict course (stopped e (run, world)) h = fail-Verdict e run world

  -- A run that starts without results and errors ends in one of three ways: its status is completed,
  -- with no error and no failed stage; or completed but degraded, with errors, and its status shows
  -- as failed exactly the stages that have an error; or failed, with an error of the pipeline. No
  -- error goes unseen for a fusion that has delivered, provided that no other stage returns the keys
  -- of a fusion's result.
  pub run_locked-Verdict :
      (course : Course) (run : Run) (world : World)
      → run.results ≡ []
      → run.errors ≡ []
      → AllHonest stages course.settings
      → Verdict (run_locked patterns minima strip lower stamp duration course (run, world))
  unfolding run_locked begin_run
  run_locked-Verdict course run world clean calm honest = end-Verdict course _ (
      run_stages-IsOnTrack patterns minima strip lower stamp duration stages course.settings 1 _
        stages_distinct honest (clean_IsReady run.results run.errors clean calm))

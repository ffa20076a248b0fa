-- ===== src/Pipeline/Aviation.antt =====
-- `AviationSyncPipeline` of worker/orchestration/refresh_pipeline.py: the four stages of the aviation
-- data under the pipeline's lock. A run is a `Run` without KPIs.
pub mod Degraded
pub mod Returned
use Prim.Native.String.{◌++◌ as append_text}
use sky_trax_project.Prelude.{
  ℕ, ◌+◌, ◌*◌, ◌/◌, String, Bool, false, Option, none, some, List, [], ◌∷◌, ◌++◌, if◌then◌else◌,
  insert,
}
use sky_trax_project.StageResults.{Blob, blob, text}
use sky_trax_project.Integrity.{Minima}
use sky_trax_project.Reconcile.{Patterns, Schema}
use sky_trax_project.Reconcile.Steps.{reconcile_pipeline_events}
use sky_trax_project.Pipeline.{
  World, Run, Write, Keys, no_keys, run_keys, no_errors, add_event, set_status,
  completed_stage_keys, failed_stage_keys,
}
use sky_trax_project.Pipeline.Stage.{Ending, returns, raises, failure_of, fail_stage, quoted}
use sky_trax_project.Pipeline.Execute.{
  Answer, skipped, finished, clear_history, with_outcome, reset_runtime, set_lock, held_by_other,
}

abbrev pub aviation_stages : List String
aviation_stages =
    "aviation_master" ∷ "airport_discovery" ∷ "aviation_metadata" ∷ "hub_intelligence" ∷ []

-- What a run meets: how each stage ends, the result and the event of the last propagation, if it
-- succeeds, the schema, and an exception behind the stages, such as one of Redis.
pub record AviationCourse : Type 0 where
  pub endings : List Ending
  pub propagated : Option (Blob × String)
  pub schema : Schema
  pub broken : Option String

-- A write without KPIs.
unfoldable pub aviation_write : Run → Keys → String → ℕ → Option String → Write
aviation_write run keys stage progress label = record {
  stage = stage;
  progress = progress;
  pipeline_status = label;
  keys = keys;
  kpis = none;
  completed_stages = completed_stage_keys run;
  failed_stages = failed_stage_keys run;
}

-- The run behind a stage's function.
unfoldable pub aviation_settle : String → String → String → Ending → Run → Run
aviation_settle stamp duration stage (returns b) run =
    add_event stamp (quoted stage (append_text "completed (" (append_text duration "ms)")))
      (record run { results = insert stage (blob b) run.results })
aviation_settle stamp duration stage (raises e) run =
    add_event stamp (quoted stage (append_text "failed: " e))
      (fail_stage (failure_of stage e false none) (("error", text e) ∷ []) run)

module _ (patterns : Patterns) (minima : Minima) (strip lower : String → String)
    (stamp duration : String) where
  abbrev aviation_report : Run → String → ℕ → World → World
  aviation_report run stage progress world =
      set_status strip stamp run (aviation_write run (run_keys run) stage progress none) world

  -- `_run_stage`
  unfoldable pub run_aviation_stage : String → ℕ → Ending → Run × World → Run × World
  run_aviation_stage stage index ending (run, world) =
      let progress = index * 100 / 5 in
      let begun = add_event stamp (quoted stage "started") run in
      let settled = aviation_settle stamp duration stage ending begun in
      (settled, aviation_report settled stage progress (aviation_report begun stage progress world))

  unfoldable pub run_aviation_stages : List String → List Ending → ℕ → Run × World → Run × World
  run_aviation_stages [] endings index now = now
  run_aviation_stages (stage ∷ rest) [] index now = now
  run_aviation_stages (stage ∷ rest) (e ∷ endings) index now =
      run_aviation_stages rest endings (index + 1) (run_aviation_stage stage index e now)

  -- `_run_aviation_propagate_final`
  unfoldable pub propagate_final : Option (Blob × String) → Run → Run
  propagate_final none run = run
  propagate_final (some (stats, message)) run =
      add_event stamp message
        (record run { results = insert "aviation_propagation" (blob stats) run.results })

  -- `_reconcile_operational_state`, without KPIs
  unfoldable pub reconcile_aviation_state : Schema → Run × World → Run × World
  reconcile_aviation_state schema (run, world) =
      let out =
        reconcile_pipeline_events patterns schema [] run.operation_id stamp run.errors run.results
          run.events in
      (
        with_outcome patterns minima strip lower stamp duration out run,
        record world {
          runtime =
              clear_history patterns minima strip lower stamp duration run.operation_id out.cleared
                world.runtime;
        },
      )

  abbrev aviation_label : Run → String
  aviation_label run = if no_errors run.errors then "completed" else "completed_degraded"

  -- The last event and status of a run that went through its stages.
  unfoldable pub close_aviation : Run × World → Run × World
  close_aviation (run, world) =
      let terminal = aviation_label run in
      let run' = add_event stamp (append_text "Aviation sync " terminal) run in
      (
        run',
        set_status strip stamp run' (aviation_write run' no_keys terminal 100 (some terminal))
            world,
      )

  -- The failure path
  unfoldable pub fail_aviation : String → Run × World → Run × World
  fail_aviation e (run, world) =
      let run' =
        add_event stamp (append_text "Aviation sync failed: " e) (record run {
          errors = run.errors ++ failure_of "aviation_pipeline" e false none ∷ [];
        }) in
      (
        run',
        set_status strip stamp run'
            (record {
              stage = "failed";
              progress = 0;
              pipeline_status = none;
              keys = no_keys;
              kpis = none;
              completed_stages = [];
              failed_stages = [];
            })
            world,
      )

  unfoldable pub end_aviation : AviationCourse → Option String → Run × World → Run × World
  end_aviation course none (run, world) =
      close_aviation
        (reconcile_aviation_state course.schema (propagate_final course.propagated run, world))
  end_aviation course (some e) now = fail_aviation e now

  -- The first event and status.
  unfoldable pub begin_aviation : Run × World → Run × World
  begin_aviation (run, world) =
      let run' = add_event stamp "Aviation sync started" run in
      let ready = record world {
        runtime =
            reset_runtime patterns minima strip lower stamp duration run.operation_id world.runtime;
      } in
      (
        run',
        set_status strip stamp run'
            (record {
              stage = "airport_discovery";
              progress = 5;
              pipeline_status = none;
              keys = run_keys run';
              kpis = none;
              completed_stages = [];
              failed_stages = [];
            })
            ready,
      )

  -- What runs between taking the lock and giving it back.
  unfoldable pub run_aviation : AviationCourse → Run × World → Run × World
  run_aviation course now =
      end_aviation course course.broken
        (run_aviation_stages aviation_stages course.endings 1 (begin_aviation now))

  -- `AviationSyncPipeline.execute`
  unfoldable pub execute_aviation : AviationCourse → Run → World → Answer × World
  execute_aviation course run world =
      let locked =
        set_lock patterns minima strip lower stamp duration (some run.operation_id) world in
      let (final, left) = run_aviation course (run, locked) in
      if held_by_other patterns minima strip lower stamp duration world.redis.refresh_lock
        run.operation_id
      then (skipped, world)
      else (
        finished (if no_errors final.errors then "completed" else "partial") final,
        set_lock patterns minima strip lower stamp duration none left,
      )

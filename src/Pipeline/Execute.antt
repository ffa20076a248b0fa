-- ===== src/Pipeline/Execute.antt =====
-- `OperationalRefreshPipeline.execute`: the lock, the stages in their order, the finalization and
-- the failure path. The queries of the finalization are not modelled: what
-- they write is given, and none of them raises.
pub mod Verdict
pub mod Lock
use Prim.Native.String.{◌++◌ as append_text}
use sky_trax_project.Prelude.{
  ℕ, ◌+◌, String, Bool, false, not, Option, none, some, List, [], ◌∷◌, ◌++◌, str_eq, if◌then◌else◌,
  Dict, insert,
}
use sky_trax_project.Integrity.{Minima}
use sky_trax_project.Reconcile.{Patterns, Schema}
use sky_trax_project.Reconcile.Steps.{Outcome, reconcile_pipeline_events}
use sky_trax_project.Runtime.{Runtime, load, save}
use sky_trax_project.Runtime.History.{remove_false_degraded_events}
use sky_trax_project.Runtime.Blocks.{set_schema_drift}
use sky_trax_project.Pipeline.{
  World, Run, blocking_errors, no_errors, live_status_label, add_event, set_status, report_run,
  no_keys, run_keys, final_keys, stages,
}
use sky_trax_project.Pipeline.Stage.{Setting, failure_of, run_stage}

-- What the schema check at the start reports.
pub record SchemaReport : Type 0 where
  pub drifted : Bool
  pub missing : List String
  pub semantic : List String

-- The surroundings of a run: a setting for each stage, the report on the schema if it could be made,
-- the KPIs that the database sets at the end, and the event of the aviation domains, if any.
pub record Course : Type 0 where
  pub settings : List Setting
  pub report : Option SchemaReport
  pub refreshed : Dict ℕ
  pub schema : Schema
  pub propagated : Option String

-- How far the stages have come.
pub data Progress : Type 0 where
  going : Run × World → Progress
  stopped : String → Run × World → Progress

-- `_refresh_kpis_from_db`: it sets each KPI that the database has.
unfoldable pub assign_kpis : Dict ℕ → Dict ℕ → Dict ℕ
unfolding insert
assign_kpis [] kpis = kpis
assign_kpis ((k, v) ∷ new) kpis = assign_kpis new (insert k v kpis)

abbrev error_or_empty : Option String → String
error_or_empty none = ""
error_or_empty (some e) = e

abbrev after_stage : Option String → Run × World → Option (Run × World) → Progress
after_stage e now none = stopped (error_or_empty e) now
after_stage e now (some next) = going next

abbrev pub or_snapshots : String → String
or_snapshots s = if str_eq s "" then "snapshots" else s

pub data Answer : Type 0 where
  skipped : Answer
  finished : String → Run → Answer

module _ (patterns : Patterns) (minima : Minima) (strip lower : String → String)
    (stamp duration : String) where
  -- The next stage, unless the run has stopped.
  unfoldable pub next_stage : Setting → String → ℕ → Progress → Progress
  unfolding run_stage
  next_stage s stage index (stopped e now) = stopped e now
  next_stage s stage index (going now) =
      after_stage s.broken now
        (run_stage patterns minima strip lower stamp duration s stage index now)

  -- The stages with their settings, counted from `index`.
  unfoldable pub run_stages : List String → List Setting → ℕ → Progress → Progress
  unfolding next_stage
  run_stages [] settings index p = p
  run_stages (stage ∷ rest) [] index p = p
  run_stages (stage ∷ rest) (s ∷ settings) index p =
      run_stages rest settings (index + 1) (next_stage s stage index p)

  -- `_emit_finalization_heartbeat`
  unfoldable pub finalization_heartbeat : String → ℕ → Run × World → Run × World
  unfolding report_run
  finalization_heartbeat label progress (run, world) =
      let run' = record run { heartbeat_count = run.heartbeat_count + 1 } in
      (
        run',
        report_run strip stamp run' (final_keys stamp run') (or_snapshots run.last_successful_stage)
            progress label world,
      )

  abbrev with_event : Option String → Run → Run
  with_event none run = run
  with_event (some message) run = add_event stamp message run

  -- The KPIs of the database and the event of the aviation domains.
  unfoldable pub refresh_totals : Course → Run → Run
  unfolding assign_kpis add_event
  refresh_totals course run =
      with_event course.propagated (record run { kpis = assign_kpis course.refreshed run.kpis })

  -- The degraded history of the stages that were cleared.
  unfoldable pub clear_history : String → List String → Runtime → Runtime
  unfolding remove_false_degraded_events
  clear_history op [] r = r
  clear_history op (s ∷ cleared) r =
      clear_history op cleared (remove_false_degraded_events op s stamp r).1

  unfoldable pub with_outcome : Outcome → Run → Run
  with_outcome out run = record run {
    errors = out.errors;
    results = out.results;
    events = out.events;
  }

  -- `_reconcile_operational_state`
  unfoldable pub reconcile_operational_state : Course → Run × World → Run × World
  unfolding reconcile_pipeline_events with_outcome clear_history report_run
  reconcile_operational_state course (run, world) =
      let out =
        reconcile_pipeline_events patterns course.schema run.kpis run.operation_id stamp run.errors
          run.results run.events in
      let run' = with_outcome out run in
      let cleared = record world {
        runtime = clear_history run.operation_id out.cleared world.runtime;
      } in
      (
        run',
        report_run strip stamp run' (run_keys run') (or_snapshots run'.last_successful_stage) 90
            (live_status_label run') cleared,
      )

  -- The run as it is reconciled, before its last event and status.
  unfoldable pub finalize : Course → Run × World → Run × World
  unfolding finalization_heartbeat refresh_totals reconcile_operational_state
  finalize course now =
      let (run, world) = finalization_heartbeat "finalizing" 92 now in
      let reconciled = reconcile_operational_state course (refresh_totals course run, world) in
      let lineage = finalization_heartbeat "finalizing" 95 reconciled in
      finalization_heartbeat "persisting" 98 lineage

  unfoldable pub terminal_of : Run → String
  unfolding blocking_errors
  terminal_of run = if no_errors (blocking_errors run) then "completed" else "completed_degraded"

  -- The last event and status of a run that went through its stages.
  unfoldable pub close_run : Run × World → Run × World
  unfolding terminal_of add_event report_run
  close_run (run, world) =
      let terminal = terminal_of run in
      let run' = add_event stamp (append_text "Pipeline " terminal) run in
      (run', report_run strip stamp run' no_keys terminal 100 terminal world)

  -- The failure path
  unfoldable pub fail_run : String → Run × World → Run × World
  unfolding add_event set_status
  fail_run e (run, world) =
      let run' =
        add_event stamp (append_text "Pipeline failed: " e)
          (record run { errors = run.errors ++ failure_of "pipeline" e false none ∷ [] }) in
      (
        run',
        set_status strip stamp run'
            (record {
              stage = "failed";
              progress = 0;
              pipeline_status = some "failed";
              keys = no_keys;
              kpis = some run'.kpis;
              completed_stages = [];
              failed_stages = [];
            })
            world,
      )

  unfoldable pub end_run : Course → Progress → Run × World
  unfolding close_run finalize fail_run
  end_run course (going now) = close_run (finalize course now)
  end_run course (stopped e now) = fail_run e now

  -- `runtime_state_reset` on the runtime state; what it does to the status is written over at once.
  unfoldable pub reset_runtime : String → Runtime → Runtime
  unfolding remove_false_degraded_events load save
  reset_runtime op r =
      let removed =
        if str_eq op "" then r else (remove_false_degraded_events op "aviation_master" stamp r).1 in
      save (record (load removed) { last_degraded_stage = none; last_degraded_error = none })
        removed

  -- `reconcile_schema_blocks`, for the report that it gets
  unfoldable pub block_stages : Option SchemaReport → Runtime → Runtime
  unfolding set_schema_drift
  block_stages none r = r
  block_stages (some report) r =
      set_schema_drift report.drifted report.missing report.semantic stamp r

  -- The first event and status, which holds no KPIs.
  unfoldable pub begin_run : Course → Run × World → Run × World
  unfolding reset_runtime block_stages add_event set_status
  begin_run course (run, world) =
      let run' = add_event stamp "Pipeline started" run in
      let ready = record world {
        runtime = block_stages course.report (reset_runtime run.operation_id world.runtime);
      } in
      (
        run',
        set_status strip stamp run'
            (record {
              stage = "crawl";
              progress = 5;
              pipeline_status = none;
              keys = run_keys run';
              kpis = none;
              completed_stages = [];
              failed_stages = [];
            })
            ready,
      )

  abbrev pub set_lock : Option String → World → World
  set_lock holder world = record world { redis = record world.redis { refresh_lock = holder } }

  -- What runs between taking the lock and giving it back.
  unfoldable pub run_locked : Course → Run × World → Run × World
  unfolding begin_run run_stages end_run
  run_locked course now =
      end_run course (run_stages stages course.settings 1 (going (begin_run course now)))

  abbrev pub held_by_other : Option String → String → Bool
  held_by_other none op = false
  held_by_other (some holder) op = not (str_eq holder op)

  -- `execute`: the lock is taken, or already held for the same operation, and deleted at the end.
  unfoldable pub execute : Course → Run → World → Answer × World
  unfolding run_locked blocking_errors
  execute course run world =
      let (final, left) = run_locked course (run, set_lock (some run.operation_id) world) in
      if held_by_other world.redis.refresh_lock run.operation_id then (skipped, world) else (
        finished (if no_errors (blocking_errors final) then "completed" else "partial") final,
        set_lock none left,
      )

-- ===== src/Jobs/Refresh.antt =====
-- `run_operational_refresh` and `run_aviation_sync` of worker/jobs.py: the jobs that the worker takes
-- from the queue. The identifier that a pipeline makes where none is given is a parameter.
use sky_trax_project.Prelude.{
  ◌≡◌, refl, String, false, Option, none, some, [], or_default, filled, one_of, str_eq,
}
use sky_trax_project.Lifecycle.{transition, accept_refresh, accepted, queued_operation}
use sky_trax_project.Integrity.{Minima}
use sky_trax_project.Reconcile.{Patterns}
use sky_trax_project.Pipeline.{World, Run}
use sky_trax_project.Pipeline.Execute.{Answer, Course, execute, held_by_other}
use sky_trax_project.Pipeline.Execute.Lock.{IsMine, transition_moves, transition-IsMine}
use sky_trax_project.Pipeline.Execute.Lock.Frees.{run_frees_next}
use sky_trax_project.Pipeline.Aviation.{AviationCourse, execute_aviation}

-- A pipeline as it is made.
abbrev pub run_of : String → String → Run
run_of op triggered_by = record {
  operation_id = op;
  triggered_by = triggered_by;
  results = [];
  errors = [];
  events = [];
  kpis = [];
  last_successful_stage = "";
  heartbeat_count = 0;
}

abbrev pub new_run : Option String → String → String → Run
new_run operation_id fresh triggered_by =
    run_of (or_default (filled operation_id) fresh) triggered_by

-- `if operation_id: OperationLifecycleManager().transition(operation_id, "running")`
abbrev pub mark_running : Option String → String → World → World
mark_running none stamp world = world
mark_running (some op) stamp world = record world {
  redis = transition op "running" (λ o. o) stamp world.redis;
}

module _ (patterns : Patterns) (minima : Minima) (strip lower : String → String)
    (stamp duration : String) where
  unfoldable pub run_operational_refresh :
      Course → Option String → String → String → World → Answer × World
  run_operational_refresh course operation_id fresh triggered_by world =
      execute patterns minima strip lower stamp duration course
        (new_run operation_id fresh triggered_by) (mark_running (filled operation_id) stamp world)

  unfoldable pub run_aviation_sync :
      AviationCourse → Option String → String → String → World → Answer × World
  run_aviation_sync course operation_id fresh triggered_by world =
      execute_aviation patterns minima strip lower stamp duration course
        (new_run operation_id fresh triggered_by) (mark_running (filled operation_id) stamp world)

  -- However a refresh job ends, it makes room: where Redis is in reach, the dispatch lock free, the refresh lock not another's and the stored operation the job's own, under an id that is not empty, and stripping leaves the three terminal labels as they are, the refresh lock is gone after the job and the next request for a refresh is accepted.
  pub refresh_job_frees_next :
      (course : Course) (op fresh trigger : String) (world : World) (next by kind now : String)
      → str_eq op "" ≡ false
      → held_by_other patterns minima strip lower stamp duration world.redis.refresh_lock op ≡ false
      → IsMine op world.redis
      → strip "completed" ≡ "completed"
      → strip "completed_degraded" ≡ "completed_degraded"
      → strip "failed" ≡ "failed"
      → ((accept_refresh next by kind now
            (run_operational_refresh course (some op) fresh trigger world).1.redis).0
          ≡ accepted (queued_operation next by kind now))
        × ((run_operational_refresh course (some op) fresh trigger world).1.redis.refresh_lock
            ≡ none)
  unfolding run_operational_refresh one_of
  refresh_job_frees_next course op fresh trigger world next by kind now named open_ mine full
        degraded failed =
      rw named (
        run_frees_next patterns minima strip lower stamp duration course (run_of op trigger)
          (mark_running (some op) stamp world) next by kind now named
          (rw (transition_moves op "running" stamp world.redis mine refl) open_)
          (transition-IsMine op "running" stamp world.redis mine) full degraded failed)

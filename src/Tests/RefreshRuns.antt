-- ===== src/Tests/RefreshRuns.antt =====
-- The refresh pipeline's accept path and watchdog on small stores.
use sky_trax_project.Prelude.{
  ℕ, ◌≡◌, ◌≢◌, refl, String, true, false, none, some, arith, eq_iff, one_of, str_eq, if◌then◌else◌,
}
use sky_trax_project.Store.{nothing, entry, Status, Redis}
use sky_trax_project.Lifecycle.{
  try_acquire_dispatch_lock, get_active_operation, accept_refresh, accepted, queued_operation,
}
use sky_trax_project.Lifecycle.Accepting.{accept_refresh_cases, AcceptanceSplit}
use sky_trax_project.Lifecycle.Interleaving.{
  Environment, idle, holding, unopposed, leaving, System, Reach, here, next, acquire, find_none,
  update, begin, in_section, active, accept_exclusive,
}
use sky_trax_project.Lifecycle.Interleaving.Expiry.{with_expiry, expiry_breaks_exclusion}
use sky_trax_project.Watchdog.{
  parse_ts, last_activity_timestamp, default_thresholds, Texts, stalled, enriched,
  heartbeat_age_seconds, no_progress_seconds, hard_threshold_for_stage, compute_worker_alive,
}
use sky_trax_project.Watchdog.AcceptPath.{idle_status, prepare_accept_path}
use sky_trax_project.Watchdog.AcceptPath.Drops.{unwritten_status_loses_operation}
use sky_trax_project.Watchdog.AcceptPath.Queue.{IsWaiting}
use sky_trax_project.Watchdog.AcceptPath.Queue.Loses.{queued_job_loses_operation}
use sky_trax_project.Watchdog.Health.{evaluate_pipeline_health, evaluate_running, snapshot_of}
use sky_trax_project.Watchdog.Health.Truth.{Promise, evaluate-Promise, timeless_status_never_stalls}
use sky_trax_project.Watchdog.Recovery.{is_stalled, reconcile_pipeline_state, lock_owner}
use sky_trax_project.Watchdog.Recovery.Room.{IsStopped, stalled_run_makes_room}
use sky_trax_project.Watchdog.Stall.{classify_stall}
use sky_trax_project.Dispatch.{accept_and_dispatch, failure, Job, unavailable_503, queued_status}
use sky_trax_project.Dispatch.Answers.{failed_enqueue_is_over}

abbrev empty : Redis
empty = record {
  up = true;
  operation = nothing;
  status = nothing;
  refresh_lock = none;
  watchdog_lock = false;
  dispatch_lock = false;
}

-- A store that holds the queued operation "a".
abbrev queued_a : Redis
queued_a = record empty { operation = entry (queued_operation "a" "ui" "full" "t0") }

accept_refresh_cases_example : AcceptanceSplit "a" "ui" "full" "t0" empty
accept_refresh_cases_example = accept_refresh_cases "a" "ui" "full" "t0" empty refl

not_empty : ◌≢◌ {A = String} "a" ""
not_empty e = cc ((eq_iff "a" "").1 e)

not_b : ◌≢◌ {A = String} "a" "b"
not_b e = cc ((eq_iff "a" "b").1 e)

-- The first client has the lock and has found no operation.
abbrev alone_inside : System
alone_inside = record {
  store = record empty { dispatch_lock = true };
  phase = update (update (λ _. idle) 0 holding) 0 unopposed;
}

abbrev undisturbed : Environment
undisturbed = record { expiring = false; outages = false; reviving = false }

alone_inside-reached : Reach undisturbed (begin empty) alone_inside
unfolding try_acquire_dispatch_lock get_active_operation
alone_inside-reached = next (next here (acquire 0 refl refl)) (find_none 0 refl refl)

accept_exclusive_example :
    ((c d : ℕ)
      → in_section (alone_inside.phase c) ≡ true
      → in_section (alone_inside.phase d) ≡ true
      → c ≡ d)
    × (false ≡ false
        → (c : ℕ) → alone_inside.phase c ≡ unopposed
        → active alone_inside.store ≡ false)
accept_exclusive_example =
    accept_exclusive undisturbed empty alone_inside (record { lasting = refl; reachable = refl })
      refl alone_inside-reached

expiry_breaks_exclusion_example :
    (m s : System) × Reach with_expiry (begin empty) m
    × (m.store.operation ≡ entry (queued_operation "a" "ui" "full" "t0"))
    × (m.phase 0 ≡ leaving true)
    × (m.phase 1 ≡ unopposed)
    × Reach with_expiry m s
    × (s.store.operation ≡ entry (queued_operation "b" "ui" "full" "t1"))
    × (s.phase 0 ≡ leaving true)
    × (s.phase 1 ≡ leaving true)
unfolding get_active_operation
expiry_breaks_exclusion_example =
    expiry_breaks_exclusion empty 0 1 "a" "b" "ui" "full" "t0" "t1" refl refl refl (omega arith)

-- Clocks in which "early" is one second after the start.
abbrev clock : Texts
clock = record {
  decimal = λ n. "";
  from_iso = λ s. if str_eq s "early" then some 1000000 else none;
  to_iso = λ n. "iso";
}

abbrev crawling : Status
crawling = record idle_status {
  operation_id = some "a";
  running = some true;
  stage = some "crawl";
  updated_at = some "early";
}

abbrev in_queue : Status
in_queue = record crawling { stage = some "queued" }

evaluate-Promise_example :
    let (out, action) =
      evaluate_pipeline_health default_thresholds clock crawling 5000000 "" "now" in
    Promise crawling out action
evaluate-Promise_example = evaluate-Promise default_thresholds clock crawling 5000000 "" "now"

crawl_stalled :
    (evaluate_pipeline_health default_thresholds clock crawling 900000000 "" "now").1 ≡ stalled
unfolding evaluate_pipeline_health evaluate_running snapshot_of heartbeat_age_seconds
    no_progress_seconds compute_worker_alive classify_stall hard_threshold_for_stage one_of
crawl_stalled = refl

abbrev timeless : Status
timeless = record crawling { updated_at = none }

timeless_status_never_stalls_example :
    let (out, action) =
      evaluate_pipeline_health default_thresholds clock timeless 900000000 "" "now" in
    (action ≡ enriched) × (out.worker_alive ≡ some true)
unfolding hard_threshold_for_stage one_of
timeless_status_never_stalls_example =
    timeless_status_never_stalls default_thresholds clock timeless 900000000 "" "now" (omega arith)
      (record {
        no_heartbeat = refl;
        no_inner_heartbeat = refl;
        no_update = refl;
        no_progress_time = refl;
        no_start = refl;
      })
      refl

abbrev crawl_store : Redis
crawl_store = record queued_a { status = entry crawling }

stalled_run_makes_room_example :
    let after =
      (reconcile_pipeline_state default_thresholds clock 900000000 "now" true crawl_store).1 in
    IsStopped default_thresholds clock 900000000 "now" crawl_store after
    × ((accept_refresh "b" "ui" "full" "t2" after).0
        ≡ accepted (queued_operation "b" "ui" "full" "t2"))
unfolding lock_owner
stalled_run_makes_room_example =
    stalled_run_makes_room default_thresholds clock 900000000 "now" crawling
      (queued_operation "a" "ui" "full" "t0") "a" crawl_store "b" "ui" "full" "t2" refl refl refl
      refl refl refl refl refl not_empty crawl_stalled

abbrev other_store : Redis
other_store = record crawl_store { operation = entry (queued_operation "b" "ui" "full" "t0") }

-- Ninety-nine seconds in the queue.
-- A clock that writes the one instant of its runs as it reads it.
abbrev exact_clock : Texts
exact_clock = record clock { to_iso = λ n. "early" }

abbrev queue_store : Redis
queue_store = record queued_a { status = entry in_queue }

in_queue-IsWaiting : IsWaiting exact_clock "a" 1000000 in_queue
unfolding last_activity_timestamp
in_queue-IsWaiting = record { running = refl; stage = refl; operation = refl; last_seen = refl }

queued_job_loses_operation_example :
    let (report, r') =
      prepare_accept_path default_thresholds exact_clock "now" 90000000 95000000 100000000
        queue_store in
    (is_stalled report.reconcile_action ≡ false)
    × ((accept_refresh "b" "ui" "full" "t2" r').0
        ≡ accepted (queued_operation "b" "ui" "full" "t2"))
unfolding parse_ts
queued_job_loses_operation_example =
    queued_job_loses_operation default_thresholds exact_clock "now" "a" 1000000 refl "b" "ui" "full"
      "t2" (queued_operation "a" "ui" "full" "t0") in_queue 90000000 95000000 100000000 queue_store
      refl refl refl refl in_queue-IsWaiting refl refl not_empty (omega arith) (omega arith)
      (omega arith)

unwritten_status_loses_operation_example :
    (accept_refresh "b" "ui" "full" "t2"
      (prepare_accept_path default_thresholds clock "now" 1 2 3 queued_a).1).0
    ≡ accepted (queued_operation "b" "ui" "full" "t2")
unfolding get_active_operation one_of
unwritten_status_loses_operation_example =
    unwritten_status_loses_operation default_thresholds clock "now" "a" "b" "ui" "full" "t2"
      (queued_operation "a" "ui" "full" "t0") 1 2 3 queued_a refl refl refl refl refl refl refl
      not_empty

abbrev first_job : Job
first_job = record { job_id = "j"; queue = "default"; queue_depth = 1 }

failed_enqueue_is_over_example :
    let (reply, after) = accept_and_dispatch (λ s. s) "a" "ui" (failure "down") "t0" "full" empty in
    (reply ≡ unavailable_503 "a" "down")
    × (get_active_operation after ≡ none)
    × (after.status ≡ entry (queued_status "a" "ui" "t0"))
    × (after.dispatch_lock ≡ false)
unfolding get_active_operation
failed_enqueue_is_over_example =
    failed_enqueue_is_over (λ s. s) refl "a" "ui" "full" "t0" not_empty empty "down" refl refl refl

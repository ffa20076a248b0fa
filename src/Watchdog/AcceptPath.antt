-- ===== src/Watchdog/AcceptPath.antt =====
-- `get_live_status_fast` of worker/orchestration/refresh_pipeline.py, and `prepare_accept_path` of
-- the watchdog: what is cleared away before a request for a refresh is accepted.
pub mod Drops
pub mod Queue
use sky_trax_project.Prelude.{
  ℕ, String, Bool, true, false, not, ◌||◌, Option, none, some, List, [], ◌∷◌, one_of, or_default,
  str_eq, truthy, if◌then◌else◌,
}
use sky_trax_project.Store.{Stored, nothing, broken, entry, Status, Redis}
use sky_trax_project.Watchdog.{
  Thresholds, Texts, ReconcileAction, heartbeat_age_seconds, compute_worker_alive,
}
use sky_trax_project.Watchdog.Stall.{stage_of, pipeline_status_of}
use sky_trax_project.Watchdog.Recovery.{
  release_stalled_state, reconcile_pipeline_state, enrich_live_status, action_of, is_stalled,
}

abbrev pub terminal_stages : List String
terminal_stages = "idle" ∷ "completed" ∷ "completed_degraded" ∷ "failed" ∷ []

abbrev stage_runs : Option String → Bool
stage_runs none = false
stage_runs (some s) = not (one_of s terminal_stages)

-- `data.setdefault("running", …)`
unfoldable pub with_running : Status → Status
with_running d = elim d.running [
  | none ↦ record d { running = some (stage_runs d.stage) }
  | some _ ↦ d
]

abbrev pub idle_status : Status
idle_status = record {
  operation_id = none;
  running = some false;
  stage = some "idle";
  progress = some 0;
  pipeline_status = none;
  updated_at = none;
  started_at = none;
  last_heartbeat_at = none;
  heartbeat_at = none;
  last_progress = none;
  last_progress_at = none;
  worker_alive = none;
  heartbeat_age_s = none;
  stale_seconds = none;
  no_progress_seconds = none;
  stale = none;
  stale_warning = none;
  soft_stall = none;
  busy_without_heartbeat = none;
  stall_diagnosis = none;
  events = [];
  triggered_by = none;
}

-- What `prepare_accept_path` reports.
pub record Prepared : Type 0 where
  pub reconcile_action : ReconcileAction
  pub released : Bool

module _ (t : Thresholds) (texts : Texts) (stamp : String) where
  unfoldable pub live_of : Stored Status → ℕ → Redis → Status × Redis
  live_of nothing now r = (idle_status, r)
  live_of broken now r = (idle_status, r)
  live_of (entry d) now r = enrich_live_status t texts now stamp (with_running d) r

  -- `get_live_status_fast`
  unfoldable pub get_live_status_fast : ℕ → Redis → Status × Redis
  unfolding live_of
  get_live_status_fast now r = if r.up then live_of r.status now r else (idle_status, r)

  -- The test of `prepare_accept_path` on the live status.
  unfoldable pub needs_release : ℕ → Status → Bool
  needs_release now live =
      not (truthy live.running)
      || one_of (stage_of live) ("stalled" ∷ "failed" ∷ "idle" ∷ [])
      || str_eq (pipeline_status_of live) "stalled"
      || not (compute_worker_alive t (heartbeat_age_seconds texts live now))

  unfoldable pub release_if_needed : ℕ → Status → Redis → Redis
  release_if_needed now live r =
      if needs_release now live then release_stalled_state live.operation_id stamp r else r

  -- `prepare_accept_path`, with the clock of each of its three readings.
  unfoldable pub prepare_accept_path : ℕ → ℕ → ℕ → Redis → Prepared × Redis
  prepare_accept_path now₁ now₂ now₃ r =
      let (report, r₁) = reconcile_pipeline_state t texts now₁ stamp true r in
      let (live, r₂) = get_live_status_fast now₂ r₁ in
      (
        record {
          reconcile_action = action_of report;
          released = is_stalled (action_of report) || needs_release now₃ live;
        },
        release_if_needed now₃ live r₂,
      )

-- ===== src/Watchdog/Health.antt =====
-- `evaluate_pipeline_health` and `build_stall_diagnosis`: the status object as the watchdog
-- corrects it. The metrics that it counts on the way are left out.
pub mod Truth
use Prim.Native.String.{◌++◌ as ◌&◌}
use sky_trax_project.Prelude.{
  ℕ, String, Bool, true, false, not, ◌&&◌, ◌||◌, Option, none, some, List, [], ◌∷◌, ◌++◌, ltb, leb,
  or_default, or_text, truthy, filled, one_of, str_eq, if◌then◌else◌,
}
use sky_trax_project.Store.{Diagnosis, Event, Status}
use sky_trax_project.Watchdog.{
  Thresholds, StallType, no_stall, soft_stall, hard_stall, starting_orphan, no_progress, stall_name,
  ReconcileAction, no_action, enriched, soft_warning, stalled, Texts, last_activity_timestamp,
  heartbeat_age_seconds, no_progress_seconds, compute_worker_alive,
}
use sky_trax_project.Watchdog.Stall.{hard_limit, classify_stall}

-- `PipelineHealthSnapshot`
pub record Snapshot : Type 0 where
  pub operation_id : String
  pub stage : String
  pub progress : ℕ
  pub heartbeat_age_s : ℕ
  pub no_progress_s : ℕ
  pub worker_alive : Bool
  pub stall_type : StallType
  pub pipeline_status : String
  pub running : Bool
  pub lock_owner : String

-- `build_stall_diagnosis`
unfoldable pub build_stall_diagnosis :
    Status → Snapshot → String → String → Bool → String → Diagnosis
build_stall_diagnosis d snap failure_type failure_reason recovered stamp = record {
  failure_reason = failure_reason;
  failure_type = failure_type;
  heartbeat_age = snap.heartbeat_age_s;
  last_stage = snap.stage;
  last_progress = snap.progress;
  stalled_detected_at = stamp;
  worker_last_seen = or_text d.last_heartbeat_at d.heartbeat_at;
  no_progress_seconds = snap.no_progress_s;
  worker_alive = snap.worker_alive;
  lock_owner = filled (some snap.lock_owner);
  recovered = recovered;
  stall_type = stall_name snap.stall_type;
}

abbrev pub is_fatal : StallType → Bool
is_fatal hard_stall = true
is_fatal starting_orphan = true
is_fatal no_progress = true
is_fatal _ = false

abbrev pub is_soft : StallType → Bool
is_soft soft_stall = true
is_soft _ = false

module _ (t : Thresholds) (texts : Texts) where
  -- The `reason` text of a stall.
  unfoldable pub stall_reason : Status → Snapshot → StallType → String
  stall_reason d snap hard_stall =
      "Heartbeat expired ("
      & texts.decimal snap.heartbeat_age_s
      & "s > "
      & texts.decimal (hard_limit t d)
      & "s)"
  stall_reason d snap starting_orphan =
      "Starting orphan: stuck at stage="
      & snap.stage
      & " progress="
      & texts.decimal snap.progress
      & " for "
      & texts.decimal snap.heartbeat_age_s
      & "s"
  stall_reason d snap _ =
      "No progress for "
      & texts.decimal snap.no_progress_s
      & "s (threshold "
      & texts.decimal t.no_progress_stall_s
      & "s)"

  -- The snapshot of a running status, with the lock's owner as Redis gives it.
  unfoldable pub snapshot_of : Status → ℕ → String → Snapshot
  unfolding classify_stall
  snapshot_of d now lock_owner =
      let heartbeat_age = heartbeat_age_seconds texts d now in
      let idle = no_progress_seconds texts d now in
      let alive = compute_worker_alive t heartbeat_age in
      record {
        operation_id = or_default d.operation_id "";
        stage = or_default (filled d.stage) "unknown";
        progress = or_default d.progress 0;
        heartbeat_age_s = heartbeat_age;
        no_progress_s = idle;
        worker_alive = alive;
        stall_type = classify_stall t d heartbeat_age idle alive;
        pipeline_status = or_default d.pipeline_status "";
        running = truthy d.running;
        lock_owner = lock_owner;
      }

  -- The keys that every running status gets.
  unfoldable pub with_ages : Status → Snapshot → Option ℕ → Status
  with_ages d snap last_seen = record d {
    heartbeat_age_s = some snap.heartbeat_age_s;
    stale_seconds = some snap.heartbeat_age_s;
    no_progress_seconds = some snap.no_progress_s;
    worker_alive = some snap.worker_alive;
    last_heartbeat_at = elim last_seen [
      | none ↦ d.last_heartbeat_at
      | some l ↦ some (texts.to_iso l)
    ];
  }

  -- A hard stall, an orphan, or a run without progress.
  unfoldable pub mark_stalled : Status → Status → Snapshot → String → Status
  mark_stalled d out snap stamp = record out {
    stale = some true;
    stale_warning = some true;
    running = some false;
    stage = some "stalled";
    pipeline_status = some "stalled";
    soft_stall = some false;
    busy_without_heartbeat = some false;
    stall_diagnosis = some (
        build_stall_diagnosis d snap (stall_name snap.stall_type)
          (stall_reason d snap snap.stall_type) false stamp);
    events =
        out.events
        ++ record {
          time = stamp;
          message = "[STALL] " & stall_reason d snap snap.stall_type;
          event_operation = some snap.operation_id;
        }
          ∷ [];
  }

  abbrev pub keeps_label : Option String → Bool
  keeps_label none = false
  keeps_label (some ps) = one_of ps ("running_degraded" ∷ "finalizing" ∷ "persisting" ∷ [])

  -- A late heartbeat.
  unfoldable pub mark_slow : Status → Status
  mark_slow out = record out {
    stale_warning = some true;
    soft_stall = some true;
    running = some true;
    pipeline_status =
        if keeps_label out.pipeline_status then out.pipeline_status else some "running_slow";
  }

  -- Nothing to report.
  unfoldable pub mark_healthy : Status → ℕ → Status
  mark_healthy out heartbeat_age = record out {
    stale_warning = none;
    soft_stall = none;
    stale = if leb heartbeat_age t.heartbeat_fresh_s then none else out.stale;
  }

  unfoldable pub evaluate_running : Status → ℕ → String → String → Status × ReconcileAction
  unfolding snapshot_of
  evaluate_running d now lock_owner stamp =
      let snap = snapshot_of d now lock_owner in
      let out = with_ages d snap (last_activity_timestamp texts d) in
      if is_fatal snap.stall_type
      then (mark_stalled d out snap stamp, stalled)
      else if is_soft snap.stall_type || ltb t.stale_soft_s snap.heartbeat_age_s
      then (mark_slow out, soft_warning)
      else (mark_healthy out snap.heartbeat_age_s, enriched)

  -- `evaluate_pipeline_health`
  unfoldable pub evaluate_pipeline_health : Status → ℕ → String → String → Status × ReconcileAction
  evaluate_pipeline_health d now lock_owner stamp =
      if truthy d.running
      then evaluate_running d now lock_owner stamp
      else (record d { worker_alive = some false }, no_action)

-- ===== src/Watchdog/AcceptPath/Queue.antt =====
-- What the watchdog makes of the status of a job that waits in the queue.
pub mod Loses
use sky_trax_project.Prelude.{
  ℕ, ◌-◌, ◌/◌, ◌≡◌, ◌∙◌, ◌≢◌, ◌≤◌, ◌<◌, refl, String, Bool, true, false, Option, none, some, truthy,
  arith, eq_iff, ltb, ◌||◌, ◌&&◌, not, if◌then◌else◌,
}
use sky_trax_project.Store.{Stored, nothing, entry, Operation, Status, Redis}
use sky_trax_project.Lifecycle.{accept_refresh, accepted, queued_operation}
use sky_trax_project.Watchdog.{
  Thresholds, Texts, StallType, ReconcileAction, heartbeat_age_seconds, last_activity_timestamp,
  parse_ts, later, compute_worker_alive, no_stall, stalled, soft_warning, enriched,
}
use sky_trax_project.Watchdog.Stall.{stage_of, classify_stall}
use sky_trax_project.Watchdog.Health.{
  evaluate_pipeline_health, evaluate_running, snapshot_of, with_ages, mark_slow, mark_healthy,
  mark_stalled, is_fatal, is_soft,
}
use sky_trax_project.Watchdog.Recovery.{
  reconcile_pipeline_state, reconcile_status, settle, enrich_live_status, is_stalled, lock_owner,
  persist_status, drop_watchdog_lock, action_of, Reconciled, watchdog_locked, unreachable,
}
use sky_trax_project.Watchdog.AcceptPath.{
  get_live_status_fast, live_of, with_running, needs_release, release_if_needed,
  prepare_accept_path,
}
use sky_trax_project.Watchdog.AcceptPath.Drops.{release_own, empty_store-accepts}

-- The status of a job of `op` that waits in the queue, and whose last activity is at `seen`.
pub record IsWaiting (texts : Texts) (op : String) (seen : ℕ) (d : Status) : Type 0 where
  pub running : truthy d.running ≡ true
  pub stage : d.stage ≡ some "queued"
  pub operation : d.operation_id ≡ some op
  pub last_seen : last_activity_timestamp texts d ≡ some seen

later_again :
    (texts : Texts) (a b c : Option ℕ) (l : ℕ)
    → later texts (later texts (later texts none a) b) c ≡ some l
    → later texts (later texts (later texts none (some l)) b) c ≡ some l
later_again texts none none none l h = ground arith
later_again texts none none (some z) l h = ground arith
later_again texts none (some y) none l h = ground arith
later_again texts none (some y) (some z) l h = ground arith
later_again texts (some x) none none l h = ground arith
later_again texts (some x) none (some z) l h = ground arith
later_again texts (some x) (some y) none l h = ground arith
later_again texts (some x) (some y) (some z) l h = ground arith

module _ (t : Thresholds) (texts : Texts) (stamp : String) (op : String) (seen : ℕ)
    (read_back : parse_ts texts (some (texts.to_iso seen)) ≡ some seen) where
  -- What the time that a status shows is rewritten to has the same last activity.
  pub with_ages-IsWaiting :
      (now : ℕ) (owner : String) (d : Status)
      → IsWaiting texts op seen d
      → IsWaiting texts op seen
          (with_ages t texts d (snapshot_of t texts d now owner) (last_activity_timestamp texts d))
  unfolding with_ages last_activity_timestamp
  with_ages-IsWaiting now owner d h = record {
    running = h.running;
    stage = h.stage;
    operation = h.operation;
    last_seen =
        rw (h.last_seen, read_back)
          (later_again texts (parse_ts texts d.last_heartbeat_at) (parse_ts texts d.heartbeat_at)
            (parse_ts texts d.updated_at) seen h.last_seen);
  }

  -- What the watchdog makes of the status is no stall, and still waits.
  pub record StillWaits (made : Status × ReconcileAction) : Type 0 where
    pub quiet : is_stalled made.1 ≡ false
    pub waiting : IsWaiting texts op seen made.0

  slow-StillWaits :
      (d : Status) → IsWaiting texts op seen d → StillWaits (mark_slow t texts d, soft_warning)
  unfolding mark_slow last_activity_timestamp
  slow-StillWaits d h = record {
    quiet = refl;
    waiting = record {
      running = refl;
      stage = h.stage;
      operation = h.operation;
      last_seen = h.last_seen;
    };
  }

  healthy-StillWaits :
      (d : Status) (age : ℕ)
      → IsWaiting texts op seen d
      → StillWaits (mark_healthy t texts d age, enriched)
  unfolding mark_healthy last_activity_timestamp
  healthy-StillWaits d age h = record {
    quiet = refl;
    waiting = record {
      running = h.running;
      stage = h.stage;
      operation = h.operation;
      last_seen = h.last_seen;
    };
  }

  if-StillWaits :
      (b : Bool) (x y : Status × ReconcileAction)
      → (b ≡ true → StillWaits x)
      → (b ≡ false → StillWaits y)
      → StillWaits (if b then x else y)
  if-StillWaits true x y h k = h refl
  if-StillWaits false x y h k = k refl

  pub waiting_age :
      (now : ℕ) (d : Status)
      → IsWaiting texts op seen d
      → heartbeat_age_seconds texts d now ≡ (now - seen) / 1000000
  unfolding heartbeat_age_seconds
  waiting_age now d h = rw h.last_seen refl

  no_stall_in_grace :
      (now idle : ℕ) (d : Status)
      → IsWaiting texts op seen d
      → (now - seen) / 1000000 < t.queued_grace_s
      → let age = heartbeat_age_seconds texts d now in
        classify_stall t d age idle (compute_worker_alive t age) ≡ no_stall
  unfolding classify_stall
  no_stall_in_grace now idle d h grace =
      rw (waiting_age now d h) (ground (arith, h.stage, eq_iff (stage_of d) "queued"))

  snapshot_quiet :
      (now : ℕ) (owner : String) (d : Status)
      → IsWaiting texts op seen d
      → (now - seen) / 1000000 < t.queued_grace_s
      → (snapshot_of t texts d now owner).stall_type ≡ no_stall
  unfolding snapshot_of
  snapshot_quiet now owner d h grace = no_stall_in_grace now _ d h grace

  not_fatal : (found : StallType) → found ≡ no_stall → is_fatal found ≡ true → ⊥
  not_fatal found e h = ground arith

  pub evaluate-StillWaits :
      (now : ℕ) (owner : String) (d : Status)
      → IsWaiting texts op seen d
      → (now - seen) / 1000000 < t.queued_grace_s
      → StillWaits (evaluate_pipeline_health t texts d now owner stamp)
  unfolding evaluate_pipeline_health evaluate_running
  evaluate-StillWaits now owner d h grace =
      let aged = with_ages-IsWaiting now owner d h in
      let quiet = snapshot_quiet now owner d h grace in
      let snap = snapshot_of t texts d now owner in
      let late = is_soft snap.stall_type || ltb t.stale_soft_s snap.heartbeat_age_s in
      let out = with_ages t texts d snap (last_activity_timestamp texts d) in
      let slow : Status × ReconcileAction = (mark_slow t texts out, soft_warning) in
      let healthy : Status × ReconcileAction =
        (mark_healthy t texts out snap.heartbeat_age_s, enriched) in
      if-StillWaits (truthy d.running) _ _
        (λ runs.
          if-StillWaits (is_fatal snap.stall_type) (mark_stalled t texts d out snap stamp, stalled)
            (if late then slow else healthy) (λ fatal. absurd (not_fatal _ quiet fatal))
            (λ _.
              if-StillWaits late slow healthy (λ _. slow-StillWaits out aged)
                (λ _. healthy-StillWaits out snap.heartbeat_age_s aged)))
        (λ still. absurd (ground (arith, h.running)))

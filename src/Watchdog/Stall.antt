-- ===== src/Watchdog/Stall.antt =====
-- `classify_stall`: what the age of the heartbeat and the time without progress say of a run.
use sky_trax_project.Prelude.{
  ℕ, ◌/◌, String, Bool, not, ◌&&◌, ◌||◌, ltb, leb, or_default, str_eq, if◌then◌else◌, ◌≡◌, ◌≤◌, ◌<◌,
  ◌⊎◌, ◌↔◌, true, false, arith,
}
use sky_trax_project.Store.{Status}
use sky_trax_project.Watchdog.{
  Thresholds, StallType, no_stall, soft_stall, hard_stall, starting_orphan, no_progress,
  compute_worker_alive, hard_threshold_for_stage,
}

abbrev pub stage_of : Status → String
stage_of d = or_default d.stage ""

abbrev pub pipeline_status_of : Status → String
pipeline_status_of d = or_default d.pipeline_status ""

abbrev pub is_queued : Status → Bool
is_queued d = str_eq (stage_of d) "queued" || str_eq (pipeline_status_of d) "queued"

abbrev pub hard_limit : Thresholds → Status → ℕ
hard_limit t d = hard_threshold_for_stage t (stage_of d) (pipeline_status_of d)

module _ (t : Thresholds) where
  abbrev pub is_starting : Status → Bool
  is_starting d =
      str_eq (stage_of d) "starting" && leb (or_default d.progress 0) t.starting_progress_max

  -- The branch of a worker that is not alive.
  unfoldable pub classify_offline : Status → ℕ → StallType
  classify_offline d heartbeat_age =
      if leb (hard_limit t d) heartbeat_age
      then hard_stall
      else if is_starting d && leb t.starting_orphan_threshold_s heartbeat_age
      then starting_orphan
      else if ltb t.stale_soft_s heartbeat_age
      then soft_stall
      else no_stall

  -- The branch of a worker that is alive.
  unfoldable pub classify_online : Status → ℕ → ℕ → StallType
  classify_online d heartbeat_age idle =
      if is_starting d
        && (leb t.starting_orphan_threshold_s heartbeat_age
            || leb t.starting_orphan_threshold_s idle)
      then starting_orphan
      else if leb t.no_progress_stall_s idle
      then no_progress
      else if leb (hard_limit t d) heartbeat_age
      then hard_stall
      else if ltb t.stale_soft_s heartbeat_age && ltb (t.no_progress_stall_s / 2) idle
      then soft_stall
      else no_stall

  -- `classify_stall`; `idle` is the time without progress.
  unfoldable pub classify_stall : Status → ℕ → ℕ → Bool → StallType
  unfolding classify_offline classify_online
  classify_stall d heartbeat_age idle worker_alive =
      if is_queued d
      then if leb t.queued_grace_s heartbeat_age then starting_orphan else no_stall
      else if not worker_alive
      then classify_offline d heartbeat_age
      else classify_online d heartbeat_age idle

  -- A worker that is dead for at least the limit of its stage is a hard stall, and a hard stall is
  -- reported only of a run that is not queued and whose heartbeat has reached that limit.
  pub hard_stall_iff_expired :
      (d : Status) (heartbeat_age idle : ℕ)
      → t.heartbeat_timeout_s ≤ hard_limit t d
      → (classify_stall d heartbeat_age idle (compute_worker_alive t heartbeat_age) ≡ hard_stall)
        ↔ ((is_queued d ≡ false) × (hard_limit t d ≤ heartbeat_age))
  unfolding classify_stall compute_worker_alive
  hard_stall_iff_expired d heartbeat_age idle sane = ground arith

  -- A live worker is reported only for want of progress: where the heartbeat timeout is at most
  -- the other limits, no hard and no soft stall is reported of it, and none at all while it has
  -- made progress within the limits of a start and of a run.
  pub live_worker_needs_progress :
      (d : Status) (heartbeat_age idle : ℕ)
      → t.heartbeat_timeout_s ≤ hard_limit t d
      → t.heartbeat_timeout_s ≤ t.stale_soft_s
      → t.heartbeat_timeout_s ≤ t.queued_grace_s
      → t.heartbeat_timeout_s ≤ t.starting_orphan_threshold_s
      → heartbeat_age < t.heartbeat_timeout_s
      → (classify_stall d heartbeat_age idle (compute_worker_alive t heartbeat_age) ≡ no_stall)
        ⊎ ((classify_stall d heartbeat_age idle (compute_worker_alive t heartbeat_age)
              ≡ starting_orphan)
            × (is_starting d ≡ true)
            × (t.starting_orphan_threshold_s ≤ idle))
        ⊎ ((classify_stall d heartbeat_age idle (compute_worker_alive t heartbeat_age)
              ≡ no_progress)
            × (t.no_progress_stall_s ≤ idle))
  unfolding classify_stall compute_worker_alive
  live_worker_needs_progress d heartbeat_age idle a b c e fresh = ground arith

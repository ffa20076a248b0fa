-- ===== src/Watchdog.antt =====
-- worker/orchestration/pipeline_watchdog.py: thresholds, enumerations and the ages that the
-- watchdog computes from a status object. Instants are counted in microseconds, the resolution of
-- `datetime`; thresholds and ages are whole seconds.
pub mod Stall
pub mod Health
pub mod Recovery
pub mod AcceptPath
use sky_trax_project.Prelude.{
  ℕ, ◌-◌, ◌/◌, String, Bool, Option, none, some, List, [], ◌∷◌, ltb, or_default, or_text, filled,
  one_of, str_eq, ◌||◌, if◌then◌else◌,
}
use sky_trax_project.Store.{Status}

-- The thresholds that the environment may override, in seconds but for the last one.
pub record Thresholds : Type 0 where
  pub heartbeat_timeout_s : ℕ
  pub heartbeat_fresh_s : ℕ
  pub stale_soft_s : ℕ
  pub stall_threshold_s : ℕ
  pub starting_orphan_threshold_s : ℕ
  pub queued_grace_s : ℕ
  pub no_progress_stall_s : ℕ
  pub fusion_stale_s : ℕ
  pub aviation_master_stale_s : ℕ
  pub final_stage_hard_s : ℕ
  pub starting_progress_max : ℕ

abbrev pub default_thresholds : Thresholds
default_thresholds = record {
  heartbeat_timeout_s = 60;
  heartbeat_fresh_s = 45;
  stale_soft_s = 90;
  stall_threshold_s = 180;
  starting_orphan_threshold_s = 90;
  queued_grace_s = 1800;
  no_progress_stall_s = 240;
  fusion_stale_s = 360;
  aviation_master_stale_s = 240;
  final_stage_hard_s = 420;
  starting_progress_max = 5;
}

pub data StallType : Type 0 where
  no_stall soft_stall hard_stall starting_orphan no_progress : StallType

-- `StallType.value`
abbrev pub stall_name : StallType → String
stall_name no_stall = "none"
stall_name soft_stall = "soft_stall"
stall_name hard_stall = "hard_stall"
stall_name starting_orphan = "starting_orphan"
stall_name no_progress = "no_progress"

pub data ReconcileAction : Type 0 where
  no_action enriched soft_warning stalled skipped : ReconcileAction

-- Python's decimal text, `datetime.fromisoformat` after the replacement of "Z" (`none` where it
-- raises), and `isoformat`.
pub record Texts : Type 0 where
  pub decimal : ℕ → String
  pub from_iso : String → Option ℕ
  pub to_iso : ℕ → String

abbrev parse_filled : (String → Option ℕ) → Option String → Option ℕ
parse_filled parse none = none
parse_filled parse (some s) = parse s

module _ (texts : Texts) where
  -- `_parse_ts`
  unfoldable pub parse_ts : Option String → Option ℕ
  parse_ts raw = parse_filled texts.from_iso (filled raw)

  abbrev pub later : Option ℕ → Option ℕ → Option ℕ
  later best none = best
  later none (some t) = some t
  later (some b) (some t) = some (if ltb b t then t else b)

  -- `last_activity_timestamp`
  unfoldable pub last_activity_timestamp : Status → Option ℕ
  unfolding parse_ts
  last_activity_timestamp d =
      later (later (later none (parse_ts d.last_heartbeat_at)) (parse_ts d.heartbeat_at))
        (parse_ts d.updated_at)

  abbrev pub age : Option ℕ → ℕ → ℕ
  age none now = 0
  age (some t) now = (now - t) / 1000000

  -- `heartbeat_age_seconds`
  unfoldable pub heartbeat_age_seconds : Status → ℕ → ℕ
  unfolding last_activity_timestamp
  heartbeat_age_seconds d now = age (last_activity_timestamp d) now

  -- `no_progress_seconds`
  unfoldable pub no_progress_seconds : Status → ℕ → ℕ
  unfolding parse_ts
  no_progress_seconds d now =
      let progress = or_default d.progress 0 in
      if ltb (or_default d.last_progress progress) progress
      then 0
      else age (parse_ts (or_text d.last_progress_at (or_text d.updated_at d.started_at))) now

-- `compute_worker_alive`, at the age that its caller gives it.
unfoldable pub compute_worker_alive : Thresholds → ℕ → Bool
compute_worker_alive t heartbeat_age = ltb heartbeat_age t.heartbeat_timeout_s

-- `_hard_threshold_for_stage`
unfoldable pub hard_threshold_for_stage : Thresholds → String → String → ℕ
hard_threshold_for_stage t stage pipeline_status =
    if str_eq stage "fusion"
    then t.fusion_stale_s
    else if str_eq stage "aviation_master"
    then t.aviation_master_stale_s
    else if one_of stage ("fusion" ∷ "snapshots" ∷ [])
        || one_of pipeline_status ("finalizing" ∷ "persisting" ∷ [])
    then t.final_stage_hard_s
    else t.stall_threshold_s

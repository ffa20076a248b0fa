-- ===== src/Store.antt =====
-- The Redis keys that the refresh pipeline shares: the operation (`skytrax:ops:refresh:operation`),
-- the live status (`…:status`) and the locks. A client that cannot reach Redis meets an exception
-- at each call; `up` says which, for the length of one call of the program.
use sky_trax_project.Prelude.{ℕ, String, Bool, Option, none, List, ◌||◌, is_some}

-- The value of a key: no value, a text that is not the JSON of an object, or an object.
pub data Stored {ℓ} (A : Type ℓ) : Type ℓ where
  nothing broken : Stored A
  entry : A → Stored A

-- The entry `stall_diagnosis`, as `build_stall_diagnosis` fills it.
pub record Diagnosis : Type 0 where
  pub failure_reason : String
  pub failure_type : String
  pub heartbeat_age : ℕ
  pub last_stage : String
  pub last_progress : ℕ
  pub stalled_detected_at : String
  pub worker_last_seen : Option String
  pub no_progress_seconds : ℕ
  pub worker_alive : Bool
  pub lock_owner : Option String
  pub recovered : Bool
  pub stall_type : String

pub data StallNote : Type 0 where
  recovered_note : StallNote
  diagnosed : Diagnosis → StallNote

-- The operation object. Every key that the program writes is a field.
pub record Operation : Type 0 where
  pub operation_id : Option String
  pub lifecycle_state : Option String
  pub state : Option String
  pub pipeline_type : Option String
  pub triggered_by : Option String
  pub queued_at : Option String
  pub updated_at : Option String
  pub dispatch_error : Option String
  pub queued : Option Bool
  pub stall_diagnosis : Option StallNote

abbrev pub no_operation : Operation
no_operation = record {
  operation_id = none;
  lifecycle_state = none;
  state = none;
  pipeline_type = none;
  triggered_by = none;
  queued_at = none;
  updated_at = none;
  dispatch_error = none;
  queued = none;
  stall_diagnosis = none;
}

-- The truth value of the object: false only for `{}`.
unfoldable pub has_keys : Operation → Bool
has_keys o =
    is_some o.operation_id
    || is_some o.lifecycle_state
    || is_some o.state
    || is_some o.pipeline_type
    || is_some o.triggered_by
    || is_some o.queued_at
    || is_some o.updated_at
    || is_some o.dispatch_error
    || is_some o.queued
    || is_some o.stall_diagnosis

pub record Event : Type 0 where
  pub time : String
  pub message : String
  pub event_operation : Option String

-- The status object, by the keys that the watchdog and the accept path read or write; the others
-- pass through unchanged. `heartbeat_at` is `heartbeat.last_heartbeat_at`.
pub record Status : Type 0 where
  pub operation_id : Option String
  pub running : Option Bool
  pub stage : Option String
  pub progress : Option ℕ
  pub pipeline_status : Option String
  pub updated_at : Option String
  pub started_at : Option String
  pub last_heartbeat_at : Option String
  pub heartbeat_at : Option String
  pub last_progress : Option ℕ
  pub last_progress_at : Option String
  pub worker_alive : Option Bool
  pub heartbeat_age_s : Option ℕ
  pub stale_seconds : Option ℕ
  pub no_progress_seconds : Option ℕ
  pub stale : Option Bool
  pub stale_warning : Option Bool
  pub soft_stall : Option Bool
  pub busy_without_heartbeat : Option Bool
  pub stall_diagnosis : Option Diagnosis
  pub events : List Event
  pub triggered_by : Option String

pub record Redis : Type 0 where
  pub up : Bool
  pub operation : Stored Operation
  pub status : Stored Status
  pub refresh_lock : Option String
  pub watchdog_lock : Bool
  pub dispatch_lock : Bool

-- ===== src/Runtime.antt =====
-- app/runtime_state.py: the runtime state that the processes share through Redis, with a copy in the
-- memory of the process for the time that Redis cannot be reached.
pub mod Crashes
pub mod History
pub mod Blocks
use sky_trax_project.Prelude.{
  ℕ, ◌+◌, ◌-◌, String, Bool, true, false, ◌||◌, Option, none, some, List, [], ◌∷◌, ◌++◌, ltb, leb,
  length, take, take_text, str_eq, ◌==◌, ◌&&◌, or_default, if◌then◌else◌,
}

pub record Degraded : Type 0 where
  pub stage : String
  pub operation_id : String
  pub error : String
  pub soft : Bool
  pub time : String

-- The JSON object under RUNTIME_KEY, with the default of each key where it is missing. The startup
-- report is left out.
pub record State : Type 0 where
  pub crash_timestamps : List ℕ
  pub subprocess_cooldown_until : ℕ
  pub forecast_safe_mode_active : Bool
  pub forecast_safe_mode_reason : Option String
  pub native_crash_count : ℕ
  pub last_native_crash_at : Option String
  pub schema_drift : Bool
  pub missing_tables : List String
  pub semantic_blocked_stages : List String
  pub blocked_stages : List String
  pub degraded_history : List Degraded
  pub last_degraded_stage : Option String
  pub last_degraded_error : Option String
  pub updated_at : Option String

abbrev pub empty_state : State
empty_state = record {
  crash_timestamps = [];
  subprocess_cooldown_until = 0;
  forecast_safe_mode_active = false;
  forecast_safe_mode_reason = none;
  native_crash_count = 0;
  last_native_crash_at = none;
  schema_drift = false;
  missing_tables = [];
  semantic_blocked_stages = [];
  blocked_stages = [];
  degraded_history = [];
  last_degraded_stage = none;
  last_degraded_error = none;
  updated_at = none;
}

-- A row of the Redis list of degraded stages; another writer may have left one that is no JSON.
pub data Row : Type 0 where
  parsed : Degraded → Row
  unparsable : String → Row

-- Redis, the memory of this process (`_memory_state`) and its FORECAST_SAFE_MODE.
pub record Runtime : Type 0 where
  pub up : Bool
  pub stored : Option State
  pub degraded_rows : List Row
  pub memory : State
  pub env_safe_mode : Bool

-- `_load`
unfoldable pub load : Runtime → State
load r = if r.up then or_default r.stored r.memory else r.memory

-- `_save`
unfoldable pub save : State → Runtime → Runtime
save s r = record r { memory = s; stored = if r.up then some s else r.stored }

-- `merge_state`, for the updates as a function on the state.
unfoldable pub merge_state : (State → State) → String → Runtime → Runtime
unfolding load save
merge_state updates stamp r = save (record (updates (load r)) { updated_at = some stamp }) r

-- A crash of the last five minutes, by the clock in milliseconds.
unfoldable pub crash_window : ℕ → List ℕ → List ℕ
crash_window now [] = []
crash_window now (t ∷ ts) =
    let rest = crash_window now ts in if ltb (now - t) 300000 then t ∷ rest else rest

-- `record_subprocess_crash`
unfoldable pub record_subprocess_crash : ℕ → String → Runtime → Runtime
unfolding load merge_state crash_window
record_subprocess_crash now stamp r =
    let window = crash_window now (load r).crash_timestamps ++ now ∷ [] in
    let until =
      if leb 3 (length window) then now + 600000 else (load r).subprocess_cooldown_until in
    merge_state (λ s. record s { crash_timestamps = window; subprocess_cooldown_until = until })
      stamp r

-- `is_subprocess_cooldown_active`
unfoldable pub is_subprocess_cooldown_active : ℕ → Runtime → Bool
unfolding load
is_subprocess_cooldown_active now r = ltb now (load r).subprocess_cooldown_until

-- `activate_forecast_safe_mode`
unfoldable pub activate_forecast_safe_mode : String → String → Runtime → Runtime
unfolding load merge_state
activate_forecast_safe_mode reason stamp r =
    merge_state
      (λ s. record s {
        forecast_safe_mode_active = true;
        forecast_safe_mode_reason = some reason;
        native_crash_count = s.native_crash_count + 1;
        last_native_crash_at = some stamp;
      })
      stamp (record r { env_safe_mode = true })

-- `is_forecast_safe_mode`
unfoldable pub is_forecast_safe_mode : Runtime → Bool
unfolding load
is_forecast_safe_mode r = r.env_safe_mode || (load r).forecast_safe_mode_active

-- ===== src/Forecast.antt =====
-- worker/forecasting_isolation.py: forecasting in a child process, with fallbacks. The forecasting
-- services and the child process are not modelled: each attempt to run a service in the process
-- has an outcome that is given from outside, by its number.
pub mod Depth
pub mod Crashes
use Prim.Native.String.{◌++◌}
use sky_trax_project.Prelude.{
  ℕ, zero, suc, ◌+◌, ◌-◌, ◌==◌, String, Bool, true, false, not, ◌&&◌, ◌||◌, Option, none, some,
  List, [], ◌∷◌, ltb, take_text, or_default, is_some, filled, if◌then◌else◌,
}
use sky_trax_project.Governor.Loop.{ReturnCode, unknown, code, signalled}

-- The dictionary that forecasting returns, by the keys that this module sets.
pub record Forecast : Type 0 where
  pub persisted : ℕ
  pub isolation : Option String
  pub safe_mode : Option Bool
  pub fallback_reason : Option String
  pub native_crash : Option Bool
  pub child_error : Option String
  pub error : Option String
  pub mode : Option String

abbrev pub plain : ℕ → Forecast
plain n = record {
  persisted = n;
  isolation = none;
  safe_mode = none;
  fallback_reason = none;
  native_crash = none;
  child_error = none;
  error = none;
  mode = none;
}

-- One run of `generate_and_persist`: the number of forecasts, or the text of its exception.
pub data Attempt : Type 0 where
  persists : ℕ → Attempt
  raises : String → Attempt

-- The outcome of the attempt of each number, in safe mode or not, and the text of the RecursionError
-- that Python raises when the calls nest too deep.
pub record Services : Type 0 where
  pub attempt : ℕ → Bool → Attempt
  pub stack_error : String

-- What a run in the process returns, with the number of the next attempt. `none`: a RecursionError
-- leaves it, as the calls nest deeper than the given depth, which stands for Python's stack.
abbrev pub Run : Type 0
Run = Option (Forecast × ℕ)

abbrev cut_error : Option String → Option String
cut_error none = none
cut_error (some e) = some (take_text 200 e)

-- What `_fallback_safe` adds to the result of its safe run.
unfoldable pub decorate : String → Bool → Option String → Forecast → Forecast
decorate reason crash child_error r = record r {
  fallback_reason = some reason;
  native_crash = some crash;
  child_error = if is_some (filled child_error) then cut_error child_error else r.child_error;
  error = if crash then some ("native_crash:" ++ reason) else r.error;
}

-- What the `except` of `_fallback_safe` returns.
abbrev pub failed_forecast : String → String → Bool → Forecast
failed_forecast error reason crash = record (plain 0) {
  error = some error;
  fallback_reason = some reason;
  native_crash = some crash;
  mode = some "failed";
}

-- The `try` of `_fallback_safe` around the given run, which starts with attempt `n`.
unfoldable pub rescue : Services → String → Bool → Option String → ℕ → Run → Run
unfolding decorate
rescue services reason crash child_error n none =
    some (failed_forecast services.stack_error reason crash, n)
rescue services reason crash child_error n (some (r, m)) =
    some (decorate reason crash child_error r, m)

-- The outcome of attempt `n`: `again` is the run of the safe service that a fallback makes.
unfoldable pub settle_attempt : Services → Bool → ℕ → Run → Attempt → Run
unfolding rescue
settle_attempt services safe n again (persists k) =
    some (record (plain k) { isolation = some "inprocess"; safe_mode = some safe }, n + 1)
settle_attempt services safe n again (raises e) = rescue services e false none (n + 1) again

-- `_run_forecasting_inprocess`: an exception of the service calls `_fallback_safe`, which runs the
-- safe service in the process again.
unfoldable pub run_inprocess : ℕ → Services → Bool → ℕ → Run
unfolding settle_attempt
run_inprocess zero services safe n = none
run_inprocess (suc depth) services safe n =
    let again = run_inprocess depth services true (n + 1) in
    settle_attempt services safe n again (services.attempt n safe)

-- `_fallback_safe`. The run in the process catches all that its service raises, so that only a
-- RecursionError reaches the `except`.
unfoldable pub fallback_safe : ℕ → Services → String → Bool → Option String → ℕ → Run
fallback_safe depth services reason crash child_error n =
    rescue services reason crash child_error n (run_inprocess depth services true n)

-- `_exit_signal`: 0 stands for `None`.
unfoldable pub exit_signal : ReturnCode → ℕ
exit_signal unknown = 0
exit_signal (signalled s) = s
exit_signal (code c) = if ltb 128 c then c - 128 else 0

-- What the child leaves in the queue.
pub data Payload : Type 0 where
  nothing_queued : Payload
  child_ok : ℕ → Payload
  child_raises : String → String → Payload

pub record Child : Type 0 where
  pub alive_after_timeout : Bool
  pub exitcode : ReturnCode
  pub payload : Payload

-- The calls of app/runtime_state.py that outlive the run.
pub data Effect : Type 0 where
  crash_recorded : Effect
  safe_mode_activated : Effect

abbrev is_clean : ReturnCode → Bool
is_clean (code c) = c == 0
is_clean _ = false

abbrev is_unknown : ReturnCode → Bool
is_unknown unknown = true
is_unknown _ = false

module _ (decimal : ℕ → String) (depth : ℕ) (services : Services) where
  abbrev exit_text : ReturnCode → String
  exit_text unknown = "exit_None"
  exit_text (code c) = "exit_" ++ decimal c
  exit_text (signalled s) = "exit_-" ++ decimal s

  -- The child has ended with code 0: its payload decides.
  unfoldable pub take_payload : Bool → Payload → Run
  unfolding fallback_safe
  take_payload safe nothing_queued = fallback_safe depth services "empty_result" false none 0
  take_payload safe (child_ok k) =
      some (record (plain k) { isolation = some "subprocess"; safe_mode = some safe }, 0)
  take_payload safe (child_raises error_type error) =
      fallback_safe depth services error_type false (some error) 0

  -- The part of `run_forecasting_isolated` behind `proc.join`.
  unfoldable pub judge_child : Bool → Child → Run × List Effect
  unfolding fallback_safe take_payload exit_signal
  judge_child safe c =
      let signal = exit_signal c.exitcode in
      if c.alive_after_timeout
      then (fallback_safe depth services "subprocess_timeout" false none 0, [])
      else if signal == 11
      then (
        fallback_safe depth services "segfault_signal_11" true none 0,
        crash_recorded ∷ safe_mode_activated ∷ [],
      )
      else if not (is_clean c.exitcode || is_unknown c.exitcode) && ltb 0 signal
      then (
        fallback_safe depth services ("signal_" ++ decimal signal) true none 0,
        crash_recorded ∷ [],
      )
      else if not (is_clean c.exitcode)
      then (fallback_safe depth services (exit_text c.exitcode) false none 0, [])
      else (take_payload safe c.payload, [])

  -- `run_forecasting_isolated`: `safe_arg` is its argument, `safe_flag` the persisted flag, and
  -- `isolated` the environment's FORECAST_ISOLATED.
  unfoldable pub run_forecasting_isolated :
      Bool → Option Bool → Bool → Bool → Child → Run × List Effect
  unfolding judge_child
  run_forecasting_isolated cooldown safe_arg safe_flag isolated c =
      let safe = or_default safe_arg safe_flag in
      if cooldown
      then (run_inprocess depth services true 0, [])
      else if not isolated
      then (run_inprocess depth services safe 0, [])
      else judge_child safe c

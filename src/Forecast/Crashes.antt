-- ===== src/Forecast/Crashes.antt =====
-- What a run of the forecasting tells of the death of its child process.
use sky_trax_project.Prelude.{
  ℕ, zero, suc, ◌+◌, ◌≡◌, refl, String, Bool, true, false, not, ◌&&◌, Option, none, some, List, [],
  ◌∷◌, ltb, or_default, arith, if◌then◌else◌,
}
use sky_trax_project.Governor.Loop.{ReturnCode, unknown, code, signalled}
use sky_trax_project.Forecast.{
  Attempt, persists, raises, Services, Run, rescue, settle_attempt, run_inprocess, fallback_safe,
  take_payload, judge_child, run_forecasting_isolated, exit_signal, Payload, nothing_queued,
  child_ok, child_raises, Child, Effect, crash_recorded,
}

-- A signal ended the child, or a shell that reports one as 128 and its number.
abbrev pub was_killed : ReturnCode → Bool
was_killed unknown = false
was_killed (signalled s) = ltb 0 s
was_killed (code c) = ltb 128 c

abbrev pub records_crash : List Effect → Bool
records_crash (crash_recorded ∷ _) = true
records_crash _ = false

-- The result, if there is one, has the given flag of a native crash; a missing flag is false.
abbrev pub IsFlagged : Bool → Run → Type 0
IsFlagged b none = Unit
IsFlagged b (some (r, n)) = or_default r.native_crash false ≡ b

rescue-IsFlagged :
    (services : Services) (reason : String) (crash : Bool) (child_error : Option String) (n : ℕ)
    (r : Run)
    → IsFlagged crash (rescue services reason crash child_error n r)
unfolding rescue
rescue-IsFlagged services reason crash child_error n none = refl
rescue-IsFlagged services reason crash child_error n (some (r, m)) = refl

fallback-IsFlagged :
    (depth : ℕ) (services : Services) (reason : String) (crash : Bool) (child_error : Option String)
    (n : ℕ)
    → IsFlagged crash (fallback_safe depth services reason crash child_error n)
unfolding fallback_safe
fallback-IsFlagged depth services reason crash child_error n =
    rescue-IsFlagged services reason crash child_error n _

settle-IsFlagged :
    (services : Services) (safe : Bool) (n : ℕ) (again : Run) (a : Attempt)
    → IsFlagged false (settle_attempt services safe n again a)
unfolding settle_attempt
settle-IsFlagged services safe n again (persists k) = refl
settle-IsFlagged services safe n again (raises e) =
    rescue-IsFlagged services e false none (n + 1) again

inprocess-IsFlagged :
    (depth : ℕ) (services : Services) (safe : Bool) (n : ℕ)
    → IsFlagged false (run_inprocess depth services safe n)
unfolding run_inprocess
inprocess-IsFlagged zero services safe n = tt
inprocess-IsFlagged (suc depth) services safe n = settle-IsFlagged services safe n _ _

payload-IsFlagged :
    (decimal : ℕ → String) (depth : ℕ) (services : Services) (safe : Bool) (p : Payload)
    → IsFlagged false (take_payload decimal depth services safe p)
unfolding take_payload
payload-IsFlagged decimal depth services safe nothing_queued =
    fallback-IsFlagged depth services _ false none 0
payload-IsFlagged decimal depth services safe (child_ok k) = refl
payload-IsFlagged decimal depth services safe (child_raises t e) =
    fallback-IsFlagged depth services t false (some e) 0

-- The exit signal is positive exactly where the child was killed.
exit_signal-was_killed : (r : ReturnCode) → ltb 0 (exit_signal r) ≡ was_killed r
unfolding exit_signal
exit_signal-was_killed unknown = refl
exit_signal-was_killed (signalled s) = refl
exit_signal-was_killed (code c) = ground arith

-- The flag of the result is set exactly where a crash is among the effects.
record Told (answer : Run × List Effect) : Type 0 where
  flag : IsFlagged (records_crash answer.1) answer.0

if_Told : (b : Bool) (x y : Run × List Effect) → Told x → Told y → Told (if b then x else y)
if_Told true x y h k = h
if_Told false x y h k = k

module _ (decimal : ℕ → String) (depth : ℕ) (services : Services) where
  judged-records :
      (safe alive : Bool) (r : ReturnCode) (p : Payload)
      → records_crash
          (judge_child decimal depth services safe
            (record { alive_after_timeout = alive; exitcode = r; payload = p })).1
        ≡ (not alive && was_killed r)
  unfolding judge_child exit_signal
  judged-records safe true r p = refl
  judged-records safe false unknown p = refl
  judged-records safe false (signalled s) p = ground arith
  judged-records safe false (code c) p = ground arith

  -- A run records a crash of the child exactly where it starts a child, outside the cooldown and
  -- with isolation on, and this child ends before the timeout, killed by a signal.
  crash_recorded_iff_killed :
      (cooldown : Bool) (safe_arg : Option Bool) (safe_flag isolated : Bool) (c : Child)
      → records_crash
          (run_forecasting_isolated decimal depth services cooldown safe_arg safe_flag isolated c).1
        ≡ (not cooldown && isolated && not c.alive_after_timeout && was_killed c.exitcode)
  unfolding run_forecasting_isolated
  crash_recorded_iff_killed true safe_arg safe_flag isolated c = refl
  crash_recorded_iff_killed false safe_arg safe_flag false c = refl
  crash_recorded_iff_killed false safe_arg safe_flag true c =
      judged-records (or_default safe_arg safe_flag) c.alive_after_timeout c.exitcode c.payload

  quiet-Told : (reason : String) → Told (fallback_safe depth services reason false none 0, [])
  quiet-Told reason = record { flag = fallback-IsFlagged depth services reason false none 0 }

  crash-Told :
      (reason : String) (effects : List Effect)
      → Told (fallback_safe depth services reason true none 0, crash_recorded ∷ effects)
  crash-Told reason effects = record { flag = fallback-IsFlagged depth services reason true none 0 }

  payload-Told : (safe : Bool) (p : Payload) → Told (take_payload decimal depth services safe p, [])
  payload-Told safe p = record { flag = payload-IsFlagged decimal depth services safe p }

  judged-Told : (safe : Bool) (c : Child) → Told (judge_child decimal depth services safe c)
  unfolding judge_child
  judged-Told safe c = search (if_Told, quiet-Told, crash-Told, payload-Told)

  -- Whatever the run returns, its flag of a native crash is set exactly where a crash of the child
  -- was recorded: no failure of a service, and no fallback after it, sets or clears the flag.
  pub crash_flag_tells_record :
      (cooldown : Bool) (safe_arg : Option Bool) (safe_flag isolated : Bool) (c : Child)
      → IsFlagged
          (records_crash
            (run_forecasting_isolated decimal depth services cooldown safe_arg safe_flag isolated
              c).1)
          (run_forecasting_isolated decimal depth services cooldown safe_arg safe_flag isolated c).0
  unfolding run_forecasting_isolated
  crash_flag_tells_record true safe_arg safe_flag isolated c =
      inprocess-IsFlagged depth services true 0
  crash_flag_tells_record false safe_arg safe_flag false c =
      inprocess-IsFlagged depth services (or_default safe_arg safe_flag) 0
  crash_flag_tells_record false safe_arg safe_flag true c =
      (judged-Told (or_default safe_arg safe_flag) c).flag

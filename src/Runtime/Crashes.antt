-- ===== src/Runtime/Crashes.antt =====
-- The runtime state through outages of Redis, and the cooldown after repeated crashes of the
-- forecasting's child process.
use sky_trax_project.Prelude.{
  ℕ, ◌+◌, ◌-◌, ◌≤◌, ◌<◌, ◌≡◌, refl, String, Bool, true, false, none, some, List, [], ◌∷◌, ◌++◌, ltb,
  leb, arith, length, length-append, Bool-cases, inl, inr,
}
use sky_trax_project.Runtime.{
  State, Runtime, load, save, merge_state, crash_window, record_subprocess_crash,
  is_subprocess_cooldown_active, activate_forecast_safe_mode, is_forecast_safe_mode,
}
use sky_trax_project.Forecast.{
  Services, Run, Child, Effect, crash_recorded, safe_mode_activated, run_inprocess,
  run_forecasting_isolated, judge_child, exit_signal,
}

load-save : (s : State) (r : Runtime) → load (save s r) ≡ s
unfolding load save
load-save s r = ground arith

pub load-merge :
    (f : State → State) (stamp : String) (r : Runtime)
    → load (merge_state f stamp r) ≡ record (f (load r)) { updated_at = some stamp }
unfolding merge_state
load-merge f stamp r = load-save _ r

-- A process reads back what it saved, whether Redis can be reached or not, and also if Redis is lost
-- afterwards; but what it saved during an outage is gone once a Redis with an older state is back.
pub outage_reads_own_writes_until_recovery :
    (s old : State) (r : Runtime)
    → r.stored ≡ some old
    → (load (save s r) ≡ s)
      × (load (record (save s r) { up = false }) ≡ s)
      × (load (record (save s (record r { up = false })) { up = true }) ≡ old)
unfolding load save
outage_reads_own_writes_until_recovery s old r stored = (load-save s r, refl, rw stored refl)

crash_window-snoc :
    (now t : ℕ) (ts : List ℕ)
    → now - t < 300000
    → crash_window now (ts ++ t ∷ []) ≡ crash_window now ts ++ t ∷ []
unfolding crash_window
crash_window-snoc now t [] recent = ground arith
crash_window-snoc now t (u ∷ ts) recent = elim (Bool-cases (ltb (now - u) 300000)) [
  | inl young ↦ rw (young, crash_window-snoc now t ts recent) refl
  | inr past ↦ rw (past, crash_window-snoc now t ts recent) refl
]

-- The crash times after one more crash.
abbrev pub crashes_after : ℕ → List ℕ → List ℕ
crashes_after now ts = crash_window now ts ++ now ∷ []

record-timestamps :
    (now : ℕ) (stamp : String) (r : Runtime)
    → (load (record_subprocess_crash now stamp r)).crash_timestamps
      ≡ crashes_after now (load r).crash_timestamps
unfolding record_subprocess_crash
record-timestamps now stamp r = rw (load-merge _ stamp r) refl

record-cooldown :
    (now : ℕ) (stamp : String) (r : Runtime)
    → 3 ≤ length (crashes_after now (load r).crash_timestamps)
    → (load (record_subprocess_crash now stamp r)).subprocess_cooldown_until ≡ now + 600000
unfolding record_subprocess_crash
record-cooldown now stamp r many =
    let enough : leb 3 (length (crashes_after now (load r).crash_timestamps)) ≡ true =
      ground arith in
    rw (load-merge _ stamp r, enough) refl

three_crashes-length :
    (t₁ t₂ t₃ : ℕ) (ts : List ℕ)
    → t₂ - t₁ < 300000
    → t₃ - t₁ < 300000
    → t₃ - t₂ < 300000
    → 3 ≤ length (crashes_after t₃ (crashes_after t₂ (crashes_after t₁ ts)))
three_crashes-length t₁ t₂ t₃ ts near₂ near₃ near =
    let first = crash_window t₁ ts in
    let second = crash_window t₂ first in
    let third = crash_window t₃ second in
    rw
      (
        crash_window-snoc t₃ t₂ (crash_window t₂ (first ++ t₁ ∷ [])) near,
        crash_window-snoc t₂ t₁ first near₂,
        crash_window-snoc t₃ t₁ second near₃,
      )
      (omega (
        arith,
        length-append ((third ++ t₁ ∷ []) ++ t₂ ∷ []) (t₃ ∷ []),
        length-append (third ++ t₁ ∷ []) (t₂ ∷ []),
        length-append third (t₁ ∷ []),
      ))

three_crashes_cool_down :
    (t₁ t₂ t₃ t : ℕ) (stamp : String) (r : Runtime)
    → t₂ - t₁ < 300000
    → t₃ - t₁ < 300000
    → t₃ - t₂ < 300000
    → t < t₃ + 600000
    → is_subprocess_cooldown_active t (
        record_subprocess_crash t₃ stamp
          (record_subprocess_crash t₂ stamp (record_subprocess_crash t₁ stamp r)))
      ≡ true
unfolding is_subprocess_cooldown_active
three_crashes_cool_down t₁ t₂ t₃ t stamp r near₂ near₃ near soon =
    let one = record_subprocess_crash t₁ stamp r in
    let two = record_subprocess_crash t₂ stamp one in
    let times : (load two).crash_timestamps
        ≡ crashes_after t₂ (crashes_after t₁ (load r).crash_timestamps) =
      rw (record-timestamps t₂ stamp one, record-timestamps t₁ stamp r) refl in
    let many : 3 ≤ length (crashes_after t₃ (load two).crash_timestamps) =
      rw times (three_crashes-length t₁ t₂ t₃ (load r).crash_timestamps near₂ near₃ near) in
    rw (record-cooldown t₃ stamp two many) (ground arith)

-- What a run of the forecasting leaves in the runtime state.
unfoldable pub apply_effects : ℕ → String → List Effect → Runtime → Runtime
apply_effects now stamp [] r = r
apply_effects now stamp (crash_recorded ∷ es) r =
    apply_effects now stamp es (record_subprocess_crash now stamp r)
apply_effects now stamp (safe_mode_activated ∷ es) r =
    apply_effects now stamp es (activate_forecast_safe_mode "segfault_signal_11" stamp r)

record-count :
    (now : ℕ) (stamp : String) (r : Runtime)
    → (load (record_subprocess_crash now stamp r)).native_crash_count ≡ (load r).native_crash_count
unfolding record_subprocess_crash
record-count now stamp r = rw (load-merge _ stamp r) refl

load-env : (b : Bool) (r : Runtime) → load (record r { env_safe_mode = b }) ≡ load r
unfolding load
load-env b r = refl

activate_lem :
    (reason stamp : String) (r : Runtime)
    → ((load (activate_forecast_safe_mode reason stamp r)).native_crash_count
        ≡ (load r).native_crash_count + 1)
      × ((load (activate_forecast_safe_mode reason stamp r)).crash_timestamps
          ≡ (load r).crash_timestamps)
unfolding activate_forecast_safe_mode
activate_lem reason stamp r =
    let marked = record r { env_safe_mode = true } in
    rw (load-merge _ stamp marked, load-env true r) (refl, refl)

is_safe_after :
    (reason stamp : String) (r : Runtime)
    → is_forecast_safe_mode (activate_forecast_safe_mode reason stamp r) ≡ true
unfolding activate_forecast_safe_mode is_forecast_safe_mode merge_state save
is_safe_after reason stamp r = refl

fault_recorded :
    (after : ℕ) (stamp : String) (r : Runtime)
    → let r' =
        activate_forecast_safe_mode "segfault_signal_11" stamp
          (record_subprocess_crash after stamp r) in
      (is_forecast_safe_mode r' ≡ true)
      × ((load r').native_crash_count ≡ (load r).native_crash_count + 1)
      × ((load r').crash_timestamps ≡ crashes_after after (load r).crash_timestamps)
fault_recorded after stamp r =
    let crashed = record_subprocess_crash after stamp r in
    let (counted, kept) = activate_lem "segfault_signal_11" stamp crashed in
    (
      is_safe_after "segfault_signal_11" stamp crashed,
      rw (counted, record-count after stamp r) refl,
      rw (kept, record-timestamps after stamp r) refl,
    )

module _ (decimal : ℕ → String) (depth : ℕ) (services : Services) where
  -- `run_forecasting_stage` on the runtime state: the child ends at `after`.
  unfoldable pub run_forecasting_stage : ℕ → ℕ → String → Bool → Child → Runtime → Run × Runtime
  unfolding apply_effects
  run_forecasting_stage now after stamp isolated c r =
      let (answer, effects) =
        run_forecasting_isolated decimal depth services (is_subprocess_cooldown_active now r) none
          (is_forecast_safe_mode r) isolated c in
      (answer, apply_effects after stamp effects r)

  -- After three crashes of the child within five minutes of each other, whatever was recorded before
  -- them and whether or not Redis can be reached, the forecasting starts no child for ten minutes:
  -- a run in this time is the safe run in the process, and it changes no runtime state.
  pub crash_loop_starts_no_child :
      (t₁ t₂ t₃ now after : ℕ) (stamp : String) (isolated : Bool) (c : Child) (r : Runtime)
      → t₂ - t₁ < 300000
      → t₃ - t₁ < 300000
      → t₃ - t₂ < 300000
      → now < t₃ + 600000
      → run_forecasting_stage now after stamp isolated c (
          record_subprocess_crash t₃ stamp
            (record_subprocess_crash t₂ stamp (record_subprocess_crash t₁ stamp r)))
        ≡ (
          run_inprocess depth services true 0,
          record_subprocess_crash t₃ stamp
              (record_subprocess_crash t₂ stamp (record_subprocess_crash t₁ stamp r)),
        )
  unfolding run_forecasting_stage run_forecasting_isolated
  crash_loop_starts_no_child t₁ t₂ t₃ now after stamp isolated c r near₂ near₃ near soon =
      rw (three_crashes_cool_down t₁ t₂ t₃ now stamp r near₂ near₃ near soon) refl

  segfault_effects :
      (safe : Bool) (c : Child)
      → c.alive_after_timeout ≡ false
      → exit_signal c.exitcode ≡ 11
      → (judge_child decimal depth services safe c).1 ≡ crash_recorded ∷ safe_mode_activated ∷ []
  unfolding judge_child
  segfault_effects safe c ended fault = rw (ended, fault) refl

  -- A segmentation fault of the child, outside the cooldown and with isolation on, leaves the runtime
  -- state in safe mode and is counted, with its time as the last of the crash times.
  pub segfault_leaves_safe_mode :
      (now after : ℕ) (stamp : String) (c : Child) (r : Runtime)
      → is_subprocess_cooldown_active now r ≡ false
      → c.alive_after_timeout ≡ false
      → exit_signal c.exitcode ≡ 11
      → let r' = (run_forecasting_stage now after stamp true c r).1 in
        (is_forecast_safe_mode r' ≡ true)
        × ((load r').native_crash_count ≡ (load r).native_crash_count + 1)
        × ((load r').crash_timestamps ≡ crashes_after after (load r).crash_timestamps)
  unfolding run_forecasting_stage run_forecasting_isolated
  segfault_leaves_safe_mode now after stamp c r warm ended fault =
      rw (warm, segfault_effects (is_forecast_safe_mode r) c ended fault)
        (fault_recorded after stamp r)

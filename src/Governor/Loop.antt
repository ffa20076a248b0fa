-- ===== src/Governor/Loop.antt =====
-- `SubprocessGovernor.run` and `_collect_result`: the polling loop. What the loop meets from
-- outside (the process, the clock, the status key) is a list of polls.
pub mod Ends
pub mod Outcome
use sky_trax_project.Prelude.{
  ℕ, ◌+◌, ◌-◌, ◌/◌, ◌==◌, Bool, false, Option, none, some, List, [], ◌∷◌, if◌then◌else◌,
}
use sky_trax_project.Governor.{
  Limits, Texts, CrawlState, completed, completed_degraded, Trigger, StatusRead, read_telemetry,
  TelemetrySnapshot, TerminationEvent, Governor,
}
use sky_trax_project.Governor.Triggers.{evaluate_triggers}
use sky_trax_project.Governor.Progress.{update_state, emit_heartbeat}
use sky_trax_project.Governor.Kill.{Answers, Signal, terminate, cleanup_redis}

-- One round of the loop: whether `proc.poll()` gives `None`, the status blob, and the clock at
-- each place that reads it.
pub record Poll : Type 0 where
  pub alive : Bool
  pub status : StatusRead
  pub now_round : ℕ
  pub now_read : ℕ
  pub now_evaluate : ℕ
  pub now_update : ℕ
  pub now_heartbeat : ℕ
  pub answers : Answers
  pub status_after : StatusRead
  pub now_cleanup : ℕ

-- How a run of the loop stands: the process exited, it was terminated, or the polls are used up.
pub data Watch : Type 0 where
  exited : Governor → Watch
  killed : Governor → List Signal → StatusRead → Watch
  watching : Governor → Watch

module _ (limits : Limits) (texts : Texts) (has_callback : Bool) where
  abbrev pub elapsed_at : Poll → Governor → ℕ
  elapsed_at p g = p.now_round - g.started_at

  unfoldable pub poll_triggers : Poll → Governor → Option Trigger × Governor
  poll_triggers p g =
      evaluate_triggers limits texts (read_telemetry p.status p.now_read) (elapsed_at p g)
        p.now_evaluate (record g { poll_count = g.poll_count + 1 })

  unfoldable pub finish : Trigger → Poll → ℕ → Governor → Watch
  finish t p elapsed g =
      let (g', signals) =
        terminate limits texts p.answers t (read_telemetry p.status p.now_read) elapsed g in
      killed g' signals (cleanup_redis g' p.status_after p.now_cleanup)

  unfoldable pub go_on : Poll → ℕ → Governor → Governor
  go_on p elapsed g =
      let snap = read_telemetry p.status p.now_read in
      emit_heartbeat has_callback snap elapsed p.now_heartbeat (update_state snap p.now_update g)

  -- The `while` loop.
  unfoldable pub watch : List Poll → Governor → Watch
  watch [] g = watching g
  watch (p ∷ polls) g =
      let (trigger, g') = poll_triggers p g in
      let elapsed = elapsed_at p g in
      let rest = watch polls (go_on p elapsed g') in
      let decided : Watch = elim trigger [ some t ↦ finish t p elapsed g' | none ↦ rest ] in
      if p.alive then decided else exited g

-- `proc.returncode`: `None`, a code, or minus the signal that ended the process.
pub data ReturnCode : Type 0 where
  unknown : ReturnCode
  code : ℕ → ReturnCode
  signalled : ℕ → ReturnCode

abbrev pub is_zero : ReturnCode → Bool
is_zero (code n) = n == 0
is_zero _ = false

pub record Report : Type 0 where
  pub returncode : ReturnCode
  pub report_state : CrawlState
  pub elapsed_s : ℕ
  pub poll_cycles : ℕ
  pub termination : Option TerminationEvent

unfoldable pub report_state_of : Option TerminationEvent → ReturnCode → CrawlState
report_state_of (some e) rc = e.final_state
report_state_of none rc = if is_zero rc then completed else completed_degraded

-- `_collect_result`
unfoldable pub collect_result : ReturnCode → ℕ → Governor → Report
unfolding report_state_of
collect_result rc now g = record {
  returncode = rc;
  report_state = report_state_of g.termination_event rc;
  elapsed_s = (now - g.started_at) / 1000;
  poll_cycles = g.poll_count;
  termination = g.termination_event;
}

-- ===== src/Governor/Kill.antt =====
-- `SubprocessGovernor._terminate`, `_force_kill_tree`, `_cleanup_redis`, `_trigger_description`:
-- the protocol SIGTERM, SIGKILL, cleanup.
use Prim.Native.String.{◌++◌}
use sky_trax_project.Prelude.{
  ℕ, String, Bool, true, false, Option, none, some, List, [], ◌∷◌, if◌then◌else◌,
}
use sky_trax_project.Governor.{
  Limits, terminated, zombie, Trigger, hard_timeout, scrapy_saturation, no_inserts, reactor_hanging,
  duplicate_streak, static_airline, telemetry_frozen, zero_throughput, KillType, graceful,
  hard_kill, zombie_kill, crawl_zombie, crawl_termination, Texts, StatusRead, unreadable, missing,
  blob, TelemetrySnapshot, TerminationEvent, Governor,
}

pub data Signal : Type 0 where
  sigterm sigkill sigkill_tree : Signal

-- How the process and the operating system answer: whether each signal still finds the process,
-- and whether it exits within the wait that follows.
pub record Answers : Type 0 where
  pub term_finds : Bool
  pub exits_gracefully : Bool
  pub kill_finds : Bool
  pub exits_on_kill : Bool

-- The kill type that the protocol ends with, and the signals that it sends. A signal that finds
-- no process raises `ProcessLookupError`, which ends the protocol.
unfoldable pub kill_protocol : Answers → KillType × List Signal
kill_protocol a =
    if a.term_finds
    then if a.exits_gracefully
      then (graceful, sigterm ∷ [])
      else if a.kill_finds
      then if a.exits_on_kill
        then (hard_kill, sigterm ∷ sigkill ∷ [])
        else (zombie_kill, sigterm ∷ sigkill ∷ sigkill_tree ∷ [])
      else (hard_kill, sigterm ∷ sigkill ∷ [])
    else (graceful, sigterm ∷ [])

abbrev is_zombie : KillType → Bool
is_zombie zombie_kill = true
is_zombie _ = false

-- `_trigger_description`
unfoldable pub trigger_description : Limits → Texts → Trigger → String
trigger_description l t hard_timeout =
    "Crawl exceeded hard timeout (" ++ t.decimal l.crawl_hard_timeout_s ++ "s)"
trigger_description l t scrapy_saturation = "Scrapy telemetry reported corpus saturation"
trigger_description l t no_inserts =
    "No new reviews inserted for " ++ t.decimal l.max_no_insert_s ++ "s"
trigger_description l t reactor_hanging =
    "Page counter frozen for " ++ t.decimal l.max_static_page_s ++ "s — reactor likely hanging"
trigger_description l t duplicate_streak =
    "Exceeded " ++ t.decimal l.max_duplicate_streak ++ " pages with only duplicates"
trigger_description l t static_airline =
    "Same airline for " ++ t.decimal l.max_static_airline_s ++ "s with no progress"
trigger_description l t telemetry_frozen =
    "Telemetry hash unchanged for " ++ t.decimal l.max_telemetry_static_s ++ "s"
trigger_description l t zero_throughput =
    "Zero throughput for " ++ t.decimal l.max_zero_throughput_s ++ "s"

-- The event that `_terminate` records.
unfoldable pub event_of :
    Limits → Texts → Answers → Trigger → TelemetrySnapshot → ℕ → TerminationEvent
unfolding kill_protocol
event_of limits texts answers trigger snap elapsed =
    let kill_type = (kill_protocol answers).0 in
    record {
      reason = trigger_description limits texts trigger;
      trigger = trigger;
      final_state = if is_zombie kill_type then zombie else terminated;
      elapsed_ms = elapsed;
      telemetry = snap;
      kill_type = kill_type;
    }

-- `_terminate` up to its cleanup.
unfoldable pub terminate :
    Limits → Texts → Answers → Trigger → TelemetrySnapshot → ℕ → Governor → Governor × List Signal
unfolding event_of kill_protocol
terminate limits texts answers trigger snap elapsed g =
    let event = event_of limits texts answers trigger snap elapsed in
    let seen = if is_zombie event.kill_type then crawl_zombie ∷ g.metrics else g.metrics in
    (
      record g {
        state = event.final_state;
        termination_event = some event;
        metrics = crawl_termination ∷ seen;
      },
      (kill_protocol answers).1,
    )

abbrev event_trigger : Option TerminationEvent → Option Trigger
event_trigger none = none
event_trigger (some e) = some e.trigger

-- `_cleanup_redis`: the marks that are left in the status blob, where there is one. A failure to
-- read it is logged and changes nothing.
unfoldable pub cleanup_redis : Governor → StatusRead → ℕ → StatusRead
cleanup_redis g unreadable now = unreadable
cleanup_redis g missing now = missing
cleanup_redis g (blob ct _) now =
    blob
      (record ct {
        governor_terminated = some true;
        termination_trigger = event_trigger g.termination_event;
        termination_state = some g.state;
      })
      (some now)

-- ===== src/Governor/Progress.antt =====
-- `SubprocessGovernor._update_state` and `_emit_heartbeat`: what a poll does where no trigger fires.
use sky_trax_project.Prelude.{ℕ, ◌-◌, ◌/◌, Bool, ◌∷◌, ◌&&◌, ltb, if◌then◌else◌}
use sky_trax_project.Governor.{
  seconds, TelemetrySnapshot, Governor, CrawlState, running, running_no_progress, saturated,
  stalled,
}

unfoldable pub progress_state : TelemetrySnapshot → ℕ → CrawlState
progress_state snap no_insert_duration =
    if snap.is_saturated
    then saturated
    else if ltb (seconds 60) no_insert_duration && ltb 5 snap.pages
    then running_no_progress
    else if snap.is_stalled
    then stalled
    else running

-- `_update_state`
unfoldable pub update_state : TelemetrySnapshot → ℕ → Governor → Governor
unfolding progress_state
update_state snap now g = record g { state = progress_state snap (now - g.last_insert_time) }

-- `_emit_heartbeat`: nothing without a callback, and an exception of the callback is swallowed.
unfoldable pub emit_heartbeat : Bool → TelemetrySnapshot → ℕ → ℕ → Governor → Governor
emit_heartbeat has_callback snap elapsed now g =
    if has_callback
    then record g {
      heartbeats =
          record {
            shown = snap;
            label = g.state;
            no_insert_s = (now - g.last_insert_time) / 1000;
            elapsed_s = elapsed / 1000;
          }
          ∷ g.heartbeats;
    }
    else g

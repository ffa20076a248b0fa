-- ===== src/Tests/RuntimeRuns.antt =====
-- The runtime state on small states, with Redis and without it.
use sky_trax_project.Prelude.{
  ℕ, ◌≡◌, refl, String, true, false, some, [], ◌∷◌, arith, ltb, one_of, if◌then◌else◌,
}
use sky_trax_project.Governor.Loop.{signalled}
use sky_trax_project.Forecast.{Services, persists, Child, nothing_queued, run_inprocess}
use sky_trax_project.Runtime.{
  Degraded, empty_state, State, parsed, unparsable, Runtime, load, save, record_subprocess_crash,
}
use sky_trax_project.Runtime.Crashes.{
  outage_reads_own_writes_until_recovery, run_forecasting_stage, crash_loop_starts_no_child,
}
use sky_trax_project.Runtime.History.{record_degraded_stage, remove_false_degraded_events}
use sky_trax_project.Runtime.History.Cleaning.{IsBounded, history-IsBounded}
use sky_trax_project.Runtime.Blocks.{compute_blocked_stages}

abbrev fusion : Degraded
fusion = record {
  stage = "fusion";
  operation_id = "a";
  error = "signals unavailable";
  soft = true;
  time = "t0";
}

abbrev nlp : Degraded
nlp = record fusion { stage = "nlp" }

abbrev online : Runtime
online = record {
  up = true;
  stored = some (record empty_state { degraded_history = fusion ∷ nlp ∷ [] });
  degraded_rows = parsed fusion ∷ unparsable "{" ∷ parsed nlp ∷ [];
  memory = empty_state;
  env_safe_mode = false;
}

abbrev crashed : State
crashed = record empty_state { native_crash_count = 1 }

abbrev services : Services
services = record {
  attempt = λ n safe. persists 5;
  stack_error = "maximum recursion depth exceeded";
}

abbrev numeral : ℕ → String
numeral n = if ltb n 12 then "11" else "12"

abbrev segfault : Child
segfault = record { alive_after_timeout = false; exitcode = signalled 11; payload = nothing_queued }

outage_reads_own_writes_until_recovery_example :
    (load (save crashed online) ≡ crashed)
    × (load (record (save crashed online) { up = false }) ≡ crashed)
    × (load (record (save crashed (record online { up = false })) { up = true })
        ≡ record empty_state { degraded_history = fusion ∷ nlp ∷ [] })
outage_reads_own_writes_until_recovery_example =
    outage_reads_own_writes_until_recovery crashed
      (record empty_state { degraded_history = fusion ∷ nlp ∷ [] }) online refl

abbrev looping : Runtime
looping =
    record_subprocess_crash 200000 "t"
      (record_subprocess_crash 100000 "t" (record_subprocess_crash 50000 "t" online))

crash_loop_starts_no_child_example :
    run_forecasting_stage numeral 10 services 700000 710000 "t" true segfault looping
    ≡ (run_inprocess 10 services true 0, looping)
crash_loop_starts_no_child_example =
    crash_loop_starts_no_child numeral 10 services 50000 100000 200000 700000 710000 "t" true
      segfault online (omega arith) (omega arith) (omega arith) (omega arith)

online-IsBounded : IsBounded online
unfolding load
online-IsBounded = record { state = omega arith; rows = omega arith }

-- The row that is no JSON stays, and the order of the others with it.
fusion_removed :
    (remove_false_degraded_events "a" "fusion" "t" online).1.degraded_rows
    ≡ unparsable "{" ∷ parsed nlp ∷ []
unfolding remove_false_degraded_events
fusion_removed = refl

history-IsBounded_example :
    IsBounded (record_degraded_stage nlp "t" online)
    × IsBounded (remove_false_degraded_events "a" "fusion" "t" online).1
history-IsBounded_example = history-IsBounded nlp "a" "fusion" "t" online online-IsBounded

two_blocked :
    compute_blocked_stages ("insights" ∷ "graph_edges" ∷ "anomaly_events" ∷ [])
    ≡ "anomalies" ∷ "knowledge_graph" ∷ []
unfolding compute_blocked_stages one_of
two_blocked = refl

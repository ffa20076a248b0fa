-- ===== src/Tests/GovernorRuns.antt =====
-- The governor of worker/subprocess_governor.py on small crawls.
use sky_trax_project.Prelude.{ℕ, ◌<◌, ◌≡◌, ◌≢◌, refl, true, false, some, List, [], ◌∷◌, arith}
use sky_trax_project.Governor.{
  Limits, default_limits, Texts, TelemetrySnapshot, Governor, start, duplicate_streak, missing,
}
use sky_trax_project.Governor.Kill.{Answers}
use sky_trax_project.Governor.Loop.{Poll, watching, watch, code}
use sky_trax_project.Governor.Loop.Ends.{watch_ends}
use sky_trax_project.Governor.Loop.Outcome.{WellReported, watch-WellReported}
use sky_trax_project.Governor.Triggers.{
  evaluate_triggers, check_timeout, check_saturation, check_after_grace, check_progress,
  check_inserts, check_pages, check_duplicates,
}
use sky_trax_project.Governor.Triggers.Table.{table, evaluate_triggers-eq-table}
use sky_trax_project.Governor.Triggers.Verdicts.{duplicate_streak_only_before_insert}

abbrev texts : Texts
texts = record { decimal = λ n. ""; md5_prefix = λ s. s }

abbrev only_dupes : TelemetrySnapshot
only_dupes = record {
  pages = 31;
  inserts = 0;
  dupes = 40;
  airline = "tap";
  throughput = 3;
  is_saturated = false;
  is_stalled = false;
  timestamp = 40000;
}

abbrev started : Governor
started = start 0

streak_raised :
    (evaluate_triggers default_limits texts only_dupes 40000 40000 started).0
    ≡ some duplicate_streak
unfolding evaluate_triggers check_timeout check_saturation check_after_grace check_progress
    check_inserts check_pages check_duplicates start
streak_raised = refl

duplicate_streak_only_before_insert_example :
    (started.last_insert_count ≡ 0) × (only_dupes.inserts ≡ 0) × (30 < only_dupes.pages)
duplicate_streak_only_before_insert_example =
    duplicate_streak_only_before_insert default_limits texts only_dupes 40000 40000 started
      streak_raised

evaluate_triggers-eq-table_example :
    (evaluate_triggers default_limits texts only_dupes 40000 40000 started).0
    ≡ table default_limits texts only_dupes 40000 40000 started
evaluate_triggers-eq-table_example =
    evaluate_triggers-eq-table default_limits texts only_dupes 40000 40000 started

abbrev stuck : Governor
stuck = record started { last_page_count = 31; last_insert_count = 5 }

abbrev busy : TelemetrySnapshot
busy = record only_dupes { inserts = 9 }

abbrev on_tap : Governor
on_tap = record started { last_airline = "tap" }

abbrev obedient : Answers
obedient = record {
  term_finds = true;
  exits_gracefully = false;
  kill_finds = true;
  exits_on_kill = true;
}

-- A round at `now`, with a process that lives and no status blob.
abbrev quiet : ℕ → Poll
quiet now = record {
  alive = true;
  status = missing;
  now_round = now;
  now_read = now;
  now_evaluate = now;
  now_update = now;
  now_heartbeat = now;
  answers = obedient;
  status_after = missing;
  now_cleanup = now;
}

abbrev rounds : List Poll
rounds = quiet 0 ∷ quiet 900 ∷ quiet 2000 ∷ quiet 2900 ∷ []

abbrev one_second : Limits
one_second = record default_limits { crawl_hard_timeout_s = 1 }

watch_ends_example : watch one_second texts true rounds started ≢ watching started
unfolding start
watch_ends_example =
    watch_ends one_second texts true 800 rounds started started (omega arith) (omega arith)

watch-WellReported_example : WellReported (code 0) 4000 (watch one_second texts true rounds started)
unfolding start
watch-WellReported_example =
    watch-WellReported one_second texts true (code 0) 4000 rounds started refl

abbrev undying : Answers
undying = record obedient { exits_on_kill = false }

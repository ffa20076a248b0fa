-- ===== src/Tests/PipelineRuns.antt =====
-- Runs of the pipeline with stages that succeed, degrade, are skipped and raise.
use sky_trax_project.Prelude.{
  one_of, ◌≡◌, refl, ◌≤◌, String, true, false, none, some, [], ◌∷◌, arith, str_eq, lookup,
}
use sky_trax_project.Lifecycle.{accept_refresh, accepted, queued_operation}
use sky_trax_project.Pipeline.Execute.Lock.{IsMine}
use sky_trax_project.Jobs.Refresh.{run_operational_refresh, refresh_job_frees_next}
use sky_trax_project.Store.{entry, nothing}
use sky_trax_project.StageResults.{is_true, number, text, flag, positive}
use sky_trax_project.Integrity.{rows, Minima, kpi_of}
use sky_trax_project.Reconcile.{Patterns, text_is, result_fails, error_text}
use sky_trax_project.Runtime.{empty_state}
use sky_trax_project.Pipeline.{no_keys, World, Run, Write, has_delivered, stages}
use sky_trax_project.Pipeline.Stage.{Ending, returns, raises, Setting}
use sky_trax_project.Pipeline.Execute.{Course, run_locked}
use sky_trax_project.Pipeline.Execute.Verdict.{Verdict, run_locked-Verdict}
use sky_trax_project.Pipeline.Execute.Verdict.Stages.{AllHonest}
use sky_trax_project.Pipeline.Aviation.{AviationCourse, execute_aviation}
use sky_trax_project.Pipeline.Aviation.Degraded.{Answers, raised_stage-Answers}
use sky_trax_project.Pipeline.Aviation.Returned.{AnswersFailed, returned_error-AnswersFailed}

abbrev patterns : Patterns
patterns = record {
  iata_missing = str_eq "no iata_code";
  signals_unavailable = str_eq "no signals";
  upstream_empty = str_eq "upstream empty";
  enrichment = str_eq "enrichment timeout";
  show = λ v. "value";
}

abbrev minima : Minima
minima = record { min_graph_nodes = 1; min_metadata = 1; min_reviews = 1 }

abbrev same : String → String
same s = s

-- A stage that meets a filled database, and ends so.
abbrev stage_that : Ending → Setting
stage_that e = record {
  broken = none;
  counts =
      ("reviews", rows 40)
      ∷ ("review_intelligence", rows 40)
      ∷ ("graph_nodes", rows 8)
      ∷ ("forecast_snapshots", rows 3)
      ∷ [];
  graph = record { node_count = 8; edge_count = 9 };
  beats = "half way" ∷ [];
  ending = e;
}

abbrev passes : Setting
passes = stage_that (returns [])

-- The fusion delivers with a warning, a stage before it degrades and another one raises.
abbrev course : Course
course = record {
  settings =
      passes
      ∷ stage_that (returns (("total_reviews_in_db", number 40) ∷ []))
      ∷ passes
      ∷ passes
      ∷ passes
      ∷ stage_that (returns (("error", text "timeout") ∷ ("timeout", flag true) ∷ []))
      ∷ stage_that (raises "no model")
      ∷ passes
      ∷ passes
      ∷ stage_that (
          returns (
            ("error", text "enrichment late")
            ∷ ("fusion_status", text "completed")
            ∷ ("signals_generated", number 4)
            ∷ []))
      ∷ passes
      ∷ [];
  report = some (record { drifted = false; missing = []; semantic = [] });
  refreshed = ("reviews", 40) ∷ [];
  schema = record {
    canonical_aviation_valid = true;
    aviation_semantic_drift = false;
    runtime_schema_consistent = true;
  };
  propagated = none;
}

abbrev fresh_run : Run
fresh_run = record {
  operation_id = "a";
  triggered_by = "ui";
  results = [];
  errors = [];
  events = [];
  kpis = [];
  last_successful_stage = "";
  heartbeat_count = 0;
}

abbrev quiet : World
quiet = record {
  redis = record {
    up = true;
    operation = nothing;
    status = nothing;
    refresh_lock = some "a";
    watchdog_lock = false;
    dispatch_lock = false;
  };
  extra = record { kpis = none; completed_stages = []; failed_stages = [] };
  runtime = record {
    up = true;
    stored = some empty_state;
    degraded_rows = [];
    memory = empty_state;
    env_safe_mode = false;
  };
}

honest_course : AllHonest stages course.settings
unfolding has_delivered text_is lookup positive
honest_course = ground arith

run_locked-Verdict_example :
    Verdict (run_locked patterns minima same same "t1" "3" course (fresh_run, quiet))
run_locked-Verdict_example =
    run_locked-Verdict patterns minima same same "t1" "3" course fresh_run quiet refl refl
      honest_course

abbrev write : Write
write = record {
  stage = "crawl";
  progress = 16;
  pipeline_status = some "running";
  keys = no_keys;
  kpis = none;
  completed_stages = [];
  failed_stages = [];
}

-- The status after the crawl, whose metadata KPI is not counted again.
abbrev crawled : World
crawled = record quiet {
  extra = record {
    kpis = some (("reviews", 30) ∷ ("metadata", 12) ∷ []);
    completed_stages = [];
    failed_stages = [];
  };
}

positive_reviews : 1 ≤ kpi_of (("reviews", 30) ∷ []) "reviews"
unfolding kpi_of lookup
positive_reviews = omega arith

-- The world as the worker finds it after the request was dispatched.
abbrev dispatched : World
dispatched = record quiet {
  redis = record quiet.redis {
    operation = entry (queued_operation "a" "ui" "full" "t0");
    refresh_lock = none;
  };
}

dispatched-IsMine : IsMine "a" dispatched.redis
dispatched-IsMine = record {
  reached = refl;
  free = refl;
  operation = queued_operation "a" "ui" "full" "t0";
  stored = refl;
  own = refl;
}

refresh_job_frees_next_example :
    ((accept_refresh "b" "cron" "full" "t9"
        (run_operational_refresh patterns minima same same "t1" "3" course
          (some "a")
          "x"
          "ui"
          dispatched).1.redis).0
      ≡ accepted (queued_operation "b" "cron" "full" "t9"))
    × ((run_operational_refresh patterns minima same same "t1" "3" course
          (some "a")
          "x"
          "ui"
          dispatched).1.redis.refresh_lock
        ≡ none)
refresh_job_frees_next_example =
    refresh_job_frees_next patterns minima same same "t1" "3" course "a" "x" "ui" dispatched "b"
      "cron" "full" "t9" refl refl dispatched-IsMine refl refl refl

-- The download of the master data fails, or the discovery of the airports raises.
abbrev refused : AviationCourse
refused = record {
  endings =
      returns (("error", text "connection refused") ∷ [])
      ∷ returns []
      ∷ returns []
      ∷ returns []
      ∷ [];
  propagated = some ([], "Operational domains refreshed: 0 airlines");
  schema = course.schema;
  broken = none;
}

abbrev crashed_discovery : AviationCourse
crashed_discovery = record refused {
  endings = returns [] ∷ raises "no scrapy" ∷ returns [] ∷ returns [] ∷ [];
}

returned_error-AnswersFailed_example :
    AnswersFailed patterns minima same same "t1" "3" "completed"
      (execute_aviation patterns minima same same "t1" "3" refused fresh_run dispatched).0
unfolding result_fails error_text is_true lookup
returned_error-AnswersFailed_example =
    returned_error-AnswersFailed patterns minima same same "t1" "3"
      (("error", text "connection refused") ∷ []) [] [] [] refused fresh_run dispatched refl refl
      refl refl tt refl refl

raised_stage-Answers_example :
    Answers patterns minima same same "t1" "3" "airport_discovery" "partial"
      (execute_aviation patterns minima same same "t1" "3" crashed_discovery fresh_run dispatched).0
unfolding one_of
raised_stage-Answers_example =
    raised_stage-Answers patterns minima same same "t1" "3" "airport_discovery" crashed_discovery
      fresh_run dispatched refl refl refl refl

-- ===== src/Lib.antt =====
-- SkyTrax Analytics: the refresh pipeline's control plane, which starts, watches and stops the
-- crawls and the pipeline runs, with the repair that runs before its migrations, the isolation of its
-- forecasting, the runtime state that these share, and the pipeline run itself with its contracts,
-- its bookkeeping and its reconciliation, and the master data of the airlines. The rest of the program
-- (analytics, scraping, the API's routers, the user interface) computes on the database and is not
-- modelled here.
--
-- How the parts interact. A request for a refresh (api/operations_dispatch.py) first lets the
-- watchdog (worker/orchestration/pipeline_watchdog.py) clear what is stalled, then asks the
-- lifecycle manager (worker/orchestration/operation_lifecycle.py) to accept an operation, writes
-- the live status (worker/orchestration/refresh_pipeline.py) and hands a job to the queue. All of
-- them share a few Redis keys. A running pipeline starts the crawl as a subprocess, which the
-- governor (worker/subprocess_governor.py) polls and terminates.
--
-- Governor.antt and its children follow SubprocessGovernor: Triggers is `_evaluate_triggers`,
-- Progress `_update_state` and `_emit_heartbeat`, Kill `_terminate` with its cleanup, Loop `run` and
-- `_collect_result`. The clock is counted in milliseconds, the throughput in tenths. What the loop
-- meets from outside is a list of polls, so the loop recurs on that list and needs no fuel; that
-- enough polls end it is a theorem.
-- Store.antt has the shared keys as one record, with the objects stored there as records of the
-- keys that the program uses. Whether Redis can be reached is one flag for the length of a call.
-- A key's time-to-live is not counted: that a key is gone is a state like any other, and the expiry
-- of the dispatch lock is a step in Lifecycle/Interleaving.antt.
-- Lifecycle.antt follows OperationLifecycleManager, Lifecycle/Stages.antt `lifecycle_from_stage`.
-- Lifecycle/Interleaving.antt cuts `accept_refresh` into its Redis commands, for many clients, with
-- workers' transitions between them; an `Environment` says whether the lock may expire and Redis go
-- out of reach. Lifecycle/Interleaving/Expiry.antt has a run in which the lock expires.
-- Watchdog.antt, Stall, Health, Recovery and AcceptPath follow pipeline_watchdog.py and
-- `get_live_status_fast`; instants are counted in microseconds.
-- Dispatch.antt follows `accept_and_dispatch_refresh` and `set_initial_status`.
-- Alembic.antt follows database/alembic_version_repair.py. The database is the interface `Engine` of
-- the queries and statements that the code sends; `IsSql` in Alembic/Capacity.antt says what a
-- statement does that succeeds. Alembic/Chain.antt is `check_migration_chain`.
-- Forecast.antt follows worker/forecasting_isolation.py. A service and its fallback call each other;
-- the depth to which calls may nest is a number, in place of Python's stack: behind it a
-- RecursionError is raised, whose text is a parameter, and the fallback catches it. Theorems say which
-- depth is enough.
-- Runtime.antt follows app/runtime_state.py, with the shared state in Redis and its copy in memory:
-- Runtime/Crashes.antt has the crashes and the cooldown, joined with the forecasting, History the
-- degraded stages, Blocks the stages that the schema blocks.
-- StageResults.antt has the results of the stages, as dictionaries of texts, numbers and flags; a
-- number is a non-negative integer. Integrity.antt follows check_stage_contract of
-- analytics/pipeline_integrity.py, the contracts of analytics/pipeline_lineage.py and
-- analytics/semantic_correlation_upstream.py; Integrity/Kpis.antt is `reconcile_integrity_metrics`.
-- Reconcile.antt and Reconcile/Steps.antt follow reconcile_pipeline_events and derive_failed_stages of
-- worker/orchestration/operational_reconciliation.py, Reconcile/Consistency.antt
-- validate_operational_consistency, Reconcile/Live.antt reconcile_live_status_payload.
-- Pipeline.antt follows OperationalRefreshPipeline of worker/orchestration/refresh_pipeline.py with
-- `_set_status`, Pipeline/Stage.antt `_run_stage` with its contract and heartbeats,
-- Pipeline/Execute.antt `execute`. A run recurs on the list of its stages and each stage on the list
-- of its heartbeats, so that neither needs fuel. Pipeline/Recorded.antt is the invariant of the
-- bookkeeping, Pipeline/Execute/Verdict.antt and Lock.antt are about whole runs. Pipeline/Aviation.antt
-- follows AviationSyncPipeline. Redis is taken as
-- reachable for the length of a run's writes, and one text stands for all its timestamps.
-- Aviation.antt is about aviation/: Slug.antt is `normalize_airline_slug` of master_data/normalize.py,
-- Rows.antt has the columns of `airline_metadata` (database/models/aviation.py) and the session, in
-- which queries see the stored rows and the program the objects; Identity.antt, Identity/Merge.antt and
-- Identity/Resolve.antt follow aviation_identity_governance.py, Sync.antt `_sync_airlines` of
-- master_data/sync.py. Rows are kept in the order of their creation, a confidence is counted in
-- hundredths, and metadata is two levels deep, as its one writer leaves it. Every loop recurs on a
-- list. A flush writes the objects as they are in memory and fails only where two slugs are equal; no
-- other writer is modelled. Airports, the linking of core airlines and the downloads are not modelled: they repeat the
-- pattern of the airlines or read the network.
-- Jobs.antt follows worker/job_lock.py and `_with_lock` of worker/jobs.py, Jobs/Refresh.antt the jobs
-- that run the pipelines. A datetime says whether it
-- has a timezone; the columns, declared in database/models/intelligence.py, keep none, and the
-- database's session works in UTC. What others do to the rows while a job runs is a parameter.
-- Tests.antt and its children run the models and apply the theorems.
--
-- Parameters, not modelled: md5 and the decimal text of an integer, `datetime.fromisoformat` and
-- `isoformat`, `str.strip`, the job queue, the operating system's answers to signals, the database,
-- the outcomes of the forecasting services and of their child process, the counts of the tables, the
-- outcomes of the stage functions, the reports on the schema, the regular expressions of the
-- reconciliation, Python's `str`, `str.lower`, `str.upper`, the decomposition of Unicode and the
-- comparison of dictionaries, the database's `lower` and `trim`, the tables of alliances and regions.
-- Metrics, logging and values of a wrong JSON type inside the objects are left out. Thresholds that the
-- environment can set are parameters; their defaults are `default_limits` and `default_thresholds`.
pub mod Prelude
pub mod Governor
pub mod Store
pub mod Lifecycle
pub mod Watchdog
pub mod Dispatch
pub mod Alembic
pub mod Forecast
pub mod Runtime
pub mod StageResults
pub mod Integrity
pub mod Reconcile
pub mod Pipeline
pub mod Aviation
pub mod Jobs
mod Tests

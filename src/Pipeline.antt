-- ===== src/Pipeline.antt =====
-- worker/orchestration/refresh_pipeline.py: the pipeline's status writes, its KPIs and its labels.
-- Redis is taken as reachable during a run, and one text stands for all timestamps of a run.
pub mod Stage
pub mod Execute
pub mod Kpis
pub mod Recorded
pub mod Aviation
use Prim.Native.String.{◌++◌ as append_text}
use sky_trax_project.Prelude.{
  ℕ, ◌+◌, min, String, Bool, true, false, not, ◌&&◌, ◌||◌, Option, none, some, List, [], ◌∷◌, ◌++◌,
  ltb, ◌==◌, str_eq, if◌then◌else◌, or_default, is_some, one_of, is_in, Dict, lookup, insert,
}
use sky_trax_project.Store.{entry, Event, Status, Redis}
use sky_trax_project.Lifecycle.{transition}
use sky_trax_project.Lifecycle.Stages.{lifecycle_from_stage}
use sky_trax_project.Watchdog.AcceptPath.{idle_status, terminal_stages}
use sky_trax_project.StageResults.{
  Value, number, text, Blob, Entry, blob, plain, Results, is_true, positive, blob_of,
}
use sky_trax_project.Reconcile.{Failure, text_is, derive_failed_stages}
use sky_trax_project.Runtime.{Runtime}

abbrev pub stages : List String
stages =
    "discovery" ∷ "crawl" ∷ "metadata" ∷ "semantic" ∷ "knowledge_graph" ∷ "forecasting"
    ∷ "anomalies" ∷ "insights" ∷ "aviation_master" ∷ "fusion" ∷ "snapshots" ∷ []

-- `_KPI_EXTRACTION_MAP`
abbrev pub kpi_extraction_map : Dict (List (String × String))
kpi_extraction_map =
    ("crawl", ("total_reviews_in_db", "reviews") ∷ ("total_airlines_in_db", "airlines") ∷ [])
    ∷ ("metadata", ("metadata_total", "metadata") ∷ ("reviews_analyzed", "metadata_delta") ∷ [])
    ∷ ("semantic", ("clusters_created", "clusters") ∷ ("enriched", "enriched") ∷ [])
    ∷ ("knowledge_graph", ("total_nodes", "graph_nodes") ∷ ("total_edges", "graph_edges") ∷ [])
    ∷ ("forecasting", ("forecasts_persisted", "forecasts") ∷ [])
    ∷ ("anomalies", ("anomalies_created", "anomalies") ∷ [])
    ∷ ("insights", ("insights_created", "insights") ∷ [])
    ∷ ("fusion", ("signals_total", "signals") ∷ ("signals_generated", "signals_delta") ∷ [])
    ∷ (
      "aviation_master",
      ("airlines_total", "aviation_metadata_total")
          ∷ ("airlines_linked_total", "aviation_linked_total")
          ∷ ("airlines_processed_this_run", "aviation_processed_this_run")
          ∷ [],
    )
    ∷ []

-- The keys of the status object that only the pipeline's readers use.
pub record Extra : Type 0 where
  pub kpis : Option (Dict ℕ)
  pub completed_stages : List String
  pub failed_stages : List String

-- The shared keys, the rest of the status object, and the runtime state.
pub record World : Type 0 where
  pub redis : Redis
  pub extra : Extra
  pub runtime : Runtime

-- `OperationalRefreshPipeline`, by the fields that its control flow uses.
pub record Run : Type 0 where
  pub operation_id : String
  pub triggered_by : String
  pub results : Results
  pub errors : List Failure
  pub events : List Event
  pub kpis : Dict ℕ
  pub last_successful_stage : String
  pub heartbeat_count : ℕ

-- `kpis[k] = v` where `v` is positive or the key is new
unfoldable pub keep_kpi : String → ℕ → Dict ℕ → Dict ℕ
unfolding insert lookup
keep_kpi k v kpis = if ltb 0 v || not (is_some (lookup k kpis)) then insert k v kpis else kpis

-- The merge of KPIs in `_set_status`.
unfoldable pub merge_kpis : Dict ℕ → Dict ℕ → Dict ℕ
merge_kpis [] kpis = kpis
merge_kpis ((k, v) ∷ new) kpis = merge_kpis new (keep_kpi k v kpis)

unfoldable pub extract_kpis : List (String × String) → Blob → Dict ℕ → Dict ℕ
unfolding positive lookup
extract_kpis [] b kpis = kpis
extract_kpis ((src, k) ∷ ms) b kpis = extract_kpis ms b (keep_kpi k (positive (lookup src b)) kpis)

-- `_accumulate_kpis`
unfoldable pub accumulate_kpis : String → Blob → Dict ℕ → Dict ℕ
unfolding lookup
accumulate_kpis stage b kpis =
    if is_some (lookup "error" b)
    then kpis
    else extract_kpis (or_default (lookup stage kpi_extraction_map) []) b kpis

-- The fusion has delivered: its status is completed and it has signals.
unfoldable pub has_delivered : Blob → Bool
has_delivered b =
    text_is "completed" (lookup "fusion_status" b)
    && ltb 0 (positive (lookup "signals_generated" b))

abbrev pub fusion_ok : Option Blob → Bool
fusion_ok none = false
fusion_ok (some b) = has_delivered b

unfoldable pub without_stage : String → List Failure → List Failure
without_stage s [] = []
without_stage s (e ∷ es) =
    let rest = without_stage s es in if str_eq e.stage s then rest else e ∷ rest

-- `_blocking_errors`
unfoldable pub blocking_errors : Run → List Failure
blocking_errors run =
    if fusion_ok (blob_of (lookup "fusion" run.results))
    then without_stage "fusion" run.errors
    else run.errors

abbrev pub no_errors : List Failure → Bool
no_errors [] = true
no_errors (_ ∷ _) = false

-- `_live_status_label`
unfoldable pub live_status_label : Run → String
unfolding blocking_errors
live_status_label run = if no_errors (blocking_errors run) then "running" else "running_degraded"

-- `_failed_stage_keys`
unfoldable pub failed_stage_keys : Run → List String
failed_stage_keys run = derive_failed_stages run.errors run.results

abbrev unresolved : Entry → Bool
unresolved (plain _) = false
unresolved (blob b) = is_true (lookup "error" b) && not (is_true (lookup "reconciled" b))

unfoldable pub completed_of : List String → Results → List String
unfolding one_of is_true lookup
completed_of failed [] = []
completed_of failed ((k, e) ∷ rs) =
    let rest = completed_of failed rs in if one_of k failed || unresolved e then rest else k ∷ rest

-- `_completed_stage_keys`
unfoldable pub completed_stage_keys : Run → List String
unfolding completed_of failed_stage_keys
completed_stage_keys run = completed_of (failed_stage_keys run) run.results

-- `_classify_degraded`
unfoldable pub classify_degraded : Blob → String
unfolding text_is is_true lookup
classify_degraded b =
    if text_is "aviation_enrichment_partial" (lookup "degraded_classification" b)
    then "aviation_enrichment_partial"
    else if is_true (lookup "reconciled" b)
        || text_is "false_degraded_stale_status" (lookup "degraded_classification" b)
    then "false_degraded_stale_status"
    else if is_true (lookup "timeout" b)
    then "real_degraded_timeout"
    else if is_true (lookup "dependency_contract_failed" b)
    then "real_degraded_dependency"
    else "real_degraded_runtime_failure"

unfoldable pub add_event : String → String → Run → Run
add_event stamp message run = record run {
  events =
      run.events
      ++ record { time = stamp; message = message; event_operation = some run.operation_id } ∷ [];
}

-- The keys of the status that only some of the writes set.
pub record Keys : Type 0 where
  pub triggered_by : Option String
  pub last_heartbeat_at : Option String
  pub heartbeat_at : Option String
  pub worker_alive : Option Bool
  pub last_progress : Option ℕ
  pub last_progress_at : Option String

abbrev pub no_keys : Keys
no_keys = record {
  triggered_by = none;
  last_heartbeat_at = none;
  heartbeat_at = none;
  worker_alive = none;
  last_progress = none;
  last_progress_at = none;
}

-- A write while the run goes on.
abbrev pub run_keys : Run → Keys
run_keys run = record no_keys { triggered_by = some run.triggered_by }

-- A heartbeat of the finalization.
abbrev pub final_keys : String → Run → Keys
final_keys stamp run = record (run_keys run) {
  last_heartbeat_at = some stamp;
  heartbeat_at = some stamp;
}

-- A heartbeat of a stage.
abbrev pub beat_keys : String → ℕ → Run → Keys
beat_keys stamp progress run = record (final_keys stamp run) {
  worker_alive = some true;
  last_progress = some progress;
  last_progress_at = some stamp;
}

-- The keyword arguments of `_set_status` that the model keeps.
pub record Write : Type 0 where
  pub stage : String
  pub progress : ℕ
  pub pipeline_status : Option String
  pub keys : Keys
  pub kpis : Option (Dict ℕ)
  pub completed_stages : List String
  pub failed_stages : List String

abbrev merged_kpis : Option (Dict ℕ) → Option (Dict ℕ) → Option (Dict ℕ)
merged_kpis none stored = none
merged_kpis (some new) stored = some (merge_kpis new (or_default stored []))

abbrev sync_to : String → Option String → String → Redis → Redis
sync_to op none stamp r = r
sync_to op (some s) stamp r = if str_eq s "" then r else transition op s (λ o. o) stamp r

unfoldable pub report_of : Run → Keys → String → ℕ → String → Write
unfolding completed_stage_keys failed_stage_keys
report_of run keys stage progress label = record {
  stage = stage;
  progress = progress;
  pipeline_status = some label;
  keys = keys;
  kpis = some run.kpis;
  completed_stages = completed_stage_keys run;
  failed_stages = failed_stage_keys run;
}

module _ (strip : String → String) (stamp : String) where
  -- `_set_status`, with the lifecycle that follows it
  unfoldable pub set_status : Run → Write → World → World
  unfolding merge_kpis
  set_status run wr world =
      let status : Status = record idle_status {
        operation_id = some run.operation_id;
        running = some (not (one_of wr.stage terminal_stages));
        stage = some wr.stage;
        progress = some (min wr.progress 100);
        pipeline_status = wr.pipeline_status;
        updated_at = some stamp;
        started_at = some stamp;
        events = run.events;
        triggered_by = wr.keys.triggered_by;
        last_heartbeat_at = wr.keys.last_heartbeat_at;
        heartbeat_at = wr.keys.heartbeat_at;
        worker_alive = wr.keys.worker_alive;
        last_progress = wr.keys.last_progress;
        last_progress_at = wr.keys.last_progress_at;
      } in
      let stored = record world.redis { status = entry status } in
      let state = lifecycle_from_stage strip (some wr.stage) wr.pipeline_status in
      record world {
        redis =
            if str_eq run.operation_id ""
            then stored
            else sync_to run.operation_id state stamp stored;
        extra = record {
          kpis = merged_kpis wr.kpis world.extra.kpis;
          completed_stages = wr.completed_stages;
          failed_stages = wr.failed_stages;
        };
      }

  -- A write with the lists, the KPIs and the label of the run.
  unfoldable pub report_run : Run → Keys → String → ℕ → String → World → World
  unfolding set_status report_of
  report_run run keys stage progress label =
      set_status run (report_of run keys stage progress label)

-- ===== src/Pipeline/Stage.antt =====
-- `_run_stage`, `_check_dependency_contract` and the heartbeats of a stage.
use Prim.Native.String.{◌++◌ as append_text}
use sky_trax_project.Prelude.{
  ℕ, ◌+◌, ◌*◌, ◌/◌, String, Bool, true, false, not, ◌&&◌, ◌||◌, Option, none, some, List, [], ◌∷◌,
  ◌++◌, str_eq, if◌then◌else◌, is_some, one_of, is_in, take_text, lookup, insert,
}
use sky_trax_project.StageResults.{Value, text, flag, Blob, blob, is_true}
use sky_trax_project.Integrity.{
  Counts, Minima, GraphRuntime, merge_upstream_counts, check_stage_contract, validate_upstream,
  no_failures,
}
use sky_trax_project.Reconcile.{Failure, Patterns, str_of}
use sky_trax_project.Runtime.History.{record_degraded_stage}
use sky_trax_project.Runtime.Blocks.{is_stage_blocked}
use sky_trax_project.Pipeline.{
  World, Run, accumulate_kpis, has_delivered, live_status_label, classify_degraded, add_event,
  report_run, run_keys, beat_keys,
}

-- What a stage's function does: the details of its heartbeats, and its result or its exception.
pub data Ending : Type 0 where
  returns : Blob → Ending
  raises : String → Ending

-- The surroundings of one stage: an exception of the contract's check, the counts of the tables and
-- of the graph at that time, and what its function does.
pub record Setting : Type 0 where
  pub broken : Option String
  pub counts : Counts
  pub graph : GraphRuntime
  pub beats : List String
  pub ending : Ending

-- `_DEPENDENCY_SKIP_STAGES`
abbrev pub dependency_skip_stages : List String
dependency_skip_stages = "knowledge_graph" ∷ "fusion" ∷ "anomalies" ∷ "insights" ∷ "snapshots" ∷ []

-- STAGE_SKIP_MESSAGES of analytics/pipeline_lineage.py, for these stages
unfoldable pub skip_message : String → String
skip_message stage =
    if str_eq stage "knowledge_graph"
    then "Knowledge graph skipped — review_intelligence empty (run metadata first)"
    else if str_eq stage "fusion"
    then "Correlação semântica adiada — contrato upstream não satisfeito (verificar contagens reais)"
    else if str_eq stage "anomalies"
    then "Anomaly detection skipped — insufficient review history"
    else if str_eq stage "insights"
    then "Executive insights skipped — no enriched reviews"
    else "Snapshot persistence skipped — missing upstream data"

-- The payload of a skipped stage, without the lists of failures and counts.
unfoldable pub skip_payload : String → Blob
unfolding skip_message
skip_payload stage =
    ("skipped", flag true)
    ∷ ("dependency_contract_failed", flag true)
    ∷ ("reason", text (skip_message stage))
    ∷ []

-- `_check_dependency_contract`
unfoldable pub check_dependency_contract : Minima → Setting → String → Run → Option Blob
unfolding skip_payload one_of
check_dependency_contract minima s stage run =
    let merged = merge_upstream_counts s.counts run.results run.kpis in
    let satisfied =
      if str_eq stage "fusion"
      then (validate_upstream minima s.graph run.results s.counts run.kpis).ready
      else no_failures (check_stage_contract stage (some merged)) in
    if one_of stage dependency_skip_stages && not satisfied then some (skip_payload stage) else none

abbrev pub failure_of : String → String → Bool → Option String → Failure
failure_of stage error soft classification = record {
  stage = stage;
  error = error;
  soft = soft;
  classification = classification;
}

-- The run with the stage's result and one more error.
unfoldable pub fail_stage : Failure → Blob → Run → Run
unfolding insert
fail_stage f b run = record run {
  results = insert f.stage (blob b) run.results;
  errors = run.errors ++ f ∷ [];
}

abbrev pub quoted : String → String → String
quoted stage rest = append_text "Stage '" (append_text stage (append_text "' " rest))

abbrev pub blocked_result : Blob
blocked_result = ("error", text "schema_blocked") ∷ ("skipped", flag true) ∷ []

-- A result with an error is a soft failure, unless it says that the fusion has delivered.
unfoldable pub is_soft_failure : Blob → Bool
is_soft_failure b = is_some (lookup "error" b) && not (has_delivered b)

-- After the function has returned there is one more heartbeat.
abbrev pub last_beat : Ending → List String
last_beat (returns _) = "stage complete" ∷ []
last_beat (raises _) = []

abbrev completed_text : String → String → Blob → String
completed_text duration stage b = append_text "completed (" (
    append_text duration (
      if str_eq stage "fusion" && is_true (lookup "enrichment_warning" b)
      then "ms) — optional aviation enrichment warning"
      else "ms)"))

module _ (patterns : Patterns) (minima : Minima) (strip lower : String → String)
    (stamp duration : String) where
  -- `record_degraded_stage`
  unfoldable pub note_degraded : Run → String → String → World → World
  note_degraded run stage error world = record world {
    runtime =
        record_degraded_stage
          (record {
            stage = stage;
            operation_id = run.operation_id;
            error = error;
            soft = true;
            time = stamp;
          })
          stamp world.runtime;
  }

  -- `_pipeline_status_for_heartbeat`
  unfoldable pub heartbeat_label : Run → String → String → String
  unfolding one_of live_status_label
  heartbeat_label run stage detail =
      let d = lower detail in
      let base = live_status_label run in
      if str_eq base "running_degraded"
      then base
      else if one_of stage ("fusion" ∷ "snapshots" ∷ [])
          || is_in "fusion" d
          || is_in "signal" d
          || is_in "snapshot" d
      then if is_in "persist" d || is_in "commit" d
        then "persisting"
        else if is_in "finaliz" d || is_in "kpi" d || is_in "lineage" d
        then "finalizing"
        else base
      else base

  -- The heartbeats of a stage's function.
  unfoldable pub heartbeats : String → ℕ → List String → Run × World → Run × World
  unfolding heartbeat_label report_run
  heartbeats stage progress [] (run, world) = (run, world)
  heartbeats stage progress (detail ∷ details) (run, world) =
      let run' = record run { heartbeat_count = run.heartbeat_count + 1 } in
      let label = heartbeat_label run stage (take_text 120 detail) in
      heartbeats stage progress details (
        run',
        report_run strip stamp run' (beat_keys stamp progress run') stage progress label world,
      )

  abbrev error_of : Option Value → String
  error_of none = ""
  error_of (some v) = str_of patterns v

  -- The result is one object with that in `self.results`, so the classification shows there too.
  unfoldable pub degrade : String → Blob → Run → Run
  unfolding fail_stage classify_degraded add_event
  degrade stage b run =
      let error = error_of (lookup "error" b) in
      let classification = classify_degraded b in
      add_event stamp
        (quoted stage (
          append_text "degraded ("
            (append_text duration (append_text "ms): " (take_text 120 error)))))
        (fail_stage (failure_of stage error true (some classification))
          (insert "degraded_classification" (text classification) b) run)

  unfoldable pub succeed : String → Blob → Run → Run
  unfolding accumulate_kpis add_event insert is_true
  succeed stage b run =
      add_event stamp (quoted stage (completed_text duration stage b)) (record run {
        results = insert stage (blob b) run.results;
        last_successful_stage = stage;
        kpis = accumulate_kpis stage b run.kpis;
      })

  -- The run after the stage's function has ended.
  unfoldable pub settle : String → Ending → Run → Run
  unfolding degrade succeed fail_stage add_event is_soft_failure
  settle stage (returns b) run =
      if is_soft_failure b then degrade stage b run else succeed stage b run
  settle stage (raises e) run =
      add_event stamp (quoted stage (append_text "failed: " e))
        (fail_stage (failure_of stage e false none) (("error", text e) ∷ []) run)

  unfoldable pub settle_world : String → Ending → Run → World → World
  unfolding note_degraded is_soft_failure
  settle_world stage (returns b) run world =
      if is_soft_failure b
      then note_degraded run stage (error_of (lookup "error" b)) world
      else world
  settle_world stage (raises e) run world = world

  -- `_run_stage` for a stage that runs
  unfoldable pub run_function : Setting → String → ℕ → Run × World → Run × World
  unfolding heartbeats settle settle_world report_run add_event
  run_function s stage progress (run, world) =
      let begun = add_event stamp (quoted stage "started") run in
      let shown =
        report_run strip stamp begun (run_keys begun) stage progress (live_status_label begun)
          world in
      let (beaten, seen) = heartbeats stage progress s.beats (begun, shown) in
      let ended = settle stage s.ending beaten in
      let noted = settle_world stage s.ending ended seen in
      let (final, heard) = heartbeats stage progress (last_beat s.ending) (ended, noted) in
      (
        final,
        report_run strip stamp final (run_keys final) stage progress (live_status_label final)
            heard,
      )

  -- A stage that its schema blocks.
  unfoldable pub block_stage : String → Run × World → Run × World
  unfolding fail_stage add_event note_degraded
  block_stage stage (run, world) = (
    fail_stage (failure_of stage "schema_blocked" true none) blocked_result
        (add_event stamp (quoted stage "skipped — schema incomplete (blocked)") run),
    note_degraded run stage "schema_blocked" world,
  )

  -- A stage that is skipped for its upstream.
  unfoldable pub skip_stage : String → Blob → Run × World → Run × World
  unfolding fail_stage add_event note_degraded skip_message
  skip_stage stage payload (run, world) = (
    add_event stamp (skip_message stage)
        (fail_stage (failure_of stage (skip_message stage) true none) payload run),
    note_degraded run stage (skip_message stage) world,
  )

  -- `_run_stage` behind the two checks; `index` counts the stages from 1.
  unfoldable pub run_checked : Setting → String → ℕ → Option Blob → Run × World → Run × World
  unfolding skip_stage run_function
  run_checked s stage index (some payload) now = skip_stage stage payload now
  run_checked s stage index none now = run_function s stage (index * 100 / 12) now

  -- `_run_stage`; `none` is an exception of the contract's check, which ends the run.
  unfoldable pub run_stage : Setting → String → ℕ → Run × World → Option (Run × World)
  unfolding run_checked block_stage check_dependency_contract is_stage_blocked
  run_stage s stage index (run, world) =
      if is_stage_blocked stage world.runtime
      then some (block_stage stage (run, world))
      else if is_some s.broken
      then none
      else some
          (run_checked s stage index (check_dependency_contract minima s stage run) (run, world))

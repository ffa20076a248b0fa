-- ===== src/Reconcile/Consistency.antt =====
-- `validate_operational_consistency`, with which `reconcile_pipeline_events` reports what it leaves.
pub mod Quiet
use sky_trax_project.Prelude.{
  ℕ, String, Bool, true, false, not, ◌&&◌, ◌||◌, Option, List, [], ◌∷◌, ◌++◌, ltb, str_eq,
  if◌then◌else◌, one_of, Dict, lookup,
}
use sky_trax_project.Store.{Event}
use sky_trax_project.StageResults.{Results, blob_or_empty}
use sky_trax_project.Integrity.Kpis.{direct, inside}
use sky_trax_project.Reconcile.{Failure, Patterns, Schema, metric, fusion_signal_count, error_text}
use sky_trax_project.Reconcile.Steps.{Outcome, reconcile_pipeline_events}

-- An entry of `inconsistencies`, with the number that it quotes.
pub record Inconsistency : Type 0 where
  pub stage : String
  pub reason : String
  pub quoted : ℕ

pub record Consistency : Type 0 where
  pub inconsistencies : List Inconsistency
  pub signals : ℕ
  pub metadata : ℕ
  pub graph_nodes : ℕ
  pub aviation_schema_healthy : Bool

-- `any(e.get("stage") == stage for e in errors)`
unfoldable pub any_error : String → List Failure → Bool
any_error stage [] = false
any_error stage (e ∷ es) = str_eq e.stage stage || any_error stage es

abbrev pub entry_if : Bool → String → String → ℕ → List Inconsistency
entry_if true stage reason quoted = record { stage = stage; reason = reason; quoted = quoted } ∷ []
entry_if false stage reason quoted = []

-- `str(results.get(stage, {}).get("error", ""))`
unfoldable pub stage_error : Patterns → String → Results → String
stage_error patterns stage results = error_text patterns (blob_or_empty (lookup stage results))

unfoldable pub validate_operational_consistency :
    Patterns → Schema → Dict ℕ → Results → List Failure → List String → Consistency
validate_operational_consistency patterns schema kpis results errors failed_stages =
    let signals = fusion_signal_count kpis results in
    let metadata =
      metric kpis results "metadata" "metadata"
        (inside "metadata" "metadata_total" ∷ direct "metadata_total" ∷ []) in
    let graph_nodes =
      metric kpis results "graph_nodes" "knowledge_graph"
        (inside "knowledge_graph" "total_nodes" ∷ direct "total_nodes" ∷ []) in
    let aviation_ok = schema.canonical_aviation_valid && not schema.aviation_semantic_drift in
    record {
      inconsistencies =
          entry_if
            (ltb 0 signals
              && (one_of "fusion" failed_stages
                  || patterns.signals_unavailable (stage_error patterns "fusion" results)
                  || any_error "fusion" errors))
            "fusion" "signals_positive_but_marked_unavailable" signals
          ++ (entry_if
                (aviation_ok
                  && patterns.iata_missing (stage_error patterns "aviation_master" results))
                "aviation_master" "aviation_healthy_but_iata_missing_reported" 0
              ++ (entry_if (ltb 0 graph_nodes && one_of "knowledge_graph" failed_stages)
                    "knowledge_graph" "graph_populated_but_stage_failed" graph_nodes
                  ++ entry_if (ltb 0 metadata && one_of "metadata" failed_stages) "metadata"
                      "metadata_populated_but_stage_failed" metadata));
      signals = signals;
      metadata = metadata;
      graph_nodes = graph_nodes;
      aviation_schema_healthy = aviation_ok;
    }

-- `operational_consistency` of the result of `reconcile_pipeline_events`.
unfoldable pub operational_consistency : Patterns → Schema → Dict ℕ → Outcome → Consistency
operational_consistency patterns schema kpis outcome =
    validate_operational_consistency patterns schema kpis outcome.results outcome.errors
      outcome.failed_stages

-- A stage is named by an entry.
unfoldable pub is_inconsistent : String → List Inconsistency → Bool
is_inconsistent stage [] = false
is_inconsistent stage (i ∷ rest) = str_eq i.stage stage || is_inconsistent stage rest

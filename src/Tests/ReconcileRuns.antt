-- ===== src/Tests/ReconcileRuns.antt =====
-- The counts, the KPIs and the reconciliation of a run on small inputs.
use sky_trax_project.Prelude.{
  ◌↔◌, ◌⊎◌, ℕ, ◌≡◌, ◌≢◌, refl, String, true, false, none, some, List, [], ◌∷◌, arith, one_of,
  str_eq, eq_iff, Dict, lookup,
}
use sky_trax_project.Store.{Event}
use sky_trax_project.StageResults.{number, text, flag, blob, Results, metric_of, is_true}
use sky_trax_project.Integrity.{
  rows, unreadable, Counts, count_of, merge_upstream_counts, Minima, GraphRuntime,
  validate_upstream, kpi_of, at_least_zero,
}
use sky_trax_project.Integrity.Upstream.{merged_is_greatest, fusion_ready_iff_enough}
use sky_trax_project.Integrity.Kpis.{kpi_to_count, live_of, reconcile_integrity_metrics}
use sky_trax_project.Integrity.Kpis.Merging.{Exact, merged_counts_are_greatest}
use sky_trax_project.Reconcile.{
  fusion_signal_count, metric, Failure, Patterns, Schema, derive_failed_stages, first_error,
  should_reconcile_aviation, error_text, should_reconcile_fusion, mark_reconciled_stage,
  drop_stage_failures,
}
use sky_trax_project.Reconcile.Failed.{IsNamed, HasUnresolved, failed_iff_cause}
use sky_trax_project.Reconcile.Steps.{
  reconcile_pipeline_events, reconcile_stages, reconcile_metadata, close_if, reconcile_graph,
  reconcile_fusion, fusion_error, reconcile_aviation_result, mark_aviation_if, reconcile_aviation,
}
use sky_trax_project.Reconcile.Consistency.{
  validate_operational_consistency, operational_consistency, is_inconsistent, any_error,
  stage_error,
}
use sky_trax_project.Reconcile.Consistency.Quiet.{reconciled_is_consistent}
use sky_trax_project.Reconcile.Live.{Payload, reconcile_live_status_payload}
use sky_trax_project.Reconcile.Live.Contradictions.{
  has_result_error, aviation_is_reconciled_and_failed, skipped_stages_vanish,
}

-- A database whose reviews and forecasts cannot be counted, and an empty graph.
abbrev counts : Counts
counts =
    ("reviews", unreadable)
    ∷ ("review_intelligence", rows 7)
    ∷ ("graph_nodes", rows 0)
    ∷ ("forecast_snapshots", unreadable)
    ∷ []

abbrev kpis : Dict ℕ
kpis = ("reviews", 9) ∷ ("signals", 4) ∷ []

abbrev results : Results
results =
    ("knowledge_graph", blob (("total_nodes", number 5) ∷ ("total_edges", number 3) ∷ [])) ∷ []

abbrev minima : Minima
minima = record { min_graph_nodes = 1; min_metadata = 1; min_reviews = 1 }

abbrev tables : GraphRuntime
tables = record { node_count = 2; edge_count = 2 }

merged_is_greatest_example :
    (count_of (merge_upstream_counts counts results kpis) "graph_nodes" ≡ rows 5)
    × (count_of (merge_upstream_counts counts results kpis) "graph_edges" ≡ rows 3)
    × (count_of (merge_upstream_counts counts results kpis) "review_intelligence" ≡ rows 7)
    × (count_of (merge_upstream_counts counts results kpis) "reviews" ≡ rows 9)
    × (count_of (merge_upstream_counts counts results kpis) "forecast_snapshots" ≡ unreadable)
unfolding metric_of count_of kpi_of at_least_zero
merged_is_greatest_example = merged_is_greatest counts results kpis

fusion_ready_iff_enough_example :
    ((validate_upstream minima tables results counts kpis).ready ≡ true)
    × ((validate_upstream minima tables results counts kpis).false_empty ≡ false)
unfolding metric_of count_of kpi_of at_least_zero
fusion_ready_iff_enough_example = fusion_ready_iff_enough minima tables results counts kpis

merged_counts_are_greatest_example :
    Exact
      (live_of kpis results)
      counts
      (reconcile_integrity_metrics counts kpis results).merge.counts
      kpi_to_count
    × ((reconcile_integrity_metrics counts kpis results).integrity_consistent ≡ true)
merged_counts_are_greatest_example = merged_counts_are_greatest counts kpis results

-- Searches that each find one text.
abbrev patterns : Patterns
patterns = record {
  iata_missing = str_eq "no iata_code";
  signals_unavailable = str_eq "no signals";
  upstream_empty = str_eq "upstream empty";
  enrichment = str_eq "enrichment timeout";
  show = λ v. "value";
}

abbrev healthy : Schema
healthy = record {
  canonical_aviation_valid = true;
  aviation_semantic_drift = false;
  runtime_schema_consistent = true;
}

abbrev fails : String → String → Failure
fails s e = record { stage = s; error = e; soft = true; classification = none }

abbrev torn : Results
torn =
    ("fusion", blob (("skipped", flag true) ∷ ("dependency_contract_failed", flag true) ∷ []))
    ∷ ("aviation_master", blob (("error", text "no iata_code") ∷ []))
    ∷ []

abbrev torn_errors : List Failure
torn_errors = fails "aviation_master" "timeout" ∷ fails "fusion" "upstream empty" ∷ []

abbrev timeline : List Event
timeline =
    record { time = "t1"; message = "Pipeline started"; event_operation = some "a" }
    ∷ record { time = "t0"; message = "Pipeline started"; event_operation = some "b" }
    ∷ record { time = "t2"; message = "Stage 'fusion' degraded (3ms)"; event_operation = none }
    ∷ []

not_empty : ◌≢◌ {A = String} "a" ""
not_empty e = cc ((eq_iff "a" "").1 e)

failed_iff_cause_example :
    (one_of "aviation_master" (derive_failed_stages torn_errors torn) ≡ true)
    ↔ (IsNamed "aviation_master" torn_errors ⊎ HasUnresolved "aviation_master" torn)
unfolding lookup
failed_iff_cause_example = failed_iff_cause "aviation_master" torn_errors torn (refl, (refl, tt))

fusion_reconciled :
    one_of "fusion"
      (reconcile_pipeline_events patterns healthy kpis "a" "t3" torn_errors torn
        timeline).reconciled_stages
    ≡ true
unfolding reconcile_pipeline_events one_of is_true reconcile_stages reconcile_metadata close_if
    first_error reconcile_graph reconcile_fusion should_reconcile_fusion fusion_error
    reconcile_aviation_result mark_aviation_if should_reconcile_aviation error_text
    reconcile_aviation mark_reconciled_stage drop_stage_failures
fusion_reconciled = refl

reconciled_is_consistent_example :
    is_inconsistent "fusion"
      (operational_consistency patterns healthy kpis (
        reconcile_pipeline_events patterns healthy kpis "a" "t3" torn_errors torn
          timeline)).inconsistencies
    ≡ false
unfolding lookup
reconciled_is_consistent_example =
    reconciled_is_consistent patterns healthy kpis "a" "t3" "fusion" torn_errors torn timeline refl
      refl (refl, (refl, tt)) fusion_reconciled

-- Before the reconciliation, the fusion's four signals contradict its error.
fusion_inconsistent :
    is_inconsistent "fusion"
      (validate_operational_consistency patterns healthy kpis torn torn_errors []).inconsistencies
    ≡ true
unfolding validate_operational_consistency is_inconsistent any_error stage_error fusion_signal_count
    metric lookup error_text one_of
fusion_inconsistent = refl

aviation_is_reconciled_and_failed_example :
    (one_of "aviation_master"
        (reconcile_pipeline_events patterns healthy kpis "a" "t3" torn_errors torn
          timeline).reconciled_stages
      ≡ true)
    × (one_of "aviation_master"
          (reconcile_pipeline_events patterns healthy kpis "a" "t3" torn_errors torn
            timeline).failed_stages
        ≡ true)
unfolding lookup first_error should_reconcile_aviation error_text
aviation_is_reconciled_and_failed_example =
    aviation_is_reconciled_and_failed patterns healthy kpis "a" "t3" "timeout" torn_errors torn
      timeline (("error", text "no iata_code") ∷ []) (refl, (refl, tt)) refl refl refl refl

-- A degraded run whose fusion was skipped for its upstream.
abbrev skipped_run : Payload
skipped_run = record {
  stage = "completed_degraded";
  operation_id = "a";
  kpis = [];
  stage_results = ("fusion", blob (("skipped", flag true) ∷ [])) ∷ [];
  events = [];
  failed_stages = "fusion" ∷ [];
  pipeline_status = some "completed_degraded";
  reconciled_stages = [];
  reconciliation_status = none;
}

no_result_errors : (s : String) → has_result_error (lookup s skipped_run.stage_results) ≡ false
unfolding lookup is_true
no_result_errors s = ground arith

skipped_stages_vanish_example :
    ((reconcile_live_status_payload patterns healthy "t3" skipped_run).failed_stages ≡ [])
    × ((reconcile_live_status_payload patterns healthy "t3" skipped_run).stage ≡ "completed")
    × ((reconcile_live_status_payload patterns healthy "t3" skipped_run).pipeline_status
        ≡ some "completed")
unfolding lookup
skipped_stages_vanish_example =
    skipped_stages_vanish patterns healthy "t3" skipped_run (refl, tt) no_result_errors refl

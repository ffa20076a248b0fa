-- ===== src/Integrity/Kpis.antt =====
-- `reconcile_integrity_metrics` of analytics/pipeline_integrity.py: the counts of the tables merged
-- with the KPIs of the running pipeline. Percentages and the time of the lineage are left out.
pub mod Merging
use sky_trax_project.Prelude.{
  ℕ, max, String, Bool, true, false, not, ◌&&◌, ◌||◌, Option, none, some, List, [], ◌∷◌, ltb, ◌==◌,
  if◌then◌else◌, or_default, is_some, Dict, lookup, insert,
}
use sky_trax_project.StageResults.{Value, group, Blob, Results, blob_of, positive}
use sky_trax_project.Integrity.{Count, rows, unreadable, Counts, at_least_zero}

-- A key of `_stage_metric`, with or without a dot.
pub data Key : Type 0 where
  direct : String → Key
  inside : String → String → Key

abbrev number_in : Option Value → String → ℕ
number_in (some (group d)) k = or_default (lookup k d) 0
number_in _ k = 0

unfoldable pub number_at : Blob → Key → ℕ
unfolding lookup positive
number_at b (direct k) = positive (lookup k b)
number_at b (inside outer k) = number_in (lookup outer b) k

-- The first number of the keys that is not 0.
unfoldable pub first_number : Blob → List Key → ℕ
unfolding number_at
first_number b [] = 0
first_number b (k ∷ ks) =
    let rest = first_number b ks in if number_at b k == 0 then rest else number_at b k

-- `_stage_metric`
unfoldable pub stage_metric : Results → String → List Key → ℕ
unfolding blob_of lookup first_number
stage_metric results stage ks = elim (blob_of (lookup stage results)) [
  | none ↦ 0
  | some b ↦ first_number b ks
]

-- `live_kpis_from_stage_results`
unfoldable pub live_kpis_from_stage_results : Results → Dict ℕ
unfolding stage_metric
live_kpis_from_stage_results r =
    ("reviews", stage_metric r "crawl" (direct "total_reviews_in_db" ∷ direct "reviews_total" ∷ []))
    ∷ (
      "metadata",
      stage_metric r "metadata" (direct "metadata_total" ∷ direct "reviews_analyzed" ∷ []),
    )
    ∷ ("graph_nodes", stage_metric r "knowledge_graph" (direct "total_nodes" ∷ []))
    ∷ ("graph_edges", stage_metric r "knowledge_graph" (direct "total_edges" ∷ []))
    ∷ (
      "signals",
      stage_metric r "fusion"
          (inside "fusion" "signals_generated" ∷ direct "signals_generated" ∷ []),
    )
    ∷ ("anomalies", stage_metric r "anomalies" (direct "anomalies_created" ∷ []))
    ∷ ("clusters", stage_metric r "semantic" (direct "clusters_created" ∷ []))
    ∷ (
      "snapshots",
      stage_metric r "snapshots" (direct "snapshots_created" ∷ direct "metric_snapshots" ∷ []),
    )
    ∷ []

-- `_positive_int({**stage_live, **live_kpis}.get(k))`
unfoldable pub live_of : Dict ℕ → Results → String → ℕ
unfolding lookup live_kpis_from_stage_results
live_of kpis results k =
    or_default (lookup k kpis) (or_default (lookup k (live_kpis_from_stage_results results)) 0)

-- `_KPI_TO_COUNT`
abbrev pub kpi_to_count : List (String × String)
kpi_to_count =
    ("reviews", "reviews")
    ∷ ("metadata", "review_intelligence")
    ∷ ("graph_nodes", "graph_nodes")
    ∷ ("graph_edges", "graph_edges")
    ∷ ("signals", "fusion_signals")
    ∷ ("anomalies", "anomaly_events")
    ∷ ("clusters", "semantic_clusters")
    ∷ ("forecasts", "forecast_snapshots")
    ∷ ("insights", "executive_insights")
    ∷ ("snapshots", "metric_snapshots")
    ∷ []

-- The count in the database, where a missing one is a failed one and both are 0.
unfoldable pub db_of : String → Counts → ℕ
unfolding lookup at_least_zero
db_of c counts = at_least_zero (or_default (lookup c counts) unreadable)

pub data Source : Type 0 where
  postgres_and_runtime postgres runtime empty : Source

abbrev source_of : ℕ → ℕ → Source
source_of db live =
    if ltb db live
    then postgres_and_runtime
    else if ltb 0 db
    then postgres
    else if ltb 0 live
    then runtime
    else empty

pub record Line : Type 0 where
  pub metric : String
  pub source : Source
  pub from_db : ℕ
  pub from_run : ℕ
  pub authoritative : ℕ

pub record Merge : Type 0 where
  pub counts : Counts
  pub reconciled_fields : List String
  pub impossible_states : List String
  pub lineage : List Line

module _ (live : String → ℕ) where
  -- One round of the loop.
  unfoldable pub merge_metric : String → String → Merge → Merge
  merge_metric kpi c m =
      let db = db_of c m.counts in
      let merged = max db (live kpi) in
      record {
        counts = insert c (rows merged) m.counts;
        reconciled_fields =
            if ltb db (live kpi) then c ∷ m.reconciled_fields else m.reconciled_fields;
        impossible_states =
            if ltb 0 (live kpi) && db == 0 then c ∷ m.impossible_states else m.impossible_states;
        lineage =
            record {
              metric = c;
              source = source_of db (live kpi);
              from_db = db;
              from_run = live kpi;
              authoritative = merged;
            }
            ∷ m.lineage;
      }

  -- The loop; the three lists are in the reverse of the source's order.
  unfoldable pub merge_metrics : List (String × String) → Merge → Merge
  merge_metrics [] m = m
  merge_metrics ((kpi, c) ∷ ps) m = merge_metrics ps (merge_metric kpi c m)

abbrev pub is_nil : {A : Type 0} → List A → Bool
is_nil [] = true
is_nil (_ ∷ _) = false

pub record Reconciled : Type 0 where
  pub merge : Merge
  pub integrity_reconciled : Bool
  pub integrity_consistent : Bool

-- `reconcile_integrity_metrics`
unfoldable pub reconcile_integrity_metrics : Counts → Dict ℕ → Results → Reconciled
reconcile_integrity_metrics table_counts kpis results =
    let m = merge_metrics (live_of kpis results) kpi_to_count (record {
      counts = table_counts;
      reconciled_fields = [];
      impossible_states = [];
      lineage = [];
    }) in
    record {
      merge = m;
      integrity_reconciled = not (is_nil m.reconciled_fields);
      integrity_consistent = is_nil m.impossible_states || not (is_nil m.reconciled_fields);
    }

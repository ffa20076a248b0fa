-- ===== src/Integrity.antt =====
-- analytics/pipeline_integrity.py, analytics/pipeline_lineage.py and
-- analytics/semantic_correlation_upstream.py: the counts of the tables, the contract of each stage
-- with its upstream, and the check before the fusion. The queries are not modelled: their counts
-- are given.
pub mod Upstream
pub mod Kpis
use sky_trax_project.Prelude.{
  ℕ, max, String, Bool, true, false, not, ◌&&◌, ◌||◌, Option, none, some, List, [], ◌∷◌, ◌++◌, ltb,
  leb, ◌==◌, str_eq, if◌then◌else◌, or_default, Dict, lookup, insert,
}
use sky_trax_project.StageResults.{Results, Blob, blob_of, positive, metric_of}

-- The answer of a count query; `unreadable` is -1, a query that failed.
pub data Count : Type 0 where
  rows : ℕ → Count
  unreadable : Count

abbrev pub Counts : Type 0
Counts = Dict Count

-- `counts.get(k, 0)`
unfoldable pub count_of : Counts → String → Count
unfolding lookup
count_of counts k = or_default (lookup k counts) (rows 0)

-- `max(c, 0)`
unfoldable pub at_least_zero : Count → ℕ
at_least_zero (rows n) = n
at_least_zero unreadable = 0

-- `max(c, n)`, for an `n` that is not negative
unfoldable pub max_count : Count → ℕ → Count
max_count (rows m) n = rows (max m n)
max_count unreadable n = rows n

abbrev pub is_unreadable : Count → Bool
is_unreadable (rows _) = false
is_unreadable unreadable = true

-- DEPENDENCY_CONTRACTS: the `required_upstream` of each stage in STAGE_LINEAGE
abbrev pub dependency_contracts : Dict (Dict ℕ)
dependency_contracts =
    ("metadata", ("reviews", 1) ∷ [])
    ∷ ("semantic", ("reviews", 1) ∷ [])
    ∷ ("knowledge_graph", ("metadata_records", 1) ∷ [])
    ∷ ("forecasting", ("reviews", 1) ∷ [])
    ∷ ("anomalies", ("reviews", 1) ∷ ("forecasts", 1) ∷ [])
    ∷ ("insights", ("reviews", 1) ∷ [])
    ∷ ("fusion", ("reviews", 1) ∷ ("graph_nodes", 1) ∷ [])
    ∷ ("snapshots", ("reviews", 1) ∷ [])
    ∷ []

-- The table behind a key of a contract: `mapping`
unfoldable pub table_of : String → String
table_of key =
    if str_eq key "metadata_records"
    then "review_intelligence"
    else if str_eq key "forecasts"
    then "forecast_snapshots"
    else key

pub data ContractFailure : Type 0 where
  table_unreadable : String → ContractFailure
  too_few : String → ℕ → ℕ → ContractFailure

unfoldable pub requirement_failures : String → ℕ → Count → List ContractFailure
requirement_failures key minimum unreadable = table_unreadable key ∷ []
requirement_failures key minimum (rows n) = if ltb n minimum then too_few key minimum n ∷ [] else []

unfoldable pub contract_failures : Dict ℕ → Counts → List ContractFailure
contract_failures [] counts = []
contract_failures ((key, minimum) ∷ contract) counts =
    requirement_failures key minimum (count_of counts (table_of key))
    ++ contract_failures contract counts

abbrev pub no_failures : {A : Type 0} → List A → Bool
no_failures [] = true
no_failures (_ ∷ _) = false

-- The failures of `check_stage_contract`; the stage is satisfied where there are none.
unfoldable pub check_stage_contract : String → Option Counts → List ContractFailure
check_stage_contract stage none = []
check_stage_contract stage (some counts) =
    contract_failures (or_default (lookup stage dependency_contracts) []) counts

-- `merged[key] = max(merged.get(key, 0), n)`
unfoldable pub raise_count : String → ℕ → Counts → Counts
raise_count key n counts = insert key (max_count (count_of counts key) n) counts

-- The counts that a stage's own result raises, where it is a dictionary.
unfoldable pub raise_by : Option Blob → String → String → Counts → Counts
raise_by none key field counts = counts
raise_by (some b) key field counts = raise_count key (positive (lookup field b)) counts

unfoldable pub kpi_of : Dict ℕ → String → ℕ
unfolding lookup
kpi_of kpis k = or_default (lookup k kpis) 0

-- `merge_upstream_counts`
unfoldable pub merge_upstream_counts : Counts → Results → Dict ℕ → Counts
merge_upstream_counts db results kpis =
    let graph = blob_of (lookup "knowledge_graph" results) in
    let meta = blob_of (lookup "metadata" results) in
    let crawl = blob_of (lookup "crawl" results) in
    let c₁ = raise_by graph "graph_nodes" "total_nodes" db in
    let c₂ = raise_by graph "graph_edges" "total_edges" c₁ in
    let c₃ = raise_by meta "review_intelligence" "metadata_total" c₂ in
    let c₄ = raise_by crawl "reviews" "total_reviews_in_db" c₃ in
    let c₅ = raise_count "graph_nodes" (kpi_of kpis "graph_nodes") c₄ in
    let c₆ = raise_count "graph_edges" (kpi_of kpis "graph_edges") c₅ in
    let c₇ = raise_count "review_intelligence" (kpi_of kpis "metadata") c₆ in
    let c₈ = raise_count "reviews" (kpi_of kpis "reviews") c₇ in
    raise_count "fusion_signals" (kpi_of kpis "signals") c₈

-- The environment's minima, at least one by default.
pub record Minima : Type 0 where
  pub min_graph_nodes : ℕ
  pub min_metadata : ℕ
  pub min_reviews : ℕ

pub data Blocker : Type 0 where
  no_reviews metadata_unreadable no_metadata no_graph_nodes : Blocker

unfoldable pub metadata_blockers : ℕ → Count → List Blocker
metadata_blockers minimum unreadable = metadata_unreadable ∷ []
metadata_blockers minimum (rows n) = if ltb n minimum then no_metadata ∷ [] else []

abbrev blocker_if : Bool → Blocker → List Blocker
blocker_if b x = if b then x ∷ [] else []

unfoldable pub without_graph : List Blocker → List Blocker
without_graph [] = []
without_graph (no_graph_nodes ∷ bs) = without_graph bs
without_graph (b ∷ bs) = b ∷ without_graph bs

pub record Validation : Type 0 where
  pub ready : Bool
  pub counts : Counts
  pub blockers : List Blocker
  pub failures : List ContractFailure
  pub false_empty : Bool
  pub runtime_reconciled : Bool

-- What `validate_graph_consistency` counts in the graph's tables.
pub record GraphRuntime : Type 0 where
  pub node_count : ℕ
  pub edge_count : ℕ

module _ (minima : Minima) (runtime : GraphRuntime) (results : Results) where
  unfoldable pub blockers_of : ℕ → Count → ℕ → List Blocker
  unfolding metadata_blockers
  blockers_of reviews metadata graph_nodes =
      blocker_if (ltb reviews minima.min_reviews) no_reviews
      ++ (metadata_blockers minima.min_metadata metadata
          ++ blocker_if (ltb graph_nodes minima.min_graph_nodes) no_graph_nodes)

  -- The guard against a false empty graph.
  unfoldable pub false_empty_of : List Blocker → ℕ → Bool
  unfolding metric_of
  false_empty_of blockers graph_nodes =
      not (no_failures blockers)
      && (leb minima.min_graph_nodes runtime.node_count
          || leb minima.min_graph_nodes (metric_of results "knowledge_graph" "total_nodes"))
      && ltb graph_nodes minima.min_graph_nodes

  -- `validate_semantic_correlation_upstream`, for the counts of the tables
  unfoldable pub validate_upstream : Counts → Dict ℕ → Validation
  validate_upstream db kpis =
      let merged = merge_upstream_counts db results kpis in
      let reviews = at_least_zero (count_of merged "reviews") in
      let metadata = count_of merged "review_intelligence" in
      let more_nodes = ltb (at_least_zero (count_of merged "graph_nodes")) runtime.node_count in
      let more_edges = ltb (at_least_zero (count_of merged "graph_edges")) runtime.edge_count in
      let c₁ =
        if more_nodes then insert "graph_nodes" (rows runtime.node_count) merged else merged in
      let c₂ = if more_edges then insert "graph_edges" (rows runtime.edge_count) c₁ else c₁ in
      let nodes = max (at_least_zero (count_of merged "graph_nodes")) runtime.node_count in
      let blockers = blockers_of reviews metadata nodes in
      let emptied = false_empty_of blockers nodes in
      let nodes' = if runtime.node_count == 0 then nodes else runtime.node_count in
      let c₃ = if emptied then insert "graph_nodes" (rows nodes') c₂ else c₂ in
      let left = if emptied then without_graph blockers else blockers in
      let failures = check_stage_contract "fusion" (some c₃) in
      record {
        ready = no_failures left && no_failures failures;
        counts = c₃;
        blockers = left;
        failures = failures;
        false_empty = emptied;
        runtime_reconciled = more_nodes || more_edges;
      }

-- ===== src/Integrity/Upstream.antt =====
-- What the merged counts are, and what the check before the fusion answers.
use sky_trax_project.Prelude.{
  ℕ, max, ◌≡◌, refl, ◌≤◌, ◌↔◌, String, Bool, true, false, ◌&&◌, Option, none, some, List, [], ◌∷◌,
  ◌++◌, ltb, leb, str_eq, eq_iff, if◌then◌else◌, Dict, lookup, insert, lookup-insert, arith,
}
use sky_trax_project.StageResults.{Results, Blob, blob_of, positive, metric_of}
use sky_trax_project.Integrity.{
  Count, rows, unreadable, Counts, count_of, at_least_zero, max_count, table_of,
  requirement_failures, contract_failures, check_stage_contract, no_failures, raise_count, raise_by,
  kpi_of, merge_upstream_counts, Minima, GraphRuntime, blockers_of, false_empty_of,
  validate_upstream, ContractFailure,
}

-- A requirement of a contract: the table can be read and has the rows.
abbrev pub IsMet : String → ℕ → Counts → Type 0
IsMet key minimum counts = (n : ℕ) × (count_of counts (table_of key) ≡ rows n) × (minimum ≤ n)

abbrev pub AllMet : Dict ℕ → Counts → Type 0
AllMet [] counts = Unit
AllMet ((key, minimum) ∷ contract) counts = IsMet key minimum counts × AllMet contract counts

requirement_met :
    (key : String) (minimum : ℕ) (c : Count) (rest : List ContractFailure)
    → requirement_failures key minimum c ++ rest ≡ []
    → ((n : ℕ) × (c ≡ rows n) × (minimum ≤ n)) × (rest ≡ [])
unfolding requirement_failures
requirement_met key minimum unreadable rest h = absurd (ground arith)
requirement_met key minimum (rows n) rest h = ((n, refl, ground arith), ground arith)

requirement_passes :
    (key : String) (minimum n : ℕ) → minimum ≤ n → requirement_failures key minimum (rows n) ≡ []
unfolding requirement_failures
requirement_passes key minimum n h = ground arith

-- A contract has no failure exactly where each of its requirements is met: its table could be read
-- and has at least the rows that are required.
pub contract_met_iff :
    (contract : Dict ℕ) (counts : Counts)
    → (contract_failures contract counts ≡ []) ↔ AllMet contract counts
unfolding contract_failures
contract_met_iff [] counts = (λ h. tt, λ h. refl)
contract_met_iff ((key, minimum) ∷ contract) counts =
    let (sound, complete) = contract_met_iff contract counts in
    (
      λ h.
          let (met, rest) =
            requirement_met key minimum (count_of counts (table_of key))
              (contract_failures contract counts) h in
          (met, sound rest),
      λ (h : IsMet key minimum counts × AllMet contract counts).
          rw (h.0.1, requirement_passes key minimum h.0.0 h.0.2) (complete h.1),
    )

count_of-raise :
    (j k : String) (n : ℕ) (c : Counts)
    → count_of (raise_count k n c) j
      ≡ (if str_eq j k then max_count (count_of c k) n else count_of c j)
unfolding count_of raise_count
count_of-raise j k n c = rw (lookup-insert j k (max_count (count_of c k) n) c) (ground arith)

raised : (c : Count) (n : ℕ) → max_count c n ≡ rows (max (at_least_zero c) n)
unfolding max_count at_least_zero
raised (rows k) n = refl
raised unreadable n = ground arith

-- The number that a stage's result adds to a count.
abbrev own : Option Blob → String → ℕ
own none field = 0
own (some b) field = positive (lookup field b)

count_of-raise_by :
    (j key field : String) (b : Option Blob) (c : Counts)
    → at_least_zero (count_of (raise_by b key field c) j) ≡ (
        if str_eq j key
        then max (at_least_zero (count_of c key)) (own b field)
        else at_least_zero (count_of c j))
unfolding raise_by at_least_zero
count_of-raise_by j key field none c = ground (arith, eq_iff j key)
count_of-raise_by j key field (some b) c =
    rw
      (
        count_of-raise j key (positive (lookup field b)) c,
        raised (count_of c key) (positive (lookup field b)),
      )
      (ground arith)

own-metric :
    (results : Results) (stage field : String)
    → own (blob_of (lookup stage results)) field ≡ metric_of results stage field
unfolding metric_of
own-metric results stage field = by_blob (blob_of (lookup stage results))
  where
    by_blob :
        (b : Option Blob)
        → own b field ≡ elim b as (λ _. ℕ) [ none ↦ 0 | some b' ↦ positive (lookup field b') ]
    by_blob none = refl
    by_blob (some b) = refl

count_of-raise_other :
    (j key field : String) (b : Option Blob) (c : Counts)
    → str_eq j key ≡ false
    → count_of (raise_by b key field c) j ≡ count_of c j
unfolding raise_by
count_of-raise_other j key field none c other = refl
count_of-raise_other j key field (some b) c other =
    rw (count_of-raise j key (positive (lookup field b)) c, other) refl

untouched :
    (db : Counts) (results : Results) (kpis : Dict ℕ)
    → count_of (merge_upstream_counts db results kpis) "forecast_snapshots"
      ≡ count_of db "forecast_snapshots"
unfolding merge_upstream_counts
untouched db results kpis = simp (count_of-raise, count_of-raise_other)

-- The merged count of a table: the greatest of its own count, a stage's number and a KPI.
abbrev pub greatest : Count → ℕ → ℕ → Count
greatest db metric kpi = rows (max (max (at_least_zero db) metric) kpi)

-- The merged counts of the graph's nodes and edges, the metadata and the reviews are the greatest of
-- the count in the database, the number of the stage's own result in this run, and the KPI; where the
-- count failed it is taken as none, so that these counts are never unreadable. The count of the
-- forecasts, which the contracts of the later stages read too, is not merged: it stays what the
-- database gives, unreadable included.
pub merged_is_greatest :
    (db : Counts) (results : Results) (kpis : Dict ℕ)
    → (count_of (merge_upstream_counts db results kpis) "graph_nodes"
        ≡ greatest
            (count_of db "graph_nodes")
            (metric_of results "knowledge_graph" "total_nodes")
            (kpi_of kpis "graph_nodes"))
      × (count_of (merge_upstream_counts db results kpis) "graph_edges"
          ≡ greatest
              (count_of db "graph_edges")
              (metric_of results "knowledge_graph" "total_edges")
              (kpi_of kpis "graph_edges"))
      × (count_of (merge_upstream_counts db results kpis) "review_intelligence"
          ≡ greatest
              (count_of db "review_intelligence")
              (metric_of results "metadata" "metadata_total")
              (kpi_of kpis "metadata"))
      × (count_of (merge_upstream_counts db results kpis) "reviews"
          ≡ greatest
              (count_of db "reviews")
              (metric_of results "crawl" "total_reviews_in_db")
              (kpi_of kpis "reviews"))
      × (count_of (merge_upstream_counts db results kpis) "forecast_snapshots"
          ≡ count_of db "forecast_snapshots")
unfolding merge_upstream_counts
merged_is_greatest db results kpis = (
  simp (count_of-raise, raised, count_of-raise_by, own-metric),
  simp (count_of-raise, raised, count_of-raise_by, own-metric),
  simp (count_of-raise, raised, count_of-raise_by, own-metric),
  simp (count_of-raise, raised, count_of-raise_by, own-metric),
  untouched db results kpis,
)

count_of-insert :
    (j k : String) (v : Count) (c : Counts)
    → count_of (insert k v c) j ≡ (if str_eq j k then v else count_of c j)
unfolding count_of
count_of-insert j k v c = rw (lookup-insert j k v c) (ground arith)

fusion_contract :
    (c : Counts)
    → check_stage_contract "fusion" (some c)
      ≡ requirement_failures "reviews" 1 (count_of c "reviews")
        ++ (requirement_failures "graph_nodes" 1 (count_of c "graph_nodes") ++ [])
unfolding check_stage_contract contract_failures lookup table_of
fusion_contract c = refl

module _ (minima : Minima) (runtime : GraphRuntime) (results : Results) where
  guard_silent :
      (nodes : ℕ) (blockers : List _)
      → runtime.node_count ≤ nodes
      → metric_of results "knowledge_graph" "total_nodes" ≤ nodes
      → false_empty_of minima runtime results blockers nodes ≡ false
  unfolding false_empty_of
  guard_silent nodes blockers h k = ground arith

  -- The counts of the graph and of the reviews, after the graph's tables were counted again.
  recounted :
      (b c : Bool) (nodes edges reviews : ℕ) (merged : Counts)
      → count_of merged "reviews" ≡ rows reviews
      → count_of merged "graph_nodes" ≡ rows nodes
      → b ≡ ltb nodes runtime.node_count
      → let c₁ = if b then insert "graph_nodes" (rows runtime.node_count) merged else merged in
        let c₂ = if c then insert "graph_edges" (rows runtime.edge_count) c₁ else c₁ in
        (count_of c₂ "reviews" ≡ rows reviews)
        × (count_of c₂ "graph_nodes" ≡ rows (max nodes runtime.node_count))
  recounted true true nodes edges reviews merged h k e =
      (simp (count_of-insert, h), simp count_of-insert (ground arith))
  recounted true false nodes edges reviews merged h k e =
      (simp (count_of-insert, h), simp count_of-insert (ground arith))
  recounted false true nodes edges reviews merged h k e =
      (simp (count_of-insert, h), simp count_of-insert (ground arith))
  recounted false false nodes edges reviews merged h k e = (h, rw k (ground arith))

  -- The numbers that the check before the fusion is about.
  abbrev pub reviews_of : Counts → Dict ℕ → ℕ
  reviews_of db kpis =
      max
        (max (at_least_zero (count_of db "reviews"))
          (metric_of results "crawl" "total_reviews_in_db"))
        (kpi_of kpis "reviews")

  abbrev pub metadata_of : Counts → Dict ℕ → ℕ
  metadata_of db kpis =
      max
        (max (at_least_zero (count_of db "review_intelligence"))
          (metric_of results "metadata" "metadata_total"))
        (kpi_of kpis "metadata")

  abbrev pub graph_nodes_of : Counts → Dict ℕ → ℕ
  graph_nodes_of db kpis =
      max
        (max
          (max (at_least_zero (count_of db "graph_nodes"))
            (metric_of results "knowledge_graph" "total_nodes"))
          (kpi_of kpis "graph_nodes"))
        runtime.node_count

  -- The verdict on three numbers.
  abbrev pub is_enough : ℕ → ℕ → ℕ → Bool
  is_enough reviews metadata nodes =
      leb minima.min_reviews reviews
      && leb 1 reviews
      && leb minima.min_metadata metadata
      && leb minima.min_graph_nodes nodes
      && leb 1 nodes

  verdict :
      (reviews metadata nodes : ℕ) (c : Counts)
      → count_of c "reviews" ≡ rows reviews
      → count_of c "graph_nodes" ≡ rows nodes
      → (no_failures (blockers_of minima runtime results reviews (rows metadata) nodes)
          && no_failures (check_stage_contract "fusion" (some c)))
        ≡ is_enough reviews metadata nodes
  unfolding blockers_of requirement_failures
  verdict reviews metadata nodes c h k = rw (fusion_contract c, h, k) (ground arith)

  -- The check before the fusion is ready exactly where the reviews, the metadata and the graph's
  -- nodes reach their minima, and the reviews and nodes are not none, each counted as the greatest
  -- of what the database, this run's results and the KPIs say, and the nodes also by their tables.
  -- Its guard against a false empty graph never fires.
  pub fusion_ready_iff_enough :
      (db : Counts) (kpis : Dict ℕ)
      → ((validate_upstream minima runtime results db kpis).ready
          ≡ is_enough (reviews_of db kpis) (metadata_of db kpis) (graph_nodes_of db kpis))
        × ((validate_upstream minima runtime results db kpis).false_empty ≡ false)
  unfolding validate_upstream at_least_zero
  fusion_ready_iff_enough db kpis =
      let (nodes_eq, edges_eq, metadata_eq, reviews_eq, forecasts_eq) =
        merged_is_greatest db results kpis in
      let merged = merge_upstream_counts db results kpis in
      let nodes = graph_nodes_of db kpis in
      let silent : (false_empty_of minima runtime results
            (blockers_of minima runtime results (reviews_of db kpis) (rows (metadata_of db kpis))
              nodes)
            nodes)
          ≡ false =
        guard_silent nodes _ (omega arith) (omega arith) in
      let (again_reviews, again_nodes) =
        recounted _ (ltb (at_least_zero (count_of merged "graph_edges")) runtime.edge_count) _
          (at_least_zero (count_of merged "graph_edges")) (reviews_of db kpis) merged reviews_eq
          nodes_eq refl in
      rw (nodes_eq, metadata_eq, reviews_eq, silent)
        (verdict (reviews_of db kpis) (metadata_of db kpis) nodes _ again_reviews again_nodes, refl)

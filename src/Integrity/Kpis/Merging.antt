-- ===== src/Integrity/Kpis/Merging.antt =====
-- What the merge of counts and KPIs gives, and that its verdict on consistency is always yes.
use sky_trax_project.Prelude.{
  ℕ, max, ◌≡◌, refl, ◌≤◌, ◌∙◌, String, Bool, true, false, not, ◌||◌, List, [], ◌∷◌, str_eq, eq_iff,
  if◌then◌else◌, Dict, insert, lookup-insert, arith,
}
use sky_trax_project.StageResults.{Results}
use sky_trax_project.Integrity.{rows, Counts}
use sky_trax_project.Integrity.Kpis.{
  Merge, db_of, merge_metric, merge_metrics, kpi_to_count, live_of, is_nil,
  reconcile_integrity_metrics,
}

db_of-insert :
    (c k : String) (n : ℕ) (counts : Counts)
    → db_of c (insert k (rows n) counts) ≡ (if str_eq c k then n else db_of c counts)
unfolding db_of
db_of-insert c k n counts = rw (lookup-insert c k (rows n) counts) (ground (arith, eq_iff c k))

-- One of the pairs is for the table.
abbrev mentions : String → List (String × String) → Bool
mentions c [] = false
mentions c ((_, d) ∷ ps) = str_eq c d || mentions c ps

abbrev pub Distinct : List (String × String) → Type 0
Distinct [] = Unit
Distinct ((_, c) ∷ ps) = (mentions c ps ≡ false) × Distinct ps

module _ (live : String → ℕ) where
  -- The merge has each table of the pairs as the greater of its count and its KPI.
  abbrev pub Exact : Counts → Counts → List (String × String) → Type 0
  Exact before after [] = Unit
  Exact before after ((kpi, c) ∷ ps) =
      (db_of c after ≡ max (db_of c before) (live kpi)) × Exact before after ps

  merged_here :
      (kpi c : String) (m : Merge)
      → db_of c (merge_metric live kpi c m).counts ≡ max (db_of c m.counts) (live kpi)
  unfolding merge_metric
  merged_here kpi c m =
      db_of-insert c c (max (db_of c m.counts) (live kpi)) m.counts ∙ ground (arith, eq_iff c c)

  untouched :
      (c : String) (ps : List (String × String)) (m : Merge)
      → mentions c ps ≡ false
      → db_of c (merge_metrics live ps m).counts ≡ db_of c m.counts
  unfolding merge_metrics merge_metric
  untouched c [] m fresh = refl
  untouched c ((kpi, d) ∷ ps) m fresh =
      untouched c ps (merge_metric live kpi d m) (ground arith)
      ∙ (db_of-insert c d (max (db_of d m.counts) (live kpi)) m.counts ∙ ground arith)

  Exact-shift :
      (kpi c : String) (m : Merge) (after : Counts) (ps : List (String × String))
      → mentions c ps ≡ false
      → Exact (merge_metric live kpi c m).counts after ps
      → Exact m.counts after ps
  unfolding merge_metric
  Exact-shift kpi c m after [] fresh h = tt
  Exact-shift kpi c m after ((k, d) ∷ ps) fresh (h, rest) = (
    ground (
      arith,
      db_of-insert d c (max (db_of c m.counts) (live kpi)) m.counts,
      eq_iff c d,
      eq_iff d c,
    ),
    Exact-shift kpi c m after ps (ground arith) rest,
  )

  merge-Exact :
      (ps : List (String × String)) (m : Merge)
      → Distinct ps
      → Exact m.counts (merge_metrics live ps m).counts ps
  unfolding merge_metrics
  merge-Exact [] m h = tt
  merge-Exact ((kpi, c) ∷ ps) m (fresh, distinct) = (
    untouched c ps (merge_metric live kpi c m) fresh ∙ merged_here kpi c m,
    Exact-shift kpi c m _ ps fresh (merge-Exact ps (merge_metric live kpi c m) distinct),
  )

  -- The verdict on consistency.
  abbrev is_consistent : Merge → Bool
  is_consistent m = is_nil m.impossible_states || not (is_nil m.reconciled_fields)

  metric_consistent :
      (kpi c : String) (m : Merge)
      → is_consistent m ≡ true
      → is_consistent (merge_metric live kpi c m) ≡ true
  unfolding merge_metric
  metric_consistent kpi c m h = ground arith

  merge_consistent :
      (ps : List (String × String)) (m : Merge)
      → is_consistent m ≡ true
      → is_consistent (merge_metrics live ps m) ≡ true
  unfolding merge_metrics
  merge_consistent [] m h = h
  merge_consistent ((kpi, c) ∷ ps) m h =
      merge_consistent ps (merge_metric live kpi c m) (metric_consistent kpi c m h)

  -- No KPI is above the count of its table.
  abbrev Covered : Counts → List (String × String) → Type 0
  Covered counts [] = Unit
  Covered counts ((kpi, c) ∷ ps) = (live kpi ≤ db_of c counts) × Covered counts ps

  Exact-Covered :
      (before after : Counts) (ps : List (String × String))
      → Exact before after ps
      → Covered after ps
  Exact-Covered before after [] h = tt
  Exact-Covered before after ((kpi, c) ∷ ps) (h, rest) =
      (omega (arith, h), Exact-Covered before after ps rest)

  Covered-metric :
      (kpi c : String) (m : Merge) (ps : List (String × String))
      → live kpi ≤ db_of c m.counts
      → Covered m.counts ps
      → Covered (merge_metric live kpi c m).counts ps
  unfolding merge_metric
  Covered-metric kpi c m [] enough h = tt
  Covered-metric kpi c m ((k, d) ∷ ps) enough (h, rest) = (
    ground (arith, eq_iff d c, db_of-insert d c (max (db_of c m.counts) (live kpi)) m.counts),
    Covered-metric kpi c m ps enough rest,
  )

  covered_metric_silent :
      (kpi c : String) (m : Merge)
      → live kpi ≤ db_of c m.counts
      → ((merge_metric live kpi c m).reconciled_fields ≡ m.reconciled_fields)
        × ((merge_metric live kpi c m).impossible_states ≡ m.impossible_states)
  unfolding merge_metric
  covered_metric_silent kpi c m enough = ground arith

  Covered-silent :
      (ps : List (String × String)) (m : Merge)
      → Covered m.counts ps
      → ((merge_metrics live ps m).reconciled_fields ≡ m.reconciled_fields)
        × ((merge_metrics live ps m).impossible_states ≡ m.impossible_states)
  unfolding merge_metrics
  Covered-silent [] m h = (refl, refl)
  Covered-silent ((kpi, c) ∷ ps) m (enough, rest) =
      let (fields, states) =
        Covered-silent ps (merge_metric live kpi c m) (Covered-metric kpi c m ps enough rest) in
      let (same_fields, same_states) = covered_metric_silent kpi c m enough in
      (fields ∙ same_fields, states ∙ same_states)

Distinct-tables : Distinct kpi_to_count
Distinct-tables = ground arith

-- Every merged count is the greater of the count in the database and the KPI of the run, whatever
-- either says; and the verdict on consistency is yes for all inputs, also where a KPI stands against
-- an empty table, since each impossible state is also a reconciled field.
pub merged_counts_are_greatest :
    (counts : Counts) (kpis : Dict ℕ) (results : Results)
    → Exact
        (live_of kpis results)
        counts
        (reconcile_integrity_metrics counts kpis results).merge.counts
        kpi_to_count
      × ((reconcile_integrity_metrics counts kpis results).integrity_consistent ≡ true)
unfolding reconcile_integrity_metrics
merged_counts_are_greatest counts kpis results = (
  merge-Exact (live_of kpis results) kpi_to_count _ Distinct-tables,
  merge_consistent (live_of kpis results) kpi_to_count _ refl,
)

-- A second reconciliation of the merged counts with the same KPIs finds nothing to reconcile and no
-- impossible state.
pub reconciling_again_is_silent :
    (counts : Counts) (kpis : Dict ℕ) (results : Results)
    → let once = (reconcile_integrity_metrics counts kpis results).merge.counts in
      ((reconcile_integrity_metrics once kpis results).merge.reconciled_fields ≡ [])
      × ((reconcile_integrity_metrics once kpis results).merge.impossible_states ≡ [])
unfolding reconcile_integrity_metrics
reconciling_again_is_silent counts kpis results =
    let live = live_of kpis results in
    Covered-silent live kpi_to_count _
      (Exact-Covered live counts _ kpi_to_count (merged_counts_are_greatest counts kpis results).0)

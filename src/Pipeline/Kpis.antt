-- ===== src/Pipeline/Kpis.antt =====
-- What the merges of KPIs keep.
use sky_trax_project.Prelude.{
  ℕ, ◌≡◌, refl, ◌≤◌, String, none, some, List, [], ◌∷◌, ltb, str_eq, eq_iff, if◌then◌else◌, is_some,
  Dict, lookup, lookup-insert, NodupKeys, arith, Bool-cases, inl, inr, or_default, Option-cases,
}
use sky_trax_project.StageResults.{Blob, positive}
use sky_trax_project.Integrity.{kpi_of}
use sky_trax_project.Pipeline.{
  keep_kpi, merge_kpis, extract_kpis, accumulate_kpis, World, Run, Write, set_status,
}

-- The greater claim: a positive new value, or else the value that is there.
abbrev pub prefer : ℕ → ℕ → ℕ
prefer new old = if ltb 0 new then new else old

keep_kpi_lem :
    (j k : String) (v : ℕ) (kpis : Dict ℕ)
    → kpi_of (keep_kpi k v kpis) j
      ≡ (if str_eq j k then prefer v (kpi_of kpis k) else kpi_of kpis j)
unfolding keep_kpi kpi_of
keep_kpi_lem j k v kpis = elim (Option-cases (lookup k kpis)) [
  | inl absent ↦ ground (arith, lookup-insert j k v kpis, eq_iff j k)
  | inr (w, there) ↦ ground (arith, lookup-insert j k v kpis, eq_iff j k)
]

absent_kpi : (k : String) (kpis : Dict ℕ) → lookup k kpis ≡ none → kpi_of kpis k ≡ 0
unfolding kpi_of
absent_kpi k kpis h = rw h refl

kpi_of-nil : (k : String) → kpi_of [] k ≡ 0
unfolding kpi_of lookup
kpi_of-nil k = refl

kpi_of-cons :
    (k j : String) (v : ℕ) (kpis : Dict ℕ)
    → kpi_of ((j, v) ∷ kpis) k ≡ (if str_eq k j then v else kpi_of kpis k)
unfolding kpi_of lookup
kpi_of-cons k j v kpis = ground arith

-- After a merge each KPI has its new value where that is positive, and otherwise the one that was
-- there: neither a zero nor a missing key takes a KPI away.
pub merge_prefers_positive :
    (new old : Dict ℕ) (k : String)
    → NodupKeys new
    → kpi_of (merge_kpis new old) k ≡ prefer (kpi_of new k) (kpi_of old k)
unfolding merge_kpis
merge_prefers_positive [] old k distinct = rw (kpi_of-nil k) refl
merge_prefers_positive ((j, v) ∷ new) old k (fresh, distinct) =
    rw
      (
        merge_prefers_positive new (keep_kpi j v old) k distinct,
        keep_kpi_lem k j v old,
        kpi_of-cons k j v new,
      )
      (elim (Bool-cases (str_eq k j)) [
        | inl same ↦
            let e : k ≡ j = (eq_iff k j).0 same in rw (same, e, absent_kpi j new fresh) refl
        | inr other ↦ rw other refl
      ])

-- The KPIs that the status holds.
abbrev pub shown_kpis : World → Dict ℕ
shown_kpis world = or_default world.extra.kpis []

module _ (strip : String → String) (stamp : String) where
  -- A write of the status with the run's KPIs shows each KPI as the run's value where that is
  -- positive, and otherwise as the status had it: neither a zero nor a missing key takes a KPI away,
  -- as long as each write brings KPIs; a write without them drops them all.
  pub status_keeps_kpis :
      (run : Run) (wr : Write) (kpis : Dict ℕ) (world : World) (k : String)
      → NodupKeys kpis
      → (kpi_of (shown_kpis (set_status strip stamp run (record wr { kpis = some kpis }) world)) k
          ≡ prefer (kpi_of kpis k) (kpi_of (shown_kpis world) k))
        × (kpi_of (shown_kpis (set_status strip stamp run (record wr { kpis = none }) world)) k ≡ 0)
  unfolding set_status
  status_keeps_kpis run wr kpis world k distinct =
      (merge_prefers_positive kpis (shown_kpis world) k distinct, kpi_of-nil k)

-- A stage that succeeds never lowers a KPI of the run to 0.
extract_keeps :
    (ms : List (String × String)) (b : Blob) (kpis : Dict ℕ) (k : String)
    → 1 ≤ kpi_of kpis k
    → 1 ≤ kpi_of (extract_kpis ms b kpis) k
unfolding extract_kpis
extract_keeps [] b kpis k h = h
extract_keeps ((src, j) ∷ ms) b kpis k h =
    extract_keeps ms b _ k
      (ground (arith, keep_kpi_lem k j (positive (lookup src b)) kpis, eq_iff k j))

-- The result of a stage, whichever it is, never takes away a KPI that the run has: what was
-- positive stays positive.
pub run_keeps_kpis :
    (stage k : String) (b : Blob) (kpis : Dict ℕ)
    → 1 ≤ kpi_of kpis k
    → 1 ≤ kpi_of (accumulate_kpis stage b kpis) k
unfolding accumulate_kpis
run_keeps_kpis stage k b kpis h = elim (Bool-cases (is_some (lookup "error" b))) [
  | inl failed ↦ rw failed h
  | inr passed ↦ rw passed (extract_keeps _ b kpis k h)
]

-- ===== src/Runtime/Blocks.antt =====
-- app/runtime_state.py: the stages that an incomplete schema blocks. The tables of each group are those
-- of REQUIRED_TABLES in database/schema_health.py.
use sky_trax_project.Prelude.{
  ◌≡◌, refl, String, Bool, true, false, ◌||◌, ◌&&◌, List, [], ◌∷◌, ◌++◌, one_of, one_of-append,
  sorted_set, one_of-sorted_set, str_eq, arith, if◌then◌else◌,
}
use sky_trax_project.Runtime.{Runtime, load, merge_state}
use sky_trax_project.Runtime.Crashes.{load-merge}

-- A stage with the tables of its groups: STAGE_SCHEMA_DEPENDENCIES through REQUIRED_TABLES.
abbrev pub StageTables : Type 0
StageTables = String × List String

abbrev pub stage_dependencies : List StageTables
stage_dependencies =
    ("metadata", "review_intelligence" ∷ [])
    ∷ ("knowledge_graph", "graph_nodes" ∷ "graph_edges" ∷ "fusion_signals" ∷ [])
    ∷ ("forecasting", "forecast_snapshots" ∷ [])
    ∷ ("anomalies", "anomaly_events" ∷ [])
    ∷ ("semantic", "semantic_clusters" ∷ "executive_insights" ∷ [])
    ∷ []

-- One of the tables is missing.
unfoldable pub any_missing : List String → List String → Bool
unfolding one_of
any_missing missing [] = false
any_missing missing (t ∷ ts) = one_of t missing || any_missing missing ts

unfoldable pub blocked_of : List String → List StageTables → List String
unfolding any_missing
blocked_of missing [] = []
blocked_of missing ((stage, tables) ∷ ds) =
    let rest = blocked_of missing ds in if any_missing missing tables then stage ∷ rest else rest

-- `_compute_blocked_stages`
unfoldable pub compute_blocked_stages : List String → List String
unfolding blocked_of sorted_set
compute_blocked_stages missing = sorted_set (blocked_of missing stage_dependencies)

abbrev has_any : List String → Bool
has_any [] = false
has_any (_ ∷ _) = true

-- `set_schema_drift`, without its metric
unfoldable pub set_schema_drift : Bool → List String → List String → String → Runtime → Runtime
unfolding compute_blocked_stages merge_state sorted_set
set_schema_drift active missing semantic stamp r =
    let table_blocked = if active then compute_blocked_stages missing else [] in
    merge_state
      (λ s. record s {
        schema_drift = active || has_any semantic;
        missing_tables = missing;
        semantic_blocked_stages = semantic;
        blocked_stages = sorted_set (table_blocked ++ semantic);
      })
      stamp r

-- `is_stage_blocked`
unfoldable pub is_stage_blocked : String → Runtime → Bool
unfolding one_of
is_stage_blocked stage r =
    one_of stage (load r).blocked_stages || one_of stage (load r).semantic_blocked_stages

-- What the test of a stage should say: it depends on a missing table.
abbrev pub depends_on_missing : String → List String → List StageTables → Bool
depends_on_missing stage missing [] = false
depends_on_missing stage missing ((name, tables) ∷ ds) =
    str_eq stage name && any_missing missing tables || depends_on_missing stage missing ds

blocked_of_lem :
    (stage : String) (missing : List String) (ds : List StageTables)
    → one_of stage (blocked_of missing ds) ≡ depends_on_missing stage missing ds
unfolding one_of blocked_of
blocked_of_lem stage missing [] = refl
blocked_of_lem stage missing ((name, tables) ∷ ds) = ground (arith, blocked_of_lem stage missing ds)

table_blocked_lem :
    (stage : String) (active : Bool) (missing : List String)
    → one_of stage (if active then compute_blocked_stages missing else [])
      ≡ (active && depends_on_missing stage missing stage_dependencies)
unfolding compute_blocked_stages one_of
table_blocked_lem stage true missing =
    rw (one_of-sorted_set stage (blocked_of missing stage_dependencies))
      (blocked_of_lem stage missing stage_dependencies)
table_blocked_lem stage false missing = refl

-- After a report of the schema, whatever was reported before it and whether or not Redis can be
-- reached, a stage is blocked exactly where the schema has drifted and a table that the stage
-- depends on is missing, or where the report names the stage itself.
pub blocked_after_report :
    (stage : String) (active : Bool) (missing semantic : List String) (stamp : String) (r : Runtime)
    → is_stage_blocked stage (set_schema_drift active missing semantic stamp r)
      ≡ (active && depends_on_missing stage missing stage_dependencies || one_of stage semantic)
unfolding is_stage_blocked set_schema_drift
blocked_after_report stage active missing semantic stamp r =
    let tables = if active then compute_blocked_stages missing else [] in
    rw
      (
        load-merge _ stamp r,
        one_of-sorted_set stage (tables ++ semantic),
        one_of-append stage tables semantic,
        table_blocked_lem stage active missing,
      )
      (ground arith)

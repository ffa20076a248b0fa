-- ===== src/Tests/RepairRuns.antt =====
-- The version-table repair on a table in memory, and the forecasting with services that fail.
use Prim.Native.String.{count}
use sky_trax_project.Prelude.{
  ℕ, ◌≡◌, ◌≢◌, refl, String, true, false, Option, none, some, arith, ltb, if◌then◌else◌,
}
use sky_trax_project.Governor.Loop.{signalled}
use sky_trax_project.Alembic.{
  Engine, ensure_capacity, lacks_room, repair_revision_aliases, make_room,
  expand_version_num_column, apply_alias, inspect, target_varchar_length,
}
use sky_trax_project.Alembic.Capacity.{IsSql, ensure_capacity_safe}
use sky_trax_project.Alembic.Widths.{AtLeast, unbounded_column_gets_bound}
use sky_trax_project.Forecast.{raises, Services, Child, nothing_queued, fallback_safe}
use sky_trax_project.Forecast.Depth.{GivesUp, failing_fallback_exhausts_stack}

-- A version table with one row; a column without a length is unbounded.
record Table : Type 0 where
  width : Option ℕ
  revision : String

abbrev sqlite : Engine
sqlite = record {
  Db = Table;
  has_table = λ t. true;
  inspected_length = λ t. t.width;
  catalog_length = λ t. none;
  read_version = λ t. some t.revision;
  alter_length = λ n t. some (record t { width = some n });
  write_version = λ v t. some (record t { revision = v });
}

sqlite-IsSql : IsSql sqlite
sqlite-IsSql = record { altered = λ n db db' h. grind arith; written = λ v db db' h. grind arith }

-- The column that Alembic creates by default, with an orphan revision id.
abbrev narrow : Table
narrow = record { width = some 32; revision = "0010" }

abbrev unbounded : Table
unbounded = record { width = none; revision = "0010" }

alters : (n : ℕ) → sqlite.alter_length n narrow ≢ none
alters n h = grind arith

abbrev head_id : String
head_id = "0010_aviation_canonical_fields"

head_is_named : head_id ≢ ""
head_is_named h = cc h

-- The orphan id is repaired and the column has room.
narrow_repaired :
    (ensure_capacity sqlite 128 true (some head_id) narrow).1
    ≡ record { width = some 128; revision = head_id }
unfolding ensure_capacity repair_revision_aliases make_room expand_version_num_column apply_alias
narrow_repaired = refl

ensure_capacity_safe_example :
    ((ensure_capacity sqlite 128 true (some head_id) narrow).0.alembic_safe ≡ true)
    × (lacks_room sqlite 128
          (count head_id)
          (ensure_capacity sqlite 128 true (some head_id) narrow).1
        ≡ false)
ensure_capacity_safe_example =
    ensure_capacity_safe sqlite 128 sqlite-IsSql (some head_id) narrow refl alters

unbounded_column_gets_bound_example :
    ((inspect sqlite 128 unbounded).truncation_risk ≡ false)
    × AtLeast sqlite 128 sqlite-IsSql target_varchar_length
        (ensure_capacity sqlite 128 true (some head_id) unbounded).1
unbounded_column_gets_bound_example =
    unbounded_column_gets_bound sqlite 128 sqlite-IsSql head_id unbounded refl refl refl
      (λ n h. grind arith) (omega arith)

-- The services of a database that is down.
abbrev down : Services
down = record {
  attempt = λ n safe. raises "OperationalError";
  stack_error = "maximum recursion depth exceeded";
}

failing_fallback_exhausts_stack_example :
    GivesUp down
      (fallback_safe 1000 down "subprocess_timeout" false none 0)
      "maximum recursion depth exceeded"
      1000
failing_fallback_exhausts_stack_example =
    failing_fallback_exhausts_stack down 1000 0 "subprocess_timeout" false none
      (λ m above. ("OperationalError", refl)) (omega arith)

abbrev numeral : ℕ → String
numeral n = if ltb n 12 then "11" else "12"

-- A child that a segmentation fault ended.
abbrev segfault : Child
segfault = record { alive_after_timeout = false; exitcode = signalled 11; payload = nothing_queued }

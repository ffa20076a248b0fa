-- ===== src/Alembic.antt =====
-- database/alembic_version_repair.py: the width of `alembic_version.version_num` and the repair of
-- orphan revision ids, before migrations run. The database is an interface of the queries and
-- statements that the code sends.
pub mod Capacity
pub mod Widths
pub mod Chain
use Prim.Native.String.{count}
use sky_trax_project.Prelude.{
  ℕ, max, String, Bool, true, false, not, ◌&&◌, ◌||◌, Option, none, some, List, [], ◌∷◌, ◌++◌, ltb,
  leb, ◌==◌, or_default, is_some, filled, one_of, str_eq, if◌then◌else◌,
}

pub record Engine : Type 1 where
  pub Db : Type 0
  -- the table is among `inspector.get_table_names()`
  pub has_table : Db → Bool
  -- the length of the type that the inspector gives for `version_num`, if it gives one
  pub inspected_length : Db → Option ℕ
  -- the answer of information_schema, `none` also for an exception
  pub catalog_length : Db → Option ℕ
  -- SELECT version_num …, `none` also for an exception
  pub read_version : Db → Option String
  -- ALTER TABLE … TYPE VARCHAR(n) and UPDATE …, `none` for an exception
  pub alter_length : ℕ → Db → Option Db
  pub write_version : String → Db → Option Db

abbrev pub default_min_length : ℕ
default_min_length = 128

abbrev pub target_varchar_length : ℕ
target_varchar_length = 128

-- `REVISION_ALIASES`
unfoldable pub revision_alias : String → Option String
revision_alias s =
    if str_eq s "0010"
    then some "0010_aviation_canonical_fields"
    else if str_eq s "0009"
    then some "0009_knowledge_graph"
    else none

-- `_min_length_from_env`: `none` is a text that is no integer.
unfoldable pub min_length_from_env : Option ℕ → ℕ
min_length_from_env none = default_min_length
min_length_from_env (some n) = max 32 n

-- `len(s) if s else 0`
abbrev pub length_of : Option String → ℕ
length_of none = 0
length_of (some s) = count s

abbrev or_else : Option ℕ → Option ℕ → Option ℕ
or_else none b = b
or_else (some a) b = some a

abbrev pub is_below : Option ℕ → ℕ → Bool
is_below none limit = false
is_below (some n) limit = ltb n limit

-- `x or y` on numbers
abbrev pub or_number : ℕ → ℕ → ℕ
or_number a b = if a == 0 then b else a

pub record Info : Type 0 where
  pub exists : Bool
  pub version_num_length : ℕ
  pub truncation_risk : Bool
  pub current_revision : Option String
  pub current_revision_length : ℕ

pub data Expanded : Type 0 where
  table_missing already_sufficient expand_failed expanded : Expanded

abbrev pub is_expanded : Expanded → Bool
is_expanded expanded = true
is_expanded _ = false

pub data AliasResult : Type 0 where
  no_alias : AliasResult
  alias_failed alias_fixed : String → AliasResult

abbrev pub is_fixed : AliasResult → Bool
is_fixed (alias_fixed _) = true
is_fixed _ = false

pub data Action : Type 0 where
  version_num_expanded truncation_risk_unrepaired revision_alias_fixed : Action

pub record Ensured : Type 0 where
  pub info : Info
  pub alembic_safe : Bool
  pub actions : List Action

-- `minimum` is what `_min_length_from_env` gives.
module _ (engine : Engine) (minimum : ℕ) where
  open engine use {
    Db, has_table, inspected_length, catalog_length, read_version, alter_length, write_version,
  }

  abbrev pub column_length : Db → Option ℕ
  column_length db = or_else (inspected_length db) (catalog_length db)

  -- `inspect_alembic_version_table`
  unfoldable pub inspect : Db → Info
  inspect db =
      if has_table db
      then record {
        exists = true;
        version_num_length = or_default (column_length db) 0;
        truncation_risk = is_below (column_length db) minimum;
        current_revision = read_version db;
        current_revision_length = length_of (read_version db);
      }
      else record {
        exists = false;
        version_num_length = 0;
        truncation_risk = true;
        current_revision = none;
        current_revision_length = 0;
      }

  -- What the ALTER of `expand_version_num_column` leaves.
  abbrev pub altered : Option Db → Db → Expanded × Db
  altered none db = (expand_failed, db)
  altered (some db') db = (expanded, db')

  -- `expand_version_num_column`; the target 0 stands for none.
  unfoldable pub expand_version_num_column : ℕ → Db → Expanded × Db
  unfolding inspect
  expand_version_num_column target_length db =
      let target = or_number target_length minimum in
      let info = inspect db in
      if not info.exists
      then (table_missing, db)
      else if leb target info.version_num_length
      then (already_sufficient, db)
      else altered (alter_length target db) db

  abbrev pub written : String → Option Db → Db → AliasResult × Db
  written canonical none db = (alias_failed canonical, db)
  written canonical (some db') db = (alias_fixed canonical, db')

  -- The part of `repair_revision_aliases` for an orphan id.
  unfoldable pub apply_alias : String → Db → AliasResult × Db
  unfolding inspect expand_version_num_column
  apply_alias canonical db =
      let widened = (expand_version_num_column 0 db).1 in
      let ready =
        if ltb (or_number (inspect db).version_num_length 32) (count canonical)
        then widened
        else db in
      written canonical (write_version canonical ready) ready

  abbrev pub alias_of : Option String → Option String
  alias_of none = none
  alias_of (some s) = revision_alias s

  -- `repair_revision_aliases`
  unfoldable pub repair_revision_aliases : Db → AliasResult × Db
  unfolding inspect revision_alias
  repair_revision_aliases db = elim (alias_of (filled (inspect db).current_revision)) [
    | none ↦ (no_alias, db)
    | some canonical ↦ apply_alias canonical db
  ]

  -- The test that `ensure_alembic_version_capacity` makes twice.
  unfoldable pub lacks_room : ℕ → Db → Bool
  unfolding inspect
  lacks_room head_length db =
      (inspect db).truncation_risk
      || (ltb 0 head_length && ltb (inspect db).version_num_length head_length)

  abbrev action_if : Bool → Action → List Action
  action_if b a = if b then a ∷ [] else []

  -- The expansion of `ensure_alembic_version_capacity`, with the action that it notes.
  unfoldable pub make_room : Bool → ℕ → Db → List Action × Db
  unfolding lacks_room
  make_room auto_repair head_length db =
      let (result, db') =
        expand_version_num_column (max (max minimum head_length) target_varchar_length) db in
      if lacks_room head_length db
      then if auto_repair
        then (action_if (is_expanded result) version_num_expanded, db')
        else (truncation_risk_unrepaired ∷ [], db)
      else ([], db)

  -- `ensure_alembic_version_capacity`, for a head revision that is given or resolved. The table is
  -- inspected again only after an alias that was fixed.
  unfoldable pub ensure_capacity : Bool → Option String → Db → Ensured × Db
  ensure_capacity auto_repair head db =
      let (made, db₁) = make_room auto_repair (length_of head) db in
      let (alias, db₂) = repair_revision_aliases db₁ in
      let inspected = if is_fixed alias then db₂ else db₁ in
      (
        record {
          info = inspect inspected;
          alembic_safe = not (lacks_room (length_of head) inspected);
          actions = made ++ action_if (is_fixed alias) revision_alias_fixed;
        },
        db₂,
      )

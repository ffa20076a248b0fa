-- ===== src/Alembic/Chain.antt =====
-- `check_migration_chain`, and what it finds after a pre-flight that ended safe.
use Prim.Native.String.{count}
use sky_trax_project.Prelude.{
  ℕ, ◌≡◌, ◌≢◌, String, Bool, true, false, not, Option, none, some, List, [], ◌∷◌, ◌++◌, ltb,
  is_some, filled, one_of, arith, eq_iff, if◌then◌else◌,
}
use sky_trax_project.Alembic.{
  Engine, inspect, revision_alias, length_of, lacks_room, Ensured, ensure_capacity,
}
use sky_trax_project.Alembic.Capacity.{IsSql, safe_room}

pub data ChainError : Type 0 where
  head_revision_unresolved head_exceeds_capacity : ChainError
  orphan_revision unknown_revision chain_check_failed : String → ChainError

-- What the migration scripts say: there is no alembic.ini, the known revisions, or an exception.
pub data Scripts : Type 0 where
  no_ini : Scripts
  revisions : List String → Scripts
  scripts_failed : String → Scripts

unfoldable pub script_errors : Scripts → String → List ChainError
unfolding one_of
script_errors no_ini c = []
script_errors (revisions known) c = if one_of c known then [] else unknown_revision c ∷ []
script_errors (scripts_failed e) c = chain_check_failed e ∷ []

unfoldable pub revision_errors : Scripts → Option String → List ChainError
unfolding script_errors revision_alias
revision_errors scripts none = []
revision_errors scripts (some c) = elim (revision_alias c) [
  | some _ ↦ orphan_revision c ∷ []
  | none ↦ script_errors scripts c
]

abbrev error_if : Bool → ChainError → List ChainError
error_if b e = if b then e ∷ [] else []

abbrev is_empty : List ChainError → Bool
is_empty [] = true
is_empty (_ ∷ _) = false

-- The result is valid exactly where the list of errors is empty.
unfoldable pub check_migration_chain :
    (engine : Engine) → ℕ → Scripts → Option String → engine.Db → Bool × List ChainError
unfolding inspect revision_errors
check_migration_chain engine minimum scripts head db =
    let info = inspect engine minimum db in
    let unresolved = not (is_some (filled head)) in
    let errors =
      error_if unresolved head_revision_unresolved
      ++ (revision_errors scripts (filled info.current_revision)
          ++ error_if (ltb info.version_num_length (length_of head)) head_exceeds_capacity) in
    (is_empty errors, errors)

module _ (e : Engine) (minimum : ℕ) (sql : IsSql e) where
  room-chain_valid :
      (head c : String) (known : List String) (db : e.Db)
      → lacks_room e minimum (count head) db ≡ false
      → head ≢ ""
      → e.has_table db ≡ true
      → e.read_version db ≡ some c
      → c ≢ ""
      → revision_alias c ≡ none
      → one_of c known ≡ true
      → (check_migration_chain e minimum (revisions known) (some head) db).0 ≡ true
  unfolding check_migration_chain lacks_room
  room-chain_valid head c known db room named present current nonempty proper listed =
      ground (arith, eq_iff head "", eq_iff c "")

  -- After a pre-flight that ended safe, the check of the migration chain finds the chain valid, if
  -- the head revision is known and the stored revision is one of the scripts' and no orphan.
  pub safe_chain_valid :
      (auto_repair : Bool) (head c : String) (known : List String) (db after : e.Db)
      (report : Ensured)
      → ensure_capacity e minimum auto_repair (some head) db ≡ (report, after)
      → report.alembic_safe ≡ true
      → head ≢ ""
      → e.has_table after ≡ true
      → e.read_version after ≡ some c
      → c ≢ ""
      → revision_alias c ≡ none
      → one_of c known ≡ true
      → (check_migration_chain e minimum (revisions known) (some head) after).0 ≡ true
  safe_chain_valid auto_repair head c known db after report run safe named present current filled
        proper listed =
      let room : lacks_room e minimum (count head) after ≡ false =
        safe_room e minimum sql auto_repair head db after report run safe in
      room-chain_valid head c known after room named present current filled proper listed

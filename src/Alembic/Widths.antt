-- ===== src/Alembic/Widths.antt =====
-- What the pre-flight repair does to the width of the version column and to an orphan revision.
use Prim.Native.String.{count}
use sky_trax_project.Prelude.{
  ℕ, max, ◌≡◌, ◌≤◌, refl, String, Bool, true, false, Option, none, some, filled, arith, ltb, leb,
  ◌≢◌, ◌<◌, if◌then◌else◌, ◌∙◌, Bool-cases, inl, inr,
}
use sky_trax_project.Alembic.{
  Engine, altered, written, inspect, expand_version_num_column, AliasResult, no_alias, alias_of,
  apply_alias, repair_revision_aliases, lacks_room, make_room, ensure_capacity, length_of,
  target_varchar_length, or_number,
}
use sky_trax_project.Alembic.Capacity.{IsSql, Widened, same, wider, expand-Widened}

module _ (e : Engine) (minimum : ℕ) (sql : IsSql e) where
  -- The inspector reports a width of at least `n`.
  abbrev pub AtLeast : ℕ → e.Db → Type 0
  AtLeast n db = (m : ℕ) × (e.inspected_length db ≡ some m) × (n ≤ m)

  Widened-AtLeast :
      (n target : ℕ) (db db' : e.Db)
      → Widened e minimum sql target db db'
      → AtLeast n db
      → AtLeast n db'
  Widened-AtLeast n target db db' same h = h
  Widened-AtLeast n target db db' (wider table below table' length') (m, reported, above) =
      (target, length', ground arith)

  written-AtLeast :
      (n : ℕ) (canonical : String) (db : e.Db) (o : Option e.Db)
      → e.write_version canonical db ≡ o
      → AtLeast n db
      → AtLeast n (written e minimum canonical o db).1
  written-AtLeast n canonical db none h a = a
  written-AtLeast n canonical db (some db') h (m, reported, above) =
      (m, (sql.written canonical db db' h).1 ∙ reported, above)

  if-AtLeast :
      (n : ℕ) (b : Bool) (x y : e.Db) → AtLeast n x → AtLeast n y → AtLeast n (if b then x else y)
  if-AtLeast n true x y h k = h
  if-AtLeast n false x y h k = k

  alias-AtLeast :
      (n : ℕ) (canonical : String) (db : e.Db)
      → AtLeast n db
      → AtLeast n (apply_alias e minimum canonical db).1
  unfolding apply_alias
  alias-AtLeast n canonical db a =
      let test = ltb (or_number (inspect e minimum db).version_num_length 32) (count canonical) in
      let widened = (expand_version_num_column e minimum 0 db).1 in
      let wide = Widened-AtLeast n minimum db widened (expand-Widened e minimum sql 0 db) a in
      written-AtLeast n canonical (if test then widened else db) _ refl
        (if-AtLeast n test widened db wide a)

  repair-AtLeast :
      (n : ℕ) (db : e.Db) → AtLeast n db → AtLeast n (repair_revision_aliases e minimum db).1
  unfolding repair_revision_aliases
  repair-AtLeast n db a =
      by_alias (alias_of e minimum (filled (inspect e minimum db).current_revision))
    where
      by_alias :
          (x : Option String)
          → AtLeast n
              (elim x as (λ _. AliasResult × e.Db) [
                | none ↦ (no_alias, db)
                | some canonical ↦ apply_alias e minimum canonical db
              ]).1
      by_alias none = a
      by_alias (some canonical) = alias-AtLeast n canonical db a

  make_room-AtLeast :
      (n : ℕ) (auto_repair : Bool) (head : ℕ) (db : e.Db)
      → AtLeast n db
      → AtLeast n (make_room e minimum auto_repair head db).1
  unfolding make_room
  make_room-AtLeast n auto_repair head db a =
      let target = max (max minimum head) target_varchar_length in
      let wide =
        Widened-AtLeast n (or_number target minimum) db _ (expand-Widened e minimum sql target db)
          a in
      elim (Bool-cases (lacks_room e minimum head db)) [
        | inl lacking ↦ rw lacking (elim (Bool-cases auto_repair) [
          | inl repairing ↦ rw repairing wide
          | inr waiting ↦ rw waiting a
        ])
        | inr room ↦ rw room a
      ]

  -- The pre-flight never narrows a column whose width the inspector reports, with or without
  -- automatic repair, whatever head it prepares for and whichever statements fail.
  pub ensure_capacity_never_narrows :
      (n : ℕ) (auto_repair : Bool) (head : Option String) (db : e.Db)
      → e.inspected_length db ≡ some n
      → AtLeast n (ensure_capacity e minimum auto_repair head db).1
  unfolding ensure_capacity
  ensure_capacity_never_narrows n auto_repair head db reported =
      repair-AtLeast n _
        (make_room-AtLeast n auto_repair (length_of head) db (n, reported, omega arith))

  altered-AtLeast :
      (target : ℕ) (db : e.Db) (o : Option e.Db)
      → e.alter_length target db ≡ o
      → o ≢ none
      → AtLeast target (altered e minimum o db).1
  altered-AtLeast target db none h works = absurd (works refl)
  altered-AtLeast target db (some db') h works =
      (target, (sql.altered target db db' h).1, omega arith)

  expand_unbounded :
      (target : ℕ) (db : e.Db)
      → e.has_table db ≡ true
      → e.inspected_length db ≡ none
      → e.catalog_length db ≡ none
      → e.alter_length target db ≢ none
      → 0 < target
      → AtLeast target (expand_version_num_column e minimum target db).1
  unfolding expand_version_num_column
  expand_unbounded target db present uninspected unlisted works positive =
      let full : or_number target minimum ≡ target = ground arith in
      let short : leb target 0 ≡ false = ground arith in
      rw (present, full, uninspected, unlisted, short) (altered-AtLeast target db _ refl works)

  unbounded-lacks_room :
      (head : ℕ) (db : e.Db)
      → e.has_table db ≡ true
      → e.inspected_length db ≡ none
      → e.catalog_length db ≡ none
      → 0 < head
      → lacks_room e minimum head db ≡ true
  unfolding lacks_room
  unbounded-lacks_room head db present uninspected unlisted some_head = ground arith

  -- A version column of unbounded width, of which neither the inspector nor the catalogue gives a
  -- length, is given a bound by the repair, although no truncation threatened: with a known head
  -- revision and an ALTER that works it ends as a column of a fixed length of at least 128.
  pub unbounded_column_gets_bound :
      (head : String) (db : e.Db)
      → e.has_table db ≡ true
      → e.inspected_length db ≡ none
      → e.catalog_length db ≡ none
      → ((n : ℕ) → e.alter_length n db ≢ none)
      → 0 < count head
      → ((inspect e minimum db).truncation_risk ≡ false)
        × AtLeast target_varchar_length (ensure_capacity e minimum true (some head) db).1
  unfolding ensure_capacity make_room inspect
  unbounded_column_gets_bound head db present uninspected unlisted works some_head =
      let target = max (max minimum (count head)) target_varchar_length in
      let (m, reported, wide) =
        expand_unbounded target db present uninspected unlisted (works target) (omega arith) in
      let lacking : lacks_room e minimum (count head) db ≡ true =
        unbounded-lacks_room (count head) db present uninspected unlisted some_head in
      (ground arith, repair-AtLeast target_varchar_length _ (rw lacking (m, reported, omega arith)))

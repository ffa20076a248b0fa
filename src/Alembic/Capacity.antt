-- ===== src/Alembic/Capacity.antt =====
-- What the pre-flight repair guarantees of the version column.
use Prim.Native.String.{count}
use sky_trax_project.Prelude.{
  ℕ, max, ◌≡◌, ◌≢◌, ◌≤◌, ◌<◌, filled, refl, String, Bool, true, false, Option, none, some,
  or_default, arith, ltb, leb, if◌then◌else◌, Bool-cases, inl, inr,
}
use sky_trax_project.Alembic.{
  Engine, altered, written, length_of, column_length, inspect, expand_version_num_column,
  AliasResult, is_fixed, no_alias, alias_of, apply_alias, repair_revision_aliases, lacks_room,
  make_room, Ensured, ensure_capacity, target_varchar_length, or_number,
}

-- What the code relies on in the database: a statement that succeeds has its effect and no other.
pub record IsSql (e : Engine) : Type 0 where
  pub altered :
      (n : ℕ) (db db' : e.Db)
      → e.alter_length n db ≡ some db'
      → (e.has_table db' ≡ true) × (e.inspected_length db' ≡ some n)
  pub written :
      (v : String) (db db' : e.Db)
      → e.write_version v db ≡ some db'
      → (e.has_table db' ≡ e.has_table db)
        × (e.inspected_length db' ≡ e.inspected_length db)
        × (e.catalog_length db' ≡ e.catalog_length db)
        × (e.read_version db' ≡ some v)

module _ (e : Engine) (minimum : ℕ) (sql : IsSql e) where
  -- The two outcomes of an expansion: nothing, or an ALTER from below the target to the target.
  pub data Widened (target : ℕ) (db : e.Db) : e.Db → Type 0 where
    same : Widened target db db
    wider :
        {db' : e.Db}
        → e.has_table db ≡ true
        → or_default (column_length e minimum db) 0 ≤ target
        → e.has_table db' ≡ true
        → e.inspected_length db' ≡ some target
        → Widened target db db'

  altered-Widened :
      (target : ℕ) (db : e.Db) (o : Option e.Db)
      → e.alter_length target db ≡ o
      → e.has_table db ≡ true
      → or_default (column_length e minimum db) 0 ≤ target
      → Widened target db (altered e minimum o db).1
  altered-Widened target db none h table below = same
  altered-Widened target db (some db') h table below =
      let (table', length') = sql.altered target db db' h in wider table below table' length'

  pub expand-Widened :
      (t : ℕ) (db : e.Db)
      → Widened (or_number t minimum) db (expand_version_num_column e minimum t db).1
  unfolding expand_version_num_column
  expand-Widened t db = elim (Bool-cases (e.has_table db)) [
    | inr absent ↦ rw absent same
    | inl present ↦
        rw present
          (elim (Bool-cases
            (leb (or_number t minimum) (or_default (column_length e minimum db) 0))) [
              | inl enough ↦ rw enough same
              | inr short ↦
                  rw short (altered-Widened (or_number t minimum) db _ refl present (ground arith))
            ])
  ]

  -- A widening takes no room away, and a target that is large enough gives it.
  Widened-keeps_room :
      (target head : ℕ) (db db' : e.Db)
      → Widened target db db'
      → minimum ≤ target
      → lacks_room e minimum head db ≡ false
      → lacks_room e minimum head db' ≡ false
  unfolding lacks_room
  Widened-keeps_room target head db db' same large room = room
  Widened-keeps_room target head db db' (wider table below table' length') large room = ground arith

  written-keeps_room :
      (head : ℕ) (canonical : String) (db : e.Db) (o : Option e.Db)
      → e.write_version canonical db ≡ o
      → lacks_room e minimum head db ≡ false
      → lacks_room e minimum head (written e minimum canonical o db).1 ≡ false
  unfolding lacks_room
  written-keeps_room head canonical db none h room = room
  written-keeps_room head canonical db (some db') h room =
      ground (arith, sql.written canonical db db' h)

  if-keeps_room :
      (head : ℕ) (b : Bool) (x y : e.Db)
      → lacks_room e minimum head x ≡ false
      → lacks_room e minimum head y ≡ false
      → lacks_room e minimum head (if b then x else y) ≡ false
  if-keeps_room head true x y h k = h
  if-keeps_room head false x y h k = k

  picked_room :
      (head : ℕ) (b : Bool) (x y : e.Db)
      → lacks_room e minimum head (if b then x else y) ≡ false
      → (lacks_room e minimum head y ≡ false → lacks_room e minimum head x ≡ false)
      → lacks_room e minimum head x ≡ false
  picked_room head true x y h keeps = h
  picked_room head false x y h keeps = keeps h

  alias-keeps_room :
      (head : ℕ) (canonical : String) (db : e.Db)
      → lacks_room e minimum head db ≡ false
      → lacks_room e minimum head (apply_alias e minimum canonical db).1 ≡ false
  unfolding apply_alias
  alias-keeps_room head canonical db room =
      let test = ltb (or_number (inspect e minimum db).version_num_length 32) (count canonical) in
      let widened = (expand_version_num_column e minimum 0 db).1 in
      let wide =
        Widened-keeps_room minimum head db widened (expand-Widened 0 db) (omega arith) room in
      written-keeps_room head canonical (if test then widened else db) _ refl
        (if-keeps_room head test widened db wide room)

  repair-keeps_room :
      (head : ℕ) (db : e.Db)
      → lacks_room e minimum head db ≡ false
      → lacks_room e minimum head (repair_revision_aliases e minimum db).1 ≡ false
  unfolding repair_revision_aliases
  repair-keeps_room head db room =
      by_alias (alias_of e minimum (filled (inspect e minimum db).current_revision))
    where
      by_alias :
          (a : Option String)
          → lacks_room e minimum head
              (elim a as (λ _. AliasResult × e.Db) [
                | none ↦ (no_alias, db)
                | some canonical ↦ apply_alias e minimum canonical db
              ]).1
            ≡ false
      by_alias none = room
      by_alias (some canonical) = alias-keeps_room head canonical db room

  enough_room :
      (target head : ℕ) (db : e.Db)
      → e.has_table db ≡ true
      → leb target (or_default (column_length e minimum db) 0) ≡ true
      → minimum ≤ target
      → head ≤ target
      → 0 < target
      → lacks_room e minimum head db ≡ false
  unfolding lacks_room
  enough_room target head db present enough large fits positive = ground arith

  altered-gives_room :
      (target head : ℕ) (db : e.Db) (o : Option e.Db)
      → e.alter_length target db ≡ o
      → o ≢ none
      → minimum ≤ target
      → head ≤ target
      → lacks_room e minimum head (altered e minimum o db).1 ≡ false
  unfolding lacks_room
  altered-gives_room target head db none h works large fits = absurd (works refl)
  altered-gives_room target head db (some db') h works large fits =
      ground (arith, sql.altered target db db' h)

  expand-gives_room :
      (target head : ℕ) (db : e.Db)
      → e.has_table db ≡ true
      → e.alter_length target db ≢ none
      → minimum ≤ target
      → head ≤ target
      → 0 < target
      → lacks_room e minimum head (expand_version_num_column e minimum target db).1 ≡ false
  unfolding expand_version_num_column
  expand-gives_room target head db present works large fits positive =
      let full : or_number target minimum ≡ target = ground arith in
      rw (present, full)
        (elim (Bool-cases (leb target (or_default (column_length e minimum db) 0))) [
          | inl enough ↦ rw enough (enough_room target head db present enough large fits positive)
          | inr short ↦ rw short (altered-gives_room target head db _ refl works large fits)
        ])

  make_room-gives_room :
      (head : ℕ) (db : e.Db)
      → e.has_table db ≡ true
      → ((n : ℕ) → e.alter_length n db ≢ none)
      → lacks_room e minimum head (make_room e minimum true head db).1 ≡ false
  unfolding make_room
  make_room-gives_room head db present works =
      let target = max (max minimum head) target_varchar_length in
      elim (Bool-cases (lacks_room e minimum head db)) [
        | inl lacking ↦ rw lacking (
            expand-gives_room target head db present (works target) (omega arith) (omega arith)
              (omega arith))
        | inr room ↦ rw room room
      ]

  -- With automatic repair, a version table that is there and an ALTER that works, the pre-flight
  -- always ends safe and reports it: the column holds the minimum and the head revision, whatever it
  -- was before and whether or not an orphan revision was repaired in between.
  pub ensure_capacity_safe :
      (head : Option String) (db : e.Db)
      → e.has_table db ≡ true
      → ((n : ℕ) → e.alter_length n db ≢ none)
      → ((ensure_capacity e minimum true head db).0.alembic_safe ≡ true)
        × (lacks_room e minimum (length_of head) (ensure_capacity e minimum true head db).1 ≡ false)
  unfolding ensure_capacity
  ensure_capacity_safe head db present works =
      let made = (make_room e minimum true (length_of head) db).1 in
      let made_room = make_room-gives_room (length_of head) db present works in
      let repaired_room = repair-keeps_room (length_of head) made made_room in
      (
        rw
            (if-keeps_room (length_of head) (is_fixed (repair_revision_aliases e minimum made).0) _
              _ repaired_room made_room)
            refl,
        repaired_room,
      )

  pub safe_room :
      (auto_repair : Bool) (head : String) (db after : e.Db) (report : Ensured)
      → ensure_capacity e minimum auto_repair (some head) db ≡ (report, after)
      → report.alembic_safe ≡ true
      → lacks_room e minimum (count head) after ≡ false
  unfolding ensure_capacity
  safe_room auto_repair head db after report run safe =
      let made = (make_room e minimum auto_repair (count head) db).1 in
      let (alias, repaired) = repair_revision_aliases e minimum made in
      let verdict : lacks_room e minimum (count head) (if is_fixed alias then repaired else made)
          ≡ false =
        ground arith in
      let room : lacks_room e minimum (count head) repaired ≡ false =
        picked_room (count head) (is_fixed alias) repaired made verdict
          (repair-keeps_room (count head) made) in
      ground arith

-- ===== src/Runtime/History/Cleaning.antt =====
-- The history of degraded stages: its order, its bound, and what the removal of false entries keeps.
use sky_trax_project.Prelude.{
  ℕ, zero, suc, ◌≤◌, ◌<◌, ◌≡◌, refl, ap, sym, ◌∙◌, String, false, Option, none, some, List, [], ◌∷◌,
  ◌++◌, ltb, ◌==◌, arith, length, take, take_text, take-all, length-take, or_default, if◌then◌else◌,
  Bool-cases, inl, inr,
}
use sky_trax_project.Runtime.{Degraded, State, Row, parsed, Runtime, load, save, merge_state}
use sky_trax_project.Runtime.Crashes.{load-merge}
use sky_trax_project.Runtime.History.{
  record_degraded_stage, parse_rows, get_degraded_history, is_of, other_entries, count_entries,
  other_rows, push_rows, rewrite_rows, remove_false_degraded_events,
}

push_rows-twice : (xs ys zs : List Row) → push_rows (push_rows xs ys) zs ≡ push_rows ys (xs ++ zs)
unfolding push_rows
push_rows-twice [] ys zs = refl
push_rows-twice (x ∷ xs) ys zs = push_rows-twice xs (x ∷ ys) zs

append_nil : (xs : List Row) → xs ++ [] ≡ xs
append_nil [] = refl
append_nil (x ∷ xs) = rw (append_nil xs) refl

rows_in_order : (keep : List Row) → push_rows (push_rows keep []) [] ≡ keep
unfolding push_rows
rows_in_order keep = push_rows-twice keep [] [] ∙ append_nil keep

other_rows-length :
    (op stage : String) (rows : List Row) → length (other_rows op stage rows) ≤ length rows
unfolding other_rows
other_rows-length op stage [] = omega arith
other_rows-length op stage (x ∷ rows) = ground (arith, other_rows-length op stage rows)

other_entries-length :
    (op stage : String) (ds : List Degraded) → length (other_entries op stage ds) ≤ length ds
unfolding other_entries
other_entries-length op stage [] = omega arith
other_entries-length op stage (d ∷ ds) = ground (arith, other_entries-length op stage ds)

none_of_them :
    (op stage : String) (ds : List Degraded)
    → count_entries op stage ds ≡ 0
    → other_entries op stage ds ≡ ds
unfolding count_entries other_entries
none_of_them op stage [] none_there = refl
none_of_them op stage (d ∷ ds) none_there = elim (Bool-cases (is_of op stage d)) [
  | inl own ↦ absurd (ground arith)
  | inr other ↦ rw other (ap (λ x. d ∷ x) (none_of_them op stage ds (ground arith)))
]

rewrite_rows-short :
    (op stage : String) (rows : List Row)
    → length rows ≤ 50
    → rewrite_rows op stage rows ≡ other_rows op stage rows
unfolding rewrite_rows
rewrite_rows-short op stage rows short =
    rows_in_order (take 50 (other_rows op stage (take 50 rows)))
    ∙ rw (take-all 50 rows short)
        (take-all 50 (other_rows op stage rows) (omega (arith, other_rows-length op stage rows)))

kept_entries :
    (op stage : String) (ds : List Degraded)
    → length ds ≤ 50
    → take 50 (other_entries op stage ds) ≡ other_entries op stage ds
kept_entries op stage ds short =
    take-all 50 (other_entries op stage ds) (omega (arith, other_entries-length op stage ds))

-- At most fifty entries, in the state and in the Redis list.
pub record IsBounded (r : Runtime) : Type 0 where
  pub state : length (load r).degraded_history ≤ 50
  pub rows : length r.degraded_rows ≤ 50

load-rows : (rows : List Row) (r : Runtime) → load (record r { degraded_rows = rows }) ≡ load r
unfolding load
load-rows rows r = refl

merge-rows :
    (f : State → State) (stamp : String) (r : Runtime)
    → (merge_state f stamp r).degraded_rows ≡ r.degraded_rows
unfolding merge_state save
merge-rows f stamp r = refl

-- The removal for an operation and a stage deletes exactly their entries and keeps the others in
-- their order, in the state and, if Redis can be reached, in its list, provided that neither is
-- longer than the fifty entries that are kept.
pub remove_deletes_exactly :
    (op stage stamp : String) (r : Runtime)
    → IsBounded r
    → ((load (remove_false_degraded_events op stage stamp r).1).degraded_history
        ≡ other_entries op stage (load r).degraded_history)
      × ((remove_false_degraded_events op stage stamp r).1.degraded_rows
          ≡ (if r.up then other_rows op stage r.degraded_rows else r.degraded_rows))
unfolding remove_false_degraded_events
remove_deletes_exactly op stage stamp r bounded =
    let history = (load r).degraded_history in
    let rows = if r.up then rewrite_rows op stage r.degraded_rows else r.degraded_rows in
    let cut : State → State =
      λ s. record s { degraded_history = take 50 (other_entries op stage history) } in
    let some_there = ltb 0 (count_entries op stage history) in
    (
      elim (Bool-cases some_there) [
        | inl found ↦
            rw (found, load-rows rows (merge_state cut stamp r), load-merge cut stamp r)
              (kept_entries op stage history bounded.state)
        | inr absent ↦
            rw (absent, load-rows rows r) (sym (none_of_them op stage history (ground arith)))
      ],
      rw (rewrite_rows-short op stage r.degraded_rows bounded.rows) refl,
    )

-- The entry as it is recorded.
abbrev stamped : String → Degraded → Degraded
stamped stamp d = record d { error = take_text 300 d.error; time = stamp }

record-history :
    (d : Degraded) (stamp : String) (r : Runtime)
    → (load (record_degraded_stage d stamp r)).degraded_history
      ≡ stamped stamp d ∷ take 49 (load r).degraded_history
unfolding record_degraded_stage
record-history d stamp r = rw (load-merge _ stamp _) refl

record-rows :
    (d : Degraded) (stamp : String) (r : Runtime)
    → (record_degraded_stage d stamp r).degraded_rows
      ≡ (if r.up then take 50 (parsed (stamped stamp d) ∷ r.degraded_rows) else r.degraded_rows)
unfolding record_degraded_stage merge_state save
record-rows d stamp r = refl

record-up :
    (d : Degraded) (stamp : String) (r : Runtime) → (record_degraded_stage d stamp r).up ≡ r.up
unfolding record_degraded_stage merge_state save
record-up d stamp r = refl

record-IsBounded :
    (d : Degraded) (stamp : String) (r : Runtime)
    → IsBounded r
    → IsBounded (record_degraded_stage d stamp r)
record-IsBounded d stamp r bounded = record {
  state = rw (record-history d stamp r) (omega (arith, length-take 49 (load r).degraded_history));
  rows = rw (record-rows d stamp r) (ground (arith, bounded.rows, length-take 49 r.degraded_rows));
}

remove-IsBounded :
    (op stage stamp : String) (r : Runtime)
    → IsBounded r
    → IsBounded (remove_false_degraded_events op stage stamp r).1
remove-IsBounded op stage stamp r bounded =
    let (state_kept, rows_kept) = remove_deletes_exactly op stage stamp r bounded in
    record {
      state =
          rw state_kept
            (omega (arith, bounded.state, other_entries-length op stage (load r).degraded_history));
      rows =
          rw rows_kept (ground (arith, bounded.rows, other_rows-length op stage r.degraded_rows));
    }

abbrev pub first_of : List Degraded → Option Degraded
first_of [] = none
first_of (d ∷ ds) = some d

-- Recording a stage and removing entries keep the history within fifty entries.
pub history-IsBounded :
    (d : Degraded) (op stage stamp : String) (r : Runtime)
    → IsBounded r
    → IsBounded (record_degraded_stage d stamp r)
      × IsBounded (remove_false_degraded_events op stage stamp r).1
history-IsBounded d op stage stamp r bounded =
    (record-IsBounded d stamp r bounded, remove-IsBounded op stage stamp r bounded)

first-parsed :
    (d : Degraded) (rows : List Row) (kept : List Degraded)
    → first_of kept ≡ some d
    → first_of (or_default (parse_rows (parsed d ∷ rows)) kept) ≡ some d
first-parsed d rows kept same = by_parse (parse_rows rows)
  where
    by_parse :
        (o : Option (List Degraded))
        → first_of (or_default (elim o [ none ↦ none | some ds ↦ some (d ∷ ds) ]) kept) ≡ some d
    by_parse none = same
    by_parse (some ds) = refl

-- The entry that was recorded last is the first of the history that is read next, whether Redis can
-- be reached or not and even if a row of its list cannot be parsed.
pub recorded_stage_is_first :
    (limit : ℕ) (d : Degraded) (stamp : String) (r : Runtime)
    → 0 < limit
    → first_of (get_degraded_history limit (record_degraded_stage d stamp r))
      ≡ some (record d { error = take_text 300 d.error; time = stamp })
unfolding get_degraded_history
recorded_stage_is_first (suc limit) d stamp r positive =
    let some_limit : suc limit == 0 ≡ false = ground arith in
    rw (record-history d stamp r, record-up d stamp r, record-rows d stamp r, some_limit)
      (elim (Bool-cases r.up) [
        | inl up ↦
            rw up (first-parsed (stamped stamp d) (take limit (take 49 r.degraded_rows)) _ refl)
        | inr down ↦ rw down refl
      ])
recorded_stage_is_first zero d stamp r positive = absurd (omega arith)

-- ===== src/Runtime/History.antt =====
-- app/runtime_state.py: the history of degraded stages, kept as a Redis list and in the state.
pub mod Cleaning
use sky_trax_project.Prelude.{
  ℕ, ◌+◌, String, Bool, true, false, ◌&&◌, ◌==◌, str_eq, Option, none, some, List, [], ◌∷◌, ltb,
  take, take_text, or_default, if◌then◌else◌,
}
use sky_trax_project.Runtime.{Degraded, State, Row, parsed, unparsable, Runtime, load, merge_state}

-- `record_degraded_stage`: at most fifty entries, in Redis and in the state. The error text of the
-- entry is cut to 300 characters.
unfoldable pub record_degraded_stage : Degraded → String → Runtime → Runtime
unfolding load merge_state
record_degraded_stage given stamp r =
    let d = record given { error = take_text 300 given.error; time = stamp } in
    let history = d ∷ take 49 (load r).degraded_history in
    merge_state (λ s. record s { degraded_history = history }) stamp
      (record r {
        degraded_rows = if r.up then take 50 (parsed d ∷ r.degraded_rows) else r.degraded_rows;
      })

-- `json.loads` of every row, `none` if it raises for one of them.
abbrev pub parse_rows : List Row → Option (List Degraded)
parse_rows [] = some []
parse_rows (parsed d ∷ rows) = elim (parse_rows rows) [ none ↦ none | some ds ↦ some (d ∷ ds) ]
parse_rows (unparsable _ ∷ rows) = none

-- `get_degraded_history`: LRANGE 0 -1, for the limit 0, is the whole list.
unfoldable pub get_degraded_history : ℕ → Runtime → List Degraded
get_degraded_history limit r =
    let rows = if limit == 0 then r.degraded_rows else take limit r.degraded_rows in
    let kept = take limit (load r).degraded_history in
    if r.up then or_default (parse_rows rows) kept else kept

abbrev pub is_of : String → String → Degraded → Bool
is_of op stage d = str_eq d.operation_id op && str_eq d.stage stage

-- The entries that `remove_false_degraded_events` keeps.
unfoldable pub other_entries : String → String → List Degraded → List Degraded
other_entries op stage [] = []
other_entries op stage (d ∷ ds) =
    let rest = other_entries op stage ds in if is_of op stage d then rest else d ∷ rest

unfoldable pub count_entries : String → String → List Degraded → ℕ
count_entries op stage [] = 0
count_entries op stage (d ∷ ds) =
    let rest = count_entries op stage ds in if is_of op stage d then rest + 1 else rest

abbrev pub is_row_of : String → String → Row → Bool
is_row_of op stage (parsed d) = is_of op stage d
is_row_of op stage (unparsable _) = false

unfoldable pub other_rows : String → String → List Row → List Row
other_rows op stage [] = []
other_rows op stage (x ∷ rows) =
    let rest = other_rows op stage rows in if is_row_of op stage x then rest else x ∷ rest

-- LPUSH of each row of a list, in its order.
unfoldable pub push_rows : List Row → List Row → List Row
push_rows [] rows = rows
push_rows (x ∷ xs) rows = push_rows xs (x ∷ rows)

-- The Redis part of `remove_false_degraded_events`: the rows are pushed again from the last on.
unfoldable pub rewrite_rows : String → String → List Row → List Row
unfolding other_rows push_rows
rewrite_rows op stage rows =
    let keep = take 50 (other_rows op stage (take 50 rows)) in
    let reversed = push_rows keep [] in push_rows reversed []

-- `remove_false_degraded_events`
unfoldable pub remove_false_degraded_events : String → String → String → Runtime → ℕ × Runtime
unfolding load merge_state other_entries count_entries rewrite_rows
remove_false_degraded_events op stage stamp r =
    let history = (load r).degraded_history in
    let filtered = other_entries op stage history in
    let removed = count_entries op stage history in
    let merged = merge_state (λ s. record s { degraded_history = take 50 filtered }) stamp r in
    let r' = if ltb 0 removed then merged else r in
    (
      removed,
      record r' {
        degraded_rows = if r.up then rewrite_rows op stage r.degraded_rows else r.degraded_rows;
      },
    )

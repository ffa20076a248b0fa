-- ===== src/Reconcile/Consistency/Quiet.antt =====
-- A reconciled stage is consistent.
use sky_trax_project.Prelude.{
  ℕ, ◌≡◌, refl, String, Bool, true, false, ◌||◌, Option, none, some, List, [], ◌∷◌, ◌++◌, str_eq,
  eq_iff, if◌then◌else◌, one_of, Dict, lookup, lookup-insert, lookup-erase, NodupKeys, arith,
  Bool-cases, inl, inr,
}
use sky_trax_project.Store.{Event}
use sky_trax_project.StageResults.{blob, Blob, Results, blob_of, blob_or_empty}
use sky_trax_project.Reconcile.{
  Failure, Patterns, Schema, Work, derive_failed_stages, marked, mark_reconciled_stage, error_text,
}
use sky_trax_project.Reconcile.Settled.{
  one_of-snoc, stages-IsSound, start-IsSound, reconciled_is_not_failed,
}
use sky_trax_project.Reconcile.Failed.{has_error}
use sky_trax_project.Reconcile.Steps.{
  close_stage, close_if, mark_aviation_if, reconcile_aviation, reconcile_aviation_result,
  reconcile_fusion, reconcile_graph, reconcile_metadata, reconcile_stages,
  reconcile_pipeline_events,
}
use sky_trax_project.Reconcile.Consistency.{
  Inconsistency, entry_if, any_error, stage_error, validate_operational_consistency,
  operational_consistency, is_inconsistent,
}

marked_error : (reason : String) (b : Option Blob) → lookup "error" (marked reason b) ≡ none
unfolding marked
marked_error reason b = simp (lookup-insert, lookup-erase)

marked_text :
    (patterns : Patterns) (reason : String) (b : Option Blob)
    → error_text patterns (some (marked reason b)) ≡ ""
unfolding error_text
marked_text patterns reason b = rw (error_text, marked_error reason b) refl

stage_error-mark :
    (patterns : Patterns) (s stage reason : String) (results : Results)
    → stage_error patterns s (mark_reconciled_stage stage reason results)
      ≡ (if str_eq s stage then "" else stage_error patterns s results)
unfolding mark_reconciled_stage stage_error blob_or_empty
stage_error-mark patterns s stage reason results =
    rw (lookup-insert s stage (blob (marked reason (blob_of (lookup stage results)))) results)
      (elim (Bool-cases (str_eq s stage)) [
        | inl same ↦ rw same (marked_text patterns reason (blob_of (lookup stage results)))
        | inr other ↦ rw other refl
      ])

-- The result of each reconciled stage has no error.
pub record IsQuiet (patterns : Patterns) (w : Work) : Type 0 where
  pub quiet :
      (s : String) → one_of s w.reconciled_stages ≡ true → stage_error patterns s w.results ≡ ""

close-IsQuiet :
    (patterns : Patterns) (b : Bool) (stage reason : String) (clears : List String) (w : Work)
    → IsQuiet patterns w
    → IsQuiet patterns (close_if b stage reason clears w)
unfolding close_if close_stage
close-IsQuiet patterns false stage reason clears w h = h
close-IsQuiet patterns true stage reason clears w h = record {
  quiet = λ s listed. ground (
    arith,
    one_of-snoc s stage w.reconciled_stages,
    h.quiet s,
    stage_error-mark patterns s stage reason w.results,
  );
}

mark-IsQuiet :
    (patterns : Patterns) (b : Bool) (w : Work)
    → IsQuiet patterns w
    → IsQuiet patterns (mark_aviation_if b w)
unfolding mark_aviation_if
mark-IsQuiet patterns false w h = h
mark-IsQuiet patterns true w h = record {
  quiet = λ s listed. ground (
    arith,
    one_of-snoc s "aviation_master" w.reconciled_stages,
    h.quiet s,
    stage_error-mark patterns s "aviation_master" "aviation_schema_healthy" w.results,
  );
}

start-IsQuiet :
    (patterns : Patterns) (errors : List Failure) (results : Results)
    → IsQuiet patterns
        (record { errors = errors; results = results; reconciled_stages = []; cleared = [] })
unfolding one_of
start-IsQuiet patterns errors results = record { quiet = λ s listed. absurd (ground arith) }

stages-IsQuiet :
    (patterns : Patterns) (schema : Schema) (kpis : Dict ℕ) (w : Work)
    → IsQuiet patterns w
    → IsQuiet patterns (reconcile_stages patterns schema kpis w)
unfolding reconcile_stages reconcile_aviation reconcile_aviation_result reconcile_fusion
    reconcile_graph reconcile_metadata
stages-IsQuiet patterns schema kpis w h = search (close-IsQuiet, mark-IsQuiet)

any_error-has_error :
    (stage : String) (es : List Failure)
    → str_eq stage "" ≡ false
    → has_error stage es ≡ false
    → any_error stage es ≡ false
unfolding any_error
any_error-has_error stage [] full h = refl
any_error-has_error stage (e ∷ es) full h = ground (
  arith,
  any_error-has_error stage es full,
  eq_iff e.stage stage,
  eq_iff stage e.stage,
  eq_iff e.stage "",
  eq_iff stage "",
)

is_inconsistent-append :
    (s : String) (xs ys : List Inconsistency)
    → is_inconsistent s (xs ++ ys) ≡ (is_inconsistent s xs || is_inconsistent s ys)
unfolding is_inconsistent
is_inconsistent-append s [] ys = refl
is_inconsistent-append s (x ∷ xs) ys = rw (is_inconsistent-append s xs ys) (ground arith)

is_inconsistent-entry :
    (s : String) (b : Bool) (stage reason : String) (n : ℕ)
    → (str_eq stage s ≡ true → b ≡ false)
    → is_inconsistent s (entry_if b stage reason n) ≡ false
unfolding is_inconsistent
is_inconsistent-entry s true stage reason n h = ground (arith, h)
is_inconsistent-entry s false stage reason n h = refl

-- What the report reads of a stage that was reconciled.
abbrev Facts : Patterns → Results → List String → List Failure → String → Type 0
Facts patterns results failed errors s =
    (stage_error patterns s results ≡ "")
    × (str_eq s "aviation_master" ≡ false → one_of s failed ≡ false)
    × (str_eq s "aviation_master" ≡ false → str_eq s "" ≡ false → any_error s errors ≡ false)

four_entries :
    (s : String) (a b c d : Bool) (ra rb rc rd : String) (na nb nc nd : ℕ)
    → (str_eq "fusion" s ≡ true → a ≡ false)
    → (str_eq "aviation_master" s ≡ true → b ≡ false)
    → (str_eq "knowledge_graph" s ≡ true → c ≡ false)
    → (str_eq "metadata" s ≡ true → d ≡ false)
    → is_inconsistent s (
        entry_if a "fusion" ra na
        ++ (entry_if b "aviation_master" rb nb
            ++ (entry_if c "knowledge_graph" rc nc ++ entry_if d "metadata" rd nd)))
      ≡ false
four_entries s a b c d ra rb rc rd na nb nc nd ha hb hc hd =
    let append = is_inconsistent-append s in
    let entry = is_inconsistent-entry s in
    rw (append _ _, append _ _, append _ _)
      (rw
        (
          entry a "fusion" ra na ha,
          entry b "aviation_master" rb nb hb,
          entry c "knowledge_graph" rc nc hc,
          entry d "metadata" rd nd hd,
        )
        refl)

quiet_is_consistent :
    (patterns : Patterns) (schema : Schema) (kpis : Dict ℕ) (s : String) (results : Results)
    (errors : List Failure) (failed : List String)
    → patterns.signals_unavailable "" ≡ false
    → patterns.iata_missing "" ≡ false
    → Facts patterns results failed errors s
    → is_inconsistent s
        (validate_operational_consistency patterns schema kpis results errors
          failed).inconsistencies
      ≡ false
unfolding validate_operational_consistency
quiet_is_consistent patterns schema kpis s results errors failed signals iata facts =
    let fact : (t : String) → str_eq t s ≡ true → Facts patterns results failed errors t =
      λ t e. rw ((eq_iff t s).0 e) facts in
    four_entries s _ _ _ _ _ _ _ _ _ _ _ _
      (λ e. let f = fact "fusion" e in rw (f.0, f.1 refl, f.2 refl refl, signals) (ground arith))
      (λ e. let f = fact "aviation_master" e in rw (f.0, iata) (ground arith))
      (λ e. let f = fact "knowledge_graph" e in rw (f.1 refl) (ground arith))
      (λ e. let f = fact "metadata" e in rw (f.1 refl) (ground arith))

-- Where the regular expressions do not match the empty text, no entry of the report on consistency that a reconciliation gives names a stage that it reports as reconciled.
pub reconciled_is_consistent :
    (patterns : Patterns) (schema : Schema) (kpis : Dict ℕ) (op time s : String)
    (errors : List Failure) (results : Results) (events : List Event)
    → patterns.signals_unavailable "" ≡ false
    → patterns.iata_missing "" ≡ false
    → NodupKeys results
    → one_of s
        (reconcile_pipeline_events patterns schema kpis op time errors results
          events).reconciled_stages
      ≡ true
    → is_inconsistent s
        (operational_consistency patterns schema kpis (
          reconcile_pipeline_events patterns schema kpis op time errors results
            events)).inconsistencies
      ≡ false
unfolding operational_consistency reconcile_pipeline_events
reconciled_is_consistent patterns schema kpis op time s errors results events signals iata distinct
      listed =
    let start : Work = record {
      errors = errors;
      results = results;
      reconciled_stages = [];
      cleared = [];
    } in
    let w = reconcile_stages patterns schema kpis start in
    let sound = stages-IsSound patterns schema kpis start (start-IsSound errors results distinct) in
    let quiet = stages-IsQuiet patterns schema kpis start (start-IsQuiet patterns errors results) in
    quiet_is_consistent patterns schema kpis s w.results w.errors
      (derive_failed_stages w.errors w.results) signals iata
      (
        quiet.quiet s listed,
        λ other.
            reconciled_is_not_failed patterns schema kpis op time s errors results events distinct
              other listed,
        λ other full. any_error-has_error s w.errors full (sound.settled s other listed).errors,
      )

-- ===== src/Pipeline/Recorded.antt =====
-- The bookkeeping of a run: each result that is a failure has its error, and a fusion that has
-- delivered has none.
pub mod Stages
pub mod Reconciled
use sky_trax_project.Prelude.{
  ℕ, ◌≡◌, refl, sym, ◌∙◌, String, Bool, true, false, not, ◌&&◌, ◌||◌, Option, none, some, List, [],
  ◌∷◌, ◌++◌, str_eq, eq_iff, if◌then◌else◌, one_of, is_some, Dict, lookup, insert, erase,
  or_default, lookup-insert, lookup-erase, insert-NodupKeys, NodupKeys, arith, Bool-cases, inl, inr,
}
use sky_trax_project.StageResults.{
  Value, Entry, blob, plain, Blob, Results, blob_of, is_true, positive, text, flag,
}
use sky_trax_project.Reconcile.{
  Failure, result_fails, text_is, fusion_excused, marked, mark_reconciled_stage,
  drop_stage_failures, derive_failed_stages,
}
use sky_trax_project.Reconcile.Failed.{has_error, fails_at, failed_iff}
use sky_trax_project.Reconcile.Settled.{lookup-mark, has_error-drop}
use sky_trax_project.Pipeline.{
  Run, has_delivered, fusion_ok, without_stage, blocking_errors, no_errors, failed_stage_keys,
}

-- Each error names its stage.
abbrev pub all_named : List Failure → Bool
all_named [] = true
all_named (e ∷ es) = not (str_eq e.stage "") && all_named es

pub record IsRecorded (results : Results) (errors : List Failure) : Type 0 where
  pub distinct : NodupKeys results
  pub recorded : (s : String) → fails_at s (lookup s results) ≡ true → has_error s errors ≡ true
  pub delivered :
      fusion_ok (blob_of (lookup "fusion" results)) ≡ true → has_error "fusion" errors ≡ false
  pub named : all_named errors ≡ true

pub has_error-snoc :
    (s : String) (f : Failure) (es : List Failure)
    → has_error s (es ++ f ∷ []) ≡ (has_error s es || (str_eq s f.stage && not (str_eq f.stage "")))
has_error-snoc s f [] = ground arith
has_error-snoc s f (e ∷ es) = ground (arith, has_error-snoc s f es)

all_named-snoc :
    (f : Failure) (es : List Failure)
    → all_named es ≡ true
    → str_eq f.stage "" ≡ false
    → all_named (es ++ f ∷ []) ≡ true
all_named-snoc f [] h named = ground arith
all_named-snoc f (e ∷ es) h named = ground (arith, all_named-snoc f es)

-- The entry of a stage after its result is set.
abbrev pub set_result : String → Blob → Results → Results
set_result stage b results = insert stage (blob b) results

fusion_after :
    (stage : String) (b : Blob) (results : Results)
    → fusion_ok (blob_of (lookup "fusion" (set_result stage b results))) ≡ (
        if str_eq "fusion" stage
        then has_delivered b
        else fusion_ok (blob_of (lookup "fusion" results)))
unfolding blob_of
fusion_after stage b results =
    rw (lookup-insert "fusion" stage (blob b) results) (elim (Bool-cases (str_eq "fusion" stage)) [
      | inl own ↦ rw own refl
      | inr other ↦ rw other refl
    ])

fails_after :
    (s stage : String) (b : Blob) (results : Results)
    → fails_at s (lookup s (set_result stage b results))
      ≡ (if str_eq s stage then result_fails s (blob b) else fails_at s (lookup s results))
fails_after s stage b results =
    rw (lookup-insert s stage (blob b) results)
      (elim (Bool-cases (str_eq s stage)) [ inl own ↦ rw own refl | inr other ↦ rw other refl ])

-- A stage fails with an error, and its result has not delivered.
pub fail-IsRecorded :
    (f : Failure) (b : Blob) (results : Results) (errors : List Failure)
    → IsRecorded results errors
    → str_eq f.stage "" ≡ false
    → has_delivered b ≡ false
    → IsRecorded (set_result f.stage b results) (errors ++ f ∷ [])
fail-IsRecorded f b results errors h named undelivered = record {
  distinct = insert-NodupKeys f.stage (blob b) results h.distinct;
  recorded = λ s fails.
      ground (arith, has_error-snoc s f errors, fails_after s f.stage b results, h.recorded s);
  delivered = λ ok.
      ground (arith, has_error-snoc "fusion" f errors, fusion_after f.stage b results, h.delivered);
  named = all_named-snoc f errors h.named named;
}

-- A stage succeeds, and had no error.
pub succeed-IsRecorded :
    (stage : String) (b : Blob) (results : Results) (errors : List Failure)
    → IsRecorded results errors
    → result_fails stage (blob b) ≡ false
    → has_error stage errors ≡ false
    → IsRecorded (set_result stage b results) errors
succeed-IsRecorded stage b results errors h passes fresh = record {
  distinct = insert-NodupKeys stage (blob b) results h.distinct;
  recorded = λ s fails. ground (arith, eq_iff s stage, fails_after s stage b results, h.recorded s);
  delivered =
      λ ok. ground (arith, eq_iff "fusion" stage, fusion_after stage b results, h.delivered);
  named = h.named;
}

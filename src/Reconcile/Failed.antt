-- ===== src/Reconcile/Failed.antt =====
-- Which stages `derive_failed_stages` names.
use sky_trax_project.Prelude.{
  ◌≡◌, ◌≢◌, ◌↔◌, ◌⊎◌, inl, inr, refl, String, Bool, true, false, not, ◌&&◌, ◌||◌, Option, none,
  some, List, [], ◌∷◌, ◌++◌, str_eq, eq_iff, one_of, one_of-append, one_of-sorted_set, lookup,
  NodupKeys, arith, Bool-cases,
}
use sky_trax_project.StageResults.{Entry, Results, Blob, blob, plain, is_true, positive}
use sky_trax_project.Reconcile.{
  Failure, result_fails, fusion_excused, text_is, failing_results, failing_errors,
  derive_failed_stages,
}

-- An error names the stage; the empty name is none.
abbrev pub has_error : String → List Failure → Bool
has_error s [] = false
has_error s (e ∷ es) = (str_eq s e.stage && not (str_eq e.stage "")) || has_error s es

-- The stage's own result is a failure.
abbrev pub fails_at : String → Option Entry → Bool
fails_at s none = false
fails_at s (some e) = result_fails s e

failing_errors_lem :
    (s : String) (es : List Failure) → one_of s (failing_errors es) ≡ has_error s es
unfolding one_of failing_errors
failing_errors_lem s [] = refl
failing_errors_lem s (e ∷ es) = ground (arith, failing_errors_lem s es)

not_in_results :
    (s : String) (rs : Results) → lookup s rs ≡ none → one_of s (failing_results rs) ≡ false
unfolding one_of failing_results lookup
not_in_results s [] absent = refl
not_in_results s ((k, e) ∷ rs) absent = ground (arith, eq_iff s k, not_in_results s rs)

failing_results_lem :
    (s : String) (rs : Results)
    → NodupKeys rs
    → one_of s (failing_results rs) ≡ fails_at s (lookup s rs)
unfolding one_of failing_results lookup
failing_results_lem s [] distinct = refl
failing_results_lem s ((k, e) ∷ rs) (fresh, distinct) =
    ground (
      arith,
      eq_iff s k,
      failing_results_lem s rs distinct,
      not_in_results s rs,
      not_in_results k rs,
    )

pub failed_iff :
    (s : String) (errors : List Failure) (results : Results)
    → NodupKeys results
    → one_of s (derive_failed_stages errors results)
      ≡ (has_error s errors || fails_at s (lookup s results))
unfolding derive_failed_stages
failed_iff s errors results distinct =
    rw
      (
        one_of-sorted_set s (failing_errors errors ++ failing_results results),
        one_of-append s (failing_errors errors) (failing_results results),
        failing_errors_lem s errors,
        failing_results_lem s results distinct,
      )
      refl

-- One of the errors names the stage.
abbrev pub IsNamed : String → List Failure → Type 0
IsNamed s [] = ⊥
IsNamed s (e ∷ es) = ((e.stage ≡ s) × (s ≢ "")) ⊎ IsNamed s es

-- The result is a dictionary with an error that was not reconciled; that of the fusion, where it
-- says that the fusion was completed, has no signals, and warns of no enrichment but after a failed
-- correlation.
pub record Unresolved (s : String) (b : Blob) : Type 0 where
  pub error : is_true (lookup "error" b) ≡ true
  pub unreconciled : is_true (lookup "reconciled" b) ≡ false
  pub unexcused :
      s ≡ "fusion"
      → text_is "completed" (lookup "fusion_status" b) ≡ true
      → (positive (lookup "signals_generated" b) ≡ 0)
        × (is_true (lookup "enrichment_warning" b) ≡ true
            → is_true (lookup "correlation_failed" b) ≡ true)

abbrev pub HasUnresolved : String → Results → Type 0
HasUnresolved s results = (b : Blob) × (lookup s results ≡ some (blob b)) × Unresolved s b

named_first :
    (s : String) (e : Failure)
    → (str_eq s e.stage && not (str_eq e.stage "")) ≡ true
    → (e.stage ≡ s) × (s ≢ "")
named_first s e h =
    (ground (arith, eq_iff s e.stage), λ empty. ground (arith, eq_iff s e.stage, eq_iff e.stage ""))

IsNamed-sound : (s : String) (es : List Failure) → has_error s es ≡ true → IsNamed s es
IsNamed-sound s [] h = absurd (ground arith)
IsNamed-sound s (e ∷ es) h = elim (Bool-cases (str_eq s e.stage && not (str_eq e.stage ""))) [
  | inl first ↦ inl (named_first s e first)
  | inr later ↦ inr (IsNamed-sound s es (ground arith))
]

IsNamed-complete : (s : String) (es : List Failure) → IsNamed s es → has_error s es ≡ true
IsNamed-complete s [] h = absurd h
IsNamed-complete s (e ∷ es) (inl (named, full)) =
    ground (arith, eq_iff s e.stage, eq_iff e.stage "", full)
IsNamed-complete s (e ∷ es) (inr h) = ground (arith, IsNamed-complete s es h)

fails_sound : (s : String) (b : Blob) → result_fails s (blob b) ≡ true → Unresolved s b
unfolding result_fails fusion_excused
fails_sound s b h = record {
  error = ground (arith, h);
  unreconciled = ground (arith, h);
  unexcused = λ named completed.
      (ground (arith, eq_iff s "fusion", h), λ warned. ground (arith, eq_iff s "fusion", h));
}

fails_complete : (s : String) (b : Blob) → Unresolved s b → result_fails s (blob b) ≡ true
unfolding result_fails fusion_excused
fails_complete s b h = ground (arith, eq_iff s "fusion", h.error, h.unreconciled, h.unexcused)

results_sound :
    (s : String) (found : Option Entry)
    → fails_at s found ≡ true
    → (b : Blob) × (found ≡ some (blob b)) × Unresolved s b
unfolding result_fails
results_sound s none h = absurd (ground arith)
results_sound s (some (plain v)) h = absurd (ground arith)
results_sound s (some (blob b)) h = (b, refl, fails_sound s b h)

-- A stage is derived as failed exactly where one of the errors names it, and the name is not empty,
-- or where its own result has an error that was not reconciled, and does not excuse the fusion. The
-- result excuses the fusion where it says that the fusion was completed, and has signals, or a
-- warning of the enrichment without a failed correlation. No stage has two results.
pub failed_iff_cause :
    (s : String) (errors : List Failure) (results : Results)
    → NodupKeys results
    → (one_of s (derive_failed_stages errors results) ≡ true)
      ↔ (IsNamed s errors ⊎ HasUnresolved s results)
failed_iff_cause s errors results distinct = rw (failed_iff s errors results distinct) (
  λ failed. elim (Bool-cases (has_error s errors)) [
    | inl named ↦ inl (IsNamed-sound s errors named)
    | inr silent ↦ inr (results_sound s (lookup s results) (ground (arith, failed, silent)))
  ],
  elim [
    | inl named ↦ ground (arith, IsNamed-complete s errors named)
    | inr (b, stored, h) ↦ ground (arith, stored, fails_complete s b h)
  ],
)

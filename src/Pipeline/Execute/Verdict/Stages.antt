-- ===== src/Pipeline/Execute/Verdict/Stages.antt =====
-- The stages of a run, one after the other, keep its bookkeeping.
use sky_trax_project.Prelude.{
  ℕ, ◌+◌, ◌≡◌, sym, inl, inr, String, false, List, [], ◌∷◌, ◌++◌, str_eq, eq_iff, one_of, arith,
  Option-cases,
}
use sky_trax_project.StageResults.{Blob}
use sky_trax_project.Integrity.{Minima}
use sky_trax_project.Reconcile.{Failure, Patterns}
use sky_trax_project.Reconcile.Failed.{has_error}
use sky_trax_project.Pipeline.{has_delivered}
use sky_trax_project.Pipeline.Stage.{Setting, run_stage}
use sky_trax_project.Pipeline.Recorded.{
  IsRecorded, set_result, fail-IsRecorded, succeed-IsRecorded, has_error-snoc,
}
use sky_trax_project.Pipeline.Recorded.Stages.{Books, books, HasEnded, IsHonest, stage-HasEnded}
use sky_trax_project.Pipeline.Execute.{Progress, going, stopped, next_stage, run_stages}

-- None of the stages has an error.
abbrev pub AllFresh : List String → List Failure → Type 0
AllFresh [] es = Unit
AllFresh (s ∷ rest) es = (has_error s es ≡ false) × AllFresh rest es

-- The stages have names, and no two the same.
abbrev pub AllDistinct : List String → Type 0
AllDistinct [] = Unit
AllDistinct (s ∷ rest) = (str_eq s "" ≡ false) × (one_of s rest ≡ false) × AllDistinct rest

-- The books of a run before the stages that are left.
pub record IsReady (rest : List String) (b : Books) : Type 0 where
  pub recorded : IsRecorded b.0 b.1
  pub fresh : AllFresh rest b.1

fresh-snoc :
    (f : Failure) (rest : List String) (es : List Failure)
    → one_of f.stage rest ≡ false
    → AllFresh rest es
    → AllFresh rest (es ++ f ∷ [])
unfolding one_of
fresh-snoc f [] es other h = tt
fresh-snoc f (s ∷ rest) es other (h, hs) = (
  ground (arith, has_error-snoc s f es, eq_iff s f.stage, eq_iff f.stage s),
  fresh-snoc f rest es (ground arith) hs,
)

failed-IsReady :
    (stage : String) (f : Failure) (b : Blob) (rest : List String) (before : Books)
    → f.stage ≡ stage
    → AllDistinct (stage ∷ rest)
    → IsReady (stage ∷ rest) before
    → has_delivered b ≡ false
    → IsReady rest (set_result stage b before.0, before.1 ++ f ∷ [])
failed-IsReady stage f b rest before own (named, other, distinct) h undelivered =
    rw (sym own) (record {
      recorded = fail-IsRecorded f b before.0 before.1 h.recorded (rw own named) undelivered;
      fresh = fresh-snoc f rest before.1 (rw own other) h.fresh.1;
    })

ended-IsReady :
    (stage : String) (rest : List String) (before after : Books)
    → AllDistinct (stage ∷ rest)
    → IsReady (stage ∷ rest) before
    → HasEnded stage before after
    → IsReady rest after
ended-IsReady stage rest before after distinct h (inl p) = rw p.entered (record {
  recorded = succeed-IsRecorded stage p.result before.0 before.1 h.recorded p.passes h.fresh.0;
  fresh = h.fresh.1;
})
ended-IsReady stage rest before after distinct h (inr f) =
    rw f.entered
      (failed-IsReady stage f.failure f.result rest before f.own distinct h f.undelivered)

-- A run that has not stopped is ready for the stages that are left.
abbrev pub IsOnTrack : List String → Progress → Type 0
IsOnTrack rest (going now) = IsReady rest (books now.0)
IsOnTrack rest (stopped e now) = Unit

-- No other stage than the fusion returns the keys of a fusion that has delivered.
abbrev pub AllHonest : List String → List Setting → Type 0
AllHonest [] ss = Unit
AllHonest (stage ∷ rest) [] = Unit
AllHonest (stage ∷ rest) (s ∷ ss) = IsHonest stage s.ending × AllHonest rest ss

IsOnTrack-end : (rest : List String) (p : Progress) → IsOnTrack rest p → IsOnTrack [] p
IsOnTrack-end rest (going now) h = record { recorded = h.recorded; fresh = tt }
IsOnTrack-end rest (stopped e now) h = tt

module _ (patterns : Patterns) (minima : Minima) (strip lower : String → String)
    (stamp duration : String) where
  next-IsOnTrack :
      (s : Setting) (stage : String) (rest : List String) (index : ℕ) (p : Progress)
      → AllDistinct (stage ∷ rest)
      → IsHonest stage s.ending
      → IsOnTrack (stage ∷ rest) p
      → IsOnTrack rest (next_stage patterns minima strip lower stamp duration s stage index p)
  unfolding next_stage
  next-IsOnTrack s stage rest index (stopped e now) distinct honest h = tt
  next-IsOnTrack s stage rest index (going (run, world)) distinct honest h =
      elim (Option-cases
        (run_stage patterns minima strip lower stamp duration s stage index (run, world))) [
          | inl over ↦ rw over tt
          | inr (next, onward) ↦ rw onward (
              ended-IsReady stage rest (books run) (books next.0) distinct h (
                stage-HasEnded patterns minima strip lower stamp duration s stage index run world
                  next honest onward))
        ]

  pub run_stages-IsOnTrack :
      (rest : List String) (ss : List Setting) (index : ℕ) (p : Progress)
      → AllDistinct rest
      → AllHonest rest ss
      → IsOnTrack rest p
      → IsOnTrack [] (run_stages patterns minima strip lower stamp duration rest ss index p)
  unfolding run_stages
  run_stages-IsOnTrack [] ss index p distinct honest h = h
  run_stages-IsOnTrack (stage ∷ rest) [] index p distinct honest h =
      IsOnTrack-end (stage ∷ rest) p h
  run_stages-IsOnTrack (stage ∷ rest) (s ∷ ss) index p (named, other, distinct) (own, honest) h =
      run_stages-IsOnTrack rest ss (index + 1) _ distinct honest
        (next-IsOnTrack s stage rest index p (named, other, distinct) own h)

-- ===== src/Pipeline/Aviation/Degraded.antt =====
-- Which runs of the aviation synchronisation are degraded: those in which a stage raises, and not
-- those in which a stage returns an error.
use sky_trax_project.Prelude.{
  ℕ, ◌+◌, ◌≡◌, refl, ap, ◌∙◌, String, Bool, true, false, ◌||◌, Option, none, some, List, [], ◌∷◌,
  ◌++◌, str_eq, eq_iff, one_of, Dict, lookup, arith,
}
use sky_trax_project.Integrity.{Minima}
use sky_trax_project.StageResults.{Blob}
use sky_trax_project.Reconcile.{Failure, Patterns, Schema, Work}
use sky_trax_project.Reconcile.Failed.{has_error, fails_at}
use sky_trax_project.Reconcile.Settled.{has_error-drop, lookup-mark}
use sky_trax_project.Reconcile.Steps.{
  close_stage, close_if, mark_aviation_if, reconcile_aviation, reconcile_aviation_result,
  reconcile_fusion, reconcile_graph, reconcile_metadata, reconcile_stages,
  reconcile_pipeline_events,
}
use sky_trax_project.Pipeline.{World, Run, no_errors, add_event}
use sky_trax_project.Pipeline.Stage.{Ending, returns, raises, failure_of, fail_stage, quoted}
use sky_trax_project.Pipeline.Execute.{Answer, finished, with_outcome, set_lock}
use sky_trax_project.Pipeline.Aviation.{
  AviationCourse, aviation_stages, aviation_settle, run_aviation_stage, run_aviation_stages,
  propagate_final, reconcile_aviation_state, close_aviation, end_aviation, begin_aviation,
  run_aviation, execute_aviation,
}

-- The stages that raise.
abbrev pub raised_by : List String → List Ending → List String
raised_by [] endings = []
raised_by (stage ∷ rest) [] = []
raised_by (stage ∷ rest) (returns b ∷ endings) = raised_by rest endings
raised_by (stage ∷ rest) (raises e ∷ endings) = stage ∷ raised_by rest endings

has_error-snoc :
    (s stage e : String) (es : List Failure)
    → str_eq stage "" ≡ false
    → has_error s (es ++ failure_of stage e false none ∷ []) ≡ (has_error s es || str_eq s stage)
has_error-snoc s stage e [] full = ground arith
has_error-snoc s stage e (f ∷ es) full = rw (has_error-snoc s stage e es full) (ground arith)

-- A stage that is not reconciled keeps its errors and its result.
pub record IsKept (s : String) (w w' : Work) : Type 0 where
  pub errors : has_error s w'.errors ≡ has_error s w.errors
  pub results : fails_at s (lookup s w'.results) ≡ fails_at s (lookup s w.results)

pub close-IsKept :
    (s : String) (b : Bool) (stage reason : String) (clears : List String) (w w' : Work)
    → str_eq s stage ≡ false
    → IsKept s w w'
    → IsKept s w (close_if b stage reason clears w')
unfolding close_if close_stage
close-IsKept s false stage reason clears w w' other h = h
close-IsKept s true stage reason clears w w' other h = record {
  errors = has_error-drop s stage w'.errors ∙ rw other h.errors;
  results = lookup-mark s stage reason w'.results ∙ rw other h.results;
}

mark-IsKept :
    (s : String) (b : Bool) (w w' : Work)
    → str_eq s "aviation_master" ≡ false
    → IsKept s w w'
    → IsKept s w (mark_aviation_if b w')
unfolding mark_aviation_if
mark-IsKept s false w w' other h = h
mark-IsKept s true w w' other h = record {
  errors = h.errors;
  results =
      lookup-mark s "aviation_master" "aviation_schema_healthy" w'.results ∙ rw other h.results;
}

-- The stages that a reconciliation can close.
abbrev pub reconcilable : List String
reconcilable = "aviation_master" ∷ "fusion" ∷ "knowledge_graph" ∷ "metadata" ∷ []

pub stages-IsKept :
    (patterns : Patterns) (schema : Schema) (kpis : Dict ℕ) (s : String) (w : Work)
    → one_of s reconcilable ≡ false
    → IsKept s w (reconcile_stages patterns schema kpis w)
unfolding reconcile_stages reconcile_aviation reconcile_aviation_result reconcile_fusion
    reconcile_graph reconcile_metadata one_of
stages-IsKept patterns schema kpis s w other =
    let aviation : str_eq s "aviation_master" ≡ false = ground arith in
    let fusion : str_eq s "fusion" ≡ false = ground arith in
    let graph : str_eq s "knowledge_graph" ≡ false = ground arith in
    let metadata : str_eq s "metadata" ≡ false = ground arith in
    let start : IsKept s w w = record { errors = refl; results = refl } in
    close-IsKept s _ "metadata" _ _ w _ metadata (
      close-IsKept s _ "knowledge_graph" _ _ w _ graph (
        close-IsKept s _ "fusion" _ _ w _ fusion (
          mark-IsKept s _ w _ aviation
            (close-IsKept s _ "aviation_master" _ _ w w aviation start))))

module _ (patterns : Patterns) (minima : Minima) (strip lower : String → String)
    (stamp duration : String) where
  raised_by-cons :
      (s stage : String) (names : List String) (e : Ending) (endings : List Ending)
      → one_of s (raised_by (stage ∷ names) (e ∷ endings))
        ≡ (one_of s (raised_by (stage ∷ []) (e ∷ [])) || one_of s (raised_by names endings))
  unfolding one_of
  raised_by-cons s stage names (returns b) endings = refl
  raised_by-cons s stage names (raises e) endings = ground arith

  settle-has_error :
      (s stage : String) (ending : Ending) (run : Run)
      → str_eq stage "" ≡ false
      → has_error s (aviation_settle stamp duration stage ending run).errors
        ≡ (has_error s run.errors || one_of s (raised_by (stage ∷ []) (ending ∷ [])))
  unfolding aviation_settle add_event fail_stage one_of
  settle-has_error s stage (returns b) run full = ground arith
  settle-has_error s stage (raises e) run full =
      has_error-snoc s stage e run.errors full ∙ ground arith

  stages-has_error :
      (s : String) (names : List String) (endings : List Ending) (index : ℕ) (now : Run × World)
      → one_of "" names ≡ false
      → has_error s
          (run_aviation_stages patterns minima strip lower stamp duration names endings index
            now).0.errors
        ≡ (has_error s now.0.errors || one_of s (raised_by names endings))
  unfolding run_aviation_stages run_aviation_stage one_of add_event
  stages-has_error s [] endings index now full = ground arith
  stages-has_error s (stage ∷ names) [] index now full = ground arith
  stages-has_error s (stage ∷ names) (e ∷ endings) index (run, world) full =
      let begun = add_event stamp (quoted stage "started") run in
      let next =
        run_aviation_stage patterns minima strip lower stamp duration stage index e (run, world) in
      let settled =
        settle-has_error s stage e begun (ground (arith, eq_iff "" stage, eq_iff stage "")) in
      let later = stages-has_error s names endings (index + 1) next (ground arith) in
      later ∙ ground (arith, settled, raised_by-cons s stage names e endings)

  propagate-has_error :
      (s : String) (p : Option (Blob × String)) (run : Run)
      → has_error s (propagate_final patterns minima strip lower stamp duration p run).errors
        ≡ has_error s run.errors
  unfolding propagate_final add_event
  propagate-has_error s none run = refl
  propagate-has_error s (some (stats, message)) run = refl

  ended-has_error :
      (s : String) (course : AviationCourse) (now : Run × World)
      → one_of s reconcilable ≡ false
      → has_error s
          (end_aviation patterns minima strip lower stamp duration course none now).0.errors
        ≡ has_error s now.0.errors
  unfolding end_aviation close_aviation add_event reconcile_aviation_state with_outcome
      reconcile_pipeline_events
  ended-has_error s course (run, world) other =
      let propagated =
        propagate_final patterns minima strip lower stamp duration course.propagated run in
      let start : Work = record {
        errors = propagated.errors;
        results = propagated.results;
        reconciled_stages = [];
        cleared = [];
      } in
      (stages-IsKept patterns course.schema [] s start other).errors
      ∙ propagate-has_error s course.propagated run

  full_names : one_of "" aviation_stages ≡ false
  unfolding one_of
  full_names = refl

  has_error-some : (s : String) (es : List Failure) → has_error s es ≡ true → no_errors es ≡ false
  has_error-some s [] h = absurd (ground arith)
  has_error-some s (e ∷ es) h = refl

  -- The answer of a run that has not been held up by another.
  pub record Answers (s status : String) (answer : Answer) : Type 0 where
    pub final : Run
    pub is : answer ≡ finished status final
    pub error : has_error s final.errors ≡ true

  -- Where the lock is free and nothing raises outside the stages, a stage that raises, other than the aviation master, keeps its error to the end, and the run is answered as partial.
  pub raised_stage-Answers :
      (s : String) (course : AviationCourse) (run : Run) (world : World)
      → world.redis.refresh_lock ≡ none
      → course.broken ≡ none
      → one_of s (raised_by aviation_stages course.endings) ≡ true
      → one_of s reconcilable ≡ false
      → Answers s "partial"
          (execute_aviation patterns minima strip lower stamp duration course run world).0
  unfolding execute_aviation run_aviation
  raised_stage-Answers s course run world free calm raised other =
      let locked =
        set_lock patterns minima strip lower stamp duration (some run.operation_id) world in
      let begun = begin_aviation patterns minima strip lower stamp duration (run, locked) in
      let now =
        run_aviation_stages patterns minima strip lower stamp duration aviation_stages
          course.endings 1 begun in
      let final =
        (run_aviation patterns minima strip lower stamp duration course (run, locked)).0 in
      let error : has_error s final.errors ≡ true =
        ap
          (λ b.
            has_error s
              (end_aviation patterns minima strip lower stamp duration course b now).0.errors)
          calm
        ∙ ended-has_error s course now other
        ∙ stages-has_error s aviation_stages course.endings 1 begun full_names
        ∙ rw raised (ground arith) in
      record {
        final = final;
        is = rw (free, has_error-some s final.errors error) refl;
        error = error;
      }

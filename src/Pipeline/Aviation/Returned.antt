-- ===== src/Pipeline/Aviation/Returned.antt =====
-- A stage that returns an error is listed as failed in a run that is completed.
use sky_trax_project.Prelude.{
  ℕ, ◌≡◌, refl, ap, ◌∙◌, String, Bool, true, false, Option, none, some, List, [], ◌∷◌, one_of, Dict,
  lookup, insert, lookup-insert, insert-NodupKeys, NodupKeys,
}
use sky_trax_project.Integrity.{Minima}
use sky_trax_project.StageResults.{Blob, blob, Results, blob_or_empty}
use sky_trax_project.Reconcile.{
  Failure, Patterns, Schema, Work, result_fails, drop_stage_failures, error_text, first_error,
  should_reconcile_aviation,
}
use sky_trax_project.Reconcile.Failed.{failed_iff}
use sky_trax_project.Reconcile.Settled.{start-IsSound, stages-IsSound}
use sky_trax_project.Reconcile.Steps.{
  close_stage, close_if, mark_aviation_if, reconcile_aviation, reconcile_aviation_result,
  reconcile_fusion, reconcile_graph, reconcile_metadata, reconcile_stages,
  reconcile_pipeline_events,
}
use sky_trax_project.Pipeline.{World, Run, add_event, failed_stage_keys}
use sky_trax_project.Pipeline.Stage.{Ending, returns}
use sky_trax_project.Pipeline.Execute.{Answer, finished, with_outcome, set_lock}
use sky_trax_project.Pipeline.Aviation.{
  AviationCourse, aviation_stages, aviation_settle, run_aviation_stage, run_aviation_stages,
  propagate_final, reconcile_aviation_state, close_aviation, end_aviation, begin_aviation,
  run_aviation, execute_aviation,
}
use sky_trax_project.Pipeline.Aviation.Degraded.{IsKept, close-IsKept}

pub record IsSilent (w : Work) : Type 0 where
  pub silent : w.errors ≡ []

close-IsSilent :
    (b : Bool) (stage reason : String) (clears : List String) (w : Work)
    → IsSilent w
    → IsSilent (close_if b stage reason clears w)
unfolding close_if close_stage drop_stage_failures
close-IsSilent false stage reason clears w h = h
close-IsSilent true stage reason clears w h = record {
  silent = ap (drop_stage_failures stage) h.silent;
}

mark-IsSilent : (b : Bool) (w : Work) → IsSilent w → IsSilent (mark_aviation_if b w)
unfolding mark_aviation_if
mark-IsSilent false w h = h
mark-IsSilent true w h = record { silent = h.silent }

stages-IsSilent :
    (patterns : Patterns) (schema : Schema) (kpis : Dict ℕ) (w : Work)
    → IsSilent w
    → IsSilent (reconcile_stages patterns schema kpis w)
unfolding reconcile_stages reconcile_aviation reconcile_aviation_result reconcile_fusion
    reconcile_graph reconcile_metadata
stages-IsSilent patterns schema kpis w h = search (close-IsSilent, mark-IsSilent)

abbrev start_of : List Failure → Results → Work
start_of errors results = record {
  errors = errors;
  results = results;
  reconciled_stages = [];
  cleared = [];
}

no_aviation_error :
    (patterns : Patterns) (schema : Schema) (errors : List Failure) (results : Results)
    → errors ≡ []
    → reconcile_aviation patterns schema [] (start_of errors results) ≡ start_of errors results
unfolding reconcile_aviation first_error close_if
no_aviation_error patterns schema errors results quiet = rw quiet refl

no_aviation_match :
    (patterns : Patterns) (schema : Schema) (b : Blob) (errors : List Failure) (results : Results)
    → lookup "aviation_master" results ≡ some (blob b)
    → patterns.iata_missing (error_text patterns (some b)) ≡ false
    → reconcile_aviation_result patterns schema [] (start_of errors results)
      ≡ start_of errors results
unfolding reconcile_aviation_result should_reconcile_aviation blob_or_empty mark_aviation_if
no_aviation_match patterns schema b errors results found unmatched = rw (found, unmatched) refl

-- Without errors and with another text than that of the missing column, the result stays.
master-IsKept :
    (patterns : Patterns) (schema : Schema) (b : Blob) (errors : List Failure) (results : Results)
    → errors ≡ []
    → lookup "aviation_master" results ≡ some (blob b)
    → patterns.iata_missing (error_text patterns (some b)) ≡ false
    → IsKept "aviation_master"
        (start_of errors results)
        (reconcile_stages patterns schema [] (start_of errors results))
unfolding reconcile_stages reconcile_fusion reconcile_graph reconcile_metadata
master-IsKept patterns schema b errors results quiet found unmatched =
    let w = start_of errors results in
    let s : String = "aviation_master" in
    rw
      (
        no_aviation_error patterns schema errors results quiet,
        no_aviation_match patterns schema b errors results found unmatched,
      )
      (close-IsKept s _ "metadata" _ _ w _ refl (
        close-IsKept s _ "knowledge_graph" _ _ w _ refl
          (close-IsKept s _ "fusion" _ _ w w refl (record { errors = refl; results = refl }))))

-- The results hold each key once, and this one of the aviation master.
pub record HasResult (b : Blob) (run : Run) : Type 0 where
  pub distinct : NodupKeys run.results
  pub found : lookup "aviation_master" run.results ≡ some (blob b)

module _ (patterns : Patterns) (minima : Minima) (strip lower : String → String)
    (stamp duration : String) where
  propagate-HasResult :
      (b : Blob) (p : Option (Blob × String)) (run : Run)
      → HasResult b run
      → HasResult b (propagate_final patterns minima strip lower stamp duration p run)
  unfolding propagate_final add_event
  propagate-HasResult b none run h = h
  propagate-HasResult b (some (stats, message)) run h = record {
    distinct = insert-NodupKeys "aviation_propagation" (blob stats) run.results h.distinct;
    found =
        lookup-insert "aviation_master" "aviation_propagation" (blob stats) run.results ∙ h.found;
  }

  propagate_silent :
      (p : Option (Blob × String)) (run : Run)
      → run.errors ≡ []
      → (propagate_final patterns minima strip lower stamp duration p run).errors ≡ []
  unfolding propagate_final add_event
  propagate_silent none run h = h
  propagate_silent (some (stats, message)) run h = h

  -- No error was noted, and the aviation master has this result.
  pub record Ended (b : Blob) (run : Run) : Type 0 where
    pub quiet : run.errors ≡ []
    pub result : HasResult b run

  -- The run lists the aviation master as failed, and no error.
  pub record Lists (run : Run) : Type 0 where
    pub quiet : run.errors ≡ []
    pub listed : one_of "aviation_master" (failed_stage_keys run) ≡ true

  reconciled-Lists :
      (b : Blob) (schema : Schema) (errors : List Failure) (results : Results)
      → errors ≡ []
      → NodupKeys results
      → lookup "aviation_master" results ≡ some (blob b)
      → result_fails "aviation_master" (blob b) ≡ true
      → patterns.iata_missing (error_text patterns (some b)) ≡ false
      → (run : Run)
      → (run.errors ≡ (reconcile_stages patterns schema [] (start_of errors results)).errors)
      → (run.results ≡ (reconcile_stages patterns schema [] (start_of errors results)).results)
      → Lists run
  unfolding failed_stage_keys
  reconciled-Lists b schema errors results quiet distinct found fails unmatched run same_errors
        same_results =
      let sound =
        stages-IsSound patterns schema [] (start_of errors results)
          (start-IsSound errors results distinct) in
      let silent =
        (stages-IsSilent patterns schema [] (start_of errors results)
          (record { silent = quiet })).silent in
      let kept = (master-IsKept patterns schema b errors results quiet found unmatched).results in
      let no_error = same_errors ∙ silent in
      record {
        quiet = no_error;
        listed =
            failed_iff "aviation_master" run.errors run.results (rw same_results sound.distinct)
            ∙ rw (no_error, same_results, kept, found, fails) refl;
      }

  end_aviation-Lists :
      (b : Blob) (course : AviationCourse) (now : Run × World)
      → result_fails "aviation_master" (blob b) ≡ true
      → patterns.iata_missing (error_text patterns (some b)) ≡ false
      → Ended b now.0
      → Lists (end_aviation patterns minima strip lower stamp duration course none now).0
  unfolding end_aviation close_aviation add_event reconcile_aviation_state with_outcome
      reconcile_pipeline_events
  end_aviation-Lists b course (run, world) fails unmatched h =
      let propagated =
        propagate_final patterns minima strip lower stamp duration course.propagated run in
      let result = propagate-HasResult b course.propagated run h.result in
      reconciled-Lists b course.schema propagated.errors propagated.results
        (propagate_silent course.propagated run h.quiet) result.distinct result.found fails
        unmatched
        (end_aviation patterns minima strip lower stamp duration course none (run, world)).0 refl
        refl

  ran_stages :
      (a b c d : Blob) (now : Run × World)
      → now.0.errors ≡ []
      → NodupKeys now.0.results
      → Ended a
          (run_aviation_stages patterns minima strip lower stamp duration aviation_stages
            (returns a ∷ returns b ∷ returns c ∷ returns d ∷ [])
            1
            now).0
  unfolding run_aviation_stages run_aviation_stage aviation_settle add_event
  ran_stages a b c d (run, world) quiet distinct =
      let one = insert "aviation_master" (blob a) run.results in
      let two = insert "airport_discovery" (blob b) one in
      let three = insert "aviation_metadata" (blob c) two in
      let first = insert-NodupKeys "aviation_master" (blob a) run.results distinct in
      let second = insert-NodupKeys "airport_discovery" (blob b) one first in
      let third = insert-NodupKeys "aviation_metadata" (blob c) two second in
      let found =
        lookup-insert "aviation_master" "hub_intelligence" (blob d) three
        ∙ lookup-insert "aviation_master" "aviation_metadata" (blob c) two
        ∙ lookup-insert "aviation_master" "airport_discovery" (blob b) one
        ∙ lookup-insert "aviation_master" "aviation_master" (blob a) run.results in
      record {
        quiet = quiet;
        result = record {
          distinct = insert-NodupKeys "hub_intelligence" (blob d) three third;
          found = found;
        };
      }

  Lists-if :
      (a b c d : Blob) (course : AviationCourse) (begun : Run × World)
      → course.broken ≡ none
      → course.endings ≡ returns a ∷ returns b ∷ returns c ∷ returns d ∷ []
      → Lists
          (end_aviation patterns minima strip lower stamp duration course none (
            run_aviation_stages patterns minima strip lower stamp duration aviation_stages
              (returns a ∷ returns b ∷ returns c ∷ returns d ∷ [])
              1
              begun)).0
      → Lists
          (end_aviation patterns minima strip lower stamp duration course course.broken (
            run_aviation_stages patterns minima strip lower stamp duration aviation_stages
              course.endings 1 begun)).0
  Lists-if a b c d course begun calm endings h =
      let ended : Option String → List Ending → Run = λ broken ends.
        (end_aviation patterns minima strip lower stamp duration course broken (
          run_aviation_stages patterns minima strip lower stamp duration aviation_stages ends 1
            begun)).0 in
      let same : ended course.broken course.endings
          ≡ ended none (returns a ∷ returns b ∷ returns c ∷ returns d ∷ []) =
        ap (λ broken. ended broken course.endings) calm ∙ ap (ended none) endings in
      rw same h

  -- How a run that lists a failed stage is answered.
  pub record AnswersFailed (status : String) (answer : Answer) : Type 0 where
    pub final : Run
    pub is : answer ≡ finished status final
    pub listed : one_of "aviation_master" (failed_stage_keys final) ≡ true

  -- Where the lock is free, the run starts without errors and nothing raises, and the aviation master returns an error that is not the one of the missing column, the run is answered as completed, although its failed stages list the aviation master.
  pub returned_error-AnswersFailed :
      (a b c d : Blob) (course : AviationCourse) (run : Run) (world : World)
      → world.redis.refresh_lock ≡ none
      → course.broken ≡ none
      → course.endings ≡ returns a ∷ returns b ∷ returns c ∷ returns d ∷ []
      → run.errors ≡ []
      → NodupKeys run.results
      → result_fails "aviation_master" (blob a) ≡ true
      → patterns.iata_missing (error_text patterns (some a)) ≡ false
      → AnswersFailed "completed"
          (execute_aviation patterns minima strip lower stamp duration course run world).0
  unfolding execute_aviation run_aviation begin_aviation add_event
  returned_error-AnswersFailed a b c d course run world free calm endings quiet distinct fails
        unmatched =
      let locked =
        set_lock patterns minima strip lower stamp duration (some run.operation_id) world in
      let begun = begin_aviation patterns minima strip lower stamp duration (run, locked) in
      let final =
        (run_aviation patterns minima strip lower stamp duration course (run, locked)).0 in
      let lists : Lists final = Lists-if a b c d course begun calm endings (
        end_aviation-Lists a course
          (run_aviation_stages patterns minima strip lower stamp duration aviation_stages
            (returns a ∷ returns b ∷ returns c ∷ returns d ∷ []) 1 begun)
          fails unmatched (ran_stages a b c d begun quiet distinct)) in
      record { final = final; is = rw (free, lists.quiet) refl; listed = lists.listed }

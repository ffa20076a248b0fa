-- ===== src/Reconcile/Timeline.antt =====
-- The events of a run after a reconciliation.
use sky_trax_project.Prelude.{
  ℕ, ◌+◌, ◌≡◌, ◌≢◌, refl, ap, String, false, some, List, [], ◌∷◌, ◌++◌, eq_iff, length,
  length-append, All, Dict, arith, Bool-cases, inl, inr,
}
use sky_trax_project.Store.{Event}
use sky_trax_project.StageResults.{Results}
use sky_trax_project.Reconcile.{Failure, Patterns, Schema}
use sky_trax_project.Reconcile.Steps.{
  clean_events, is_dropped, operation_of, recovered_events, reconcile_stages,
  reconcile_pipeline_events,
}

clean_length :
    (op : String) (stages : List String) (evs : List Event)
    → length (clean_events op stages evs).0 + (clean_events op stages evs).1 ≡ length evs
unfolding clean_events
clean_length op stages [] = omega arith
clean_length op stages (ev ∷ evs) = ground (arith, clean_length op stages evs)

recovered_length :
    (op time : String) (stages : List String)
    → length (recovered_events op time stages) ≡ length stages
unfolding recovered_events
recovered_length op time [] = refl
recovered_length op time (s ∷ stages) = omega (arith, recovered_length op time stages)

own_operation :
    (op : String) (stages : List String) (ev : Event)
    → op ≢ ""
    → is_dropped op stages ev ≡ false
    → operation_of op ev ≡ op
unfolding is_dropped
own_operation op stages ev named kept = ground (arith, eq_iff op "", eq_iff (operation_of op ev) op)

-- The events belong to the operation.
abbrev pub AreOf : String → List Event → Type 0
AreOf op = All (λ ev. ev.event_operation ≡ some op)

clean-AreOf :
    (op : String) (stages : List String) (evs : List Event)
    → op ≢ ""
    → AreOf op (clean_events op stages evs).0
unfolding clean_events
clean-AreOf op stages [] named = tt
clean-AreOf op stages (ev ∷ evs) named = elim (Bool-cases (is_dropped op stages ev)) [
  | inl dropped ↦ rw dropped (clean-AreOf op stages evs named)
  | inr kept ↦
      rw kept
        (ap (λ x. some x) (own_operation op stages ev named kept), clean-AreOf op stages evs named)
]

recovered-AreOf :
    (op time : String) (stages : List String) → AreOf op (recovered_events op time stages)
unfolding recovered_events
recovered-AreOf op time [] = tt
recovered-AreOf op time (s ∷ stages) = (refl, recovered-AreOf op time stages)

append-AreOf : (op : String) (xs ys : List Event) → AreOf op xs → AreOf op ys → AreOf op (xs ++ ys)
append-AreOf op [] ys h k = k
append-AreOf op (x ∷ xs) ys (e, h) k = (e, append-AreOf op xs ys h k)

module _ (patterns : Patterns) (schema : Schema) (kpis : Dict ℕ) where
  -- The timeline that a reconciliation leaves is that of the run alone, and its bookkeeping is
  -- exact: the events that stand there and those that it counts as removed are the given events and
  -- one more for each reconciled stage.
  pub timeline_is_of_run :
      (op time : String) (errors : List Failure) (results : Results) (events : List Event)
      → op ≢ ""
      → let out = reconcile_pipeline_events patterns schema kpis op time errors results events in
        AreOf op out.events
        × (length out.events + out.stale_events_removed
            ≡ length events + length out.reconciled_stages)
  unfolding reconcile_pipeline_events
  timeline_is_of_run op time errors results events named =
      let stages =
        (reconcile_stages patterns schema kpis (record {
          errors = errors;
          results = results;
          reconciled_stages = [];
          cleared = [];
        })).reconciled_stages in
      let kept = (clean_events op stages events).0 in
      (
        append-AreOf op kept (recovered_events op time stages) (clean-AreOf op stages events named)
            (recovered-AreOf op time stages),
        omega (
          arith,
          clean_length op stages events,
          recovered_length op time stages,
          length-append kept (recovered_events op time stages),
        ),
      )

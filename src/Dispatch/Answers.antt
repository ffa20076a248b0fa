-- ===== src/Dispatch/Answers.antt =====
-- What each answer of the dispatch says of the operation and of the live status.
use sky_trax_project.Prelude.{
  ◌≡◌, ◌≢◌, ◌∙◌, ap, refl, String, true, false, none, some, one_of, arith, eq_iff,
}
use sky_trax_project.Store.{entry, Redis}
use sky_trax_project.Lifecycle.{
  get_active_operation, accept_refresh, accepted, queued_operation, transition,
  mark_dispatch_failed, lifecycle_states, terminal_states, is_truthy,
}
use sky_trax_project.Lifecycle.Stages.{lifecycle_from_stage}
use sky_trax_project.Dispatch.{
  queued_status, sync_lifecycle, set_initial_status, Enqueue, job, failure, Job, accepted_202,
  unavailable_503, answer, dispatch, accept_and_dispatch,
}

queued_is_state : one_of "queued" lifecycle_states ≡ true
unfolding one_of
queued_is_state = refl

failed_is_state : one_of "failed" lifecycle_states ≡ true
unfolding one_of
failed_is_state = refl

queued_is_active : one_of "queued" terminal_states ≡ false
unfolding one_of
queued_is_active = refl

failed_is_terminal : one_of "failed" terminal_states ≡ true
unfolding one_of
failed_is_terminal = refl

module _ (strip : String → String) (plain : strip "queued" ≡ "queued") where
  queued_label : lifecycle_from_stage strip (some "queued") (some "queued") ≡ some "queued"
  unfolding lifecycle_from_stage one_of
  queued_label = rw plain

  module _ (op trigger kind stamp : String) (nonempty : op ≢ "") where
    initial_status_lem :
        (r : Redis)
        → r.up ≡ true
        → r.operation ≡ entry (queued_operation op trigger kind stamp)
        → set_initial_status strip op trigger stamp r
          ≡ record r { status = entry (queued_status op trigger stamp) }
    unfolding set_initial_status sync_lifecycle transition
    initial_status_lem r reached stored =
        ground (arith, queued_label, queued_is_state, eq_iff op op, eq_iff op "")

    -- The store after the acceptance and after the initial status.
    abbrev queued_store : Redis → Redis
    queued_store r = record r { operation = entry (queued_operation op trigger kind stamp) }

    abbrev started_store : Redis → Redis
    started_store r = record (queued_store r) { status = entry (queued_status op trigger stamp) }

    queued_store-active :
        (r : Redis)
        → r.up ≡ true
        → r.operation ≡ entry (queued_operation op trigger kind stamp)
        → get_active_operation r ≡ some (queued_operation op trigger kind stamp)
    unfolding get_active_operation one_of
    queued_store-active r reached stored = rw (reached, stored)

    failed_store-inactive :
        (e : String) (r : Redis)
        → r.up ≡ true
        → r.operation ≡ entry (queued_operation op trigger kind stamp)
        → get_active_operation (mark_dispatch_failed op e stamp r) ≡ none
    unfolding get_active_operation mark_dispatch_failed
    failed_store-inactive e r reached stored =
        ground (arith, failed_is_state, failed_is_terminal, eq_iff op op)

    failed_store-status :
        (e : String) (r : Redis) → (mark_dispatch_failed op e stamp r).status ≡ r.status
    unfolding mark_dispatch_failed
    failed_store-status e r = ground arith

    failed_store-lock :
        (e : String) (r : Redis)
        → (mark_dispatch_failed op e stamp r).dispatch_lock ≡ r.dispatch_lock
    unfolding mark_dispatch_failed
    failed_store-lock e r = ground arith

    accepts :
        (r : Redis)
        → r.up ≡ true
        → r.dispatch_lock ≡ false
        → is_truthy (get_active_operation r) ≡ false
        → accept_refresh op trigger kind stamp r
          ≡ (accepted (queued_operation op trigger kind stamp), queued_store r)
    unfolding accept_refresh
    accepts r reached free idle = ground arith

    dispatches :
        (e : Enqueue) (r : Redis)
        → r.up ≡ true
        → r.dispatch_lock ≡ false
        → is_truthy (get_active_operation r) ≡ false
        → accept_and_dispatch strip op trigger e stamp kind r
          ≡ dispatch strip op trigger e stamp e (started_store r)
    unfolding accept_and_dispatch answer
    dispatches e r reached free idle = rw (accepts r reached free idle) (
        ap (dispatch strip op trigger e stamp e) (initial_status_lem (queued_store r) reached refl))

    -- An accepted request whose job is enqueued is answered by 202, with its operation stored as
    -- the active one, the live status queued and running, and the dispatch lock free.
    pub enqueued_is_active :
        (r : Redis) (j : Job)
        → r.up ≡ true
        → r.dispatch_lock ≡ false
        → is_truthy (get_active_operation r) ≡ false
        → let (reply, after) = accept_and_dispatch strip op trigger (job j) stamp kind r in
          (reply ≡ accepted_202 op j)
          × (get_active_operation after ≡ some (queued_operation op trigger kind stamp))
          × (after.status ≡ entry (queued_status op trigger stamp))
          × (after.dispatch_lock ≡ false)
    unfolding dispatch
    enqueued_is_active r j reached free idle =
        rw (dispatches (job j) r reached free idle)
          (refl, queued_store-active (started_store r) reached refl, refl, free)

    -- An accepted request whose enqueue fails is answered by 503, and its operation is over, so
    -- that no operation is active; but the live status still shows it as queued and running.
    pub failed_enqueue_is_over :
        (r : Redis) (e : String)
        → r.up ≡ true
        → r.dispatch_lock ≡ false
        → is_truthy (get_active_operation r) ≡ false
        → let (reply, after) = accept_and_dispatch strip op trigger (failure e) stamp kind r in
          (reply ≡ unavailable_503 op e)
          × (get_active_operation after ≡ none)
          × (after.status ≡ entry (queued_status op trigger stamp))
          × (after.dispatch_lock ≡ false)
    unfolding dispatch
    failed_enqueue_is_over r e reached free idle = rw (dispatches (failure e) r reached free idle) (
      refl,
      failed_store-inactive e (started_store r) reached refl,
      failed_store-status e (started_store r),
      failed_store-lock e (started_store r) ∙ free,
    )

-- ===== src/Watchdog/Recovery/Room.antt =====
-- What the watchdog's recovery gives back, and what it leaves alone.
use sky_trax_project.Prelude.{
  ℕ, ◌≡◌, ◌≢◌, ◌∙◌, ap, sym, refl, String, Bool, true, false, Option, none, some, truthy, filled,
  arith, eq_iff, one_of,
}
use sky_trax_project.Store.{nothing, entry, Diagnosis, Operation, Status, Redis}
use sky_trax_project.Lifecycle.{
  accept_refresh, accepted, queued_operation, lifecycle_states, transition, clear_terminal,
}
use sky_trax_project.Lifecycle.Accepting.{other_operation_untouched}
use sky_trax_project.Watchdog.{Thresholds, Texts, stalled}
use sky_trax_project.Watchdog.Health.{
  evaluate_pipeline_health, evaluate_running, mark_stalled, with_ages, mark_slow, mark_healthy,
}
use sky_trax_project.Watchdog.Recovery.{
  lock_owner, persist_status, drop_refresh_lock, drop_watchdog_lock, close_operation,
  apply_stall_cleanup, note_of, settle, reconcile_pipeline_state,
}

stalled_is_state : one_of "stalled" lifecycle_states ≡ true
unfolding one_of
stalled_is_state = refl

-- Closing the operation of `op` takes the stored operation away, if it is that one.
pub close_own :
    (op stamp : String) (extra : Operation → Operation) (o : Operation) (r : Redis)
    → r.up ≡ true
    → r.operation ≡ entry o
    → o.operation_id ≡ some op
    → ((p : Operation) → (extra p).operation_id ≡ p.operation_id)
    → op ≢ ""
    → close_operation (some op) extra stamp r ≡ record r { operation = nothing }
unfolding close_operation transition clear_terminal
close_own op stamp extra o r reached stored own keeps nonempty =
    let moved = record o {
      operation_id = some op;
      lifecycle_state = some "stalled";
      state = some "stalled";
      updated_at = some stamp;
    } in
    ground (arith, stalled_is_state, eq_iff op op, keeps moved)

note_of-operation_id :
    (n : Option Diagnosis) (p : Operation) → (note_of n p).operation_id ≡ p.operation_id
note_of-operation_id none p = refl
note_of-operation_id (some d) p = refl

cleanup_own :
    (out : Status) (op stamp : String) (o : Operation) (r : Redis)
    → r.up ≡ true
    → out.operation_id ≡ some op
    → r.operation ≡ entry o
    → o.operation_id ≡ some op
    → op ≢ ""
    → apply_stall_cleanup out stamp (persist_status out r)
      ≡ record r { status = entry out; refresh_lock = none; operation = nothing }
unfolding apply_stall_cleanup persist_status drop_refresh_lock
cleanup_own out op stamp o r reached of_op stored own nonempty = ground (
  arith,
  eq_iff op "",
  close_own op stamp (note_of out.stall_diagnosis) o
      (record r { status = entry out; refresh_lock = none }) reached stored own
      (note_of-operation_id out.stall_diagnosis) nonempty,
)

module _ (t : Thresholds) (texts : Texts) (now : ℕ) (stamp : String) where
  stalled_keeps_id :
      (d : Status) (owner : String)
      → (evaluate_pipeline_health t texts d now owner stamp).1 ≡ stalled
      → ((evaluate_pipeline_health t texts d now owner stamp).0.operation_id ≡ d.operation_id)
        × (truthy (evaluate_pipeline_health t texts d now owner stamp).0.running ≡ false)
  unfolding evaluate_pipeline_health evaluate_running mark_stalled with_ages
  stalled_keeps_id d owner stop = ground arith

  -- What `reconcile_pipeline_state` leaves where it stops a run of its own operation.
  pub record IsStopped (r after : Redis) : Type 0 where
    pub unlocked : (after.refresh_lock ≡ none) × (after.watchdog_lock ≡ false)
    pub same_dispatch : after.dispatch_lock ≡ r.dispatch_lock
    pub still_up : after.up ≡ true
    pub no_operation_left : after.operation ≡ nothing
    pub final : Status
    pub stored : after.status ≡ entry final
    pub not_running : truthy final.running ≡ false

  module _ (d : Status) (o : Operation) (op : String) where
    settle-IsStopped :
        (r : Redis)
        → r.up ≡ true
        → d.operation_id ≡ some op
        → r.operation ≡ entry o
        → o.operation_id ≡ some op
        → op ≢ ""
        → (evaluate_pipeline_health t texts d now (lock_owner r) stamp).1 ≡ stalled
        → IsStopped r (drop_watchdog_lock (settle t texts now stamp true d r).1)
    unfolding settle drop_watchdog_lock
    settle-IsStopped r reached of_op stored own nonempty stop =
        let out = (evaluate_pipeline_health t texts d now (lock_owner r) stamp).0 in
        let (same_id, not_running) = stalled_keeps_id d (lock_owner r) stop in
        let done = cleanup_own out op stamp o r reached (same_id ∙ of_op) stored own nonempty in
        rw (stop, done)
          (record {
            unlocked = ground arith;
            same_dispatch = ground arith;
            still_up = ground arith;
            no_operation_left = ground arith;
            final = out;
            stored = ground arith;
            not_running = not_running;
          })

    room_after_stop :
        (r : Redis) (op₂ trigger kind now₂ : String) (after : Redis)
        → IsStopped r after
        → r.dispatch_lock ≡ false
        → (accept_refresh op₂ trigger kind now₂ after).0
          ≡ accepted (queued_operation op₂ trigger kind now₂)
    unfolding accept_refresh
    room_after_stop r op₂ trigger kind now₂ after s free = ground arith

    -- A reconciliation that finds the running status stalled stops it: the status is stored as not
    -- running, both pipeline locks are free, the operation is gone, and the next request for a
    -- refresh is accepted. It needs Redis in reach, the two locks of the watchdog and of the accept
    -- path free, and a status and a stored operation of the same non-empty id.
    pub stalled_run_makes_room :
        (r : Redis) (op₂ trigger kind now₂ : String)
        → r.up ≡ true
        → r.watchdog_lock ≡ false
        → r.dispatch_lock ≡ false
        → r.status ≡ entry d
        → truthy d.running ≡ true
        → d.operation_id ≡ some op
        → r.operation ≡ entry o
        → o.operation_id ≡ some op
        → op ≢ ""
        → (evaluate_pipeline_health t texts d now (lock_owner r) stamp).1 ≡ stalled
        → IsStopped r (reconcile_pipeline_state t texts now stamp true r).1
          × ((accept_refresh op₂ trigger kind now₂
                (reconcile_pipeline_state t texts now stamp true r).1).0
              ≡ accepted (queued_operation op₂ trigger kind now₂))
    unfolding reconcile_pipeline_state lock_owner
    stalled_run_makes_room r op₂ trigger kind now₂ reached watch free status run of_op stored own
          nonempty stop =
        let locked = record r { watchdog_lock = true } in
        let s = settle-IsStopped locked reached of_op stored own nonempty stop in
        let room = room_after_stop locked op₂ trigger kind now₂ _ s free in
        let after = drop_watchdog_lock (settle t texts now stamp true d locked).1 in
        let same : (reconcile_pipeline_state t texts now stamp true r).1 ≡ after = ground arith in
        rw same (
          record {
            unlocked = s.unlocked;
            same_dispatch = s.same_dispatch;
            still_up = s.still_up;
            no_operation_left = s.no_operation_left;
            final = s.final;
            stored = s.stored;
            not_running = s.not_running;
          },
          room,
        )

  evaluate-operation_id :
      (d : Status) (owner : String)
      → (evaluate_pipeline_health t texts d now owner stamp).0.operation_id ≡ d.operation_id
  unfolding evaluate_pipeline_health evaluate_running mark_stalled mark_slow mark_healthy with_ages
  evaluate-operation_id d owner = ground arith

  close_other :
      (x : Option String) (extra : Operation → Operation) (o : Operation) (id : String) (r : Redis)
      → r.operation ≡ entry o
      → o.operation_id ≡ some id
      → id ≢ ""
      → x ≢ some id
      → close_operation x extra stamp r ≡ r
  unfolding close_operation
  close_other none extra o id r stored named nonempty other = refl
  close_other (some op) extra o id r stored named nonempty other =
      let (same, kept) =
        other_operation_untouched op "stalled" stamp id extra o r stored named nonempty
          (λ e. other (ap some (sym e))) in
      rw same kept

  settle_other :
      (persist : Bool) (d : Status) (o : Operation) (id : String) (r : Redis)
      → r.operation ≡ entry o
      → o.operation_id ≡ some id
      → id ≢ ""
      → d.operation_id ≢ some id
      → (settle t texts now stamp persist d r).1.operation ≡ entry o
  unfolding settle apply_stall_cleanup persist_status drop_refresh_lock
  settle_other persist d o id r stored named nonempty other =
      let out = (evaluate_pipeline_health t texts d now (lock_owner r) stamp).0 in
      let r₁ = drop_refresh_lock (persist_status out r) in
      let same : r₁.operation ≡ entry o = ground arith in
      ground (
        arith,
        evaluate-operation_id d (lock_owner r),
        close_other (filled out.operation_id) (note_of out.stall_diagnosis) o id r₁ same named
            nonempty (ground (arith, evaluate-operation_id d (lock_owner r))),
      )

  -- Whatever a reconciliation finds, it leaves the stored operation alone where that has another,
  -- non-empty id than the status.
  pub reconcile_keeps_other_operation :
      (persist : Bool) (d : Status) (o : Operation) (id : String) (r : Redis)
      → r.status ≡ entry d
      → r.operation ≡ entry o
      → o.operation_id ≡ some id
      → id ≢ ""
      → d.operation_id ≢ some id
      → (reconcile_pipeline_state t texts now stamp persist r).1.operation ≡ entry o
  unfolding reconcile_pipeline_state drop_watchdog_lock
  reconcile_keeps_other_operation persist d o id r status stored named nonempty other = ground (
    arith,
    settle_other persist d o id (record r { watchdog_lock = true }) stored named nonempty other,
  )

-- ===== src/Watchdog/AcceptPath/Queue/Loses.antt =====
-- What `prepare_accept_path` does to a job that waits in the queue.
use sky_trax_project.Prelude.{
  ℕ, ◌-◌, ◌/◌, ◌≡◌, ◌∙◌, ◌≢◌, ◌≤◌, ◌<◌, refl, String, Bool, true, false, Option, none, some, truthy,
  arith, ◌&&◌, not, if◌then◌else◌,
}
use sky_trax_project.Store.{Stored, nothing, entry, Operation, Status, Redis}
use sky_trax_project.Lifecycle.{accept_refresh, accepted, queued_operation}
use sky_trax_project.Watchdog.{Thresholds, Texts, parse_ts, compute_worker_alive}
use sky_trax_project.Watchdog.Health.{evaluate_pipeline_health}
use sky_trax_project.Watchdog.Recovery.{
  reconcile_pipeline_state, reconcile_status, settle, enrich_live_status, is_stalled, lock_owner,
  persist_status, drop_watchdog_lock, action_of, Reconciled, watchdog_locked, unreachable,
}
use sky_trax_project.Watchdog.AcceptPath.{
  get_live_status_fast, live_of, with_running, needs_release, release_if_needed,
  prepare_accept_path,
}
use sky_trax_project.Watchdog.AcceptPath.Drops.{release_own, empty_store-accepts}
use sky_trax_project.Watchdog.AcceptPath.Queue.{IsWaiting, waiting_age, evaluate-StillWaits}

module _ (t : Thresholds) (texts : Texts) (stamp : String) (op : String) (seen : ℕ)
    (read_back : parse_ts texts (some (texts.to_iso seen)) ≡ some seen) where
  -- The store after the watchdog has looked at a status that waits.
  record IsKept (r : Redis) (report : Bool) (r' : Redis) : Type 0 where
    silent : report ≡ false
    status : Status
    waiting : IsWaiting texts op seen status
    same : r' ≡ record r { status = entry status; watchdog_lock = false }

  settle-IsKept :
      (now : ℕ) (d : Status) (r : Redis)
      → r.up ≡ true
      → IsWaiting texts op seen d
      → (now - seen) / 1000000 < t.queued_grace_s
      → let (report, r') = settle t texts now stamp true d r in
        IsKept r (is_stalled (action_of report)) (drop_watchdog_lock r')
  unfolding settle persist_status drop_watchdog_lock
  settle-IsKept now d r reached h grace =
      let made = evaluate-StillWaits t texts stamp op seen read_back now (lock_owner r) d h grace in
      record {
        silent = simp made.quiet;
        status = (evaluate_pipeline_health t texts d now (lock_owner r) stamp).0;
        waiting = made.waiting;
        same = simp (reached, made.quiet);
      }

  status-IsKept :
      (now : ℕ) (d : Status) (found : Stored Status) (r : Redis)
      → found ≡ entry d
      → r.up ≡ true
      → IsWaiting texts op seen d
      → (now - seen) / 1000000 < t.queued_grace_s
      → let (report, r') = reconcile_status t texts now stamp true found r in
        IsKept r (is_stalled (action_of report)) (drop_watchdog_lock r')
  unfolding reconcile_status
  status-IsKept now d found r stored reached h grace =
      let kept = settle-IsKept now d r reached h grace in
      record {
        silent = simp (stored, h.running) kept.silent;
        status = kept.status;
        waiting = kept.waiting;
        same = simp (stored, h.running) kept.same;
      }

  IsKept-free :
      (r : Redis) (up watch : Bool) (x y z : Reconciled × Redis)
      → up ≡ true
      → watch ≡ false
      → IsKept r (is_stalled (action_of x.0)) x.1
      → let (report, r') = if up then if watch then y else x else z in
        IsKept r (is_stalled (action_of report)) r'
  IsKept-free r true false x y z e e' h = h
  IsKept-free r false watch x y z e e' h = absurd (ground arith)
  IsKept-free r true true x y z e e' h = absurd (ground arith)

  reconcile-IsKept :
      (now : ℕ) (d : Status) (r : Redis)
      → r.up ≡ true
      → r.watchdog_lock ≡ false
      → r.status ≡ entry d
      → IsWaiting texts op seen d
      → (now - seen) / 1000000 < t.queued_grace_s
      → let (report, r') = reconcile_pipeline_state t texts now stamp true r in
        IsKept r (is_stalled (action_of report)) r'
  unfolding reconcile_pipeline_state
  reconcile-IsKept now d r reached watch stored h grace =
      let locked = record r { watchdog_lock = true } in
      let kept = status-IsKept now d r.status locked stored reached h grace in
      let (report, after) = reconcile_status t texts now stamp true r.status locked in
      IsKept-free r r.up r.watchdog_lock (report, drop_watchdog_lock after) (watchdog_locked, r)
        (unreachable, r) reached watch
        (record {
          silent = kept.silent;
          status = kept.status;
          waiting = kept.waiting;
          same = kept.same;
        })

  -- What a reader gets is a status that waits, and it leaves the store as it is.
  record IsRead (r : Redis) (answer : Status × Redis) : Type 0 where
    waiting : IsWaiting texts op seen answer.0
    same : answer.1 ≡ r

  IsRead-if :
      (r : Redis) (b : Bool) (x y : Status × Redis)
      → (b ≡ true → IsRead r x)
      → (b ≡ false → IsRead r y)
      → IsRead r (if b then x else y)
  IsRead-if r true x y h k = h refl
  IsRead-if r false x y h k = k refl

  with_running-same :
      (running : Option Bool) (d d' : Status)
      → truthy running ≡ true
      → elim running as (λ _. Status) [ none ↦ d' | some _ ↦ d ] ≡ d
  with_running-same none d d' h = absurd (ground arith)
  with_running-same (some b) d d' h = refl

  enrich-IsRead :
      (now : ℕ) (d : Status) (r : Redis)
      → IsWaiting texts op seen d
      → (now - seen) / 1000000 < t.queued_grace_s
      → IsRead r (enrich_live_status t texts now stamp d r)
  unfolding enrich_live_status
  enrich-IsRead now d r h grace =
      let made = evaluate-StillWaits t texts stamp op seen read_back now (lock_owner r) d h grace in
      let (out, action) = evaluate_pipeline_health t texts d now (lock_owner r) stamp in
      IsRead-if r ((is_stalled action && r.up) && not r.watchdog_lock) _ (out, r)
        (λ stalls. absurd (ground (arith, made.quiet)))
        (λ _. record { waiting = made.waiting; same = refl })

  live_of-IsRead :
      (now : ℕ) (d : Status) (found : Stored Status) (r : Redis)
      → found ≡ entry d
      → IsWaiting texts op seen d
      → (now - seen) / 1000000 < t.queued_grace_s
      → IsRead r (live_of t texts stamp found now r)
  unfolding live_of with_running
  live_of-IsRead now d found r stored h grace =
      rw (stored, with_running-same d.running d _ h.running) (enrich-IsRead now d r h grace)

  live-IsRead :
      (now : ℕ) (d : Status) (r : Redis)
      → r.up ≡ true
      → r.status ≡ entry d
      → IsWaiting texts op seen d
      → (now - seen) / 1000000 < t.queued_grace_s
      → IsRead r (get_live_status_fast t texts stamp now r)
  unfolding get_live_status_fast
  live-IsRead now d r reached stored h grace =
      IsRead-if r r.up _ _ (λ _. live_of-IsRead now d r.status r stored h grace)
        (λ away. absurd (ground (arith, reached)))

  needs-late :
      (live : Status) (now : ℕ)
      → IsWaiting texts op seen live
      → t.heartbeat_timeout_s ≤ (now - seen) / 1000000
      → needs_release t texts stamp now live ≡ true
  unfolding needs_release compute_worker_alive
  needs-late live now h silent =
      ground (arith, waiting_age t texts stamp op seen read_back now live h)

  -- Once the heartbeat of a job that waits is late, its operation is released, and a request accepted.
  released-accepts :
      (op₂ trigger kind now₂ : String) (o : Operation) (live : Status) (now : ℕ) (r r' : Redis)
      → IsWaiting texts op seen live
      → t.heartbeat_timeout_s ≤ (now - seen) / 1000000
      → r' ≡ r
      → r.up ≡ true
      → r.dispatch_lock ≡ false
      → r.operation ≡ entry o
      → o.operation_id ≡ some op
      → op ≢ ""
      → (accept_refresh op₂ trigger kind now₂ (release_if_needed t texts stamp now live r')).0
        ≡ accepted (queued_operation op₂ trigger kind now₂)
  unfolding release_if_needed
  released-accepts op₂ trigger kind now₂ o live now r r' h silent same reached free held own
        nonempty =
      let gone = record r { operation = nothing; refresh_lock = none; watchdog_lock = false } in
      simp
        (
          same,
          needs-late live now h silent,
          h.operation,
          release_own t texts stamp op o r reached held own nonempty,
        )
        (empty_store-accepts t texts stamp op₂ trigger kind now₂ gone reached free refl)

  -- A job whose stored status runs in the stage "queued" loses its operation to the next request,
  -- where its last activity lies back by the heartbeat timeout, but at the first two readings of the
  -- clock by less than the grace period for queued jobs: the preparation of that request finds no
  -- stall in it, and yet releases its operation, so that the request is accepted beside it. Redis is
  -- in reach, the dispatch lock and the watchdog's lock are free, the stored operation is the job's
  -- own, of a non-empty id, and the time of the last activity is read back as it was written.
  pub queued_job_loses_operation :
      (op₂ trigger kind now₂ : String) (o : Operation) (d : Status) (t₁ t₂ t₃ : ℕ) (r : Redis)
      → r.up ≡ true
      → r.dispatch_lock ≡ false
      → r.watchdog_lock ≡ false
      → r.status ≡ entry d
      → IsWaiting texts op seen d
      → r.operation ≡ entry o
      → o.operation_id ≡ some op
      → op ≢ ""
      → (t₁ - seen) / 1000000 < t.queued_grace_s
      → (t₂ - seen) / 1000000 < t.queued_grace_s
      → t.heartbeat_timeout_s ≤ (t₃ - seen) / 1000000
      → let (report, r') = prepare_accept_path t texts stamp t₁ t₂ t₃ r in
        (is_stalled report.reconcile_action ≡ false)
        × ((accept_refresh op₂ trigger kind now₂ r').0
            ≡ accepted (queued_operation op₂ trigger kind now₂))
  unfolding prepare_accept_path
  queued_job_loses_operation op₂ trigger kind now₂ o d t₁ t₂ t₃ r reached free watch stored waits
        held own nonempty early₁ early₂ silent =
      let kept = reconcile-IsKept t₁ d r reached watch stored waits early₁ in
      let r₁ = record r { status = entry kept.status; watchdog_lock = false } in
      let read =
        live-IsRead t₂ kept.status (reconcile_pipeline_state t texts t₁ stamp true r).1
          (rw kept.same reached) (rw kept.same refl) kept.waiting early₂ in
      (
        kept.silent,
        released-accepts op₂ trigger kind now₂ o _ t₃ r₁ _ read.waiting silent
            (read.same ∙ kept.same) reached free held own nonempty,
      )

-- ===== src/Watchdog/AcceptPath/Drops.antt =====
-- Which operations `prepare_accept_path` takes away, and what the next request then meets.
use sky_trax_project.Prelude.{ℕ, ◌≡◌, ◌≢◌, refl, String, true, false, none, some, arith, eq_iff}
use sky_trax_project.Store.{nothing, entry, Operation, Redis}
use sky_trax_project.Lifecycle.{accept_refresh, accepted, queued_operation, get_active_operation}
use sky_trax_project.Watchdog.{Thresholds, Texts}
use sky_trax_project.Watchdog.Recovery.{
  release_stalled_state, release_operation, with_recovery, drop_refresh_lock, drop_watchdog_lock,
  reconcile_pipeline_state,
}
use sky_trax_project.Watchdog.Recovery.Room.{close_own}
use sky_trax_project.Watchdog.AcceptPath.{
  get_live_status_fast, needs_release, release_if_needed, prepare_accept_path,
}

module _ (t : Thresholds) (texts : Texts) (stamp : String) where
  -- Releasing the state of `op` takes its operation away.
  pub release_own :
      (op : String) (o : Operation) (r : Redis)
      → r.up ≡ true
      → r.operation ≡ entry o
      → o.operation_id ≡ some op
      → op ≢ ""
      → release_stalled_state (some op) stamp r
        ≡ record r { operation = nothing; refresh_lock = none; watchdog_lock = false }
  unfolding release_stalled_state release_operation drop_refresh_lock drop_watchdog_lock
  release_own op o r reached stored own nonempty = ground (
    arith,
    eq_iff op "",
    close_own op stamp with_recovery o (record r { refresh_lock = none; watchdog_lock = false })
        reached stored own (λ p. refl) nonempty,
  )

  pub empty_store-accepts :
      (op₂ trigger kind now₂ : String) (r : Redis)
      → r.up ≡ true
      → r.dispatch_lock ≡ false
      → r.operation ≡ nothing
      → (accept_refresh op₂ trigger kind now₂ r).0
        ≡ accepted (queued_operation op₂ trigger kind now₂)
  unfolding accept_refresh
  empty_store-accepts op₂ trigger kind now₂ r reached free gone = ground arith

  release_active :
      (op : String) (o : Operation) (r : Redis)
      → r.up ≡ true
      → get_active_operation r ≡ some o
      → r.operation ≡ entry o
      → o.operation_id ≡ some op
      → op ≢ ""
      → release_stalled_state none stamp r
        ≡ record r { operation = nothing; refresh_lock = none; watchdog_lock = false }
  unfolding release_stalled_state release_operation drop_refresh_lock drop_watchdog_lock
      get_active_operation
  release_active op o r reached active stored own nonempty = ground (
    arith,
    eq_iff op "",
    close_own op stamp (λ p. p) o (record r { refresh_lock = none; watchdog_lock = false }) reached
        stored own (λ p. refl) nonempty,
  )

  -- While a request that was accepted has not yet written its live status, and no older status is
  -- stored, the preparation of a second request takes its queued operation away, and the second
  -- request is accepted too.
  pub unwritten_status_loses_operation :
      (op op₂ trigger kind now₂ : String) (o : Operation) (t₁ t₂ t₃ : ℕ) (r : Redis)
      → r.up ≡ true
      → r.dispatch_lock ≡ false
      → r.watchdog_lock ≡ false
      → r.status ≡ nothing
      → get_active_operation r ≡ some o
      → r.operation ≡ entry o
      → o.operation_id ≡ some op
      → op ≢ ""
      → (accept_refresh op₂ trigger kind now₂ (prepare_accept_path t texts stamp t₁ t₂ t₃ r).1).0
        ≡ accepted (queued_operation op₂ trigger kind now₂)
  unfolding prepare_accept_path reconcile_pipeline_state get_live_status_fast release_if_needed
      needs_release drop_watchdog_lock get_active_operation
  unwritten_status_loses_operation op op₂ trigger kind now₂ o t₁ t₂ t₃ r reached free watch
        unwritten active stored own nonempty =
      let r₁ = record r { watchdog_lock = false } in
      let r₂ = record r { operation = nothing; refresh_lock = none; watchdog_lock = false } in
      ground (
        arith,
        release_active op o r₁ reached active stored own nonempty,
        empty_store-accepts op₂ trigger kind now₂ r₂ reached free refl,
      )

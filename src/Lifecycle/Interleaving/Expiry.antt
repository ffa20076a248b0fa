-- ===== src/Lifecycle/Interleaving/Expiry.antt =====
-- What two clients in `accept_refresh` can do where the dispatch lock expires.
use sky_trax_project.Prelude.{ℕ, true, false, ◌≡◌, ◌≢◌, refl, String, arith, is_some}
use sky_trax_project.Store.{entry, Redis}
use sky_trax_project.Lifecycle.{
  get_active_operation, try_acquire_dispatch_lock, create_queued, queued_operation,
}
use sky_trax_project.Lifecycle.Interleaving.{
  Environment, Phase, idle, holding, unopposed, leaving, System, update, active, acquire, find_none,
  create, lock_expires, Reach, here, next, begin,
}

-- The lock may expire; nothing else happens beside the clients' commands.
abbrev pub with_expiry : Environment
with_expiry = record { expiring = true; outages = false; reviving = false }

module _ (r : Redis) (c d : ℕ) (op op₂ trigger kind now now₂ : String) where
  -- The run: `c` takes the lock and finds no operation, the lock expires, `d` does the same, and both
  -- create their operations.
  abbrev taken : Redis
  taken = (try_acquire_dispatch_lock r).1

  abbrev expired : Redis
  expired = record taken { dispatch_lock = false }

  abbrev retaken : Redis
  retaken = (try_acquire_dispatch_lock expired).1

  abbrev after_c : ℕ → Phase
  after_c = update (update (λ _. idle) c holding) c unopposed

  abbrev both_unopposed : System
  both_unopposed = record { store = retaken; phase = update (update after_c d holding) d unopposed }

  abbrev pub created_by : ℕ → String → String → System → System
  created_by e op' now' s = record {
    store = (create_queued op' trigger kind now' s.store).1;
    phase = update s.phase e (leaving (is_some (create_queued op' trigger kind now' s.store).0));
  }

  abbrev one_created : System
  one_created = created_by c op now both_unopposed

  module _ (up : r.up ≡ true) (unlocked : r.dispatch_lock ≡ false) (none_active : active r ≡ false)
      (differ : c ≢ d) where
    run_of_both : Reach with_expiry (begin r) both_unopposed
    unfolding try_acquire_dispatch_lock get_active_operation
    run_of_both =
        next
          (next
            (next
              (next (next here (acquire c refl (ground arith)))
                (find_none c (ground arith) (ground arith)))
              (lock_expires refl))
            (acquire d (ground arith) (ground arith)))
          (find_none d (ground arith) (ground arith))

    -- From a store in reach, with the lock free and no active operation: if the lock expires while its
    -- holder still works, two different clients can both find no active operation and both create one: the first client's operation is stored while the second client goes on,
    -- and the second's then replaces it, so that both leave with an accepted operation.
    pub expiry_breaks_exclusion :
        (m s : System) × Reach with_expiry (begin r) m
        × (m.store.operation ≡ entry (queued_operation op trigger kind now))
        × (m.phase c ≡ leaving true)
        × (m.phase d ≡ unopposed)
        × Reach with_expiry m s
        × (s.store.operation ≡ entry (queued_operation op₂ trigger kind now₂))
        × (s.phase c ≡ leaving true)
        × (s.phase d ≡ leaving true)
    unfolding create_queued try_acquire_dispatch_lock
    expiry_breaks_exclusion = (
      one_created,
      created_by d op₂ now₂ one_created,
      next run_of_both (create c op trigger kind now (ground arith)),
      ground arith,
      ground arith,
      ground arith,
      next here (create d op₂ trigger kind now₂ (ground arith)),
      ground arith,
      ground arith,
      ground arith,
    )

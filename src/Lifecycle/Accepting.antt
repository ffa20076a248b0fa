-- ===== src/Lifecycle/Accepting.antt =====
-- What `accept_refresh` decides, and what the transitions of an operation keep from another one.
use sky_trax_project.Prelude.{String, true, false, ◌≡◌, ◌≢◌, ◌⊎◌, refl, some, arith, eq_iff, one_of}
use sky_trax_project.Store.{entry, Operation, has_keys, Redis}
use sky_trax_project.Lifecycle.{
  get_active_operation, queued_operation, transition, clear_terminal, dispatch_locked,
  already_running, refused, accepted, raised, is_truthy, accept_refresh, terminal_states,
}
use sky_trax_project.Lifecycle.Stages.{one_of-terminal}

module _ (op trigger kind now : String) (r : Redis) where
  abbrev pub AcceptanceSplit : Type 0
  AcceptanceSplit =
      ((r.dispatch_lock ≡ true)
        × (accept_refresh op trigger kind now r
            ≡ (refused dispatch_locked (get_active_operation r), r)))
      ⊎ ((r.dispatch_lock ≡ false)
          × (is_truthy (get_active_operation r) ≡ true)
          × (accept_refresh op trigger kind now r
              ≡ (refused already_running (get_active_operation r), r)))
      ⊎ ((r.dispatch_lock ≡ false)
          × (is_truthy (get_active_operation r) ≡ false)
          × (accept_refresh op trigger kind now r ≡ (
            accepted (queued_operation op trigger kind now),
            record r { operation = entry (queued_operation op trigger kind now) },
          )))

  -- With Redis in reach, `accept_refresh` has three outcomes. A held lock refuses the request; an
  -- active operation refuses it; both leave the store as it was. With neither, the request is
  -- accepted, the operation is stored as queued, and the lock is free again.
  pub accept_refresh_cases : r.up ≡ true → AcceptanceSplit
  unfolding accept_refresh
  accept_refresh_cases reached = ground arith

  -- Without Redis the lock is taken for granted, no operation is seen, and the request ends with
  -- the exception of the write; the store stays as it was.
  accept_refresh_unreachable : r.up ≡ false → accept_refresh op trigger kind now r ≡ (raised, r)
  unfolding accept_refresh
  accept_refresh_unreachable lost = ground arith

  accepted_lem :
      (o : Operation) (r' : Redis)
      → accept_refresh op trigger kind now r ≡ (accepted o, r')
      → (r.up ≡ true)
        × (r.dispatch_lock ≡ false)
        × (o ≡ queued_operation op trigger kind now)
        × (r' ≡ record r { operation = entry (queued_operation op trigger kind now) })
  unfolding accept_refresh
  accepted_lem o r' done = ground arith

  queued_operation-has_keys : has_keys (queued_operation op trigger kind now) ≡ true
  unfolding has_keys
  queued_operation-has_keys = refl

  queued_store-refuses :
      (op₂ trigger₂ kind₂ now₂ : String)
      → r.up ≡ true
      → r.dispatch_lock ≡ false
      → let queued = record r { operation = entry (queued_operation op trigger kind now) } in
        accept_refresh op₂ trigger₂ kind₂ now₂ queued
        ≡ (refused already_running (some (queued_operation op trigger kind now)), queued)
  unfolding accept_refresh one_of
  queued_store-refuses op₂ trigger₂ kind₂ now₂ reached free =
      ground (arith, queued_operation-has_keys)

  -- Once a request is accepted, the next one is refused, with the accepted operation as the reason.
  second_request_refused :
      (op₂ trigger₂ kind₂ now₂ : String) (o : Operation) (r' : Redis)
      → accept_refresh op trigger kind now r ≡ (accepted o, r')
      → accept_refresh op₂ trigger₂ kind₂ now₂ r' ≡ (refused already_running (some o), r')
  second_request_refused op₂ trigger₂ kind₂ now₂ o r' done =
      let (reached, free, same, stored) = accepted_lem o r' done in
      rw (stored, same) (queued_store-refuses op₂ trigger₂ kind₂ now₂ reached free)

-- An operation with another, non-empty id is out of reach: no transition and no cleanup of `op`
-- touches the store.
pub other_operation_untouched :
    (op new now id : String) (extra : Operation → Operation) (o : Operation) (r : Redis)
    → r.operation ≡ entry o
    → o.operation_id ≡ some id
    → id ≢ ""
    → id ≢ op
    → (transition op new extra now r ≡ r) × (clear_terminal op r ≡ r)
unfolding transition clear_terminal
other_operation_untouched op new now id extra o r stored named filled other =
    ground (arith, eq_iff id "", eq_iff id op)

empty_not_terminal : one_of "" terminal_states ≡ false
unfolding one_of
empty_not_terminal = refl

-- The end of an operation makes room: after its transition to a terminal state the next request is
-- accepted, if the lock is free and Redis in reach. `extra` stands for the additional keys, which
-- do not set the lifecycle state.
pub terminal_transition_frees :
    (op new now : String) (extra : Operation → Operation) (o : Operation) (r : Redis)
    (op₂ trigger₂ kind₂ now₂ : String)
    → r.up ≡ true
    → r.dispatch_lock ≡ false
    → r.operation ≡ entry o
    → o.operation_id ≡ some op
    → one_of new terminal_states ≡ true
    → ((p : Operation) → (extra p).lifecycle_state ≡ p.lifecycle_state)
    → (accept_refresh op₂ trigger₂ kind₂ now₂ (transition op new extra now r)).0
      ≡ accepted (queued_operation op₂ trigger₂ kind₂ now₂)
unfolding accept_refresh transition
terminal_transition_frees op new now extra o r op₂ trigger₂ kind₂ now₂ reached free stored own ends
      keeps =
    let moved = record o {
      operation_id = some op;
      lifecycle_state = some new;
      state = some new;
      updated_at = some now;
    } in
    ground (
      arith,
      one_of-terminal new ends,
      empty_not_terminal,
      eq_iff new "",
      eq_iff op op,
      keeps moved,
    )

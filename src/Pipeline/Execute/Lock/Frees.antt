-- ===== src/Pipeline/Execute/Lock/Frees.antt =====
-- After a run the next request finds room.
use sky_trax_project.Prelude.{
  ◌≡◌, refl, ap, String, Bool, true, false, Option, none, some, [], ◌∷◌, ◌++◌, str_eq, eq_iff,
  if◌then◌else◌, one_of, arith, Bool-cases, inl, inr, ◌⊎◌, ◌⊎◌, one_of-append,
}
use Prim.Native.String.{◌++◌ as append_text}
use sky_trax_project.Store.{entry, Operation, Redis}
use sky_trax_project.Lifecycle.{
  transition, terminal_states, active_states, accept_refresh, accepted, queued_operation,
}
use sky_trax_project.Lifecycle.Stages.{lifecycle_from_stage, one_of-terminal}
use sky_trax_project.Integrity.{Minima}
use sky_trax_project.Reconcile.{Patterns}
use sky_trax_project.Pipeline.{
  no_keys, World, Run, Write, sync_to, set_status, report_run, report_of, add_event,
  blocking_errors, no_errors, stages,
}
use sky_trax_project.Pipeline.Stage.{failure_of}
use sky_trax_project.Pipeline.Execute.{
  Course, Progress, going, stopped, terminal_of, finalize, close_run, fail_run, end_run, begin_run,
  run_stages, run_locked, held_by_other, set_lock, execute,
}
use sky_trax_project.Pipeline.Execute.Lock.{IsMine, IsOwn, transition_moves, moved}
use sky_trax_project.Pipeline.Execute.Lock.Keeps.{
  now_of, run_stages-IsOwn, begin-IsOwn, finalize-IsOwn,
}

-- The stored operation has ended, Redis is in reach and the dispatch lock is free.
pub record IsOver (r : Redis) : Type 0 where
  pub reached : r.up ≡ true
  pub free : r.dispatch_lock ≡ false
  pub operation : Operation
  pub stored : r.operation ≡ entry operation
  pub state : String
  pub shown : operation.lifecycle_state ≡ some state
  pub ended : one_of state terminal_states ≡ true

empty_not_terminal : one_of "" terminal_states ≡ false
unfolding one_of
empty_not_terminal = refl

named_state : (new : String) → one_of new terminal_states ≡ true → str_eq new "" ≡ false
named_state new ends = ground (arith, eq_iff new "", empty_not_terminal)

over_accepts :
    (r : Redis) (op trigger kind now : String)
    → IsOver r
    → (accept_refresh op trigger kind now r).0 ≡ accepted (queued_operation op trigger kind now)
unfolding accept_refresh
over_accepts r op trigger kind now h = ground (
  arith,
  h.reached,
  h.free,
  h.stored,
  h.shown,
  h.ended,
  one_of-terminal h.state h.ended,
  empty_not_terminal,
  eq_iff h.state "",
)

transition-IsOver :
    (op new stamp : String) (r : Redis)
    → IsMine op r
    → one_of new terminal_states ≡ true
    → IsOver (transition op new (λ o. o) stamp r)
transition-IsOver op new stamp r h ends =
    rw (transition_moves op new stamp r h (one_of-terminal new ends)) (record {
      reached = h.reached;
      free = h.free;
      operation = moved op new stamp h.operation;
      stored = refl;
      state = new;
      shown = refl;
      ended = ends;
    })

synced-IsOver :
    (b : Bool) (op : String) (state : Option String) (stamp new : String) (r : Redis)
    → IsMine op r
    → b ≡ false
    → state ≡ some new
    → one_of new terminal_states ≡ true
    → IsOver (if b then r else sync_to op state stamp r)
synced-IsOver b op state stamp new r h named ended_as ends =
    rw (named, ended_as, named_state new ends) (transition-IsOver op new stamp r h ends)

module _ (strip : String → String) (stamp : String) where
  terminal_label :
      (new : String)
      → strip new ≡ new
      → one_of new terminal_states ≡ true
      → lifecycle_from_stage strip (some new) (some new) ≡ some new
  unfolding lifecycle_from_stage
  terminal_label new stripped ends =
      rw stripped (ground (arith, one_of-append new active_states terminal_states, ends))

  set-IsOver :
      (run : Run) (wr : Write) (world : World) (new : String)
      → IsMine run.operation_id world.redis
      → str_eq run.operation_id "" ≡ false
      → lifecycle_from_stage strip (some wr.stage) wr.pipeline_status ≡ some new
      → one_of new terminal_states ≡ true
      → IsOver (set_status strip stamp run wr world).redis
  unfolding set_status
  set-IsOver run wr world new h named state ends =
      synced-IsOver (str_eq run.operation_id "") run.operation_id
        (lifecycle_from_stage strip (some wr.stage) wr.pipeline_status) stamp new _
        (record {
          reached = h.reached;
          free = h.free;
          operation = h.operation;
          stored = h.stored;
          own = h.own;
        })
        named state ends

  -- A write of the run with a terminal label for both stage and status.
  own-IsOver :
      (op new : String) (run : Run) (wr : Write) (world : World)
      → IsOwn op (run, world)
      → str_eq op "" ≡ false
      → wr.stage ≡ new
      → wr.pipeline_status ≡ some new
      → strip new ≡ new
      → one_of new terminal_states ≡ true
      → IsOver (set_status strip stamp run wr world).redis
  own-IsOver op new run wr world h named stage status stripped ends =
      set-IsOver run wr world new (rw h.same h.mine) (rw h.same named)
        (rw (stage, status) (terminal_label new stripped ends)) ends

module _ (patterns : Patterns) (minima : Minima) (strip lower : String → String)
    (stamp duration : String) where
  reported-IsOver :
      (op new terminal : String) (run : Run) (world : World)
      → IsOwn op (run, world)
      → str_eq op "" ≡ false
      → terminal ≡ new
      → strip new ≡ new
      → one_of new terminal_states ≡ true
      → IsOver (report_run strip stamp run no_keys terminal 100 terminal world).redis
  unfolding report_run report_of
  reported-IsOver op new terminal run world h named e stripped ends =
      own-IsOver strip stamp op new run (report_of run no_keys terminal 100 terminal) world h named
        e (ap (λ t. some t) e) stripped ends

  terminal_cases :
      (run : Run)
      → (terminal_of patterns minima strip lower stamp duration run ≡ "completed")
        ⊎ (terminal_of patterns minima strip lower stamp duration run ≡ "completed_degraded")
  unfolding terminal_of
  terminal_cases run = elim (Bool-cases (no_errors (blocking_errors run))) [
    | inl clean ↦ rw clean (inl refl)
    | inr errors ↦ rw errors (inr refl)
  ]

  close-IsOver :
      (op : String) (run : Run) (world : World)
      → IsOwn op (run, world)
      → str_eq op "" ≡ false
      → strip "completed" ≡ "completed"
      → strip "completed_degraded" ≡ "completed_degraded"
      → IsOver (close_run patterns minima strip lower stamp duration (run, world)).1.redis
  unfolding close_run one_of add_event
  close-IsOver op run world h named full degraded =
      let terminal = terminal_of patterns minima strip lower stamp duration run in
      let run' = add_event stamp (append_text "Pipeline " terminal) run in
      let own : IsOwn op (run', world) = record { same = h.same; mine = h.mine } in
      elim (terminal_cases run) [
        | inl e ↦ reported-IsOver op "completed" terminal run' world own named e full refl
        | inr e ↦
            reported-IsOver op "completed_degraded" terminal run' world own named e degraded refl
      ]

  fail-IsOver :
      (op e : String) (run : Run) (world : World)
      → IsOwn op (run, world)
      → str_eq op "" ≡ false
      → strip "failed" ≡ "failed"
      → IsOver (fail_run patterns minima strip lower stamp duration e (run, world)).1.redis
  unfolding fail_run one_of add_event
  fail-IsOver op e run world h named stripped =
      let failed =
        add_event stamp (append_text "Pipeline failed: " e)
          (record run { errors = run.errors ++ failure_of "pipeline" e false none ∷ [] }) in
      own-IsOver strip stamp op "failed" failed
        (record {
          stage = "failed";
          progress = 0;
          pipeline_status = some "failed";
          keys = no_keys;
          kpis = some failed.kpis;
          completed_stages = [];
          failed_stages = [];
        })
        world (record { same = h.same; mine = h.mine }) named refl refl stripped refl

  end-IsOver :
      (op : String) (course : Course) (p : Progress)
      → IsOwn op (now_of p)
      → str_eq op "" ≡ false
      → strip "completed" ≡ "completed"
      → strip "completed_degraded" ≡ "completed_degraded"
      → strip "failed" ≡ "failed"
      → IsOver (end_run patterns minima strip lower stamp duration course p).1.redis
  unfolding end_run
  end-IsOver op course (going now) h named full degraded failed =
      let (run, world) = finalize patterns minima strip lower stamp duration course now in
      close-IsOver op run world
        (finalize-IsOwn patterns minima strip lower stamp duration op course now h) named full
        degraded
  end-IsOver op course (stopped e (run, world)) h named full degraded failed =
      fail-IsOver op e run world h named failed

  freed_accepts :
      (op trigger kind now : String) (r : Redis)
      → IsOver r
      → (accept_refresh op trigger kind now (record r { refresh_lock = none })).0
        ≡ accepted (queued_operation op trigger kind now)
  freed_accepts op trigger kind now r h = over_accepts _ op trigger kind now (record {
    reached = h.reached;
    free = h.free;
    operation = h.operation;
    stored = h.stored;
    state = h.state;
    shown = h.shown;
    ended = h.ended;
  })

  -- However a run ends, it makes room: once a run that had the lock, or found it free, is over, the
  -- lock is gone and the next request for a refresh is accepted. The conditions are that at its
  -- start Redis was in reach, the dispatch lock free and the stored operation the run's own, under
  -- an id that is not empty, and that stripping leaves the three terminal labels as they are.
  pub run_frees_next :
      (course : Course) (run : Run) (world : World) (op trigger kind now : String)
      → str_eq run.operation_id "" ≡ false
      → held_by_other patterns minima strip lower stamp duration world.redis.refresh_lock
          run.operation_id
        ≡ false
      → IsMine run.operation_id world.redis
      → strip "completed" ≡ "completed"
      → strip "completed_degraded" ≡ "completed_degraded"
      → strip "failed" ≡ "failed"
      → ((accept_refresh op trigger kind now
            (execute patterns minima strip lower stamp duration course run world).1.redis).0
          ≡ accepted (queued_operation op trigger kind now))
        × ((execute patterns minima strip lower stamp duration course run
              world).1.redis.refresh_lock
            ≡ none)
  unfolding execute run_locked
  run_frees_next course run world op trigger kind now named open_ h full degraded failed =
      let start =
        set_lock patterns minima strip lower stamp duration (some run.operation_id) world in
      let own : IsOwn run.operation_id (run, start) = record {
        same = refl;
        mine = record {
          reached = h.reached;
          free = h.free;
          operation = h.operation;
          stored = h.stored;
          own = h.own;
        };
      } in
      let begun = begin_run patterns minima strip lower stamp duration course (run, start) in
      let ended =
        run_stages patterns minima strip lower stamp duration stages course.settings 1
          (going begun) in
      rw open_ (
        freed_accepts op trigger kind now
            (end_run patterns minima strip lower stamp duration course ended).1.redis
            (end-IsOver run.operation_id course ended
              (run_stages-IsOwn patterns minima strip lower stamp duration run.operation_id stages
                course.settings 1 (going begun)
                (begin-IsOwn patterns minima strip lower stamp duration run.operation_id course run
                  start own))
              named full degraded failed),
        refl,
      )

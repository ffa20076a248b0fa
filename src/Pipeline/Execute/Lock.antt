-- ===== src/Pipeline/Execute/Lock.antt =====
-- What a run leaves behind for the next request.
pub mod Keeps
pub mod Frees
use sky_trax_project.Prelude.{
  ℕ, ◌+◌, ◌≡◌, refl, sym, ◌∙◌, ap, String, Bool, true, false, not, ◌&&◌, ◌||◌, Option, none, some,
  List, [], ◌∷◌, str_eq, eq_iff, if◌then◌else◌, one_of, arith, Bool-cases, inl, inr,
}
use sky_trax_project.Store.{Stored, nothing, broken, entry, Operation, Redis}
use sky_trax_project.Lifecycle.{transition, lifecycle_states}
use sky_trax_project.Lifecycle.Stages.{lifecycle_from_stage}
use sky_trax_project.Pipeline.{Keys, World, Run, Write, sync_to, set_status, report_run, report_of}

-- The stored operation is the run's, Redis is in reach and the dispatch lock is free.
pub record IsMine (op : String) (r : Redis) : Type 0 where
  pub reached : r.up ≡ true
  pub free : r.dispatch_lock ≡ false
  pub operation : Operation
  pub stored : r.operation ≡ entry operation
  pub own : operation.operation_id ≡ some op

abbrev moved : String → String → String → Operation → Operation
moved op new stamp o = record o {
  operation_id = some op;
  lifecycle_state = some new;
  state = some new;
  updated_at = some stamp;
}

pub transition_moves :
    (op new stamp : String) (r : Redis) (h : IsMine op r)
    → one_of new lifecycle_states ≡ true
    → transition op new (λ o. o) stamp r
      ≡ record r { operation = entry (moved op new stamp h.operation) }
unfolding transition
transition_moves op new stamp r h known =
    rw (known, h.reached, h.stored, h.own) (ground (arith, eq_iff op op))

moved-IsMine :
    (op new stamp : String) (r : Redis) (h : IsMine op r)
    → IsMine op (record r { operation = entry (moved op new stamp h.operation) })
moved-IsMine op new stamp r h = record {
  reached = h.reached;
  free = h.free;
  operation = moved op new stamp h.operation;
  stored = refl;
  own = refl;
}

unknown_stays :
    (op new stamp : String) (r : Redis)
    → one_of new lifecycle_states ≡ false
    → transition op new (λ o. o) stamp r ≡ r
unfolding transition
unknown_stays op new stamp r unknown = rw unknown refl

pub transition-IsMine :
    (op new stamp : String) (r : Redis)
    → IsMine op r
    → IsMine op (transition op new (λ o. o) stamp r)
transition-IsMine op new stamp r h = elim (Bool-cases (one_of new lifecycle_states)) [
  | inl known ↦ rw (transition_moves op new stamp r h known) (moved-IsMine op new stamp r h)
  | inr unknown ↦ rw (unknown_stays op new stamp r unknown) h
]

synced-IsMine :
    (b : Bool) (op : String) (state : Option String) (stamp : String) (r : Redis)
    → IsMine op r
    → IsMine op (if b then r else sync_to op state stamp r)
synced-IsMine true op state stamp r h = h
synced-IsMine false op none stamp r h = h
synced-IsMine false op (some s) stamp r h = elim (Bool-cases (str_eq s "")) [
  | inl unnamed ↦ rw unnamed h
  | inr named ↦ rw named (transition-IsMine op s stamp r h)
]

-- The operation of the world is that of the run.
pub record IsOwn (op : String) (now : Run × World) : Type 0 where
  pub same : now.0.operation_id ≡ op
  pub mine : IsMine op now.1.redis

module _ (strip : String → String) (stamp : String) where
  set-IsMine :
      (run : Run) (wr : Write) (world : World)
      → IsMine run.operation_id world.redis
      → IsMine run.operation_id (set_status strip stamp run wr world).redis
  unfolding set_status
  set-IsMine run wr world h =
      synced-IsMine (str_eq run.operation_id "") run.operation_id
        (lifecycle_from_stage strip (some wr.stage) wr.pipeline_status) stamp _
        (record {
          reached = h.reached;
          free = h.free;
          operation = h.operation;
          stored = h.stored;
          own = h.own;
        })

  pub written-IsOwn :
      (op : String) (run : Run) (wr : Write) (world : World)
      → IsOwn op (run, world)
      → IsOwn op (run, set_status strip stamp run wr world)
  written-IsOwn op run wr world h = record {
    same = h.same;
    mine = rw (sym h.same) (set-IsMine run wr world (rw h.same h.mine));
  }

  pub report-IsOwn :
      (op : String) (run : Run) (keys : Keys) (stage : String) (progress : ℕ) (label : String)
      (world : World)
      → IsOwn op (run, world)
      → IsOwn op (run, report_run strip stamp run keys stage progress label world)
  unfolding report_run
  report-IsOwn op run keys stage progress label world h =
      written-IsOwn op run (report_of run keys stage progress label) world h

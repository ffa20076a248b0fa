-- ===== src/Watchdog/Recovery.antt =====
-- `reconcile_pipeline_state`, `apply_stall_cleanup`, `release_stalled_state` and
-- `enrich_live_status`: the watchdog's writes to the shared keys.
pub mod Room
use sky_trax_project.Prelude.{
  ℕ, String, Bool, true, false, not, ◌&&◌, Option, none, some, truthy, filled, or_default,
  if◌then◌else◌,
}
use sky_trax_project.Store.{
  Stored, nothing, broken, entry, Diagnosis, diagnosed, recovered_note, Operation, Status, Redis,
}
use sky_trax_project.Lifecycle.{get_active_operation, transition, clear_terminal}
use sky_trax_project.Watchdog.{
  Thresholds, Texts, ReconcileAction, no_action, enriched, soft_warning, stalled, skipped,
}
use sky_trax_project.Watchdog.Health.{evaluate_pipeline_health}

-- `str(r.get(REDIS_LOCK_KEY) or "")`, and the empty text where Redis cannot be reached.
unfoldable pub lock_owner : Redis → String
lock_owner r = if r.up then or_default r.refresh_lock "" else ""

-- `_persist_status`
unfoldable pub persist_status : Status → Redis → Redis
persist_status d r = if r.up then record r { status = entry d } else r

unfoldable pub drop_refresh_lock : Redis → Redis
drop_refresh_lock r = if r.up then record r { refresh_lock = none } else r

unfoldable pub drop_watchdog_lock : Redis → Redis
drop_watchdog_lock r = if r.up then record r { watchdog_lock = false } else r

abbrev pub note_of : Option Diagnosis → Operation → Operation
note_of none o = record o { stall_diagnosis = none }
note_of (some d) o = record o { stall_diagnosis = some (diagnosed d) }

-- The lifecycle part of `apply_stall_cleanup`, where the status names an operation.
unfoldable pub close_operation : Option String → (Operation → Operation) → String → Redis → Redis
close_operation none extra stamp r = r
close_operation (some op) extra stamp r = clear_terminal op (transition op "stalled" extra stamp r)

-- `apply_stall_cleanup`
unfoldable pub apply_stall_cleanup : Status → String → Redis → Redis
apply_stall_cleanup d stamp r =
    close_operation (filled d.operation_id) (note_of d.stall_diagnosis) stamp (drop_refresh_lock r)

abbrev id_of : Option Operation → Option String
id_of none = none
id_of (some o) = filled o.operation_id

abbrev pub with_recovery : Operation → Operation
with_recovery o = record o { stall_diagnosis = some recovered_note }

-- The lifecycle part of `release_stalled_state`: of the named operation, or else of the active one.
unfoldable pub release_operation : Option String → String → Redis → Redis
release_operation none stamp r = close_operation (id_of (get_active_operation r)) (λ o. o) stamp r
release_operation (some op) stamp r = close_operation (some op) with_recovery stamp r

-- `release_stalled_state`
unfoldable pub release_stalled_state : Option String → String → Redis → Redis
release_stalled_state op stamp r =
    release_operation (filled op) stamp (drop_watchdog_lock (drop_refresh_lock r))

-- What `reconcile_pipeline_state` returns; `unreachable` is the exception of its first call.
pub data Reconciled : Type 0 where
  unreachable watchdog_locked no_active_status invalid_status : Reconciled
  not_running : Option String → Reconciled
  stopped : Option String → Option Diagnosis → Reconciled
  checked : ReconcileAction → Status → Bool → Reconciled

-- `out["action"]`
abbrev pub action_of : Reconciled → ReconcileAction
action_of watchdog_locked = skipped
action_of (stopped _ _) = stalled
action_of (checked a _ _) = a
action_of _ = no_action

abbrev pub is_stalled : ReconcileAction → Bool
is_stalled stalled = true
is_stalled _ = false

module _ (t : Thresholds) (texts : Texts) (now : ℕ) (stamp : String) where
  -- The part of `reconcile_pipeline_state` for a running status, behind the watchdog's lock.
  unfoldable pub settle : Bool → Status → Redis → Reconciled × Redis
  settle persist d r =
      let (out, action) = evaluate_pipeline_health t texts d now (lock_owner r) stamp in
      if is_stalled action && persist
      then (
        stopped out.operation_id out.stall_diagnosis,
        apply_stall_cleanup out stamp (persist_status out r),
      )
      else (checked action out persist, if persist then persist_status out r else r)

  unfoldable pub reconcile_status : Bool → Stored Status → Redis → Reconciled × Redis
  reconcile_status persist nothing r = (no_active_status, r)
  reconcile_status persist broken r = (invalid_status, r)
  reconcile_status persist (entry d) r =
      if truthy d.running then settle persist d r else (not_running d.operation_id, r)

  -- `reconcile_pipeline_state`: the watchdog's lock is taken first and given back on every way out.
  unfoldable pub reconcile_pipeline_state : Bool → Redis → Reconciled × Redis
  unfolding reconcile_status
  reconcile_pipeline_state persist r =
      let locked = record r { watchdog_lock = true } in
      let (report, after) = reconcile_status persist r.status locked in
      if r.up
      then if r.watchdog_lock then (watchdog_locked, r) else (report, drop_watchdog_lock after)
      else (unreachable, r)

  -- `enrich_live_status`: a reader that finds a stall writes it down, if the lock is free.
  unfoldable pub enrich_live_status : Status → Redis → Status × Redis
  enrich_live_status d r =
      let (out, action) = evaluate_pipeline_health t texts d now (lock_owner r) stamp in
      let locked = record r { watchdog_lock = true } in
      if (is_stalled action && r.up) && not r.watchdog_lock
      then (out, drop_watchdog_lock (apply_stall_cleanup out stamp (persist_status out locked)))
      else (out, r)

-- ===== src/Dispatch.antt =====
-- api/operations_dispatch.py (`accept_and_dispatch_refresh`, the RQ enqueues) and
-- `set_initial_status` of worker/orchestration/refresh_pipeline.py: accepting a request and
-- handing it to the job queue, which is not part of the repository.
pub mod Answers
use sky_trax_project.Prelude.{
  ℕ, String, Bool, true, false, Option, none, some, List, [], or_default, str_eq, if◌then◌else◌,
}
use sky_trax_project.Store.{entry, Operation, Status, Redis}
use sky_trax_project.Lifecycle.{
  accept_refresh, Acceptance, Refusal, refused, accepted, raised, dispatch_locked, already_running,
  transition, mark_dispatch_failed,
}
use sky_trax_project.Lifecycle.Stages.{lifecycle_from_stage}
use sky_trax_project.Watchdog.{Thresholds, Texts}
use sky_trax_project.Watchdog.AcceptPath.{get_live_status_fast, prepare_accept_path, idle_status}
use sky_trax_project.Watchdog.Recovery.{release_stalled_state}

-- `_set_status` for the stage "queued": no stage of that name is terminal, so the run counts as
-- running. The keys that no part of the model reads are left out.
abbrev pub queued_status : String → String → String → Status
queued_status op trigger stamp = record idle_status {
  operation_id = some op;
  running = some true;
  stage = some "queued";
  progress = some 0;
  pipeline_status = some "queued";
  updated_at = some stamp;
  started_at = some stamp;
  events = [];
  triggered_by = some trigger;
}

abbrev sync_to : String → Option String → String → Redis → Redis
sync_to op none stamp r = r
sync_to op (some s) stamp r = if str_eq s "" then r else transition op s (λ o. o) stamp r

-- `_sync_lifecycle`
unfoldable pub sync_lifecycle :
    (String → String) → String → String → String → String → Redis → Redis
sync_lifecycle strip op stage pipeline_status stamp r =
    if str_eq op ""
    then r
    else sync_to op (lifecycle_from_stage strip (some stage) (some pipeline_status)) stamp r

-- `set_initial_status`: an exception of an unreachable Redis is swallowed.
unfoldable pub set_initial_status : (String → String) → String → String → String → Redis → Redis
set_initial_status strip op trigger stamp r =
    let moved = transition op "queued" (λ o. o) stamp r in
    let stored = record moved { status = entry (queued_status op trigger stamp) } in
    if r.up then sync_lifecycle strip op "queued" "queued" stamp stored else r

-- What an enqueue returns, or the text of its exception, cut to 300 characters.
pub record Job : Type 0 where
  pub job_id : String
  pub queue : String
  pub queue_depth : ℕ

pub data Enqueue : Type 0 where
  job : Job → Enqueue
  failure : String → Enqueue

-- The answers of `accept_and_dispatch_refresh`, by their HTTP status; `exception` is that of a
-- store that cannot be written.
pub data Answer : Type 0 where
  conflict_409 : Refusal → Option String → Option String → Answer
  accepted_202 : String → Job → Answer
  unavailable_503 : String → String → Answer
  exception : Answer

abbrev pub id_of_active : Option Operation → Option String
id_of_active none = some ""
id_of_active (some o) = o.operation_id

abbrev pub state_of_active : Option Operation → Option String
state_of_active none = none
state_of_active (some o) = o.lifecycle_state

module _ (strip : String → String) (op trigger : String) (enqueue : Enqueue) (stamp : String) where
  -- The part behind `set_initial_status`: the enqueue, which may fail.
  unfoldable pub dispatch : Enqueue → Redis → Answer × Redis
  dispatch (job j) r = (accepted_202 op j, r)
  dispatch (failure e) r = (unavailable_503 op e, mark_dispatch_failed op e stamp r)

  unfoldable pub answer : Acceptance → Redis → Answer × Redis
  unfolding dispatch
  answer (refused reason active) r =
      (conflict_409 reason (id_of_active active) (state_of_active active), r)
  answer (accepted o) r = dispatch enqueue (set_initial_status strip op trigger stamp r)
  answer raised r = (exception, r)

  -- `accept_and_dispatch_refresh` from `accept_refresh` on.
  unfoldable pub accept_and_dispatch : String → Redis → Answer × Redis
  unfolding answer
  accept_and_dispatch kind r =
      let (acceptance, r') = accept_refresh op trigger kind stamp r in answer acceptance r'

  -- `accept_and_dispatch_refresh`: `force` skips the reconciliation and releases the state of the
  -- live status in any case.
  unfoldable pub accept_and_dispatch_refresh :
      Thresholds → Texts → ℕ → ℕ → ℕ → Bool → String → Redis → Answer × Redis
  accept_and_dispatch_refresh t texts now₁ now₂ now₃ force kind r =
      let (live, seen) = get_live_status_fast t texts stamp now₁ r in
      let forced = release_stalled_state live.operation_id stamp seen in
      let (prepared, ready) = prepare_accept_path t texts stamp now₁ now₂ now₃ r in
      accept_and_dispatch kind (if force then forced else ready)

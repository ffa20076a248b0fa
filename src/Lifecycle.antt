-- ===== src/Lifecycle.antt =====
-- worker/orchestration/operation_lifecycle.py: the life of a refresh operation, from its
-- acceptance on. Keys may expire between two calls, which is a step of the environment.
pub mod Stages
pub mod Accepting
pub mod Interleaving
use sky_trax_project.Prelude.{
  String, Bool, true, false, not, ◌&&◌, ◌||◌, Option, none, some, List, [], ◌∷◌, ◌++◌, one_of,
  or_text, str_eq, if◌then◌else◌,
}
use sky_trax_project.Store.{
  Stored, nothing, broken, entry, Operation, no_operation, has_keys, Redis,
}

abbrev pub terminal_states : List String
terminal_states = "completed" ∷ "completed_degraded" ∷ "failed" ∷ "cancelled" ∷ "stalled" ∷ []

abbrev pub active_states : List String
active_states =
    "queued" ∷ "starting" ∷ "running" ∷ "running_slow" ∷ "finalizing" ∷ "recovering" ∷ []

abbrev pub lifecycle_states : List String
lifecycle_states = terminal_states ++ active_states

-- `state in TERMINAL_LIFECYCLE_STATES`, where `None` is in no set.
abbrev pub is_terminal : Option String → Bool
is_terminal none = false
is_terminal (some s) = one_of s terminal_states

abbrev pub is_named : Option String → String → Bool
is_named none op = false
is_named (some s) op = str_eq s op

abbrev pub if_active : Operation → Option Operation
if_active o = if is_terminal (or_text o.lifecycle_state o.state) then none else some o

abbrev read_active : Stored Operation → Option Operation
read_active nothing = none
read_active broken = none
read_active (entry o) = if_active o

-- `get_active_operation`: an exception is logged and gives `None`.
unfoldable pub get_active_operation : Redis → Option Operation
get_active_operation r = if r.up then read_active r.operation else none

-- `is_active`
unfoldable pub is_active : Redis → Bool
unfolding get_active_operation
is_active r = elim (get_active_operation r) [ none ↦ false | some _ ↦ true ]

-- `try_acquire_dispatch_lock`: `SET NX`. It answers yes where Redis cannot be reached.
unfoldable pub try_acquire_dispatch_lock : Redis → Bool × Redis
try_acquire_dispatch_lock r =
    if r.up
    then if r.dispatch_lock then (false, r) else (true, record r { dispatch_lock = true })
    else (true, r)

-- `release_dispatch_lock`: it deletes the key, whoever holds it.
unfoldable pub release_dispatch_lock : Redis → Redis
release_dispatch_lock r = if r.up then record r { dispatch_lock = false } else r

abbrev pub queued_operation : String → String → String → String → Operation
queued_operation op trigger kind now = record no_operation {
  operation_id = some op;
  lifecycle_state = some "queued";
  state = some "queued";
  pipeline_type = some kind;
  triggered_by = some trigger;
  queued_at = some now;
  updated_at = some now;
}

-- `create_queued`: `none` is the exception of an unreachable Redis.
unfoldable pub create_queued : String → String → String → String → Redis → Option Operation × Redis
create_queued op trigger kind now r =
    if r.up
    then (
      some (queued_operation op trigger kind now),
      record r { operation = entry (queued_operation op trigger kind now) },
    )
    else (none, r)

-- The operation that `transition` writes over `payload`, whose keys `extra` overrides.
abbrev moved_to : String → String → (Operation → Operation) → String → Operation → Operation
moved_to op new extra now o = extra (record o {
  operation_id = some op;
  lifecycle_state = some new;
  state = some new;
  updated_at = some now;
})

abbrev belongs_to_other : Option String → String → Bool
belongs_to_other none op = false
belongs_to_other (some s) op = not (str_eq s "") && not (str_eq s op)

abbrev transition_from :
    String → String → (Operation → Operation) → String → Stored Operation → Stored Operation
transition_from op new extra now nothing = entry (moved_to op new extra now no_operation)
transition_from op new extra now broken = broken
transition_from op new extra now (entry o) =
    if belongs_to_other o.operation_id op then entry o else entry (moved_to op new extra now o)

-- `transition`: an unknown state, an operation of another id, and an exception change nothing.
unfoldable pub transition : String → String → (Operation → Operation) → String → Redis → Redis
transition op new extra now r =
    if one_of new lifecycle_states && r.up
    then record r { operation = transition_from op new extra now r.operation }
    else r

-- `mark_dispatch_failed`; `error` is already cut to 300 characters.
unfoldable pub mark_dispatch_failed : String → String → String → Redis → Redis
unfolding transition
mark_dispatch_failed op error now =
    transition op "failed" (λ o. record o { dispatch_error = some error; queued = some false }) now

abbrev clear_if : String → Stored Operation → Stored Operation
clear_if op nothing = nothing
clear_if op broken = broken
clear_if op (entry o) = if is_named o.operation_id op then nothing else entry o

-- `clear_terminal`: it compares the id, and looks at no state.
unfoldable pub clear_terminal : String → Redis → Redis
clear_terminal op r = if r.up then record r { operation = clear_if op r.operation } else r

pub data Refusal : Type 0 where
  dispatch_locked already_running : Refusal

pub data Acceptance : Type 0 where
  refused : Refusal → Option Operation → Acceptance
  accepted : Operation → Acceptance
  raised : Acceptance

-- `if active:`
abbrev pub is_truthy : Option Operation → Bool
is_truthy none = false
is_truthy (some o) = has_keys o

abbrev pub created : Option Operation → Acceptance
created none = raised
created (some o) = accepted o

-- The body of the `try` of `accept_refresh`.
unfoldable pub accept_locked : String → String → String → String → Redis → Acceptance × Redis
unfolding get_active_operation create_queued
accept_locked op trigger kind now r =
    let (made, r') = create_queued op trigger kind now r in
    if is_truthy (get_active_operation r)
    then (refused already_running (get_active_operation r), r)
    else (created made, r')

-- `accept_refresh`: the lock is released on every way out of the `try`.
unfoldable pub accept_refresh : String → String → String → String → Redis → Acceptance × Redis
unfolding try_acquire_dispatch_lock accept_locked release_dispatch_lock get_active_operation
    create_queued
accept_refresh op trigger kind now r =
    let (acquired, r') = try_acquire_dispatch_lock r in
    let (answer, r'') = accept_locked op trigger kind now r' in
    if acquired
    then (answer, release_dispatch_lock r'')
    else (refused dispatch_locked (get_active_operation r'), r')

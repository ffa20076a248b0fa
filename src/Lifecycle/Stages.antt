-- ===== src/Lifecycle/Stages.antt =====
-- `lifecycle_from_stage`: from the labels of a stage and of the pipeline to a lifecycle state.
use sky_trax_project.Prelude.{
  String, true, ◌≡◌, Option, none, some, List, [], ◌∷◌, ◌++◌, one_of, or_default, str_eq,
  if◌then◌else◌, arith, refl, map,
}
use sky_trax_project.Lifecycle.{terminal_states, active_states, lifecycle_states}

-- `(text or "").strip()`, where `strip` is Python's.
abbrev label : (String → String) → Option String → String
label strip t = strip (or_default t "")

-- The states that a label is not copied into.
abbrev fixed_labels : List String
fixed_labels =
    "finalizing" ∷ "stalled" ∷ "failed" ∷ "recovering" ∷ "starting" ∷ "running_slow" ∷ "running"
    ∷ []

unfoldable pub lifecycle_of_labels : String → String → Option String
lifecycle_of_labels st ps =
    if one_of ps (active_states ++ terminal_states)
    then some ps
    else if one_of st terminal_states
    then some st
    else if one_of st ("finalizing" ∷ "persisting" ∷ [])
    then some "finalizing"
    else if str_eq st "stalled"
    then some "stalled"
    else if str_eq st "failed"
    then some "failed"
    else if str_eq ps "stalled"
    then some "stalled"
    else if str_eq ps "recovering"
    then some "recovering"
    else if one_of st ("idle" ∷ "" ∷ [])
    then none
    else if str_eq st "starting"
    then some "starting"
    else if one_of st ("running_slow" ∷ "busy_without_heartbeat" ∷ [])
    then some "running_slow"
    else some "running"

unfoldable pub lifecycle_from_stage :
    (String → String) → Option String → Option String → Option String
unfolding lifecycle_of_labels
lifecycle_from_stage strip stage pipeline_status =
    lifecycle_of_labels (label strip stage) (label strip pipeline_status)

one_of-swap :
    (s : String)
    → one_of s (active_states ++ terminal_states) ≡ true
    → one_of s lifecycle_states ≡ true
unfolding one_of
one_of-swap s h = ground arith

pub one_of-terminal :
    (s : String) → one_of s terminal_states ≡ true → one_of s lifecycle_states ≡ true
unfolding one_of
one_of-terminal s h = ground arith

fixed_states : map (λ s. one_of s lifecycle_states) fixed_labels ≡ map (λ _. true) fixed_labels
unfolding one_of
fixed_states = refl

-- Whatever the two labels are, the state that they are mapped to is one that `transition` takes.
pub lifecycle_from_stage_sound :
    (strip : String → String) (stage pipeline_status : Option String) (s : String)
    → lifecycle_from_stage strip stage pipeline_status ≡ some s
    → one_of s lifecycle_states ≡ true
unfolding lifecycle_from_stage
lifecycle_from_stage_sound strip stage pipeline_status s h = ground (
  arith,
  one_of-swap (label strip pipeline_status),
  one_of-terminal (label strip stage),
  fixed_states,
)

-- ===== src/Pipeline/Recorded/Stages.antt =====
-- Each stage of a run keeps its bookkeeping.
use sky_trax_project.Prelude.{
  ℕ, ◌≡◌, refl, sym, ◌⊎◌, inl, inr, String, Bool, true, false, not, ◌&&◌, Option, none, some, List,
  [], ◌∷◌, ◌++◌, str_eq, if◌then◌else◌, is_some, lookup, insert, lookup-insert, arith, Bool-cases,
  Option-cases,
}
use sky_trax_project.StageResults.{blob, Blob, Results, text}
use sky_trax_project.Integrity.{Minima}
use sky_trax_project.Reconcile.{Failure, Patterns, result_fails, text_is, fusion_excused}
use sky_trax_project.Runtime.Blocks.{is_stage_blocked}
use sky_trax_project.Pipeline.{World, Run, has_delivered, add_event}
use sky_trax_project.Pipeline.Stage.{
  Ending, returns, raises, Setting, failure_of, heartbeats, is_soft_failure, degrade, succeed,
  settle, run_function, block_stage, skip_stage, skip_payload, blocked_result, run_checked,
  run_stage, check_dependency_contract, last_beat, fail_stage,
}
use sky_trax_project.Pipeline.Recorded.{set_result}

-- The results and the errors of a run.
abbrev pub Books : Type 0
Books = Results × List Failure

abbrev pub books : Run → Books
books run = (run.results, run.errors)

-- The stage succeeded: its result is no failure.
pub record IsPassed (stage : String) (before after : Books) : Type 0 where
  pub result : Blob
  pub passes : result_fails stage (blob result) ≡ false
  pub entered : after ≡ (set_result stage result before.0, before.1)

-- The stage failed: its result has not delivered, and there is one more error.
pub record IsFailed (stage : String) (before after : Books) : Type 0 where
  pub result : Blob
  pub failure : Failure
  pub own : failure.stage ≡ stage
  pub undelivered : has_delivered result ≡ false
  pub entered : after ≡ (set_result stage result before.0, before.1 ++ failure ∷ [])

abbrev pub HasEnded : String → Books → Books → Type 0
HasEnded stage before after = IsPassed stage before after ⊎ IsFailed stage before after

-- No other stage than the fusion returns the keys of a fusion that has delivered.
abbrev pub IsHonest : String → Ending → Type 0
IsHonest stage (returns b) = (has_delivered b && not (str_eq stage "fusion")) ≡ false
IsHonest stage (raises e) = Unit

success_passes :
    (stage : String) (b : Blob)
    → is_soft_failure b ≡ false
    → (has_delivered b && not (str_eq stage "fusion")) ≡ false
    → result_fails stage (blob b) ≡ false
unfolding is_soft_failure result_fails fusion_excused has_delivered
success_passes stage b hard honest = elim (Option-cases (lookup "error" b)) [
  | inl absent ↦ rw absent (ground arith)
  | inr (v, there) ↦ ground arith
]

pub only_if {ℓ} :
    {A : Type ℓ} (c : Bool) (b payload : A)
    → (if c then some b else none) ≡ some payload
    → b ≡ payload
only_if true b payload h = ground arith
only_if false b payload h = absurd (ground arith)

-- What holds of both branches holds of the run that goes on.
chosen :
    (blocked broken : Bool) (stage : String) (before : Books) (a b next : Run × World)
    → HasEnded stage before (books a.0)
    → HasEnded stage before (books b.0)
    → (if blocked then some a else if broken then none else some b) ≡ some next
    → HasEnded stage before (books next.0)
chosen false true stage before a b next p q h = absurd (ground arith)
chosen true broken stage before a b next p q h = rw (sym (only_if true a next h)) p
chosen false false stage before a b next p q h = rw (sym (only_if true b next h)) q

blocked_undelivered : has_delivered blocked_result ≡ false
unfolding has_delivered text_is lookup
blocked_undelivered = refl

payload_undelivered : (stage : String) → has_delivered (skip_payload stage) ≡ false
unfolding skip_payload has_delivered text_is lookup
payload_undelivered stage = refl

module _ (patterns : Patterns) (minima : Minima) (strip lower : String → String)
    (stamp duration : String) where
  heartbeats-keeps :
      (stage : String) (progress : ℕ) (details : List String) (run : Run) (world : World)
      → books
          (heartbeats patterns minima strip lower stamp duration stage progress details
            (run, world)).0
        ≡ books run
  unfolding heartbeats
  heartbeats-keeps stage progress [] run world = refl
  heartbeats-keeps stage progress (d ∷ details) run world =
      heartbeats-keeps stage progress details _ _

  soft_undelivered : (b : Blob) → is_soft_failure b ≡ true → has_delivered b ≡ false
  unfolding is_soft_failure
  soft_undelivered b soft = ground arith

  degraded_undelivered :
      (c : String) (b : Blob)
      → has_delivered b ≡ false
      → has_delivered (insert "degraded_classification" (text c) b) ≡ false
  unfolding has_delivered
  degraded_undelivered c b h =
      rw
        (
          lookup-insert "fusion_status" "degraded_classification" (text c) b,
          lookup-insert "signals_generated" "degraded_classification" (text c) b,
        )
        h

  settle-HasEnded :
      (stage : String) (e : Ending) (run : Run)
      → IsHonest stage e
      → HasEnded stage
          (books run)
          (books (settle patterns minima strip lower stamp duration stage e run))
  unfolding settle degrade succeed fail_stage has_delivered
  settle-HasEnded stage (returns b) run honest = elim (Bool-cases (is_soft_failure b)) [
    | inl soft ↦ rw soft (
        inr (record {
          result = _;
          failure = _;
          own = refl;
          undelivered = degraded_undelivered _ b (soft_undelivered b soft);
          entered = refl;
        }))
    | inr hard ↦
        rw hard
          (inl (record { result = b; passes = success_passes stage b hard honest; entered = refl }))
  ]
  settle-HasEnded stage (raises e) run honest = inr (record {
    result = ("error", text e) ∷ [];
    failure = failure_of stage e false none;
    own = refl;
    undelivered = refl;
    entered = refl;
  })

  beaten-HasEnded :
      (stage : String) (progress : ℕ) (details : List String) (before : Books) (run : Run)
      (world : World)
      → HasEnded stage before (books run)
      → HasEnded stage before (
          books
            (heartbeats patterns minima strip lower stamp duration stage progress details
              (run, world)).0)
  beaten-HasEnded stage progress details before run world h =
      rw (heartbeats-keeps stage progress details run world) h

  HasEnded-from :
      (stage : String) (before start after : Books)
      → before ≡ start
      → HasEnded stage before after
      → HasEnded stage start after
  HasEnded-from stage before start after e h = rw (sym e) h

  function-HasEnded :
      (s : Setting) (stage : String) (progress : ℕ) (run : Run) (world : World)
      → IsHonest stage s.ending
      → HasEnded stage (books run) (
          books
            (run_function patterns minima strip lower stamp duration s stage progress
              (run, world)).0)
  unfolding run_function add_event
  function-HasEnded s stage progress run world honest =
      beaten-HasEnded stage progress (last_beat s.ending) (books run) _ _ (
        HasEnded-from stage _ (books run) _ (heartbeats-keeps stage progress s.beats _ _)
          (settle-HasEnded stage s.ending _ honest))

  checked-HasEnded :
      (s : Setting) (stage : String) (index : ℕ) (o : Option Blob) (run : Run) (world : World)
      → IsHonest stage s.ending
      → ((payload : Blob) → o ≡ some payload → has_delivered payload ≡ false)
      → HasEnded stage (books run) (
          books
            (run_checked patterns minima strip lower stamp duration s stage index o (run, world)).0)
  unfolding run_checked skip_stage fail_stage add_event
  checked-HasEnded s stage index none run world honest skipped =
      function-HasEnded s stage _ run world honest
  checked-HasEnded s stage index (some payload) run world honest skipped = inr (record {
    result = payload;
    failure = _;
    own = refl;
    undelivered = skipped payload refl;
    entered = refl;
  })

  skip_undelivered :
      (s : Setting) (stage : String) (run : Run) (payload : Blob)
      → check_dependency_contract minima s stage run ≡ some payload
      → has_delivered payload ≡ false
  unfolding check_dependency_contract
  skip_undelivered s stage run payload h =
      rw (sym (only_if _ (skip_payload stage) payload h)) (payload_undelivered stage)

  -- A stage that ran, or was kept from running, has ended with a result and its error, if any.
  pub stage-HasEnded :
      (s : Setting) (stage : String) (index : ℕ) (run : Run) (world : World) (next : Run × World)
      → IsHonest stage s.ending
      → run_stage patterns minima strip lower stamp duration s stage index (run, world) ≡ some next
      → HasEnded stage (books run) (books next.0)
  unfolding run_stage block_stage fail_stage add_event
  stage-HasEnded s stage index run world next honest h =
      chosen (is_stage_blocked stage world.runtime) (is_some s.broken) stage (books run) _ _ next
        (inr (record {
          result = blocked_result;
          failure = failure_of stage "schema_blocked" true none;
          own = refl;
          undelivered = blocked_undelivered;
          entered = refl;
        }))
        (checked-HasEnded s stage index _ run world honest (skip_undelivered s stage run)) h

-- ===== src/Governor/Loop/Outcome.antt =====
-- What `run` reports: how the loop ended decides the final state.
use sky_trax_project.Prelude.{
  ℕ, ◌+◌, ◌-◌, ◌≡◌, ◌≢◌, ◌⊎◌, refl, ◌∙◌, if◌then◌else◌, Bool, true, false, Option, none, some, List,
  [], ◌∷◌, arith,
}
use sky_trax_project.Governor.{
  Limits, Texts, Governor, zombie, terminated, completed, completed_degraded, Trigger,
  TelemetrySnapshot, TerminationEvent, zombie_kill, StatusRead, read_telemetry, unreadable, missing,
  blob,
}
use sky_trax_project.Governor.Triggers.Keeps.{evaluate_triggers-Keeps}
use sky_trax_project.Governor.Progress.{update_state, emit_heartbeat}
use sky_trax_project.Governor.Kill.{
  Answers, event_of, sigterm, sigkill, sigkill_tree, terminate, cleanup_redis,
}
use sky_trax_project.Governor.Loop.{
  Poll, Watch, exited, killed, watching, poll_triggers, go_on, finish, watch, elapsed_at,
  ReturnCode, is_zero, collect_result,
}

-- The process outlives every signal of the protocol.
pub record Survives (a : Answers) : Type 0 where
  pub got_term : a.term_finds ≡ true
  pub ignored_term : a.exits_gracefully ≡ false
  pub got_kill : a.kill_finds ≡ true
  pub ignored_kill : a.exits_on_kill ≡ false

module _ (limits : Limits) (texts : Texts) where
  module _ (a : Answers) (t : Trigger) (snap : TelemetrySnapshot) (elapsed : ℕ) (g : Governor) where
    abbrev pub TerminationSplit : Type 0
    TerminationSplit =
        (Survives a
          × ((terminate limits texts a t snap elapsed g).0.state ≡ zombie)
          × ((terminate limits texts a t snap elapsed g).1 ≡ sigterm ∷ sigkill ∷ sigkill_tree ∷ []))
        ⊎ (¬ Survives a
            × ((terminate limits texts a t snap elapsed g).0.state ≡ terminated)
            × (((terminate limits texts a t snap elapsed g).1 ≡ sigterm ∷ [])
                ⊎ ((a.exits_gracefully ≡ false)
                    × ((terminate limits texts a t snap elapsed g).1 ≡ sigterm ∷ sigkill ∷ []))))

    -- A process that is found by both signals and outlives both waits leaves the governor in the
    -- state `zombie`, with the process tree killed last. In every other case the state is
    -- `terminated`, and SIGKILL was sent after SIGTERM only where the process had not exited
    -- gracefully; the process tree is not killed.
    pub terminate_cases : TerminationSplit
    unfolding terminate
    terminate_cases = ground arith

-- The marks of a termination in the status blob, where there is one.
abbrev pub Marked : TerminationEvent → StatusRead → Type 0
Marked e unreadable = Unit
Marked e missing = Unit
Marked e (blob ct _) =
    (ct.governor_terminated ≡ some true)
    × (ct.termination_trigger ≡ some e.trigger)
    × (ct.termination_state ≡ some e.final_state)

-- The process is gone, or it is a zombie that no signal of the protocol removed.
abbrev pub EndsDead : TerminationEvent → Type 0
EndsDead e =
    ((e.final_state ≡ terminated) × (e.kill_type ≢ zombie_kill))
    ⊎ ((e.final_state ≡ zombie) × (e.kill_type ≡ zombie_kill))

-- What `_collect_result` reports of each end of the loop.
abbrev pub WellReported : ReturnCode → ℕ → Watch → Type 0
WellReported rc now (watching g) = g.termination_event ≡ none
WellReported rc now (exited g) =
    ((collect_result rc now g).termination ≡ none)
    × ((collect_result rc now g).report_state
        ≡ (if is_zero rc then completed else completed_degraded))
WellReported rc now (killed g signals after) =
    (e : TerminationEvent) × ((collect_result rc now g).termination ≡ some e)
    × ((collect_result rc now g).report_state ≡ e.final_state)
    × EndsDead e
    × Marked e after

module _ (limits : Limits) (texts : Texts) (has_callback : Bool) (rc : ReturnCode) (now : ℕ) where
  killed-WellReported :
      (a : Answers) (t : Trigger) (snap : TelemetrySnapshot) (elapsed : ℕ) (g : Governor)
      (status : StatusRead) (at : ℕ)
      → let (g', signals) = terminate limits texts a t snap elapsed g in
        WellReported rc now (killed g' signals (cleanup_redis g' status at))
  unfolding collect_result terminate cleanup_redis
  killed-WellReported a t snap elapsed g unreadable at =
      (event_of limits texts a t snap elapsed, refl, refl, ground arith, tt)
  killed-WellReported a t snap elapsed g missing at =
      (event_of limits texts a t snap elapsed, refl, refl, ground arith, tt)
  killed-WellReported a t snap elapsed g (blob ct old) at =
      (event_of limits texts a t snap elapsed, refl, refl, ground arith, (refl, refl, refl))

  finish-WellReported :
      (t : Trigger) (p : Poll) (elapsed : ℕ) (g : Governor)
      → WellReported rc now (finish limits texts has_callback t p elapsed g)
  unfolding finish
  finish-WellReported t p elapsed g =
      killed-WellReported p.answers t _ elapsed g p.status_after p.now_cleanup

  exited-WellReported : (g : Governor) → g.termination_event ≡ none → WellReported rc now (exited g)
  unfolding collect_result
  exited-WellReported g fresh = (fresh, ground arith)

  if-WellReported :
      (b : Bool) (w v : Watch)
      → WellReported rc now w
      → WellReported rc now v
      → WellReported rc now (if b then w else v)
  if-WellReported true w v h k = h
  if-WellReported false w v h k = k

  decide-WellReported :
      (o : Option Trigger) (rest : Watch) (ended : Trigger → Watch)
      → WellReported rc now rest
      → ((t : Trigger) → WellReported rc now (ended t))
      → WellReported rc now (elim o as (λ _. Watch) [ some t ↦ ended t | none ↦ rest ])
  decide-WellReported none rest ended h k = h
  decide-WellReported (some t) rest ended h k = k t

  next_round : Poll → Governor → Governor
  next_round p g =
      go_on limits texts has_callback p (elapsed_at limits texts has_callback p g)
        (poll_triggers limits texts has_callback p g).1

  next_round-event :
      (p : Poll) (g : Governor) → (next_round p g).termination_event ≡ g.termination_event
  unfolding next_round go_on update_state emit_heartbeat poll_triggers
  next_round-event p g = ground (
    arith,
    (evaluate_triggers-Keeps limits texts (read_telemetry p.status p.now_read)
        (p.now_round - g.started_at) p.now_evaluate
        (record g { poll_count = g.poll_count + 1 })).same_event,
  )

  -- However the loop ends, from a governor with no termination event: a process that exited by
  -- itself is reported as completed if its return code is zero and as degraded if not, with no
  -- termination; a process that was terminated is reported in the state of its event, `terminated`
  -- or `zombie`, and the status blob, where there is one, carries the same trigger and state.
  pub watch-WellReported :
      (polls : List Poll) (g : Governor)
      → g.termination_event ≡ none
      → WellReported rc now (watch limits texts has_callback polls g)
  unfolding watch finish next_round
  watch-WellReported [] g fresh = fresh
  watch-WellReported (p ∷ ps) g fresh =
      let elapsed = elapsed_at limits texts has_callback p g in
      let (trigger, g') = poll_triggers limits texts has_callback p g in
      let rest = watch limits texts has_callback ps (next_round p g) in
      let ended = λ (t : Trigger). finish limits texts has_callback t p elapsed g' in
      if-WellReported p.alive (elim trigger as (λ _. Watch) [ some t ↦ ended t | none ↦ rest ])
        (exited g)
        (decide-WellReported trigger rest ended
          (watch-WellReported ps (next_round p g) (next_round-event p g ∙ fresh))
          (λ t. finish-WellReported t p elapsed g'))
        (exited-WellReported g fresh)

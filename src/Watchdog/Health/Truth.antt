-- ===== src/Watchdog/Health/Truth.antt =====
-- What the corrected status object says, by the action that comes with it.
use sky_trax_project.Prelude.{
  ℕ, ◌<◌, ◌≡◌, ◌≢◌, refl, String, Bool, true, false, none, some, truthy, filled, or_default, [],
  ◌∷◌, ◌++◌, arith, ltb, ◌||◌, if◌then◌else◌,
}
use sky_trax_project.Store.{Event, Status}
use sky_trax_project.Watchdog.{
  Thresholds, ReconcileAction, no_action, enriched, soft_warning, stalled, skipped, Texts,
  last_activity_timestamp, heartbeat_age_seconds, no_progress_seconds, compute_worker_alive,
}
use sky_trax_project.Watchdog.Stall.{hard_limit}
use sky_trax_project.Watchdog.Health.{
  evaluate_running, evaluate_pipeline_health, mark_stalled, mark_slow, mark_healthy, with_ages,
  is_fatal, is_soft, snapshot_of,
}

-- The run goes on as it was.
abbrev pub GoesOn : Status → Status → Type 0
GoesOn d out =
    (truthy d.running ≡ true)
    × (truthy out.running ≡ true)
    × (out.stage ≡ d.stage)
    × (out.events ≡ d.events)
    × (out.stall_diagnosis ≡ d.stall_diagnosis)
    × (out.operation_id ≡ d.operation_id)

-- What each action promises of the status before and after.
abbrev pub Promise : Status → Status → ReconcileAction → Type 0
Promise d out no_action =
    (truthy d.running ≡ false) × (out ≡ record d { worker_alive = some false })
Promise d out enriched = (out.pipeline_status ≡ d.pipeline_status) × GoesOn d out
Promise d out soft_warning = GoesOn d out
Promise d out stalled =
    (truthy d.running ≡ true)
    × (truthy out.running ≡ false)
    × (out.stage ≡ some "stalled")
    × (out.pipeline_status ≡ some "stalled")
    × (out.stall_diagnosis ≢ none)
    × ((e : Event) × (out.events ≡ d.events ++ e ∷ [])
        × (e.event_operation ≡ some (or_default d.operation_id "")))
    × (out.operation_id ≡ d.operation_id)
Promise d out skipped = ⊥

if-Promise :
    (d : Status) (b : Bool) (x y : Status × ReconcileAction)
    → (b ≡ true → Promise d x.0 x.1)
    → (b ≡ false → Promise d y.0 y.1)
    → Promise d (if b then x else y).0 (if b then x else y).1
if-Promise d true x y h k = h refl
if-Promise d false x y h k = k refl

module _ (t : Thresholds) (texts : Texts) (d : Status) (now : ℕ) (owner stamp : String) where
  evaluate_running-Promise :
      truthy d.running ≡ true
      → let (out, action) = evaluate_running t texts d now owner stamp in Promise d out action
  unfolding evaluate_running mark_stalled mark_slow mark_healthy with_ages
  evaluate_running-Promise run =
      let snap = snapshot_of t texts d now owner in
      let out = with_ages t texts d snap (last_activity_timestamp texts d) in
      let late = is_soft snap.stall_type || ltb t.stale_soft_s snap.heartbeat_age_s in
      let slow : Status × ReconcileAction = (mark_slow t texts out, soft_warning) in
      let healthy : Status × ReconcileAction =
        (mark_healthy t texts out snap.heartbeat_age_s, enriched) in
      if-Promise d (is_fatal snap.stall_type) (mark_stalled t texts d out snap stamp, stalled)
        (if late then slow else healthy)
        (λ _. (run, refl, refl, refl, (λ e. cc), (_, refl, refl), refl))
        (λ _.
          if-Promise d late slow healthy (λ _. (run, refl, refl, refl, refl, refl))
            (λ _. (refl, (run, run, refl, refl, refl, refl))))

  -- The action tells the truth about the status object that comes with it. For `stalled` the status
  -- ran before, and is stopped, labelled as stalled in stage and label, and given a diagnosis; its
  -- events are the old ones and one more, of the status's operation. For `no_action` the status did
  -- not run, and nothing but `worker_alive` is written. For `enriched` and `soft_warning` it runs
  -- before and after with the same stage, events, diagnosis and operation, for `enriched` also with
  -- the same label. It is never `skipped`.
  pub evaluate-Promise :
      let (out, action) = evaluate_pipeline_health t texts d now owner stamp in Promise d out action
  unfolding evaluate_pipeline_health
  evaluate-Promise =
      if-Promise d (truthy d.running) _ _ evaluate_running-Promise (λ idle. (idle, refl))

-- No threshold is zero.
pub record ArePositive (t : Thresholds) (d : Status) : Type 0 where
  pub some_timeout : 0 < t.heartbeat_timeout_s
  pub some_grace : 0 < t.queued_grace_s
  pub some_start : 0 < t.starting_orphan_threshold_s
  pub some_idle : 0 < t.no_progress_stall_s
  pub some_limit : 0 < hard_limit t d

-- No key of the status holds a time.
pub record IsTimeless (d : Status) : Type 0 where
  pub no_heartbeat : filled d.last_heartbeat_at ≡ none
  pub no_inner_heartbeat : filled d.heartbeat_at ≡ none
  pub no_update : filled d.updated_at ≡ none
  pub no_progress_time : filled d.last_progress_at ≡ none
  pub no_start : filled d.started_at ≡ none

module _ (t : Thresholds) (texts : Texts) (d : Status) (now : ℕ) (owner stamp : String) where
  timeless_heartbeat_age : IsTimeless d → heartbeat_age_seconds texts d now ≡ 0
  unfolding heartbeat_age_seconds
  timeless_heartbeat_age h = ground arith

  timeless_idle : IsTimeless d → no_progress_seconds texts d now ≡ 0
  unfolding no_progress_seconds
  timeless_idle h = ground arith

  -- Where no threshold is zero, a running status that holds no time at all counts as one with a live
  -- worker, and is found neither stalled nor slow, whatever the clock says.
  pub timeless_status_never_stalls :
      ArePositive t d
      → IsTimeless d
      → truthy d.running ≡ true
      → ((evaluate_pipeline_health t texts d now owner stamp).1 ≡ enriched)
        × ((evaluate_pipeline_health t texts d now owner stamp).0.worker_alive ≡ some true)
  unfolding evaluate_pipeline_health evaluate_running compute_worker_alive with_ages mark_healthy
  timeless_status_never_stalls positive timeless run =
      ground (arith, timeless_heartbeat_age timeless, timeless_idle timeless)

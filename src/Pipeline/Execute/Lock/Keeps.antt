-- ===== src/Pipeline/Execute/Lock/Keeps.antt =====
-- A run writes to its own operation only, from its first status to its last.
use Prim.Native.String.{◌++◌ as append_text}
use sky_trax_project.Prelude.{
  ℕ, ◌+◌, ◌≡◌, sym, String, Bool, true, false, Option, none, some, List, [], ◌∷◌, if◌then◌else◌,
  is_some, arith, Bool-cases, Option-cases, inl, inr, take_text,
}
use sky_trax_project.StageResults.{Blob}
use sky_trax_project.Integrity.{Minima}
use sky_trax_project.Reconcile.{Patterns}
use sky_trax_project.Runtime.Blocks.{is_stage_blocked}
use sky_trax_project.Pipeline.{
  report_run, run_keys, beat_keys, final_keys, World, Run, add_event, live_status_label,
}
use sky_trax_project.Pipeline.Stage.{
  Ending, returns, raises, Setting, heartbeat_label, heartbeats, is_soft_failure, degrade, succeed,
  settle, settle_world, note_degraded, run_function, block_stage, skip_stage, run_checked,
  run_stage, check_dependency_contract, last_beat, fail_stage,
}
use sky_trax_project.Pipeline.Recorded.Stages.{only_if}
use sky_trax_project.Reconcile.Steps.{reconcile_pipeline_events}
use sky_trax_project.Pipeline.Execute.{
  or_snapshots, block_stages, reset_runtime, clear_history, assign_kpis, Course, Progress, going,
  stopped, next_stage, run_stages, finalization_heartbeat, refresh_totals, with_event,
  reconcile_operational_state, with_outcome, finalize, begin_run, assign_kpis,
}
use sky_trax_project.Pipeline.Execute.Lock.{IsOwn, written-IsOwn, report-IsOwn}

chosen :
    (op : String) (blocked broken : Bool) (a b next : Run × World)
    → IsOwn op a
    → IsOwn op b
    → (if blocked then some a else if broken then none else some b) ≡ some next
    → IsOwn op next
chosen op false true a b next p q h = absurd (ground arith)
chosen op true broken a b next p q h = rw (sym (only_if true a next h)) p
chosen op false false a b next p q h = rw (sym (only_if true b next h)) q

-- The run and the world of a progress.
abbrev pub now_of : Progress → Run × World
now_of (going now) = now
now_of (stopped e now) = now

module _ (patterns : Patterns) (minima : Minima) (strip lower : String → String)
    (stamp duration op : String) where
  heartbeats-IsOwn :
      (stage : String) (progress : ℕ) (details : List String) (run : Run) (world : World)
      → IsOwn op (run, world)
      → IsOwn op (
          heartbeats patterns minima strip lower stamp duration stage progress details (run, world))
  unfolding heartbeats
  heartbeats-IsOwn stage progress [] run world h = h
  heartbeats-IsOwn stage progress (d ∷ details) run world h =
      let run' = record run { heartbeat_count = run.heartbeat_count + 1 } in
      let label =
        heartbeat_label patterns minima strip lower stamp duration run stage (take_text 120 d) in
      let shown =
        report-IsOwn strip stamp op run' (beat_keys stamp progress run') stage progress label world
          (record { same = h.same; mine = h.mine }) in
      heartbeats-IsOwn stage progress details run' _ shown

  settled-IsOwn :
      (stage : String) (e : Ending) (run : Run) (world : World)
      → IsOwn op (run, world)
      → IsOwn op (
        settle patterns minima strip lower stamp duration stage e run,
        settle_world patterns minima strip lower stamp duration stage e
            (settle patterns minima strip lower stamp duration stage e run)
            world,
      )
  unfolding settle settle_world degrade succeed fail_stage add_event note_degraded
  settled-IsOwn stage (returns b) run world h = elim (Bool-cases (is_soft_failure b)) [
    | inl soft ↦ rw soft (record { same = h.same; mine = h.mine })
    | inr hard ↦ rw hard (record { same = h.same; mine = h.mine })
  ]
  settled-IsOwn stage (raises e) run world h = record { same = h.same; mine = h.mine }

  abbrev with_start : String → Run → Run
  with_start stage run =
      add_event stamp (append_text "Stage '" (append_text stage (append_text "' " "started"))) run

  function-IsOwn :
      (s : Setting) (stage : String) (progress : ℕ) (run : Run) (world : World)
      → IsOwn op (run, world)
      → IsOwn op
          (run_function patterns minima strip lower stamp duration s stage progress (run, world))
  unfolding run_function add_event
  function-IsOwn s stage progress run world h =
      let begun = with_start stage run in
      let shown =
        report_run strip stamp begun (run_keys begun) stage progress (live_status_label begun)
          world in
      let (beaten, seen) =
        heartbeats patterns minima strip lower stamp duration stage progress s.beats
          (begun, shown) in
      let ended = settle patterns minima strip lower stamp duration stage s.ending beaten in
      let noted =
        settle_world patterns minima strip lower stamp duration stage s.ending ended seen in
      let (final, heard) =
        heartbeats patterns minima strip lower stamp duration stage progress (last_beat s.ending)
          (ended, noted) in
      let start : IsOwn op (begun, world) = record { same = h.same; mine = h.mine } in
      report-IsOwn strip stamp op final (run_keys final) stage progress (live_status_label final)
        heard
        (heartbeats-IsOwn stage progress (last_beat s.ending) ended noted (
          settled-IsOwn stage s.ending beaten seen (
            heartbeats-IsOwn stage progress s.beats begun shown (
              report-IsOwn strip stamp op begun (run_keys begun) stage progress
                (live_status_label begun) world start))))

  checked-IsOwn :
      (s : Setting) (stage : String) (index : ℕ) (o : Option Blob) (run : Run) (world : World)
      → IsOwn op (run, world)
      → IsOwn op
          (run_checked patterns minima strip lower stamp duration s stage index o (run, world))
  unfolding run_checked skip_stage fail_stage add_event note_degraded
  checked-IsOwn s stage index none run world h = function-IsOwn s stage _ run world h
  checked-IsOwn s stage index (some payload) run world h = record { same = h.same; mine = h.mine }

  stage-IsOwn :
      (s : Setting) (stage : String) (index : ℕ) (now next : Run × World)
      → IsOwn op now
      → run_stage patterns minima strip lower stamp duration s stage index now ≡ some next
      → IsOwn op next
  unfolding run_stage block_stage fail_stage add_event note_degraded
  stage-IsOwn s stage index (run, world) next h e =
      chosen op (is_stage_blocked stage world.runtime) (is_some s.broken) _ _ next
        (record { same = h.same; mine = h.mine })
        (checked-IsOwn s stage index (check_dependency_contract minima s stage run) run world h) e

  next-IsOwn :
      (s : Setting) (stage : String) (index : ℕ) (p : Progress)
      → IsOwn op (now_of p)
      → IsOwn op (now_of (next_stage patterns minima strip lower stamp duration s stage index p))
  unfolding next_stage
  next-IsOwn s stage index (stopped e now) h = h
  next-IsOwn s stage index (going now) h =
      elim (Option-cases (run_stage patterns minima strip lower stamp duration s stage index now)) [
        | inl over ↦ rw over h
        | inr (next, onward) ↦ rw onward (stage-IsOwn s stage index now next h onward)
      ]

  pub run_stages-IsOwn :
      (rest : List String) (ss : List Setting) (index : ℕ) (p : Progress)
      → IsOwn op (now_of p)
      → IsOwn op (now_of (run_stages patterns minima strip lower stamp duration rest ss index p))
  unfolding run_stages
  run_stages-IsOwn [] ss index p h = h
  run_stages-IsOwn (stage ∷ rest) [] index p h = h
  run_stages-IsOwn (stage ∷ rest) (s ∷ ss) index p h =
      run_stages-IsOwn rest ss (index + 1) _ (next-IsOwn s stage index p h)

  pub begin-IsOwn :
      (course : Course) (run : Run) (world : World)
      → IsOwn op (run, world)
      → IsOwn op (begin_run patterns minima strip lower stamp duration course (run, world))
  unfolding begin_run add_event
  begin-IsOwn course run world h =
      let ready = record world {
        runtime = block_stages patterns minima strip lower stamp duration course.report (
            reset_runtime patterns minima strip lower stamp duration run.operation_id
              world.runtime);
      } in
      written-IsOwn strip stamp op (add_event stamp "Pipeline started" run)
        (record {
          stage = "crawl";
          progress = 5;
          pipeline_status = none;
          keys = run_keys run;
          kpis = none;
          completed_stages = [];
          failed_stages = [];
        })
        ready (record { same = h.same; mine = h.mine })

  beat-IsOwn :
      (label : String) (progress : ℕ) (now : Run × World)
      → IsOwn op now
      → IsOwn op
          (finalization_heartbeat patterns minima strip lower stamp duration label progress now)
  unfolding finalization_heartbeat
  beat-IsOwn label progress (run, world) h =
      report-IsOwn strip stamp op (record run { heartbeat_count = run.heartbeat_count + 1 })
        (final_keys stamp run) (or_snapshots run.last_successful_stage) progress label world
        (record { same = h.same; mine = h.mine })

  totals-IsOwn :
      (course : Course) (run : Run) (world : World)
      → IsOwn op (run, world)
      → IsOwn op (refresh_totals patterns minima strip lower stamp duration course run, world)
  unfolding refresh_totals
  totals-IsOwn course run world h = with_it course.propagated
    where
      with_it :
          (o : Option String)
          → IsOwn op (
            with_event patterns minima strip lower stamp duration o
                (record run { kpis = assign_kpis course.refreshed run.kpis }),
            world,
          )
      with_it none = record { same = h.same; mine = h.mine }
      with_it (some message) = record { same = h.same; mine = h.mine }

  reconciled-IsOwn :
      (course : Course) (now : Run × World)
      → IsOwn op now
      → IsOwn op (reconcile_operational_state patterns minima strip lower stamp duration course now)
  unfolding reconcile_operational_state with_outcome
  reconciled-IsOwn course (run, world) h =
      let out =
        reconcile_pipeline_events patterns course.schema run.kpis run.operation_id stamp run.errors
          run.results run.events in
      let run' = with_outcome patterns minima strip lower stamp duration out run in
      let cleared = record world {
        runtime =
            clear_history patterns minima strip lower stamp duration run.operation_id out.cleared
              world.runtime;
      } in
      report-IsOwn strip stamp op run' (run_keys run') (or_snapshots run'.last_successful_stage) 90
        (live_status_label run') cleared (record { same = h.same; mine = h.mine })

  pub finalize-IsOwn :
      (course : Course) (now : Run × World)
      → IsOwn op now
      → IsOwn op (finalize patterns minima strip lower stamp duration course now)
  unfolding finalize
  finalize-IsOwn course now h =
      let (run, world) =
        finalization_heartbeat patterns minima strip lower stamp duration "finalizing" 92 now in
      beat-IsOwn "persisting" 98 _ (
        beat-IsOwn "finalizing" 95 _ (
          reconciled-IsOwn course _
            (totals-IsOwn course run world (beat-IsOwn "finalizing" 92 now h))))

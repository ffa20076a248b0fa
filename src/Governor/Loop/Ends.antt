-- ===== src/Governor/Loop/Ends.antt =====
-- The loop of `run` ends: the hard timeout bounds the number of polls.
use sky_trax_project.Prelude.{
  ℕ, ◌+◌, ◌*◌, ◌≤◌, ◌<◌, ◌≡◌, ◌≢◌, ◌∙◌, Bool, some, List, [], ◌∷◌, length, arith,
}
use native.Mathlib.Decide.{dec_lt}
use sky_trax_project.Governor.{
  Limits, seconds, Texts, Governor, hard_timeout, read_telemetry, TelemetrySnapshot,
}
use sky_trax_project.Governor.Triggers.Keeps.{evaluate_triggers-Keeps}
use sky_trax_project.Governor.Triggers.Table.{table, evaluate_triggers-eq-table}
use sky_trax_project.Governor.Progress.{update_state, emit_heartbeat}
use sky_trax_project.Governor.Loop.{Poll, watching, elapsed_at, poll_triggers, go_on, finish, watch}

-- Each poll comes at least `gap` after the one before, the first at `from` or later.
abbrev pub Paced : ℕ → ℕ → List Poll → Type 0
Paced gap from [] = Unit
Paced gap from (p ∷ ps) = (from ≤ p.now_round) × Paced gap (p.now_round + gap) ps

module _ (limits : Limits) (texts : Texts) (has_callback : Bool) where
  table_timeout :
      (snap : TelemetrySnapshot) (elapsed now : ℕ) (g : Governor)
      → seconds limits.crawl_hard_timeout_s < elapsed
      → table limits texts snap elapsed now g ≡ some hard_timeout
  unfolding table
  table_timeout snap elapsed now g late = ground arith

  poll_timeout :
      (p : Poll) (g : Governor)
      → g.started_at + seconds limits.crawl_hard_timeout_s < p.now_round
      → (poll_triggers limits texts has_callback p g).0 ≡ some hard_timeout
  unfolding poll_triggers
  poll_timeout p g late =
      evaluate_triggers-eq-table limits texts _ _ _ _
      ∙ table_timeout (read_telemetry p.status p.now_read) _ p.now_evaluate _ (omega arith)

  poll_triggers-started :
      (p : Poll) (g : Governor)
      → (poll_triggers limits texts has_callback p g).1.started_at ≡ g.started_at
  unfolding poll_triggers
  poll_triggers-started p g = (evaluate_triggers-Keeps limits texts _ _ _ _).started

  go_on-started :
      (p : Poll) (elapsed : ℕ) (g : Governor)
      → (go_on limits texts has_callback p elapsed g).started_at ≡ g.started_at
  unfolding go_on update_state emit_heartbeat
  go_on-started p elapsed g = ground arith

  watch_ends_from :
      (gap from : ℕ) (polls : List Poll) (g g' : Governor)
      → Paced gap from polls
      → from ≤ g.started_at + seconds limits.crawl_hard_timeout_s + gap
      → g.started_at + seconds limits.crawl_hard_timeout_s + gap < from + gap * length polls
      → watch limits texts has_callback polls g ≢ watching g'
  unfolding watch finish
  watch_ends_from gap from [] g g' paced reached many = absurd (omega arith)
  watch_ends_from gap from (p ∷ ps) g g' paced reached many =
      let g₁ = (poll_triggers limits texts has_callback p g).1 in
      let g₂ = go_on limits texts has_callback p (elapsed_at limits texts has_callback p g) g₁ in
      let same : g₂.started_at ≡ g.started_at = go_on-started p _ g₁ ∙ poll_triggers-started p g in
      elim (dec_lt (g.started_at + seconds limits.crawl_hard_timeout_s) p.now_round) [
        | yes late ↦ ground (arith, poll_timeout p g late)
        | no early ↦ ground (
          arith,
          watch_ends_from gap (p.now_round + gap) ps g₂ g' paced.1 (omega (arith, same))
              (omega (arith, same)),
        )
      ]

  -- If the polls come at least `gap` apart, from the start on, and are so many that together they
  -- pass the hard timeout, the loop does not run past them: the process has exited or the governor
  -- has terminated it, whatever the telemetry says.
  pub watch_ends :
      (gap : ℕ) (polls : List Poll) (g g' : Governor)
      → Paced gap g.started_at polls
      → seconds limits.crawl_hard_timeout_s + gap < gap * length polls
      → watch limits texts has_callback polls g ≢ watching g'
  watch_ends gap polls g g' paced many =
      watch_ends_from gap g.started_at polls g g' paced (omega arith) (omega arith)

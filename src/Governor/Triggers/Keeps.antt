-- ===== src/Governor/Triggers/Keeps.antt =====
-- What `_evaluate_triggers` leaves alone, and how the fields that it watches move.
use sky_trax_project.Prelude.{ℕ, ◌≤◌, ◌≡◌, Option, none, some, arith}
use sky_trax_project.Governor.{Limits, Trigger, Texts, TelemetrySnapshot, Governor}
use sky_trax_project.Governor.Triggers.{
  Check, resume, ◌>>◌, check_timeout, check_saturation, check_inserts, check_pages,
  check_duplicates, check_airline, check_hash, check_throughput, check_progress, check_after_grace,
  evaluate_triggers,
}

-- The later fields belong to the loop; the counts that the checks watch never fall.
pub record Keeps (g g' : Governor) : Type 0 where
  pub started : g'.started_at ≡ g.started_at
  pub same_state : g'.state ≡ g.state
  pub same_event : g'.termination_event ≡ g.termination_event
  pub same_polls : g'.poll_count ≡ g.poll_count
  pub same_heartbeats : g'.heartbeats ≡ g.heartbeats
  pub inserts_grow : g.last_insert_count ≤ g'.last_insert_count
  pub pages_grow : g.last_page_count ≤ g'.last_page_count

record IsSteady (c : Check) : Type 0 where
  at : (g : Governor) → Keeps g (c g).1

Keeps-refl : (g : Governor) → Keeps g g
Keeps-refl g = ground arith

Keeps-trans : (a b c : Governor) → Keeps a b → Keeps b c → Keeps a c
Keeps-trans a b c h k = ground arith

resume-Keeps :
    (a : Governor) (t : Option Trigger) (next : Check) (b : Governor)
    → Keeps a b
    → IsSteady next
    → Keeps a (resume t next b).1
resume-Keeps a none next b h steady = Keeps-trans a b (next b).1 h (steady.at b)
resume-Keeps a (some t) next b h steady = h

>>-IsSteady : (first next : Check) → IsSteady first → IsSteady next → IsSteady (first >> next)
>>-IsSteady first next h k = record {
  at = λ g. resume-Keeps g (first g).0 next (first g).1 (h.at g) k;
}

module _ (limits : Limits) (texts : Texts) (snap : TelemetrySnapshot) (elapsed now : ℕ) where
  check_timeout-IsSteady : IsSteady (check_timeout limits texts snap elapsed now)
  unfolding check_timeout
  check_timeout-IsSteady = record { at = λ g. ground arith }

  check_saturation-IsSteady : IsSteady (check_saturation limits texts snap elapsed now)
  unfolding check_saturation
  check_saturation-IsSteady = record { at = λ g. ground arith }

  check_inserts-IsSteady : IsSteady (check_inserts limits texts snap elapsed now)
  unfolding check_inserts
  check_inserts-IsSteady = record { at = λ g. ground arith }

  check_pages-IsSteady : IsSteady (check_pages limits texts snap elapsed now)
  unfolding check_pages
  check_pages-IsSteady = record { at = λ g. ground arith }

  check_duplicates-IsSteady : IsSteady (check_duplicates limits texts snap elapsed now)
  unfolding check_duplicates
  check_duplicates-IsSteady = record { at = λ g. ground arith }

  check_airline-IsSteady : IsSteady (check_airline limits texts snap elapsed now)
  unfolding check_airline
  check_airline-IsSteady = record { at = λ g. ground arith }

  check_hash-IsSteady : IsSteady (check_hash limits texts snap elapsed now)
  unfolding check_hash
  check_hash-IsSteady = record { at = λ g. ground arith }

  check_throughput-IsSteady : IsSteady (check_throughput limits texts snap elapsed now)
  unfolding check_throughput
  check_throughput-IsSteady = record { at = λ g. ground arith }

  check_progress-IsSteady : IsSteady (check_progress limits texts snap elapsed now)
  unfolding check_progress
  check_progress-IsSteady =
      search
        (
          >>-IsSteady, check_inserts-IsSteady, check_pages-IsSteady, check_duplicates-IsSteady,
          check_airline-IsSteady, check_hash-IsSteady, check_throughput-IsSteady,
        )
        depth 8

  check_after_grace-IsSteady : IsSteady (check_after_grace limits texts snap elapsed now)
  unfolding check_after_grace
  check_after_grace-IsSteady = record {
    at = λ g. ground (arith, check_progress-IsSteady.at g, Keeps-refl g);
  }

  -- An evaluation leaves the start time, the state, the termination event, the poll count and the
  -- heartbeats as they are, and lowers neither the insert count nor the page count that it keeps.
  pub evaluate_triggers-Keeps :
      (g : Governor) → Keeps g (evaluate_triggers limits texts snap elapsed now g).1
  unfolding evaluate_triggers
  evaluate_triggers-Keeps =
      let steady : IsSteady (evaluate_triggers limits texts snap elapsed now) = search (
        >>-IsSteady, check_timeout-IsSteady, check_saturation-IsSteady, check_after_grace-IsSteady,
      ) in
      steady.at

-- ===== src/Governor/Triggers.antt =====
-- `SubprocessGovernor._evaluate_triggers`: the eight checks in their order. Each check may end
-- the evaluation with a trigger, and moves the fields that it watches.
pub mod Keeps
pub mod Table
pub mod Verdicts
use sky_trax_project.Prelude.{
  ℕ, ◌-◌, Option, none, some, ◌∷◌, ◌&&◌, not, ltb, ◌==◌, str_eq, if◌then◌else◌,
}
use sky_trax_project.Governor.{
  Limits, seconds, Trigger, hard_timeout, scrapy_saturation, no_inserts, reactor_hanging,
  duplicate_streak, static_airline, telemetry_frozen, zero_throughput, crawl_hard_kill,
  crawl_termination, crawl_reactor_hang, telemetry_static, crawl_no_insert_ms,
  crawl_duplicate_streak, Metric, Texts, TelemetrySnapshot, content_hash, Governor,
}

-- A check gives the trigger that ends the evaluation, or lets the next one run.
abbrev pub Check : Type 0
Check = Governor → Option Trigger × Governor

abbrev pub resume : Option Trigger → Check → Check
resume none next g = next g
resume (some t) next g = (some t, g)

infixr 5 ◌>>◌
abbrev pub ◌>>◌ : Check → Check → Check
first >> next = λ g. let (t, g') = first g in resume t next g'

abbrev pub pass : Check
pass g = (none, g)

abbrev pub stop : Trigger → Check
stop t g = (some t, g)

abbrev pub emit : Metric → Governor → Governor
emit m g = record g { metrics = m ∷ g.metrics }

module _ (limits : Limits) (texts : Texts) (snap : TelemetrySnapshot) (elapsed now : ℕ) where
  -- 1. Hard timeout
  unfoldable pub check_timeout : Check
  check_timeout g =
      if ltb (seconds limits.crawl_hard_timeout_s) elapsed
      then stop hard_timeout (emit crawl_hard_kill g)
      else pass g

  -- 2. Saturation reported by the crawl itself
  unfoldable pub check_saturation : Check
  check_saturation g =
      if snap.is_saturated then stop scrapy_saturation (emit crawl_termination g) else pass g

  -- 3. No inserts for too long
  unfoldable pub check_inserts : Check
  check_inserts g =
      if ltb g.last_insert_count snap.inserts
      then pass (record g { last_insert_count = snap.inserts; last_insert_time = now; streak = 0 })
      else if ltb (seconds limits.max_no_insert_s) (now - g.last_insert_time) && ltb 5 snap.pages
      then stop no_inserts (emit (crawl_no_insert_ms (now - g.last_insert_time)) g)
      else pass g

  -- 4. Page counter stalled
  unfoldable pub check_pages : Check
  check_pages g =
      if ltb g.last_page_count snap.pages
      then pass (record g { last_page_count = snap.pages; last_page_time = now })
      else if ltb (seconds limits.max_static_page_s) (now - g.last_page_time) && ltb 0 snap.pages
      then stop reactor_hanging (emit crawl_reactor_hang g)
      else pass g

  -- A negative difference of page counts is 0 here; either is not above the limit.
  abbrev pub pages_since_insert : Governor → ℕ
  pages_since_insert g =
      if ltb 0 g.last_insert_count then snap.pages - g.last_page_count else snap.pages

  -- 5. Duplicate streak
  unfoldable pub check_duplicates : Check
  check_duplicates g =
      if (ltb 0 snap.pages && snap.inserts == g.last_insert_count) && ltb 0 snap.dupes
      then if ltb limits.max_duplicate_streak (pages_since_insert g)
        then stop duplicate_streak (emit (crawl_duplicate_streak (pages_since_insert g)) g)
        else pass g
      else pass g

  -- 6. Airline unchanged too long
  unfoldable pub check_airline : Check
  check_airline g =
      if not (str_eq snap.airline "") && not (str_eq snap.airline g.last_airline)
      then pass (record g { last_airline = snap.airline; last_airline_time = now })
      else if not (str_eq snap.airline "") && str_eq snap.airline g.last_airline
      then if ltb (seconds limits.max_static_airline_s) (now - g.last_airline_time)
        then stop static_airline g
        else pass g
      else pass g

  -- 7. Telemetry hash frozen
  unfoldable pub check_hash : Check
  check_hash g =
      if not (str_eq (content_hash texts snap) g.last_telemetry_hash)
      then pass (record g {
        last_telemetry_hash = content_hash texts snap;
        last_telemetry_hash_time = now;
      })
      else if ltb (seconds limits.max_telemetry_static_s) (now - g.last_telemetry_hash_time)
          && ltb 0 snap.pages
      then stop telemetry_frozen (emit telemetry_static g)
      else pass g

  -- 8. Zero throughput sustained
  unfoldable pub check_throughput : Check
  check_throughput g =
      if ltb 0 snap.throughput
      then pass (record g { last_throughput_time = now })
      else if ltb (seconds limits.max_zero_throughput_s) (now - g.last_throughput_time)
          && ltb 5 snap.pages
      then stop zero_throughput g
      else pass g

  -- The checks that wait for thirty seconds of crawl.
  unfoldable pub check_progress : Check
  check_progress =
      check_inserts >> check_pages >> check_duplicates >> check_airline >> check_hash
      >> check_throughput

  unfoldable pub check_after_grace : Check
  check_after_grace g = if ltb elapsed (seconds 30) then pass g else check_progress g

  unfoldable pub evaluate_triggers : Check
  evaluate_triggers = check_timeout >> check_saturation >> check_after_grace

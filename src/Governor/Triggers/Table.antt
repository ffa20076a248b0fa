-- ===== src/Governor/Triggers/Table.antt =====
-- `_evaluate_triggers` against a table of conditions on the fields as they stand before the poll.
use sky_trax_project.Prelude.{
  ℕ, ◌-◌, ◌≤◌, ◌<◌, ◌≡◌, refl, Bool, Option, none, some, ◌&&◌, not, ltb, leb, ◌==◌, str_eq,
  if◌then◌else◌, arith,
}
use sky_trax_project.Governor.{
  Limits, seconds, Trigger, hard_timeout, scrapy_saturation, no_inserts, reactor_hanging,
  duplicate_streak, static_airline, telemetry_frozen, zero_throughput, Texts, TelemetrySnapshot,
  content_hash, Governor,
}
use sky_trax_project.Governor.Triggers.{
  Check, ◌>>◌, check_timeout, check_saturation, check_inserts, check_pages, check_duplicates,
  check_airline, check_hash, check_throughput, check_progress, check_after_grace, evaluate_triggers,
}

module _ (limits : Limits) (texts : Texts) (snap : TelemetrySnapshot) (elapsed now : ℕ) where
  -- `since` lies more than `limit` seconds back.
  abbrev overdue : ℕ → ℕ → Bool
  overdue limit since = ltb (seconds limit) (now - since)

  abbrev unless : Bool → Trigger → Option Trigger → Option Trigger
  unless b t rest = if b then some t else rest

  abbrev throughput_row : Governor → Option Trigger
  throughput_row g =
      unless
        ((not (ltb 0 snap.throughput)
            && overdue limits.max_zero_throughput_s g.last_throughput_time)
          && ltb 5 snap.pages)
        zero_throughput none

  abbrev hash_row : Governor → Option Trigger
  hash_row g =
      unless
        ((str_eq (content_hash texts snap) g.last_telemetry_hash
            && overdue limits.max_telemetry_static_s g.last_telemetry_hash_time)
          && ltb 0 snap.pages)
        telemetry_frozen (throughput_row g)

  airline_row : Governor → Option Trigger
  airline_row g =
      unless
        ((not (str_eq snap.airline "") && str_eq snap.airline g.last_airline)
          && overdue limits.max_static_airline_s g.last_airline_time)
        static_airline (hash_row g)

  -- Only a crawl that has never inserted anything has a duplicate streak.
  duplicates_row : Governor → Option Trigger
  duplicates_row g =
      unless
        (((snap.inserts == 0 && g.last_insert_count == 0) && ltb 0 snap.dupes)
          && ltb limits.max_duplicate_streak snap.pages)
        duplicate_streak (airline_row g)

  pages_row : Governor → Option Trigger
  pages_row g =
      unless
        ((leb snap.pages g.last_page_count && overdue limits.max_static_page_s g.last_page_time)
          && ltb 0 snap.pages)
        reactor_hanging (duplicates_row g)

  inserts_row : Governor → Option Trigger
  inserts_row g =
      unless
        ((leb snap.inserts g.last_insert_count && overdue limits.max_no_insert_s g.last_insert_time)
          && ltb 5 snap.pages)
        no_inserts (pages_row g)

  -- The table, from the most severe row on.
  unfoldable pub table : Governor → Option Trigger
  unfolding inserts_row pages_row duplicates_row airline_row
  table g = unless (ltb (seconds limits.crawl_hard_timeout_s) elapsed) hard_timeout (
      unless snap.is_saturated scrapy_saturation
        (if ltb elapsed (seconds 30) then none else inserts_row g))

  abbrev airline_check : Check
  airline_check = check_airline limits texts snap elapsed now

  from_hash : Check
  from_hash =
      check_hash limits texts snap elapsed now >> check_throughput limits texts snap elapsed now

  from_hash_lem : (g : Governor) → (from_hash g).0 ≡ hash_row g
  unfolding from_hash check_hash check_throughput
  from_hash_lem g = ground arith

  from_airline : Check
  from_airline = airline_check >> from_hash

  from_airline_lem : (g : Governor) → (from_airline g).0 ≡ airline_row g
  unfolding from_airline check_airline airline_row
  from_airline_lem g = ground (arith, from_hash_lem (airline_check g).1)

  from_duplicates : Check
  from_duplicates = check_duplicates limits texts snap elapsed now >> from_airline

  from_pages : Check
  from_pages = check_pages limits texts snap elapsed now >> from_duplicates

  -- What `check_pages` leaves, where it moves the page counter.
  abbrev pages_moved : Governor → Governor
  pages_moved g = record g { last_page_count = snap.pages; last_page_time = now }

  duplicates_row-pages_moved : (g : Governor) → duplicates_row (pages_moved g) ≡ duplicates_row g
  unfolding airline_row duplicates_row
  duplicates_row-pages_moved g = refl

  -- What `check_inserts` leaves, where it moves the insert count.
  abbrev inserts_moved : Governor → Governor
  inserts_moved g = record g {
    last_insert_count = snap.inserts;
    last_insert_time = now;
    streak = 0;
  }

  airline_row-inserts_moved : (g : Governor) → airline_row (inserts_moved g) ≡ airline_row g
  unfolding airline_row
  airline_row-inserts_moved g = refl

  duplicates_row-inserts_moved :
      (g : Governor)
      → g.last_insert_count < snap.inserts
      → duplicates_row (inserts_moved g) ≡ duplicates_row g
  unfolding duplicates_row
  duplicates_row-inserts_moved g more = ground (arith, airline_row-inserts_moved g)

  -- A streak counts no pages once an insert was seen, since the page counter is then up to date.
  from_duplicates_lem :
      (g : Governor)
      → snap.inserts ≤ g.last_insert_count
      → snap.pages ≤ g.last_page_count
      → (from_duplicates g).0 ≡ duplicates_row g
  unfolding from_duplicates check_duplicates duplicates_row
  from_duplicates_lem g caught_up counted = ground (arith, from_airline_lem g)

  from_pages_lem :
      (g : Governor) → snap.inserts ≤ g.last_insert_count → (from_pages g).0 ≡ pages_row g
  unfolding from_pages check_pages pages_row
  from_pages_lem g caught_up = ground (
    arith,
    from_duplicates_lem g caught_up,
    from_duplicates_lem (pages_moved g) caught_up,
    duplicates_row-pages_moved g,
  )

  pages_row-inserts_moved :
      (g : Governor)
      → g.last_insert_count < snap.inserts
      → pages_row (inserts_moved g) ≡ pages_row g
  unfolding pages_row
  pages_row-inserts_moved g more = ground (arith, duplicates_row-inserts_moved g more)

  from_inserts : Check
  from_inserts = check_inserts limits texts snap elapsed now >> from_pages

  from_inserts_lem : (g : Governor) → (from_inserts g).0 ≡ inserts_row g
  unfolding from_inserts check_inserts inserts_row
  from_inserts_lem g =
      ground (arith, from_pages_lem g, from_pages_lem (inserts_moved g), pages_row-inserts_moved g)

  check_progress_lem :
      (g : Governor) → (check_progress limits texts snap elapsed now g).0 ≡ inserts_row g
  unfolding check_progress from_inserts from_pages from_duplicates from_airline from_hash
  check_progress_lem g = from_inserts_lem g

  -- One poll answers by the first row of the table whose condition holds on the fields as they
  -- stand before the poll, whatever the checks have moved by then.
  pub evaluate_triggers-eq-table :
      (g : Governor) → (evaluate_triggers limits texts snap elapsed now g).0 ≡ table g
  unfolding evaluate_triggers check_timeout check_saturation check_after_grace table
  evaluate_triggers-eq-table g = ground (arith, check_progress_lem g)

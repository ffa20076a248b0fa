-- ===== src/Governor/Triggers/Verdicts.antt =====
-- Which crawls a poll ends and which it leaves alone, read off the table of triggers.
use sky_trax_project.Prelude.{ℕ, ◌-◌, ◌≤◌, ◌<◌, ◌≡◌, ◌≢◌, false, none, some, arith, sym, ◌∙◌}
use sky_trax_project.Governor.{
  Limits, seconds, duplicate_streak, Texts, TelemetrySnapshot, Governor,
}
use sky_trax_project.Governor.Triggers.{evaluate_triggers}
use sky_trax_project.Governor.Triggers.Table.{table, evaluate_triggers-eq-table}

module _ (limits : Limits) (texts : Texts) (snap : TelemetrySnapshot) (elapsed now : ℕ) where
  table_duplicates :
      (g : Governor)
      → table limits texts snap elapsed now g ≡ some duplicate_streak
      → (g.last_insert_count ≡ 0) × (snap.inserts ≡ 0) × (limits.max_duplicate_streak < snap.pages)
  unfolding table
  table_duplicates g h = ground arith

  -- The duplicate streak ends a crawl only while nothing was ever inserted, before this poll and
  -- in it, and more pages than the limit were read: once a review was inserted, no number of pages
  -- with only duplicates raises it.
  pub duplicate_streak_only_before_insert :
      (g : Governor)
      → (evaluate_triggers limits texts snap elapsed now g).0 ≡ some duplicate_streak
      → (g.last_insert_count ≡ 0) × (snap.inserts ≡ 0) × (limits.max_duplicate_streak < snap.pages)
  duplicate_streak_only_before_insert g h =
      table_duplicates g (sym (evaluate_triggers-eq-table limits texts snap elapsed now g) ∙ h)

  table_page_stall :
      (g : Governor)
      → seconds 30 ≤ elapsed
      → 0 < snap.pages
      → snap.pages ≤ g.last_page_count
      → seconds limits.max_static_page_s < now - g.last_page_time
      → table limits texts snap elapsed now g ≢ none
  unfolding table
  table_page_stall g late some_pages stuck overdue = ground arith

  -- After the first thirty seconds, a poll that finds the page counter stuck for longer than the
  -- limit ends the crawl, by this trigger or by one before it.
  pub page_stall_ends_crawl :
      (g : Governor)
      → seconds 30 ≤ elapsed
      → 0 < snap.pages
      → snap.pages ≤ g.last_page_count
      → seconds limits.max_static_page_s < now - g.last_page_time
      → (evaluate_triggers limits texts snap elapsed now g).0 ≢ none
  page_stall_ends_crawl g late some_pages stuck overdue h =
      table_page_stall g late some_pages stuck overdue
        (sym (evaluate_triggers-eq-table limits texts snap elapsed now g) ∙ h)

  -- What a crawl has to show at a poll to be left alone.
  pub record IsProgressing (g : Governor) : Type 0 where
    pub in_time : elapsed ≤ seconds limits.crawl_hard_timeout_s
    pub unsaturated : snap.is_saturated ≡ false
    pub inserting : g.last_insert_count < snap.inserts
    pub paging : g.last_page_count < snap.pages
    pub flowing : 0 < snap.throughput
    pub airline_recent : now - g.last_airline_time ≤ seconds limits.max_static_airline_s
    pub hash_recent : now - g.last_telemetry_hash_time ≤ seconds limits.max_telemetry_static_s

  table_progressing :
      (g : Governor) → IsProgressing g → table limits texts snap elapsed now g ≡ none
  unfolding table
  table_progressing g h = ground arith

  -- A crawl that inserts, turns pages, has throughput and has seen its airline and its telemetry
  -- change recently is left alone.
  pub progressing_crawl_survives :
      (g : Governor)
      → IsProgressing g
      → (evaluate_triggers limits texts snap elapsed now g).0 ≡ none
  progressing_crawl_survives g h =
      evaluate_triggers-eq-table limits texts snap elapsed now g ∙ table_progressing g h

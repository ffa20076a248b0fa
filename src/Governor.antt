-- ===== src/Governor.antt =====
-- worker/subprocess_governor.py: the governor that watches a crawl subprocess. This file holds
-- its thresholds, enumerations, telemetry and fields (`__init__`, `_read_telemetry`).
-- Clocks are read in milliseconds and thresholds are whole seconds; `reviews_per_second`, which
-- scraper/extensions/telemetry.py rounds to one decimal, is counted in tenths.
pub mod Triggers
pub mod Progress
pub mod Kill
pub mod Loop
use Prim.Native.String.{◌++◌}
use sky_trax_project.Prelude.{ℕ, ◌*◌, String, Bool, false, Option, none, List, [], or_default}

-- The thresholds that the environment may override.
pub record Limits : Type 0 where
  pub max_duplicate_streak : ℕ
  pub max_no_insert_s : ℕ
  pub max_static_page_s : ℕ
  pub max_static_airline_s : ℕ
  pub max_telemetry_static_s : ℕ
  pub max_zero_throughput_s : ℕ
  pub crawl_hard_timeout_s : ℕ

abbrev pub default_limits : Limits
default_limits = record {
  max_duplicate_streak = 30;
  max_no_insert_s = 180;
  max_static_page_s = 120;
  max_static_airline_s = 300;
  max_telemetry_static_s = 120;
  max_zero_throughput_s = 120;
  crawl_hard_timeout_s = 3600;
}

abbrev pub seconds : ℕ → ℕ
seconds s = s * 1000

pub data CrawlState : Type 0 where
  running running_no_progress saturated terminating terminated zombie stalled completed
        completed_degraded :
      CrawlState

-- What `_evaluate_triggers` names.
pub data Trigger : Type 0 where
  hard_timeout scrapy_saturation no_inserts reactor_hanging duplicate_streak static_airline
        telemetry_frozen zero_throughput :
      Trigger

pub data KillType : Type 0 where
  graceful hard_kill zombie_kill : KillType

-- The calls of `metrics_fn`, with the values that vary.
pub data Metric : Type 0 where
  crawl_hard_kill crawl_termination crawl_reactor_hang telemetry_static crawl_zombie : Metric
  crawl_no_insert_ms crawl_duplicate_streak : ℕ → Metric

-- Python's decimal text of an integer, and `hashlib.md5(raw.encode()).hexdigest()[:16]`.
pub record Texts : Type 0 where
  pub decimal : ℕ → String
  pub md5_prefix : String → String

-- The `crawl_telemetry` entry of the status blob, with the marks that the governor leaves there.
pub record CrawlTelemetry : Type 0 where
  pub pages_processed : Option ℕ
  pub reviews_added : Option ℕ
  pub duplicates_skipped : Option ℕ
  pub current_airline : Option String
  pub reviews_per_second : Option ℕ
  pub is_saturated : Option Bool
  pub is_stalled : Option Bool
  pub governor_terminated : Option Bool
  pub termination_trigger : Option Trigger
  pub termination_state : Option CrawlState

-- What the read of the status key meets: an exception, no value, or a blob.
pub data StatusRead : Type 0 where
  unreadable missing : StatusRead
  blob : CrawlTelemetry → Option ℕ → StatusRead

pub record TelemetrySnapshot : Type 0 where
  pub pages : ℕ
  pub inserts : ℕ
  pub dupes : ℕ
  pub airline : String
  pub throughput : ℕ
  pub is_saturated : Bool
  pub is_stalled : Bool
  pub timestamp : ℕ

abbrev pub empty_snapshot : ℕ → TelemetrySnapshot
empty_snapshot now = record {
  pages = 0;
  inserts = 0;
  dupes = 0;
  airline = "";
  throughput = 0;
  is_saturated = false;
  is_stalled = false;
  timestamp = now;
}

unfoldable pub content_hash : Texts → TelemetrySnapshot → String
content_hash t s = t.md5_prefix (
    t.decimal s.pages ++ "|" ++ t.decimal s.inserts ++ "|" ++ t.decimal s.dupes ++ "|" ++ s.airline)

-- `_read_telemetry`
unfoldable pub read_telemetry : StatusRead → ℕ → TelemetrySnapshot
read_telemetry unreadable now = empty_snapshot now
read_telemetry missing now = empty_snapshot now
read_telemetry (blob ct _) now = record {
  pages = or_default ct.pages_processed 0;
  inserts = or_default ct.reviews_added 0;
  dupes = or_default ct.duplicates_skipped 0;
  airline = or_default ct.current_airline "";
  throughput = or_default ct.reviews_per_second 0;
  is_saturated = or_default ct.is_saturated false;
  is_stalled = or_default ct.is_stalled false;
  timestamp = now;
}

-- `TerminationEvent`
pub record TerminationEvent : Type 0 where
  pub reason : String
  pub trigger : Trigger
  pub final_state : CrawlState
  pub elapsed_ms : ℕ
  pub telemetry : TelemetrySnapshot
  pub kill_type : KillType

-- What a heartbeat's detail line shows.
pub record Heartbeat : Type 0 where
  pub shown : TelemetrySnapshot
  pub label : CrawlState
  pub no_insert_s : ℕ
  pub elapsed_s : ℕ

-- The fields of `SubprocessGovernor`, with what it hands to its callbacks, newest first.
pub record Governor : Type 0 where
  pub started_at : ℕ
  pub state : CrawlState
  pub termination_event : Option TerminationEvent
  pub last_insert_time : ℕ
  pub last_insert_count : ℕ
  pub last_page_time : ℕ
  pub last_page_count : ℕ
  pub last_airline : String
  pub last_airline_time : ℕ
  pub last_telemetry_hash : String
  pub last_telemetry_hash_time : ℕ
  pub last_throughput_time : ℕ
  pub streak : ℕ
  pub poll_count : ℕ
  pub metrics : List Metric
  pub heartbeats : List Heartbeat

-- `__init__`: every clock starts at the one reading `now`.
unfoldable pub start : ℕ → Governor
start now = record {
  started_at = now;
  state = running;
  termination_event = none;
  last_insert_time = now;
  last_insert_count = 0;
  last_page_time = now;
  last_page_count = 0;
  last_airline = "";
  last_airline_time = now;
  last_telemetry_hash = "";
  last_telemetry_hash_time = now;
  last_throughput_time = now;
  streak = 0;
  poll_count = 0;
  metrics = [];
  heartbeats = [];
}

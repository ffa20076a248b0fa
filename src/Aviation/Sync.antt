-- ===== src/Aviation/Sync.antt =====
-- `_sync_airlines` of aviation/master_data/sync.py: every airline of OpenFlights in turn, and the
-- flush behind them. The tables of the alliances and of the regions are parameters.
pub mod Eligible
pub mod Unique
pub mod Growth
pub mod Persistent
pub mod Carried
pub mod Turns
pub mod Second
pub mod Twins
use sky_trax_project.Prelude.{
  ℕ, suc, ◌+◌, String, Bool, true, false, not, ◌&&◌, ◌||◌, Option, none, some, List, [], ◌∷◌,
  filled, or_text, is_some, if◌then◌else◌, Dict, str_eq, one_of,
}
use sky_trax_project.Aviation.Rows.{Airline, OpenFlightsAirline, Session, slugs, unique_slugs}
use sky_trax_project.Aviation.Identity.{Host, canonical_airline_slug, build_airline_slug_lookup}
use sky_trax_project.Aviation.Identity.Merge.{Resolved}
use sky_trax_project.Aviation.Identity.Resolve.{
  IdentityStats, IdentityAction, merge, create, skip, Resolution, resolve_airline_identity,
  count_if,
}

-- What the tables say of an airline: `_resolve_alliance_id`, the alliance's code by `iata` and by the
-- name, and `resolve_region`.
pub record Tables : Type 0 where
  pub resolve_alliance_id : Option String → String → Option String
  pub alliance_by_iata : Option String → Option String
  pub alliance_by_name : String → Option String
  pub region_of : Option String → Option String

pub record SyncStats : Type 0 where
  pub airlines_created : ℕ
  pub airlines_updated : ℕ
  pub airlines_skipped : ℕ

-- The variables of the loop.
pub record Loop : Type 0 where
  pub session : Session
  pub slug_lookup : Dict ℕ
  pub identity_stats : IdentityStats
  pub of_slug_stream : List String
  pub created_local : ℕ
  pub updated_local : ℕ
  pub skipped_local : ℕ

abbrev pub resolved_for : Tables → ℕ → OpenFlightsAirline → Resolved
resolved_for t now ofa = record {
  alliance_id = t.resolve_alliance_id ofa.iata ofa.name;
  alliance_code = or_text (t.alliance_by_iata ofa.iata) (t.alliance_by_name ofa.name);
  region = t.region_of ofa.country;
  now = now;
}

abbrev pub tally : Loop → List String → Resolution → IdentityAction → Loop
tally loop stream found skip = record loop {
  session = found.session;
  slug_lookup = found.slug_lookup;
  identity_stats = found.identity_stats;
  of_slug_stream = stream;
  skipped_local = suc loop.skipped_local;
}
tally loop stream found merge = record loop {
  session = found.session;
  slug_lookup = found.slug_lookup;
  identity_stats = found.identity_stats;
  of_slug_stream = stream;
  updated_local = count_if found.changed loop.updated_local;
}
tally loop stream found create = record loop {
  session = found.session;
  slug_lookup = found.slug_lookup;
  identity_stats = found.identity_stats;
  of_slug_stream = stream;
  created_local = suc loop.created_local;
}

-- One turn of the loop, for an airline with a slug and for any.
unfoldable pub resolve_turn : Host → Tables → ℕ → OpenFlightsAirline → String → Loop → Resolution
resolve_turn py t now ofa slug loop =
    let avoided = one_of slug loop.of_slug_stream in
    resolve_airline_identity py loop.session ofa loop.slug_lookup (resolved_for t now ofa)
      (record loop.identity_stats {
        slug_collisions_avoided = count_if avoided loop.identity_stats.slug_collisions_avoided;
      })

unfoldable pub sync_slug : Host → Tables → ℕ → OpenFlightsAirline → String → Loop → Loop
unfolding resolve_turn
sync_slug py t now ofa slug loop =
    let found = resolve_turn py t now ofa slug loop in
    tally loop (slug ∷ loop.of_slug_stream) found found.action

abbrev pub skip_airline : Loop → Loop
skip_airline loop = record loop { skipped_local = suc loop.skipped_local }

unfoldable pub sync_airline : Host → Tables → ℕ → OpenFlightsAirline → Loop → Loop
sync_airline py t now ofa loop =
    let slug = canonical_airline_slug py ofa.name in
    if str_eq ofa.name "" || not ofa.active
    then skip_airline loop
    else if str_eq slug ""
    then skip_airline loop
    else sync_slug py t now ofa slug loop

unfoldable pub sync_each : Host → Tables → ℕ → List OpenFlightsAirline → Loop → Loop
unfolding sync_airline
sync_each py t now [] loop = loop
sync_each py t now (ofa ∷ airlines) loop =
    sync_each py t now airlines (sync_airline py t now ofa loop)

-- The loop's start in a session that has loaded the rows.
unfoldable pub loop_start : List Airline → Loop
unfolding build_airline_slug_lookup
loop_start rows =
    let session : Session = record { stored = rows; objects = rows } in
    record {
      session = session;
      slug_lookup = build_airline_slug_lookup session;
      identity_stats = record {
        slug_collisions_avoided = 0;
        semantic_matches = 0;
        upserts = 0;
        merges = 0;
      };
      of_slug_stream = [];
      created_local = 0;
      updated_local = 0;
      skipped_local = 0;
    }

-- `session.flush()`: the rows written, or none where two share a slug (`IntegrityError`). The rows are
-- the objects as they are in memory; a change made in place inside `raw_metadata`, which SQLAlchemy
-- does not notice, counts as written. No other error of the database and no other writer is modelled.
unfoldable pub flush : Session → Option (List Airline)
unfolding slugs unique_slugs
flush session = if unique_slugs (slugs session.objects) then some session.objects else none

-- How a synchronisation ends: with the rows and the counts, or raising, the rows rolled back.
pub data SyncEnd : Type 0 where
  synced : List Airline → SyncStats → SyncEnd
  raised : SyncEnd

-- What an end leaves, where it is none that raises.
abbrev pub rows_of : SyncEnd → List Airline
rows_of raised = []
rows_of (synced rows stats) = rows

abbrev pub added : SyncStats → Loop → SyncStats
added stats loop = record {
  airlines_created = stats.airlines_created + loop.created_local;
  airlines_updated = stats.airlines_updated + loop.updated_local;
  airlines_skipped = stats.airlines_skipped + loop.skipped_local;
}

abbrev try_again : Option (List Airline) → SyncStats → Loop → SyncEnd → SyncEnd
try_again none stats loop again = again
try_again (some rows) stats loop again = synced rows (added stats loop)

-- `_sync_airlines`: after a conflict the nested transaction is rolled back and the loop is run once
-- more, `recovery`, whose conflict is raised.
unfoldable pub sync_once :
    Host → Tables → ℕ → List Airline → List OpenFlightsAirline → SyncStats → SyncEnd → SyncEnd
unfolding loop_start sync_each flush
sync_once py t now rows airlines stats again =
    let loop = sync_each py t now airlines (loop_start rows) in
    try_again (flush loop.session) stats loop again

unfoldable pub sync_airlines :
    Host → Tables → ℕ → List Airline → List OpenFlightsAirline → SyncStats → SyncEnd
unfolding sync_once
sync_airlines py t now rows airlines stats =
    sync_once py t now rows airlines stats (sync_once py t now rows airlines stats raised)

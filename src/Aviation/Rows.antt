-- ===== src/Aviation/Rows.antt =====
-- The rows of `airline_metadata` (database/models/aviation.py, the columns that the synchronisation
-- reads or writes), the airlines of OpenFlights (aviation/master_data/sources.py), and the session of
-- the database. A confidence is counted in hundredths. An object of the session is known by its
-- position: objects are never taken out.
use sky_trax_project.Prelude.{
  ℕ, zero, suc, String, Bool, true, not, ◌&&◌, Option, none, some, List, [], ◌∷◌, one_of, filled,
  is_some, if◌then◌else◌, Dict,
}

-- A value of `raw_metadata`: no object, or an object of texts.
pub data Metadata : Type 0 where
  value : String → Metadata
  entries : Dict (Option String) → Metadata

pub record Airline : Type 0 where
  pub airline_name : String
  pub slug : String
  pub iata_code : Option String
  pub icao_code : Option String
  pub callsign : Option String
  pub country : Option String
  pub canonical_country : Option String
  pub region : Option String
  pub normalized_name : Option String
  pub alliance_id : Option String
  pub alliance_code : Option String
  pub raw_metadata : Dict Metadata
  pub enrichment_status : Option String
  pub enrichment_confidence : ℕ
  pub source_confidence : ℕ
  pub normalization_confidence : ℕ
  pub metadata_quality_score : ℕ
  pub airline_type : Option String
  pub coverage_status : Option String
  pub last_enriched_at : Option ℕ
  pub last_seen_at : Option ℕ

pub record OpenFlightsAirline : Type 0 where
  pub openflights_id : String
  pub name : String
  pub alias : Option String
  pub iata : Option String
  pub icao : Option String
  pub callsign : Option String
  pub country : Option String
  pub active : Bool

-- What queries see, since nothing flushes before the end (`autoflush=False`), and the objects as they
-- are in memory: those loaded, at the same positions, and behind them those added.
pub record Session : Type 0 where
  pub stored : List Airline
  pub objects : List Airline

unfoldable pub slugs : List Airline → List String
slugs [] = []
slugs (a ∷ rows) = a.slug ∷ slugs rows

-- The unique constraint on `slug`.
unfoldable pub unique_slugs : List String → Bool
unique_slugs [] = true
unique_slugs (s ∷ rest) = not (one_of s rest) && unique_slugs rest

abbrev one_further : Option ℕ → Option ℕ
one_further none = none
one_further (some n) = some (suc n)

-- `session.scalar(select(AirlineMetadata).where(…))`
unfoldable pub first_row : (Airline → Bool) → List Airline → Option ℕ
first_row p [] = none
first_row p (a ∷ rows) = let rest = first_row p rows in if p a then some 0 else one_further rest

-- The object at a position, and the objects with another in its place.
unfoldable pub object_at : ℕ → List Airline → Option Airline
object_at n [] = none
object_at zero (a ∷ rows) = some a
object_at (suc n) (a ∷ rows) = object_at n rows

unfoldable pub put_object : ℕ → Airline → List Airline → List Airline
put_object n a [] = []
put_object zero a (b ∷ rows) = a ∷ rows
put_object (suc n) a (b ∷ rows) = b ∷ put_object n a rows

-- `if text:` for an optional text
abbrev pub has : Option String → Bool
has o = is_some (filled o)

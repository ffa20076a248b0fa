-- ===== src/Aviation/Identity/Unseen.antt =====
-- Merges that report what they did not do, or do what they do not report.
use sky_trax_project.Prelude.{
  ℕ, String, Bool, true, false, ◌||◌, Option, none, some, ◌≡◌, refl, ap, ◌∙◌, if◌then◌else◌, Dict,
  lookup, insert, lookup-insert, arith,
}
use sky_trax_project.Aviation.Rows.{Metadata, entries, Airline, OpenFlightsAirline, has}
use sky_trax_project.Aviation.Identity.{
  Host, merge_raw_metadata, normalize_icao, update_entries, merge_entries,
}
use sky_trax_project.Aviation.Identity.Merge.{
  Resolved, fills, patch_raw, openflights_entries, with_lineage, filled_row, fills_any, stamped_if,
  merge_airline_metadata_from_openflights,
}

stamped_if-changed : (b : Bool) (now : ℕ) (row : Airline) → (stamped_if b now row).1 ≡ b
stamped_if-changed true now row = refl
stamped_if-changed false now row = refl

stamped_if-icao :
    (b : Bool) (now : ℕ) (row : Airline) → (stamped_if b now row).0.icao_code ≡ row.icao_code
stamped_if-icao true now row = refl
stamped_if-icao false now row = refl

stamped_if-raw :
    (b : Bool) (now : ℕ) (row : Airline) → (stamped_if b now row).0.raw_metadata ≡ row.raw_metadata
stamped_if-raw true now row = refl
stamped_if-raw false now row = refl

icao_fills :
    (py : Host) (existing : Airline) (ofa : OpenFlightsAirline) (r : Resolved)
    → fills ofa.icao existing.icao_code ≡ true
    → fills_any py existing ofa r ≡ true
unfolding fills_any
icao_fills py existing ofa r h = rw h (ground arith)

-- Where an airline's ICAO code is given but malformed and the row has none, every merge counts as an update and leaves the row without a code, so that the next one does the same.
pub malformed_icao_always_updates :
    (py : Host) (existing : Airline) (ofa : OpenFlightsAirline) (r : Resolved)
    → has ofa.icao ≡ true
    → normalize_icao py ofa.icao ≡ none
    → has existing.icao_code ≡ false
    → ((merge_airline_metadata_from_openflights py existing ofa r).1 ≡ true)
      × (has (merge_airline_metadata_from_openflights py existing ofa r).0.icao_code ≡ false)
unfolding merge_airline_metadata_from_openflights filled_row
malformed_icao_always_updates py existing ofa r given malformed missing =
    let raw = merge_raw_metadata existing.raw_metadata (patch_raw ofa) in
    let assigned = py.differ raw.1 raw.0 in
    let updates = fills_any py existing ofa r || assigned in
    let row = with_lineage (if assigned then raw.1 else raw.0) (filled_row py existing ofa r) in
    let gap : fills ofa.icao existing.icao_code ≡ true = ground arith in
    (
      stamped_if-changed updates r.now row ∙ rw (icao_fills py existing ofa r gap) refl,
      ap has (stamped_if-icao updates r.now row) ∙ rw (gap, malformed) refl,
    )

-- `prev.update(v)` works on the object that the copy and the row share: both have the new entries.
shared_update :
    (raw : Dict Metadata) (prev : Dict (Option String)) (ofa : OpenFlightsAirline)
    → lookup "openflights" raw ≡ some (entries prev)
    → merge_raw_metadata raw (patch_raw ofa) ≡ (
      insert "openflights" (entries (update_entries prev (openflights_entries ofa))) raw,
      insert "openflights" (entries (update_entries prev (openflights_entries ofa))) raw,
    )
unfolding merge_raw_metadata merge_entries
shared_update raw prev ofa h = rw h refl

-- Where a row has a lineage from OpenFlights and no gap that the airline fills, and no dictionary differs from itself, a merge gives the row the airline's lineage and reports no change.
pub lineage_change_unseen :
    (py : Host) (existing : Airline) (ofa : OpenFlightsAirline) (r : Resolved)
    (prev : Dict (Option String))
    → ((d : Dict Metadata) → py.differ d d ≡ false)
    → fills_any py existing ofa r ≡ false
    → lookup "openflights" existing.raw_metadata ≡ some (entries prev)
    → ((merge_airline_metadata_from_openflights py existing ofa r).1 ≡ false)
      × (lookup "openflights"
            (merge_airline_metadata_from_openflights py existing ofa r).0.raw_metadata
          ≡ some (entries (update_entries prev (openflights_entries ofa))))
unfolding merge_airline_metadata_from_openflights
lineage_change_unseen py existing ofa r prev same no_gap h =
    let left =
      insert "openflights" (entries (update_entries prev (openflights_entries ofa)))
        existing.raw_metadata in
    rw (shared_update existing.raw_metadata prev ofa h, same left, no_gap)
      (refl, lookup-insert "openflights" "openflights" _ existing.raw_metadata)

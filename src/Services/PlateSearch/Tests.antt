-- ===== src/Services/PlateSearch/Tests.antt =====
-- Runs of the vote and of the search, at concrete inputs.
use mathlib.Core.List.{Memᴰ}
use caps_dash.Prelude.{ℕ, ◌≡◌, refl, true, some, String, List, [], ◌∷◌}
use caps_dash.Prelude.Dict
use caps_dash.Vision.States.{occupied}
use caps_dash.Services.PlateSearch.{
  ParkingSlot, Reading, to_match, vote, current, counts, plate_key, greatest, best_plate,
  best_reading, reading_key,
}
use caps_dash.Services.PlateSearch.Vote.{Wins, vote-Wins}

abbrev bay : ParkingSlot
bay = record {
  id = 1;
  code = "A1";
  floor = "B1";
  current_state = occupied;
  state_since = some 10;
  is_active = true;
}

abbrev reading : String → ℕ → ℕ → Reading
reading plate confidence read_at = record {
  read = record { plate = plate; confidence = confidence; plate_width_px = 80; read_at = read_at };
  slot = bay;
  camera = record { id = 3; code = "CAM1" };
}

abbrev earlier : List Reading
earlier = reading "98A83355" 910 12 ∷ reading "88C27999" 640 13 ∷ []

-- twice one plate, then a single misread
vote_example :
    vote (reading "98A83355" 620 11) earlier ≡ some (to_match (reading "98A83355" 910 12))
unfolding vote current counts plate_key greatest best_plate best_reading reading_key Dict.get
    Dict.put
vote_example = refl

vote-Wins_example :
    (row : Reading) × (vote (reading "98A83355" 620 11) earlier ≡ some (to_match row))
    × Memᴰ row (reading "98A83355" 620 11 ∷ earlier)
    × Wins row (current (reading "98A83355" 620 11) earlier)
vote-Wins_example = vote-Wins (reading "98A83355" 620 11) earlier

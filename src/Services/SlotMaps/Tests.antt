-- ===== src/Services/SlotMaps/Tests.antt =====
-- A map of two slots redrawn with one of them and a new one.
use caps_dash.Prelude.{
  ℕ, ◌≡◌, ◌⊎◌, refl, String, String_key, true, false, none, some, List, [], ◌∷◌,
}
use caps_dash.Services.SlotMaps.{
  ParkingSlot, SlotMapEntry, SlotMapRequest, Table, names, find, replace, has_duplicates,
  outside_frame, applied, delete_missing, upsert_all,
}
use caps_dash.Services.SlotMaps.Kept.{id_of, replace-id}

abbrev row : ℕ → String → ParkingSlot
row id code = record {
  id = id;
  code = code;
  floor = "B1";
  points = (1, 1) ∷ (9, 1) ∷ (9, 9) ∷ [];
  src_frame_width = 640;
  src_frame_height = 480;
}

abbrev entry : String → SlotMapEntry
entry code = record { code = code; floor = "B1"; points = (2, 2) ∷ (9, 1) ∷ (9, 9) ∷ [] }

abbrev two_rows : Table
two_rows = record { rows = row 5 "A1" ∷ row 6 "A2" ∷ []; next_id = 9 }

abbrev redrawn : SlotMapRequest
redrawn = record {
  src_frame_width = 640;
  src_frame_height = 480;
  slots = entry "A3" ∷ entry "A1" ∷ [];
  allow_delete = true;
}

abbrev redrawn_rows : List ParkingSlot
unfolding applied delete_missing upsert_all
redrawn_rows = (applied redrawn two_rows).rows

replace-id_example :
    ((names redrawn.slots "A1" ≡ true)
      × (id_of (find "A1" (replace two_rows redrawn).0.rows) ≡ some 5))
    ⊎ ((names redrawn.slots "A1" ≡ false)
        × (redrawn.allow_delete ≡ true)
        × (id_of (find "A1" (replace two_rows redrawn).0.rows) ≡ none))
unfolding replace has_duplicates outside_frame names find redrawn_rows
replace-id_example = replace-id two_rows redrawn redrawn_rows "A1" 5 refl refl

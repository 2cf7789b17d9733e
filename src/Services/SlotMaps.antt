-- ===== src/Services/SlotMaps.antt =====
-- services/slot_map_service.py: replacing the slot map of a camera. `rows` are the camera's slots in
-- the database; a new row gets the next identifier. Coordinates are natural numbers of a small unit:
-- the schema of a polygon (api/schemas/polygon_schemas.py) refuses negative and infinite ones. Audit
-- rows and the reload request that follow a success are left out.
pub mod Kept
mod Tests
use caps_dash.Prelude.{
  ℕ, ◌+◌, String, String_key, ◌==◌, Bool, true, false, not, ◌&&◌, ◌||◌, Option, none, some, List,
  [], ◌∷◌, ◌++◌, any, filter, ltb, if◌then◌else◌, Result, ok, err,
}

pub record ParkingSlot : Type 0 where
  pub id : ℕ
  pub code : String
  pub floor : String
  pub points : List (ℕ × ℕ)
  pub src_frame_width : ℕ
  pub src_frame_height : ℕ

pub record SlotMapEntry : Type 0 where
  pub code : String
  pub floor : String
  pub points : List (ℕ × ℕ)

pub record SlotMapRequest : Type 0 where
  pub src_frame_width : ℕ
  pub src_frame_height : ℕ
  pub slots : List SlotMapEntry
  pub allow_delete : Bool

pub record Table : Type 0 where
  pub rows : List ParkingSlot
  pub next_id : ℕ

pub data SlotMapError : Type 0 where
  code_taken frame_mismatch would_delete : SlotMapError

-- whether the request names the code: `incoming_codes`
unfoldable pub names : List SlotMapEntry → String → Bool
names [] code = false
names (e ∷ entries) code = let rest = names entries code in if e.code == code then true else rest

-- `_validate_unique_codes`
unfoldable pub has_duplicates : List SlotMapEntry → Bool
has_duplicates [] = false
has_duplicates (e ∷ entries) = names entries e.code || has_duplicates entries

-- `_validate_within_frame`
unfoldable pub outside_frame : ℕ → ℕ → SlotMapEntry → Bool
outside_frame width height entry = any (λ (p : ℕ × ℕ). ltb width p.0 || ltb height p.1) entry.points

-- `existing.get(code)`
unfoldable pub find : String → List ParkingSlot → Option ParkingSlot
find code [] = none
find code (r ∷ rows) = if r.code == code then some r else find code rows

-- what the loop writes to a slot
unfoldable pub written : SlotMapRequest → SlotMapEntry → ℕ → ParkingSlot
written payload entry id = record {
  id = id;
  code = entry.code;
  floor = entry.floor;
  points = entry.points;
  src_frame_width = payload.src_frame_width;
  src_frame_height = payload.src_frame_height;
}

-- the row of an entry that exists is written in place
unfoldable pub overwrite : SlotMapRequest → SlotMapEntry → List ParkingSlot → List ParkingSlot
overwrite payload entry [] = []
overwrite payload entry (r ∷ rows) =
    if r.code == entry.code
    then written payload entry r.id ∷ rows
    else r ∷ overwrite payload entry rows

-- one round of the loop over `payload.slots`
unfoldable pub upsert : SlotMapRequest → SlotMapEntry → Table → Table
upsert payload entry t = elim (find entry.code t.rows) [
  | none ↦ record { rows = t.rows ++ written payload entry t.next_id ∷ []; next_id = t.next_id + 1 }
  | some r ↦ record t { rows = overwrite payload entry t.rows }
]

unfoldable pub upsert_all : SlotMapRequest → List SlotMapEntry → Table → Table
upsert_all payload [] t = t
upsert_all payload (e ∷ entries) t = upsert_all payload entries (upsert payload e t)

-- the deletion of `missing_codes`
unfoldable pub delete_missing : List SlotMapEntry → Table → Table
delete_missing entries t = record t { rows = filter (λ r. names entries r.code) t.rows }

unfoldable pub applied : SlotMapRequest → Table → Table
applied payload t = delete_missing payload.slots (upsert_all payload payload.slots t)

-- `replace`
unfoldable pub replace : Table → SlotMapRequest → Table × Result SlotMapError (List ParkingSlot)
replace t payload =
    if has_duplicates payload.slots
    then (t, err code_taken)
    else if any (outside_frame payload.src_frame_width payload.src_frame_height) payload.slots
    then (t, err frame_mismatch)
    else if any (λ r. not (names payload.slots r.code)) t.rows && not payload.allow_delete
    then (t, err would_delete)
    else (applied payload t, ok (applied payload t).rows)

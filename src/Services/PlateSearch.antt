-- ===== src/Services/PlateSearch.antt =====
-- services/plate_search_service.py: which plate stands in a bay, and the search. Confidences are in
-- thousandths, instants are numbers. Python's text functions are parameters: `normalise` is `upper`
-- with `isalnum`, `occurs_in` is `in`, `text_length` is `len`.
pub mod Maximum
pub mod Tally
pub mod Vote
pub mod Bays
pub mod Newest
pub mod Found
mod Tests
use caps_dash.Prelude.{
  ℕ, ◌+◌, ◌-◌, String, String_key, ℕ_key, ◌==◌, Bool, true, false, not, ◌&&◌, ◌||◌, Option, none,
  some, List, [], ◌∷◌, ◌++◌, map, ltb, leb, if◌then◌else◌, filter, take,
}
use caps_dash.Prelude.Dict
use mathlib.Core.Option
use caps_dash.Prelude.Dict.{Dict, keys, values}
use caps_dash.Vision.States.{SlotState, is_occupied}

pub record PlateRead : Type 0 where
  pub plate : String
  pub confidence : ℕ
  pub plate_width_px : ℕ
  pub read_at : ℕ

pub record ParkingSlot : Type 0 where
  pub id : ℕ
  pub code : String
  pub floor : String
  pub current_state : SlotState
  pub state_since : Option ℕ
  pub is_active : Bool

pub record Camera : Type 0 where
  pub id : ℕ
  pub code : String

-- a row of the join
pub record Reading : Type 0 where
  pub read : PlateRead
  pub slot : ParkingSlot
  pub camera : Camera

pub record PlateMatch : Type 0 where
  pub plate : String
  pub slot_code : String
  pub floor : String
  pub camera_id : ℕ
  pub camera_code : String
  pub slot_state : SlotState
  pub read_at : ℕ
  pub confidence : ℕ
  pub plate_width_px : ℕ

abbrev pub max_results : ℕ
max_results = 50

abbrev pub min_query_length : ℕ
min_query_length = 3

abbrev pub min_plate_confidence : ℕ
min_plate_confidence = 600

-- `[…] or rows`: the first list, unless it is empty
abbrev pub or_rows {ℓ} : {A : Type ℓ} → List A → List A → List A
or_rows [] rows = rows
or_rows (x ∷ xs) rows = x ∷ xs

-- `since is None or row[0].read_at >= since`
abbrev pub since_then : Option ℕ → Reading → Bool
since_then none row = true
since_then (some since) row = leb since row.read.read_at

-- the readings that vote
pub current : Reading → List Reading → List Reading
current first rest =
    let rows = first ∷ rest in
    let episode = or_rows (filter (since_then first.slot.state_since) rows) rows in
    or_rows (filter (λ row. leb min_plate_confidence row.read.confidence) episode) episode

-- `counts.get(read.plate, 0) + 1`
abbrev pub or_none : Option ℕ → ℕ
or_none none = 0
or_none (some n) = n

pub counts : List Reading → Dict String ℕ → Dict String ℕ
counts [] tally = tally
counts (row ∷ rows) tally =
    counts rows (Dict.put row.read.plate (or_none (Dict.get row.read.plate tally) + 1) tally)

-- `max` of a number over the readings of a plate
pub greatest : (PlateRead → ℕ) → String → List Reading → ℕ → ℕ
greatest f plate [] most = most
greatest f plate (row ∷ rows) most =
    greatest f plate rows
      (if (row.read.plate == plate) && ltb most (f row.read) then f row.read else most)

-- tuples compare by their first difference
abbrev pub Rank : Type 0
Rank = ℕ × ℕ × ℕ

abbrev pub key_less : Rank → Rank → Bool
key_less (a, b, c) (d, e, f) = ltb a d || ((a == d) && (ltb b e || ((b == e) && ltb c f)))

-- `max(…, key=…)`: the first of the greatest
abbrev pub maximum {ℓ} : {A : Type ℓ} → (A → Rank) → A → List A → A
maximum key best [] = best
maximum key best (a ∷ l) = maximum key (if key_less (key best) (key a) then a else best) l

pub plate_key : List Reading → String → Rank
plate_key rows plate = (
  or_none (Dict.get plate (counts rows [])),
  greatest (λ r. r.confidence) plate rows 0,
  greatest (λ r. r.read_at) plate rows 0,
)

pub reading_key : Reading → Rank
reading_key row = (row.read.confidence, row.read.read_at, 0)

unfoldable pub to_match : Reading → PlateMatch
to_match row = record {
  plate = row.read.plate;
  slot_code = row.slot.code;
  floor = row.slot.floor;
  camera_id = row.camera.id;
  camera_code = row.camera.code;
  slot_state = row.slot.current_state;
  read_at = row.read.read_at;
  confidence = row.read.confidence;
  plate_width_px = row.read.plate_width_px;
}

-- `max` raises on an empty argument, which is `none`
abbrev pub maximum_of {ℓ} : {A : Type ℓ} → (A → Rank) → List A → Option A
maximum_of key [] = none
maximum_of key (a ∷ l) = some (maximum key a l)

pub best_plate : List Reading → Option String
best_plate rows = maximum_of (plate_key rows) (keys (counts rows []))

-- the answer for the plate that has won
pub best_reading : List Reading → Option String → Option Reading
best_reading rows none = none
best_reading rows (some plate) =
    maximum_of reading_key (filter (λ row. row.read.plate == plate) rows)

-- `_vote` of a bay's readings, of which there is at least one
pub vote : Reading → List Reading → Option PlateMatch
vote first rest =
    let rows = current first rest in Option.map to_match (best_reading rows (best_plate rows))

-- `by_bay.setdefault(slot.id, []).append(…)`
abbrev pub or_no_rows : Option (List Reading) → List Reading
or_no_rows none = []
or_no_rows (some rows) = rows

pub by_bay : List Reading → Dict ℕ (List Reading) → Dict ℕ (List Reading)
by_bay [] bays = bays
by_bay (row ∷ rows) bays =
    by_bay rows (Dict.put row.slot.id (or_no_rows (Dict.get row.slot.id bays) ++ row ∷ []) bays)

-- `[_vote(rows) for rows in … if rows]`; a raise is `none`
abbrev pub both : Option PlateMatch → Option (List PlateMatch) → Option (List PlateMatch)
both none ms = none
both (some m) none = none
both (some m) (some ms) = some (m ∷ ms)

pub vote_all : List (List Reading) → Option (List PlateMatch)
vote_all [] = some []
vote_all ([] ∷ bays) = vote_all bays
vote_all ((first ∷ rest) ∷ bays) = both (vote first rest) (vote_all bays)

-- the WHERE clauses of `_current_plate_per_bay`
unfoldable pub selected : Bool → ℕ → Reading → Bool
selected occupied_only cutoff row =
    leb cutoff row.read.read_at
    && row.slot.is_active
    && (not occupied_only || is_occupied row.slot.current_state)

pub current_plate_per_bay : List Reading → Bool → ℕ → Option (List PlateMatch)
current_plate_per_bay table occupied_only cutoff =
    vote_all (values (by_bay (filter (selected occupied_only cutoff) table) []))

-- `sort(key=read_at, reverse=True)`, which keeps the order of equals
unfoldable pub insert_newest : PlateMatch → List PlateMatch → List PlateMatch
insert_newest m [] = m ∷ []
insert_newest m (n ∷ ns) = if leb n.read_at m.read_at then m ∷ n ∷ ns else n ∷ insert_newest m ns

unfoldable pub newest_first : List PlateMatch → List PlateMatch
newest_first [] = []
newest_first (m ∷ ms) = insert_newest m (newest_first ms)

module _ (normalise : String → String) (text_length : String → ℕ)
    (occurs_in : String → String → Bool) where
  pub search : List Reading → String → Bool → ℕ → Option (List PlateMatch)
  search table raw_query occupied_only cutoff =
      let query = normalise raw_query in
      if ltb (text_length query) min_query_length
      then some []
      else Option.map
          (λ matches.
            take max_results (newest_first (filter (λ m. occurs_in query m.plate) matches)))
          (current_plate_per_bay table occupied_only cutoff)

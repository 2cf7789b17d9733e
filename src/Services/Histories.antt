-- ===== src/Services/Histories.antt =====
-- services/history_service.py with repositories/history_repository.py and api/pagination.py: the page
-- of a slot's history in a range of time. The two spans are settings, in the unit of the instants, and
-- subtraction stops at instant 0, long before any row. `order` stands for ORDER BY changed_at DESC in
-- one query: the order of rows with the same time is the database's, and may be another in the next.
pub mod Page
mod Tests
use caps_dash.Prelude.{
  ℕ, ◌-◌, String, String_key, ℕ_key, Bool, true, false, ◌&&◌, ◌||◌, ◌==◌, Option, none, some, List,
  [], ltb, leb, if◌then◌else◌, Result, ok, err, ◌>>=◌, take, drop, filter, length,
}
use caps_dash.Services.StateHistory.{SlotStateHistory}

pub data RangeError : Type 0 where
  range_invalid range_too_wide : RangeError

abbrev pub or_else : Option ℕ → ℕ → ℕ
or_else none other = other
or_else (some at) other = at

pub resolve_range : ℕ → ℕ → Option ℕ → Option ℕ → ℕ → Result RangeError (ℕ × ℕ)
resolve_range default_span max_span since until now =
    let resolved_until = or_else until now in
    let resolved_since = or_else since (resolved_until - default_span) in
    if ltb resolved_until resolved_since
    then err range_invalid
    else if ltb max_span (resolved_until - resolved_since)
    then err range_too_wide
    else ok (resolved_since, resolved_until)

-- what a request may filter by; an empty text filters nothing
pub record Filters : Type 0 where
  pub slot_id : Option ℕ
  pub camera_code : Option String
  pub floor : Option String

abbrev pub fits_id : Option ℕ → ℕ → Bool
fits_id none id = true
fits_id (some wanted) id = id == wanted

abbrev pub fits_text : Option String → String → Bool
fits_text none text = true
fits_text (some wanted) text = (wanted == "") || (text == wanted)

-- the conditions of `build_range_query`
pub matches : ℕ × ℕ → Filters → SlotStateHistory → Bool
matches range f row =
    leb range.0 row.changed_at
    && leb row.changed_at range.1
    && fits_id f.slot_id row.slot_id
    && fits_text f.camera_code row.camera_code
    && fits_text f.floor row.floor

pub record PageParams : Type 0 where
  pub limit : ℕ
  pub offset : ℕ

-- `apply_page`
pub apply_page : PageParams → List SlotStateHistory → List SlotStateHistory
apply_page params rows = take params.limit (drop params.offset rows)

module _ (order : List SlotStateHistory → List SlotStateHistory) where
  pub build_range_query : ℕ × ℕ → Filters → List SlotStateHistory → List SlotStateHistory
  build_range_query range f table = order (filter (matches range f) table)

  -- `list_history`: the rows of the page, and how many rows there are
  pub list_history :
      ℕ
      → ℕ
      → List SlotStateHistory
      → PageParams
      → Option ℕ
      → Option ℕ
      → Filters
      → ℕ
      → Result RangeError (List SlotStateHistory × ℕ)
  list_history default_span max_span table params since until f now = do
    range ← resolve_range default_span max_span since until now
    let rows = build_range_query range f table
    ok (apply_page params rows, length rows)

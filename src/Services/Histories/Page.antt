-- ===== src/Services/Histories/Page.antt =====
-- The page of a slot's history that a request gets (services/history_service.py).
use mathlib.Core.List.{Memᴰ}
use caps_dash.Services.Histories.{
  resolve_range, PageParams, apply_page, build_range_query, fits_text, list_history, Filters,
  fits_id, SlotStateHistory, matches,
}
use caps_dash.Services.StateHistory.{SlotStateHistory}
use caps_dash.Prelude.{
  Mem-filter, Mem-filter_of, All-of_Mem, length, drop, take, ok, ◌↔◌, inr, ◌==◌, [], inl, refl,
  arith, Bool-cases, none, All, filter, true, ◌≤◌, ◌≡◌, ◌∷◌, ◌⊎◌, String, some, ℕ, List, Option,
  ℕ_key, String_key, le→leb, eq_iff,
}

-- what a request asks for
abbrev pub FitsId : Option ℕ → ℕ → Type 0
FitsId none id = Unit
FitsId (some asked) id = id ≡ asked

abbrev pub FitsText : Option String → String → Type 0
FitsText none text = Unit
FitsText (some asked) text = (asked ≡ "") ⊎ (text ≡ asked)

pub record Asked (range : ℕ × ℕ) (f : Filters) (row : SlotStateHistory) : Type 0 where
  pub from : range.0 ≤ row.changed_at
  pub to : row.changed_at ≤ range.1
  pub slot : FitsId f.slot_id row.slot_id
  pub camera : FitsText f.camera_code row.camera_code
  pub level : FitsText f.floor row.floor

fits_id-FitsId : (o : Option ℕ) (id : ℕ) → fits_id o id ≡ true → FitsId o id
fits_id-FitsId none id h = tt
fits_id-FitsId (some asked) id h = ground arith

fits_text-FitsText : (o : Option String) (text : String) → fits_text o text ≡ true → FitsText o text
fits_text-FitsText none text h = tt
fits_text-FitsText (some asked) text h = elim (Bool-cases (asked == "")) [
  | inl empty ↦ inl ((eq_iff asked "").0 empty)
  | inr full ↦ inr ((eq_iff text asked).0 (ground arith))
]

fits_id_of_FitsId : (o : Option ℕ) (id : ℕ) → FitsId o id → fits_id o id ≡ true
fits_id_of_FitsId none id h = refl
fits_id_of_FitsId (some asked) id h = ground arith

fits_text_of_FitsText :
    (o : Option String) (text : String) → FitsText o text → fits_text o text ≡ true
fits_text_of_FitsText none text h = refl
fits_text_of_FitsText (some asked) text (inl h) = ground (arith, (eq_iff asked "").1 h)
fits_text_of_FitsText (some asked) text (inr h) = ground (arith, (eq_iff text asked).1 h)

matches-Asked :
    (range : ℕ × ℕ) (f : Filters) (row : SlotStateHistory)
    → matches range f row ≡ true
    → Asked range f row
unfolding matches
matches-Asked range f row h = record {
  from = ground arith;
  to = ground arith;
  slot = fits_id-FitsId f.slot_id row.slot_id (ground arith);
  camera = fits_text-FitsText f.camera_code row.camera_code (ground arith);
  level = fits_text-FitsText f.floor row.floor (ground arith);
}

matches_of_Asked :
    (range : ℕ × ℕ) (f : Filters) (row : SlotStateHistory)
    → Asked range f row
    → matches range f row ≡ true
unfolding matches
matches_of_Asked range f row a =
    rw
      (
        le→leb _ _ a.from,
        le→leb _ _ a.to,
        fits_id_of_FitsId f.slot_id row.slot_id a.slot,
        fits_text_of_FitsText f.camera_code row.camera_code a.camera,
        fits_text_of_FitsText f.floor row.floor a.level,
      )
      refl

-- each at least as new as those after it
abbrev pub NewestFirst : List SlotStateHistory → Type 0
NewestFirst [] = Unit
NewestFirst (row ∷ rows) = All (λ later. later.changed_at ≤ row.changed_at) rows × NewestFirst rows

-- a row of the table is among those that match, or is not asked for
Mem-matching :
    (range : ℕ × ℕ) (f : Filters) (row : SlotStateHistory) (table : List SlotStateHistory)
    → Memᴰ row table
    → ¬ Asked range f row ⊎ Memᴰ row (filter (matches range f) table)
Mem-matching range f row table m = elim (Bool-cases (matches range f row)) [
  | inl fits ↦ inr (Mem-filter_of (matches range f) row table m fits)
  | inr other ↦ inl (λ a. absurd (ground (arith, matches_of_Asked range f row a)))
]

module _ (order : List SlotStateHistory → List SlotStateHistory) where
  -- ORDER BY drops no row, invents none, and puts the newest first. Then a request for a range that is
  -- not refused gets its page, and the number of rows, of one list: newest first, only of rows of the
  -- table that lie in the range and fit every filter of the request, and with each row of the table that
  -- does so.
  pub list_history_lem :
      (default_span max_span now : ℕ) (table : List SlotStateHistory) (params : PageParams)
      (since until : Option ℕ) (f : Filters) (range : ℕ × ℕ)
      → ((row : SlotStateHistory) (rows : List SlotStateHistory)
          → Memᴰ row (order rows) ↔ Memᴰ row rows)
      → ((rows : List SlotStateHistory) → NewestFirst (order rows))
      → resolve_range default_span max_span since until now ≡ ok range
      → (rows : List SlotStateHistory) × (list_history order default_span max_span table params
            since until f now
          ≡ ok (take params.limit (drop params.offset rows), length rows))
        × NewestFirst rows
        × All (λ row. Memᴰ row table × Asked range f row) rows
        × All (λ row. ¬ Asked range f row ⊎ Memᴰ row rows) table
  unfolding list_history build_range_query apply_page
  list_history_lem default_span max_span now table params since until f range keeps sorted valid = (
    order (filter (matches range f) table),
    rw valid refl,
    sorted (filter (matches range f) table),
    All-of_Mem (λ row. Memᴰ row table × Asked range f row) (order (filter (matches range f) table))
        (λ row m.
          let (inside, fits) =
            Mem-filter (matches range f) row table
              ((keeps row (filter (matches range f) table)).0 m) in
          (inside, matches-Asked range f row fits)),
    All-of_Mem (λ row. ¬ Asked range f row ⊎ Memᴰ row (order (filter (matches range f) table)))
        table
        (λ row m. elim (Mem-matching range f row table m) [
          | inl other ↦ inl other
          | inr kept ↦ inr ((keeps row (filter (matches range f) table)).1 kept)
        ]),
  )

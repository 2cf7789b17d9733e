-- ===== src/Services/Histories/Tests.antt =====
-- Two pages of a history of three rows, at concrete inputs.
use mathlib.Core.List.{Memᴰ}
use caps_dash.Prelude.{
  ◌⊎◌, All, length, inr, ◌≤◌, inl, drop, take, Bool-cases, ◌↔◌, All-Mem, All-of_Mem, All-mono,
}
use caps_dash.Services.Histories.Page.{list_history_lem, Asked, NewestFirst}
use caps_dash.Services.Histories.{
  range_too_wide, range_invalid, apply_page, matches, SlotStateHistory, PageParams,
  build_range_query, Filters, resolve_range, list_history,
}
use caps_dash.Services.StateHistory.{SlotStateHistory}
use caps_dash.Vision.States.{free, occupied, unknown}
use caps_dash.Prelude.{
  refl, err, false, arith, [], ok, if◌then◌else◌, ◌∷◌, ◌≡◌, leb, some, true, none, Bool, ℕ, List,
}

abbrev row : ℕ → Bool → SlotStateHistory
row at to_occupied = record {
  slot_id = 1;
  camera_code = "cam1";
  slot_code = "A1";
  floor = "B1";
  previous_state = unknown;
  new_state = if to_occupied then occupied else free;
  changed_at = at;
}

-- newest first
abbrev table : List SlotStateHistory
table = row 50 true ∷ row 40 false ∷ row 30 true ∷ row 5 false ∷ []

abbrev everything : Filters
everything = record { slot_id = none; camera_code = none; floor = some "" }

abbrev page : ℕ → PageParams
page offset = record { limit = 2; offset = offset }

second_page :
    list_history (λ rows. rows) 10 100 table (page 2) (some 10) (some 60) everything 70
    ≡ ok (row 30 true ∷ [], 3)
unfolding list_history resolve_range build_range_query matches apply_page
second_page = refl

-- the default range is the last ten units; a range that ends before it starts is refused
ranges :
    (resolve_range 10 100 none none 70 ≡ ok (60, 70))
    × (resolve_range 10 100 (some 80) none 70 ≡ err range_invalid)
    × (resolve_range 10 100 (some 0) (some 200) 70 ≡ err range_too_wide)
unfolding resolve_range
ranges = (refl, refl, refl)

-- a database that sorts
abbrev insert_row : SlotStateHistory → List SlotStateHistory → List SlotStateHistory
insert_row r [] = r ∷ []
insert_row r (s ∷ rows) =
    if leb s.changed_at r.changed_at then r ∷ s ∷ rows else s ∷ insert_row r rows

abbrev by_time : List SlotStateHistory → List SlotStateHistory
by_time [] = []
by_time (r ∷ rows) = insert_row r (by_time rows)

Mem-insert_row :
    (x r : SlotStateHistory) (rows : List SlotStateHistory)
    → Memᴰ x (insert_row r rows) ↔ Memᴰ x (r ∷ rows)
Mem-insert_row x r [] = (λ m. m, λ m. m)
Mem-insert_row x r (s ∷ rows) = elim (Bool-cases (leb s.changed_at r.changed_at)) [
  | inl newer ↦ rw newer (λ m. m, λ m. m)
  | inr older ↦
      let below = Mem-insert_row x r rows in
      rw older (
        λ m. elim m [
          | Memᴰ.head here ↦ Memᴰ.tail (Memᴰ.head here)
          | Memᴰ.tail later ↦ elim (below.0 later) [
            | Memᴰ.head here ↦ Memᴰ.head here
            | Memᴰ.tail after ↦ Memᴰ.tail (Memᴰ.tail after)
          ]
        ],
        λ m. elim m [
          | Memᴰ.head here ↦ Memᴰ.tail (below.1 (Memᴰ.head here))
          | Memᴰ.tail later ↦ elim later [
            | Memᴰ.head here ↦ Memᴰ.head here
            | Memᴰ.tail after ↦ Memᴰ.tail (below.1 (Memᴰ.tail after))
          ]
        ],
      )
]

Mem-by_time :
    (x : SlotStateHistory) (rows : List SlotStateHistory) → Memᴰ x (by_time rows) ↔ Memᴰ x rows
Mem-by_time x [] = (λ m. m, λ m. m)
Mem-by_time x (r ∷ rows) = (
  λ m. elim ((Mem-insert_row x r (by_time rows)).0 m) [
    | Memᴰ.head here ↦ Memᴰ.head here
    | Memᴰ.tail later ↦ Memᴰ.tail ((Mem-by_time x rows).0 later)
  ],
  λ m. elim m [
    | Memᴰ.head here ↦ (Mem-insert_row x r (by_time rows)).1 (Memᴰ.head here)
    | Memᴰ.tail later ↦
        (Mem-insert_row x r (by_time rows)).1 (Memᴰ.tail ((Mem-by_time x rows).1 later))
  ],
)

NewestFirst-insert_row :
    (r : SlotStateHistory) (rows : List SlotStateHistory)
    → NewestFirst rows
    → NewestFirst (insert_row r rows)
NewestFirst-insert_row r [] h = (tt, tt)
NewestFirst-insert_row r (s ∷ rows) (below, h) = elim (Bool-cases (leb s.changed_at r.changed_at)) [
  | inl newer ↦
      let le : s.changed_at ≤ r.changed_at = ground arith in
      rw newer ((le, All-mono _ _ rows (λ a k. omega arith) below), (below, h))
  | inr older ↦
      let le : r.changed_at ≤ s.changed_at = ground arith in
      rw older (
        All-of_Mem (λ a. a.changed_at ≤ s.changed_at) (insert_row r rows)
            (λ x m. elim ((Mem-insert_row x r rows).0 m) [
              | Memᴰ.head here ↦ rw here le
              | Memᴰ.tail later ↦ All-Mem (λ a. a.changed_at ≤ s.changed_at) x rows later below
            ]),
        NewestFirst-insert_row r rows h,
      )
]

NewestFirst-by_time : (rows : List SlotStateHistory) → NewestFirst (by_time rows)
NewestFirst-by_time [] = tt
NewestFirst-by_time (r ∷ rows) = NewestFirst-insert_row r (by_time rows) (NewestFirst-by_time rows)

list_history_lem_example :
    (rows : List SlotStateHistory) × (list_history by_time 10 100 table
        (page 2)
        (some 10)
        (some 60)
        everything
        70
      ≡ ok (take 2 (drop 2 rows), length rows))
    × NewestFirst rows
    × All (λ row. Memᴰ row table × Asked (10, 60) everything row) rows
    × All (λ row. ¬ Asked (10, 60) everything row ⊎ Memᴰ row rows) table
unfolding resolve_range
list_history_lem_example =
    list_history_lem by_time 10 100 70 table (page 2) (some 10) (some 60) everything (10, 60)
      Mem-by_time NewestFirst-by_time refl

-- ===== src/Services/PlateSearch/Found.antt =====
-- What a search for a plate answers (services/plate_search_service.py).

use mathlib.Core.List.{Memᴰ}
use caps_dash.Prelude.Dict
use caps_dash.Services.PlateSearch.Bays.{Answered}
use caps_dash.Vision.States.{occupied}
use caps_dash.Prelude.{
  false, ◌<◌, ◌⊎◌, ℕ, ◌≤◌, ◌≡◌, Bool, true, String, ℕ_key, List, [], ◌∷◌, All, filter, take, length,
  Bool-cases, inl, inr,
}
use caps_dash.Prelude.Dict.{Dict}
use caps_dash.Services.PlateSearch.{
  Reading, PlateMatch, to_match, newest_first, max_results, min_query_length,
}

module _ {A : Type 0} (P : A → Type 0) where
  All-filter : (p : A → Bool) (l : List A) → All P l → All (λ a. P a × (p a ≡ true)) (filter p l)
  All-filter p [] h = tt
  All-filter p (a ∷ l) (here, h) = elim (Bool-cases (p a)) [
    | inl kept ↦ rw kept ((here, kept), All-filter p l h)
    | inr dropped ↦ rw dropped (All-filter p l h)
  ]

module _ (Q : Reading → Type 0) where
  -- the answer is a reading of which it holds
  abbrev Shows : PlateMatch → Type 0
  Shows m = (row : Reading) × (m ≡ to_match row) × Q row

-- What a search is asked for: readings of an active bay, not older than the cutoff, and of an
-- occupied bay where only those are wanted.
abbrev pub Wanted : Bool → ℕ → Reading → Type 0
Wanted occupied_only cutoff row =
    (cutoff ≤ row.read.read_at)
    × (row.slot.is_active ≡ true)
    × ((occupied_only ≡ false) ⊎ (row.slot.current_state ≡ occupied))

-- The answers for the bays: each shows a wanted reading, and each wanted reading's bay has one.
abbrev pub ForEachBay : List Reading → Bool → ℕ → List PlateMatch → Type 0
ForEachBay table occupied_only cutoff ms =
    All
      (λ m. (row : Reading) × (m ≡ to_match row) × Memᴰ row table × Wanted occupied_only cutoff row)
      ms
    × All (λ row. ¬ Wanted occupied_only cutoff row ⊎ Answered ms row) table

module _ (normalise : String → String) (text_length : String → ℕ)
    (occurs_in : String → String → Bool) where
  -- the bays' answers that a search shows
  pub IsShown : String → List PlateMatch → List PlateMatch → Type 0
  IsShown query ms found =
      All (λ m. Memᴰ m ms × (occurs_in query m.plate ≡ true)) found
      × ((text_length query < min_query_length)
          ⊎ All
              (λ m. (occurs_in query m.plate ≡ false) ⊎ Memᴰ m found ⊎ (length found ≡ max_results))
              ms)

  shown : String → List PlateMatch → List PlateMatch
  shown query ms = take max_results (newest_first (filter (λ m. occurs_in query m.plate) ms))

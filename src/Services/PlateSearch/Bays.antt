-- ===== src/Services/PlateSearch/Bays.antt =====
-- Every bay with a reading gets its plate (services/plate_search_service.py).
use mathlib.Core.List.{Memᴰ}
use mathlib.Core.Path.{subst}
use caps_dash.Prelude.Dict
use caps_dash.Prelude.{
  sym, refl, inr, none, Bool-cases, inl, ◌⊎◌, ap, arith, ◌∙◌, ◌==◌, ◌∷◌, [], some, ◌≡◌, filter,
  ◌++◌, List, ℕ, Option, ℕ_key, nat_eq_iff, Mem-filter, Mem-filter_of,
}
use caps_dash.Prelude.Dict.{values, Dict, get-put}
use caps_dash.Services.PlateSearch.{
  vote, both, to_match, or_no_rows, PlateMatch, Reading, vote_all, by_bay,
}
use caps_dash.Services.PlateSearch.Vote.{vote-Wins}

append_assoc : (l m n : List Reading) → (l ++ m) ++ n ≡ l ++ (m ++ n)
append_assoc [] m n = refl
append_assoc (x ∷ l) m n = ap (◌∷◌ x) (append_assoc l m n)

append-nil : (l : List Reading) → l ≡ l ++ []
append-nil [] = refl
append-nil (x ∷ l) = ap (◌∷◌ x) (append-nil l)

-- the readings of a bay, in their order
rows_of : ℕ → List Reading → List Reading
rows_of id = filter (λ r. r.slot.id == id)

get-by_bay :
    (id : ℕ) (rows : List Reading) (bays : Dict ℕ (List Reading))
    → or_no_rows (Dict.get id (by_bay rows bays)) ≡ or_no_rows (Dict.get id bays) ++ rows_of id rows
unfolding by_bay rows_of
get-by_bay id [] bays = append-nil (or_no_rows (Dict.get id bays))
get-by_bay id (row ∷ rows) bays =
    let k = row.slot.id in
    let bay = or_no_rows (Dict.get k bays) ++ row ∷ [] in
    get-by_bay id rows (Dict.put k bay bays) ∙ (elim (Bool-cases (k == id)) [
      | inl same ↦
          let name : k ≡ id = (nat_eq_iff k id).0 same in
          rw (get-put k id bay bays, same)
            (append_assoc (or_no_rows (Dict.get k bays)) (row ∷ []) (rows_of id rows)
              ∙ ap (λ i. or_no_rows (Dict.get i bays) ++ row ∷ rows_of id rows) name)
      | inr other ↦ rw (get-put k id bay bays, other) refl
    ])

Mem-values :
    (id : ℕ) (bays : Dict ℕ (List Reading)) (rows : List Reading)
    → Dict.get id bays ≡ some rows
    → Memᴰ rows (values bays)
unfolding Dict.get
Mem-values id [] rows h = absurd (ground arith)
Mem-values id ((k, bay) ∷ bays) rows h = elim (Bool-cases (k == id)) [
  | inl same ↦ Memᴰ.head (ground (arith, same))
  | inr other ↦ Memᴰ.tail (Mem-values id bays rows (ground (arith, other)))
]

-- a reading of the same bay is among the answers
abbrev pub Answered : List PlateMatch → Reading → Type 0
Answered ms row = (winner : Reading) × (winner.slot.id ≡ row.slot.id) × Memᴰ (to_match winner) ms

both-some :
    (o : Option PlateMatch) (os : Option (List PlateMatch)) (m : PlateMatch) (ms : List PlateMatch)
    → o ≡ some m
    → both o os ≡ some ms
    → (rest : List PlateMatch) × (os ≡ some rest) × (ms ≡ m ∷ rest)
both-some none os m ms h k = absurd (ground arith)
both-some (some n) none m ms h k = absurd (ground arith)
both-some (some n) (some rest) m ms h k = (rest, refl, ground arith)

-- the plate of a bay that has readings is among those of all bays
vote_all-Mem :
    (bays : List (List Reading)) (ms : List PlateMatch) (first : Reading) (rest : List Reading)
    → vote_all bays ≡ some ms
    → Memᴰ (first ∷ rest) bays
    → (winner : Reading) × Memᴰ winner (first ∷ rest) × Memᴰ (to_match winner) ms
unfolding vote_all
vote_all-Mem [] ms first rest h m = elim m [ ]
vote_all-Mem ([] ∷ bays) ms first rest h (Memᴰ.head here) = absurd (ground arith)
vote_all-Mem ([] ∷ bays) ms first rest h (Memᴰ.tail later) = vote_all-Mem bays ms first rest h later
vote_all-Mem ((f ∷ r) ∷ bays) ms first rest h m =
    let (winner, voted, inside, wins) = vote-Wins f r in
    let (others, voted_others, all) =
      both-some (vote f r) (vote_all bays) (to_match winner) ms voted h in
    elim m [
      | Memᴰ.head here ↦ (winner, subst (Memᴰ winner) (sym here) inside, rw all (Memᴰ.head refl))
      | Memᴰ.tail later ↦
          let (w, of_bay, found) = vote_all-Mem bays others first rest voted_others later in
          (w, of_bay, rw all (Memᴰ.tail found))
    ]

List-cases :
    (l : List Reading) → (l ≡ []) ⊎ ((a : Reading) × (rest : List Reading) × (l ≡ a ∷ rest))
List-cases [] = inl refl
List-cases (a ∷ rest) = inr (a, rest, refl)

some_of :
    (o : Option (List Reading)) (a : Reading) (rest : List Reading)
    → or_no_rows o ≡ a ∷ rest
    → o ≡ some (a ∷ rest)
some_of none a rest h = absurd (ground arith)
some_of (some rows) a rest h = ap some h

-- Each reading's bay is answered for.
pub Answered-vote_all :
    (rows : List Reading) (ms : List PlateMatch) (row : Reading)
    → vote_all (values (by_bay rows [])) ≡ some ms
    → Memᴰ row rows
    → Answered ms row
unfolding rows_of Dict.get
Answered-vote_all rows ms row voted m =
    let id = row.slot.id in
    let here : Memᴰ row (rows_of id rows) =
      Mem-filter_of (λ r. r.slot.id == id) row rows m ((nat_eq_iff id id).1 refl) in
    elim (List-cases (rows_of id rows)) [
      | inl empty ↦ let none_here : Memᴰ row [] = rw empty at here in elim none_here [ ]
      | inr (a, rest, full) ↦
          let kept : Dict.get id (by_bay rows []) ≡ some (a ∷ rest) =
            some_of (Dict.get id (by_bay rows [])) a rest (get-by_bay id rows [] ∙ full) in
          let (winner, of_bay, found) =
            vote_all-Mem (values (by_bay rows [])) ms a rest voted
              (Mem-values id (by_bay rows []) (a ∷ rest) kept) in
          let (inside, same) =
            Mem-filter (λ r. r.slot.id == id) winner rows (subst (Memᴰ winner) (sym full) of_bay) in
          (winner, (nat_eq_iff winner.slot.id id).0 same, found)
    ]

-- ===== src/Services/PlateSearch/Newest.antt =====
-- The order of the answers (services/plate_search_service.py).
use mathlib.Core.List.{Memᴰ}
use caps_dash.Prelude.{
  ◌⊎◌, ℕ, zero, suc, ◌≤◌, ◌≡◌, refl, ℕ_key, List, [], ◌∷◌, arith, All, All-mono, take, length, leb,
  Bool-cases, inl, inr,
}
use caps_dash.Services.PlateSearch.{PlateMatch, insert_newest, newest_first}

module _ {A : Type 0} (P : A → Type 0) where
  pub All-take : (n : ℕ) (l : List A) → All P l → All P (take n l)
  All-take zero l h = tt
  All-take (suc n) [] h = tt
  All-take (suc n) (a ∷ l) (here, h) = (here, All-take n l h)

-- each at least as new as those after it
abbrev pub NewestFirst : List PlateMatch → Type 0
NewestFirst [] = Unit
NewestFirst (m ∷ ms) = All (λ n. n.read_at ≤ m.read_at) ms × NewestFirst ms

module _ (P : PlateMatch → Type 0) where
  All-insert_newest :
      (m : PlateMatch) (ms : List PlateMatch) → P m → All P ms → All P (insert_newest m ms)
  unfolding insert_newest
  All-insert_newest m [] here h = (here, tt)
  All-insert_newest m (n ∷ ns) here (next, h) = elim (Bool-cases (leb n.read_at m.read_at)) [
    | inl newer ↦ rw newer (here, (next, h))
    | inr older ↦ rw older (next, All-insert_newest m ns here h)
  ]

  pub All-newest_first : (ms : List PlateMatch) → All P ms → All P (newest_first ms)
  unfolding newest_first
  All-newest_first [] h = tt
  All-newest_first (m ∷ ms) (here, h) =
      All-insert_newest m (newest_first ms) here (All-newest_first ms h)

NewestFirst-insert_newest :
    (m : PlateMatch) (ms : List PlateMatch) → NewestFirst ms → NewestFirst (insert_newest m ms)
unfolding insert_newest
NewestFirst-insert_newest m [] h = (tt, tt)
NewestFirst-insert_newest m (n ∷ ns) (below, h) = elim (Bool-cases (leb n.read_at m.read_at)) [
  | inl newer ↦
      let le : n.read_at ≤ m.read_at = ground arith in
      rw newer (
        (
          le,
          All-mono (λ a. a.read_at ≤ n.read_at) (λ a. a.read_at ≤ m.read_at) ns (λ a h. omega arith)
              below,
        ),
        (below, h),
      )
  | inr older ↦
      let le : m.read_at ≤ n.read_at = ground arith in
      rw older (
        All-insert_newest (λ a. a.read_at ≤ n.read_at) m ns le below,
        NewestFirst-insert_newest m ns h,
      )
]

pub NewestFirst-newest_first : (ms : List PlateMatch) → NewestFirst (newest_first ms)
unfolding newest_first
NewestFirst-newest_first [] = tt
NewestFirst-newest_first (m ∷ ms) =
    NewestFirst-insert_newest m (newest_first ms) (NewestFirst-newest_first ms)

pub NewestFirst-take : (n : ℕ) (ms : List PlateMatch) → NewestFirst ms → NewestFirst (take n ms)
NewestFirst-take zero ms h = tt
NewestFirst-take (suc n) [] h = tt
NewestFirst-take (suc n) (m ∷ ms) (below, h) =
    (All-take (λ a. a.read_at ≤ m.read_at) n ms below, NewestFirst-take n ms h)

Mem-insert_newest :
    (x m : PlateMatch) (ms : List PlateMatch) → Memᴰ x (m ∷ ms) → Memᴰ x (insert_newest m ms)
unfolding insert_newest
Mem-insert_newest x m [] h = h
Mem-insert_newest x m (n ∷ ns) h = elim (Bool-cases (leb n.read_at m.read_at)) [
  | inl newer ↦ rw newer h
  | inr older ↦ rw older (elim h [
    | Memᴰ.head here ↦ Memᴰ.tail (Mem-insert_newest x m ns (Memᴰ.head here))
    | Memᴰ.tail later ↦ elim later [
      | Memᴰ.head here ↦ Memᴰ.head here
      | Memᴰ.tail after ↦ Memᴰ.tail (Mem-insert_newest x m ns (Memᴰ.tail after))
    ]
  ])
]

pub Mem-newest_first :
    (x : PlateMatch) (ms : List PlateMatch) → Memᴰ x ms → Memᴰ x (newest_first ms)
unfolding newest_first
Mem-newest_first x (m ∷ ms) (Memᴰ.head here) =
    Mem-insert_newest x m (newest_first ms) (Memᴰ.head here)
Mem-newest_first x (m ∷ ms) (Memᴰ.tail later) =
    Mem-insert_newest x m (newest_first ms) (Memᴰ.tail (Mem-newest_first x ms later))
Mem-newest_first x [] h = elim h [ ]

pub Mem-take :
    (x : PlateMatch) (n : ℕ) (ms : List PlateMatch)
    → Memᴰ x ms
    → Memᴰ x (take n ms) ⊎ (length (take n ms) ≡ n)
Mem-take x zero ms m = inr refl
Mem-take x (suc n) [] m = elim m [ ]
Mem-take x (suc n) (a ∷ ms) (Memᴰ.head here) = inl (Memᴰ.head here)
Mem-take x (suc n) (a ∷ ms) (Memᴰ.tail later) = elim (Mem-take x n ms later) [
  | inl kept ↦ inl (Memᴰ.tail kept)
  | inr full ↦ inr (omega (arith, full))
]

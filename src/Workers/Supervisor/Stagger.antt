-- ===== src/Workers/Supervisor/Stagger.antt =====
-- How workers/camera_start_stagger.py spreads the first ticks of a fleet.
use caps_dash.Prelude.Dict
use caps_dash.Prelude.{
  inr, inl, leb, Bool-cases, refl, All, length, ℕ, ◌+◌, ◌*◌, ◌/◌, ◌≤◌, ◌<◌, ℕ_key, List, [], ◌∷◌,
  arith, ◌≡◌, sym,
}
use native.Mathlib.Nat.{
  div-le_self, le-div_iff_mul-le, div-mul-le_self, div-le_of_le-mul, mul-le-mul_right,
}
use caps_dash.Prelude.Dict.{values, Dict}
use caps_dash.Workers.Supervisor.{
  interval_of, from_keys, stagger_offsets, sorted, offsets_from, insert,
}
use mathlib.Core.Path.{subst}

-- each offset a gap after the one before it, and the last a gap before the end of the interval
abbrev pub Spread : ℕ → ℕ → List ℕ → Type 0
Spread gap interval [] = Unit
Spread gap interval (a ∷ []) = a + gap ≤ interval
Spread gap interval (a ∷ b ∷ rest) = (a + gap ≤ b) × Spread gap interval (b ∷ rest)

add-div-le : (a b n : ℕ) → 0 < n → a / n + b / n ≤ (a + b) / n
add-div-le a b n pos =
    (le-div_iff_mul-le pos).1 (grind (arith, div-mul-le_self a n, div-mul-le_self b n))

next_offset : (i p n : ℕ) → 0 < n → (i * p) / n + p / n ≤ ((i + 1) * p) / n
next_offset i p n pos =
    let same : (i + 1) * p ≡ i * p + p = grind arith in
    subst (λ k. (i * p) / n + p / n ≤ k / n) (sym same) (add-div-le (i * p) p n pos)

last_offset : (i p n : ℕ) → i ≤ n → (i * p) / n ≤ p
last_offset i p n h = div-le_of_le-mul n (grind (arith, mul-le-mul_right p h))

-- every camera has the interval
abbrev pub Uniform : ℕ → Dict ℕ ℕ → List ℕ → Type 0
Uniform p intervals = All (λ id. interval_of (Dict.get id intervals) ≡ p)

Spread-offsets_from :
    (i : ℕ) (l : List ℕ) (n p : ℕ) (intervals : Dict ℕ ℕ)
    → 0 < n
    → i + length l ≤ n
    → Uniform p intervals l
    → Spread (p / n) p (values (offsets_from i l n intervals))
unfolding offsets_from
Spread-offsets_from i [] n p intervals pos h u = tt
Spread-offsets_from i (a ∷ []) n p intervals pos h (here, u) =
    rw here (omega (arith, next_offset i p n pos, last_offset (i + 1) p n (omega arith)))
Spread-offsets_from i (a ∷ b ∷ l) n p intervals pos h (here, (there, u)) = (
  rw here (rw there (next_offset i p n pos)),
  Spread-offsets_from (i + 1) (b ∷ l) n p intervals pos (omega arith) (there, u),
)

length-insert : (a : ℕ) (l : List ℕ) → length (insert a l) ≡ length l + 1
unfolding insert
length-insert a [] = refl
length-insert a (b ∷ l) = ground (arith, length-insert a l)

length-sorted : (l : List ℕ) → length (sorted l) ≡ length l
unfolding sorted
length-sorted [] = refl
length-sorted (a ∷ l) = omega (arith, length-insert a (sorted l), length-sorted l)

module _ (p : ℕ) (intervals : Dict ℕ ℕ) where
  Uniform-insert :
      (a : ℕ) (l : List ℕ)
      → interval_of (Dict.get a intervals) ≡ p
      → Uniform p intervals l
      → Uniform p intervals (insert a l)
  unfolding insert
  Uniform-insert a [] here u = (here, tt)
  Uniform-insert a (b ∷ l) here (there, u) = elim (Bool-cases (leb a b)) [
    | inl first ↦ rw first (here, (there, u))
    | inr later ↦ rw later (there, Uniform-insert a l here u)
  ]

  Uniform-sorted : (l : List ℕ) → Uniform p intervals l → Uniform p intervals (sorted l)
  unfolding sorted
  Uniform-sorted [] u = tt
  Uniform-sorted (a ∷ l) (here, u) = Uniform-insert a (sorted l) here (Uniform-sorted l u)

Spread-from_keys : (l : List ℕ) (p n : ℕ) → length l ≤ 1 → Spread (p / n) p (values (from_keys l))
unfolding from_keys
Spread-from_keys [] p n h = tt
Spread-from_keys (a ∷ []) p n h = omega (arith, div-le_self p n)
Spread-from_keys (a ∷ b ∷ l) p n h = absurd (omega arith)

-- A fleet of cameras of one interval that starts together is spread over the whole of it: each first
-- tick comes at least an n-th of the interval after the one before it, and the last at least that
-- much before the first one's next tick, where n is the size of the fleet that they join.
pub stagger_offsets-Spread :
    (spawning : List ℕ) (n p : ℕ) (intervals : Dict ℕ ℕ)
    → length spawning ≤ n
    → Uniform p intervals spawning
    → Spread (p / n) p (values (stagger_offsets spawning n intervals))
unfolding stagger_offsets
stagger_offsets-Spread spawning n p intervals h u = elim (Bool-cases (leb n 1)) [
  | inl few ↦
      rw few (Spread-from_keys (sorted spawning) p n (ground (arith, length-sorted spawning)))
  | inr many ↦ rw many (
      Spread-offsets_from 0 (sorted spawning) n p intervals (ground arith)
        (omega (arith, length-sorted spawning)) (Uniform-sorted p intervals spawning u))
]

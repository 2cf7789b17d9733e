-- ===== src/Prelude/Dict.antt =====
-- Python's `dict` as an association list. Iteration follows insertion order, and writing a key
-- that is present keeps its place, as in CPython.
use Prim.Native.Nat.{ℕ, ◌+◌}
use mathlib.Core.Path.{◌≡◌, refl, subst}
use mathlib.Core.Logic.{inl, inr}
use mathlib.Core.Option.{Option, none, some}
use mathlib.Core.List.{List, [], ◌∷◌, map}
use native.Mathlib.Omega.{arith}
use caps_dash.Prelude.Tests.{Key, Bool-cases, ◌==◌, if◌then◌else◌}

abbrev pub Dict {ℓ κ} : Type ℓ → Type κ → Type (ℓ ⊔ κ)
Dict K V = List (K × V)

abbrev pub keys {ℓ κ} : {K : Type ℓ} {V : Type κ} → Dict K V → List K
keys = map (λ e. e.0)

abbrev pub values {ℓ κ} : {K : Type ℓ} {V : Type κ} → Dict K V → List V
values = map (λ e. e.1)

module _ {ℓ κ} {K : Type ℓ} {V : Type κ} ⦃e : Key K⦄ where
  -- d.get(k)
  unfoldable pub get : K → Dict K V → Option V
  get k [] = none
  get k ((j, v) ∷ d) = if j == k then some v else get k d

  -- d[k] = v
  unfoldable pub put : K → V → Dict K V → Dict K V
  put k v [] = (k, v) ∷ []
  put k v ((j, w) ∷ d) = if j == k then (j, v) ∷ d else (j, w) ∷ put k v d

  -- d.pop(k, None)
  unfoldable pub remove : K → Dict K V → Dict K V
  remove k [] = []
  remove k ((j, v) ∷ d) = let rest = remove k d in if j == k then rest else (j, v) ∷ rest

  pub get-put :
      (k j : K) (v : V) (d : Dict K V) → get j (put k v d) ≡ (if k == j then some v else get j d)
  unfolding get put
  get-put k j v [] = refl
  get-put k j v ((i, w) ∷ d) =
      ground (arith, get-put k j v d, e.same_iff i k, e.same_iff i j, e.same_iff k j)

  pub get-put_self : (k : K) (v : V) (d : Dict K V) → get k (put k v d) ≡ some v
  get-put_self k v d = ground (arith, get-put k k v d, e.same_iff k k)

  pub get-remove :
      (k j : K) (d : Dict K V) → get j (remove k d) ≡ (if k == j then none else get j d)
  unfolding get remove
  get-remove k j [] = ground arith
  get-remove k j ((i, w) ∷ d) =
      ground (arith, get-remove k j d, e.same_iff i k, e.same_iff i j, e.same_iff k j)

-- The sum of a number over the values.
abbrev pub sum_values {ℓ κ} : {K : Type ℓ} {V : Type κ} → (V → ℕ) → Dict K V → ℕ
sum_values f [] = 0
sum_values f ((k, v) ∷ d) = f v + sum_values f d

-- The number of a value, 0 where there is none.
abbrev pub or_zero {κ} : {V : Type κ} → (V → ℕ) → Option V → ℕ
or_zero f none = 0
or_zero f (some v) = f v

-- Every value has the property.
abbrev pub AllValues {ℓ κ ι} : {K : Type ℓ} {V : Type κ} → (V → Type ι) → Dict K V → Type ι
AllValues P [] = Unit
AllValues P ((k, v) ∷ d) = P v × AllValues P d

module _ {ℓ κ} {K : Type ℓ} {V : Type κ} ⦃e : Key K⦄ where
  pub sum_values-put :
      (f : V → ℕ) (k : K) (v : V) (d : Dict K V)
      → sum_values f (put k v d) + or_zero f (get k d) ≡ sum_values f d + f v
  unfolding get put
  sum_values-put f k v [] = omega arith
  sum_values-put f k v ((j, w) ∷ d) = ground (arith, sum_values-put f k v d)

  pub AllValues-put {ι} :
      (P : V → Type ι) (k : K) (v : V) (d : Dict K V)
      → P v
      → AllValues P d
      → AllValues P (put k v d)
  unfolding put
  AllValues-put P k v [] p h = (p, tt)
  AllValues-put P k v ((j, w) ∷ d) p h = elim (Bool-cases (j == k)) [
    | inl same ↦ rw same (p, h.1)
    | inr other ↦ rw other (h.0, AllValues-put P k v d p h.1)
  ]

  pub AllValues-get {ι} :
      (P : V → Type ι) (k : K) (d : Dict K V) {v : V} → AllValues P d → get k d ≡ some v → P v
  unfolding get
  AllValues-get P k [] h g = absurd (ground arith)
  AllValues-get P k ((j, w) ∷ d) {v} h g = elim (Bool-cases (j == k)) [
    | inl same ↦ let found : w ≡ v = ground arith in subst P found h.0
    | inr other ↦ AllValues-get P k d h.1 (rw other at g)
  ]

-- ===== src/Services/PlateSearch/Maximum.antt =====
-- `max` with a key of three numbers, as services/plate_search_service.py uses it.
use mathlib.Core.List.{Memᴰ}
use caps_dash.Prelude.{
  Mem-filter, ap, sym, ◌⊎◌, ◌≡◌, refl, Bool, true, false, List, [], ◌∷◌, ℕ_key, if◌then◌else◌,
  arith, All, filter, Bool-cases, inl, inr,
}
use mathlib.Core.Path.{subst}
use caps_dash.Services.PlateSearch.{Rank, key_less, maximum, or_rows}

key_less_irreflexive : (a : Rank) → key_less a a ≡ false
key_less_irreflexive (a, b, c) = ground arith

key_less_asymmetric : (a b : Rank) → key_less a b ≡ true → key_less b a ≡ false
key_less_asymmetric (a, b, c) (d, e, f) h = ground arith

not_key_less_trans :
    (a b c : Rank) → key_less a b ≡ false → key_less b c ≡ false → key_less a c ≡ false
not_key_less_trans (a, b, c) (d, e, f) (g, h, i) p q = ground arith

module _ {A : Type 0} (key : A → Rank) where
  -- nothing in the list is greater
  abbrev pub Greatest : A → List A → Type 0
  Greatest best = All (λ a. key_less (key best) (key a) ≡ false)

  pub maximum-Greatest : (best : A) (l : List A) → Greatest (maximum key best l) (best ∷ l)
  maximum-Greatest best [] = (key_less_irreflexive (key best), tt)
  maximum-Greatest best (a ∷ l) = elim (Bool-cases (key_less (key best) (key a))) [
    | inl more ↦
        let h = maximum-Greatest a l in
        subst (λ m. Greatest m (best ∷ a ∷ l))
          (sym (ap (λ b. maximum key (if b then a else best) l) more))
          (
            not_key_less_trans (key (maximum key a l)) (key a) (key best) h.0
                (key_less_asymmetric (key best) (key a) more),
            h,
          )
    | inr less ↦
        let h = maximum-Greatest best l in
        subst (λ m. Greatest m (best ∷ a ∷ l))
          (sym (ap (λ b. maximum key (if b then a else best) l) less))
          (h.0, (not_key_less_trans (key (maximum key best l)) (key best) (key a) h.0 less, h.1))
  ]

  pub maximum-Mem : (best : A) (l : List A) → Memᴰ (maximum key best l) (best ∷ l)
  maximum-Mem best [] = Memᴰ.head refl
  maximum-Mem best (a ∷ l) = elim (Bool-cases (key_less (key best) (key a))) [
    | inl more ↦ rw more (Memᴰ.tail (maximum-Mem a l))
    | inr less ↦ rw less (elim (maximum-Mem best l) [
      | Memᴰ.head here ↦ Memᴰ.head here
      | Memᴰ.tail later ↦ Memᴰ.tail (Memᴰ.tail later)
    ])
  ]

module _ {A : Type 0} where
  pub Mem-or_rows : (x : A) (p : A → Bool) (l : List A) → Memᴰ x (or_rows (filter p l) l) → Memᴰ x l
  Mem-or_rows x p l m = elim (List-cases (filter p l)) [
    | inl empty ↦ rw empty at m
    | inr (a, rest, full) ↦
        let m' : Memᴰ x (a ∷ rest) = rw full at m in (Mem-filter p x l (rw (sym full) at m')).0
  ]
    where
      List-cases : (l : List A) → (l ≡ []) ⊎ ((a : A) × (rest : List A) × (l ≡ a ∷ rest))
      List-cases [] = inl refl
      List-cases (a ∷ rest) = inr (a, rest, refl)

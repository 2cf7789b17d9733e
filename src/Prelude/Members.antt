-- ===== src/Prelude/Members.antt =====
-- Members of lists, with the proof that says where they stand.
use mathlib.Core.Path.{◌≡◌, refl, sym, subst}
use mathlib.Core.Logic.{inl, inr}
use mathlib.Core.Bool.{Bool, true}
use mathlib.Core.List.{List, [], ◌∷◌, ◌++◌, Memᴰ}
use caps_dash.Prelude.Lists.{All, filter}
use caps_dash.Prelude.Tests.{Bool-cases}

module _ {A : Type 0} where
  pub Mem-filter :
      (p : A → Bool) (x : A) (l : List A) → Memᴰ x (filter p l) → Memᴰ x l × (p x ≡ true)
  Mem-filter p x [] m = elim m [ ]
  Mem-filter p x (a ∷ l) m = elim (Bool-cases (p a)) [
    | inl kept ↦
        let m' : Memᴰ x (a ∷ filter p l) = rw kept at m in
        elim m' [
          | Memᴰ.head here ↦ (Memᴰ.head here, subst (λ y. p y ≡ true) (sym here) kept)
          | Memᴰ.tail later ↦
              let (inside, passes) = Mem-filter p x l later in (Memᴰ.tail inside, passes)
        ]
    | inr dropped ↦
        let (inside, passes) = Mem-filter p x l (rw dropped at m) in (Memᴰ.tail inside, passes)
  ]

  pub Mem-filter_of :
      (p : A → Bool) (x : A) (l : List A) → Memᴰ x l → p x ≡ true → Memᴰ x (filter p l)
  Mem-filter_of p x [] m h = elim m [ ]
  Mem-filter_of p x (a ∷ l) (Memᴰ.head here) h =
      let kept : p a ≡ true = subst (λ y. p y ≡ true) here h in rw kept (Memᴰ.head here)
  Mem-filter_of p x (a ∷ l) (Memᴰ.tail later) h = elim (Bool-cases (p a)) [
    | inl kept ↦ rw kept (Memᴰ.tail (Mem-filter_of p x l later h))
    | inr dropped ↦ rw dropped (Mem-filter_of p x l later h)
  ]

  pub All-Mem : (P : A → Type 0) (x : A) (l : List A) → Memᴰ x l → All P l → P x
  All-Mem P x [] m h = elim m [ ]
  All-Mem P x (a ∷ l) (Memᴰ.head here) h = subst P (sym here) h.0
  All-Mem P x (a ∷ l) (Memᴰ.tail later) h = All-Mem P x l later h.1

  pub All-of_Mem : (P : A → Type 0) (l : List A) → ((x : A) → Memᴰ x l → P x) → All P l
  All-of_Mem P [] f = tt
  All-of_Mem P (x ∷ l) f = (f x (Memᴰ.head refl), All-of_Mem P l (λ y m. f y (Memᴰ.tail m)))

  pub Mem-append_left : (c : A) (l m : List A) → Memᴰ c l → Memᴰ c (l ++ m)
  Mem-append_left c [] m h = elim h [ ]
  Mem-append_left c (x ∷ l) m (Memᴰ.head here) = Memᴰ.head here
  Mem-append_left c (x ∷ l) m (Memᴰ.tail later) = Memᴰ.tail (Mem-append_left c l m later)

  pub Mem-append_right : (c : A) (l m : List A) → Memᴰ c m → Memᴰ c (l ++ m)
  Mem-append_right c [] m h = h
  Mem-append_right c (x ∷ l) m h = Memᴰ.tail (Mem-append_right c l m h)

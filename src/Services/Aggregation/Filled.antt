-- ===== src/Services/Aggregation/Filled.antt =====
-- Which hours have a row after a run of the job.
use mathlib.Core.List.{Memᴰ}
use mathlib.Core.Path.{subst}
use caps_dash.Prelude.{
  zero, leb, sym, nat_eq, ◌-◌, suc, some, refl, arith, [], ◌+◌, true, inr, ◌<◌, ◌∷◌, ◌≡◌, inl, ◌⊎◌,
  Option, Bool, ◌≤◌, List, ℕ, ◌↔◌, Bool-cases, false, nat_eq_iff,
}
use caps_dash.Services.Aggregation.{
  first_pending, has_row, aggregate_hours, aggregate_pending_hours, aggregate_one_hour, hours_from,
}
use caps_dash.Services.Aggregation.Backlog.{hours_pending-some}

Mem-has_row : (rows : List ℕ) (h : ℕ) → has_row rows h ≡ true → Memᴰ h rows
Mem-has_row [] h found = absurd (ground arith)
Mem-has_row (g ∷ rows) h found = elim (Bool-cases (nat_eq g h)) [
  | inl same ↦ Memᴰ.head (sym ((nat_eq_iff g h).0 same))
  | inr other ↦ Memᴰ.tail (Mem-has_row rows h (ground (arith, other)))
]

aggregate_one_hour-cases :
    (suspect : ℕ → Bool) (rows : List ℕ) (hour : ℕ)
    → ((suspect hour ≡ true) × (aggregate_one_hour suspect rows hour ≡ rows))
      ⊎ ((suspect hour ≡ false) × Memᴰ hour rows × (aggregate_one_hour suspect rows hour ≡ rows))
      ⊎ ((suspect hour ≡ false) × (aggregate_one_hour suspect rows hour ≡ hour ∷ rows))
unfolding aggregate_one_hour
aggregate_one_hour-cases suspect rows hour = elim (Bool-cases (suspect hour)) [
  | inl doubted ↦ inl (doubted, rw doubted refl)
  | inr fine ↦ elim (Bool-cases (has_row rows hour)) [
    | inl there ↦ inr (inl (fine, Mem-has_row rows hour there, rw (fine, there) refl))
    | inr missing ↦ inr (inr (fine, rw (fine, missing) refl))
  ]
]

-- the hour has a row afterwards
abbrev Filled : (ℕ → Bool) → List ℕ → List ℕ → ℕ → Type 0
Filled suspect rows hours h = Memᴰ h rows ⊎ (Memᴰ h hours × (suspect h ≡ false))

Filled-cons :
    (suspect : ℕ → Bool) (rows hours : List ℕ) (g h : ℕ)
    → Filled suspect (aggregate_one_hour suspect rows g) hours h ↔ Filled suspect rows (g ∷ hours) h
Filled-cons suspect rows hours g h = elim (aggregate_one_hour-cases suspect rows g) [
  | inl (doubted, same) ↦ rw same (
    λ f. elim f [ inl old ↦ inl old | inr (later, fine) ↦ inr (Memᴰ.tail later, fine) ],
    λ f. elim f [
      | inl old ↦ inl old
      | inr (m, fine) ↦ elim m [
        | Memᴰ.head here ↦ absurd (ground (arith, subst (λ x. suspect x ≡ false) here fine))
        | Memᴰ.tail later ↦ inr (later, fine)
      ]
    ],
  )
  | inr (inl (trusted, there, same)) ↦ rw same (
    λ f. elim f [ inl old ↦ inl old | inr (later, fine) ↦ inr (Memᴰ.tail later, fine) ],
    λ f. elim f [
      | inl old ↦ inl old
      | inr (m, fine) ↦ elim m [
        | Memᴰ.head here ↦ inl (subst (λ x. Memᴰ x rows) (sym here) there)
        | Memᴰ.tail later ↦ inr (later, fine)
      ]
    ],
  )
  | inr (inr (trusted, added)) ↦ rw added (
    λ f. elim f [
      | inl m ↦ elim m [
        | Memᴰ.head here ↦ inr (Memᴰ.head here, subst (λ x. suspect x ≡ false) (sym here) trusted)
        | Memᴰ.tail old ↦ inl old
      ]
      | inr (later, fine) ↦ inr (Memᴰ.tail later, fine)
    ],
    λ f. elim f [
      | inl old ↦ inl (Memᴰ.tail old)
      | inr (m, fine) ↦ elim m [
        | Memᴰ.head here ↦ inl (Memᴰ.head here)
        | Memᴰ.tail later ↦ inr (later, fine)
      ]
    ],
  )
]

Mem-aggregate_hours :
    (suspect : ℕ → Bool) (rows hours : List ℕ) (h : ℕ)
    → Memᴰ h (aggregate_hours suspect rows hours) ↔ Filled suspect rows hours h
unfolding aggregate_hours
Mem-aggregate_hours suspect rows [] h =
    (λ m. inl m, λ f. elim f [ inl old ↦ old | inr (m, fine) ↦ elim m [ ] ])
Mem-aggregate_hours suspect rows (g ∷ hours) h =
    let rest = Mem-aggregate_hours suspect (aggregate_one_hour suspect rows g) hours h in
    let first = Filled-cons suspect rows hours g h in
    (λ m. first.0 (rest.0 m), λ f. rest.1 (first.1 f))

Mem-hours_from :
    (cursor latest room h : ℕ)
    → Memᴰ h (hours_from cursor latest room) ↔ ((cursor ≤ h) × (h ≤ latest) × (h < cursor + room))
unfolding hours_from
Mem-hours_from cursor latest zero h = (λ m. elim m [ ], λ b. absurd (omega (arith, b.0, b.2)))
Mem-hours_from cursor latest (suc room) h =
    let rest = Mem-hours_from (cursor + 1) latest room h in
    elim (Bool-cases (leb cursor latest)) [
      | inl closed ↦ rw closed (
        λ m. elim m [
          | Memᴰ.head here ↦ (ground arith, ground arith, ground arith)
          | Memᴰ.tail later ↦
              let (low, high, near) = rest.0 later in (omega arith, high, omega arith)
        ],
        λ b. elim (Bool-cases (nat_eq cursor h)) [
          | inl same ↦ Memᴰ.head (sym ((nat_eq_iff cursor h).0 same))
          | inr other ↦ Memᴰ.tail (rest.1 (ground (arith, other, b.0), b.1, omega (arith, b.2)))
        ],
      )
      | inr over ↦ rw over (λ m. elim m [ ], λ b. absurd (ground (arith, over, b.0, b.1)))
    ]

-- A run that starts at some pending hour leaves a row for exactly the hours that had one, and those of the
-- next 24 from the first pending one that have closed and whose events are not all suspect.
pub aggregate_pending_hours_lem :
    (suspect : ℕ → Bool) (rows : List ℕ) (earliest : Option ℕ) (now_hour start h : ℕ)
    → 0 < now_hour
    → first_pending rows earliest ≡ some start
    → Memᴰ h (aggregate_pending_hours suspect rows earliest now_hour).0
      ↔ (Memᴰ h rows ⊎ ((start ≤ h) × (h < now_hour) × (h < start + 24) × (suspect h ≡ false)))
unfolding aggregate_pending_hours
aggregate_pending_hours_lem suspect rows earliest now_hour start h started found =
    let pending = hours_pending-some rows earliest now_hour 24 start found in
    let hours = hours_from start (now_hour - 1) 24 in
    let filled = Mem-aggregate_hours suspect rows hours h in
    let span = Mem-hours_from start (now_hour - 1) 24 h in
    rw pending (
      λ m. elim (filled.0 m) [
        | inl old ↦ inl old
        | inr (inside, fine) ↦
            let (low, high, near) = span.0 inside in inr (low, omega arith, near, fine)
      ],
      λ f. elim f [
        | inl old ↦ filled.1 (inl old)
        | inr (low, high, near, fine) ↦ filled.1 (inr (span.1 (low, omega arith, near), fine))
      ],
    )

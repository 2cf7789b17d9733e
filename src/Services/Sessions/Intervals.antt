-- ===== src/Services/Sessions/Intervals.antt =====
-- The order of the sessions of one slot in services/session_derivation_service.py.
use caps_dash.Prelude.{
  ℕ, ◌≤◌, ◌≡◌, refl, true, false, Option, none, some, List, [], ◌∷◌, ◌++◌, arith,
}
use caps_dash.Vision.States.{SlotState, unknown, free, occupied}
use caps_dash.Services.Sessions.{Row, DerivedSession, step, derive_from, derive_for_one_slot}

-- The rows are ordered by time, from `start` on.
abbrev pub Ordered : ℕ → List Row → Type 0
Ordered start [] = Unit
Ordered start (row ∷ rows) = (start ≤ row.changed_at) × Ordered row.changed_at rows

-- The sessions start at `start` or later, each ends before the next begins, the closed ones are
-- not `ongoing`, and one that is open is `ongoing` and the last.
abbrev pub Chained : ℕ → List DerivedSession → Type 0
Chained start [] = Unit
Chained start (s ∷ ss) = (start ≤ s.started_at) × (elim s.ended_at [
  | none ↦ (s.ongoing ≡ true) × (ss ≡ [])
  | some e ↦ (s.ongoing ≡ false) × (s.started_at ≤ e) × Chained e ss
])

-- what holds of the session that is open in the loop
record IsOpen (start now : ℕ) (s : DerivedSession) : Type 0 where
  not_ended : s.ended_at ≡ none
  is_ongoing : s.ongoing ≡ true
  after : start ≤ s.started_at
  before : s.started_at ≤ now

abbrev Current : ℕ → ℕ → Option DerivedSession → Type 0
Current start now none = start ≤ now
Current start now (some s) = IsOpen start now s

-- one round of the loop, `rest` standing for the rounds that follow
Chained-step :
    (start now : ℕ) (state : SlotState) (current : Option DerivedSession) (row : Row)
    (rest : Option DerivedSession → List DerivedSession)
    → ((start' : ℕ) (current' : Option DerivedSession)
        → Current start' row.changed_at current'
        → Chained start' (rest current'))
    → Current start now current
    → now ≤ row.changed_at
    → Chained start ((step state current row).0 ++ rest (step state current row).1)
unfolding step
Chained-step start now occupied none row rest ih c h =
    ih start _
      (record { not_ended = refl; is_ongoing = refl; after = omega arith; before = omega arith })
Chained-step start now free none row rest ih c h = ih start none (omega arith)
Chained-step start now unknown none row rest ih c h = ih start none (omega arith)
Chained-step start now free (some s) row rest ih c h =
    (c.after, (refl, omega (arith, c.before), ih row.changed_at none (omega arith)))
Chained-step start now unknown (some s) row rest ih c h = ih start _ (record {
  not_ended = c.not_ended;
  is_ongoing = c.is_ongoing;
  after = c.after;
  before = omega (arith, c.before);
})
Chained-step start now occupied (some s) row rest ih c h = ih start _ (record {
  not_ended = c.not_ended;
  is_ongoing = c.is_ongoing;
  after = c.after;
  before = omega (arith, c.before);
})

Chained-derive_from :
    (start now : ℕ) (current : Option DerivedSession) (rows : List Row)
    → Current start now current
    → Ordered now rows
    → Chained start (derive_from current rows)
unfolding derive_from
Chained-derive_from start now none [] c h = tt
Chained-derive_from start now (some s) [] c h = (c.after, rw c.not_ended (c.is_ongoing, refl))
Chained-derive_from start now none (row ∷ rows) c (p, h) =
    Chained-step start now row.new_state none row (λ next. derive_from next rows)
      (λ start' next k. Chained-derive_from start' row.changed_at next rows k h) c p
Chained-derive_from start now (some s) (row ∷ rows) c (p, h) =
    Chained-step start now row.new_state (some s) row (λ next. derive_from next rows)
      (λ start' next k. Chained-derive_from start' row.changed_at next rows k h) c p

-- From rows in the order of time come sessions in the order of time: each ends at or after its
-- start and before the next begins, every session but the last is closed, and a session has no
-- end exactly when it is `ongoing`.
pub derive_for_one_slot-Chained :
    (rows : List Row) → Ordered 0 rows → Chained 0 (derive_for_one_slot rows)
unfolding derive_for_one_slot
derive_for_one_slot-Chained rows h = Chained-derive_from 0 0 none rows (omega arith) h

-- ===== src/Services/Sessions/Gaps.antt =====
-- UNKNOWN rows in services/session_derivation_service.py.
use caps_dash.Prelude.{
  ℕ, ◌≡◌, refl, true, not, Option, none, some, List, [], ◌∷◌, map, arith, filter, ◌||◌,
}
use caps_dash.Vision.States.{is_unknown}
use caps_dash.Services.Sessions.{
  Row, DerivedSession, open_session, step, derive_from, derive_for_one_slot,
}

-- when a session started and ended
abbrev pub span : DerivedSession → ℕ × Option ℕ
span s = (s.started_at, s.ended_at)

-- the rows that say something of the slot
abbrev pub known_rows : List Row → List Row
known_rows = filter (λ row. not (is_unknown row.new_state))

-- two sessions that differ at most in their marks
abbrev SameSpan : Option DerivedSession → Option DerivedSession → Type 0
SameSpan none none = Unit
SameSpan (some s) (some t) = (s.started_at ≡ t.started_at) × (s.ended_at ≡ t.ended_at)
SameSpan _ _ = ⊥

spans-derive_from :
    (c d : Option DerivedSession) (rows : List Row)
    → SameSpan c d
    → map span (derive_from c rows) ≡ map span (derive_from d (known_rows rows))
unfolding derive_from step
spans-derive_from none none [] h = refl
spans-derive_from (some s) (some t) [] h = ground arith
spans-derive_from none (some t) rows h = absurd h
spans-derive_from (some s) none rows h = absurd h
spans-derive_from none none (row ∷ rows) h =
    let opened = some (open_session row) in
    ground (
      arith,
      spans-derive_from none none rows tt,
      spans-derive_from opened opened rows (refl, refl),
    )
spans-derive_from (some s) (some t) (row ∷ rows) h =
    let suspect = λ (x : DerivedSession). x.clock_suspect || row.clock_suspect in
    ground (
      arith,
      spans-derive_from none none rows tt,
      spans-derive_from (some (record s { had_gap = true; clock_suspect = suspect s })) (some t)
          rows h,
      spans-derive_from (some (record s { clock_suspect = suspect s }))
          (some (record t { clock_suspect = suspect t })) rows h,
    )

-- The sessions start and end at the same times when the UNKNOWN rows are left out: losing the
-- camera neither splits a session, nor closes it, nor opens one.
pub spans-known_rows :
    (rows : List Row)
    → map span (derive_for_one_slot rows) ≡ map span (derive_for_one_slot (known_rows rows))
unfolding derive_for_one_slot
spans-known_rows rows = spans-derive_from none none rows tt

-- ===== src/Services/Aggregation/Backlog.antt =====
-- What a run of the job takes up.
use mathlib.Core.Path.{subst}
use caps_dash.Prelude.{
  ℕ, zero, suc, ◌+◌, ◌-◌, ◌≤◌, ◌<◌, ◌≡◌, sym, refl, ap, ◌∙◌, Bool, Option, none, some, List, [],
  ◌∷◌, All, All-mono, arith, leb, min, length, if◌then◌else◌, Bool-cases, Option-cases, inl, inr,
}
use caps_dash.Services.Aggregation.{
  max_hours_per_run, hours_from, latest_aggregated_hour, first_pending, hours_pending,
}

length-hours_from :
    (cursor latest room : ℕ)
    → length (hours_from cursor latest room) ≡ min room (latest + 1 - cursor)
unfolding hours_from
length-hours_from cursor latest zero = omega arith
length-hours_from cursor latest (suc room) =
    ground (arith, length-hours_from (cursor + 1) latest room)

hours_from-suc :
    (cursor latest room : ℕ)
    → hours_from cursor latest (suc room)
      ≡ (if leb cursor latest then cursor ∷ hours_from (cursor + 1) latest room else [])
unfolding hours_from
hours_from-suc cursor latest room = refl

-- the hours that the list may hold
abbrev Between : ℕ → ℕ → List ℕ → Type 0
Between first latest = All (λ h. (first ≤ h) × (h ≤ latest))

Between-hours_from :
    (cursor latest room : ℕ) → Between cursor latest (hours_from cursor latest room)
Between-hours_from cursor latest zero = unfold hours_from in tt
Between-hours_from cursor latest (suc room) =
    let cases : Bool → List ℕ =
      λ b. if b then cursor ∷ hours_from (cursor + 1) latest room else [] in
    elim (Bool-cases (leb cursor latest)) [
      | inl closed ↦
          subst (Between cursor latest) (sym (hours_from-suc cursor latest room ∙ ap cases closed))
            (
              (omega arith, ground arith),
              All-mono (λ h. (cursor + 1 ≤ h) × (h ≤ latest)) (λ h. (cursor ≤ h) × (h ≤ latest))
                  (hours_from (cursor + 1) latest room) (λ h b. (omega (arith, b.0), b.1))
                  (Between-hours_from (cursor + 1) latest room),
            )
      | inr over ↦
          subst (Between cursor latest) (sym (hours_from-suc cursor latest room ∙ ap cases over)) tt
    ]

hours_pending-none :
    (rows : List ℕ) (earliest : Option ℕ) (now_hour max_hours : ℕ)
    → first_pending rows earliest ≡ none
    → hours_pending rows earliest now_hour max_hours ≡ []
unfolding hours_pending
hours_pending-none rows earliest now_hour max_hours h = ground arith

pub hours_pending-some :
    (rows : List ℕ) (earliest : Option ℕ) (now_hour max_hours start : ℕ)
    → first_pending rows earliest ≡ some start
    → hours_pending rows earliest now_hour max_hours ≡ hours_from start (now_hour - 1) max_hours
unfolding hours_pending
hours_pending-some rows earliest now_hour max_hours start h = ground arith

-- A run takes up at most 24 hours, and only hours that have closed: never the one in progress.
pub hours_pending-closed :
    (rows : List ℕ) (earliest : Option ℕ) (now_hour : ℕ)
    → 0 < now_hour
    → (length (hours_pending rows earliest now_hour max_hours_per_run) ≤ 24)
      × All (λ h. h < now_hour) (hours_pending rows earliest now_hour max_hours_per_run)
hours_pending-closed rows earliest now_hour started =
    let Fine : List ℕ → Type 0 = λ hours. (length hours ≤ 24) × All (λ h. h < now_hour) hours in
    elim (Option-cases (first_pending rows earliest)) [
      | inl nothing ↦
          subst Fine (sym (hours_pending-none rows earliest now_hour 24 nothing)) (omega arith, tt)
      | inr (start, found) ↦
          subst Fine (sym (hours_pending-some rows earliest now_hour 24 start found)) (
            omega (arith, length-hours_from start (now_hour - 1) 24),
            All-mono (λ h. (start ≤ h) × (h ≤ now_hour - 1)) (λ h. h < now_hour)
                (hours_from start (now_hour - 1) 24) (λ h b. omega (arith, b.1, started))
                (Between-hours_from start (now_hour - 1) 24),
          )
    ]

first-latest :
    (rows : List ℕ) (earliest : Option ℕ) (last : ℕ)
    → latest_aggregated_hour rows ≡ some last
    → first_pending rows earliest ≡ some (last + 1)
unfolding first_pending
first-latest rows earliest last h = ground arith

-- Once an hour has its row, no hour up to it is taken up again, so an hour that was skipped for its
-- clock before a later one was aggregated stays without a row.
pub hours_pending-after :
    (rows : List ℕ) (earliest : Option ℕ) (now_hour last : ℕ)
    → latest_aggregated_hour rows ≡ some last
    → All (λ h. last < h) (hours_pending rows earliest now_hour max_hours_per_run)
hours_pending-after rows earliest now_hour last h =
    subst (All (λ h. last < h))
      (sym (
        hours_pending-some rows earliest now_hour 24 (last + 1)
          (first-latest rows earliest last h)))
      (All-mono (λ g. (last + 1 ≤ g) × (g ≤ now_hour - 1)) (λ g. last < g)
        (hours_from (last + 1) (now_hour - 1) 24) (λ g b. omega (arith, b.0))
        (Between-hours_from (last + 1) (now_hour - 1) 24))

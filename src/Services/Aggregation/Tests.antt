-- ===== src/Services/Aggregation/Tests.antt =====
-- A backlog with an hour that was written under an implausible clock.
use caps_dash.Prelude.{ℕ, arith, false, ◌+◌, ◌<◌, ◌≤◌, ◌⊎◌, ◌≡◌, refl, some, [], ◌∷◌, nat_eq}
use caps_dash.Services.Aggregation.{
  latest_aggregated_hour, first_pending, hours_pending, hours_from, aggregate_pending_hours,
  aggregate_hours, aggregate_one_hour,
}
use mathlib.Core.List.{Memᴰ}
use caps_dash.Prelude.{◌↔◌}
use caps_dash.Services.Aggregation.Filled.{aggregate_pending_hours_lem}

-- hour 10 is suspect: the run that takes up the hours 9 to 11 leaves no row for it
skipped_hour : (aggregate_pending_hours (nat_eq 10) [] (some 9) 12).0 ≡ 11 ∷ 9 ∷ []
unfolding aggregate_pending_hours aggregate_hours aggregate_one_hour hours_pending first_pending
    latest_aggregated_hour hours_from
skipped_hour = refl

aggregate_pending_hours_lem_example :
    Memᴰ {A = ℕ} 11 (aggregate_pending_hours (nat_eq 10) [] (some 9) 12).0
    ↔ (Memᴰ {A = ℕ} 11 [] ⊎ ((9 ≤ 11) × (11 < 12) × (11 < 9 + 24) × (nat_eq 10 11 ≡ false)))
unfolding first_pending latest_aggregated_hour
aggregate_pending_hours_lem_example =
    aggregate_pending_hours_lem (nat_eq 10) [] (some 9) 12 9 11 (omega arith) refl

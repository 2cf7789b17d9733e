-- ===== src/Security/RateLimiter/Tests.antt =====
-- Runs of the rate limiter, and its theorems at concrete inputs.
use caps_dash.Prelude.{◌≡◌, refl, String_key, List, [], ◌∷◌, arith}
use caps_dash.Prelude.Dict
use caps_dash.Security.RateLimiter.{
  SlidingWindowLimiter, admitted, limited, index_error, events_of, check, record_event, try_acquire,
  reset, sweep_idle, drop_expired, prune, admission, append_event, count_if_admitted,
}
use caps_dash.Security.RateLimiter.Budget
use caps_dash.Security.RateLimiter.Budget.{Call, admissions, WithinBudget, in_window}
use caps_dash.Security.RateLimiter.Retry

program : Unit {0}
unfolding check record_event try_acquire reset sweep_idle prune admission append_event
    count_if_admitted events_of drop_expired Dict.get Dict.put Dict.remove
program = tt

-- two attempts in a window of 10 seconds, at 10 ticks to the second
abbrev fresh : SlidingWindowLimiter
fresh = record { max_attempts = 2; window = 100; second = 10; events = [] }

abbrev spent : SlidingWindowLimiter
spent = record fresh { events = ("ip:1", 5 ∷ 40 ∷ []) ∷ [] }

runs :
    ((try_acquire spent "ip:1" 50 51).1 ≡ limited 6)
    × ((try_acquire spent "ip:1" 106 107).1 ≡ admitted)
    × ((try_acquire spent "ip:2" 50 51).1 ≡ admitted)
    × ((sweep_idle spent (λ _. 200)).1 ≡ 1)
    × ((try_acquire (record fresh { max_attempts = 0 }) "x" 1 1).1 ≡ index_error)
unfolding program
runs = (refl, refl, refl, refl, refl)

abbrev burst : List Call
burst =
    record { key = "ip:1"; pruned_at = 5; now = 5 }
    ∷ record { key = "ip:1"; pruned_at = 6; now = 7 }
    ∷ record { key = "ip:2"; pruned_at = 7; now = 7 }
    ∷ record { key = "ip:1"; pruned_at = 8; now = 8 }
    ∷ []

admissions-WithinBudget_example : WithinBudget 2 100 (admissions "ip:1" fresh burst [])
unfolding program
admissions-WithinBudget_example =
    Budget.admissions-WithinBudget "ip:1" burst fresh refl (omega arith)

retry_honest_example : (try_acquire (check spent "ip:1" 50 51).0 "ip:1" 111 112).1 ≡ admitted
unfolding program
retry_honest_example =
    Retry.retry_honest spent "ip:1" 50 51 111 112 (omega arith) (omega arith) (omega arith) refl
      (omega arith)

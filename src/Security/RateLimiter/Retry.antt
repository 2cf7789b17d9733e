-- ===== src/Security/RateLimiter/Retry.antt =====
-- When a key is refused, and how long it is told to wait.
use caps_dash.Prelude.{
  ℕ, ◌+◌, ◌-◌, ◌*◌, ◌/◌, ◌≤◌, ◌<◌, ◌≡◌, ◌↔◌, max, refl, sym, ◌∙◌, String, String_key, List, [], ◌∷◌,
  arith, length, All,
}
use caps_dash.Security.RateLimiter.{
  SlidingWindowLimiter, admitted, limited, events_of, drop_expired, admission, check, prune,
  retry_after, try_acquire,
}
use caps_dash.Security.RateLimiter.Prune.{live, events_of-prune_self, verdict-try_acquire}
use caps_dash.Security.RateLimiter.Budget.{in_window}

-- Events are appended with a clock that does not run back.
abbrev pub IsSorted : List ℕ → Type 0
IsSorted [] = Unit
IsSorted (e ∷ events) = All (λ later. e ≤ later) events × IsSorted events

none_expired :
    (window now e : ℕ) (events : List ℕ)
    → now ≤ e + window
    → All (λ later. e ≤ later) events
    → in_window window now events ≡ length events
none_expired window now e [] h a = refl
none_expired window now e (x ∷ events) h a =
    ground (arith, a.0, none_expired window now e events h a.1)

-- On a sorted deque, what pruning keeps is what lies in the window.
length-live :
    (window now : ℕ) (events : List ℕ)
    → IsSorted events
    → length (drop_expired window now events) ≡ in_window window now events
unfolding drop_expired
length-live window now [] h = refl
length-live window now (e ∷ events) h =
    ground (arith, length-live window now events h.1, none_expired window now e events)

verdict-check :
    (l : SlidingWindowLimiter) (key : String) (pruned_at now : ℕ)
    → (check l key pruned_at now).1 ≡ admission l (live l key pruned_at) now
unfolding check prune admission
verdict-check l key pruned_at now = ground (arith, events_of-prune_self l key pruned_at now)

admitted_iff :
    (l : SlidingWindowLimiter) (events : List ℕ) (now : ℕ)
    → (admission l events now ≡ admitted) ↔ (length events < l.max_attempts)
unfolding admission
admitted_iff l [] now = (λ h. ground arith, λ h. ground arith)
admitted_iff l (e ∷ events) now = (λ h. ground arith, λ h. ground arith)

-- `check` lets a key pass exactly when fewer than `max_attempts` of the recorded events lie in the
-- window that ends at its reading of the clock; `try_acquire` gives the same verdict.
pub check_iff :
    (l : SlidingWindowLimiter) (key : String) (pruned_at now : ℕ)
    → IsSorted (events_of l key)
    → (((check l key pruned_at now).1 ≡ admitted)
        ↔ (in_window l.window pruned_at (events_of l key) < l.max_attempts))
      × ((try_acquire l key pruned_at now).1 ≡ (check l key pruned_at now).1)
check_iff l key pruned_at now s =
    let fits = admitted_iff l (live l key pruned_at) now in
    let same = verdict-check l key pruned_at now in
    let size = length-live l.window pruned_at (events_of l key) s in
    (
      (λ h. omega (arith, size, fits.0 (sym same ∙ h)), λ h. same ∙ fits.1 (omega (arith, size))),
      verdict-try_acquire l key pruned_at now ∙ sym same,
    )

-- rounding down to whole seconds and adding one covers the wait
whole_seconds : (wait second : ℕ) → 0 < second → wait < (wait / second + 1) * second
whole_seconds wait second h = grind arith

length-drop_expired-le :
    (window now : ℕ) (events : List ℕ) → length (drop_expired window now events) ≤ length events
unfolding drop_expired
length-drop_expired-le window now [] = omega arith
length-drop_expired-le window now (e ∷ events) =
    ground (arith, length-drop_expired-le window now events)

-- the pruned deque once its head has expired
length-expired_head :
    (window now e : ℕ) (events : List ℕ)
    → e + window < now
    → length (drop_expired window now (e ∷ events)) ≤ length events
unfolding drop_expired
length-expired_head window now e events h = ground (arith, length-drop_expired-le window now events)

wait_over :
    (l : SlidingWindowLimiter) (oldest now later : ℕ)
    → 0 < l.second
    → oldest ≤ now
    → now + retry_after l oldest now * l.second ≤ later
    → oldest + l.window < later
unfolding retry_after
wait_over l oldest now later p q h =
    let wait = l.window - (now - oldest) in
    let covers = whole_seconds wait l.second p in
    let rounds : max (wait / l.second + 1) 1 ≡ wait / l.second + 1 = omega arith in
    let h' : now + (wait / l.second + 1) * l.second ≤ later = rw (← rounds) h in omega arith

limited_head :
    (l : SlidingWindowLimiter) (events : List ℕ) (now : ℕ) {r : ℕ}
    → admission l events now ≡ limited r
    → (oldest : ℕ) × (rest : List ℕ) × (events ≡ oldest ∷ rest) × (r ≡ retry_after l oldest now)
unfolding admission
limited_head l [] now h = absurd (ground arith)
limited_head l (e ∷ events) now h = (e, events, refl, ground arith)

-- a `check` leaves the pruned deque, and the settings, behind
live-check :
    (l : SlidingWindowLimiter) (key : String) (pruned_at now later : ℕ)
    → (live (check l key pruned_at now).0 key later
        ≡ drop_expired l.window later (live l key pruned_at))
      × ((check l key pruned_at now).0.max_attempts ≡ l.max_attempts)
unfolding check
live-check l key pruned_at now later =
    (rw events_of-prune_self (unfold prune in refl), unfold prune in refl)

-- The `retry_after_s` of a refusal is honest: if the deque was within the budget, then a key that
-- waits that many seconds and makes no other call is admitted.
pub retry_honest :
    (l : SlidingWindowLimiter) (key : String) (pruned_at now later again : ℕ) {r : ℕ}
    → 0 < l.second
    → length (live l key pruned_at) ≤ l.max_attempts
    → All (λ e. e ≤ now) (live l key pruned_at)
    → (check l key pruned_at now).1 ≡ limited r
    → now + r * l.second ≤ later
    → (try_acquire (check l key pruned_at now).0 key later again).1 ≡ admitted
retry_honest l key pruned_at now later again p fits past refused waited =
    let l' = (check l key pruned_at now).0 in
    let (kept, budget) = live-check l key pruned_at now later in
    let (oldest, rest, head, retry) =
      limited_head l (live l key pruned_at) now
        (sym (verdict-check l key pruned_at now) ∙ refused) in
    let first : oldest ≤ now = (rw head at past).0 in
    let gone : oldest + l.window < later =
      wait_over l oldest now later p first (rw retry at waited) in
    let size : length (live l' key later) ≤ length rest =
      rw (kept, head) (length-expired_head l.window later oldest rest gone) in
    let room : length (oldest ∷ rest) ≤ l.max_attempts = rw head at fits in
    verdict-try_acquire l' key later again
    ∙ (admitted_iff l' (live l' key later) again).1 (omega arith)

-- ===== src/Security/RateLimiter.antt =====
-- security/rate_limiter.py: the sliding-window event counter. Clock readings are numbers of ticks
-- of the monotonic clock and are arguments, one for each call of `self._clock()`; `second` is the
-- number of ticks in a second. The lock makes each method one step.
pub mod Prune
pub mod Budget
pub mod Retry
mod Tests
use caps_dash.Prelude.{
  ℕ, ◌+◌, ◌-◌, ◌/◌, max, String, String_key, Bool, true, false, Option, none, some, List, [], ◌∷◌,
  ◌++◌, map, ltb, leb, if◌then◌else◌, length,
}
use caps_dash.Prelude.Dict
use caps_dash.Prelude.Dict.{Dict}

pub record SlidingWindowLimiter : Type 0 where
  pub max_attempts : ℕ
  pub window : ℕ
  pub second : ℕ
  pub events : Dict String (List ℕ)

-- A method's verdict: it returns, raises `RateLimitedError(retry_after_s)`, or raises the
-- `IndexError` of `events[0]` on an empty deque, which a budget of 0 would meet.
pub data Admission : Type 0 where
  admitted : Admission
  limited : ℕ → Admission
  index_error : Admission

-- `self._events[key]` of the `defaultdict`
unfoldable pub events_of : SlidingWindowLimiter → String → List ℕ
events_of l key = elim (Dict.get key l.events) [ none ↦ [] | some events ↦ events ]

-- the loop of `_prune`: `events[0] < cutoff`, with `cutoff = now - window`
unfoldable pub drop_expired : ℕ → ℕ → List ℕ → List ℕ
drop_expired window now [] = []
drop_expired window now (oldest ∷ events) =
    if ltb (oldest + window) now then drop_expired window now events else oldest ∷ events

-- `_prune`: the pruned deque is the one in the dictionary
unfoldable pub prune : SlidingWindowLimiter → String → ℕ → SlidingWindowLimiter
unfolding drop_expired events_of
prune l key now = record l {
  events = Dict.put key (drop_expired l.window now (events_of l key)) l.events;
}

-- `max(int(window_s - (now - oldest)) + 1, 1)`
unfoldable pub retry_after : SlidingWindowLimiter → ℕ → ℕ → ℕ
retry_after l oldest now = max ((l.window - (now - oldest)) / l.second + 1) 1

-- the test that `check` and `try_acquire` share, on the pruned deque
unfoldable pub admission : SlidingWindowLimiter → List ℕ → ℕ → Admission
unfolding retry_after
admission l events now =
    if leb l.max_attempts (length events)
    then elim events [ [] ↦ index_error | oldest ∷ _ ↦ limited (retry_after l oldest now) ]
    else admitted

-- `check`: a refusal leaves the pruned deque in place
unfoldable pub check : SlidingWindowLimiter → String → ℕ → ℕ → SlidingWindowLimiter × Admission
check l key pruned_at now =
    let l' = prune l key pruned_at in (l', admission l' (events_of l' key) now)

-- `self._events[key].append(self._clock())`
unfoldable pub append_event : SlidingWindowLimiter → String → ℕ → SlidingWindowLimiter
unfolding events_of
append_event l key now = record l { events = Dict.put key (events_of l key ++ now ∷ []) l.events }

-- `record`
unfoldable pub record_event : SlidingWindowLimiter → String → ℕ → ℕ → SlidingWindowLimiter
record_event l key pruned_at now = append_event (prune l key pruned_at) key now

-- the end of `try_acquire`, on the limiter that was pruned
pub count_if_admitted :
    SlidingWindowLimiter → String → ℕ → Admission → SlidingWindowLimiter × Admission
count_if_admitted l key now admitted = (append_event l key now, admitted)
count_if_admitted l key now refusal = (l, refusal)

pub try_acquire : SlidingWindowLimiter → String → ℕ → ℕ → SlidingWindowLimiter × Admission
try_acquire l key pruned_at now =
    let l' = prune l key pruned_at in
    count_if_admitted l' key now (admission l' (events_of l' key) now)

unfoldable pub reset : SlidingWindowLimiter → String → SlidingWindowLimiter
reset l key = record l { events = Dict.remove key l.events }

-- the first loop of `sweep_idle`: each key is pruned, and is stale if nothing is left
pub stale_keys :
    SlidingWindowLimiter → (String → ℕ) → List String → SlidingWindowLimiter × List String
unfolding prune
stale_keys l now [] = (l, [])
stale_keys l now (key ∷ keys) =
    let l' = prune l key (now key) in
    let (l'', stale) = stale_keys l' now keys in
    elim (events_of l' key) [ [] ↦ (l'', key ∷ stale) | _ ∷ _ ↦ (l'', stale) ]

-- `self._events.pop(key, None)` for each of the keys
pub pop_all : SlidingWindowLimiter → List String → SlidingWindowLimiter
unfolding reset
pop_all l [] = l
pop_all l (key ∷ keys) = pop_all (reset l key) keys

-- `sweep_idle`; `now key` is the reading of the clock when `key` is pruned
pub sweep_idle : SlidingWindowLimiter → (String → ℕ) → SlidingWindowLimiter × ℕ
unfolding stale_keys pop_all
sweep_idle l now =
    let (l', stale) = stale_keys l now (Dict.keys l.events) in (pop_all l' stale, length stale)

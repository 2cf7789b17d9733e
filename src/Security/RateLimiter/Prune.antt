-- ===== src/Security/RateLimiter/Prune.antt =====
-- What pruning keeps, and what the methods do to the deque of each key.
use mathlib.Core.List.{reverse}
use caps_dash.Prelude.{
  inr, inl, ℕ, ◌+◌, ◌<◌, ◌≡◌, refl, ap, ◌∙◌, String, String_key, ◌==◌, Bool, true, false, not, List,
  [], ◌∷◌, ◌++◌, arith, ltb, leb, ◌&&◌, ltb→lt, if◌then◌else◌, length, All, All-append, Bool-cases,
  eq_iff, reverse-cons,
}
use caps_dash.Prelude.Dict
use caps_dash.Prelude.Dict.{get-put}
use caps_dash.Security.RateLimiter.{
  count_if_admitted, SlidingWindowLimiter, Admission, admitted, limited, index_error, events_of,
  drop_expired, prune, admission, append_event, try_acquire,
}

abbrev pub Expired : ℕ → ℕ → ℕ → Type 0
Expired window now e = e + window < now

pub All-reverse {ℓ κ} : {A : Type ℓ} (P : A → Type κ) (xs : List A) → All P xs → All P (reverse xs)
All-reverse P [] h = tt
All-reverse P (x ∷ xs) h =
    rw reverse-cons (All-append P (reverse xs) (x ∷ []) (All-reverse P xs h.1) (h.0, tt))

-- `_prune` drops events from the front, and only expired ones.
pub drop_split :
    (window now : ℕ) (events : List ℕ)
    → (dropped : List ℕ) × (events ≡ dropped ++ drop_expired window now events)
      × All (Expired window now) dropped
unfolding drop_expired
drop_split window now [] = ([], refl, tt)
drop_split window now (e ∷ events) = elim (Bool-cases (ltb (e + window) now)) [
  | inl old ↦
      let (dropped, split, expired) = drop_split window now events in
      (e ∷ dropped, rw old (ap (◌∷◌ e) split), (ltb→lt _ _ old, expired))
  | inr fresh ↦ ([], rw fresh, tt)
]

pub events_of-put :
    (l : SlidingWindowLimiter) (key j : String) (events : List ℕ)
    → events_of (record l { events = Dict.put key events l.events }) j
      ≡ (if key == j then events else events_of l j)
unfolding events_of
events_of-put l key j events = ground (arith, get-put key j events l.events)

-- the deque of `key` when `_prune` has run
abbrev pub live : SlidingWindowLimiter → String → ℕ → List ℕ
live l key now = drop_expired l.window now (events_of l key)

pub is_admitted : Admission → Bool
is_admitted admitted = true
is_admitted _ = false

pub is_admitted-admission :
    (l : SlidingWindowLimiter) (events : List ℕ) (now : ℕ)
    → is_admitted (admission l events now) ≡ not (leb l.max_attempts (length events))
unfolding is_admitted admission
is_admitted-admission l [] now = ground arith
is_admitted-admission l (e ∷ events) now = ground arith

module _ (l : SlidingWindowLimiter) (key : String) where
  pub events_of-append_event :
      (now : ℕ) (j : String)
      → events_of (append_event l key now) j
        ≡ (if key == j then events_of l key ++ now ∷ [] else events_of l j)
  unfolding append_event
  events_of-append_event now j = events_of-put l key j (events_of l key ++ now ∷ [])

  events_of-count_if_admitted :
      (now : ℕ) (a : Admission) (j : String)
      → events_of (count_if_admitted l key now a).0 j
        ≡ (if is_admitted a && (key == j) then events_of l key ++ now ∷ [] else events_of l j)
  unfolding count_if_admitted is_admitted
  events_of-count_if_admitted now admitted j = events_of-append_event now j
  events_of-count_if_admitted now (limited r) j = refl
  events_of-count_if_admitted now index_error j = refl

  verdict-count_if_admitted : (now : ℕ) (a : Admission) → (count_if_admitted l key now a).1 ≡ a
  unfolding count_if_admitted
  verdict-count_if_admitted now admitted = refl
  verdict-count_if_admitted now (limited r) = refl
  verdict-count_if_admitted now index_error = refl

module _ (l : SlidingWindowLimiter) (key : String) (pruned_at now : ℕ) where
  pub events_of-prune :
      (j : String)
      → events_of (prune l key pruned_at) j
        ≡ (if key == j then live l key pruned_at else events_of l j)
  unfolding prune
  events_of-prune j = events_of-put l key j (live l key pruned_at)

  pub events_of-prune_self : events_of (prune l key pruned_at) key ≡ live l key pruned_at
  events_of-prune_self = ground (arith, events_of-prune key, eq_iff key key)

  admission-prune :
      (events : List ℕ) → admission (prune l key pruned_at) events now ≡ admission l events now
  unfolding admission prune
  admission-prune events = refl

  pub verdict-try_acquire :
      (try_acquire l key pruned_at now).1 ≡ admission l (live l key pruned_at) now
  unfolding try_acquire
  verdict-try_acquire =
      verdict-count_if_admitted (prune l key pruned_at) key now _
      ∙ admission-prune _
      ∙ ap (λ events. admission l events now) events_of-prune_self

  pub events_of-try_acquire :
      (j : String)
      → events_of (try_acquire l key pruned_at now).0 j ≡ (
          if key == j
          then (if leb l.max_attempts (length (live l key pruned_at))
              then live l key pruned_at
              else live l key pruned_at ++ now ∷ [])
          else events_of l j)
  unfolding try_acquire
  events_of-try_acquire j =
      let l' = prune l key pruned_at in
      let verdict = admission l' (events_of l' key) now in
      let same : verdict ≡ admission l (live l key pruned_at) now =
        admission-prune _ ∙ ap (λ events. admission l events now) events_of-prune_self in
      let decided : is_admitted verdict ≡ not (leb l.max_attempts (length (live l key pruned_at))) =
        ap is_admitted same ∙ is_admitted-admission l (live l key pruned_at) now in
      events_of-count_if_admitted l' key now verdict j
      ∙ ground (arith, decided, events_of-prune j, events_of-prune_self)

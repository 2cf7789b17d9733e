-- ===== src/Security/RateLimiter/Budget.antt =====
-- try_acquire of security/rate_limiter.py over any sequence of calls: the events in a window.
use mathlib.Core.List.{reverse, append_assoc, reverse-append}
use caps_dash.Prelude.{
  ◌&&◌, ℕ, ◌+◌, ◌≤◌, ◌<◌, ◌≡◌, refl, sym, ap, ◌∙◌, String, String_key, ◌==◌, Bool, true, false,
  List, [], ◌∷◌, ◌++◌, arith, leb, if◌then◌else◌, length, count, All, All-append, All-mono,
  Bool-cases, eq_iff, count-append, count-le-length, length-reverse, not, inl, inr, leb_false→lt,
}
use mathlib.Core.Path.{subst₂}
use caps_dash.Security.RateLimiter.{
  append_event, prune, count_if_admitted, SlidingWindowLimiter, Admission, events_of, drop_expired,
  try_acquire,
}
use caps_dash.Security.RateLimiter.Prune.{
  Expired, All-reverse, drop_split, live, is_admitted, is_admitted-admission, verdict-try_acquire,
  events_of-try_acquire,
}

-- One call of `try_acquire`: its key and its two readings of the clock.
pub record Call : Type 0 where
  pub key : String
  pub pruned_at : ℕ
  pub now : ℕ

-- The readings are those of a monotonic clock.
abbrev pub Monotonic : ℕ → List Call → Type 0
Monotonic last [] = Unit
Monotonic last (c ∷ calls) = (last ≤ c.pruned_at) × (c.pruned_at ≤ c.now) × Monotonic c.now calls

-- the log of `key` after one call
abbrev note_call : String → SlidingWindowLimiter → Call → List ℕ → List ℕ
note_call key l c log =
    if is_admitted (try_acquire l c.key c.pruned_at c.now).1 && (c.key == key)
    then c.now ∷ log
    else log

-- The times at which calls with the key were admitted, newest first, on top of `log`.
pub admissions : String → SlidingWindowLimiter → List Call → List ℕ → List ℕ
admissions key l [] log = log
admissions key l (c ∷ calls) log =
    admissions key (try_acquire l c.key c.pruned_at c.now).0 calls (note_call key l c log)

-- how many of the events lie in the window that ends at `now`
abbrev pub in_window : ℕ → ℕ → List ℕ → ℕ
in_window window now = count (λ e. leb now (e + window))

-- At each of the events the window that ends there held at most `most` of them.
abbrev pub WithinBudget : ℕ → ℕ → List ℕ → Type 0
WithinBudget most window [] = Unit
WithinBudget most window (now ∷ log) =
    (in_window window now (now ∷ log) ≤ most) × WithinBudget most window log

-- The log is the deque and what was pruned from it.
record Logged (most window last : ℕ) (events log : List ℕ) : Type 0 where
  old : List ℕ
  split : log ≡ reverse events ++ old
  expired : All (Expired window last) old
  within : WithinBudget most window log

in_window-Expired :
    (window now : ℕ) (old : List ℕ) → All (Expired window now) old → in_window window now old ≡ 0
in_window-Expired window now [] h = refl
in_window-Expired window now (e ∷ old) h = ground (arith, h.0, in_window-Expired window now old h.1)

-- one more event, when pruning left room for it
room :
    (most window now : ℕ) (kept old : List ℕ)
    → length kept < most
    → All (Expired window now) old
    → in_window window now (now ∷ (reverse kept ++ old)) ≤ most
room most window now kept old h k = ground (
  arith,
  count-append (λ e. leb now (e + window)) (reverse kept) old,
  count-le-length (λ e. leb now (e + window)) (reverse kept),
  length-reverse kept,
  in_window-Expired window now old k,
)

Expired-mono :
    (window last now : ℕ) (old : List ℕ)
    → last ≤ now
    → All (Expired window last) old
    → All (Expired window now) old
Expired-mono window last now old h =
    All-mono (Expired window last) (Expired window now) old (λ e p. omega arith)

module _ (most window last now : ℕ) (le : last ≤ now) where
  Logged-later :
      (events log : List ℕ) → Logged most window last events log → Logged most window now events log
  Logged-later events log h = record {
    old = h.old;
    split = h.split;
    expired = Expired-mono window last now h.old le h.expired;
    within = h.within;
  }

  Logged-drop_expired :
      (events log : List ℕ)
      → Logged most window last events log
      → Logged most window now (drop_expired window now events) log
  Logged-drop_expired events log h =
      let (dropped, parts, gone) = drop_split window now events in
      let kept = drop_expired window now events in
      record {
        old = reverse dropped ++ h.old;
        split =
            h.split
            ∙ ap (λ l. reverse l ++ h.old) parts
            ∙ ap (λ l. l ++ h.old) (reverse-append dropped kept)
            ∙ append_assoc (reverse kept) (reverse dropped) h.old;
        expired =
            All-append (Expired window now) (reverse dropped) h.old
              (All-reverse (Expired window now) dropped gone)
              (Expired-mono window last now h.old le h.expired);
        within = h.within;
      }

  Logged-append :
      (events log : List ℕ)
      → length events < most
      → Logged most window last events log
      → Logged most window now (events ++ now ∷ []) (now ∷ log)
  Logged-append events log fits h = record {
    old = h.old;
    split = ap (◌∷◌ now) h.split ∙ ap (λ l. l ++ h.old) (sym (reverse-append events (now ∷ [])));
    expired = Expired-mono window last now h.old le h.expired;
    within = (
      rw h.split (
          room most window now events h.old fits (Expired-mono window last now h.old le h.expired)),
      h.within,
    );
  }

-- a call that is admitted, one that is refused, and one for another key; `kept` is the deque of
-- the call's key once it is pruned
Logged-step :
    (most window last pruned_at now : ℕ) (same : Bool) (kept events log : List ℕ)
    → last ≤ pruned_at
    → pruned_at ≤ now
    → (same ≡ true → kept ≡ drop_expired window pruned_at events)
    → Logged most window last events log
    → Logged most window now
        (if same then (if leb most (length kept) then kept else kept ++ now ∷ []) else events)
        (if not (leb most (length kept)) && same then now ∷ log else log)
Logged-step most window last t now false kept events log p q own h =
    elim (Bool-cases (leb most (length kept))) [
      | inl full ↦ rw full (Logged-later most window last now (omega arith) events log h)
      | inr free ↦ rw free (Logged-later most window last now (omega arith) events log h)
    ]
Logged-step most window last t now true kept events log p q own h =
    let pruned : Logged most window t kept log =
      rw (own refl) (Logged-drop_expired most window last t p events log h) in
    elim (Bool-cases (leb most (length kept))) [
      | inl full ↦ rw full (Logged-later most window t now q kept log pruned)
      | inr free ↦
          rw free (Logged-append most window t now q kept log (leb_false→lt _ _ free) pruned)
    ]

config-count_if_admitted :
    (l : SlidingWindowLimiter) (key : String) (now : ℕ) (a : Admission)
    → ((count_if_admitted l key now a).0.max_attempts ≡ l.max_attempts)
      × ((count_if_admitted l key now a).0.window ≡ l.window)
unfolding count_if_admitted append_event
config-count_if_admitted l key now Admission.admitted = (refl, refl)
config-count_if_admitted l key now (Admission.limited r) = (refl, refl)
config-count_if_admitted l key now Admission.index_error = (refl, refl)

config-try_acquire :
    (l : SlidingWindowLimiter) (key : String) (t now : ℕ)
    → ((try_acquire l key t now).0.max_attempts ≡ l.max_attempts)
      × ((try_acquire l key t now).0.window ≡ l.window)
unfolding try_acquire prune
config-try_acquire l key t now = config-count_if_admitted _ key now _

Logged-call :
    (key : String) (l : SlidingWindowLimiter) (last : ℕ) (log : List ℕ) (c : Call)
    → last ≤ c.pruned_at
    → c.pruned_at ≤ c.now
    → Logged l.max_attempts l.window last (events_of l key) log
    → Logged l.max_attempts l.window c.now
        (events_of (try_acquire l c.key c.pruned_at c.now).0 key)
        (if is_admitted (try_acquire l c.key c.pruned_at c.now).1 && (c.key == key)
          then c.now ∷ log
          else log)
Logged-call key l last log c p q h =
    let kept = live l c.key c.pruned_at in
    let own : (c.key == key) ≡ true → kept ≡ live l key c.pruned_at =
      λ same. ap (λ k. live l k c.pruned_at) ((eq_iff c.key key).0 same) in
    let verdict : is_admitted (try_acquire l c.key c.pruned_at c.now).1
        ≡ not (leb l.max_attempts (length kept)) =
      ap is_admitted (verdict-try_acquire l c.key c.pruned_at c.now)
      ∙ is_admitted-admission l kept c.now in
    rw (events_of-try_acquire l c.key c.pruned_at c.now key, verdict)
      (Logged-step l.max_attempts l.window last c.pruned_at c.now (c.key == key) kept
        (events_of l key) log p q own h)

admissions-Logged :
    (key : String) (calls : List Call) (l : SlidingWindowLimiter) (last : ℕ) (log : List ℕ)
    → Logged l.max_attempts l.window last (events_of l key) log
    → Monotonic last calls
    → WithinBudget l.max_attempts l.window (admissions key l calls log)
unfolding admissions
admissions-Logged key [] l last log h m = h.within
admissions-Logged key (c ∷ calls) l last log h (p, q, m) =
    let (km, kw) = config-try_acquire l c.key c.pruned_at c.now in
    let l' = (try_acquire l c.key c.pruned_at c.now).0 in
    subst₂ (λ most window. WithinBudget most window (admissions key l (c ∷ calls) log)) km kw
      (admissions-Logged key calls l' c.now (note_call key l c log)
        (subst₂ (λ most window. Logged most window c.now (events_of l' key) (note_call key l c log))
          (sym km) (sym kw) (Logged-call key l last log c p q h))
        m)

-- The clock is monotonic. Then, for any calls of `try_acquire` by any keys, in any order, no
-- window of time that ends at an admitted event holds more than `max_attempts` admitted events
-- of the key.
pub admissions-WithinBudget :
    (key : String) (calls : List Call) (l : SlidingWindowLimiter)
    → events_of l key ≡ []
    → Monotonic 0 calls
    → WithinBudget l.max_attempts l.window (admissions key l calls [])
admissions-WithinBudget key calls l e m =
    admissions-Logged key calls l 0 []
      (rw e (record { old = []; split = refl; expired = tt; within = tt })) m

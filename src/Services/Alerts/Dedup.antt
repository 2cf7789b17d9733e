-- ===== src/Services/Alerts/Dedup.antt =====
-- Creation and acknowledgement in services/alert_service.py.
use mathlib.Core.Path.{subst, subst₂}
use caps_dash.Prelude.{
  ℕ, ◌+◌, ◌<◌, ◌≡◌, refl, sym, ◌∙◌, Bool, true, false, ◌&&◌, Option, none, some, List, [], ◌∷◌,
  ◌++◌, String_key, arith, if◌then◌else◌, count, count-append, Bool-cases, inl, inr, eq_iff,
}
use caps_dash.Services.Alerts.{
  cooldown_elapsed, AlertSeverity, create_deduplicated, suppressed, get_latest_by_key, newer, Alert,
  AlertKey, same_key, is_open, acknowledged, acknowledge,
}

-- how many open alerts a key has
abbrev pub open_alerts : List Alert → AlertKey → ℕ
open_alerts alerts key = count (λ a. same_key a.key key && is_open a) alerts

abbrev latest_open : Option Alert → Bool
latest_open none = false
latest_open (some a) = is_open a

-- Only the newest alert of the key can be open.
abbrev pub OpenIsLatest : List Alert → AlertKey → Type 0
OpenIsLatest alerts key =
    open_alerts alerts key ≡ (if latest_open (get_latest_by_key alerts key) then 1 else 0)

-- the newest of some alerts and one that was added after them
abbrev combine : Option Alert → Alert → Option Alert
combine none x = some x
combine (some a) x = some (newer a (some x))

newer-combine :
    (a x : Alert) (o : Option Alert) → some (newer a (combine o x)) ≡ combine (some (newer a o)) x
unfolding newer
newer-combine a x none = refl
newer-combine a x (some b) = ground arith

latest-append :
    (alerts : List Alert) (x : Alert) (key : AlertKey)
    → get_latest_by_key (alerts ++ x ∷ []) key ≡ (
        if same_key x.key key
        then combine (get_latest_by_key alerts key) x
        else get_latest_by_key alerts key)
unfolding get_latest_by_key
latest-append [] x key = unfold newer in refl
latest-append (a ∷ alerts) x key =
    ground (arith, latest-append alerts x key, newer-combine a x (get_latest_by_key alerts key))

open-append :
    (alerts : List Alert) (x : Alert) (key : AlertKey)
    → open_alerts (alerts ++ x ∷ []) key
      ≡ open_alerts alerts key + (if same_key x.key key && is_open x then 1 else 0)
open-append alerts x key =
    ground (arith, count-append (λ a. same_key a.key key && is_open a) alerts (x ∷ []))

-- a new alert that the newest one does not stop is the newest
newest-combine :
    (o : Option Alert) (x : Alert) (cooldown : ℕ)
    → 0 < cooldown
    → suppressed o cooldown x.created_at ≡ false
    → (latest_open o ≡ false) × (combine o x ≡ some x)
unfolding suppressed cooldown_elapsed newer
newest-combine none x cooldown h k = (refl, refl)
newest-combine (some a) x cooldown h k = (ground arith, ground arith)

eq-same_key : (a b : AlertKey) → same_key a b ≡ true → a ≡ b
eq-same_key a b h =
    let types : a.alert_type ≡ b.alert_type = ground (arith, eq_iff a.alert_type b.alert_type) in
    let entities : a.entity_type ≡ b.entity_type =
      ground (arith, eq_iff a.entity_type b.entity_type) in
    let ids : a.entity_id ≡ b.entity_id = ground (arith, eq_iff a.entity_id b.entity_id) in
    λ i. record { alert_type = types i; entity_type = entities i; entity_id = ids i }

OpenIsLatest-append :
    (alerts : List Alert) (x : Alert) (key : AlertKey) (cooldown : ℕ)
    → 0 < cooldown
    → is_open x ≡ true
    → suppressed (get_latest_by_key alerts x.key) cooldown x.created_at ≡ false
    → OpenIsLatest alerts key
    → OpenIsLatest (alerts ++ x ∷ []) key
OpenIsLatest-append alerts x key cooldown positive fresh unstopped h =
    elim (Bool-cases (same_key x.key key)) [
      | inl same ↦
          let own : suppressed (get_latest_by_key alerts key) cooldown x.created_at ≡ false =
            subst (λ k. suppressed (get_latest_by_key alerts k) cooldown x.created_at ≡ false)
              (eq-same_key x.key key same) unstopped in
          let (closed, newest) =
            newest-combine (get_latest_by_key alerts key) x cooldown positive own in
          let latest : get_latest_by_key (alerts ++ x ∷ []) key ≡ some x =
            latest-append alerts x key ∙ rw same newest in
          rw (latest, open-append alerts x key, h, closed, same, fresh) refl
      | inr other ↦
          rw (latest-append alerts x key, open-append alerts x key, other) (ground (arith, h))
    ]

create-suppressed :
    (alerts : List Alert) (id : ℕ) (key : AlertKey) (severity : AlertSeverity) (cooldown now : ℕ)
    → suppressed (get_latest_by_key alerts key) cooldown now ≡ true
    → create_deduplicated alerts id key severity cooldown now ≡ (alerts, none)
unfolding create_deduplicated
create-suppressed alerts id key severity cooldown now h = ground arith

create-unstopped :
    (alerts : List Alert) (id : ℕ) (key : AlertKey) (severity : AlertSeverity) (cooldown now : ℕ)
    → suppressed (get_latest_by_key alerts key) cooldown now ≡ false
    → (x : Alert) × (create_deduplicated alerts id key severity cooldown now
        ≡ (alerts ++ x ∷ [], some x))
      × (x.key ≡ key)
      × (x.created_at ≡ now)
      × (is_open x ≡ true)
unfolding create_deduplicated
create-unstopped alerts id key severity cooldown now h = (
  record {
    id = id;
    key = key;
    severity = severity;
    created_at = now;
    acknowledged_at = none;
    acknowledged_by = none;
  },
  ground arith,
  refl,
  refl,
  refl,
)

-- The cooldown is positive. If of every key only the newest alert can be open, so that a key has at
-- most one open alert, that still holds after any attempt to raise an alert, whatever the clock
-- shows.
pub create_deduplicated-OpenIsLatest :
    (alerts : List Alert) (id : ℕ) (key other : AlertKey) (severity : AlertSeverity)
    (cooldown now : ℕ)
    → 0 < cooldown
    → OpenIsLatest alerts other
    → OpenIsLatest (create_deduplicated alerts id key severity cooldown now).0 other
create_deduplicated-OpenIsLatest alerts id key other severity cooldown now positive h =
    elim (Bool-cases (suppressed (get_latest_by_key alerts key) cooldown now)) [
      | inl stopped ↦
          subst (λ (r : List Alert × Option Alert). OpenIsLatest r.0 other)
            (sym (create-suppressed alerts id key severity cooldown now stopped)) h
      | inr unstopped ↦
          let (x, result, own, time, fresh) =
            create-unstopped alerts id key severity cooldown now unstopped in
          subst (λ (r : List Alert × Option Alert). OpenIsLatest r.0 other) (sym result)
            (OpenIsLatest-append alerts x other cooldown positive fresh
              (subst₂ (λ k t. suppressed (get_latest_by_key alerts k) cooldown t ≡ false) (sym own)
                (sym time) unstopped)
              h)
    ]

-- Acknowledging twice is acknowledging once: the second call changes nothing and returns the row
-- with the first acknowledgement, whoever calls it and whenever.
pub acknowledge-acknowledge :
    (alerts : List Alert) (alert_id actor other now later : ℕ)
    → acknowledge (acknowledge alerts alert_id actor now).0 alert_id other later
      ≡ acknowledge alerts alert_id actor now
unfolding acknowledge acknowledged
acknowledge-acknowledge [] alert_id actor other now later = refl
acknowledge-acknowledge (a ∷ alerts) alert_id actor other now later =
    ground (arith, acknowledge-acknowledge alerts alert_id actor other now later)

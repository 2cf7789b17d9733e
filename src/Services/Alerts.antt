-- ===== src/Services/Alerts.antt =====
-- services/alert_service.py and alert_rules.py: raising alerts without duplicates, and acknowledging
-- them. Rows are in the order they were added; the query for the newest of a key takes the greatest
-- `created_at`, and of equals the one added first. Instants and durations are numbers.
-- The texts of an alert and its details, which nothing reads back, are left out.
pub mod Dedup
mod Tests
use caps_dash.Prelude.{
  ℕ, ◌+◌, ◌/◌, ◌*◌, String, String_key, ◌==◌, Bool, true, false, not, ◌&&◌, ◌||◌, Option, none,
  some, List, [], ◌∷◌, ◌++◌, ltb, leb, nat_eq, if◌then◌else◌, Result, ok, err, length,
}

pub data AlertSeverity : Type 0 where
  warning critical : AlertSeverity

-- the `(type, entity)` key
pub record AlertKey : Type 0 where
  pub alert_type : String
  pub entity_type : String
  pub entity_id : String

pub record Alert : Type 0 where
  pub id : ℕ
  pub key : AlertKey
  pub severity : AlertSeverity
  pub created_at : ℕ
  pub acknowledged_at : Option ℕ
  pub acknowledged_by : Option ℕ

-- `disk_severity`, the fraction of free space compared as products: thresholds are `percent` of a
-- hundred and `min_free` bytes, each halved for CRITICAL; a disk of no bytes has no free fraction
unfoldable pub disk_severity : ℕ → ℕ → ℕ → ℕ → Option AlertSeverity
disk_severity free_bytes total_bytes percent min_free_mb =
    let min_free = min_free_mb * 1048576 in
    let fraction_below : ℕ → ℕ → Bool = λ numerator denominator.
      if leb total_bytes 0
      then ltb 0 numerator
      else ltb (free_bytes * denominator) (numerator * total_bytes) in
    if fraction_below percent 200 || ltb free_bytes (min_free / 2)
    then some critical
    else if fraction_below percent 100 || ltb free_bytes min_free
    then some warning
    else none

-- `cooldown_elapsed`
unfoldable pub cooldown_elapsed : Option ℕ → ℕ → ℕ → Bool
cooldown_elapsed none cooldown now = true
cooldown_elapsed (some last_created_at) cooldown now = leb (last_created_at + cooldown) now

abbrev pub same_key : AlertKey → AlertKey → Bool
same_key a b =
    (a.alert_type == b.alert_type)
    && (a.entity_type == b.entity_type)
    && (a.entity_id == b.entity_id)

-- the newer of an alert and what the rest of the table has
unfoldable pub newer : Alert → Option Alert → Alert
newer a none = a
newer a (some b) = if ltb a.created_at b.created_at then b else a

-- `alert_repository.get_latest_by_key`
unfoldable pub get_latest_by_key : List Alert → AlertKey → Option Alert
get_latest_by_key [] key = none
get_latest_by_key (a ∷ alerts) key =
    let rest = get_latest_by_key alerts key in
    if same_key a.key key then some (newer a rest) else rest

abbrev pub is_open : Alert → Bool
is_open a = elim a.acknowledged_at [ none ↦ true | some t ↦ false ]

-- whether the newest alert of the key stops a new one
unfoldable pub suppressed : Option Alert → ℕ → ℕ → Bool
suppressed none cooldown now = false
suppressed (some latest) cooldown now =
    is_open latest || not (cooldown_elapsed (some latest.created_at) cooldown now)

-- `create_deduplicated`: the table and the alert; `id` is the one that the database assigns
unfoldable pub create_deduplicated :
    List Alert → ℕ → AlertKey → AlertSeverity → ℕ → ℕ → List Alert × Option Alert
create_deduplicated alerts id key severity cooldown now =
    if suppressed (get_latest_by_key alerts key) cooldown now
    then (alerts, none)
    else let alert : Alert = record {
      id = id;
      key = key;
      severity = severity;
      created_at = now;
      acknowledged_at = none;
      acknowledged_by = none;
    } in
      (alerts ++ alert ∷ [], some alert)

pub data AlertFailure : Type 0 where
  no_alert : AlertFailure

-- the row that `acknowledge` leaves
unfoldable pub acknowledged : Alert → ℕ → ℕ → Alert
acknowledged a actor now =
    if is_open a then record a { acknowledged_at = some now; acknowledged_by = some actor } else a

-- `acknowledge`
unfoldable pub acknowledge : List Alert → ℕ → ℕ → ℕ → List Alert × Result AlertFailure Alert
acknowledge [] alert_id actor now = ([], err no_alert)
acknowledge (a ∷ alerts) alert_id actor now =
    let rest = acknowledge alerts alert_id actor now in
    if nat_eq a.id alert_id
    then (acknowledged a actor now ∷ alerts, ok (acknowledged a actor now))
    else (a ∷ rest.0, rest.1)

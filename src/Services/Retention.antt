-- ===== src/Services/Retention.antt =====
-- services/retention_service.py: the purge of old rows, and the sweep of refresh sessions. A table is
-- the list of its rows, each with the columns that the purge reads; instants are numbers.
pub mod Batches
pub mod Purged
pub mod Swept
pub mod Months
mod Tests
use caps_dash.Prelude.{
  ℕ, zero, suc, ◌+◌, ◌-◌, ◌*◌, ◌/◌, ◌%◌, min, ℕ_key, ◌==◌, Bool, true, false, not, ◌&&◌, ◌||◌,
  Option, none, some, List, [], ◌∷◌, map, ltb, leb, if◌then◌else◌, filter, count, any, take, length,
}
use mathlib.Core.Option
use caps_dash.Services.Auth
use caps_dash.Services.Auth.{RefreshSession}

-- a row of the history or of the plate readings: its key, and `changed_at` or `read_at`
pub record Row : Type 0 where
  pub id : ℕ
  pub at : ℕ

pub record Alert : Type 0 where
  pub id : ℕ
  pub created_at : ℕ
  pub acknowledged_at : Option ℕ

pub record Db : Type 0 where
  pub history : List Row
  pub alerts : List Alert
  pub plate_reads : List Row
  pub audits : ℕ

pub record PurgeResult : Type 0 where
  pub deleted_history_rows : ℕ
  pub deleted_alert_rows : ℕ
  pub deleted_plate_rows : ℕ

abbrev pub history_batch_size : ℕ
history_batch_size = 5000

-- the WHERE clauses
abbrev pub before : ℕ → Row → Bool
before cutoff r = ltb r.at cutoff

abbrev pub is_some {ℓ} : {A : Type ℓ} → Option A → Bool
is_some none = false
is_some (some a) = true

abbrev pub purgeable : ℕ → Alert → Bool
purgeable cutoff a = ltb a.created_at cutoff && is_some a.acknowledged_at

-- the keys of at most so many rows that are old enough
pub batch_ids : ℕ → ℕ → List Row → List ℕ
batch_ids size cutoff rows = map (λ r. r.id) (take size (filter (before cutoff) rows))

abbrev pub member : ℕ → List ℕ → Bool
member id = any (λ i. i == id)

-- `delete(…).where(id.in_(batch_ids))`
pub delete_ids : List ℕ → List Row → List Row
delete_ids ids rows = filter (λ r. not (member r.id ids)) rows

-- The loop of `_delete_history_before`: the rows that are left, and how many were deleted; `none`
-- when the fuel runs out.
pub delete_history_before : ℕ → ℕ → ℕ → List Row → ℕ → Option (List Row × ℕ)
delete_history_before zero size cutoff rows total = none
delete_history_before (suc fuel) size cutoff rows total =
    let ids = batch_ids size cutoff rows in
    let rest = delete_history_before fuel size cutoff (delete_ids ids rows) (total + length ids) in
    if length ids == 0 then some (rows, total) else rest

-- `_days_in_month`
abbrev pub is_leap : ℕ → Bool
is_leap year = (year % 4 == 0) && (not (year % 100 == 0) || (year % 400 == 0))

pub days_in_month : ℕ → ℕ → ℕ
days_in_month year month =
    if month == 2
    then (if is_leap year then 29 else 28)
    else if (month == 4) || (month == 6) || (month == 9) || (month == 11)
    then 30
    else 31

-- the date of a `datetime`; its time of day is kept
pub record Date : Type 0 where
  pub year : ℕ
  pub month : ℕ
  pub day : ℕ

-- `_months_before`; `replace` raises for a year below 1, which is `none`
pub months_before : Date → ℕ → Option Date
months_before moment months =
    let span = moment.year * 12 + (moment.month - 1) in
    let total_months = span - months in
    let year = total_months / 12 in
    let month = total_months % 12 + 1 in
    if ltb span months || (year == 0)
    then none
    else some
        (record { year = year; month = month; day = min moment.day (days_in_month year month) })

-- `older_than_months or settings.retention_months`
abbrev pub given_or : Option ℕ → ℕ → ℕ
given_or none default = default
given_or (some zero) default = default
given_or (some months) default = months

-- `purge` from its cutoff on: the counts of a dry run, or the deletions
pub counted : ℕ → Db → PurgeResult
counted cutoff db = record {
  deleted_history_rows = count (before cutoff) db.history;
  deleted_alert_rows = count (purgeable cutoff) db.alerts;
  deleted_plate_rows = count (before cutoff) db.plate_reads;
}

pub deleted : ℕ → Db → List Row × ℕ → Db × PurgeResult
deleted cutoff db (history, total) = (
  record db {
    history = history;
    alerts = filter (λ a. not (purgeable cutoff a)) db.alerts;
    plate_reads = filter (λ r. not (before cutoff r)) db.plate_reads;
  },
  record {
    deleted_history_rows = total;
    deleted_alert_rows = count (purgeable cutoff) db.alerts;
    deleted_plate_rows = count (before cutoff) db.plate_reads;
  },
)

abbrev pub audited : Db × PurgeResult → Db × PurgeResult
audited (db, result) = (record db { audits = db.audits + 1 }, result)

pub purge : ℕ → Bool → ℕ → Db → Option (Db × PurgeResult)
purge fuel dry_run cutoff db =
    if dry_run
    then some (audited (db, counted cutoff db))
    else Option.map (λ h. audited (deleted cutoff db h))
        (delete_history_before fuel history_batch_size cutoff db.history 0)

-- `purge_expired_refresh_sessions`: the rows that are left
pub purge_expired_refresh_sessions : ℕ → List RefreshSession → List RefreshSession
purge_expired_refresh_sessions moment sessions =
    filter (λ s. not (leb s.expires_at moment || is_some s.revoked_at || is_some s.rotated_at))
      sessions

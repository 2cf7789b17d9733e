-- ===== src/Services/Retention/Purged.antt =====
-- A whole purge of services/retention_service.py.
use mathlib.Core.Option
use caps_dash.Prelude.{
  ◌∙◌, ℕ, ◌<◌, ◌+◌, ◌≡◌, refl, ap, true, false, not, some, filter, count, arith,
}
use caps_dash.Services.Retention.{
  Db, purge, counted, deleted, before, purgeable, history_batch_size, audited,
}
use caps_dash.Services.Retention.Batches.{Distinct, delete_history_before_lem}

-- what a purge is to leave: no old history, no old plate readings, no old alert that was acknowledged
abbrev pub retained : ℕ → Db → Db
retained cutoff db = record {
  history = filter (λ r. not (before cutoff r)) db.history;
  alerts = filter (λ a. not (purgeable cutoff a)) db.alerts;
  plate_reads = filter (λ r. not (before cutoff r)) db.plate_reads;
  audits = db.audits + 1;
}

-- A purge returns, given a round for each old row of the history and one more, and leaves exactly what
-- is to be retained; a dry run only writes its audit row, and the counts it reports are those that
-- the purge then deletes.
pub purge_lem :
    (fuel cutoff : ℕ) (db : Db)
    → count (before cutoff) db.history < fuel
    → Distinct db.history
    → (purge fuel false cutoff db ≡ some (retained cutoff db, counted cutoff db))
      × (purge fuel true cutoff db ≡ some (record db { audits = db.audits + 1 }, counted cutoff db))
unfolding purge counted deleted
purge_lem fuel cutoff db enough d = (
  ap (Option.map (λ h. audited (deleted cutoff db h))) (
        delete_history_before_lem fuel history_batch_size cutoff db.history 0 (omega arith) enough
          d)
      ∙ ground arith,
  refl,
)

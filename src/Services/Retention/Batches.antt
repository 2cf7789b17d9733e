-- ===== src/Services/Retention/Batches.antt =====
-- One batch of the purge of services/retention_service.py, and the loop over the batches.

use caps_dash.Prelude.{
  sym, ◌==◌, ◌+◌, some, ◌<◌, ℕ, zero, suc, ◌-◌, min, ◌≡◌, refl, ap, ◌∙◌, ℕ_key, true, false, not,
  List, [], ◌∷◌, map, if◌then◌else◌, filter, count, length, arith, Bool-cases, inl, inr, nat_eq_iff,
}
use caps_dash.Services.Retention.{delete_history_before, Row, before, batch_ids, member, delete_ids}

-- the primary key
abbrev pub Distinct : List Row → Type 0
Distinct [] = Unit
Distinct (r ∷ rows) = (member r.id (map (λ s. s.id) rows) ≡ false) × Distinct rows

-- What deleting a batch comes to: the first so many old rows are gone.
abbrev pub drop_first : ℕ → ℕ → List Row → List Row
drop_first zero cutoff rows = rows
drop_first (suc n) cutoff [] = []
drop_first (suc n) cutoff (r ∷ rows) =
    if before cutoff r then drop_first n cutoff rows else r ∷ drop_first (suc n) cutoff rows

member-batch_ids :
    (id size cutoff : ℕ) (rows : List Row)
    → member id (map (λ r. r.id) rows) ≡ false
    → member id (batch_ids size cutoff rows) ≡ false
unfolding batch_ids
member-batch_ids id zero cutoff rows h = refl
member-batch_ids id (suc n) cutoff [] h = refl
member-batch_ids id (suc n) cutoff (r ∷ rows) h = elim (Bool-cases (before cutoff r)) [
  | inl old ↦ rw old (ground (arith, member-batch_ids id n cutoff rows))
  | inr young ↦ rw young (member-batch_ids id (suc n) cutoff rows (ground arith))
]

-- a key that no row has does not matter
delete_ids-absent :
    (id : ℕ) (ids : List ℕ) (rows : List Row)
    → member id (map (λ r. r.id) rows) ≡ false
    → delete_ids (id ∷ ids) rows ≡ delete_ids ids rows
unfolding delete_ids
delete_ids-absent id ids [] h = refl
delete_ids-absent id ids (r ∷ rows) h =
    ground (arith, delete_ids-absent id ids rows, nat_eq_iff id r.id, nat_eq_iff r.id id)

delete_ids-nil : (rows : List Row) → delete_ids [] rows ≡ rows
unfolding delete_ids
delete_ids-nil [] = refl
delete_ids-nil (r ∷ rows) = ap (◌∷◌ r) (delete_ids-nil rows)

batch-old :
    (n cutoff : ℕ) (r : Row) (rows : List Row)
    → before cutoff r ≡ true
    → batch_ids (suc n) cutoff (r ∷ rows) ≡ r.id ∷ batch_ids n cutoff rows
unfolding batch_ids
batch-old n cutoff r rows old = rw old refl

batch-young :
    (n cutoff : ℕ) (r : Row) (rows : List Row)
    → before cutoff r ≡ false
    → batch_ids (suc n) cutoff (r ∷ rows) ≡ batch_ids (suc n) cutoff rows
unfolding batch_ids
batch-young n cutoff r rows young = rw young refl

delete-hit :
    (ids : List ℕ) (r : Row) (rows : List Row)
    → delete_ids (r.id ∷ ids) (r ∷ rows) ≡ delete_ids (r.id ∷ ids) rows
unfolding delete_ids
delete-hit ids r rows = ground (arith, nat_eq_iff r.id r.id)

delete-miss :
    (ids : List ℕ) (r : Row) (rows : List Row)
    → member r.id ids ≡ false
    → delete_ids ids (r ∷ rows) ≡ r ∷ delete_ids ids rows
unfolding delete_ids
delete-miss ids r rows h = rw h refl

delete_ids-batch_ids :
    (size cutoff : ℕ) (rows : List Row)
    → Distinct rows
    → delete_ids (batch_ids size cutoff rows) rows ≡ drop_first size cutoff rows
delete_ids-batch_ids zero cutoff rows d = unfold batch_ids in delete_ids-nil rows
delete_ids-batch_ids (suc n) cutoff [] d = unfold batch_ids in delete_ids-nil []
delete_ids-batch_ids (suc n) cutoff (r ∷ rows) (fresh, d) = elim (Bool-cases (before cutoff r)) [
  | inl old ↦ rw old (
      rw (batch-old n cutoff r rows old) (
        delete-hit (batch_ids n cutoff rows) r rows
        ∙ delete_ids-absent r.id (batch_ids n cutoff rows) rows fresh
        ∙ delete_ids-batch_ids n cutoff rows d))
  | inr young ↦ rw young (
      rw (batch-young n cutoff r rows young) (
        delete-miss (batch_ids (suc n) cutoff rows) r rows
          (member-batch_ids r.id (suc n) cutoff rows fresh)
        ∙ ap (◌∷◌ r) (delete_ids-batch_ids (suc n) cutoff rows d)))
]

length-batch_ids :
    (size cutoff : ℕ) (rows : List Row)
    → length (batch_ids size cutoff rows) ≡ min size (count (before cutoff) rows)
length-batch_ids zero cutoff rows = unfold batch_ids in omega arith
length-batch_ids (suc n) cutoff [] = unfold batch_ids in omega arith
length-batch_ids (suc n) cutoff (r ∷ rows) = elim (Bool-cases (before cutoff r)) [
  | inl old ↦ rw (batch-old n cutoff r rows old) (ground (arith, length-batch_ids n cutoff rows))
  | inr young ↦
      rw (batch-young n cutoff r rows young) (ground (arith, length-batch_ids (suc n) cutoff rows))
]

count-drop_first :
    (size cutoff : ℕ) (rows : List Row)
    → count (before cutoff) (drop_first size cutoff rows) ≡ count (before cutoff) rows - size
count-drop_first zero cutoff rows = omega arith
count-drop_first (suc n) cutoff [] = omega arith
count-drop_first (suc n) cutoff (r ∷ rows) =
    ground (arith, count-drop_first n cutoff rows, count-drop_first (suc n) cutoff rows)

filter-drop_first :
    (size cutoff : ℕ) (rows : List Row)
    → filter (λ r. not (before cutoff r)) (drop_first size cutoff rows)
      ≡ filter (λ r. not (before cutoff r)) rows
filter-drop_first zero cutoff rows = refl
filter-drop_first (suc n) cutoff [] = refl
filter-drop_first (suc n) cutoff (r ∷ rows) =
    ground (arith, filter-drop_first n cutoff rows, filter-drop_first (suc n) cutoff rows)

member-drop_first :
    (id size cutoff : ℕ) (rows : List Row)
    → member id (map (λ r. r.id) rows) ≡ false
    → member id (map (λ r. r.id) (drop_first size cutoff rows)) ≡ false
member-drop_first id zero cutoff rows h = h
member-drop_first id (suc n) cutoff [] h = refl
member-drop_first id (suc n) cutoff (r ∷ rows) h =
    ground (arith, member-drop_first id n cutoff rows, member-drop_first id (suc n) cutoff rows)

Distinct-drop_first :
    (size cutoff : ℕ) (rows : List Row) → Distinct rows → Distinct (drop_first size cutoff rows)
Distinct-drop_first zero cutoff rows d = d
Distinct-drop_first (suc n) cutoff [] d = tt
Distinct-drop_first (suc n) cutoff (r ∷ rows) (fresh, d) = elim (Bool-cases (before cutoff r)) [
  | inl old ↦ rw old (Distinct-drop_first n cutoff rows d)
  | inr young ↦
      rw young (
        member-drop_first r.id (suc n) cutoff rows fresh,
        Distinct-drop_first (suc n) cutoff rows d,
      )
]

filter-none_old :
    (cutoff : ℕ) (rows : List Row)
    → count (before cutoff) rows ≡ 0
    → filter (λ r. not (before cutoff r)) rows ≡ rows
filter-none_old cutoff [] h = refl
filter-none_old cutoff (r ∷ rows) h = ground (arith, filter-none_old cutoff rows)

-- The loop ends after at most one round for each old row and one more, whatever the batch size: the
-- rows that are left are those not older than the cutoff, in their order, and the total is the number
-- of the old ones.
pub delete_history_before_lem :
    (fuel size cutoff : ℕ) (rows : List Row) (total : ℕ)
    → 0 < size
    → count (before cutoff) rows < fuel
    → Distinct rows
    → delete_history_before fuel size cutoff rows total
      ≡ some (filter (λ r. not (before cutoff r)) rows, total + count (before cutoff) rows)
unfolding delete_history_before
delete_history_before_lem zero size cutoff rows total pos enough d = absurd (omega arith)
delete_history_before_lem (suc fuel) size cutoff rows total pos enough d =
    let ids = batch_ids size cutoff rows in
    let old = count (before cutoff) rows in
    let taken = length-batch_ids size cutoff rows in
    elim (Bool-cases (length ids == 0)) [
      | inl empty ↦
          let nothing : old ≡ 0 = ground arith in
          rw empty (
            ap some (λ i. (
              (sym (filter-none_old cutoff rows nothing)) i,
              (let same : total ≡ total + old = omega arith in same) i,
            )))
      | inr more ↦
          let rows' = drop_first size cutoff rows in
          let left = count-drop_first size cutoff rows in
          let some_taken : 0 < length ids = ground arith in
          rw more (
            rw (delete_ids-batch_ids size cutoff rows d) (
              delete_history_before_lem fuel size cutoff rows' (total + length ids) pos
                (omega arith) (Distinct-drop_first size cutoff rows d)
              ∙ ap some (λ i. (
                filter-drop_first size cutoff rows i,
                (let same : total + length ids + count (before cutoff) rows' ≡ total + old =
                        omega arith in
                      same)
                    i,
              ))))
    ]

-- ===== src/Services/SlotMaps/Kept.antt =====
-- The identities of slots under `replace` of services/slot_map_service.py.
use caps_dash.Prelude.{
  ℕ, ◌≡◌, refl, ap, ◌∙◌, ◌⊎◌, String, String_key, true, false, not, ◌&&◌, Option, none, some, List,
  [], ◌∷◌, ◌++◌, any, filter, arith, if◌then◌else◌, ok, inl, inr, Bool-cases, Option-cases, eq_iff,
}
use caps_dash.Services.SlotMaps.{
  ParkingSlot, SlotMapEntry, SlotMapRequest, Table, names, find, written, overwrite, upsert,
  upsert_all, delete_missing, applied, replace,
}

-- the identifier under a code
abbrev pub id_of : Option ParkingSlot → Option ℕ
id_of none = none
id_of (some r) = some r.id

id-overwrite :
    (payload : SlotMapRequest) (entry : SlotMapEntry) (code : String) (rows : List ParkingSlot)
    → id_of (find code (overwrite payload entry rows)) ≡ id_of (find code rows)
unfolding find overwrite written
id-overwrite payload entry code [] = refl
id-overwrite payload entry code (r ∷ rows) = ground (
  arith,
  id-overwrite payload entry code rows,
  eq_iff r.code entry.code,
  eq_iff entry.code code,
  eq_iff r.code code,
)

find-append :
    (code : String) (rows added : List ParkingSlot) (r : ParkingSlot)
    → find code rows ≡ some r
    → find code (rows ++ added) ≡ some r
unfolding find
find-append code [] added r h = absurd (ground arith)
find-append code (s ∷ rows) added r h = ground (arith, find-append code rows added r)

id-upsert :
    (payload : SlotMapRequest) (entry : SlotMapEntry) (t : Table) (code : String) (id : ℕ)
    → id_of (find code t.rows) ≡ some id
    → id_of (find code (upsert payload entry t).rows) ≡ some id
unfolding upsert
id-upsert payload entry t code id h = elim (Option-cases (find code t.rows)) [
  | inl missing ↦ absurd (ground arith)
  | inr (r, found) ↦ ground (
    arith,
    id-overwrite payload entry code t.rows,
    find-append code t.rows (written payload entry t.next_id ∷ []) r found,
  )
]

id-upsert_all :
    (payload : SlotMapRequest) (entries : List SlotMapEntry) (t : Table) (code : String) (id : ℕ)
    → id_of (find code t.rows) ≡ some id
    → id_of (find code (upsert_all payload entries t).rows) ≡ some id
unfolding upsert_all
id-upsert_all payload [] t code id h = h
id-upsert_all payload (e ∷ entries) t code id h =
    id-upsert_all payload entries (upsert payload e t) code id (id-upsert payload e t code id h)

find-filter :
    (entries : List SlotMapEntry) (code : String) (rows : List ParkingSlot)
    → find code (filter (λ r. names entries r.code) rows)
      ≡ (if names entries code then find code rows else none)
unfolding find
find-filter entries code [] = ground arith
find-filter entries code (r ∷ rows) =
    ground (arith, find-filter entries code rows, eq_iff r.code code)

-- a row whose code the request leaves out is a row that would be deleted
missing-any :
    (entries : List SlotMapEntry) (code : String) (rows : List ParkingSlot) (id : ℕ)
    → id_of (find code rows) ≡ some id
    → names entries code ≡ false
    → any (λ r. not (names entries r.code)) rows ≡ true
unfolding find
missing-any entries code [] id h k = absurd (ground arith)
missing-any entries code (r ∷ rows) id h k =
    ground (arith, missing-any entries code rows id, eq_iff r.code code)

replace-ok :
    (t : Table) (payload : SlotMapRequest) (rows : List ParkingSlot)
    → (replace t payload).1 ≡ ok rows
    → ((replace t payload).0 ≡ applied payload t)
      × ((any (λ r. not (names payload.slots r.code)) t.rows && not payload.allow_delete) ≡ false)
unfolding replace
replace-ok t payload rows h = (ground arith, ground arith)

-- A replacement succeeds. Then a slot that existed keeps its identifier under its code if the request
-- names the code; it is gone if it does not, and that happens only to a request that allows deletion.
pub replace-id :
    (t : Table) (payload : SlotMapRequest) (rows : List ParkingSlot) (code : String) (id : ℕ)
    → (replace t payload).1 ≡ ok rows
    → id_of (find code t.rows) ≡ some id
    → ((names payload.slots code ≡ true) × (id_of (find code (replace t payload).0.rows) ≡ some id))
      ⊎ ((names payload.slots code ≡ false)
          × (payload.allow_delete ≡ true)
          × (id_of (find code (replace t payload).0.rows) ≡ none))
replace-id t payload rows code id h there =
    let (result, guarded) = replace-ok t payload rows h in
    let after : find code (replace t payload).0.rows ≡ (
        if names payload.slots code
        then find code (upsert_all payload payload.slots t).rows
        else none) =
      ap (λ (u : Table). find code u.rows) result
      ∙ unfold applied delete_missing in
        find-filter payload.slots code (upsert_all payload payload.slots t).rows in
    elim (Bool-cases (names payload.slots code)) [
      | inl named ↦
          inl (
            named,
            ground (arith, after, named, id-upsert_all payload payload.slots t code id there),
          )
      | inr left_out ↦ inr (
        left_out,
        ground (arith, guarded, missing-any payload.slots code t.rows id there left_out),
        ground (arith, after, left_out),
      )
    ]

-- ===== src/Workers/StateTracker/Reports.antt =====
-- What workers/state_tracker.py reports of a frame, and what it remembers.
use mathlib.Core.List.{Memᴰ}
use caps_dash.Prelude.Dict
use caps_dash.Prelude.{
  Mem-append_left, Mem-append_right, All-mono, ◌⊎◌, none, refl, inr, eq_iff, ◌==◌, inl, arith,
  Bool-cases, [], true, false, some, All, ◌≡◌, ◌∷◌, String, Option, String_key, ◌≢◌, All-append,
}
use caps_dash.Prelude.Dict.{Dict}
use caps_dash.Workers.StateTracker.{diff, or_unknown, same_as, StateTracker, SlotState, SlotChange}
use caps_dash.Vision.States.{occupied, free, unknown, SlotState}
use caps_dash.Workers.StateTracker.Changes.{
  get-diff, get-own, diff-changes_of, change_of, changes_of, Distinct, updated,
}

-- A row that is due: the slot is reported in a state that is not UNKNOWN and that the tracker does not
-- remember, and the row goes from what it remembers (UNKNOWN if nothing) to that state.
abbrev pub Due : Dict String SlotState → StateTracker → SlotChange → Type 0
Due states known c =
    (Dict.get c.slot_code states ≡ some c.new)
    × (c.new ≢ unknown)
    × (Dict.get c.slot_code known ≢ some c.new)
    × (c.previous ≡ or_unknown (Dict.get c.slot_code known))

differs : (old : Option SlotState) (new : SlotState) → same_as old new ≡ false → old ≢ some new
differs none new h same = absurd (ground arith)
differs (some unknown) unknown h same = absurd (ground arith)
differs (some free) free h same = absurd (ground arith)
differs (some occupied) occupied h same = absurd (ground arith)
differs (some unknown) free h same = absurd (ground arith)
differs (some unknown) occupied h same = absurd (ground arith)
differs (some free) unknown h same = absurd (ground arith)
differs (some free) occupied h same = absurd (ground arith)
differs (some occupied) unknown h same = absurd (ground arith)
differs (some occupied) free h same = absurd (ground arith)

change_of-Due :
    (states : Dict String SlotState) (known : StateTracker) (code : String) (new : SlotState)
    → Dict.get code states ≡ some new
    → All (Due states known) (change_of (Dict.get code known) code new)
change_of-Due states known code unknown own = tt
change_of-Due states known code free own = elim (Bool-cases (same_as (Dict.get code known) free)) [
  | inl same ↦ rw same tt
  | inr other ↦
      rw other
        ((own, (λ e. absurd (ground arith)), differs (Dict.get code known) free other, refl), tt)
]
change_of-Due states known code occupied own =
    elim (Bool-cases (same_as (Dict.get code known) occupied)) [
      | inl same ↦ rw same tt
      | inr other ↦ rw other (
        (own, (λ e. absurd (ground arith)), differs (Dict.get code known) occupied other, refl),
        tt,
      )
    ]

changes_of-Due :
    (states rest : Dict String SlotState) (known : StateTracker)
    → All (λ e. Dict.get e.0 states ≡ some e.1) rest
    → All (Due states known) (changes_of known rest)
changes_of-Due states [] known own = tt
changes_of-Due states ((code, new) ∷ rest) known (here, own) =
    All-append (Due states known) (change_of (Dict.get code known) code new) (changes_of known rest)
      (change_of-Due states known code new here) (changes_of-Due states rest known own)

same_as-some : (old : Option SlotState) (new : SlotState) → same_as old new ≡ true → old ≡ some new
same_as-some none new h = absurd (ground arith)
same_as-some (some unknown) unknown h = refl
same_as-some (some free) free h = refl
same_as-some (some occupied) occupied h = refl
same_as-some (some unknown) free h = absurd (ground arith)
same_as-some (some unknown) occupied h = absurd (ground arith)
same_as-some (some free) unknown h = absurd (ground arith)
same_as-some (some free) occupied h = absurd (ground arith)
same_as-some (some occupied) unknown h = absurd (ground arith)
same_as-some (some occupied) free h = absurd (ground arith)

change_of-Mem :
    (old : Option SlotState) (code : String) (new : SlotState)
    → new ≢ unknown
    → old ≢ some new
    → Memᴰ
        (record { slot_code = code; previous = or_unknown old; new = new })
        (change_of old code new)
change_of-Mem old code unknown known fresh = absurd (known refl)
change_of-Mem old code free known fresh = elim (Bool-cases (same_as old free)) [
  | inl same ↦ absurd (fresh (same_as-some old free same))
  | inr other ↦ rw other (Memᴰ.head refl)
]
change_of-Mem old code occupied known fresh = elim (Bool-cases (same_as old occupied)) [
  | inl same ↦ absurd (fresh (same_as-some old occupied same))
  | inr other ↦ rw other (Memᴰ.head refl)
]

changes_of-Mem :
    (states : Dict String SlotState) (known : StateTracker) (code : String) (new : SlotState)
    → Dict.get code states ≡ some new
    → new ≢ unknown
    → Dict.get code known ≢ some new
    → Memᴰ
        (record { slot_code = code; previous = or_unknown (Dict.get code known); new = new })
        (changes_of known states)
unfolding Dict.get
changes_of-Mem [] known code new found seen fresh = absurd (ground arith)
changes_of-Mem ((j, state) ∷ rest) known code new found seen fresh = elim (Bool-cases (j == code)) [
  | inl same ↦
      let name : j ≡ code = (eq_iff j code).0 same in
      let now : state ≡ new = ground (arith, same) in
      Mem-append_left _ (change_of (Dict.get j known) j state) (changes_of known rest)
        (rw (name, now) (change_of-Mem (Dict.get code known) code new seen fresh))
  | inr other ↦
      Mem-append_right _ (change_of (Dict.get j known) j state) (changes_of known rest)
        (changes_of-Mem rest known code new (ground (arith, other)) seen fresh)
]

-- the row of a report, given what was remembered
abbrev pub row_of : StateTracker → String × SlotState → SlotChange
row_of known e = record { slot_code = e.0; previous = or_unknown (Dict.get e.0 known); new = e.1 }

reported :
    (states : Dict String SlotState) (known : StateTracker) (e : String × SlotState)
    → Dict.get e.0 states ≡ some e.1
    → (e.1 ≡ unknown)
      ⊎ (Dict.get e.0 known ≡ some e.1)
      ⊎ Memᴰ (row_of known e) (changes_of known states)
reported states known (code, unknown) own = inl refl
reported states known (code, free) own = elim (Bool-cases (same_as (Dict.get code known) free)) [
  | inl same ↦ inr (inl (same_as-some (Dict.get code known) free same))
  | inr other ↦ inr (
      inr (
        changes_of-Mem states known code free own (λ e. absurd (ground arith))
          (differs (Dict.get code known) free other)))
]
reported states known (code, occupied) own =
    elim (Bool-cases (same_as (Dict.get code known) occupied)) [
      | inl same ↦ inr (inl (same_as-some (Dict.get code known) occupied same))
      | inr other ↦ inr (
          inr (
            changes_of-Mem states known code occupied own (λ e. absurd (ground arith))
              (differs (Dict.get code known) occupied other)))
    ]

-- A frame reports each slot at most once. The rows that it writes are all due; each of its reports is
-- UNKNOWN, or what the tracker remembers, or has its row; and afterwards the tracker remembers of
-- each slot what the frame reported, unless it reported nothing or UNKNOWN, when it remembers
-- what it did.
pub diff-Due :
    (states : Dict String SlotState) (known : StateTracker)
    → Distinct states
    → All (Due states known) (diff states known).1
      × All
          (λ e.
            (e.1 ≡ unknown)
            ⊎ (Dict.get e.0 known ≡ some e.1)
            ⊎ Memᴰ (row_of known e) (diff states known).1)
          states
      × ((code : String)
          → Dict.get code (diff states known).0
            ≡ updated (Dict.get code known) (Dict.get code states))
diff-Due states known d = rw (diff-changes_of states known d) (
  changes_of-Due states states known (get-own states d),
  All-mono _ _ states (λ e own. reported states known e own) (get-own states d),
  λ code. get-diff states known code d,
)

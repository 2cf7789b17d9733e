-- ===== src/Services/Timeline/Conserved.antt =====
-- The seconds that services/hourly_timeline.py and the roll-up account for.
use caps_dash.Prelude.{
  ℕ, ◌+◌, ◌-◌, ◌≤◌, ◌≡◌, refl, ◌∙◌, String, String_key, ℕ_key, Option, none, some, List, [], ◌∷◌,
  arith, Option-cases, inl, inr,
}
use caps_dash.Prelude.Dict
use caps_dash.Prelude.Dict.{
  Dict, AllValues, AllValues-put, AllValues-get, sum_values, or_zero, sum_values-put,
}
use caps_dash.Vision.States.{SlotState, unknown, free, occupied}
use caps_dash.Services.Timeline.{
  bucket_of, SlotHourAccumulator, SlotSweep, Event, Sweep, no_seconds, add, start_slots, start,
  sweep_slot, sweep_known, sweep_event, sweep_events, tails, compute_hour_timeline, merge, rollup,
  rollup_into,
}

-- the seconds that an accumulator accounts for
abbrev pub total_seconds : SlotHourAccumulator → ℕ
total_seconds acc = acc.occupied_seconds + acc.free_seconds + acc.unknown_seconds

-- The events are ordered by time, between `since` and `until`.
abbrev pub InHour : ℕ → ℕ → List Event → Type 0
InHour since until [] = since ≤ until
InHour since until (e ∷ events) = (since ≤ e.changed_at) × InHour e.changed_at until events

total_seconds-add :
    (acc : SlotHourAccumulator) (state : SlotState) (seconds : ℕ)
    → total_seconds (add acc state seconds) ≡ total_seconds acc + seconds
unfolding add
total_seconds-add acc unknown seconds = omega arith
total_seconds-add acc free seconds = omega arith
total_seconds-add acc occupied seconds = omega arith

-- the slot accounts for the time from the start of the hour to its last event
record Accounted (hour_start now : ℕ) (slot : SlotSweep) : Type 0 where
  exact : hour_start + total_seconds slot.acc ≡ slot.last_update
  seen : slot.last_update ≤ now

module _ (hour_start : ℕ) where
  Accounted-sweep_slot :
      (now : ℕ) (e : Event) (slot : SlotSweep)
      → now ≤ e.changed_at
      → Accounted hour_start now slot
      → Accounted hour_start e.changed_at (sweep_slot e slot)
  unfolding sweep_slot
  Accounted-sweep_slot now e slot h a = record {
    exact = omega (
      arith,
      a.exact,
      a.seen,
      total_seconds-add slot.acc slot.state (e.changed_at - slot.last_update),
    );
    seen = omega arith;
  }

  Accounted-later :
      (now later : ℕ) (slots : Dict ℕ SlotSweep)
      → now ≤ later
      → AllValues (Accounted hour_start now) slots
      → AllValues (Accounted hour_start later) slots
  Accounted-later now later [] h a = tt
  Accounted-later now later ((k, slot) ∷ slots) h (p, a) = (
    record { exact = p.exact; seen = omega (arith, p.seen) },
    Accounted-later now later slots h a,
  )

  slots-sweep_known :
      (e : Event) (slot : SlotSweep) (s : Sweep)
      → (sweep_known e slot s).slots ≡ Dict.put e.slot_id (sweep_slot e slot) s.slots
  unfolding sweep_known
  slots-sweep_known e slot s = ground arith

  pub slots-sweep_absent :
      (e : Event) (s : Sweep)
      → Dict.get e.slot_id s.slots ≡ none
      → (sweep_event e s).slots ≡ s.slots
  unfolding sweep_event
  slots-sweep_absent e s absent = rw (absent, sweep_event)

  pub slots-sweep_present :
      (e : Event) (s : Sweep) {slot : SlotSweep}
      → Dict.get e.slot_id s.slots ≡ some slot
      → (sweep_event e s).slots ≡ Dict.put e.slot_id (sweep_slot e slot) s.slots
  unfolding sweep_event
  slots-sweep_present e s {slot} found = rw (found, sweep_event) (slots-sweep_known e slot s)

  Accounted-sweep_event :
      (now : ℕ) (e : Event) (s : Sweep)
      → now ≤ e.changed_at
      → AllValues (Accounted hour_start now) s.slots
      → AllValues (Accounted hour_start e.changed_at) (sweep_event e s).slots
  Accounted-sweep_event now e s h a = elim (Option-cases (Dict.get e.slot_id s.slots)) [
    | inl absent ↦ rw (slots-sweep_absent e s absent) (Accounted-later now e.changed_at s.slots h a)
    | inr (slot, found) ↦ rw (slots-sweep_present e s found) (
        AllValues-put (Accounted hour_start e.changed_at) e.slot_id (sweep_slot e slot) s.slots
          (Accounted-sweep_slot now e slot h
            (AllValues-get (Accounted hour_start now) e.slot_id s.slots a found))
          (Accounted-later now e.changed_at s.slots h a))
  ]

  Accounted-sweep_events :
      (now until : ℕ) (events : List Event) (s : Sweep)
      → InHour now until events
      → AllValues (Accounted hour_start now) s.slots
      → AllValues (Accounted hour_start until) (sweep_events events s).slots
  unfolding sweep_events
  Accounted-sweep_events now until [] s h a = Accounted-later now until s.slots h a
  Accounted-sweep_events now until (e ∷ events) s (p, h) a =
      Accounted-sweep_events e.changed_at until events (sweep_event e s) h
        (Accounted-sweep_event now e s p a)

  Accounted-start_slots :
      (seeds : Dict ℕ SlotState) (slot_floor : Dict ℕ String)
      → AllValues (Accounted hour_start hour_start) (start_slots hour_start seeds slot_floor)
  unfolding start_slots
  Accounted-start_slots seeds [] = tt
  Accounted-start_slots seeds ((k, floor) ∷ rest) =
      (record { exact = omega arith; seen = omega arith }, Accounted-start_slots seeds rest)

  total_seconds-tails :
      (hour_end : ℕ) (slots : Dict ℕ SlotSweep)
      → AllValues (Accounted hour_start hour_end) slots
      → AllValues (λ acc. hour_start + total_seconds acc ≡ hour_end) (tails hour_end slots)
  unfolding tails
  total_seconds-tails hour_end [] a = tt
  total_seconds-tails hour_end ((k, slot) ∷ slots) (p, a) = (
    omega (
      arith,
      p.exact,
      p.seen,
      total_seconds-add slot.acc slot.state (hour_end - slot.last_update),
    ),
    total_seconds-tails hour_end slots a,
  )

-- The events are ordered and lie in the hour. Then the seconds of every slot, occupied, free and
-- unknown together, are exactly the length of the hour.
pub hour_conserved :
    (hour_start hour_end : ℕ) (slot_floor : Dict ℕ String) (seeds : Dict ℕ SlotState)
    (events : List Event)
    → InHour hour_start hour_end events
    → AllValues
        (λ acc. hour_start + total_seconds acc ≡ hour_end)
        (compute_hour_timeline hour_start hour_end slot_floor seeds events).slots
unfolding compute_hour_timeline start
hour_conserved hour_start hour_end slot_floor seeds events h =
    total_seconds-tails hour_start hour_end _ (
      Accounted-sweep_events hour_start hour_start hour_end events _ h
        (Accounted-start_slots hour_start seeds slot_floor))

-- a figure of an accumulator that adds up
record IsAdditive (f : SlotHourAccumulator → ℕ) : Type 0 where
  of_none : (floor : String) → f (no_seconds floor) ≡ 0
  of_merge : (a b : SlotHourAccumulator) → f (merge a b) ≡ f a + f b

bucket_of-or_zero :
    (f : SlotHourAccumulator → ℕ)
    → IsAdditive f
    → (bucket : String) (target : Option SlotHourAccumulator)
    → f (bucket_of bucket target) ≡ or_zero f target
unfolding bucket_of
bucket_of-or_zero f additive bucket none = additive.of_none bucket
bucket_of-or_zero f additive bucket (some t) = refl

sum-rollup_into :
    (f : SlotHourAccumulator → ℕ)
    → IsAdditive f
    → (group_key : SlotHourAccumulator → String) (slots : Dict ℕ SlotHourAccumulator)
      (rolled : Dict String SlotHourAccumulator)
    → sum_values f (rollup_into group_key slots rolled) ≡ sum_values f rolled + sum_values f slots
unfolding rollup_into
sum-rollup_into f additive group_key [] rolled = omega arith
sum-rollup_into f additive group_key ((k, acc) ∷ rest) rolled =
    let bucket = group_key acc in
    let target = bucket_of bucket (Dict.get bucket rolled) in
    omega (
      arith,
      sum-rollup_into f additive group_key rest (Dict.put bucket (merge target acc) rolled),
      sum_values-put f bucket (merge target acc) rolled,
      additive.of_merge target acc,
      bucket_of-or_zero f additive bucket (Dict.get bucket rolled),
    )

-- Grouped by floor, or in any other way, the roll-up loses nothing: the seconds in each state and
-- the changes add up to those of the slots.
pub rollup_conserved :
    (group_key : SlotHourAccumulator → String) (slots : Dict ℕ SlotHourAccumulator)
    → (sum_values (λ a. a.occupied_seconds) (rollup group_key slots)
        ≡ sum_values (λ a. a.occupied_seconds) slots)
      × (sum_values (λ a. a.free_seconds) (rollup group_key slots)
          ≡ sum_values (λ a. a.free_seconds) slots)
      × (sum_values (λ a. a.unknown_seconds) (rollup group_key slots)
          ≡ sum_values (λ a. a.unknown_seconds) slots)
      × (sum_values (λ a. a.change_count) (rollup group_key slots)
          ≡ sum_values (λ a. a.change_count) slots)
unfolding rollup merge
rollup_conserved group_key slots = (
  sum-rollup_into _ (record { of_none = λ _. refl; of_merge = λ a b. refl }) group_key slots []
      ∙ omega arith,
  sum-rollup_into _ (record { of_none = λ _. refl; of_merge = λ a b. refl }) group_key slots []
      ∙ omega arith,
  sum-rollup_into _ (record { of_none = λ _. refl; of_merge = λ a b. refl }) group_key slots []
      ∙ omega arith,
  sum-rollup_into _ (record { of_none = λ _. refl; of_merge = λ a b. refl }) group_key slots []
      ∙ omega arith,
)

-- ===== src/Services/Timeline/Peak.antt =====
-- The peak that services/hourly_timeline.py counts for the site.
use caps_dash.Prelude.{
  ℕ, ◌≤◌, ◌≡◌, refl, sym, ap, ◌∙◌, max, String, String_key, ℕ_key, none, some, List, [], ◌∷◌, arith,
  Option-cases, inl, inr, if◌then◌else◌,
}
use caps_dash.Prelude.Dict
use caps_dash.Prelude.Dict.{Dict, sum_values, or_zero, sum_values-put}
use caps_dash.Vision.States.{SlotState, is_occupied}
use caps_dash.Services.Timeline.{
  SlotSweep, Event, Sweep, occupied_slots, start_slots, start, sweep_slot, sweep_known, sweep_event,
  sweep_events, seeded, compute_hour_timeline,
}
use caps_dash.Services.Timeline.Conserved.{slots-sweep_absent, slots-sweep_present}

-- The states of the slots at one time, and what an event does to them.
abbrev pub States : Type 0
States = Dict ℕ SlotState

abbrev pub occupied_now : States → ℕ
occupied_now = sum_values (λ state. if is_occupied state then 1 else 0)

pub states_at_start : Dict ℕ SlotState → Dict ℕ String → States
states_at_start seeds [] = []
states_at_start seeds ((slot_id, floor) ∷ rest) =
    (slot_id, seeded seeds slot_id) ∷ states_at_start seeds rest

pub after_event : Event → States → States
after_event e states = elim (Dict.get e.slot_id states) [
  | none ↦ states
  | some _ ↦ Dict.put e.slot_id e.new_state states
]

-- The most slots occupied at once, from these states on.
pub most_occupied : States → List Event → ℕ
most_occupied states [] = occupied_now states
most_occupied states (e ∷ events) =
    max (occupied_now states) (most_occupied (after_event e states) events)

most_occupied-ge :
    (states : States) (events : List Event) → occupied_now states ≤ most_occupied states events
unfolding most_occupied
most_occupied-ge states [] = omega arith
most_occupied-ge states (e ∷ events) = omega arith

abbrev states_of : Dict ℕ SlotSweep → States
states_of [] = []
states_of ((k, slot) ∷ slots) = (k, slot.state) ∷ states_of slots

get-states_of :
    (k : ℕ) (slots : Dict ℕ SlotSweep) (slot : SlotSweep)
    → Dict.get k slots ≡ some slot
    → Dict.get k (states_of slots) ≡ some slot.state
unfolding Dict.get
get-states_of k [] slot h = ground arith
get-states_of k ((j, s) ∷ slots) slot h = ground (arith, get-states_of k slots slot)

get-states_of-none :
    (k : ℕ) (slots : Dict ℕ SlotSweep)
    → Dict.get k slots ≡ none
    → Dict.get k (states_of slots) ≡ none
unfolding Dict.get
get-states_of-none k [] h = refl
get-states_of-none k ((j, s) ∷ slots) h = ground (arith, get-states_of-none k slots)

states_of-put :
    (k : ℕ) (slot : SlotSweep) (slots : Dict ℕ SlotSweep)
    → states_of (Dict.put k slot slots) ≡ Dict.put k slot.state (states_of slots)
unfolding Dict.put
states_of-put k slot [] = refl
states_of-put k slot ((j, s) ∷ slots) = ground (arith, states_of-put k slot slots)

-- the loop keeps the number of occupied slots, and its peak so far
record Counts (s : Sweep) : Type 0 where
  site : s.concurrent_site ≡ occupied_now (states_of s.slots)
  peak : s.concurrent_site ≤ s.peak_site

occupied_slots-states_of :
    (slots : Dict ℕ SlotSweep) → occupied_slots slots ≡ occupied_now (states_of slots)
occupied_slots-states_of [] = refl
occupied_slots-states_of ((k, s) ∷ slots) = ground (arith, occupied_slots-states_of slots)

states_of-sweep_event :
    (e : Event) (s : Sweep) → states_of (sweep_event e s).slots ≡ after_event e (states_of s.slots)
unfolding after_event
states_of-sweep_event e s = elim (Option-cases (Dict.get e.slot_id s.slots)) [
  | inl absent ↦
      ap states_of (slots-sweep_absent 0 e s absent)
      ∙ rw (get-states_of-none e.slot_id s.slots absent, after_event)
  | inr (slot, found) ↦
      ap states_of (slots-sweep_present 0 e s found)
      ∙ states_of-put e.slot_id (sweep_slot e slot) s.slots
      ∙ rw (get-states_of e.slot_id s.slots slot found, after_event) (unfold sweep_slot in refl)
]

counts-sweep_known :
    (e : Event) (slot : SlotSweep) (s : Sweep) (states : States)
    → s.concurrent_site ≡ occupied_now states
    → s.concurrent_site ≤ s.peak_site
    → Dict.get e.slot_id states ≡ some slot.state
    → ((sweep_known e slot s).concurrent_site
        ≡ occupied_now (Dict.put e.slot_id e.new_state states))
      × ((sweep_known e slot s).peak_site ≡ max s.peak_site (sweep_known e slot s).concurrent_site)
unfolding sweep_known
counts-sweep_known e slot s states c p g =
    let balance =
      sum_values-put (λ state. if is_occupied state then 1 else 0) e.slot_id e.new_state states in
    (ground (arith, balance), ground (arith, balance))

sweep_event-absent :
    (e : Event) (s : Sweep) → Dict.get e.slot_id s.slots ≡ none → sweep_event e s ≡ s
unfolding sweep_event
sweep_event-absent e s absent = rw (absent, sweep_event)

sweep_event-present :
    (e : Event) (s : Sweep) {slot : SlotSweep}
    → Dict.get e.slot_id s.slots ≡ some slot
    → sweep_event e s ≡ sweep_known e slot s
unfolding sweep_event
sweep_event-present e s found = rw (found, sweep_event)

after_event-present :
    (e : Event) (states : States) {state : SlotState}
    → Dict.get e.slot_id states ≡ some state
    → after_event e states ≡ Dict.put e.slot_id e.new_state states
unfolding after_event
after_event-present e states found = rw (found, after_event)

Counts-sweep_event :
    (e : Event) (s : Sweep)
    → Counts s
    → Counts (sweep_event e s)
      × ((sweep_event e s).peak_site ≡ max s.peak_site (sweep_event e s).concurrent_site)
Counts-sweep_event e s c = elim (Option-cases (Dict.get e.slot_id s.slots)) [
  | inl absent ↦ rw (sweep_event-absent e s absent) (c, omega (arith, c.peak))
  | inr (slot, found) ↦
      let states = states_of s.slots in
      let known = get-states_of e.slot_id s.slots slot found in
      let (site, peak) = counts-sweep_known e slot s states c.site c.peak known in
      let after : states_of (sweep_known e slot s).slots ≡ Dict.put e.slot_id e.new_state states =
        ap (λ s'. states_of s'.slots) (sym (sweep_event-present e s found))
        ∙ states_of-sweep_event e s
        ∙ after_event-present e states known in
      rw (sweep_event-present e s found)
        (record { site = site ∙ ap occupied_now (sym after); peak = omega (arith, peak) }, peak)
]

peak-sweep_events :
    (events : List Event) (s : Sweep)
    → Counts s
    → (sweep_events events s).peak_site ≡ max s.peak_site (most_occupied (states_of s.slots) events)
unfolding sweep_events most_occupied
peak-sweep_events [] s c = omega (arith, c.site, c.peak)
peak-sweep_events (e ∷ events) s c =
    let (c', peak) = Counts-sweep_event e s c in
    let after = states_of-sweep_event e s in
    let rest = peak-sweep_events events (sweep_event e s) c' in
    let rest' : (sweep_events events (sweep_event e s)).peak_site
        ≡ max (sweep_event e s).peak_site
            (most_occupied (after_event e (states_of s.slots)) events) =
      rest ∙ ap (λ x. max (sweep_event e s).peak_site (most_occupied x events)) after in
    let here = most_occupied-ge (after_event e (states_of s.slots)) events in
    let now = ap occupied_now after in
    omega (arith, rest', peak, c'.site, c.site, c.peak, here, now)

states_of-start_slots :
    (hour_start : ℕ) (seeds : Dict ℕ SlotState) (slot_floor : Dict ℕ String)
    → states_of (start_slots hour_start seeds slot_floor) ≡ states_at_start seeds slot_floor
unfolding start_slots states_at_start
states_of-start_slots hour_start seeds [] = refl
states_of-start_slots hour_start seeds ((k, floor) ∷ rest) =
    ap (λ l. (k, seeded seeds k) ∷ l) (states_of-start_slots hour_start seeds rest)

-- `peak_occupied_site` is the largest number of slots that are OCCUPIED at one time, at the start
-- of the hour or after any of its events, when each event sets the state of its slot and events of
-- slots that are not active are ignored.
pub peak_site-most_occupied :
    (hour_start hour_end : ℕ) (slot_floor : Dict ℕ String) (seeds : Dict ℕ SlotState)
    (events : List Event)
    → (compute_hour_timeline hour_start hour_end slot_floor seeds events).peak_occupied_site
      ≡ most_occupied (states_at_start seeds slot_floor) events
unfolding compute_hour_timeline start
peak_site-most_occupied hour_start hour_end slot_floor seeds events =
    let slots = start_slots hour_start seeds slot_floor in
    let site = occupied_slots-states_of slots in
    peak-sweep_events events (start hour_start seeds slot_floor)
      (record { site = site; peak = omega arith })
    ∙ omega (arith, site, most_occupied-ge (states_of slots) events)
    ∙ ap (λ states. most_occupied states events) (states_of-start_slots hour_start seeds slot_floor)

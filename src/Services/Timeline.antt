-- ===== src/Services/Timeline.antt =====
-- services/hourly_timeline.py and services/hourly_stat_writer.py: the seconds that each slot spent
-- in each state in one hour, and their sums. Instants are numbers of seconds. The dictionaries
-- `state`, `last_update` and `acc`, which have the same keys, are one dictionary of records.
pub mod Conserved
pub mod Peak
mod Tests
use caps_dash.Prelude.{
  ℕ, ◌+◌, ◌-◌, max, String, String_key, ℕ_key, Bool, true, false, ◌||◌, Option, none, some, List,
  [], ◌∷◌, if◌then◌else◌, count, not,
}
use caps_dash.Prelude.Dict
use caps_dash.Prelude.Dict.{Dict}
use caps_dash.Vision.States.{SlotState, unknown, free, occupied, is_occupied, state_eq}

pub record SlotHourAccumulator : Type 0 where
  pub floor : String
  pub occupied_seconds : ℕ
  pub free_seconds : ℕ
  pub unknown_seconds : ℕ
  pub change_count : ℕ
  pub clock_suspect : Bool

abbrev pub no_seconds : String → SlotHourAccumulator
no_seconds floor = record {
  floor = floor;
  occupied_seconds = 0;
  free_seconds = 0;
  unknown_seconds = 0;
  change_count = 0;
  clock_suspect = false;
}

-- `add`: a duration that is not positive adds nothing, and neither does 0
pub add : SlotHourAccumulator → SlotState → ℕ → SlotHourAccumulator
add acc occupied seconds = record acc { occupied_seconds = acc.occupied_seconds + seconds }
add acc free seconds = record acc { free_seconds = acc.free_seconds + seconds }
add acc unknown seconds = record acc { unknown_seconds = acc.unknown_seconds + seconds }

-- one slot in the sweep: its entries of `state`, `last_update` and `acc`
pub record SlotSweep : Type 0 where
  pub state : SlotState
  pub last_update : ℕ
  pub acc : SlotHourAccumulator

-- a row of `events`
pub record Event : Type 0 where
  pub slot_id : ℕ
  pub new_state : SlotState
  pub changed_at : ℕ
  pub clock_suspect : Bool

pub record Sweep : Type 0 where
  pub slots : Dict ℕ SlotSweep
  pub concurrent_site : ℕ
  pub concurrent_floor : Dict String ℕ
  pub peak_site : ℕ
  pub peak_floor : Dict String ℕ

pub record HourTimeline : Type 0 where
  pub slots : Dict ℕ SlotHourAccumulator
  pub peak_occupied_by_floor : Dict String ℕ
  pub peak_occupied_site : ℕ

-- `d.get(k, 0)`, and `d[k]` of a `defaultdict(int)`
abbrev pub count_at : String → Dict String ℕ → ℕ
count_at k d = elim (Dict.get k d) [ none ↦ 0 | some n ↦ n ]

-- `seed_states.get(slot_id, UNKNOWN)`
abbrev pub seeded : Dict ℕ SlotState → ℕ → SlotState
seeded seeds slot_id = elim (Dict.get slot_id seeds) [ none ↦ unknown | some s ↦ s ]

pub start_slots : ℕ → Dict ℕ SlotState → Dict ℕ String → Dict ℕ SlotSweep
start_slots hour_start seeds [] = []
start_slots hour_start seeds ((slot_id, floor) ∷ rest) =
    (
      slot_id,
      record { state = seeded seeds slot_id; last_update = hour_start; acc = no_seconds floor },
    )
    ∷ start_slots hour_start seeds rest

abbrev pub occupied_slots : Dict ℕ SlotSweep → ℕ
occupied_slots = count (λ e. is_occupied e.1.state)

-- the loop that fills `concurrent_floor`
pub start_floors : Dict ℕ SlotSweep → Dict String ℕ → Dict String ℕ
start_floors [] floors = floors
start_floors ((slot_id, slot) ∷ rest) floors = start_floors rest (
    if is_occupied slot.state
    then Dict.put slot.acc.floor (count_at slot.acc.floor floors + 1) floors
    else floors)

pub start : ℕ → Dict ℕ SlotState → Dict ℕ String → Sweep
unfolding start_slots start_floors
start hour_start seeds slot_floor =
    let slots = start_slots hour_start seeds slot_floor in
    let site = occupied_slots slots in
    let floors = start_floors slots [] in
    record {
      slots = slots;
      concurrent_site = site;
      concurrent_floor = floors;
      peak_site = site;
      peak_floor = floors;
    }

-- `concurrent - 1` if the old state was OCCUPIED, then `+ 1` if the new one is
abbrev pub moved : SlotState → SlotState → ℕ → ℕ
moved old new n =
    let less = if is_occupied old then n - 1 else n in if is_occupied new then less + 1 else less

-- the durations and counters of the slot of an event
pub sweep_slot : Event → SlotSweep → SlotSweep
unfolding add
sweep_slot e slot =
    let acc = add slot.acc slot.state (e.changed_at - slot.last_update) in
    record {
      state = e.new_state;
      last_update = e.changed_at;
      acc = record acc {
        change_count = acc.change_count + 1;
        clock_suspect = acc.clock_suspect || e.clock_suspect;
      };
    }

-- one round of the loop over `events`, for an event whose slot is in `acc`
pub sweep_known : Event → SlotSweep → Sweep → Sweep
unfolding sweep_slot
sweep_known e slot s =
    let floor = slot.acc.floor in
    let slots = Dict.put e.slot_id (sweep_slot e slot) s.slots in
    if state_eq slot.state e.new_state
    then record s { slots = slots }
    else let site = moved slot.state e.new_state s.concurrent_site in
      let on_floor = moved slot.state e.new_state (count_at floor s.concurrent_floor) in
      record {
        slots = slots;
        concurrent_site = site;
        concurrent_floor = Dict.put floor on_floor s.concurrent_floor;
        peak_site = max s.peak_site site;
        peak_floor = Dict.put floor (max (count_at floor s.peak_floor) on_floor) s.peak_floor;
      }

pub sweep_event : Event → Sweep → Sweep
unfolding sweep_known
sweep_event e s = elim (Dict.get e.slot_id s.slots) [ none ↦ s | some slot ↦ sweep_known e slot s ]

pub sweep_events : List Event → Sweep → Sweep
unfolding sweep_event
sweep_events [] s = s
sweep_events (e ∷ events) s = sweep_events events (sweep_event e s)

-- the last loop: the time from each slot's last event to the end of the hour
pub tails : ℕ → Dict ℕ SlotSweep → Dict ℕ SlotHourAccumulator
unfolding add
tails hour_end [] = []
tails hour_end ((slot_id, slot) ∷ rest) =
    (slot_id, add slot.acc slot.state (hour_end - slot.last_update)) ∷ tails hour_end rest

pub compute_hour_timeline : ℕ → ℕ → Dict ℕ String → Dict ℕ SlotState → List Event → HourTimeline
unfolding start sweep_events tails
compute_hour_timeline hour_start hour_end slot_floor seeds events =
    let s = sweep_events events (start hour_start seeds slot_floor) in
    record {
      slots = tails hour_end s.slots;
      peak_occupied_by_floor = s.peak_floor;
      peak_occupied_site = s.peak_site;
    }

-- `rollup`: the sums by a key of the accumulator
pub merge : SlotHourAccumulator → SlotHourAccumulator → SlotHourAccumulator
merge target acc = record {
  floor = target.floor;
  occupied_seconds = target.occupied_seconds + acc.occupied_seconds;
  free_seconds = target.free_seconds + acc.free_seconds;
  unknown_seconds = target.unknown_seconds + acc.unknown_seconds;
  change_count = target.change_count + acc.change_count;
  clock_suspect = target.clock_suspect || acc.clock_suspect;
}

-- `rolled.setdefault(bucket, …)`
pub bucket_of : String → Option SlotHourAccumulator → SlotHourAccumulator
bucket_of bucket none = no_seconds bucket
bucket_of bucket (some target) = target

pub rollup_into :
    (SlotHourAccumulator → String)
    → Dict ℕ SlotHourAccumulator
    → Dict String SlotHourAccumulator
    → Dict String SlotHourAccumulator
unfolding merge bucket_of
rollup_into group_key [] rolled = rolled
rollup_into group_key ((slot_id, acc) ∷ rest) rolled =
    let bucket = group_key acc in
    let target = bucket_of bucket (Dict.get bucket rolled) in
    rollup_into group_key rest (Dict.put bucket (merge target acc) rolled)

pub rollup :
    (SlotHourAccumulator → String) → Dict ℕ SlotHourAccumulator → Dict String SlotHourAccumulator
unfolding rollup_into
rollup group_key per_slot = rollup_into group_key per_slot []

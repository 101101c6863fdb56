-- ===== src/Event.antt =====
-- OriginalFlashSim/ssd_event.cpp: an I/O request with its addresses and its times. Times are
-- natural numbers, so the source's asserts that a time is not negative hold by type.
pub mod Times
use test_flash_sim.Base.{
  ℕ, ◌+◌, ◌-◌, Bool, true, false, Option, none, some, List, [], ◌∷◌, ltb, if◌then◌else◌,
}
use test_flash_sim.Address.{Address, empty}

-- `enum event_type`
pub data EventType : Type 0 where
  read write erase merge trim : EventType

-- `payload` is what the pointer leads to, the bytes of one page; `none` is NULL. `next` is left
-- out: a list of events is a list (see consolidate_metaevent).
pub record Event : Type 0 where
  pub start_time : ℕ
  pub time_taken : ℕ
  pub bus_wait_time : ℕ
  pub type : EventType
  pub logical_address : ℕ
  pub address : Address
  pub merge_address : Address
  pub log_address : Address
  pub replace_address : Address
  pub size : ℕ
  pub payload : Option (List ℕ)
  pub noop : Bool

unfoldable pub new : EventType → ℕ → ℕ → ℕ → Event
unfolding empty
new type logical_address size start_time = record {
  start_time = start_time;
  time_taken = 0;
  bus_wait_time = 0;
  type = type;
  logical_address = logical_address;
  address = empty 0;
  merge_address = empty 0;
  log_address = empty 0;
  replace_address = empty 0;
  size = size;
  payload = none;
  noop = false;
}

unfoldable pub set_address : Event → Address → Event
set_address e a = record e { address = a }

unfoldable pub set_merge_address : Event → Address → Event
set_merge_address e a = record e { merge_address = a }

unfoldable pub set_log_address : Event → Address → Event
set_log_address e a = record e { log_address = a }

unfoldable pub set_replace_address : Event → Address → Event
set_replace_address e a = record e { replace_address = a }

unfoldable pub set_payload : Event → Option (List ℕ) → Event
set_payload e p = record e { payload = p }

unfoldable pub set_event_type : Event → EventType → Event
set_event_type e t = record e { type = t }

unfoldable pub set_noop : Event → Bool → Event
set_noop e b = record e { noop = b }

unfoldable pub incr_bus_wait_time : Event → ℕ → Event
incr_bus_wait_time e t = if ltb 0 t then record e { bus_wait_time = e.bus_wait_time + t } else e

unfoldable pub incr_time_taken : Event → ℕ → Event
incr_time_taken e t = if ltb 0 t then record e { time_taken = e.time_taken + t } else e

-- The loop of consolidate_metaevent, from the accumulated maximum and bus wait time. The times of
-- the source are signed, so its `start - cur.start + cur.taken` may be negative; here the sum is
-- formed first, which is the same number wherever it is not negative.
consolidate_loop : ℕ → ℕ → ℕ → List Event → ℕ × ℕ
consolidate_loop start max wait [] = (max, wait)
consolidate_loop start max wait (cur ∷ rest) =
    let tmp = start + cur.time_taken - cur.start_time in
    consolidate_loop start (if ltb max tmp then tmp else max) (wait + cur.bus_wait_time) rest

-- The list has a first event, whose bus wait time is not added.
unfoldable pub consolidate_metaevent : Event → Event → List Event → Event
unfolding consolidate_loop
consolidate_metaevent e first rest =
    let (max, wait) =
      consolidate_loop e.start_time (e.start_time + first.time_taken - first.start_time)
        e.bus_wait_time rest in
    record e { time_taken = max; bus_wait_time = wait }

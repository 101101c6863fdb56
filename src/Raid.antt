-- ===== src/Raid.antt =====
-- OriginalFlashSim/ssd_raidssd.cpp, and event_arrive of OriginalFlashSim/ssd_ssd.cpp: requests that
-- arrive at a disk or at an array of disks. What the controller of a disk does with an event is a
-- parameter, on a state of the disk of any type. The states of the disks are apart here: what the
-- disks of a program share (page_data, global_buffer, zns_zones) is not part of them.
pub mod Served
use test_flash_sim.Base.{
  ℕ, zero, suc, ◌+◌, ◌*◌, ◌%◌, ◌^◌, ◌||◌, Option, none, some, List, [], ◌∷◌, Run, ok, guard, fetch,
  ◌>>=◌, ◌>>◌, Status, if◌then◌else◌, leb, ◌==◌, get_elem?, set, drop, u32,
}
use test_flash_sim.Config.{Geometry}
use test_flash_sim.Event.{Event, EventType, set_payload}
use test_flash_sim.Event

-- The constants that an arriving request meets.
pub record Arrival : Type 0 where
  pub geometry : Geometry
  pub virtual_page_size : ℕ
  pub page_size : ℕ
  pub raid_number_of_physical_ssds : ℕ
  pub parallelism_mode : ℕ

-- Numbers from here on are negative as `long long`.
abbrev i64_limit : ℕ
i64_limit = 2 ^ 63

-- The size of the disk in pages, of 64 bits.
unfoldable pub num_pages : Geometry → ℕ
num_pages g = g.ssd_size * g.package_size * g.die_size * g.plane_size * g.block_size

-- `buffer + n`, and a null buffer as it is.
unfoldable pub shift_buffer : ℕ → Option (List ℕ) → Option (List ℕ)
shift_buffer n none = none
shift_buffer n (some bytes) = some (drop n bytes)

module _ {S : Type 0} (c : Arrival)
    (controller_event_arrive : Event → S → Run (Status × Event × S)) where
  -- A request of a single disk, with the time that it took. The assert compares signed numbers. A
  -- failure is printed and no more.
  unfoldable pub event_arrive : EventType → ℕ → ℕ → ℕ → Option (List ℕ) → S → Run (ℕ × S)
  unfolding num_pages set_payload Event.new
  event_arrive type logical_address size start_time buffer s = do
    _ ← guard (
        leb i64_limit logical_address
        || (if c.virtual_page_size == 1
            then leb logical_address (num_pages c.geometry)
            else leb (logical_address * c.virtual_page_size) (num_pages c.geometry)))
    (status, e, s') ←
        controller_event_arrive
          (set_payload (Event.new type logical_address size start_time) buffer) s
    ok (e.time_taken, s')

  -- The loop over the disks from the i-th on, with the times that they took. Each takes its page of
  -- the buffer.
  unfoldable pub stripe :
      EventType → ℕ → ℕ → ℕ → Option (List ℕ) → ℕ → ℕ → List S → Run (List ℕ × List S)
  unfolding shift_buffer
  stripe type logical_address size start_time buffer i zero ssds = ok ([], ssds)
  stripe type logical_address size start_time buffer i (suc n) ssds = do
    s ← fetch ssds i
    (time, s') ←
        event_arrive type logical_address size start_time
          (shift_buffer (u32 (i * c.page_size)) buffer) s
    (times, rest) ← stripe type logical_address size start_time buffer (suc i) n (set ssds i s')
    ok (time ∷ times, rest)

  -- Striping, or a split of the addresses. A remainder by 0, which is undefined, and an array of no
  -- disks end out of range; the times of striping are only compared to print that they differ.
  unfoldable pub raid_event_arrive :
      EventType → ℕ → ℕ → ℕ → Option (List ℕ) → List S → Run (ℕ × List S)
  unfolding stripe
  raid_event_arrive type logical_address size start_time buffer ssds =
      if c.parallelism_mode == 1
      then (do
        (times, left) ←
            stripe type logical_address size start_time buffer 0 c.raid_number_of_physical_ssds ssds
        time ← fetch times 0
        ok (time, left))
      else (if c.parallelism_mode == 2
          then (do
            let i = logical_address % c.raid_number_of_physical_ssds
            s ← fetch ssds i
            (time, s') ← event_arrive type logical_address size start_time buffer s
            ok (time, set ssds i s'))
          else ok (0, ssds))

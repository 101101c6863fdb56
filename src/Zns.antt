-- ===== src/Zns.antt =====
-- The zoned side of the controller: OriginalFlashSim/zns_manager.cpp, crypto_engine.cpp, the zone
-- table of flashsim_stubs.cpp, and the address mapping of FTLs/zns_ftl.cpp.
pub mod Fill
pub mod Gate
pub mod Limits
pub mod Mapping
pub mod Reset
use test_flash_sim.Base.{
  ℕ, ◌+◌, ◌-◌, ◌/◌, ◌%◌, Bool, true, false, not, ◌&&◌, ◌||◌, Option, none, some, List, Run, ok,
  fetch, ◌>>=◌, if◌then◌else◌, ltb, leb, ◌==◌, count, set, replicate, u32, u64, u64_mod,
}
use test_flash_sim.Event.{Event, EventType}
use test_flash_sim.Event

pub record ZnsZone : Type 0 where
  pub wptr : ℕ
  pub is_full : Bool
  pub erase_count : ℕ

-- `zns_zones` is the array of `total_zns_zones` zones, or `none` for a null pointer.
pub record Controller : Type 0 where
  pub zns_zones : Option (List ZnsZone)
  pub total_zns_zones : ℕ

abbrev pub blank : ZnsZone
blank = record { wptr = 0; is_full = false; erase_count = 0 }

-- The constructor, from the static `total_zns_zones`.
unfoldable pub new : ℕ → Controller
new total =
    let zones : ℕ = if total == 0 then 1024 else total in
    record { zns_zones = some (replicate zones blank); total_zns_zones = zones }

-- The size of a zone, guarded against a BLOCK_SIZE of 0.
unfoldable pub hard_block_size : ℕ → ℕ
hard_block_size block_size = if ltb 0 block_size then block_size else 64

unfoldable pub is_open : ZnsZone → Bool
is_open z = ltb 0 z.wptr && not z.is_full

-- All zones of the array: the constructor makes `total_zns_zones` of them.
unfoldable pub open_zones_count_check : List ZnsZone → ℕ
unfolding is_open
open_zones_count_check zones = count is_open zones

abbrev pub is_write : EventType → Bool
is_write Event.write = true
is_write _ = false

-- The zone once a page is written.
unfoldable pub advanced : ℕ → ZnsZone → ZnsZone
advanced hard z =
    let next = u64 (z.wptr + 1) in
    record z { wptr = next; is_full = if leb hard next then true else z.is_full }

-- The checks of a write to a zone of the table.
unfoldable pub admits : ℕ → List ZnsZone → ZnsZone → ℕ → Bool
unfolding open_zones_count_check
admits hard zones z logical_address =
    if z.is_full
    then false
    else (if not (u32 (logical_address % hard) == z.wptr)
        then false
        else (if z.wptr == 0 && leb 4 (open_zones_count_check zones) then false else true))

-- `FTL_IMPLEMENTATION` and `BLOCK_SIZE` are arguments.
unfoldable pub validate_and_advance_zns : ℕ → ℕ → Controller → Event → Run (Controller × Bool)
unfolding hard_block_size
validate_and_advance_zns ftl_implementation block_size ctl e =
    if not (ftl_implementation == 5)
    then ok (ctl, true)
    else let hard = hard_block_size block_size in
      let zone_id = e.logical_address / hard in
      elim ctl.zns_zones [
        | none ↦ ok (ctl, false)
        | some zones ↦ if leb ctl.total_zns_zones zone_id then ok (ctl, false) else (do
          zone ← fetch zones zone_id
          if is_write e.type
              then (if admits hard zones zone e.logical_address
                  then ok (
                    record ctl { zns_zones = some (set zones zone_id (advanced hard zone)) },
                    true,
                  )
                  else ok (ctl, false))
              else ok (ctl, true))
      ]

-- The result of simulate_crypto_read; the rest of it is output.
unfoldable pub simulate_crypto_read : ℕ → ℕ → Bool
simulate_crypto_read target_page wptr = not (leb wptr target_page)

unfoldable pub simulate_crypto_erase : List ZnsZone → ℕ → Run (List ZnsZone)
simulate_crypto_erase zones zone_id = do
  zone ← fetch zones zone_id
  ok (set zones zone_id (record zone { erase_count = u64 (zone.erase_count + 1) }))

-- Of the stub the address is not read: it is the count of zone 30.
unfoldable pub get_erases_remaining : List ZnsZone → Run ℕ
get_erases_remaining zones = do
  zone ← fetch zones 30
  ok ((100000 + u64_mod - zone.erase_count) % u64_mod)

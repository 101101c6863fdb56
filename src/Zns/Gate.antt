-- ===== src/Zns/Gate.antt =====
-- Controller::direct_zns_gate of OriginalFlashSim/ssd_controller.cpp. The driver behind it, with
-- the simulated hardware, is the parameter `process`. On success the gate writes bytes of the zone
-- record: the first field of that record is the 64-bit write pointer, lowest byte first.
use test_flash_sim.Base.{
  ℕ, ◌+◌, ◌*◌, ◌/◌, ◌%◌, none, some, Run, ok, ◌>>=◌, fetch, Status, failure, success, if◌then◌else◌,
  ltb, ◌==◌, set, u32,
}
use test_flash_sim.Zns.{ZnsZone, Controller}

-- The fields of `nvme_sqe_t` that the gate sets; the others are 0.
pub record Sqe : Type 0 where
  pub opcode : ℕ
  pub cid : ℕ
  pub slba : ℕ
  pub nlb : ℕ
  pub zsa : ℕ

-- `is_write` is 0, 1 or 2; any other value leaves the opcode 0.
unfoldable pub gate_sqe : ℕ → ℕ → Sqe
gate_sqe lba is_write = record {
  opcode =
      if is_write == 1
      then 0x01
      else (if is_write == 0 then 0x02 else (if is_write == 2 then 0x79 else 0));
  cid = 42;
  slba = lba;
  nlb = 0;
  zsa = if is_write == 2 then 0x04 else 0;
}

-- `raw_zone_ptr[0]++`
unfoldable pub incr_byte0 : ℕ → ℕ
incr_byte0 w = w / 256 * 256 + (w % 256 + 1) % 256

-- `raw_zone_ptr[0] = 0`
unfoldable pub clear_byte0 : ℕ → ℕ
clear_byte0 w = w / 256 * 256

-- `raw_zone_ptr[2]++`
unfoldable pub incr_byte2 : ℕ → ℕ
incr_byte2 w = w / 16777216 * 16777216 + (w / 65536 % 256 + 1) % 256 * 65536 + w % 65536

unfoldable pub mirror : ℕ → ZnsZone → ZnsZone
unfolding incr_byte0 clear_byte0 incr_byte2
mirror is_write z =
    if is_write == 1
    then record z { wptr = incr_byte0 z.wptr }
    else (if is_write == 2 then record z { wptr = incr_byte2 (clear_byte0 z.wptr) } else z)

module _ {Hardware : Type 0} (process : Sqe → Hardware → ℕ × Hardware) where
  unfoldable pub direct_zns_gate :
      ℕ → ℕ → Controller → Hardware → Run (Status × Controller × Hardware)
  direct_zns_gate lba is_write ctl hw =
      let zone_id = u32 (lba / 64) in
      let (status, hw') = process (gate_sqe lba is_write) hw in
      if status == 0
      then elim ctl.zns_zones [
        | none ↦ ok (success, ctl, hw')
        | some zones ↦
            if ltb zone_id ctl.total_zns_zones
            then (do
              zone ← fetch zones zone_id
              ok (
                success,
                record ctl { zns_zones = some (set zones zone_id (mirror is_write zone)) },
                hw',
              ))
            else ok (success, ctl, hw')
      ]
      else ok (failure, ctl, hw')

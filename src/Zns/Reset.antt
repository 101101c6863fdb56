-- ===== src/Zns/Reset.antt =====
-- A reset through the gate, and the write that follows it.
use test_flash_sim.Base.{
  ℕ, ◌/◌, ◌%◌, ◌<◌, ◌≡◌, List, some, ok, arith, success, get_elem?, set, lt→ltb, ◌>>=◌, u32_mod,
}
use test_flash_sim.Event.{Event}
use test_flash_sim.Event
use test_flash_sim.Zns.{ZnsZone, Controller}
use test_flash_sim.Zns.Gate.{Sqe, gate_sqe, mirror, direct_zns_gate}

-- The write pointer after the bytes are written: not 0 but 65536, for a zone of at most 255 pages.
mirror_reset : (z : ZnsZone) → z.wptr < 256 → mirror 2 z ≡ record z { wptr = 65536 }
unfolding mirror
mirror_reset z h = ground arith

module _ {Hardware : Type 0} (process : Sqe → Hardware → ℕ × Hardware) where
  -- A reset that the hardware accepts leaves the zone of the table, whose number fits 32 bits
  -- and whose pointer fits a byte, with the write pointer 65536, its erase count and its full
  -- mark as they were, and no other zone changed.
  pub gate_reset :
      (lba : ℕ) (ctl : Controller) (hw : Hardware) (zones : List ZnsZone) (z : ZnsZone)
      → (process (gate_sqe lba 2) hw).0 ≡ 0
      → ctl.zns_zones ≡ some zones
      → lba / 64 < u32_mod
      → lba / 64 < ctl.total_zns_zones
      → get_elem? zones (lba / 64) ≡ some z
      → z.wptr < 256
      → direct_zns_gate process lba 2 ctl hw
        ≡ ok (
          success,
          record ctl { zns_zones = some (set zones (lba / 64) (record z { wptr = 65536 })) },
          (process (gate_sqe lba 2) hw).1,
        )
  unfolding direct_zns_gate
  gate_reset lba ctl hw zones z accepted table word inside found small =
      let id : lba / 64 % u32_mod ≡ lba / 64 = omega arith in
      rw (accepted, table, id, lt→ltb _ _ inside, found, ◌>>=◌, mirror_reset z small)

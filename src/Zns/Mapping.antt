-- ===== src/Zns/Mapping.antt =====
-- FtlImpl_Zns of OriginalFlashSim/FTLs/zns_ftl.cpp: the address of a logical page, and the way
-- that zones fill up. Controller::issue, which read and write end with, returns SUCCESS at once in
-- OriginalFlashSim/flashsim_stubs.cpp. The trim of the source calls reset_zns_zone, which no file
-- defines, and is left out.
use native.Mathlib.Nat.{mod-eq_of_lt, div-lt_iff_lt-mul, div-eq_of_lt, zero-mod, zero-div}
use test_flash_sim.Base.{ℕ, ◌*◌, ◌/◌, ◌%◌, ◌<◌, ◌≡◌, arith, u32, u32_mod, Status, success}
use test_flash_sim.Config.{Geometry}
use test_flash_sim.Address.{Address, empty, page_level, set_linear_address, set_linear_level}
use test_flash_sim.Address.Linear.{IsPositive}
use test_flash_sim.Event.{Event, set_address}
use test_flash_sim.Zns.{hard_block_size}

-- The physical address of a logical one: always in the first plane. `unset` is what the
-- constructor leaves in `real_address`.
unfoldable pub physical : ℕ → ℕ → ℕ → Address
unfolding hard_block_size
physical block_size unset logical_address =
    let lba = u32 logical_address in
    let hard = hard_block_size block_size in
    record {
      pkg = 0;
      die = 0;
      plane = 0;
      block = lba / hard;
      page = lba % hard;
      real_address = unset;
      valid = page_level;
    }

-- `FtlImpl_Zns::read` and `FtlImpl_Zns::write`, which have the same body.
unfoldable pub request : ℕ → ℕ → Event → Status × Event
unfolding set_address physical
request block_size unset e = (success, set_address e (physical block_size unset e.logical_address))

hard_block_size_self : (n : ℕ) → 0 < n → hard_block_size n ≡ n
unfolding hard_block_size
hard_block_size_self n h = ground arith

-- In a geometry of positive sizes whose first plane holds the page, the physical address of a
-- logical one that fits 32 bits is the one that set_linear_address computes, but for
-- `real_address`, which stays unset.
pub physical-set_linear_level :
    (g : Geometry) (unset n : ℕ)
    → IsPositive g
    → n < u32_mod
    → n < g.plane_size * g.block_size
    → record (physical g.block_size unset n) { real_address = n }
      ≡ set_linear_level g n page_level (empty unset)
unfolding physical set_linear_level set_linear_address empty
physical-set_linear_level g unset n p small inside =
    let inner = (div-lt_iff_lt-mul p.block).1 inside in
    rw (
      mod-eq_of_lt small,
      hard_block_size_self g.block_size p.block,
      mod-eq_of_lt inner,
      div-eq_of_lt inner,
      zero-mod g.die_size,
      zero-div g.die_size,
      zero-mod g.package_size,
      zero-div g.package_size,
      zero-mod g.ssd_size,
    )

-- ===== src/Examples/Addresses.antt =====
-- Addresses of a small device, and the events that carry them.
use test_flash_sim.Base.{◌≤◌, ◌≡◌, ◌↔◌, arith}
use test_flash_sim.Address.{
  Address, set_linear_address, set_linear_level, checked_level, check_valid, compare, add, rank,
  plane_level, block_level,
}
use test_flash_sim.Address
use test_flash_sim.Address.Linear.{
  IsPositive, InRange, linear, capacity, linear-set_linear_address, set_linear_address-linear,
}
use test_flash_sim.Address.Levels.{InRangeTo, SameTo, check_valid_correct, compare_correct}
use test_flash_sim.Examples.{geometry, address_37}

geometry-IsPositive : IsPositive geometry
geometry-IsPositive = record {
  ssd = omega arith;
  package_pos = omega arith;
  die = omega arith;
  plane = omega arith;
  block = omega arith;
}

linear-set_linear_address_example :
    linear geometry (set_linear_address geometry 37 (Address.empty 0)) ≡ 37
unfolding capacity
linear-set_linear_address_example =
    linear-set_linear_address geometry 37 (Address.empty 0) geometry-IsPositive (omega arith)

address_37-InRange : InRange geometry address_37
address_37-InRange = record {
  pkg = omega arith;
  die = omega arith;
  plane = omega arith;
  block = omega arith;
  page = omega arith;
}

set_linear_address-linear_example : set_linear_address geometry 37 address_37 ≡ address_37
unfolding linear
set_linear_address-linear_example =
    set_linear_address-linear geometry address_37 geometry-IsPositive address_37-InRange

-- The block index is out of range, so the address is cut to its plane.
abbrev no_block : Address
no_block = record address_37 { block = 2 }

check_valid_correct_example :
    (rank block_level ≤ rank (check_valid geometry no_block).valid)
    ↔ (rank block_level ≤ rank no_block.valid) × InRangeTo geometry no_block block_level
check_valid_correct_example = check_valid_correct geometry no_block block_level

compare_correct_example :
    (rank plane_level ≤ rank (compare address_37 no_block))
    ↔ (rank plane_level ≤ rank address_37.valid)
      × (rank plane_level ≤ rank no_block.valid)
      × SameTo address_37 no_block plane_level
compare_correct_example = compare_correct address_37 no_block plane_level

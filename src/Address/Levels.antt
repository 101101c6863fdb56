-- ===== src/Address/Levels.antt =====
-- What the levels mean: check_valid and compare against the prefixes of the fields.
use test_flash_sim.Base.{◌≤◌, ◌<◌, ◌≡◌, ◌↔◌, arith}
use test_flash_sim.Config.{Geometry}
use test_flash_sim.Address.{
  Address, AddressValid, no_level, package_level, die_level, plane_level, block_level, page_level,
  rank, check_valid, compare,
}

-- The fields down to a level are indices of the arrays that they select from.
abbrev pub InRangeTo : Geometry → Address → AddressValid → Type 0
InRangeTo g a no_level = Unit {0}
InRangeTo g a package_level = a.pkg < g.ssd_size
InRangeTo g a die_level = (a.pkg < g.ssd_size) × (a.die < g.package_size)
InRangeTo g a plane_level = (a.pkg < g.ssd_size) × (a.die < g.package_size) × (a.plane < g.die_size)
InRangeTo g a block_level =
    (a.pkg < g.ssd_size)
    × (a.die < g.package_size)
    × (a.plane < g.die_size)
    × (a.block < g.plane_size)
InRangeTo g a page_level =
    (a.pkg < g.ssd_size)
    × (a.die < g.package_size)
    × (a.plane < g.die_size)
    × (a.block < g.plane_size)
    × (a.page < g.block_size)

-- The fields down to a level are the same.
abbrev pub SameTo : Address → Address → AddressValid → Type 0
SameTo a b no_level = Unit {0}
SameTo a b package_level = a.pkg ≡ b.pkg
SameTo a b die_level = (a.pkg ≡ b.pkg) × (a.die ≡ b.die)
SameTo a b plane_level = (a.pkg ≡ b.pkg) × (a.die ≡ b.die) × (a.plane ≡ b.plane)
SameTo a b block_level =
    (a.pkg ≡ b.pkg) × (a.die ≡ b.die) × (a.plane ≡ b.plane) × (a.block ≡ b.block)
SameTo a b page_level =
    (a.pkg ≡ b.pkg)
    × (a.die ≡ b.die)
    × (a.plane ≡ b.plane)
    × (a.block ≡ b.block)
    × (a.page ≡ b.page)

-- check_valid leaves the highest level that the address had and whose fields, with all above
-- them, are in range: a level is reached after the check exactly when both hold.
pub check_valid_correct :
    (g : Geometry) (a : Address) (l : AddressValid)
    → (rank l ≤ rank (check_valid g a).valid) ↔ (rank l ≤ rank a.valid) × InRangeTo g a l
unfolding check_valid
check_valid_correct g a no_level = (λ h. ground arith, λ h. ground arith)
check_valid_correct g a l = (λ h. ground arith, λ h. ground arith)

-- compare returns the deepest level down to which the two addresses agree and are both valid.
pub compare_correct :
    (a b : Address) (l : AddressValid)
    → (rank l ≤ rank (compare a b))
      ↔ (rank l ≤ rank a.valid) × (rank l ≤ rank b.valid) × SameTo a b l
unfolding compare
compare_correct a b no_level = (λ h. ground arith, λ h. ground arith)
compare_correct a b l = (λ h. ground arith, λ h. ground arith)

-- compare does not depend on the order of its arguments.
pub compare_comm : (a b : Address) → compare a b ≡ compare b a
unfolding compare
compare_comm a b = ground arith

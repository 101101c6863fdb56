-- ===== src/Address.antt =====
-- OriginalFlashSim/ssd_address.cpp: physical addresses, with the level down to which the fields
-- are meaningful. `package` is a word of the language, so that field is `pkg`.
pub mod Linear
pub mod Levels
use test_flash_sim.Base.{ℕ, ◌+◌, ◌-◌, ◌/◌, ◌%◌, Bool, ◌&&◌, leb, ltb, ◌==◌, if◌then◌else◌, u32, u64}
use test_flash_sim.Config.{Geometry}

-- `enum address_valid`
pub data AddressValid : Type 0 where
  no_level package_level die_level plane_level block_level page_level : AddressValid

-- The value of the enumerator: the source compares them by `>=` and `>`.
unfoldable pub rank : AddressValid → ℕ
rank no_level = 0
rank package_level = 1
rank die_level = 2
rank plane_level = 3
rank block_level = 4
rank page_level = 5

pub record Address : Type 0 where
  pub pkg : ℕ
  pub die : ℕ
  pub plane : ℕ
  pub block : ℕ
  pub page : ℕ
  pub real_address : ℕ
  pub valid : AddressValid

-- `a.valid >= l`
unfoldable pub valid_to : Address → AddressValid → Bool
unfolding rank
valid_to a l = leb (rank l) (rank a.valid)

-- `a.valid > l`
unfoldable pub valid_beyond : Address → AddressValid → Bool
unfolding rank
valid_beyond a l = ltb (rank l) (rank a.valid)

-- The default constructor does not set `real_address`: the argument stands for what is there.
unfoldable pub empty : ℕ → Address
empty unset = record {
  pkg = 0;
  die = 0;
  plane = 0;
  block = 0;
  page = 0;
  real_address = unset;
  valid = no_level;
}

-- The checked level of the fields, at most the level so far.
unfoldable pub checked_level : Geometry → Address → AddressValid
unfolding valid_to
checked_level g a =
    if valid_to a package_level && ltb a.pkg g.ssd_size
    then (if valid_to a die_level && ltb a.die g.package_size
        then (if valid_to a plane_level && ltb a.plane g.die_size
            then (if valid_to a block_level && ltb a.block g.plane_size
                then (if valid_to a page_level && ltb a.page g.block_size
                    then page_level
                    else block_level)
                else plane_level)
            else die_level)
        else package_level)
    else no_level

unfoldable pub check_valid : Geometry → Address → Address
unfolding checked_level
check_valid g a = record a { valid = checked_level g a }

unfoldable pub compare : Address → Address → AddressValid
unfolding valid_to
compare a b =
    if a.pkg == b.pkg && valid_to a package_level && valid_to b package_level
    then (if a.die == b.die && valid_to a die_level && valid_to b die_level
        then (if a.plane == b.plane && valid_to a plane_level && valid_to b plane_level
            then (if a.block == b.block && valid_to a block_level && valid_to b block_level
                then (if a.page == b.page && valid_to a page_level && valid_to b page_level
                    then page_level
                    else block_level)
                else plane_level)
            else die_level)
        else package_level)
    else no_level

unfoldable pub set_linear_address : Geometry → ℕ → Address → Address
set_linear_address g address a =
    let above_page = address / g.block_size in
    let above_block = above_page / g.plane_size in
    let above_plane = above_block / g.die_size in
    let above_die = above_plane / g.package_size in
    record a {
      real_address = address;
      page = address % g.block_size;
      block = above_page % g.plane_size;
      plane = above_block % g.die_size;
      die = above_plane % g.package_size;
      pkg = above_die % g.ssd_size;
    }

-- The overload that also sets the level.
unfoldable pub set_linear_level : Geometry → ℕ → AddressValid → Address → Address
unfolding set_linear_address
set_linear_level g address l a = record (set_linear_address g address a) { valid = l }

-- `Address(uint address, enum address_valid valid)`: the argument is cut to 32 bits.
unfoldable pub of_linear : Geometry → ℕ → AddressValid → Address
unfolding set_linear_level empty
of_linear g address l = set_linear_level g (u32 address) l (empty 0)

unfoldable pub get_linear_address : Address → ℕ
get_linear_address a = a.real_address

-- `operator+(uint)` and `operator+=(uint)`
unfoldable pub add : Geometry → Address → ℕ → Address
unfolding set_linear_address
add g a i = set_linear_address g (u64 (a.real_address + i)) a

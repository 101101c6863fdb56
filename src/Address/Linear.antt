-- ===== src/Address/Linear.antt =====
-- Splitting a linear address into fields and putting it together again.
use native.Mathlib.Nat.{
  add-zero, mod-eq_of_lt, div-add-mod', div-lt_iff_lt-mul, div-eq_of_lt, mul-add-div_right,
  mul-add-mod_self_right,
}
use test_flash_sim.Base.{ℕ, ◌+◌, ◌*◌, ◌/◌, ◌%◌, ◌<◌, ◌≡◌, arith, u64_mod}
use test_flash_sim.Config.{Geometry}
use test_flash_sim.Address.{
  Address, AddressValid, no_level, set_linear_address, set_linear_level, checked_level, add,
}

pub record IsPositive (g : Geometry) : Type 0 where
  pub ssd : 0 < g.ssd_size
  pub package_pos : 0 < g.package_size
  pub die : 0 < g.die_size
  pub plane : 0 < g.plane_size
  pub block : 0 < g.block_size

-- Every field is an index of the array that it selects from.
pub record InRange (g : Geometry) (a : Address) : Type 0 where
  pub pkg : a.pkg < g.ssd_size
  pub die : a.die < g.package_size
  pub plane : a.plane < g.die_size
  pub block : a.block < g.plane_size
  pub page : a.page < g.block_size

-- The number of a page, counting pages in the order of the arrays.
unfoldable pub linear : Geometry → Address → ℕ
linear g a =
    (((a.pkg * g.package_size + a.die) * g.die_size + a.plane) * g.plane_size + a.block)
      * g.block_size
    + a.page

unfoldable pub capacity : Geometry → ℕ
capacity g = g.ssd_size * g.package_size * g.die_size * g.plane_size * g.block_size

-- The fields that set_linear_address computes lie within the geometry.
pub set_linear_address-InRange :
    (g : Geometry) (n : ℕ) (a : Address) → IsPositive g → InRange g (set_linear_address g n a)
unfolding set_linear_address
set_linear_address-InRange g n a p = grind arith

-- Below the capacity the highest quotient needs no remainder.
top_lem :
    (n b l d p s : ℕ)
    → 0 < b
    → 0 < l
    → 0 < d
    → 0 < p
    → n < s * p * d * l * b
    → n / b / l / d / p % s ≡ n / b / l / d / p
top_lem n b l d p s hb hl hd hp h = mod-eq_of_lt (
    (div-lt_iff_lt-mul hp).1
      ((div-lt_iff_lt-mul hd).1 ((div-lt_iff_lt-mul hl).1 ((div-lt_iff_lt-mul hb).1 h))))

-- In a geometry of positive sizes, the fields that set_linear_address computes, put together,
-- are the address that was given, for every address below the capacity.
pub linear-set_linear_address :
    (g : Geometry) (n : ℕ) (a : Address)
    → IsPositive g
    → n < capacity g
    → linear g (set_linear_address g n a) ≡ n
unfolding set_linear_address linear capacity
linear-set_linear_address g n a p h = rw (
  top_lem n g.block_size g.plane_size g.die_size g.package_size g.ssd_size p.block p.plane p.die
      p.package_pos h,
  div-add-mod' (n / g.block_size / g.plane_size / g.die_size) g.package_size,
  div-add-mod' (n / g.block_size / g.plane_size) g.die_size,
  div-add-mod' (n / g.block_size) g.plane_size,
  div-add-mod' n g.block_size,
)

pub quotient : (q k r : ℕ) → 0 < k → r < k → (q * k + r) / k ≡ q
quotient q k r p h = rw (mul-add-div_right p q r, div-eq_of_lt h) (add-zero q)

pub remainder : (q k r : ℕ) → r < k → (q * k + r) % k ≡ r
remainder q k r h = rw mul-add-mod_self_right (mod-eq_of_lt h)

-- In a geometry of positive sizes, an address whose fields are in range has the fields that
-- set_linear_address computes from its number.
pub set_linear_address-linear :
    (g : Geometry) (a : Address)
    → IsPositive g
    → InRange g a
    → set_linear_address g (linear g a) a ≡ record a { real_address = linear g a }
unfolding set_linear_address linear
set_linear_address-linear g a p r =
    let level4 = a.pkg * g.package_size + a.die in
    let level3 = level4 * g.die_size + a.plane in
    let level2 = level3 * g.plane_size + a.block in
    rw (
      quotient level2 g.block_size a.page p.block r.page,
      quotient level3 g.plane_size a.block p.plane r.block,
      quotient level4 g.die_size a.plane p.die r.plane,
      quotient a.pkg g.package_size a.die p.package_pos r.die,
      remainder level2 g.block_size a.page r.page,
      remainder level3 g.plane_size a.block r.block,
      remainder level4 g.die_size a.plane r.plane,
      remainder a.pkg g.package_size a.die r.die,
      mod-eq_of_lt r.pkg,
    )

-- In a geometry of positive sizes, adding i to an address moves to the i-th page after its
-- linear address, as long as that is below the capacity and no 64-bit number overflows.
pub linear-add :
    (g : Geometry) (a : Address) (i : ℕ)
    → IsPositive g
    → a.real_address + i < u64_mod
    → a.real_address + i < capacity g
    → linear g (add g a i) ≡ a.real_address + i
unfolding add
linear-add g a i p small h =
    rw (mod-eq_of_lt small) (linear-set_linear_address g (a.real_address + i) a p h)

-- In a geometry of positive sizes, an address set to level `l` from any linear address passes
-- its own bounds check at that level.
pub checked_level-set_linear :
    (g : Geometry) (n : ℕ) (l : AddressValid) (a : Address)
    → IsPositive g
    → checked_level g (set_linear_level g n l a) ≡ l
unfolding set_linear_level checked_level
checked_level-set_linear g n no_level a p = ground (arith, set_linear_address-InRange g n a p)
checked_level-set_linear g n l a p = ground (arith, set_linear_address-InRange g n a p)

-- ===== src/Plane.antt =====
-- OriginalFlashSim/ssd_plane.cpp: an array of blocks, with wear statistics and a count of the
-- free blocks. Plane::_merge is in Plane/Merge.antt.
pub mod Merge
pub mod MergeGuard
pub mod Free
pub mod Wear
use test_flash_sim.Base.{
  ℕ, zero, suc, ◌+◌, ◌-◌, ◌*◌, ◌%◌, Bool, true, false, not, ◌&&◌, List, [], ◌∷◌, Run, ok, abort,
  out_of_range, guard, fetch, ◌>>=◌, ◌>>◌, Status, failure, success, if◌then◌else◌, ltb, ◌==◌, set,
  u32, decr32,
}
use test_flash_sim.Config.{Config}
use test_flash_sim.Address.{
  Address, empty, block_level, plane_level, page_level, valid_to, valid_beyond, set_linear_address,
}
use test_flash_sim.Event.{Event}
use test_flash_sim.Memory.{Memory}
use test_flash_sim.Page.{Done, PageState}
use test_flash_sim.Block.{Block, BlockState, free, active, inactive}
use test_flash_sim.Block

-- `blocks` is the source's `data`, an array of `size` blocks.
pub record Plane : Type 0 where
  pub size : ℕ
  pub blocks : List Block
  pub least_worn : ℕ
  pub erases_remaining : ℕ
  pub last_erase_time : ℕ
  pub reg_read_delay : ℕ
  pub reg_write_delay : ℕ
  pub next_page : Address
  pub free_blocks : ℕ

-- The loop of the constructor, with `n` blocks to go from the i-th on.
unfoldable pub new_blocks : Config → ℕ → ℕ → ℕ → List Block
unfolding Block.new
new_blocks c physical_address zero i = []
new_blocks c physical_address (suc n) i =
    Block.new c c.block_size c.block_erases c.block_erase_delay
      (physical_address + u32 (i * c.block_size))
    ∷ new_blocks c physical_address n (suc i)

unfoldable pub new : Config → ℕ → ℕ → ℕ → ℕ → Plane
unfolding new_blocks empty
new c plane_size reg_read_delay reg_write_delay physical_address = record {
  size = plane_size;
  blocks = new_blocks c physical_address plane_size 0;
  least_worn = 0;
  erases_remaining = c.block_erases;
  last_erase_time = 0;
  reg_read_delay = reg_read_delay;
  reg_write_delay = reg_write_delay;
  next_page = record (empty 0) { valid = page_level };
  free_blocks = plane_size;
}

unfoldable pub is_free : BlockState → Bool
is_free free = true
is_free active = false
is_free inactive = false

-- A request that a block has served, with the block back in its place.
unfoldable pub put : Plane → ℕ → Done Block → Done Plane
put p i r = record {
  status = r.status;
  self = record p { blocks = set p.blocks i r.self };
  event = r.event;
  memory = r.memory;
}

unfoldable pub read : Config → Plane → Event → Memory → Run (Done Plane)
unfolding put valid_beyond
read c p e m = do
  guard (ltb e.address.block p.size && valid_beyond e.address plane_level)
  b ← fetch p.blocks e.address.block
  r ← Block.read c b e m
  ok (put p e.address.block r)

-- The method returns on its first line, so that `next_page` never changes.
unfoldable pub get_next_page : Plane → Status × Plane
get_next_page p = (success, p)

-- What a write that leaves FREE does to the count of the free blocks.
unfoldable pub count_used : BlockState → BlockState → Plane → Plane
unfolding is_free
count_used prev state p =
    if is_free prev && not (is_free state)
    then record p { free_blocks = decr32 p.free_blocks }
    else p

unfoldable pub write : Config → Plane → Event → Memory → Run (Done Plane)
unfolding put get_next_page count_used valid_to valid_beyond
write c p e m = do
  guard (
      ltb e.address.block p.size
      && valid_beyond e.address plane_level
      && valid_to p.next_page block_level)
  b ← fetch p.blocks e.address.block
  r ← Block.write c b e m
  let served = put p e.address.block r
  let moved =
      if e.address.block == p.next_page.block then (get_next_page served.self).1 else served.self
  ok (record served { self = count_used b.state r.self.state moved })

-- Its assert reads the address of the event, and its index the replace address.
unfoldable pub replace : Plane → Event → Memory → Run (Done Plane)
unfolding put
replace p e m = do
  guard (ltb e.address.block p.size)
  b ← fetch p.blocks e.replace_address.block
  r ← Block.replace b e m
  ok (put p e.replace_address.block r)

-- The loop of update_wear_stats from the i-th block on. `max` stays what it is.
unfoldable pub wear_loop : ℕ → ℕ → ℕ → List Block → ℕ
wear_loop max best i [] = best
wear_loop max best i (b ∷ bs) =
    wear_loop max (if ltb max b.erases_remaining then i else best) (suc i) bs

unfoldable pub update_wear_stats : Plane → Run Plane
unfolding wear_loop
update_wear_stats p = elim p.blocks [
  | [] ↦ abort out_of_range
  | first ∷ rest ↦ do
    let max_index = wear_loop first.erases_remaining 0 1 rest
    least ← fetch (first ∷ rest) max_index
    ok (record p {
      least_worn = max_index;
      erases_remaining = first.erases_remaining;
      last_erase_time = least.last_erase_time;
    })
]

unfoldable pub erase : Plane → Event → Memory → Run (Done Plane)
unfolding put get_next_page valid_beyond valid_to
erase p e m = do
  guard (ltb e.address.block p.size && valid_beyond e.address plane_level)
  b ← fetch p.blocks e.address.block
  s ← Block.erase b e m
  let r = put p e.address.block s
  elim r.status [
    | failure ↦ ok r
    | success ↦ do
      worn ← update_wear_stats r.self
      let counted = record worn { free_blocks = u32 (worn.free_blocks + 1) }
      ok (record r {
        self = if valid_to counted.next_page page_level then counted else (get_next_page counted).1;
      })
  ]

unfoldable pub get_last_erase_time : Plane → Address → Run ℕ
unfolding valid_beyond
get_last_erase_time p a =
    if valid_beyond a plane_level && ltb a.block p.size
    then (do b ← fetch p.blocks a.block; ok b.last_erase_time)
    else ok p.last_erase_time

unfoldable pub get_erases_remaining : Plane → Address → Run ℕ
unfolding valid_beyond
get_erases_remaining p a =
    if valid_beyond a plane_level && ltb a.block p.size
    then (do b ← fetch p.blocks a.block; ok b.erases_remaining)
    else ok p.erases_remaining

unfoldable pub get_least_worn : Plane → Address → Run Address
get_least_worn p a = do
  guard (ltb p.least_worn p.size)
  ok (record a { block = p.least_worn; valid = block_level })

unfoldable pub get_state : Plane → Address → Run PageState
unfolding valid_to
get_state p a = do
  guard (ltb a.block p.size && valid_to a plane_level)
  b ← fetch p.blocks a.block
  guard (ltb a.page b.size && valid_to a block_level)
  page ← fetch b.pages a.page
  ok page.state

unfoldable pub get_block_state : Plane → Address → Run BlockState
unfolding valid_to
get_block_state p a = do
  guard (ltb a.block p.size && valid_to a plane_level)
  b ← fetch p.blocks a.block
  ok b.state

unfoldable pub get_free_page : Config → Plane → Address → Run Address
unfolding set_linear_address
get_free_page c p a = do
  b ← fetch p.blocks a.block
  guard (ltb b.pages_valid c.block_size)
  let paged = record a { page = b.pages_valid; valid = page_level }
  ok (
      set_linear_address c.geometry
        (paged.real_address + paged.page - paged.real_address % c.block_size) paged)

unfoldable pub get_num_free : Plane → Address → Run ℕ
unfolding valid_to
get_num_free p a = do guard (valid_to a plane_level); ok p.free_blocks

unfoldable pub get_num_valid : Plane → Address → Run ℕ
unfolding valid_to
get_num_valid p a = do guard (valid_to a plane_level); b ← fetch p.blocks a.block; ok b.pages_valid

unfoldable pub get_num_invalid : Plane → Address → Run ℕ
unfolding valid_to
get_num_invalid p a = do
  guard (valid_to a plane_level)
  b ← fetch p.blocks a.block
  ok b.pages_invalid

-- The block itself, where the source returns a pointer to it.
unfoldable pub get_block_pointer : Plane → Address → Run Block
unfolding valid_to
get_block_pointer p a = do guard (valid_to a plane_level); fetch p.blocks a.block

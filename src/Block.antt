-- ===== src/Block.antt =====
-- OriginalFlashSim/ssd_block.cpp: the unit of erasure, with its wear.
pub mod Append
pub mod Counts
pub mod Invariant
pub mod Life
use test_flash_sim.Base.{
  ℕ, suc, ◌+◌, ◌-◌, ◌%◌, Bool, true, false, ◌||◌, Option, none, some, List, [], ◌∷◌, map, Run, ok,
  guard, fetch, ◌>>=◌, ◌>>◌, Status, failure, success, if◌then◌else◌, ltb, leb, set, replicate, u32,
}
use test_flash_sim.Config.{Config}
use test_flash_sim.Address.{Address, page_level, set_linear_level}
use test_flash_sim.Event.{Event, incr_time_taken}
use test_flash_sim.Memory.{Memory}
use test_flash_sim.Page.{Page, Done, PageState, is_empty, is_invalid}
use test_flash_sim.Page

-- `enum block_state`
pub data BlockState : Type 0 where
  free active inactive : BlockState

-- `enum block_type`
pub data BlockType : Type 0 where
  log dat log_seq : BlockType

-- `pages` is the source's `data`. The constructor does not set `btype`: it starts as `none`.
-- `modification_time` starts as -1, here `none`.
pub record Block : Type 0 where
  pub physical_address : ℕ
  pub pages_invalid : ℕ
  pub size : ℕ
  pub pages : List Page
  pub pages_valid : ℕ
  pub state : BlockState
  pub erases_remaining : ℕ
  pub last_erase_time : ℕ
  pub erase_delay : ℕ
  pub modification_time : Option ℕ
  pub btype : Option BlockType

unfoldable pub new : Config → ℕ → ℕ → ℕ → ℕ → Block
unfolding Page.new
new c block_size erases_remaining erase_delay physical_address = record {
  physical_address = physical_address;
  pages_invalid = 0;
  size = block_size;
  pages = replicate block_size (Page.new c.page_read_delay c.page_write_delay);
  pages_valid = 0;
  state = free;
  erases_remaining = erases_remaining;
  last_erase_time = 0;
  erase_delay = erase_delay;
  modification_time = none;
  btype = none;
}

-- The call of Block_manager::update_block.
unfoldable pub notify : Block → Memory → Run Memory
notify b m = do
  replaced ←
      m.update_block m.active_cost
        (record { physical_address = b.physical_address; pages_invalid = b.pages_invalid })
  ok (record m { active_cost = replaced })

unfoldable pub read : Config → Block → Event → Memory → Run (Done Block)
unfolding Page.read
read c b e m = do
  p ← fetch b.pages e.address.page
  r ← Page.read c p e m
  ok (record {
    status = r.status;
    self = record b { pages = set b.pages e.address.page r.self };
    event = r.event;
    memory = r.memory;
  })

-- The block once a page is written.
unfoldable pub written : Block → Event → Block
written b e = record b {
  pages_valid = u32 (b.pages_valid + 1);
  state = active;
  modification_time = some e.start_time;
}

unfoldable pub write : Config → Block → Event → Memory → Run (Done Block)
unfolding Page.write written notify
write c b e m = do
  p ← fetch b.pages e.address.page
  r ← Page.write c p e m
  let stored = record b { pages = set b.pages e.address.page r.self }
  if e.noop
      then ok (record { status = r.status; self = stored; event = r.event; memory = r.memory })
      else (do
        noted ← notify (written stored r.event) r.memory
        ok (record {
          status = r.status;
          self = written stored r.event;
          event = r.event;
          memory = noted;
        }))

-- The block once the state of a page is set to INVALID and counted.
unfoldable pub counted : Block → ℕ → Page → Block
unfolding Page.set_state
counted b page p = record b {
  pages = set b.pages page (Page.set_state p Page.invalid);
  pages_invalid = u32 (b.pages_invalid + 1);
}

-- The state that invalidate_page derives from the counters.
unfoldable pub derived_state : Block → BlockState
derived_state b =
    if leb b.size b.pages_invalid
    then inactive
    else if ltb 0 b.pages_valid || ltb 0 b.pages_invalid
    then active
    else free

unfoldable pub invalidate_page : Block → ℕ → Memory → Run (Block × Memory)
unfolding counted derived_state notify
invalidate_page b page m = do
  guard (ltb page b.size)
  p ← fetch b.pages page
  if is_invalid p.state then ok (b, m) else (do
    noted ← notify (counted b page p) m
    ok (record (counted b page p) { state = derived_state (counted b page p) }, noted))

unfoldable pub replace : Block → Event → Memory → Run (Done Block)
unfolding invalidate_page
replace b e m = do
  (b', m') ← invalidate_page b e.replace_address.page m
  ok (record { status = success; self = b'; event = e; memory = m' })

-- The block once it is erased.
unfoldable pub erased : Block → Event → Block
unfolding Page.set_state
erased b e = record b {
  pages = map (λ p. Page.set_state p Page.empty) b.pages;
  last_erase_time = e.start_time + e.time_taken;
  erases_remaining = b.erases_remaining - 1;
  pages_valid = 0;
  pages_invalid = 0;
  state = free;
}

-- `Block::_erase`
unfoldable pub erase : Block → Event → Memory → Run (Done Block)
unfolding erased notify incr_time_taken
erase b e m =
    let timed = incr_time_taken e b.erase_delay in
    if e.noop
    then ok (record { status = success; self = b; event = e; memory = m })
    else (if ltb b.erases_remaining 1
        then ok (record { status = failure; self = b; event = e; memory = m })
        else (do
          noted ← notify (erased b timed) m
          ok (record { status = success; self = erased b timed; event = timed; memory = noted })))

-- `Block::get_state(uint page)`
unfoldable pub page_state : Block → ℕ → Run PageState
page_state b page = do guard (ltb page b.size); p ← fetch b.pages page; ok p.state

-- The index of the first empty page, counting from `i`.
unfoldable pub first_empty : List Page → ℕ → Option ℕ
first_empty [] i = none
first_empty (p ∷ ps) i = if is_empty p.state then some i else first_empty ps (suc i)

unfoldable pub get_next_page : Config → Block → Address → Status × Address
unfolding first_empty set_linear_level
get_next_page c b a = elim (first_empty b.pages 0) [
  | none ↦ (failure, a)
  | some i ↦ (
    success,
    set_linear_level c.geometry (i + b.physical_address - b.physical_address % c.block_size)
        page_level a,
  )
]

unfoldable pub set_block_type : Block → BlockType → Block
set_block_type b t = record b { btype = some t }

-- ===== src/Plane/Merge.antt =====
-- Plane::_merge of OriginalFlashSim/ssd_plane.cpp: moving the valid pages of one block to the
-- empty pages of another.
use test_flash_sim.Base.{
  ℕ, zero, suc, ◌+◌, ◌-◌, true, false, ◌&&◌, Run, ok, guard, fetch, ◌>>=◌, ◌>>◌, Status, failure,
  success, if◌then◌else◌, ltb, leb, ◌==◌, set,
}
use test_flash_sim.Config.{Config}
use test_flash_sim.Address.{
  compare, rank, plane_level, block_level, page_level, valid_to, valid_beyond,
}
use test_flash_sim.Event.{Event, set_address, incr_time_taken}
use test_flash_sim.Event
use test_flash_sim.Memory.{Memory}
use test_flash_sim.Page.{Done, is_empty, is_valid}
use test_flash_sim.Block.{Block}
use test_flash_sim.Block
use test_flash_sim.Block.Counts.{empties, valids}
use test_flash_sim.Plane.{Plane, get_next_page}

-- The variables of the loop. `read_page` and `write_page` are the `page` fields of the local
-- addresses `read` and `write`; the events hold copies of these addresses, made before the loop.
record Moving : Type 0 where
  plane : Plane
  memory : Memory
  read_event : Event
  write_event : Event
  read_page : ℕ
  write_page : ℕ
  num_merged : ℕ
  errors : ℕ
  total_delay : ℕ

one_if_failed : Status → ℕ
one_if_failed success = 0
one_if_failed failure = 1

-- The first empty page from `from` on, or the size of the block.
next_empty : ℕ → ℕ → Block → Run ℕ
next_empty zero from b = ok from
next_empty (suc left) from b = do
  state ← Block.page_state b from
  let rest = next_empty left (suc from) b
  if is_empty state then ok from else rest

-- Reading a page into the register and marking it INVALID.
take_page : Config → ℕ → Moving → Run Moving
take_page c source s = do
  b ← fetch s.plane.blocks source
  r ← Block.read c b s.read_event s.memory
  (b', m) ← Block.invalidate_page r.self s.read_page r.memory
  let plane = s.plane
  ok (record s {
    plane = record plane { blocks = set plane.blocks source b' };
    memory = m;
    read_event = r.event;
    errors = s.errors + one_if_failed r.status;
    total_delay = s.total_delay + plane.reg_write_delay;
  })

-- Writing it to the next empty page, if there is one.
give_page : Config → ℕ → Moving → Run Moving
unfolding next_empty
give_page c target s = do
  b ← fetch s.plane.blocks target
  next ← next_empty (b.size - s.write_page) s.write_page b
  if ltb next b.size
      then (do
        r ← Block.write c b s.write_event s.memory
        let plane = s.plane
        ok (record s {
          plane = record plane { blocks = set plane.blocks target r.self };
          memory = r.memory;
          write_event = r.event;
          write_page = next;
          num_merged = s.num_merged + 1;
          errors = s.errors + one_if_failed r.status;
          total_delay = s.total_delay + plane.reg_read_delay;
        }))
      else ok (record s { write_page = next })

-- The outer loop, with `left` pages of the source block to go.
move_pages : Config → ℕ → ℕ → ℕ → ℕ → Moving → Run Moving
unfolding take_page give_page one_if_failed
move_pages c source target merge_count zero s = ok s
move_pages c source target merge_count (suc left) s = elim (ltb s.num_merged merge_count) [
  | false ↦ ok s
  | true ↦ do
    b ← fetch s.plane.blocks source
    state ← Block.page_state b s.read_page
    s' ← if is_valid state then take_page c source s >>= give_page c target else ok s
    move_pages c source target merge_count left (record s' { read_page = suc s'.read_page })
]

-- A merge of the pages, once the checks are passed.
merge_blocks : Config → Plane → Event → Memory → Block → ℕ → Run (Done Plane)
unfolding move_pages
merge_blocks c p e m source merge_count = do
  let read = record (e.address) { page = 0; valid = page_level }
  let write = record (e.merge_address) { page = 0; valid = page_level }
  s ← move_pages c e.address.block e.merge_address.block merge_count source.size (record {
    plane = p;
    memory = m;
    read_event = set_address (Event.new Event.read 0 1 e.start_time) read;
    write_event = set_address (Event.new Event.write 0 1 e.start_time) write;
    read_page = 0;
    write_page = 0;
    num_merged = 0;
    errors = 0;
    total_delay = 0;
  })
  let delay = s.total_delay + s.read_event.time_taken + s.write_event.time_taken
  let plane = s.plane
  ok (record {
    status = if s.errors == 0 then success else failure;
    self = if valid_to plane.next_page page_level then plane else (get_next_page plane).1;
    event = incr_time_taken e delay;
    memory = s.memory;
  })

unfoldable pub merge : Config → Plane → Event → Memory → Run (Done Plane)
unfolding merge_blocks valid_beyond valid_to rank
merge c p e m = do
  guard (ltb e.address.block p.size && valid_beyond e.address plane_level)
  guard (leb (rank block_level) (rank (compare e.address e.merge_address)))
  guard (ltb e.address.block p.size && ltb e.merge_address.block p.size)
  source ← fetch p.blocks e.address.block
  target ← fetch p.blocks e.merge_address.block
  let merge_count = valids source.pages
  if ltb (empties target.pages) merge_count
      then ok (record { status = failure; self = p; event = e; memory = m })
      else merge_blocks c p e m source merge_count

-- ===== src/Fast/Writes.antt =====
-- write_to_log_block of OriginalFlashSim/FTLs/fast_ftl.cpp.
use test_flash_sim.Base.{
  ℕ, ◌+◌, ◌-◌, ◌*◌, ◌%◌, true, false, some, List, [], ◌∷◌, ◌++◌, Run, ok, abort, null_pointer,
  fetch, ◌>>=◌, if◌then◌else◌, ◌==◌, set, u32, u32_mod,
}
use test_flash_sim.Options.{Options}
use test_flash_sim.Address.{page_level, add}
use test_flash_sim.Event.{set_address}
use test_flash_sim.Block.{log, dat}
use test_flash_sim.Controller.{Controller}
use test_flash_sim.BlockManager.{get_free_block, invalidate}
use test_flash_sim.Fast.{LogBlock, State, new_log_block, lbn_offset, is_entry}
use test_flash_sim.Fast.Merging.{switch_sequential, merge_sequential}
use test_flash_sim.Fast.Logs.{random_merge}

-- Where a write to the RW log goes: the block with the new entry, and the list with it. The first
-- block that is not full takes the page.
unfoldable pub place_entry : ℕ → ℕ → ℕ → List LogBlock → Run (LogBlock × List LogBlock)
place_entry block_size la slot [] = abort null_pointer
place_entry block_size la slot (b ∷ rest) = elim (b.num_pages == block_size) [
  | true ↦ do (c, later) ← place_entry block_size la slot rest; ok (c, b ∷ later)
  | false ↦ do
    _ ← fetch b.a_pages slot
    let entered = record b { a_pages = set b.a_pages slot (some la); num_pages = b.num_pages + 1 }
    ok (entered, entered ∷ rest)
]

module _ {S : Type 0} (k : Controller S) (o : Options) where
  -- The page goes to the first page of a new SW block.
  unfoldable pub open_sequential : ℕ → State S → Run (State S)
  unfolding set_address
  open_sequential lba s = do
    (a, e, w) ← get_free_block k o dat s.event s.world
    ok (record {
      event = set_address e a;
      ftl = record s.ftl {
        sequential_offset = 1;
        sequential_address = a;
        sequential_logicalblock_address = some lba;
      };
      world = w;
    })

  -- The page goes behind the last one of the SW block.
  unfoldable pub append_sequential : State S → State S
  unfolding set_address
  append_sequential s = record s {
    event = set_address s.event (k.get_free_page s.world.device s.ftl.sequential_address);
    ftl = record s.ftl { sequential_offset = u32 (s.ftl.sequential_offset + 1) };
  }

  -- A new log block at the end of the list. With no other block the source follows a null pointer.
  unfoldable pub extend_log : State S → Run (State S)
  unfolding new_log_block
  extend_log s = do
    (a, e, w) ← get_free_block k o log s.event s.world
    elim s.ftl.log_pages [
      | [] ↦ abort null_pointer
      | b ∷ rest ↦ ok (record {
        event = e;
        ftl = record s.ftl { log_pages = s.ftl.log_pages ++ new_log_block o a ∷ [] };
        world = w;
      })
    ]

  -- The first log block leaves the list once its pages are merged.
  unfoldable pub recycle_log : State S → Run (State S)
  unfolding random_merge invalidate extend_log
  recycle_log s = elim s.ftl.log_pages [
    | [] ↦ abort null_pointer
    | victim ∷ _ ↦ do
      t ← random_merge k o victim s
      elim t.ftl.log_pages [
        | [] ↦ abort null_pointer
        | head ∷ rest ↦ do
          u ← extend_log (record t {
            ftl = record t.ftl { log_pages = rest };
            world = invalidate k o victim.address log t.world;
          })
          ok (record u {
            ftl = record u.ftl {
              log_page_next = u32 (u.ftl.log_page_next + (u32_mod - u32 o.block_size));
            };
          })
      ]
  ]

  -- The page goes to the RW log.
  unfoldable pub append_log : State S → Run (State S)
  unfolding place_entry set_address add
  append_log s = do
    let slot = s.ftl.log_page_next % o.block_size
    (b, blocks) ← place_entry o.block_size s.event.logical_address slot s.ftl.log_pages
    ok (record s {
      event = set_address s.event (add o.geometry (record b.address { valid = page_level }) slot);
      ftl = record s.ftl { log_pages = blocks; log_page_next = u32 (s.ftl.log_page_next + 1) };
    })

  unfoldable pub write_random : State S → Run (State S)
  unfolding recycle_log append_log
  write_random s = do
    t ←
        if s.ftl.log_page_next == u32 (o.fast_log_block_limit * o.block_size)
        then recycle_log s
        else ok s
    append_log t

  -- Case 1 of the paper: the first page of the logical block.
  unfoldable pub write_first : ℕ → State S → Run (State S)
  unfolding switch_sequential merge_sequential open_sequential
  write_first lba s = do
    t ←
        if s.ftl.sequential_offset == o.block_size
        then switch_sequential k o s
        else merge_sequential k o s
    open_sequential lba t

  -- A page of the owner of the SW block.
  unfoldable pub write_owned : ℕ → State S → Run (State S)
  unfolding lbn_offset append_sequential merge_sequential open_sequential
  write_owned lba s =
      if lbn_offset o s.event == s.ftl.sequential_offset
      then ok (append_sequential s)
      else (do t ← merge_sequential k o s; open_sequential lba t)

  unfoldable pub write_to_log_block : ℕ → State S → Run (State S)
  unfolding lbn_offset is_entry write_first write_owned write_random
  write_to_log_block lba s =
      if lbn_offset o s.event == 0
      then write_first lba s
      else (if is_entry lba s.ftl.sequential_logicalblock_address
          then write_owned lba s
          else write_random s)

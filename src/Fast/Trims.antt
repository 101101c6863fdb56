-- ===== src/Fast/Trims.antt =====
-- FtlImpl_Fast::trim of OriginalFlashSim/FTLs/fast_ftl.cpp.
use test_flash_sim.Base.{
  ℕ, ◌+◌, true, none, some, Run, ok, abort, null_pointer, fetch, ◌>>=◌, Status, if◌then◌else◌,
}
use test_flash_sim.Options.{Options}
use test_flash_sim.Address.{Address, page_level, of_linear, get_linear_address}
use test_flash_sim.Event.{Event, set_address, set_noop}
use test_flash_sim.Block.{log}
use test_flash_sim.Controller.{Controller}
use test_flash_sim.BlockManager.{World, erase_and_invalidate, insert_events}
use test_flash_sim.Bast.Trims.{is_inactive}
use test_flash_sim.Fast.{
  LogBlock, Fast, State, logical_block, lbn_offset, set_data, find_logged, initialize_log_pages,
}
use test_flash_sim.Fast.Logs.{set_entry}
use test_flash_sim.Fast.Requests.{is_in_sequential, finish}

module _ {S : Type 0} (k : Controller S) (o : Options) where
  -- The block of a page is erased once none of its pages is valid.
  unfoldable pub erase_if_inactive :
      ℕ → Address → (State S → Run (State S)) → State S → Run (State S)
  unfolding is_inactive
  erase_if_inactive p a forget s =
      if is_inactive (k.block s.world.device p).state
      then (do
        (e, w) ← erase_and_invalidate k o s.event a log s.world
        forget (record s { event = e; world = w }))
      else ok s

  -- `block->invalidate_page(address.page)`, with the block.
  unfoldable pub invalidate_at : Address → State S → Run (ℕ × State S)
  invalidate_at a s = elim (k.get_block_pointer s.world.device a) [
    | none ↦ abort null_pointer
    | some p ↦ do
      device ← k.invalidate_page s.world.device p a.page
      ok (p, record s { world = record s.world { device = device } })
  ]

  unfoldable pub forget_data : ℕ → State S → Run (State S)
  unfolding set_data
  forget_data lba s = do f ← set_data lba none s.ftl; ok (record s { ftl = f })

  unfoldable pub forget_sequential : State S → Run (State S)
  forget_sequential s =
      ok (record s { ftl = record s.ftl { sequential_logicalblock_address = none } })

  -- The page is in a RW log block.
  unfoldable pub trim_logged : ℕ → ℕ → LogBlock → ℕ → State S → Run (State S)
  unfolding invalidate_at set_entry erase_if_inactive forget_data get_linear_address
  trim_logged lba i b j s = do
    let a = of_linear o.geometry (get_linear_address b.address + j) page_level
    (p, t) ← invalidate_at a s
    erase_if_inactive p b.address (forget_data lba) (set_entry i b j none t)

  -- It is in the SW block.
  unfoldable pub trim_sequential : State S → Run (State S)
  unfolding lbn_offset invalidate_at erase_if_inactive forget_sequential get_linear_address
  trim_sequential s = do
    let linear = get_linear_address s.ftl.sequential_address + lbn_offset o s.event
    let a = of_linear o.geometry linear page_level
    (p, t) ← invalidate_at a s
    erase_if_inactive p a forget_sequential t

  -- It is in the data block, if there is one.
  unfoldable pub trim_data : ℕ → State S → Run (State S)
  unfolding lbn_offset invalidate_at erase_if_inactive forget_data
  trim_data lba s = do
    base ← fetch s.ftl.data_list lba
    elim base [
      | none ↦ ok s
      | some d ↦ do
        let a = of_linear o.geometry (d + lbn_offset o s.event) page_level
        (p, t) ← invalidate_at a s
        erase_if_inactive p a (forget_data lba) t
    ]

  unfoldable pub trim_page : State S → Run (State S)
  unfolding find_logged logical_block trim_logged is_in_sequential trim_sequential trim_data
  trim_page s = do
    place ← find_logged s.event.logical_address s.ftl.log_pages 0
    elim place [
      | some (i, b, j) ↦ trim_logged (logical_block s.ftl s.event) i b j s
      | none ↦
          if is_in_sequential o s.ftl s.event
          then trim_sequential s
          else trim_data (logical_block s.ftl s.event) s
    ]

  unfoldable pub trim : Event → Fast → World S → Run (Status × State S)
  unfolding initialize_log_pages trim_page finish set_address set_noop
  trim e f w = do
    (g, w') ← initialize_log_pages k o f w
    t ← trim_page (record { event = e; ftl = g; world = w' })
    (e', w'') ←
        insert_events k o (set_address (set_noop t.event true) (of_linear o.geometry 0 page_level))
          t.world
    finish k (record t {
      event = e';
      world = record w'' { stats = record w''.stats { num_ftl_trim = w''.stats.num_ftl_trim + 1 } };
    })

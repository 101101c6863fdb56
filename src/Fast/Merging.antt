-- ===== src/Fast/Merging.antt =====
-- switch_sequential and merge_sequential of OriginalFlashSim/FTLs/fast_ftl.cpp, and the copy of a
-- page that they share with random_merge.
use test_flash_sim.Base.{
  ℕ, zero, suc, ◌+◌, Option, none, some, Run, ok, abort, out_of_range, fetch, ◌>>=◌, Status,
  success, failure, if◌then◌else◌, ltb,
}
use test_flash_sim.Options.{Options}
use test_flash_sim.Address.{
  Address, empty, page_level, block_level, of_linear, set_linear_level, get_linear_address,
}
use test_flash_sim.Event.{Event, set_address, set_payload, incr_time_taken}
use test_flash_sim.Event
use test_flash_sim.Page.{is_valid}
use test_flash_sim.Block.{dat}
use test_flash_sim.Controller.{Controller}
use test_flash_sim.BlockManager.{
  World, get_free_block, get_num_free_blocks, insert_events, invalidate,
}
use test_flash_sim.Bast.Merging.{count_copy}
use test_flash_sim.Fast.{State, set_data, update_map_block}

module _ {S : Type 0} (k : Controller S) (o : Options) where
  unfoldable pub drop_data_block : Option ℕ → State S → State S
  unfolding invalidate
  drop_data_block none s = s
  drop_data_block (some d) s = record s {
    world = invalidate k o (of_linear o.geometry d block_level) dat s.world;
  }

  -- The owner of the SW block as an index of `data_list`: the index -1 is out of range.
  unfoldable pub owner : State S → Run ℕ
  owner s = elim s.ftl.sequential_logicalblock_address [
    | none ↦ abort out_of_range
    | some lba ↦ ok lba
  ]

  -- The SW block becomes the data block.
  unfoldable pub switch_sequential : State S → Run (State S)
  unfolding owner drop_data_block set_data update_map_block get_linear_address
  switch_sequential s = do
    lba ← owner s
    old ← fetch s.ftl.data_list lba
    let dropped = drop_data_block old s
    f ← set_data lba (some (get_linear_address dropped.ftl.sequential_address)) dropped.ftl
    t ← update_map_block k o (record dropped { ftl = f })
    ok (record t {
      world = record t.world {
        stats = record t.world.stats {
          num_log_merge_switch = t.world.stats.num_log_merge_switch + 1;
        };
      };
    })

  -- A read and a write. The loops stop at the first that fails.
  unfoldable pub copy_page : Address → ℕ → State S → Run (Status × State S)
  unfolding set_address set_payload incr_time_taken count_copy
  copy_page from to s = do
    (could_read, read, device) ←
        k.issue
          (set_address (Event.new Event.read s.event.logical_address 1 s.event.start_time) from)
          s.world.device
    let write_event =
        Event.new Event.write s.event.logical_address 1 (s.event.start_time + read.time_taken)
    let after_read = record s { world = record s.world { device = device } }
    elim could_read [
      | failure ↦ ok (failure, after_read)
      | success ↦ do
        (could_write, written, device') ←
            k.issue
              (set_address (set_payload write_event (k.page_data device from.real_address))
                (of_linear o.geometry to page_level))
              device
        ok (elim could_write [
          | failure ↦ (failure, record s { world = record s.world { device = device' } })
          | success ↦ (
            success,
            record s {
              event = incr_time_taken s.event (written.time_taken + read.time_taken);
              world = record s.world { stats = count_copy s.world.stats; device = device' };
            },
          )
        ])
    ]

  -- Where the i-th page of the owner is: in the SW block, in the data block, or nowhere.
  unfoldable pub page_source : Option ℕ → ℕ → State S → Option Address
  unfolding get_linear_address set_linear_level empty
  page_source old i s =
      let seq = of_linear o.geometry (get_linear_address s.ftl.sequential_address + i) page_level in
      let in_data : Option Address = elim old [
        | none ↦ none
        | some d ↦
            if is_valid (k.get_state s.world.device (of_linear o.geometry (d + i) page_level))
            then some (set_linear_level o.geometry (d + i) page_level (empty 0))
            else none
      ] in
      if is_valid (k.get_state s.world.device seq) then some seq else in_data

  -- The loop over the pages of the block, from the i-th on.
  unfoldable pub copy_pages : Option ℕ → ℕ → ℕ → ℕ → State S → Run (Status × State S)
  unfolding page_source copy_page
  copy_pages old to i zero s = ok (success, s)
  copy_pages old to i (suc n) s = elim (page_source old i s) [
    | none ↦ copy_pages old to (suc i) n s
    | some from ↦ do
      (status, t) ← copy_page from (to + i) s
      elim status [ failure ↦ ok (failure, t) | success ↦ copy_pages old to (suc i) n t ]
  ]

  -- `if (get_num_free_blocks() < 5) insert_events(event)`
  unfoldable pub replenish : Event → World S → Run (Event × World S)
  unfolding get_num_free_blocks
  replenish e w =
      if ltb (get_num_free_blocks o w.manager) 5 then insert_events k o e w else ok (e, w)

  -- The end of merge_sequential, once the pages are copied.
  unfoldable pub install : ℕ → Option ℕ → ℕ → State S → Run (State S)
  unfolding drop_data_block set_data update_map_block invalidate
  install lba old to s = do
    let released = record s { world = invalidate k o s.ftl.sequential_address dat s.world }
    let dropped = drop_data_block old released
    f ← set_data lba (some to) dropped.ftl
    update_map_block k o (record dropped {
      ftl = f;
      world = record dropped.world {
        stats = record dropped.world.stats {
          num_log_merge_full = dropped.world.stats.num_log_merge_full + 1;
        };
      };
    })

  -- The pages of the SW block and of the data block go to a new data block. Where a copy fails, the
  -- rest is left out.
  unfoldable pub merge_owned : ℕ → State S → Run (State S)
  unfolding replenish copy_pages install get_linear_address
  merge_owned lba s = do
    (fresh, e, w) ← get_free_block k o dat s.event s.world
    (e', w') ← replenish e w
    old ← fetch s.ftl.data_list lba
    let to = get_linear_address fresh
    (status, t) ← copy_pages old to 0 o.block_size (record s { event = e'; world = w' })
    elim status [ failure ↦ ok t | success ↦ install lba old to t ]

  unfoldable pub merge_sequential : State S → Run (State S)
  unfolding merge_owned
  merge_sequential s = elim s.ftl.sequential_logicalblock_address [
    | none ↦ ok s
    | some lba ↦ merge_owned lba s
  ]

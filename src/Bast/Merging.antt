-- ===== src/Bast/Merging.antt =====
-- The merge of a log block with its data block, of OriginalFlashSim/FTLs/bast_ftl.cpp.
use test_flash_sim.Base.{
  ℕ, zero, suc, ◌+◌, ◌-◌, ◌%◌, ◌||◌, Option, none, some, Run, ok, fetch, ◌>>=◌, if◌then◌else◌, ltb,
  length, set,
}
use test_flash_sim.Options.{Options}
use test_flash_sim.Address.{Address, empty, page_level, of_linear, set_linear_level}
use test_flash_sim.Event.{
  Event, set_address, set_noop, set_payload, set_replace_address, incr_time_taken,
}
use test_flash_sim.Event
use test_flash_sim.Page.{is_empty, is_invalid}
use test_flash_sim.Block.{log, dat}
use test_flash_sim.Stats.{Stats}
use test_flash_sim.Controller.{Controller}
use test_flash_sim.BlockManager.{erase_and_invalidate, get_free_block}
use test_flash_sim.Bast.{
  LogPageBlock, State, new_log_block, assign, dispose_logblock, update_map_block, drop_data_block,
  is_sequential,
}

-- The counters of one copied page.
unfoldable pub count_copy : Stats → Stats
count_copy c = record c {
  num_ftl_read = c.num_ftl_read + 1;
  num_ftl_write = c.num_ftl_write + 1;
  num_wl_read = c.num_wl_read + 1;
  num_wl_write = c.num_wl_write + 1;
}

module _ {S : Type 0} (k : Controller S) (o : Options) (random : ℕ → ℕ) where
  -- Where the i-th page of a logical block is, if anywhere.
  unfoldable pub page_source : LogPageBlock → Option ℕ → ℕ → Run (Option Address)
  unfolding set_linear_level empty
  page_source b old i = do
    p ← fetch b.pages i
    ok (elim p [
      | some j ↦
          some (set_linear_level o.geometry (b.address.real_address + j) page_level (empty 0))
      | none ↦ elim old [
        | none ↦ none
        | some d ↦ some (set_linear_level o.geometry (d + i) page_level (empty 0))
      ]
    ])

  -- A read and a write, which are not asked for their status.
  unfoldable pub copy_page : Address → ℕ → State S → Run (State S)
  unfolding set_address set_payload set_replace_address incr_time_taken count_copy
  copy_page from to s = do
    (_, read, device) ←
        k.issue
          (set_address (Event.new Event.read s.event.logical_address 1 s.event.start_time) from)
          s.world.device
    let write_event =
        Event.new Event.write s.event.logical_address 1 (s.event.start_time + read.time_taken)
    (_, written, device') ←
        k.issue
          (set_replace_address
            (set_payload (set_address write_event (of_linear o.geometry to page_level))
              (k.page_data device from.real_address))
            from)
          device
    ok (record s {
      event = incr_time_taken s.event (written.time_taken + read.time_taken);
      world = record s.world { stats = count_copy s.world.stats; device = device' };
    })

  -- The loop over the pages of the block, from the i-th on.
  unfoldable pub copy_pages : LogPageBlock → Option ℕ → ℕ → ℕ → ℕ → State S → Run (State S)
  unfolding page_source copy_page
  copy_pages b old to i zero s = ok s
  copy_pages b old to i (suc n) s = do
    source ← page_source b old i
    t ← elim source [
      | none ↦ ok s
      | some from ↦
          if is_empty (k.get_state s.world.device from)
            || is_invalid (k.get_state s.world.device from)
          then ok s
          else copy_page from (to + i) s
    ]
    copy_pages b old to (suc i) n t

  -- The pages of the log block and the data block go to a new data block.
  unfoldable pub random_merge : LogPageBlock → ℕ → State S → Run (State S)
  unfolding copy_pages drop_data_block update_map_block dispose_logblock
  random_merge b lba s = do
    (fresh, e, w) ← get_free_block k o dat s.event s.world
    old ← fetch s.ftl.data_list lba
    t ← copy_pages b old fresh.real_address 0 o.block_size (record s { event = e; world = w })
    (e', w') ← erase_and_invalidate k o t.event b.address log t.world
    u ← drop_data_block k o old (record t { event = e'; world = w' })
    v ← update_map_block k o (record u {
      ftl = record u.ftl { data_list = set u.ftl.data_list lba (some fresh.real_address) };
    })
    ok (
        dispose_logblock lba (record v {
          world = record v.world {
            stats = record v.world.stats {
              num_log_merge_full = v.world.stats.num_log_merge_full + 1;
            };
          };
        }))

  -- `if (!is_sequential(...)) random_merge(...)`
  unfoldable pub merge : LogPageBlock → ℕ → State S → Run (State S)
  unfolding is_sequential random_merge
  merge b lba s = do
    (sequential, t) ← is_sequential k o b lba s
    if sequential then ok t else random_merge b lba t

  -- The place of the victim: `random()%size-1`, where -1 means the first.
  unfoldable pub victim : State S → ℕ
  victim s = random s.ftl.drawn % length s.ftl.log_map - 1

  -- A log block is merged if there are as many as allowed. With none allowed the remainder by
  -- the size 0 is undefined; it and an empty map end out of range.
  unfoldable pub make_room : State S → Run (State S)
  unfolding victim merge
  make_room s = if ltb (length s.ftl.log_map) o.bast_log_block_limit then ok s else (do
    (lba, b) ← fetch s.ftl.log_map (victim s)
    t ← merge b lba (record s { ftl = record s.ftl { drawn = s.ftl.drawn + 1 } })
    ok (record t {
      world = record t.world {
        stats = record t.world.stats {
          num_page_block_to_page_conversion = t.world.stats.num_page_block_to_page_conversion + 1;
        };
      };
    }))

  unfoldable pub allocate_new_logblock : ℕ → State S → Run (State S)
  unfolding make_room new_log_block assign
  allocate_new_logblock lba s = do
    t ← make_room s
    (a, e, w) ← get_free_block k o log t.event t.world
    ok (record {
      event = e;
      ftl = record t.ftl { log_map = assign lba (new_log_block o a) t.ftl.log_map };
      world = w;
    })

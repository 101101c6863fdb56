-- ===== src/Bast/Trims.antt =====
-- FtlImpl_Bast::trim of OriginalFlashSim/FTLs/bast_ftl.cpp.
use test_flash_sim.Base.{
  ℕ, ◌+◌, ◌%◌, Bool, true, false, Option, none, some, Run, ok, abort, null_pointer, fetch, ◌>>=◌,
  Status, if◌then◌else◌, set,
}
use test_flash_sim.Options.{Options}
use test_flash_sim.Address.{Address, empty, page_level, of_linear}
use test_flash_sim.Event.{Event, set_address, set_noop}
use test_flash_sim.Block.{BlockState, inactive, log, dat}
use test_flash_sim.Controller.{Controller}
use test_flash_sim.BlockManager.{World, erase_and_invalidate}
use test_flash_sim.Bast.{LogPageBlock, Bast, State, logical_block, find, assign, dispose_logblock}
use test_flash_sim.Bast.Requests.{logged, page_of, finish, count_memory_read}

unfoldable pub is_inactive : BlockState → Bool
is_inactive inactive = true
is_inactive _ = false

module _ {S : Type 0} (k : Controller S) (o : Options) where
  -- A page of the log block goes, and with the last valid one the block.
  unfoldable pub trim_log : LogPageBlock → ℕ → ℕ → State S → Run (Address × State S)
  unfolding assign page_of is_inactive dispose_logblock
  trim_log b lba j s = do
    let a = of_linear o.geometry (b.address.real_address + j) page_level
    elim (k.get_block_pointer s.world.device a) [
      | none ↦ abort null_pointer
      | some p ↦ do
        device ← k.invalidate_page s.world.device p a.page
        let unmapped : State S = record s {
          ftl = record s.ftl {
            log_map =
                assign lba (record b { pages = set b.pages (page_of o s.event) none })
                  s.ftl.log_map;
          };
          world = record s.world { device = device };
        }
        if is_inactive (k.block device p).state
            then (do
              let disposed = dispose_logblock lba unmapped
              (e', w') ← erase_and_invalidate k o disposed.event a log disposed.world
              ok (a, record disposed { event = e'; world = w' }))
            else ok (a, unmapped)
    ]

  -- The same for the page of the data block.
  unfoldable pub trim_data : ℕ → ℕ → State S → Run (State S)
  unfolding is_inactive
  trim_data d lba s = do
    let a = of_linear o.geometry (d + s.event.logical_address % o.block_size) page_level
    elim (k.get_block_pointer s.world.device a) [
      | none ↦ abort null_pointer
      | some p ↦ do
        device ← k.invalidate_page s.world.device p a.page
        if is_inactive (k.block device p).state
            then (do
              (e', w') ← erase_and_invalidate k o s.event a dat (record s.world { device = device })
              ok (record {
                event = e';
                ftl = record s.ftl { data_list = set s.ftl.data_list lba none };
                world = w';
              }))
            else ok (record s { world = record s.world { device = device } })
    ]

  unfoldable pub trim_logged : Option LogPageBlock → ℕ → State S → Run (Address × State S)
  unfolding logged page_of trim_log empty
  trim_logged none lba s = ok (empty 0, s)
  trim_logged (some b) lba s = do
    place ← logged (some b) (page_of o s.event)
    elim place [ none ↦ ok (empty 0, s) | some j ↦ trim_log b lba j s ]

  unfoldable pub trim : Event → Bast → World S → Run (Status × State S)
  unfolding logical_block find count_memory_read trim_logged trim_data finish set_address set_noop
  trim e f w = do
    let lba = logical_block f e
    (a, s) ←
        trim_logged (find lba f.log_map) lba
          (record { event = e; ftl = f; world = count_memory_read w })
    base ← fetch s.ftl.data_list lba
    t ← elim base [ none ↦ ok s | some d ↦ trim_data d lba s ]
    finish k (record t {
      event = set_noop (set_address t.event a) true;
      world = record t.world {
        stats = record t.world.stats { num_ftl_trim = t.world.stats.num_ftl_trim + 1 };
      };
    })

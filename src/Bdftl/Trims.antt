-- ===== src/Bdftl/Trims.antt =====
-- FtlImpl_BDftl::trim of OriginalFlashSim/FTLs/bdftl_ftl.cpp, and what it does to a block that was
-- never written.
use test_flash_sim.Base.{
  ℕ, ◌+◌, ◌-◌, ◌*◌, ◌%◌, true, Option, none, some, List, Run, ok, abort, null_pointer, out_of_range,
  fetch, ◌>>=◌, Status, if◌then◌else◌, ltb, length, set, u32,
}
use test_flash_sim.Options.{Options}
use test_flash_sim.Address.{page_level, of_linear}
use test_flash_sim.Event.{Event, set_address, set_noop}
use test_flash_sim.Block.{dat}
use test_flash_sim.Controller.{Controller}
use test_flash_sim.BlockManager.{World, erase_and_invalidate}
use test_flash_sim.Bast.Trims.{is_inactive}
use test_flash_sim.Dftl.{MPage}
use test_flash_sim.Dftl.Requests.{unmap}
use test_flash_sim.PageFtl.{all_trimmed}
use test_flash_sim.Bdftl.{BPage, Bdftl, State, no_block, new_bpage, with_pages}
use test_flash_sim.Bdftl.Requests.{finish, dlbn, charge, count_memory_writes}

module _ {S : Type 0} (k : Controller S) (o : Options) (oldest : List MPage → Option ℕ) where
  unfoldable pub count_memory_reads : ℕ → State S → State S
  count_memory_reads n s = record s {
    world = record s.world {
      stats = record s.world.stats { num_memory_read = s.world.stats.num_memory_read + n };
    };
  }

  -- The page of a block that is mapped as a whole. The sum of the block's number, of 32 bits, and
  -- the page's is one of 64 bits, which the address cuts to 32.
  unfoldable pub trim_block : BPage → State S → Run (State S)
  unfolding dlbn is_inactive
  trim_block p s = do
    let a = of_linear o.geometry (p.pbn + s.event.logical_address % o.block_size) page_level
    elim (k.get_block_pointer s.world.device a) [
      | none ↦ abort null_pointer
      | some b ↦ do
        device ← k.invalidate_page s.world.device b a.page
        if is_inactive (k.block device b).state
            then (do
              (e', w') ← erase_and_invalidate k o s.event a dat (record s.world { device = device })
              ok (record {
                event = e';
                ftl = record s.ftl {
                  block_map =
                      set s.ftl.block_map (dlbn o s.event)
                        (record p { pbn = no_block; next_page = 0 });
                };
                world = w';
              }))
            else ok (record s { world = record s.world { device = device } })
    ]

  -- The entry of the page, if it names one.
  unfoldable pub trim_entry : State S → Run (State S)
  unfolding unmap with_pages charge count_memory_reads count_memory_writes
  trim_entry s = do
    current ← fetch s.ftl.pages.trans_map (u32 s.event.logical_address)
    elim current.ppn [
      | none ↦ ok s
      | some ppn ↦ do
        a ← unmap k o oldest current ppn s.event s.ftl.pages s.world
        ok (
            count_memory_writes (
              count_memory_reads 1
                (charge o.ram_write_delay (charge o.ram_read_delay (with_pages s.ftl a)))))
    ]

  -- A block whose pages are all trimmed is mapped as a whole again.
  unfoldable pub reset_block : State S → Run (State S)
  unfolding all_trimmed dlbn count_memory_reads count_memory_writes
  reset_block s = do
    let dlpn = u32 s.event.logical_address
    all ← all_trimmed s.ftl.trim_map (dlpn - dlpn % o.block_size) o.block_size
    let counted = count_memory_reads 1 s
    if all
        then ok (
            count_memory_writes (record counted {
              ftl = record counted.ftl {
                block_map = set counted.ftl.block_map (dlbn o s.event) new_bpage;
              };
            }))
        else ok counted

  unfoldable pub trim : Event → Bdftl → World S → Run (Status × State S)
  unfolding dlbn trim_block trim_entry reset_block charge count_memory_reads set_address set_noop
      finish
  trim e f w =
      if ltb (u32 e.logical_address) (length f.trim_map)
      then (do
        p ← fetch f.block_map (dlbn o e)
        let s : State S = record {
          event = e;
          ftl = record f { trim_map = set f.trim_map (u32 e.logical_address) true };
          world = w;
        }
        t ← if p.optimal then trim_block p s else (do u ← trim_entry s; reset_block u)
        let sent : State S = record t {
          event = set_noop (set_address t.event (of_linear o.geometry 0 page_level)) true;
          world = record t.world {
            stats = record t.world.stats { num_ftl_trim = t.world.stats.num_ftl_trim + 1 };
          };
        }
        finish k (count_memory_reads 2 (charge (o.ram_read_delay * 2) sent)))
      else abort out_of_range

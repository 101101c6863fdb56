-- ===== src/Dftl/Requests.antt =====
-- FtlImpl_Dftl::read, write and trim of OriginalFlashSim/FTLs/dftl_ftl.cpp. The long that
-- get_free_data_page returns is kept in `free_page`.
use test_flash_sim.Base.{
  ℕ, ◌+◌, true, false, Option, none, some, List, Run, ok, abort, null_pointer, fetch, ◌>>=◌, u32,
}
use test_flash_sim.Options.{Options}
use test_flash_sim.Address.{page_level, of_linear}
use test_flash_sim.Event.{Event, set_address, set_replace_address, set_noop}
use test_flash_sim.Controller.{Controller}
use test_flash_sim.BlockManager.{World}
use test_flash_sim.Dftl.{
  MPage, Dftl, After, Answer, update_translation_map, evict_specific_page_from_cache,
}
use test_flash_sim.Dftl.Pages.{get_free_data_page}
use test_flash_sim.Dftl.Resolve.{resolve_mapping}

-- `return controller.issue(event)`
unfoldable pub finish : {S : Type 0} → Controller S → Event → Dftl → World S → Run (Answer S)
finish k e f w = do
  (status, issued, device) ← k.issue e w.device
  ok (record { status = status; event = issued; ftl = f; world = record w { device = device } })

-- The event of a read, sent to the page that the entry names, if it names one.
unfoldable pub located : Options → Option ℕ → Event → Event
unfolding set_address set_noop
located o none e = set_noop (set_address e (of_linear o.geometry 0 page_level)) true
located o (some ppn) e = set_address e (of_linear o.geometry ppn page_level)

-- The event of a write to a page, with the page that it replaces, if there is one.
unfoldable pub redirected : Options → Option ℕ → ℕ → Event → Event
unfolding set_address set_replace_address
redirected o none free_page e = set_address e (of_linear o.geometry free_page page_level)
redirected o (some ppn) free_page e =
    set_address (set_replace_address e (of_linear o.geometry ppn page_level))
      (of_linear o.geometry free_page page_level)

module _ {S : Type 0} (k : Controller S) (o : Options) (oldest : List MPage → Option ℕ) where
  unfoldable pub read : Event → Dftl → World S → Run (Answer S)
  unfolding resolve_mapping located finish
  read e f w = do
    a ← resolve_mapping k o oldest e false f w
    current ← fetch a.ftl.trans_map (u32 e.logical_address)
    finish k (located o current.ppn a.event) a.ftl (record a.world {
      stats = record a.world.stats { num_ftl_read = a.world.stats.num_ftl_read + 1 };
    })

  unfoldable pub write : Event → Dftl → World S → Run (Answer S)
  unfolding resolve_mapping get_free_data_page update_translation_map redirected finish
  write e f w = do
    a ← resolve_mapping k o oldest e true f w
    (free_page, b) ← get_free_data_page k o oldest a.event true a.ftl a.world
    current ← fetch b.ftl.trans_map (u32 e.logical_address)
    mapped ← update_translation_map current (some free_page) (u32 e.logical_address) b.ftl
    finish k (redirected o current.ppn free_page b.event) mapped (record b.world {
      stats = record b.world.stats { num_ftl_write = b.world.stats.num_ftl_write + 1 };
    })

  -- The entry that is put back is the copy read before the eviction, with -1 for its page.
  unfoldable pub unmap : MPage → ℕ → Event → Dftl → World S → Run (After S)
  unfolding evict_specific_page_from_cache update_translation_map
  unmap current ppn e f w =
      elim (k.get_block_pointer w.device (of_linear o.geometry ppn page_level)) [
        | none ↦ abort null_pointer
        | some b ↦ do
          device ← k.invalidate_page w.device b (of_linear o.geometry ppn page_level).page
          a ←
              evict_specific_page_from_cache k o oldest (u32 e.logical_address) e f
                (record w { device = device })
          unmapped ← update_translation_map current none (u32 e.logical_address) a.ftl
          ok (record a { ftl = unmapped })
      ]

  unfoldable pub unmap_if_mapped : MPage → Event → Dftl → World S → Run (After S)
  unfolding unmap
  unmap_if_mapped current e f w = elim current.ppn [
    | none ↦ ok (record { event = e; ftl = f; world = w })
    | some ppn ↦ unmap current ppn e f w
  ]

  unfoldable pub trim : Event → Dftl → World S → Run (Answer S)
  unfolding unmap_if_mapped finish set_address
  trim e f w = do
    current ← fetch f.trans_map (u32 e.logical_address)
    a ← unmap_if_mapped current (set_address e (of_linear o.geometry 0 page_level)) f w
    finish k a.event a.ftl (record a.world {
      stats = record a.world.stats { num_ftl_trim = a.world.stats.num_ftl_trim + 1 };
    })

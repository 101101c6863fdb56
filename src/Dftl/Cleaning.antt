-- ===== src/Dftl/Cleaning.antt =====
-- FtlImpl_Dftl::cleanup_block of OriginalFlashSim/FTLs/dftl_ftl.cpp: the valid pages of a block are
-- copied, and the entries of the map that named them are moved.
use test_flash_sim.Base.{
  ℕ, zero, suc, ◌+◌, true, false, not, Option, some, List, [], ◌∷◌, Run, ok, guard, fetch, ◌>>=◌,
  ◌>>◌, if◌then◌else◌, ltb, ◌==◌, set,
}
use test_flash_sim.Options.{Options}
use test_flash_sim.Address.{page_level, of_linear}
use test_flash_sim.Event.{Event, set_address, set_replace_address, set_payload, incr_time_taken}
use test_flash_sim.Event
use test_flash_sim.Page.{is_empty, is_valid}
use test_flash_sim.Block.{page_state}
use test_flash_sim.Stats.{Stats}
use test_flash_sim.Controller.{Controller}
use test_flash_sim.BlockManager.{World}
use test_flash_sim.Dftl.{MPage, Dftl, After, update_translation_map}
use test_flash_sim.Dftl.Pages.{get_free_data_page}

-- `map[key] = value` of a std::map, as the list of its pairs in the order of the keys.
unfoldable pub assign : ℕ → ℕ → List (ℕ × ℕ) → List (ℕ × ℕ)
assign key value [] = (key, value) ∷ []
assign key value ((k, v) ∷ rest) =
    let below = assign key value rest in
    if ltb k key
    then (k, v) ∷ below
    else if k == key
    then (key, value) ∷ rest
    else (key, value) ∷ (k, v) ∷ rest

-- The counters of one copied page. `=+ 3` sets the number of memory writes.
unfoldable pub count_copy : Stats → Stats
count_copy s = record s {
  num_ftl_read = s.num_ftl_read + 1;
  num_ftl_write = s.num_ftl_write + 1;
  num_wl_read = s.num_wl_read + 1;
  num_wl_write = s.num_wl_write + 1;
  num_memory_read = s.num_memory_read + 1;
  num_memory_write = 3;
}

-- The entry that a moved page belongs to, put into the cache if it is not there.
unfoldable pub restamp : Event → MPage → MPage
restamp e p =
    if p.cached
    then record p { modified_ts = some e.start_time }
    else record p { modified_ts = some e.start_time; create_ts = some e.start_time; cached = true }

-- The loop over the moved pages.
unfoldable pub remap : List (ℕ × ℕ) → Event → Dftl → Run Dftl
unfolding update_translation_map restamp
remap [] e f = ok f
remap ((vpn, ppn) ∷ rest) e f = do
  current ← fetch f.trans_map vpn
  moved ← update_translation_map current (some ppn) vpn f
  named ← fetch moved.trans_map vpn
  remap rest e (record moved {
    cmt = if current.cached then moved.cmt else moved.cmt + 1;
    trans_map = set moved.trans_map vpn (restamp e named);
  })

module _ {S : Type 0} (k : Controller S) (o : Options) (oldest : List MPage → Option ℕ) where
  -- One valid page: a read and a write, whose failures are only printed. It gives the entry that
  -- named the page, and the new page.
  unfoldable pub copy_page : ℕ → Event → Dftl → World S → Run ((ℕ × ℕ) × After S)
  unfolding set_address set_replace_address set_payload incr_time_taken get_free_data_page
      count_copy
  copy_page page e f w = do
    let from = of_linear o.geometry page page_level
    (_, read, device) ←
        k.issue (set_address (Event.new Event.read e.logical_address 1 e.start_time) from) w.device
    (free_page, a) ← get_free_data_page k o oldest e false f (record w { device = device })
    let write_event = Event.new Event.write e.logical_address 1 (e.start_time + read.time_taken)
    (_, written, device') ←
        k.issue
          (set_payload
            (set_replace_address
              (set_address write_event (of_linear o.geometry free_page page_level)) from)
            (k.page_data a.world.device page))
          a.world.device
    vpn ← fetch a.ftl.reverse_trans_map page
    ok (
      (vpn, (of_linear o.geometry free_page page_level).real_address),
      record {
        event = incr_time_taken a.event (written.time_taken + read.time_taken);
        ftl = a.ftl;
        world = record a.world { stats = count_copy a.world.stats; device = device' };
      },
    )

  -- The loop over the pages of the block, from the i-th on. `moved` is `invalidated_translation`.
  unfoldable pub copy_pages : ℕ → ℕ → ℕ → List (ℕ × ℕ) → After S → Run (List (ℕ × ℕ) × After S)
  unfolding copy_page assign
  copy_pages b i zero moved a = ok (moved, a)
  copy_pages b i (suc n) moved a = do
    state ← page_state (k.block a.world.device b) i
    guard (not (is_empty state))
    (moved', a') ←
        if is_valid state
        then (do
          ((vpn, ppn), copied) ←
              copy_page ((k.block a.world.device b).physical_address + i) a.event a.ftl a.world
          ok (assign vpn ppn moved, copied))
        else ok (moved, a)
    copy_pages b (suc i) n moved' a'

  unfoldable pub cleanup_block : ℕ → Event → Dftl → World S → Run (After S)
  unfolding copy_pages remap
  cleanup_block b e f w = do
    (moved, a) ← copy_pages b 0 o.block_size [] (record { event = e; ftl = f; world = w })
    remapped ← remap moved a.event a.ftl
    ok (record a { ftl = remapped })

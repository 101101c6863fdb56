-- ===== src/Fast/Requests.antt =====
-- FtlImpl_Fast::read and write of OriginalFlashSim/FTLs/fast_ftl.cpp.
use test_flash_sim.Base.{
  ℕ, ◌+◌, Bool, true, ◌&&◌, Option, none, some, Run, ok, fetch, ◌>>=◌, Status, if◌then◌else◌, ltb,
  set,
}
use test_flash_sim.Options.{Options}
use test_flash_sim.Address.{Address, page_level, of_linear, get_linear_address, add}
use test_flash_sim.Event.{Event, set_address, set_noop}
use test_flash_sim.Page.{is_empty}
use test_flash_sim.Block.{dat}
use test_flash_sim.Controller.{Controller}
use test_flash_sim.BlockManager.{World, get_free_block, insert_events}
use test_flash_sim.Fast.{
  Fast, State, logical_block, lbn_offset, is_entry, set_data, find_logged, initialize_log_pages,
}
use test_flash_sim.Fast.Writes.{write_to_log_block}

-- Whether the SW block is searched, and has the page.
unfoldable pub is_in_sequential : Options → Fast → Event → Bool
unfolding logical_block lbn_offset is_entry
is_in_sequential o f e =
    is_entry (logical_block f e) f.sequential_logicalblock_address
    && ltb (lbn_offset o e) f.sequential_offset

-- Where a read of a page that is in no RW log block is sent, and whether the request is marked.
unfoldable pub unlogged_target : Options → Fast → Event → Run (Address × Bool)
unfolding is_in_sequential logical_block lbn_offset get_linear_address
unlogged_target o f e =
    if is_in_sequential o f e
    then ok (
      of_linear o.geometry (get_linear_address f.sequential_address + lbn_offset o e) page_level,
      e.noop,
    )
    else (do
      base ← fetch f.data_list (logical_block f e)
      ok (elim base [
        | none ↦ (of_linear o.geometry 0 page_level, true)
        | some d ↦ (of_linear o.geometry (d + lbn_offset o e) page_level, e.noop)
      ]))

-- Where a read is sent.
unfoldable pub target : Options → Fast → Event → Run (Address × Bool)
unfolding find_logged unlogged_target get_linear_address
target o f e = do
  place ← find_logged e.logical_address f.log_pages 0
  elim place [
    | some (i, b, j) ↦
        ok (of_linear o.geometry (get_linear_address b.address + j) page_level, e.noop)
    | none ↦ unlogged_target o f e
  ]

-- `return controller.issue(event)`
unfoldable pub finish : {S : Type 0} → Controller S → State S → Run (Status × State S)
finish k s = do
  (status, issued, device) ← k.issue s.event s.world.device
  ok (status, record s { event = issued; world = record s.world { device = device } })

module _ {S : Type 0} (k : Controller S) (o : Options) where
  unfoldable pub read : Event → Fast → World S → Run (Status × State S)
  unfolding initialize_log_pages target finish set_address set_noop
  read e f w = do
    (g, w') ← initialize_log_pages k o f w
    (a, noop) ← target o g e
    finish k (record {
      event = set_noop (set_address e a) noop;
      ftl = g;
      world = record w' { stats = record w'.stats { num_ftl_read = w'.stats.num_ftl_read + 1 } };
    })

  -- The first page that is written of a logical block.
  unfoldable pub open_block : ℕ → State S → Run (State S)
  unfolding set_data lbn_offset set_address add get_linear_address
  open_block lba s = do
    (fresh, e, w) ← get_free_block k o dat s.event s.world
    f ← set_data lba (some (get_linear_address fresh)) s.ftl
    ok (record {
      event =
          set_address e
            (record (add o.geometry fresh (lbn_offset o s.event)) { valid = page_level });
      ftl = f;
      world = w;
    })

  -- Where the page of a write goes, given the entry of its logical block.
  unfoldable pub place : ℕ → Option ℕ → State S → Run (State S)
  unfolding open_block lbn_offset set_address write_to_log_block
  place lba none s = open_block lba s
  place lba (some d) s =
      let in_data = of_linear o.geometry (d + lbn_offset o s.event) page_level in
      if is_empty (k.get_state s.world.device in_data)
      then ok (record s { event = set_address s.event in_data })
      else write_to_log_block k o lba s

  -- `pin_list[event.get_logical_address()] = true`
  unfoldable pub pin_page : Event → Fast → Run Fast
  pin_page e f = do
    _ ← fetch f.pin_list e.logical_address
    ok (record f { pin_list = set f.pin_list e.logical_address true })

  unfoldable pub write : Event → Fast → World S → Run (Status × State S)
  unfolding initialize_log_pages logical_block pin_page place finish
  write e f w = do
    (g, w') ← initialize_log_pages k o f w
    h ← pin_page e g
    base ← fetch h.data_list (logical_block h e)
    t ← place (logical_block h e) base (record { event = e; ftl = h; world = w' })
    (e'', w'') ← insert_events k o t.event t.world
    finish k (record t {
      event = e'';
      world = record w'' {
        stats = record w''.stats { num_ftl_write = w''.stats.num_ftl_write + 1 };
      };
    })

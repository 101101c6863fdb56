-- ===== src/Bast/Requests.antt =====
-- FtlImpl_Bast::read and write of OriginalFlashSim/FTLs/bast_ftl.cpp.
use test_flash_sim.Base.{
  ℕ, ◌+◌, ◌%◌, Option, none, some, Run, ok, abort, null_pointer, fetch, ◌>>=◌, Status,
  if◌then◌else◌, ltb, set,
}
use test_flash_sim.Options.{Options}
use test_flash_sim.Address.{Address, page_level, of_linear}
use test_flash_sim.Event.{Event, set_address, set_replace_address}
use test_flash_sim.Page.{is_empty, is_invalid}
use test_flash_sim.Block.{page_state}
use test_flash_sim.Controller.{Controller}
use test_flash_sim.BlockManager.{World}
use test_flash_sim.Bast.{LogPageBlock, Bast, State, logical_block, find, assign}
use test_flash_sim.Bast.Merging.{merge, allocate_new_logblock}

-- The place of a page in the log block, if there is a log block and it has the page.
unfoldable pub logged : Option LogPageBlock → ℕ → Run (Option ℕ)
logged none page = ok none
logged (some b) page = fetch b.pages page

-- The page of a logical address in its block.
unfoldable pub page_of : Options → Event → ℕ
page_of o e = (of_linear o.geometry e.logical_address page_level).page

-- `return controller.issue(event)`
unfoldable pub finish : {S : Type 0} → Controller S → State S → Run (Status × State S)
finish k s = do
  (status, issued, device) ← k.issue s.event s.world.device
  ok (status, record s { event = issued; world = record s.world { device = device } })

unfoldable pub count_memory_read : {S : Type 0} → World S → World S
count_memory_read w = record w {
  stats = record w.stats { num_memory_read = w.stats.num_memory_read + 1 };
}

-- Where a read is sent, given the log block of its address. The source asks for the log block again
-- in the second case, where the first has failed.
unfoldable pub target_in : Options → Bast → Event → Option LogPageBlock → Run Address
unfolding logical_block logged page_of
target_in o f e block = do
  place ← logged block (page_of o e)
  elim place [
    | some j ↦ elim block [
      | none ↦ abort null_pointer
      | some b ↦ ok (of_linear o.geometry (b.address.real_address + j) page_level)
    ]
    | none ↦ do
      base ← fetch f.data_list (logical_block f e)
      ok (elim base [
        | none ↦ of_linear o.geometry 0 page_level
        | some d ↦ of_linear o.geometry (d + e.logical_address % o.block_size) page_level
      ])
  ]

unfoldable pub target : Options → Bast → Event → Run Address
unfolding target_in find logical_block
target o f e = target_in o f e (find (logical_block f e) f.log_map)

module _ {S : Type 0} (k : Controller S) (o : Options) (random : ℕ → ℕ) where
  unfoldable pub read : Event → Bast → World S → Run (Status × State S)
  unfolding target count_memory_read finish set_address
  read e f w = do
    a ← target o f e
    finish k (record {
      event =
          set_address e
            (if is_invalid (k.get_state w.device a) then of_linear o.geometry 0 page_level else a);
      ftl = f;
      world = record (count_memory_read w) {
        stats = record (count_memory_read w).stats { num_ftl_read = w.stats.num_ftl_read + 1 };
      };
    })

  -- The page goes into a log block with room.
  unfoldable pub append : LogPageBlock → ℕ → State S → Run (State S)
  unfolding page_of assign set_address set_replace_address
  append b lba s = do
    let page = page_of o s.event
    place ← fetch b.pages page
    let num_valid = k.get_num_valid s.world.device b.address
    let replacing : Event = elim place [
      | none ↦ s.event
      | some j ↦
          set_replace_address s.event (of_linear o.geometry (b.address.real_address + j) page_level)
    ]
    ok (record s {
      event = set_address replacing (k.get_free_page s.world.device b.address);
      ftl = record s.ftl {
        log_map = assign lba (record b { pages = set b.pages page (some num_valid) }) s.ftl.log_map;
      };
    })

  -- The log block has no room: it is merged, and the page goes into a new one.
  unfoldable pub renew : LogPageBlock → ℕ → State S → Run (State S)
  unfolding merge allocate_new_logblock find page_of assign set_address
  renew b lba s = do
    t ← merge k o random b lba s
    u ← allocate_new_logblock k o random lba t
    elim (find lba u.ftl.log_map) [
      | none ↦ abort null_pointer
      | some c ↦ do
        _ ← fetch c.pages (page_of o u.event)
        ok (record u {
          event = set_address u.event (record c.address { valid = page_level });
          ftl = record u.ftl {
            log_map =
                assign lba (record c { pages = set c.pages (page_of o u.event) (some 0) })
                  u.ftl.log_map;
          };
        })
    ]

  -- The page of the data block is to be invalidated, unless it is empty.
  unfoldable pub replace_data : ℕ → State S → Run (State S)
  unfolding set_replace_address
  replace_data lba s = do
    base ← fetch s.ftl.data_list lba
    elim base [
      | none ↦ ok s
      | some d ↦ do
        let offset = s.event.logical_address % o.block_size
        let replaced = of_linear o.geometry (d + offset) page_level
        elim (k.get_block_pointer s.world.device replaced) [
          | none ↦ abort null_pointer
          | some b ↦ do
            state ← page_state (k.block s.world.device b) offset
            ok (
                if is_empty state
                then s
                else record s { event = set_replace_address s.event replaced })
        ]
    ]

  unfoldable pub write : Event → Bast → World S → Run (Status × State S)
  unfolding logical_block find allocate_new_logblock count_memory_read append renew replace_data
      finish
  write e f w = do
    let lba = logical_block f e
    let s : State S = record { event = e; ftl = f; world = w }
    allocated ← elim (find lba f.log_map) [
      | none ↦ allocate_new_logblock k o random lba s
      | some b ↦ ok s
    ]
    let counted = record allocated { world = count_memory_read allocated.world }
    elim (find lba counted.ftl.log_map) [
      | none ↦ abort null_pointer
      | some b ↦ do
        placed ←
            if ltb (k.get_num_valid counted.world.device b.address) o.block_size
            then append b lba counted
            else renew b lba counted
        replaced ← replace_data lba placed
        finish k (record replaced {
          world = record replaced.world {
            stats = record replaced.world.stats {
              num_ftl_write = replaced.world.stats.num_ftl_write + 1;
            };
          };
        })
    ]

-- ===== src/Bdftl/Requests.antt =====
-- FtlImpl_BDftl::read and write of OriginalFlashSim/FTLs/bdftl_ftl.cpp.
use test_flash_sim.Base.{
  ℕ, zero, suc, ◌+◌, ◌*◌, ◌/◌, ◌%◌, Bool, true, false, ◌&&◌, Option, none, some, List, [], ◌∷◌,
  ◌++◌, Run, ok, abort, null_pointer, out_of_range, fetch, ◌>>=◌, Status, if◌then◌else◌, ltb, ◌==◌,
  length, set, u32,
}
use test_flash_sim.Options.{Options}
use test_flash_sim.Address.{page_level, block_level, of_linear}
use test_flash_sim.Event.{Event, set_address, incr_time_taken}
use test_flash_sim.Page.{is_valid}
use test_flash_sim.Block.{page_state, dat}
use test_flash_sim.Controller.{Controller}
use test_flash_sim.BlockManager.{World, get_free_block}
use test_flash_sim.Dftl.{MPage, Dftl, update_translation_map}
use test_flash_sim.Dftl.Resolve.{resolve_mapping}
use test_flash_sim.Dftl.Requests.{located, redirected}
use test_flash_sim.Bdftl.{BPage, Bdftl, State, no_block, with_pages, get_free_biftl_page}

-- `return controller.issue(event)`
unfoldable pub finish : {S : Type 0} → Controller S → State S → Run (Status × State S)
finish k s = do
  (status, issued, device) ← k.issue s.event s.world.device
  ok (status, record s { event = issued; world = record s.world { device = device } })

-- The block of a logical address, and its page in it.
unfoldable pub dlbn : Options → Event → ℕ
dlbn o e = u32 e.logical_address / o.block_size

unfoldable pub offset : Options → Event → ℕ
offset o e = u32 e.logical_address % o.block_size

unfoldable pub charge : {S : Type 0} → ℕ → State S → State S
unfolding incr_time_taken
charge time s = record s { event = incr_time_taken s.event time }

unfoldable pub count_memory_writes : {S : Type 0} → State S → State S
count_memory_writes s = record s {
  world = record s.world {
    stats = record s.world.stats { num_memory_write = s.world.stats.num_memory_write + 1 };
  };
}

-- Where a read of a block that is mapped as a whole is sent.
unfoldable pub block_target : Options → BPage → Event → Event
unfolding located offset
block_target o p e =
    if p.pbn == no_block then located o none e else located o (some (u32 (p.pbn + offset o e))) e

module _ {S : Type 0} (k : Controller S) (o : Options) (oldest : List MPage → Option ℕ) where
  -- Where a read of an entry is sent.
  unfoldable pub entry_target : State S → Run (State S)
  unfolding resolve_mapping located with_pages
  entry_target s = do
    a ← resolve_mapping k o oldest s.event false s.ftl.pages s.world
    current ← fetch a.ftl.trans_map (u32 s.event.logical_address)
    ok (record (with_pages s.ftl a) { event = located o current.ppn a.event })

  unfoldable pub read : Event → Bdftl → World S → Run (Status × State S)
  unfolding dlbn block_target entry_target charge finish
  read e f w = do
    let s : State S = record { event = e; ftl = f; world = w }
    p ← fetch f.block_map (dlbn o e)
    t ← if p.optimal then ok (record s { event = block_target o p e }) else entry_target s
    let charged = charge (o.ram_read_delay * 2) t
    finish k (record charged {
      world = record charged.world {
        stats = record charged.world.stats {
          num_memory_read = charged.world.stats.num_memory_read + 2;
          num_ftl_read = charged.world.stats.num_ftl_read + 1;
        };
      };
    })

  -- An entry of a transferred page that is named already.
  unfoldable pub transfer_entry : BPage → ℕ → ℕ → State S → Run (State S)
  unfolding update_translation_map charge count_memory_writes
  transfer_entry p start i s = do
    current ← fetch s.ftl.pages.trans_map (start + i)
    elim current.ppn [
      | none ↦ ok s
      | some ppn ↦ do
        named ← update_translation_map current (some (u32 (p.pbn + i))) (start + i) s.ftl.pages
        moved ← fetch named.trans_map (start + i)
        let cached : Dftl = record named {
          cmt = named.cmt + 1;
          trans_map = set named.trans_map (start + i) (record moved {
            create_ts = some s.event.start_time;
            modified_ts = some s.event.start_time;
            cached = true;
          });
        }
        ok (
            count_memory_writes
              (charge o.ram_write_delay (record s { ftl = record s.ftl { pages = cached } })))
    ]

  -- The loop over the pages that were written, from the i-th on. The block that it asks for their
  -- states is the one at the logical address.
  unfoldable pub transfer_pages : Option ℕ → BPage → ℕ → ℕ → ℕ → State S → Run (State S)
  unfolding transfer_entry
  transfer_pages b p start i zero s = ok s
  transfer_pages b p start i (suc n) s = do
    block ← elim b [ none ↦ abort null_pointer | some x ↦ ok (k.block s.world.device x) ]
    state ← page_state block i
    t ← if is_valid state then transfer_entry p start i s else ok s
    transfer_pages b p start (suc i) n t

  -- The rest of the block is used for other pages.
  unfoldable pub enqueue : Option ℕ → State S → Run (State S)
  enqueue none s = abort null_pointer
  enqueue (some b) s =
      if (k.block s.world.device b).pages_valid == o.block_size
      then ok s
      else (elim s.ftl.inuse_block [
        | none ↦ ok (record s { ftl = record s.ftl { inuse_block = some b } })
        | some used ↦
            ok (record s { ftl = record s.ftl { block_queue = s.ftl.block_queue ++ b ∷ [] } })
      ])

  -- A block that is not written in order goes to the demand mapping layer.
  unfoldable pub convert : BPage → Event → State S → Run (State S)
  unfolding dlbn transfer_pages enqueue charge count_memory_writes
  convert p e s = do
    let start = u32 (dlbn o e * o.block_size)
    let logical = k.get_block_pointer s.world.device (of_linear o.geometry start page_level)
    t ← transfer_pages logical p start 0 p.next_page s
    let u = count_memory_writes (charge o.ram_write_delay t)
    let v : State S = record u {
      ftl = record u.ftl {
        block_map = set u.ftl.block_map (dlbn o e) (record p { optimal = false });
      };
    }
    x ← enqueue (k.get_block_pointer v.world.device (of_linear o.geometry p.pbn block_level)) v
    ok (record x {
      world = record x.world {
        stats = record x.world.stats {
          num_page_block_to_page_conversion = x.world.stats.num_page_block_to_page_conversion + 1;
        };
      };
    })

  -- The block of the request, taken when its first page is written.
  unfoldable pub open_block : BPage → Event → State S → Run (BPage × State S)
  unfolding get_free_block dlbn offset
  open_block p e s =
      if p.pbn == no_block && offset o e == 0
      then (do
        (a, e', w') ← get_free_block k o dat s.event s.world
        let opened : BPage = record p { pbn = u32 a.real_address }
        ok (
          opened,
          record {
            event = e';
            ftl = record s.ftl { block_map = set s.ftl.block_map (dlbn o e) opened };
            world = w';
          },
        ))
      else ok (p, s)

  -- The page is the next one of its block.
  unfoldable pub append : BPage → Event → State S → State S
  unfolding dlbn offset charge count_memory_writes set_address
  append p e s =
      let charged = charge o.ram_write_delay (count_memory_writes s) in
      record charged {
        event =
            set_address charged.event
              (of_linear o.geometry (u32 (p.pbn + offset o e % 256)) page_level);
        ftl = record charged.ftl {
          block_map =
              set charged.ftl.block_map (dlbn o e)
                (record p { next_page = (p.next_page + 1) % 256 });
        };
      }

  -- The block is mapped as a whole: whether the request is handled.
  unfoldable pub write_block : BPage → State S → Run (Bool × State S)
  unfolding open_block append convert dlbn offset
  write_block p s = do
    (q, t) ← open_block p s.event s
    if q.pbn == no_block
        then ok (
          false,
          record t {
            ftl = record t.ftl {
              block_map = set t.ftl.block_map (dlbn o s.event) (record q { optimal = false });
            };
          },
        )
        else if q.next_page == offset o s.event % 256
        then ok (true, append q s.event t)
        else (do u ← convert q s.event t; ok (false, u))

  -- The page goes through the demand mapping layer.
  unfoldable pub write_entry : State S → Run (State S)
  unfolding get_free_biftl_page resolve_mapping update_translation_map redirected
  write_entry s = do
    (free_page, t) ← get_free_biftl_page k o oldest s
    a ← resolve_mapping k o oldest t.event true t.ftl.pages t.world
    current ← fetch a.ftl.trans_map (u32 s.event.logical_address)
    mapped ← update_translation_map current (some free_page) (u32 s.event.logical_address) a.ftl
    ok (record {
      event = redirected o current.ppn free_page a.event;
      ftl = record t.ftl { pages = mapped };
      world = a.world;
    })

  unfoldable pub write : Event → Bdftl → World S → Run (Status × State S)
  unfolding dlbn write_block write_entry charge finish
  write e f w =
      if ltb (u32 e.logical_address) (length f.trim_map)
      then (do
        p ← fetch f.block_map (dlbn o e)
        let s : State S = record {
          event = e;
          ftl = record f { trim_map = set f.trim_map (u32 e.logical_address) false };
          world = w;
        }
        (handled, t) ← if p.optimal then write_block p s else ok (false, s)
        u ← if handled then ok t else write_entry t
        let counted : State S = record u {
          world = record u.world {
            stats = record u.world.stats {
              num_memory_read = u.world.stats.num_memory_read + 3;
              num_ftl_write = u.world.stats.num_ftl_write + 1;
            };
          };
        }
        finish k (charge (o.ram_read_delay * 3) counted))
      else abort out_of_range

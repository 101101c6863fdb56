-- ===== src/Fast.antt =====
-- OriginalFlashSim/FTLs/fast_ftl.cpp: a map of blocks, one log block for sequential writes (SW) and
-- a list of log blocks for the others (RW). -1 is `none`, and a null `log_pages` the empty list.
pub mod Merging
pub mod Logs
pub mod Writes
pub mod Requests
pub mod Trims
pub mod Filled
pub mod Shadowed
pub mod Kept
pub mod Recycled
pub mod Invariant
pub mod Trimmed
pub mod Served
use test_flash_sim.Base.{
  ℕ, zero, suc, ◌+◌, ◌-◌, ◌*◌, ◌/◌, ◌%◌, ◌^◌, Bool, true, false, Option, none, some, List, [], ◌∷◌,
  ◌++◌, Run, ok, abort, out_of_range, fetch, ◌>>=◌, ◌==◌, replicate, get_elem?, set, u32, decr32,
}
use test_flash_sim.Options.{Options}
use test_flash_sim.Address.{Address, empty, page_level, of_linear}
use test_flash_sim.Event.{Event, set_address, set_noop, incr_time_taken}
use test_flash_sim.Event
use test_flash_sim.Block.{log}
use test_flash_sim.Controller.{Controller}
use test_flash_sim.BlockManager.{World, get_free_block}
use test_flash_sim.Dftl.{floor_log2}

-- The fields of LogPageBlock that this layer uses. `a_pages` gives the logical address of each page;
-- `next` is the rest of the list that the block stands in.
pub record LogBlock : Type 0 where
  pub a_pages : List (Option ℕ)
  pub num_pages : ℕ
  pub address : Address

unfoldable pub new_log_block : Options → Address → LogBlock
new_log_block o a = record { a_pages = replicate o.block_size none; num_pages = 0; address = a }

-- `log_map` and `addressSize` are left out: no method reads them.
pub record Fast : Type 0 where
  pub data_list : List (Option ℕ)
  pub pin_list : List Bool
  pub sequential_offset : ℕ
  pub sequential_logicalblock_address : Option ℕ
  pub sequential_address : Address
  pub log_page_next : ℕ
  pub log_pages : List LogBlock
  pub address_shift : ℕ

-- The constructor sets neither the elements of `pin_list` nor the linear address of
-- `sequential_address`: the arguments stand for what is there.
unfoldable pub new : Options → Bool → ℕ → Fast
unfolding floor_log2 empty
new o pinned unset = record {
  data_list = replicate o.number_of_addressable_blocks none;
  pin_list = replicate (u32 (o.number_of_addressable_blocks * o.block_size)) pinned;
  sequential_offset = 0;
  sequential_logicalblock_address = none;
  sequential_address = empty unset;
  log_page_next = 0;
  log_pages = [];
  address_shift = floor_log2 32 o.block_size;
}

-- `event.get_logical_address() >> addressShift`
unfoldable pub logical_block : Fast → Event → ℕ
logical_block f e = e.logical_address / 2 ^ f.address_shift

-- `event.get_logical_address() % BLOCK_SIZE`
unfoldable pub lbn_offset : Options → Event → ℕ
lbn_offset o e = e.logical_address % o.block_size

-- Whether an entry is the given number: -1 is none of them.
unfoldable pub is_entry : ℕ → Option ℕ → Bool
is_entry n none = false
is_entry n (some m) = m == n

-- `data_list[i] = v`
unfoldable pub set_data : ℕ → Option ℕ → Fast → Run Fast
set_data i v f = do _ ← fetch f.data_list i; ok (record f { data_list = set f.data_list i v })

-- What a call leaves.
pub record State (S : Type 0) : Type 0 where
  pub event : Event
  pub ftl : Fast
  pub world : World S

-- The place in a log block of a logical address, among the `n` pages from the i-th on.
unfoldable pub page_in : ℕ → List (Option ℕ) → ℕ → ℕ → Run (Option ℕ)
unfolding is_entry
page_in la pages i zero = ok none
page_in la pages i (suc n) = do
  p ← fetch pages i
  elim (is_entry la p) [ true ↦ ok (some i) | false ↦ page_in la pages (suc i) n ]

-- Where the search of read and trim stops: the index of a log block, the block, and the page in it.
unfoldable pub find_logged : ℕ → List LogBlock → ℕ → Run (Option (ℕ × LogBlock × ℕ))
unfolding page_in
find_logged la [] i = ok none
find_logged la (b ∷ rest) i = do
  place ← page_in la b.a_pages 0 b.num_pages
  elim place [ some j ↦ ok (some (i, b, j)) | none ↦ find_logged la rest (suc i) ]

module _ {S : Type 0} (k : Controller S) (o : Options) where
  -- `n` more log blocks, with a request that no caller sees.
  unfoldable pub more_log_blocks :
      ℕ → Event → World S → List LogBlock → Run (List LogBlock × World S)
  unfolding new_log_block
  more_log_blocks zero e w blocks = ok (blocks, w)
  more_log_blocks (suc n) e w blocks = do
    (a, e', w') ← get_free_block k o log e w
    more_log_blocks n e' w' (blocks ++ new_log_block o a ∷ [])

  -- The first block, and the others.
  unfoldable pub create_log_pages : World S → Run (List LogBlock × World S)
  unfolding new_log_block more_log_blocks
  create_log_pages w = do
    (a, e, w') ← get_free_block k o log (Event.new Event.write 1 1 0) w
    more_log_blocks (decr32 o.fast_log_block_limit) e w' (new_log_block o a ∷ [])

  unfoldable pub initialize_log_pages : Fast → World S → Run (Fast × World S)
  unfolding create_log_pages
  initialize_log_pages f w = elim f.log_pages [
    | b ∷ rest ↦ ok (f, w)
    | [] ↦ do (blocks, w') ← create_log_pages w; ok (record f { log_pages = blocks }, w')
  ]

  -- What the event is sent with is not asked for its status.
  unfoldable pub update_map_block : State S → Run (State S)
  unfolding set_address set_noop incr_time_taken
  update_map_block s = do
    let write_event =
        set_noop
          (set_address (Event.new Event.write s.event.logical_address 1 s.event.start_time)
            (of_linear o.geometry 0 page_level))
          true
    (_, issued, device) ← k.issue write_event s.world.device
    ok (record s {
      event = incr_time_taken s.event issued.time_taken;
      world = record s.world {
        stats = record s.world.stats {
          num_gc_write = s.world.stats.num_gc_write + 1;
          num_ftl_write = s.world.stats.num_ftl_write + 1;
        };
        device = device;
      };
    })

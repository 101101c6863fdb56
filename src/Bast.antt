-- ===== src/Bast.antt =====
-- OriginalFlashSim/FTLs/bast_ftl.cpp: a map of blocks, and log blocks that take the writes. What
-- `random()` of the C library returns is a parameter; -1 is `none`.
pub mod Merging
pub mod Requests
pub mod Trims
pub mod Logged
use test_flash_sim.Base.{
  ℕ, zero, suc, ◌+◌, ◌-◌, ◌*◌, ◌/◌, ◌%◌, ◌^◌, Bool, true, false, ◌&&◌, ◌||◌, Option, none, some,
  List, [], ◌∷◌, Run, ok, abort, out_of_range, fetch, ◌>>=◌, if◌then◌else◌, ltb, leb, ◌==◌, length,
  replicate, get_elem?, set,
}
use test_flash_sim.Options.{Options}
use test_flash_sim.Address.{Address, empty, page_level, of_linear, set_linear_level}
use test_flash_sim.Event.{
  Event, set_address, set_noop, set_payload, set_replace_address, incr_time_taken,
}
use test_flash_sim.Event
use test_flash_sim.Page.{is_empty, is_invalid}
use test_flash_sim.Block.{log, dat}
use test_flash_sim.Stats.{Stats}
use test_flash_sim.Controller.{Controller}
use test_flash_sim.BlockManager.{World, promote_block, erase_and_invalidate, get_free_block}
use test_flash_sim.Dftl.{floor_log2}

-- The fields that this layer uses. `pages` gives the place in the block of each page.
pub record LogPageBlock : Type 0 where
  pub pages : List (Option ℕ)
  pub address : Address

unfoldable pub new_log_block : Options → Address → LogPageBlock
new_log_block o a = record { pages = replicate o.block_size none; address = a }

-- `log_map` is the list of its pairs in the order of the keys; each log block belongs to one key.
-- `drawn` counts the calls of `random()`.
pub record Bast : Type 0 where
  pub log_map : List (ℕ × LogPageBlock)
  pub data_list : List (Option ℕ)
  pub address_shift : ℕ
  pub drawn : ℕ

unfoldable pub new : Options → Bast
unfolding floor_log2
new o = record {
  log_map = [];
  data_list = replicate o.number_of_addressable_blocks none;
  address_shift = floor_log2 32 o.block_size;
  drawn = 0;
}

-- `event.get_logical_address() >> addressShift`
unfoldable pub logical_block : Bast → Event → ℕ
logical_block f e = e.logical_address / 2 ^ f.address_shift

unfoldable pub find : ℕ → List (ℕ × LogPageBlock) → Option LogPageBlock
find key [] = none
find key ((k, b) ∷ rest) = let later = find key rest in if k == key then some b else later

unfoldable pub remove : ℕ → List (ℕ × LogPageBlock) → List (ℕ × LogPageBlock)
remove key [] = []
remove key ((k, b) ∷ rest) =
    let later = remove key rest in if k == key then rest else (k, b) ∷ later

unfoldable pub assign : ℕ → LogPageBlock → List (ℕ × LogPageBlock) → List (ℕ × LogPageBlock)
assign key b [] = (key, b) ∷ []
assign key b ((k, c) ∷ rest) =
    let later = assign key b rest in
    if ltb k key
    then (k, c) ∷ later
    else if k == key
    then (key, b) ∷ rest
    else (key, b) ∷ (k, c) ∷ rest

-- What a call leaves.
pub record State (S : Type 0) : Type 0 where
  pub event : Event
  pub ftl : Bast
  pub world : World S

-- `delete` of the log block, which its key alone leads to.
unfoldable pub dispose_logblock : {S : Type 0} → ℕ → State S → State S
unfolding remove
dispose_logblock lba s = record s { ftl = record s.ftl { log_map = remove lba s.ftl.log_map } }

-- Whether the i-th page and the `n - 1` ones after it stand at their places.
unfoldable pub in_place : List (Option ℕ) → ℕ → ℕ → Run Bool
in_place pages i zero = ok true
in_place pages i (suc n) = do
  p ← fetch pages i
  elim p [
    | none ↦ ok false
    | some j ↦ elim (j == i) [ false ↦ ok false | true ↦ in_place pages (suc i) n ]
  ]

module _ {S : Type 0} (k : Controller S) (o : Options) where
  -- What the event is sent with is not asked for its status.
  unfoldable pub update_map_block : State S → Run (State S)
  unfolding set_address set_noop incr_time_taken
  update_map_block s = do
    let write_event =
        set_noop
          (set_address (Event.new Event.write s.event.logical_address 1 s.event.start_time)
            (of_linear o.geometry 0 page_level))
          true
    (_, issued, device) ← k.issue write_event s.world.device
    ok (record s {
      event = incr_time_taken s.event issued.time_taken;
      world = record s.world {
        stats = record s.world.stats {
          num_gc_write = s.world.stats.num_gc_write + 1;
          num_ftl_write = s.world.stats.num_ftl_write + 1;
        };
        device = device;
      };
    })

  -- The data block of a logical block goes, if there is one.
  unfoldable pub drop_data_block : Option ℕ → State S → Run (State S)
  drop_data_block none s = ok s
  drop_data_block (some d) s = do
    (e', w') ← erase_and_invalidate k o s.event (of_linear o.geometry d page_level) dat s.world
    ok (record s { event = e'; world = w' })

  -- The log block becomes the data block.
  unfoldable pub switch_block : LogPageBlock → ℕ → State S → Run (State S)
  unfolding dispose_logblock update_map_block drop_data_block
  switch_block b lba s = do
    old ← fetch s.ftl.data_list lba
    let promoted = record s {
      world = record s.world { manager = promote_block dat s.world.manager };
    }
    t ← drop_data_block old promoted
    let switched = dispose_logblock lba (record t {
      ftl = record t.ftl { data_list = set t.ftl.data_list lba (some b.address.real_address) };
    })
    update_map_block (record switched {
      world = record switched.world {
        stats = record switched.world.stats {
          num_log_merge_switch = switched.world.stats.num_log_merge_switch + 1;
        };
      };
    })

  unfoldable pub is_sequential : LogPageBlock → ℕ → State S → Run (Bool × State S)
  unfolding in_place switch_block
  is_sequential b lba s = do
    sequential ← in_place b.pages 0 o.block_size
    elim sequential [ false ↦ ok (false, s) | true ↦ do t ← switch_block b lba s; ok (true, t) ]

-- ===== src/BlockManager.antt =====
-- OriginalFlashSim/ssd_bm.cpp: the blocks that the translation layers take and give back.
pub mod Gives
pub mod Pool
use test_flash_sim.Base.{
  ℕ, zero, suc, ◌+◌, ◌-◌, ◌*◌, ◌/◌, ◌%◌, Bool, true, false, not, ◌&&◌, ◌||◌, Option, none, some,
  List, [], ◌∷◌, ◌++◌, Run, ok, abort, null_pointer, bad_alloc, out_of_range, assertion, guard,
  ◌>>=◌, ◌>>◌, Status, success, failure, if◌then◌else◌, ltb, leb, ◌==◌, length, pop_back, u32, u64,
  u32_mod, u64_mod,
}
use test_flash_sim.Options.{Options, impl_fast, impl_dftl, impl_bimodal}
use test_flash_sim.Address.{Address, empty, block_level, set_linear_level, of_linear}
use test_flash_sim.Event.{Event, set_address, incr_time_taken}
use test_flash_sim.Event
use test_flash_sim.Block.{BlockType, log, dat, log_seq}
use test_flash_sim.Stats.{Stats}
use test_flash_sim.Controller.{Controller}

-- Fields that no method reads are left out. So is `active_cost`: nothing puts a block into it
-- (cost_insert does nothing), so it is always empty. The lists are of pointers to blocks.
pub record BlockManager : Type 0 where
  pub data_active : ℕ
  pub log_active : ℕ
  pub max_log_blocks : ℕ
  pub max_blocks : ℕ
  pub free_list : List (Option ℕ)
  pub invalid_list : List (Option ℕ)
  pub simple_current_free : ℕ
  pub num_insert_events : ℕ
  pub current_writing_block : ℕ
  pub out_of_blocks : Bool

-- The blocks of the manager are all the addressable ones; -2 is a number of 32 bits.
unfoldable pub new : Options → BlockManager
new o = record {
  data_active = 0;
  log_active = 0;
  max_log_blocks =
      if o.ftl_implementation == impl_fast
      then o.fast_log_block_limit
      else o.number_of_addressable_blocks;
  max_blocks = o.number_of_addressable_blocks;
  free_list = [];
  invalid_list = [];
  simple_current_free = 0;
  num_insert_events = 0;
  current_writing_block = 4294967294;
  out_of_blocks = false;
}

-- What the layers share: the controller's statistics and device, and the manager.
pub record World (S : Type 0) : Type 0 where
  pub stats : Stats
  pub manager : BlockManager
  pub device : S

abbrev pub decr64 : ℕ → ℕ
decr64 n = (n + (u64_mod - 1)) % u64_mod

unfoldable pub promote_block : BlockType → BlockManager → BlockManager
promote_block dat m = record m {
  data_active = u64 (m.data_active + 1);
  log_active = decr64 m.log_active;
}
promote_block log m = record m {
  log_active = u64 (m.log_active + 1);
  data_active = decr64 m.data_active;
}
promote_block log_seq m = m

unfoldable pub is_log_full : BlockManager → Bool
is_log_full m = m.log_active == m.max_log_blocks

-- The `switch` of invalidate and of erase_and_invalidate.
unfoldable pub release : BlockType → BlockManager → BlockManager
release dat m = record m { data_active = decr64 m.data_active }
release log m = record m { log_active = decr64 m.log_active }
release log_seq m = m

-- The blocks in use, as a difference of numbers of type int, in 32 bits.
unfoldable pub used_blocks : BlockManager → ℕ
used_blocks m =
    u32
      (length m.invalid_list + m.log_active + m.data_active + (u32_mod - u32 (length m.free_list)))

-- `used/total < 0.90`, where the division is one of floats: 0.9 rounded to a float is below 0.90,
-- and for positive totals below 2 ^ 23 no other ratio is rounded across it. A number of type int is
-- negative from 2 ^ 31 on.
unfoldable pub has_room : Options → BlockManager → Bool
unfolding used_blocks
has_room o m =
    leb 2147483648 (used_blocks m) || leb (10 * used_blocks m) (9 * o.number_of_addressable_blocks)

unfoldable pub get_num_free_blocks : Options → BlockManager → ℕ
get_num_free_blocks o m =
    if ltb m.simple_current_free (u64 (m.max_blocks * o.block_size))
    then m.simple_current_free / o.block_size + length m.free_list
    else length m.free_list

module _ {S : Type 0} (k : Controller S) (o : Options) where
  -- Erasing the block at an address, and charging it to the event.
  unfoldable pub issue_erase : Address → ℕ → Event → World S → Run (Event × World S)
  unfolding incr_time_taken set_address
  issue_erase a start_time e w = do
    let erase_event = set_address (Event.new Event.erase e.logical_address 1 start_time) a
    (status, issued, device) ← k.issue erase_event w.device
    elim status [
      | failure ↦ abort assertion
      | success ↦ ok (incr_time_taken e issued.time_taken, record w { device = device })
    ]

  unfoldable pub count_erase : World S → World S
  count_erase w = record w { stats = record w.stats { num_ftl_erase = w.stats.num_ftl_erase + 1 } }

  -- The loop over the invalid list, with `n` blocks to erase.
  unfoldable pub erase_invalid : ℕ → Event → World S → Run (Event × World S)
  unfolding issue_erase count_erase
  erase_invalid zero e w = ok (e, w)
  erase_invalid (suc n) e w = elim (pop_back w.manager.invalid_list) [
    | none ↦ ok (e, w)
    | some (init, none) ↦ abort null_pointer
    | some (init, some b) ↦ do
      (e', w') ← issue_erase (of_linear o.geometry b block_level) e.start_time e w
      erase_invalid n e' (
          count_erase (record w' {
            manager = record w'.manager {
              free_list = w'.manager.free_list ++ some b ∷ [];
              invalid_list = init;
            };
          }))
  ]

  -- Under DFTL and BiModal the source then steps back from the end of `active_cost`, which is
  -- empty.
  unfoldable pub insert_events : Event → World S → Run (Event × World S)
  unfolding has_room erase_invalid
  insert_events e w = if has_room o w.manager then ok (e, w) else (do
    (e', w') ← erase_invalid 5 e w
    if o.ftl_implementation == impl_dftl || o.ftl_implementation == impl_bimodal
        then abort out_of_range
        else ok (
          e',
          record w' {
            manager = record w'.manager {
              num_insert_events = u32 (w'.manager.num_insert_events + 1);
            };
          },
        ))

  -- The block at the front of the free list.
  unfoldable pub take_free : Address → World S → Run (Address × World S)
  unfolding set_linear_level
  take_free a w = elim w.manager.free_list [
    | [] ↦ abort assertion
    | none ∷ rest ↦ abort null_pointer
    | some b ∷ rest ↦ ok (
      set_linear_level o.geometry b block_level a,
      record w {
        manager = record w.manager {
          current_writing_block = u32 b;
          free_list = rest;
          out_of_blocks = false;
        };
      },
    )
  ]

  -- The next block that was never taken.
  unfoldable pub take_fresh : Address → World S → Address × World S
  unfolding set_linear_level
  take_fresh a w = (
    set_linear_level o.geometry w.manager.simple_current_free block_level a,
    record w {
      manager = record w.manager {
        current_writing_block = u32 w.manager.simple_current_free;
        simple_current_free = u64 (w.manager.simple_current_free + o.block_size);
      };
    },
  )

  unfoldable pub get_page_block : Address → Event → World S → Run (Address × Event × World S)
  unfolding take_fresh take_free insert_events
  get_page_block a e w =
      if ltb w.manager.simple_current_free (u64 (w.manager.max_blocks * o.block_size))
      then ok ((take_fresh a w).0, e, (take_fresh a w).1)
      else (do
        (e', w') ←
            if leb (length w.manager.free_list) 1 && not w.manager.out_of_blocks
            then insert_events e (record w { manager = record w.manager { out_of_blocks = true } })
            else ok (e, w)
        (a', w'') ← take_free a w'
        ok (a', e', w''))

  -- Setting the type of the block at an address, which may have no block.
  unfoldable pub set_type : Address → BlockType → World S → Run (World S)
  set_type a t w = elim (k.get_block_pointer w.device a) [
    | none ↦ abort null_pointer
    | some b ↦ ok (record w { device = k.set_block_type w.device b t })
  ]

  unfoldable pub get_free_block : BlockType → Event → World S → Run (Address × Event × World S)
  unfolding get_page_block set_type empty
  get_free_block dat e w = do
    (a, e', w') ← get_page_block (empty 0) e w
    w'' ← set_type a dat w'
    ok (
      a,
      e',
      record w'' {
        manager = record w''.manager { data_active = u64 (w''.manager.data_active + 1) };
      },
    )
  get_free_block log e w = do
    (a, e', w') ← get_page_block (empty 0) e w
    if ltb w'.manager.max_log_blocks w'.manager.log_active then abort bad_alloc else (do
      w'' ← set_type a log w'
      ok (
        a,
        e',
        record w'' {
          manager = record w''.manager { log_active = u64 (w''.manager.log_active + 1) };
        },
      ))
  get_free_block log_seq e w = get_page_block (empty 0) e w

  unfoldable pub invalidate : Address → BlockType → World S → World S
  unfolding release
  invalidate a t w = record w {
    manager = release t (record w.manager {
      invalid_list = w.manager.invalid_list ++ k.get_block_pointer w.device a ∷ [];
    });
  }

  unfoldable pub erase_and_invalidate :
      Event → Address → BlockType → World S → Run (Event × World S)
  unfolding issue_erase release count_erase
  erase_and_invalidate e a t w = do
    (e', w') ← issue_erase a (e.start_time + e.time_taken) e w
    ok (
      e',
      count_erase (record w' {
        manager = release t (record w'.manager {
          free_list = w'.manager.free_list ++ k.get_block_pointer w'.device a ∷ [];
        });
      }),
    )

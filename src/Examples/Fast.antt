-- ===== src/Examples/Fast.antt =====
-- The layer of one log block of four pages, of which the first holds logical page 1.
use test_flash_sim.Base.{
  abort, ℕ, ◌≡◌, ◌⊎◌, refl, true, false, Option, none, some, [], ◌∷◌, ok, arith, Status, success,
}
use test_flash_sim.Address.{Address, page_level, block_level, of_linear}
use test_flash_sim.Address
use test_flash_sim.Event.{Event}
use test_flash_sim.Event
use test_flash_sim.Page
use test_flash_sim.Controller.{Controller}
use test_flash_sim.BlockManager
use test_flash_sim.Options.{Options}
use test_flash_sim.BlockManager.{World, has_room, used_blocks}
use test_flash_sim.Fast.{
  LogBlock, Fast, State, new, find_logged, lbn_offset, logical_block, is_entry,
  initialize_log_pages, create_log_pages, more_log_blocks, new_log_block, set_data,
}
use test_flash_sim.Dftl.{floor_log2}
use test_flash_sim.Fast.Requests.{write, finish, target, pin_page, place, open_block}
use test_flash_sim.Fast.Shadowed.{IsLog, write_shadowed}
use test_flash_sim.Fast.Invariant.{IsReady}
use test_flash_sim.Fast.Served.{Served, Served-IsReady}
use test_flash_sim.Examples.{address_37}
use test_flash_sim.Examples.Cache.{counting, options, world, request_0, request_1}

abbrev written : Controller ℕ
written = record counting { get_state = λ s a. Page.valid }

abbrev log_block : LogBlock
log_block = record {
  a_pages = some 1 ∷ none ∷ none ∷ none ∷ [];
  num_pages = 1;
  address = record address_37 { page = 0; real_address = 36; valid = block_level };
}

abbrev layer : Fast
layer = record {
  data_list = some 4 ∷ [];
  pin_list = true ∷ true ∷ true ∷ true ∷ [];
  sequential_offset = 0;
  sequential_logicalblock_address = none;
  sequential_address = address_37;
  log_page_next = 1;
  log_pages = log_block ∷ [];
  address_shift = 2;
}

layer-IsLog : IsLog options layer
layer-IsLog = record { whole = refl; filled = (refl, refl, tt); bounded = omega arith }

-- A world whose manager counts no block in use.
abbrev roomy : World ℕ
roomy = record world { manager = record world.manager { data_active = 0 } }

write_shadowed_example :
    (s : State ℕ) × (write written options request_1 layer roomy ≡ finish written s)
    × IsLog options s.ftl
    × (((x : ℕ × LogBlock × ℕ) × (find_logged request_1.logical_address layer.log_pages 0
            ≡ ok (some x))
          × (target options s.ftl request_1 ≡ target options layer request_1))
        ⊎ ((find_logged request_1.logical_address layer.log_pages 0 ≡ ok none)
            × (target options s.ftl request_1 ≡ ok (s.event.address, request_1.noop))))
    × (target options s.ftl request_0 ≡ target options layer request_0)
unfolding has_room used_blocks lbn_offset logical_block is_entry
write_shadowed_example =
    write_shadowed written options (omega arith) (omega arith) request_1 request_0 layer roomy
      layer-IsLog (omega arith, tt) (omega arith)
      (record {
        data_block = 4;
        mapped = refl;
        taken = refl;
        inner = omega arith;
        foreign = refl;
        known = omega arith;
      })
      refl (omega arith)

-- Three blocks, none of them taken, and a write of logical page 1.
abbrev three : Options
three = record options { number_of_addressable_blocks = 3 }

abbrev fresh : World ℕ
fresh = record world { manager = BlockManager.new three }

abbrev first_write : Status × State ℕ
first_write = elim (write written three request_1 (new three false 0) fresh) [
  | ok r ↦ r
  | abort x ↦ (success, record { event = request_1; ftl = new three false 0; world = fresh })
]

one_write : Served written three (new three false 0) fresh first_write.1.ftl first_write.1.world
unfolding write new BlockManager.new BlockManager.get_free_block BlockManager.get_page_block
    BlockManager.take_fresh BlockManager.set_type BlockManager.insert_events has_room used_blocks
    initialize_log_pages create_log_pages more_log_blocks new_log_block logical_block lbn_offset
    pin_page place open_block set_data finish floor_log2 of_linear Address.set_linear_level
    Address.set_linear_address Address.empty Address.add Address.get_linear_address Event.new
    Event.set_address
one_write = Served.writes request_1 first_write Served.here refl

Served-IsReady_example :
    IsReady three first_write.1.ftl
    × ((la : ℕ)
        → (r : Option (ℕ × LogBlock × ℕ)) × (find_logged la first_write.1.ftl.log_pages 0 ≡ ok r))
Served-IsReady_example =
    Served-IsReady written three false 0 fresh first_write.1.world first_write.1.ftl (omega arith)
      (omega arith) (omega arith) one_write

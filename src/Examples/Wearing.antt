-- ===== src/Examples/Wearing.antt =====
-- Planes whose blocks are worn, filled and erased.
use test_flash_sim.Base.{
  set, replicate, ℕ, ◌+◌, ◌≡◌, ◌⊎◌, refl, some, none, [], ◌∷◌, ok, arith, success, ◌||◌,
  if◌then◌else◌, get_elem?,
}
use test_flash_sim.Address
use test_flash_sim.Address.{Address, page_level, block_level}
use test_flash_sim.Event.{Event}
use test_flash_sim.Event
use test_flash_sim.Page.{Page, Done}
use test_flash_sim.Page
use test_flash_sim.Block.{Block, free, inactive, active}
use test_flash_sim.Block
use test_flash_sim.Plane.{Plane, update_wear_stats, is_free}
use test_flash_sim.Plane
use test_flash_sim.Plane.Free.{CountsFree, frees, free_blocks-erase}
use test_flash_sim.Plane.Wear.{NoneAbove, LastAbove, update_wear_stats_correct}
use test_flash_sim.Examples.{config, address_37, at, keeps, memory}

abbrev one_page : Page
one_page = record { state = Page.empty; read_delay = 1; write_delay = 3 }

-- A block of one page.
abbrev worn_block : ℕ → Block
worn_block erases_remaining = record {
  physical_address = 0;
  pages_invalid = 0;
  size = 1;
  pages = one_page ∷ [];
  pages_valid = 0;
  state = free;
  erases_remaining = erases_remaining;
  last_erase_time = 0;
  erase_delay = 15;
  modification_time = none;
  btype = none;
}

abbrev worn_plane : Plane
worn_plane = record {
  size = 3;
  blocks = worn_block 10 ∷ worn_block 20 ∷ worn_block 15 ∷ [];
  least_worn = 0;
  erases_remaining = 10;
  last_erase_time = 0;
  reg_read_delay = 1;
  reg_write_delay = 1;
  next_page = record {
    pkg = 0;
    die = 0;
    plane = 0;
    block = 0;
    page = 0;
    real_address = 0;
    valid = page_level;
  };
  free_blocks = 3;
}

update_wear_stats_correct_example :
    (q : Plane) × (b : Block) × (update_wear_stats worn_plane ≡ ok q)
    × (get_elem? worn_plane.blocks q.least_worn ≡ some b)
    × (q.last_erase_time ≡ b.last_erase_time)
    × (q.erases_remaining ≡ 10)
    × ((NoneAbove 10 (worn_block 20 ∷ worn_block 15 ∷ []) × (q.least_worn ≡ 0))
        ⊎ ((j : ℕ) × LastAbove 10 j (worn_block 20 ∷ worn_block 15 ∷ []) × (q.least_worn ≡ j + 1)))
update_wear_stats_correct_example =
    update_wear_stats_correct worn_plane (worn_block 10) (worn_block 20 ∷ worn_block 15 ∷ []) refl

abbrev block_address : ℕ → Address
block_address i = record address_37 { block = i; page = 0; real_address = i }

worn_plane-CountsFree : CountsFree worn_plane
unfolding is_free
worn_plane-CountsFree = record { counted = refl; word = omega arith }

abbrev write_1 : Event
write_1 = at Event.write (block_address 1)

abbrev write_done : Done Plane
write_done = record {
  status = success;
  self = record worn_plane {
    blocks =
        worn_block 10
        ∷ record (worn_block 20) {
          pages = record one_page { state = Page.valid } ∷ [];
          pages_valid = 1;
          state = active;
          modification_time = some 5;
        }
        ∷ worn_block 15
        ∷ [];
    free_blocks = 2;
  };
  event = record write_1 { time_taken = 3 };
  memory = record {
    page_data = set (replicate 64 []) 1 (7 ∷ 8 ∷ []);
    global_buffer = none;
    active_cost = record { physical_address = 0; pages_invalid = 0 } ∷ [];
    update_block = keeps;
  };
}

plane_written : Plane.write config worn_plane write_1 memory ≡ ok write_done
unfolding Plane.write Plane.put Plane.count_used Plane.is_free Plane.get_next_page Block.write
    Page.write Page.copy_payload Event.incr_time_taken Block.written Block.notify
    Address.get_linear_address Address.valid_to Address.valid_beyond Address.rank
plane_written = refl

abbrev erase_1 : Event
erase_1 = at Event.erase (block_address 1)

abbrev erase_done : Done Plane
erase_done = record {
  status = success;
  self = record worn_plane {
    blocks =
        worn_block 10
        ∷ record (worn_block 20) { erases_remaining = 19; last_erase_time = 20 }
        ∷ worn_block 15
        ∷ [];
    least_worn = 2;
    free_blocks = 4;
  };
  event = record erase_1 { time_taken = 15 };
  memory = record {
    page_data = replicate 64 [];
    global_buffer = none;
    active_cost = record { physical_address = 0; pages_invalid = 0 } ∷ [];
    update_block = keeps;
  };
}

plane_erased : Plane.erase worn_plane erase_1 memory ≡ ok erase_done
unfolding Plane.erase Plane.put Plane.get_next_page Plane.update_wear_stats Plane.wear_loop
    Block.erase Block.erased Block.notify Page.set_state Event.incr_time_taken Address.valid_to
    Address.valid_beyond Address.rank
plane_erased = refl

free_blocks-erase_example :
    4 ≡ frees erase_done.self.blocks + (if erase_1.noop || is_free free then 1 else 0)
free_blocks-erase_example =
    free_blocks-erase worn_plane erase_1 memory erase_done (worn_block 20) worn_plane-CountsFree
      refl plane_erased refl

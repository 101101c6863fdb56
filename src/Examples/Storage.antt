-- ===== src/Examples/Storage.antt =====
-- Blocks and planes, and data that is written and read back.
use test_flash_sim.Base.{
  abort, failure, set, get_elem?, ◌<◌, ◌≤◌, ℕ, ◌+◌, ◌/◌, ◌%◌, ◌≡◌, ◌↔◌, ◌≢◌, refl, some, none, List,
  [], ◌∷◌, ok, arith, success, replicate,
}
use test_flash_sim.Address.{Address, page_level}
use test_flash_sim.Address
use test_flash_sim.Event.{Event}
use test_flash_sim.Event
use test_flash_sim.Page.{Page, Done, PageState}
use test_flash_sim.Page
use test_flash_sim.Block.{Block, free, inactive, active}
use test_flash_sim.Block
use test_flash_sim.Block.Counts.{empties, invalids}
use test_flash_sim.Block.Invariant.{IsValid, new-IsValid, write-IsValid, state_documented}
use test_flash_sim.Block.Life.{Reach, here, next, writes, Reach-new-IsValid}
use test_flash_sim.Block.Append.{IsAppended, get_next_page-IsAppended}
use test_flash_sim.Plane.{Plane}
use test_flash_sim.Plane
use test_flash_sim.Die.{Die}
use test_flash_sim.Die
use test_flash_sim.Package.{Package}
use test_flash_sim.Package
use test_flash_sim.Ssd.{Ssd}
use test_flash_sim.Ssd
use test_flash_sim.Channel.{Channel}
use test_flash_sim.Channel
use test_flash_sim.ReadBack.Data.{write-read}
use test_flash_sim.Examples.{config, address_37, at, keeps, memory}

abbrev blank_page : Page
blank_page = record { state = Page.empty; read_delay = 1; write_delay = 3 }

abbrev blank_block : ℕ → Block
blank_block address = record {
  physical_address = address;
  pages_invalid = 0;
  size = 4;
  pages = blank_page ∷ blank_page ∷ blank_page ∷ blank_page ∷ [];
  pages_valid = 0;
  state = free;
  erases_remaining = 100;
  last_erase_time = 0;
  erase_delay = 15;
  modification_time = none;
  btype = none;
}

abbrev blank_plane : ℕ → Plane
blank_plane address = record {
  size = 2;
  blocks = blank_block address ∷ blank_block (address + 4) ∷ [];
  least_worn = 0;
  erases_remaining = 100;
  last_erase_time = 0;
  reg_read_delay = 1;
  reg_write_delay = 1;
  next_page = record {
    pkg = 0;
    die = 0;
    plane = 0;
    block = 0;
    page = 0;
    real_address = 0;
    valid = page_level;
  };
  free_blocks = 2;
}

-- The constructors make such planes.
blank_plane-new : Plane.new config 2 1 1 32 ≡ blank_plane 32
unfolding Plane.new Plane.new_blocks Block.new Page.new Address.empty
blank_plane-new = refl

abbrev blank_die : ℕ → Die
blank_die address = record {
  size = 2;
  planes = blank_plane address ∷ blank_plane (address + 8) ∷ [];
  least_worn = 0;
  erases_remaining = 100;
  last_erase_time = 0;
}

abbrev blank_package : ℕ → Package
blank_package address = record {
  size = 2;
  dies = blank_die address ∷ blank_die (address + 16) ∷ [];
  least_worn = 0;
  erases_remaining = 100;
  last_erase_time = 0;
}

abbrev disk : Ssd
disk = record {
  size = 2;
  packages = blank_package 0 ∷ blank_package 32 ∷ [];
  least_worn = 0;
  erases_remaining = 100;
  last_erase_time = 0;
}

abbrev channels : List Channel
channels = replicate 2 (Channel.new 1 1 8)

disk-new : (Ssd.new config channels).0 ≡ disk
unfolding Ssd.new Ssd.new_packages Package.new Package.new_dies Die.new Die.new_planes Plane.new
    Plane.new_blocks Block.new Page.new Address.empty Channel.connect Channel.new
disk-new = refl

abbrev write_37 : Event
write_37 = at Event.write address_37

abbrev read_37 : Event
read_37 = at Event.read address_37

-- What the write of page 37 leaves.
unserved : Done Ssd
unserved = record { status = failure; self = disk; event = write_37; memory = memory }

disk_done : Done Ssd
unfolding unserved
disk_done = elim (Ssd.write config disk write_37 memory) [ ok r ↦ r | abort fault ↦ unserved ]

disk_written : Ssd.write config disk write_37 memory ≡ ok disk_done
unfolding disk_done Ssd.write Ssd.put Package.write Package.put Die.write Die.put Plane.write
    Plane.put Block.write Page.write Page.copy_payload Event.incr_time_taken Block.written
    Block.notify Address.get_linear_address Address.valid_to Address.valid_beyond
disk_written = refl

write-read_example :
    (37 < 64)
    × (2 ≤ 2)
    × ((r' : Done Ssd) × (Ssd.read config disk_done.self read_37 disk_done.memory ≡ ok r')
        × (r'.status ≡ success)
        × (r'.memory.global_buffer ≡ some 37)
        × (get_elem? r'.memory.page_data 37 ≡ some (7 ∷ 8 ∷ []))
        × ((i : ℕ) → i ≢ 37 → get_elem? r'.memory.page_data i ≡ get_elem? memory.page_data i))
write-read_example =
    write-read config disk write_37 read_37 memory disk_done (7 ∷ 8 ∷ []) refl refl refl refl refl
      disk_written

-- A block of which page 1 was written.
abbrev written_block : Block
written_block = record (blank_block 36) {
  pages = blank_page ∷ record blank_page { state = Page.valid } ∷ blank_page ∷ blank_page ∷ [];
  pages_valid = 1;
  state = active;
  modification_time = some 5;
}

abbrev written_done : Done Block
written_done = record {
  status = success;
  self = written_block;
  event = record write_37 { time_taken = 3 };
  memory = record {
    page_data = set (replicate 64 []) 37 (7 ∷ 8 ∷ []);
    global_buffer = none;
    active_cost = record { physical_address = 36; pages_invalid = 0 } ∷ [];
    update_block = keeps;
  };
}

block_written : Block.write config (blank_block 36) write_37 memory ≡ ok written_done
unfolding Block.write Page.write Page.copy_payload Event.incr_time_taken Block.written Block.notify
    Address.get_linear_address
block_written = refl

abbrev built_block : Block
built_block = Block.new config 4 100 15 36

block_built : built_block ≡ blank_block 36
unfolding Block.new Page.new
block_built = refl

Reach-written : Reach config built_block written_block
unfolding Block.new Page.new
Reach-written = next here (writes write_37 memory written_done block_written)

Reach-new-IsValid_example : IsValid written_block
Reach-new-IsValid_example =
    Reach-new-IsValid config 4 100 15 36 written_block (omega arith) (omega arith) Reach-written

written_block-IsValid : IsValid written_block
written_block-IsValid =
    Reach-new-IsValid config 4 100 15 36 written_block (omega arith) (omega arith) Reach-written

state_documented_example :
    ((active ≡ free) ↔ (empties written_block.pages ≡ 4))
    × ((active ≡ inactive) ↔ (invalids written_block.pages ≡ 4))
state_documented_example = state_documented written_block written_block-IsValid

-- The next page of a block that is written in order.
abbrev write_36 : Event
write_36 = at Event.write (record address_37 { page = 0; real_address = 36 })

abbrev appended : Block
appended = record (blank_block 36) {
  pages = record blank_page { state = Page.valid } ∷ blank_page ∷ blank_page ∷ blank_page ∷ [];
  pages_valid = 1;
  state = active;
  modification_time = some 5;
}

abbrev appended_done : Done Block
appended_done = record {
  status = success;
  self = appended;
  event = record write_36 { time_taken = 3 };
  memory = record {
    page_data = set (replicate 64 []) 36 (7 ∷ 8 ∷ []);
    global_buffer = none;
    active_cost = record { physical_address = 36; pages_invalid = 0 } ∷ [];
    update_block = keeps;
  };
}

block_appended : Block.write config (blank_block 36) write_36 memory ≡ ok appended_done
unfolding Block.write Page.write Page.copy_payload Event.incr_time_taken Block.written Block.notify
    Address.get_linear_address
block_appended = refl

blank_block-IsValid : IsValid (blank_block 36)
unfolding Block.new Page.new
blank_block-IsValid = new-IsValid config 4 100 15 36 (omega arith) (omega arith)

appended-IsValid : IsValid appended
appended-IsValid =
    write-IsValid config (blank_block 36) write_36 memory appended_done blank_block-IsValid
      block_appended

appended-IsAppended : IsAppended appended
appended-IsAppended = (refl, (refl, (refl, (refl, refl))))

get_next_page-IsAppended_example :
    let r = Block.get_next_page config appended address_37 in
    (r.0 ≡ success) × (r.1.page ≡ 1) × (r.1.block ≡ 36 / 4 % 2) × (r.1.valid ≡ page_level)
get_next_page-IsAppended_example =
    get_next_page-IsAppended config appended address_37 appended-IsValid appended-IsAppended
      (omega arith) refl

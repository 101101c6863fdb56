-- ===== src/Examples/Layer.antt =====
-- The page layer on a device of two blocks of four pages.
use test_flash_sim.Base.{
  ℕ, ◌+◌, ◌-◌, ◌≤◌, ◌<◌, ◌≡◌, ◌⊎◌, refl, true, false, some, [], ◌∷◌, ok, arith, success, get_elem?,
  u64_mod,
}
use test_flash_sim.Event.{Event}
use test_flash_sim.Event
use test_flash_sim.Stats.{reset}
use test_flash_sim.PageFtl.{PageFtl, Answer, new, write, trim, capacity}
use test_flash_sim.PageFtl
use test_flash_sim.PageFtl.Accounting.{
  IsBalanced, here, writes, Served-IsBalanced, write_bounded, trim_underflow,
}
use test_flash_sim.PageFtl.Trims.{AllTrimmed, OneLeft, with_trimmed, block_start, trim_marks}
use test_flash_sim.Examples.{config, address_37, at}

abbrev request_2 : Event
request_2 = record (at Event.trim address_37) { logical_address = 2 }

-- One page is active, and all pages of the first block but one are trimmed.
abbrev one_active : PageFtl
one_active = record {
  num_pages_active = 1;
  trim_map = true ∷ true ∷ false ∷ true ∷ [];
  stats = record reset { num_ftl_write = 1 };
}

abbrev full : PageFtl
full = record one_active { num_pages_active = 8; stats = record reset { num_ftl_write = 8 } }

Served-IsBalanced_example : IsBalanced config (write config 2 full request_2).ftl
Served-IsBalanced_example =
    Served-IsBalanced config 2 full (write config 2 full request_2).ftl (omega arith) refl
      (writes request_2 here)

write_bounded_example :
    (0 < (write config 2 full request_2).ftl.num_pages_active)
    × ((write config 2 full request_2).ftl.num_pages_active ≤ capacity config 2)
unfolding capacity
write_bounded_example =
    write_bounded config 2 full request_2 (omega arith) (omega arith) (omega arith)

abbrev trimmed : Answer
trimmed = record {
  status = success;
  ftl = record {
    num_pages_active = 18446744073709551613;
    trim_map = false ∷ false ∷ false ∷ false ∷ [];
    stats = record reset { num_ftl_write = 1; num_ftl_erase = 1; num_ftl_trim = 1 };
  };
  event = request_2;
}

trim_example_done : trim config one_active request_2 ≡ ok trimmed
unfolding trim PageFtl.all_trimmed PageFtl.reset_trimmed PageFtl.charge_erase PageFtl.erase_block
    PageFtl.issue Event.incr_time_taken Event.new Event.set_address
trim_example_done = refl

trim_underflow_example : 18446744073709551613 ≡ u64_mod - (4 - 1)
trim_underflow_example =
    trim_underflow config one_active request_2 trimmed (omega arith) (omega arith) trim_example_done
      (omega arith)

trim_marks_example :
    let m = with_trimmed one_active request_2 in
    let i = block_start config request_2 in
    (r : Answer) × (trim config one_active request_2 ≡ ok r)
    × ((AllTrimmed m i 4
          × ((j : ℕ) → i ≤ j → j < i + 4 → get_elem? r.ftl.trim_map j ≡ some false)
          × ((j : ℕ) → (j < i) ⊎ (i + 4 ≤ j) → get_elem? r.ftl.trim_map j ≡ get_elem? m j))
        ⊎ (OneLeft m i 4 × (r.ftl.trim_map ≡ m)))
trim_marks_example = trim_marks config one_active request_2 (omega arith) (omega arith)

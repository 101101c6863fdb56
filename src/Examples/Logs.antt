-- ===== src/Examples/Logs.antt =====
-- The layer of log blocks, with a log block of four pages that holds one page.
use test_flash_sim.Base.{
  ℕ, ◌+◌, ◌-◌, ◌≡◌, refl, inr, none, some, [], ◌∷◌, ok, arith, length-replicate,
}
use test_flash_sim.Address.{Address, page_level, block_level, of_linear}
use test_flash_sim.Address
use test_flash_sim.Page
use test_flash_sim.Block
use test_flash_sim.Controller.{Controller}
use test_flash_sim.Bast.{Bast, LogPageBlock, State, find, logical_block}
use test_flash_sim.Bast.Requests.{write, finish, target, page_of}
use test_flash_sim.Bast.Logged.{HasWholeBlock, data_page, write_enters}
use test_flash_sim.Examples.{config, address_37}
use test_flash_sim.Examples.Cache.{counting, options, world, request_0, request_1}

-- Every block counts one page.
abbrev one_page : Controller ℕ
one_page = record counting {
  get_num_valid = λ s a. 1;
  get_free_page = λ s a. of_linear config.geometry (a.real_address + 1) page_level;
}

one_page-HasWholeBlock : (d : ℕ) → HasWholeBlock one_page options 0 (data_page options request_1 d)
unfolding Block.new
one_page-HasWholeBlock d = (
  (data_page options request_1 d).real_address - (data_page options request_1 d).page,
  refl,
  refl,
  length-replicate 4 (Page.new config.page_read_delay config.page_write_delay),
)

-- The block of page 36 holds logical page 0.
abbrev log_block : LogPageBlock
log_block = record {
  pages = some 0 ∷ none ∷ none ∷ none ∷ [];
  address = record address_37 { page = 0; real_address = 36; valid = block_level };
}

abbrev logs : Bast
logs = record {
  log_map = (0, log_block) ∷ [];
  data_list = some 4 ∷ [];
  address_shift = 2;
  drawn = 0;
}

write_enters_example :
    (s : State ℕ) × (write one_page options (λ n. 0) request_1 logs world ≡ finish one_page s)
    × (target options s.ftl request_1 ≡ ok s.event.address)
    × (target options s.ftl request_0 ≡ target options logs request_0)
unfolding find logical_block page_of of_linear Address.set_linear_level Address.set_linear_address
write_enters_example =
    write_enters one_page options (λ n. 0) request_1 request_0 logs world log_block (some 4)
      (omega arith) (λ d is_base. one_page-HasWholeBlock d) refl refl (omega arith) (omega arith)
      refl (inr (λ same. absurd (omega arith)))

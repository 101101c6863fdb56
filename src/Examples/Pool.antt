-- ===== src/Examples/Pool.antt =====
-- A manager of two blocks of four pages: one was never taken, the other has come back.
use test_flash_sim.Base.{ℕ, ◌≡◌, refl, true, some, [], ◌∷◌, ok, arith}
use test_flash_sim.Options.{Options}
use test_flash_sim.Address.{empty, block_level, set_linear_level}
use test_flash_sim.Stats.{reset}
use test_flash_sim.BlockManager.{World, has_room, used_blocks, get_page_block}
use test_flash_sim.BlockManager.Pool.{IsPool, get_page_block-Takes}
use test_flash_sim.Examples.{config}
use test_flash_sim.Examples.Cache.{counting, options, world, request_0}

abbrev two_blocks : Options
two_blocks = record options { number_of_addressable_blocks = 2 }

abbrev one_left : World ℕ
one_left = record world {
  manager = record world.manager {
    max_blocks = 2;
    free_list = some 0 ∷ [];
    invalid_list = some 8 ∷ some 12 ∷ [];
    data_active = 0;
  };
}

queue : IsPool two_blocks one_left.manager (some 4 ∷ some 0 ∷ [])
queue = record { fresh = 1; reaches = omega arith; word = omega arith; queued = refl }

room : has_room two_blocks one_left.manager ≡ true
unfolding has_room used_blocks
room = refl

get_page_block-Takes_example :
    (w' : World ℕ) × (get_page_block counting two_blocks (empty 0) request_0 one_left
      ≡ ok (set_linear_level config.geometry 4 block_level (empty 0), request_0, w'))
    × IsPool two_blocks w'.manager (some 0 ∷ [])
    × (w'.stats ≡ reset)
    × (w'.device ≡ 0)
get_page_block-Takes_example =
    get_page_block-Takes counting two_blocks (omega arith) (empty 0) request_0 one_left
      (some 4 ∷ some 0 ∷ []) room queue

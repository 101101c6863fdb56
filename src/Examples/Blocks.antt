-- ===== src/Examples/Blocks.antt =====
-- The layer that maps blocks as a whole, with one block of four pages that was never written.
use test_flash_sim.Base.{ℕ, ◌-◌, ◌≡◌, refl, false, none, [], ◌∷◌, arith}
use test_flash_sim.Address.{page_level, of_linear}
use test_flash_sim.Block
use test_flash_sim.Bdftl.{Bdftl, State, new_bpage}
use test_flash_sim.Bdftl.Requests.{finish, dlbn}
use test_flash_sim.Bdftl.Trims.{trim}
use test_flash_sim.Bdftl.Unwritten.{trim_unwritten}
use test_flash_sim.Bast.Trims.{is_inactive}
use test_flash_sim.Examples.Cache.{counting, options, world, layer, lru, request_1}

abbrev unwritten : Bdftl
unwritten = record {
  pages = layer;
  block_map = new_bpage ∷ [];
  trim_map = false ∷ false ∷ false ∷ false ∷ [];
  block_queue = [];
  inuse_block = none;
}

trim_unwritten_example :
    (s : State ℕ) × (trim counting options lru request_1 unwritten world ≡ finish counting s)
    × (s.world.device ≡ 0)
    × (s.ftl.block_map ≡ new_bpage ∷ [])
unfolding dlbn is_inactive Block.new
trim_unwritten_example =
    trim_unwritten counting options lru request_1 unwritten world new_bpage
      ((of_linear options.geometry 0 page_level).real_address
        - (of_linear options.geometry 0 page_level).page)
      0 (omega arith) refl refl refl (omega arith) (omega arith) (omega arith) refl refl refl

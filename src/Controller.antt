-- ===== src/Controller.antt =====
-- What the translation layers and the block manager ask of the Controller (class Controller of
-- OriginalFlashSim/ssd.h), and what they share with it. Of its methods the repository defines some,
-- as stubs in OriginalFlashSim/flashsim_stubs.cpp, and others nowhere: the layers work with any.
use test_flash_sim.Base.{ℕ, ◌≡◌, Option, List, Run, ok, Status, success}
use test_flash_sim.Address.{Address}
use test_flash_sim.Event.{Event}
use test_flash_sim.Page.{PageState}
use test_flash_sim.Block.{Block, BlockType}

-- `S` is the state of the device behind the controller. A pointer to a block is the number of its
-- first page, which `get_physical_address` returns; `none` is a null pointer. `block`,
-- `invalidate_page` and `set_block_type` follow such a pointer. `page_data` is what the global array
-- of that name holds of a page.
pub record Controller (S : Type 0) : Type 0 where
  pub issue : Event → S → Run (Status × Event × S)
  pub get_state : S → Address → PageState
  pub get_num_valid : S → Address → ℕ
  pub get_free_page : S → Address → Address
  pub get_block_pointer : S → Address → Option ℕ
  pub block : S → ℕ → Block
  pub invalidate_page : S → ℕ → ℕ → Run S
  pub set_block_type : S → ℕ → BlockType → S
  pub page_data : S → ℕ → Option (List ℕ)

-- The controller carries out every request that it is sent.
abbrev pub IsIssuing : {S : Type 0} → Controller S → Type 0
IsIssuing {S} k =
    (e : Event) (s : S) → (e' : Event) × (s' : S) × (k.issue e s ≡ ok (success, e', s'))

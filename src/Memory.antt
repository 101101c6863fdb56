-- ===== src/Memory.antt =====
-- What the flash arrays share: `page_data` and `global_buffer` of OriginalFlashSim/ssd_page.cpp,
-- and the container that update_block of OriginalFlashSim/ssd_bm.cpp changes.
use test_flash_sim.Base.{ℕ, Bool, Option, List, Run, ltb, length}

-- What the container of Block_manager reads of a block.
pub record Update : Type 0 where
  pub physical_address : ℕ
  pub pages_invalid : ℕ

-- `page_data` is the area that the constructor of the disk maps, page by page, indexed by linear
-- address. `global_buffer` points to one of its pages, or is unset. `active_cost` is the container
-- of Block_manager, and `update_block` a call of its method of that name. The method calls
-- `replace` of Boost with the place `physical_address / BLOCK_SIZE`, which an empty container does
-- not have: what that does is undefined, and a parameter.
pub record Memory : Type 0 where
  pub page_data : List (List ℕ)
  pub global_buffer : Option ℕ
  pub active_cost : List Update
  pub update_block : List Update → Update → Run (List Update)

-- `page_data + i * PAGE_SIZE` lies in the area.
unfoldable pub in_area : Memory → ℕ → Bool
in_area m i = ltb i (length m.page_data)

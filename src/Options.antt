-- ===== src/Options.antt =====
-- The constants of OriginalFlashSim/ssd.h that the translation layers read.
use test_flash_sim.Base.{ℕ}
use test_flash_sim.Config.{Config}

pub record Options : Type 0 where
  pub config : Config
  pub open config use *
  pub ftl_implementation : ℕ
  pub number_of_addressable_blocks : ℕ
  pub bast_log_block_limit : ℕ
  pub fast_log_block_limit : ℕ
  pub cache_dftl_limit : ℕ
  pub ram_read_delay : ℕ
  pub ram_write_delay : ℕ

-- `enum ftl_implementation`
abbrev pub impl_fast : ℕ
impl_fast = 2

abbrev pub impl_dftl : ℕ
impl_dftl = 3

abbrev pub impl_bimodal : ℕ
impl_bimodal = 4

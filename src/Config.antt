-- ===== src/Config.antt =====
-- The constants of OriginalFlashSim/ssd.h that OriginalFlashSim/ssd_config.cpp loads. Delays are
-- numbers of ticks: every time in the source is a `double` that is a sum of these.
use test_flash_sim.Base.{ℕ, Bool}

pub record Geometry : Type 0 where
  pub ssd_size : ℕ
  pub package_size : ℕ
  pub die_size : ℕ
  pub plane_size : ℕ
  pub block_size : ℕ

pub record Config : Type 0 where
  pub geometry : Geometry
  pub open geometry use *
  pub plane_reg_read_delay : ℕ
  pub plane_reg_write_delay : ℕ
  pub block_erases : ℕ
  pub block_erase_delay : ℕ
  pub page_read_delay : ℕ
  pub page_write_delay : ℕ
  pub page_enable_data : Bool
  pub page_size : ℕ
  pub bus_ctrl_delay : ℕ
  pub bus_data_delay : ℕ
  pub bus_max_connect : ℕ

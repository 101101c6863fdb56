-- ===== src/Stats.antt =====
-- OriginalFlashSim/ssd_stats.cpp: the counters of the controller. They are of type long, and grow
-- by one at a time; the printing is left out.
use test_flash_sim.Base.{ℕ}

pub record Stats : Type 0 where
  pub num_ftl_read : ℕ
  pub num_ftl_write : ℕ
  pub num_ftl_erase : ℕ
  pub num_ftl_trim : ℕ
  pub num_gc_read : ℕ
  pub num_gc_write : ℕ
  pub num_gc_erase : ℕ
  pub num_wl_read : ℕ
  pub num_wl_write : ℕ
  pub num_wl_erase : ℕ
  pub num_log_merge_switch : ℕ
  pub num_log_merge_partial : ℕ
  pub num_log_merge_full : ℕ
  pub num_page_block_to_page_conversion : ℕ
  pub num_cache_hits : ℕ
  pub num_cache_faults : ℕ
  pub num_memory_translation : ℕ
  pub num_memory_cache : ℕ
  pub num_memory_read : ℕ
  pub num_memory_write : ℕ

-- What the constructor and reset_statistics set.
abbrev pub reset : Stats
reset = record {
  num_ftl_read = 0;
  num_ftl_write = 0;
  num_ftl_erase = 0;
  num_ftl_trim = 0;
  num_gc_read = 0;
  num_gc_write = 0;
  num_gc_erase = 0;
  num_wl_read = 0;
  num_wl_write = 0;
  num_wl_erase = 0;
  num_log_merge_switch = 0;
  num_log_merge_partial = 0;
  num_log_merge_full = 0;
  num_page_block_to_page_conversion = 0;
  num_cache_hits = 0;
  num_cache_faults = 0;
  num_memory_translation = 0;
  num_memory_cache = 0;
  num_memory_read = 0;
  num_memory_write = 0;
}

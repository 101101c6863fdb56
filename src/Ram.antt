-- ===== src/Ram.antt =====
-- OriginalFlashSim/ssd_ram.cpp: delays in proportion to the size of a request.
use test_flash_sim.Base.{ℕ, ◌*◌, Status, success}
use test_flash_sim.Event.{Event, incr_time_taken}

pub record Ram : Type 0 where
  pub read_delay : ℕ
  pub write_delay : ℕ

unfoldable pub read : Ram → Event → Status × Event
unfolding incr_time_taken
read r e = (success, incr_time_taken e (r.read_delay * e.size))

unfoldable pub write : Ram → Event → Status × Event
unfolding incr_time_taken
write r e = (success, incr_time_taken e (r.write_delay * e.size))

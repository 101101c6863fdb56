-- ===== src/PageFtl.antt =====
-- FtlImpl_Page of OriginalFlashSim/FTLs/page_ftl.cpp: the translation layer that counts pages. The
-- controller behind it is the one of OriginalFlashSim/flashsim_stubs.cpp, whose `issue` returns
-- SUCCESS and leaves the event as it is. Every request goes to one fixed page.
pub mod Accounting
pub mod Trims
use test_flash_sim.Base.{
  ℕ, zero, suc, ◌+◌, ◌-◌, ◌*◌, ◌%◌, Bool, true, false, ◌&&◌, List, Run, ok, fetch, ◌>>=◌, Status,
  success, if◌then◌else◌, ◌==◌, set, u32, u64, u64_mod,
}
use test_flash_sim.Config.{Config}
use test_flash_sim.Address.{of_linear, page_level}
use test_flash_sim.Event.{Event, set_address, set_noop, incr_time_taken}
use test_flash_sim.Event
use test_flash_sim.Stats.{Stats}

-- The fields of the class that are used, with the controller's counters.
pub record PageFtl : Type 0 where
  pub num_pages_active : ℕ
  pub trim_map : List Bool
  pub stats : Stats

-- The constructor does not set the elements of the new array: they are an argument.
unfoldable pub new : List Bool → Stats → PageFtl
new unset stats = record { num_pages_active = 0; trim_map = unset; stats = stats }

-- What a call leaves.
pub record Answer : Type 0 where
  pub status : Status
  pub ftl : PageFtl
  pub event : Event

-- `Controller::issue`
unfoldable pub issue : Event → Status × Event
issue e = (success, e)

unfoldable pub addressed : Config → ℕ → Event → Event
unfolding set_noop set_address
addressed c page e = set_noop (set_address e (of_linear c.geometry page page_level)) true

unfoldable pub read : Config → PageFtl → Event → Answer
unfolding addressed issue
read c f e =
    let (status, issued) = issue (addressed c 0 e) in
    record {
      status = status;
      ftl = record f { stats = record f.stats { num_ftl_read = f.stats.num_ftl_read + 1 } };
      event = issued;
    }

-- NUMBER_OF_ADDRESSABLE_BLOCKS * BLOCK_SIZE
unfoldable pub capacity : Config → ℕ → ℕ
capacity c blocks = u32 (blocks * c.block_size)

-- The erase event of a request, as the controller returns it, charged to the request.
unfoldable pub charge_erase : Config → Event → Event
unfolding issue incr_time_taken
charge_erase c e =
    let erase =
      set_address (Event.new Event.erase e.logical_address 1 e.start_time)
        (of_linear c.geometry 0 page_level) in
    incr_time_taken e (issue erase).1.time_taken

-- `numPagesActive -= BLOCK_SIZE`, with the erase counted.
unfoldable pub erase_block : Config → PageFtl → PageFtl
erase_block c f = record f {
  num_pages_active = u64 (f.num_pages_active + (u64_mod - c.block_size));
  stats = record f.stats { num_ftl_erase = f.stats.num_ftl_erase + 1 };
}

-- `blocks` is NUMBER_OF_ADDRESSABLE_BLOCKS.
unfoldable pub write : Config → ℕ → PageFtl → Event → Answer
unfolding addressed issue capacity charge_erase erase_block
write c blocks f e =
    let counted = record f {
      stats = record f.stats { num_ftl_write = f.stats.num_ftl_write + 1 };
    } in
    let requested = addressed c 1 e in
    let full = f.num_pages_active == capacity c blocks in
    let emptied = if full then erase_block c counted else counted in
    let charged = if full then charge_erase c requested else requested in
    let (status, issued) = issue charged in
    record {
      status = status;
      ftl = record emptied { num_pages_active = u64 (emptied.num_pages_active + 1) };
      event = issued;
    }

-- The loop over the pages of the block: whether all of them are trimmed.
unfoldable pub all_trimmed : List Bool → ℕ → ℕ → Run Bool
all_trimmed trim_map i zero = ok true
all_trimmed trim_map i (suc n) = do
  trimmed ← fetch trim_map i
  rest ← all_trimmed trim_map (suc i) n
  ok (trimmed && rest)

-- The loop that resets them.
unfoldable pub reset_trimmed : List Bool → ℕ → ℕ → List Bool
reset_trimmed trim_map i zero = trim_map
reset_trimmed trim_map i (suc n) = reset_trimmed (set trim_map i false) (suc i) n

-- The index is the whole logical address, and the block that of its lower 32 bits. BLOCK_SIZE is
-- positive wherever the source defines the remainder by it.
unfoldable pub trim : Config → PageFtl → Event → Run Answer
unfolding all_trimmed reset_trimmed charge_erase erase_block
trim c f e = do
  trimmed ← fetch f.trim_map e.logical_address
  let counted = record f {
    trim_map = if trimmed then f.trim_map else set f.trim_map e.logical_address true;
    stats = record f.stats { num_ftl_trim = f.stats.num_ftl_trim + 1 };
  }
  let dlpn = u32 e.logical_address
  let start = dlpn - dlpn % c.block_size
  all ← all_trimmed counted.trim_map start c.block_size
  if all
      then ok (record {
        status = success;
        ftl = record (erase_block c counted) {
          trim_map = reset_trimmed counted.trim_map start c.block_size;
        };
        event = charge_erase c e;
      })
      else ok (record { status = success; ftl = counted; event = e })

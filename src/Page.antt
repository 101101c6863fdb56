-- ===== src/Page.antt =====
-- OriginalFlashSim/ssd_page.cpp: the smallest unit of the flash array.
use test_flash_sim.Base.{
  ℕ, Bool, true, false, not, ◌&&◌, none, some, Run, ok, abort, out_of_range, guard, ◌>>=◌, ◌>>◌,
  leb, length, set, take, Status, success, if◌then◌else◌,
}
use test_flash_sim.Config.{Config}
use test_flash_sim.Address.{get_linear_address}
use test_flash_sim.Event.{Event, incr_time_taken}
use test_flash_sim.Memory.{Memory, in_area}

-- `enum page_state`
pub data PageState : Type 0 where
  empty valid invalid : PageState

abbrev pub is_empty : PageState → Bool
is_empty empty = true
is_empty _ = false

abbrev pub is_valid : PageState → Bool
is_valid valid = true
is_valid _ = false

abbrev pub is_invalid : PageState → Bool
is_invalid invalid = true
is_invalid _ = false

pub record Page : Type 0 where
  pub state : PageState
  pub read_delay : ℕ
  pub write_delay : ℕ

unfoldable pub new : ℕ → ℕ → Page
new read_delay write_delay = record {
  state = empty;
  read_delay = read_delay;
  write_delay = write_delay;
}

-- What lies outside an array is not read or written.
abbrev inside : Bool → Run (Unit {0})
inside true = ok tt
inside false = abort out_of_range

-- What a request leaves behind in a part of the device, and its status.
pub record Done (A : Type 0) : Type 0 where
  pub status : Status
  pub self : A
  pub event : Event
  pub memory : Memory

unfoldable pub set_state : Page → PageState → Page
set_state p s = record p { state = s }

-- The buffer pointer of a read.
unfoldable pub point_buffer : Config → Event → Memory → Run Memory
unfolding get_linear_address in_area
point_buffer c e m =
    if not e.noop && c.page_enable_data
    then (do
      inside (in_area m (get_linear_address e.address))
      ok (record m { global_buffer = some (get_linear_address e.address) }))
    else ok m

unfoldable pub read : Config → Page → Event → Memory → Run (Done Page)
unfolding incr_time_taken point_buffer
read c p e m = do
  pointed ← point_buffer c e m
  ok (record {
    status = success;
    self = p;
    event = incr_time_taken e p.read_delay;
    memory = pointed;
  })

-- The copy of `PAGE_SIZE` bytes of the payload into the data area.
unfoldable pub copy_payload : Config → Event → Memory → Run Memory
unfolding get_linear_address in_area
copy_payload c e m = elim e.payload [
  | none ↦ ok m
  | some bytes ↦
      if c.page_enable_data && not e.noop
      then (do
        inside (in_area m (get_linear_address e.address) && leb c.page_size (length bytes))
        ok (record m {
          page_data = set m.page_data (get_linear_address e.address) (take c.page_size bytes);
        }))
      else ok m
]

unfoldable pub write : Config → Page → Event → Memory → Run (Done Page)
unfolding copy_payload incr_time_taken
write c p e m = do
  let timed = incr_time_taken e p.write_delay
  stored ← copy_payload c e m
  if e.noop then ok (record { status = success; self = p; event = timed; memory = stored }) else (do
    guard (is_empty p.state)
    ok (record {
      status = success;
      self = record p { state = valid };
      event = timed;
      memory = stored;
    }))

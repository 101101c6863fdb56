-- ===== src/ReadBack.antt =====
-- Data through all the levels of the flash array: what a write leaves for a read of its address
-- (OriginalFlashSim/ssd_page.cpp, and the levels above it).
mod Array
mod Device
pub mod Data
use mathlib.Core.Path.{subst}
use test_flash_sim.Base.{
  ℕ, ◌<◌, ◌≤◌, take, length, leb, ◌≡◌, inl, inr, refl, ◌∙◌, sym, ap, Bool, true, false, ◌&&◌,
  Option, some, none, List, ok, abort, arith, Option-cases, Run-cases, Bool-cases, Run, Status,
  success, ltb, ◌==◌, ◌>>=◌, set, get_elem?, get_elem?-set_self, lt-length_of_get_elem?, ◌≢◌,
}
use test_flash_sim.Config.{Config}
use test_flash_sim.Address.{
  Address, plane_level, die_level, package_level, block_level, valid_beyond, valid_to,
  get_linear_address,
}
use test_flash_sim.Event.{Event, incr_time_taken}
use test_flash_sim.Memory.{Memory, in_area}
use test_flash_sim.Page.{Page, Done, copy_payload, point_buffer}
use test_flash_sim.Page
use test_flash_sim.Block.{Block}
use test_flash_sim.Block
use test_flash_sim.Plane.{Plane}
use test_flash_sim.Plane
use test_flash_sim.Die.{Die}
use test_flash_sim.Die
use test_flash_sim.Package.{Package}
use test_flash_sim.Package
use test_flash_sim.Ssd.{Ssd}
use test_flash_sim.Ssd

-- A read that returns with success and leaves a memory.
pub record Reads {A : Type 0} (n : Memory) (run : Run (Done A)) : Type 0 where
  pub result : Done A
  pub returns : run ≡ ok result
  pub succeeds : result.status ≡ success
  pub points : result.memory ≡ n

-- The stored payload, and a read of the same address whose buffer pointer lies in the data area.
pub record ReadsBack {A : Type 0} (c : Config) (e : Event) (m : Memory) (r : Done A)
    (read : Event → Memory → Run (Done A)) : Type 0 where
  pub stored : Memory
  pub copies : copy_payload c e m ≡ ok stored
  pub stores : r.memory.page_data ≡ stored.page_data
  pub reads :
      (e' : Event) (m' n : Memory)
      → e'.address ≡ e.address
      → point_buffer c e' m' ≡ ok n
      → Reads n (read e' m')

-- The payload that was stored is a page's worth of bytes, at a place in the area.
pub payload_stored :
    (c : Config) (e : Event) (m stored : Memory) (bytes : List ℕ)
    → c.page_enable_data ≡ true
    → e.payload ≡ some bytes
    → e.noop ≡ false
    → copy_payload c e m ≡ ok stored
    → (e.address.real_address < length m.page_data)
      × (c.page_size ≤ length bytes)
      × (stored.page_data ≡ set m.page_data e.address.real_address (take c.page_size bytes))
unfolding copy_payload get_linear_address in_area
payload_stored c e m stored bytes data_on payload real copied =
    (ground arith, ground arith, ground arith)

pub buffer_points :
    (c : Config) (e : Event) (m : Memory)
    → c.page_enable_data ≡ true
    → e.noop ≡ false
    → e.address.real_address < length m.page_data
    → point_buffer c e m ≡ ok (record m { global_buffer = some e.address.real_address })
unfolding point_buffer get_linear_address in_area
buffer_points c e m data_on real area = ground arith

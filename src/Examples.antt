-- ===== src/Examples.antt =====
-- Small devices and requests on which the theorems are applied. The files below this one have the
-- applications.
mod Transmissions
mod Storage
mod Wearing
mod Zones
mod Addresses
mod Layer
mod Cache
mod Pool
mod Logs
mod Fast
mod Device
mod Arrays
mod Commands
mod Blocks
use test_flash_sim.Base.{ℕ, true, false, some, none, List, [], ◌∷◌, replicate, Run, ok}
use test_flash_sim.Config.{Geometry, Config}
use test_flash_sim.Address.{Address, page_level}
use test_flash_sim.Event.{Event, EventType}
use test_flash_sim.Memory.{Memory, Update}

abbrev pub geometry : Geometry
geometry = record { ssd_size = 2; package_size = 2; die_size = 2; plane_size = 2; block_size = 4 }

abbrev pub config : Config
config = record {
  geometry = geometry;
  plane_reg_read_delay = 1;
  plane_reg_write_delay = 1;
  block_erases = 100;
  block_erase_delay = 15;
  page_read_delay = 1;
  page_write_delay = 3;
  page_enable_data = true;
  page_size = 2;
  bus_ctrl_delay = 1;
  bus_data_delay = 1;
  bus_max_connect = 8;
}

-- Page 37 of a device of this geometry.
abbrev pub address_37 : Address
address_37 = record {
  pkg = 1;
  die = 0;
  plane = 0;
  block = 1;
  page = 1;
  real_address = 37;
  valid = page_level;
}

abbrev pub at : EventType → Address → Event
at type a = record {
  start_time = 5;
  time_taken = 0;
  bus_wait_time = 0;
  type = type;
  logical_address = 37;
  address = a;
  merge_address = a;
  log_address = a;
  replace_address = a;
  size = 1;
  payload = some (7 ∷ 8 ∷ []);
  noop = false;
}

-- A container that takes in what it is told.
abbrev pub keeps : List Update → Update → Run (List Update)
keeps blocks b = ok (b ∷ blocks)

abbrev pub memory : Memory
memory = record {
  page_data = replicate 64 [];
  global_buffer = none;
  active_cost = [];
  update_block = keeps;
}

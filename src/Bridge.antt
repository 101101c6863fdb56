-- ===== src/Bridge.antt =====
-- OriginalFlashSim/hardware_bridge.cpp: the memory of the zone table beside the simulated circuit, and
-- the calls that drive it. The circuit is generated code: what it does is a parameter.
use test_flash_sim.Base.{
  ℕ, Bool, false, ◌&&◌, Option, none, some, List, if◌then◌else◌, ltb, leb, get_elem?, set,
}

-- The ports of the circuit (class Vzns_fsm_validator): `eval` sets the clock and evaluates.
pub record Circuit (C : Type 0) : Type 0 where
  pub set_io_trigger : ℕ → C → C
  pub set_io_cmd : ℕ → C → C
  pub set_validated_target_page : ℕ → C → C
  pub set_validated_zone_id : ℕ → C → C
  pub set_bram_rdata : ℕ → C → C
  pub set_thermal_shutdown_tripped : Bool → C → C
  pub set_addr_bound_error : ℕ → C → C
  pub eval : ℕ → C → C
  pub bram_addr : C → ℕ
  pub bram_we : C → Bool
  pub bram_wdata : C → ℕ
  pub out_status : C → ℕ
  pub out_err_code : C → ℕ

-- `top` and `mock_bram_storage`, an array of 1024 words. `thermal` is `current_temperature` of
-- the controller, in tenths of a degree, `none` where there is no controller.
pub record Bridge (C : Type 0) : Type 0 where
  pub top : Option C
  pub mock_bram_storage : List ℕ
  pub bram_rdata_latch : ℕ
  pub thermal : Option ℕ

abbrev pub bram_words : ℕ
bram_words = 1024

-- A word of the array, which has one at every address that is asked for.
unfoldable pub word_at : List ℕ → ℕ → ℕ
word_at words i = elim (get_elem? words i) [ none ↦ 0 | some n ↦ n ]

-- OriginalFlashSim/thermal_manager.cpp: at 85.0 degrees the controller shuts down.
unfoldable pub check_thermal_shutdown : ℕ → Bool
check_thermal_shutdown t = leb 850 t

unfoldable pub is_tripped : Option ℕ → Bool
unfolding check_thermal_shutdown
is_tripped none = false
is_tripped (some t) = check_thermal_shutdown t

module _ {C : Type 0} (c : Circuit C) where
  -- The inputs that a tick sets before the clock rises.
  unfoldable pub drive : ℕ → Option ℕ → C → C
  unfolding is_tripped
  drive rdata thermal top =
      c.set_addr_bound_error 0
        (c.set_thermal_shutdown_tripped (is_tripped thermal) (c.set_bram_rdata rdata top))

  -- A tick of a circuit that is there: the memory answers for the address that the circuit gave
  -- before the clock rose, and takes what it gives after.
  unfoldable pub tick_circuit : C → Bridge C → Bridge C
  unfolding drive word_at
  tick_circuit top b =
      let current_addr = c.bram_addr top in
      let inside = ltb current_addr bram_words in
      let risen = c.eval 1 (drive (if inside then b.bram_rdata_latch else 0) b.thermal top) in
      let latch = if inside then word_at b.mock_bram_storage current_addr else b.bram_rdata_latch in
      record b {
        top = some (c.eval 0 (c.set_bram_rdata latch risen));
        mock_bram_storage =
            if c.bram_we risen && inside
            then set b.mock_bram_storage current_addr (c.bram_wdata risen)
            else b.mock_bram_storage;
        bram_rdata_latch = latch;
      }

  unfoldable pub verilator_tick_hardware : Bridge C → Bridge C
  unfolding tick_circuit
  verilator_tick_hardware b = elim b.top [ none ↦ b | some top ↦ tick_circuit top b ]

  -- `if (top) top->...= val`
  unfoldable pub with_top : (C → C) → Bridge C → Bridge C
  with_top f b = elim b.top [ none ↦ b | some top ↦ record b { top = some (f top) } ]

  unfoldable pub sim_set_io_trigger : ℕ → Bridge C → Bridge C
  unfolding with_top
  sim_set_io_trigger val b = with_top (c.set_io_trigger val) b

  unfoldable pub sim_set_io_cmd : ℕ → Bridge C → Bridge C
  unfolding with_top
  sim_set_io_cmd val b = with_top (c.set_io_cmd val) b

  unfoldable pub sim_set_validated_target_page : ℕ → Bridge C → Bridge C
  unfolding with_top
  sim_set_validated_target_page val b = with_top (c.set_validated_target_page val) b

  unfoldable pub sim_set_validated_zone_id : ℕ → Bridge C → Bridge C
  unfolding with_top
  sim_set_validated_zone_id val b = with_top (c.set_validated_zone_id val) b

  -- The status is asked for after a tick.
  unfoldable pub sim_get_out_status : Bridge C → ℕ × Bridge C
  unfolding verilator_tick_hardware
  sim_get_out_status b =
      let ticked = verilator_tick_hardware b in
      (elim ticked.top [ none ↦ 0 | some top ↦ c.out_status top ], ticked)

  unfoldable pub sim_get_out_err_code : Bridge C → ℕ
  sim_get_out_err_code b = elim b.top [ none ↦ 0 | some top ↦ c.out_err_code top ]

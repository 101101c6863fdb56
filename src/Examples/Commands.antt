-- ===== src/Examples/Commands.antt =====
-- A write of logical block 70, page 6 of zone 1, on a circuit that answers 3 at once.
use test_flash_sim.Base.{ℕ, ◌≤◌, ◌<◌, ◌≡◌, ◌≢◌, ◌⊎◌, none, some, [], ok, arith, refl}
use test_flash_sim.Bridge.{
  Bridge, sim_set_io_trigger, sim_set_io_cmd, sim_set_validated_target_page,
  sim_set_validated_zone_id, sim_get_out_status, verilator_tick_hardware, tick_circuit,
}
use test_flash_sim.Driver.{
  Sqe, Cqe, Driver, hardware_cmd, submit, csr_write32, set_lba, zns_process_nvme_command,
}
use test_flash_sim.Bridge
use test_flash_sim.Driver.Ends.{status_after, after, zns_process_nvme_command_ends}
use test_flash_sim.Examples.Device.{ready}

abbrev command : Sqe
command = record { opcode = 1; cid = 7; slba = 70; zsa = 0 }

abbrev driver : Driver ℕ
driver = record {
  current_lba_accumulator = 0;
  stub_sq_tail = 0;
  stub_cq_head = 0;
  bridge = record { top = some 0; mock_bram_storage = []; bram_rdata_latch = 0; thermal = none };
}

answers_three : status_after ready 0 (submit ready 1 70 driver).bridge ≡ 3
unfolding status_after after sim_get_out_status verilator_tick_hardware tick_circuit submit
    csr_write32 set_lba sim_set_io_trigger sim_set_io_cmd sim_set_validated_target_page
    sim_set_validated_zone_id Bridge.with_top
answers_three = refl

zns_process_nvme_command_ends_example :
    (a : Cqe) × (t : Driver ℕ) × (j : ℕ) × (zns_process_nvme_command ready 1 command driver
      ≡ ok (a, t))
    × (a.cid ≡ 7)
    × (t.current_lba_accumulator ≡ 70)
    × (j ≤ 0)
    × (((status_after ready j (submit ready 1 70 driver).bridge ≡ 3) × (a.status ≡ 0))
        ⊎ ((status_after ready j (submit ready 1 70 driver).bridge ≢ 3)
            × (status_after ready j (submit ready 1 70 driver).bridge ≢ 2)
            × (status_after ready j (submit ready 1 70 driver).bridge ≢ 0)
            × (512 < a.status)))
    × ((b : Bridge ℕ) × ((submit ready 1 70 driver).bridge
          ≡ sim_set_io_trigger ready 1 (
              sim_set_io_cmd ready 1
                (sim_set_validated_zone_id ready 1 (sim_set_validated_target_page ready 6 b)))))
unfolding hardware_cmd
zns_process_nvme_command_ends_example =
    zns_process_nvme_command_ends ready 0 1 command driver refl (omega arith)
      (omega (arith, answers_three)) (omega (arith, answers_three))

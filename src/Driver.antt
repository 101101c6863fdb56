-- ===== src/Driver.antt =====
-- OriginalFlashSim/zns_driver.c: commands of the host become writes of registers, which the bridge
-- takes to the circuit.
pub mod Ends
use test_flash_sim.Base.{
  ℕ, zero, suc, ◌+◌, ◌*◌, ◌/◌, ◌%◌, true, false, ◌||◌, Option, none, some, Run, ok, abort,
  out_of_fuel, ◌>>=◌, if◌then◌else◌, ◌==◌, u32, u32_mod,
}
use test_flash_sim.Bridge.{
  Circuit, Bridge, verilator_tick_hardware, sim_set_io_trigger, sim_set_io_cmd,
  sim_set_validated_target_page, sim_set_validated_zone_id, sim_get_out_status,
  sim_get_out_err_code,
}

-- The registers of generated/csr.h, each of which has an address of its own.
pub data Register : Type 0 where
  trigger nvme_opcode nvme_lba_lo nvme_lba_hi nvme_blocks sq_tail_db cq_head_db : Register

-- The fields that the driver reads of a command, and writes of a completion.
pub record Sqe : Type 0 where
  pub opcode : ℕ
  pub cid : ℕ
  pub slba : ℕ
  pub zsa : ℕ

pub record Cqe : Type 0 where
  pub cdw0 : ℕ
  pub cid : ℕ
  pub status : ℕ

pub record Driver (C : Type 0) : Type 0 where
  pub current_lba_accumulator : ℕ
  pub stub_sq_tail : ℕ
  pub stub_cq_head : ℕ
  pub bridge : Bridge C

-- The command for the circuit, or the status of a command that it has none for.
unfoldable pub hardware_cmd : Sqe → Option ℕ × ℕ
hardware_cmd q =
    if q.opcode == 2
    then (some 0, 0)
    else (if q.opcode == 1
        then (some 1, 0)
        else (if q.opcode == 121
            then (if q.zsa % 256 == 4 then (some 2, 0) else (none, 516))
            else (none, 514)))

-- The status code of an error of the circuit.
unfoldable pub nvme_sc : ℕ → ℕ
nvme_sc hw_error =
    if hw_error == 1
    then 130
    else (if hw_error == 2
        then 129
        else (if hw_error == 3
            then 128
            else (if hw_error == 5
                then 36
                else (if hw_error == 7 then 131 else (if hw_error == 8 then 36 else 6)))))

-- `(1 << 9) | (nvme_sc << 1)`, and 0 after a success.
unfoldable pub status_word : ℕ → ℕ → ℕ
unfolding nvme_sc
status_word hw_status hw_error = if hw_status == 3 then 0 else 512 + 2 * nvme_sc hw_error

module _ {C : Type 0} (c : Circuit C) where
  -- The page and the zone of the accumulated address go to the circuit.
  unfoldable pub set_lba : ℕ → Driver C → Driver C
  unfolding sim_set_validated_target_page sim_set_validated_zone_id
  set_lba lba s = record s {
    current_lba_accumulator = lba;
    bridge =
        sim_set_validated_zone_id c (u32 (lba / 64))
          (sim_set_validated_target_page c (lba % 64) s.bridge);
  }

  unfoldable pub csr_write32 : ℕ → Register → Driver C → Driver C
  unfolding set_lba sim_set_io_trigger sim_set_io_cmd
  csr_write32 val trigger s = record s { bridge = sim_set_io_trigger c (val % 2) s.bridge }
  csr_write32 val nvme_lba_lo s = set_lba (s.current_lba_accumulator / u32_mod * u32_mod + val) s
  csr_write32 val nvme_lba_hi s = set_lba (s.current_lba_accumulator % u32_mod + val * u32_mod) s
  csr_write32 val nvme_opcode s = record s { bridge = sim_set_io_cmd c (val % 256) s.bridge }
  csr_write32 val sq_tail_db s = record s { stub_sq_tail = val }
  csr_write32 val cq_head_db s = record s { stub_cq_head = val }
  csr_write32 val nvme_blocks s = s

  unfoldable pub zns_controller_init : Driver C → Driver C
  unfolding sim_set_io_trigger sim_set_io_cmd sim_set_validated_target_page
      sim_set_validated_zone_id
  zns_controller_init s = record s {
    current_lba_accumulator = 0;
    bridge =
        sim_set_validated_zone_id c 0 (
          sim_set_validated_target_page c 0 (sim_set_io_cmd c 0 (sim_set_io_trigger c 0 s.bridge)));
  }

  -- The writes that start a command.
  unfoldable pub submit : ℕ → ℕ → Driver C → Driver C
  unfolding csr_write32
  submit cmd slba s = csr_write32 1 trigger (
      csr_write32 0 nvme_blocks (
        csr_write32 cmd nvme_opcode
          (csr_write32 (u32 slba) nvme_lba_lo (csr_write32 (u32 (slba / u32_mod)) nvme_lba_hi s))))

  -- The loop that waits, of at most `n` rounds, each of which is a tick.
  unfoldable pub await : ℕ → Bridge C → Run (ℕ × Bridge C)
  unfolding sim_get_out_status
  await zero b = abort out_of_fuel
  await (suc n) b =
      let polled = sim_get_out_status c b in
      elim (polled.0 == 2 || polled.0 == 0) [ true ↦ await n polled.1 | false ↦ ok polled ]

  -- The trigger goes, and the circuit ticks twice.
  unfoldable pub finish : Bridge C → Driver C → Driver C
  unfolding csr_write32 verilator_tick_hardware
  finish b s =
      let released = csr_write32 0 trigger (record s { bridge = b }) in
      record released {
        bridge = verilator_tick_hardware c (verilator_tick_hardware c released.bridge);
      }

  -- With a loop of at most `n` rounds.
  unfoldable pub zns_process_nvme_command : ℕ → Sqe → Driver C → Run (Cqe × Driver C)
  unfolding hardware_cmd submit await status_word finish sim_get_out_err_code
  zns_process_nvme_command n q s = elim (hardware_cmd q).0 [
    | none ↦ ok (record { cdw0 = 0; cid = q.cid; status = (hardware_cmd q).1 }, s)
    | some hw ↦ do
      let submitted = submit hw q.slba s
      (hw_status, b) ← await n submitted.bridge
      let status = status_word hw_status (sim_get_out_err_code c b)
      ok (record { cdw0 = 0; cid = q.cid; status = status }, finish b submitted)
  ]

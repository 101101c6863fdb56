-- ===== src/Driver/Ends.antt =====
-- How a command of OriginalFlashSim/zns_driver.c ends.
use test_flash_sim.Base.{
  ℕ, zero, suc, ◌+◌, ◌*◌, ◌/◌, ◌%◌, ◌≤◌, ◌<◌, ◌≡◌, ◌≢◌, ◌⊎◌, inl, inr, refl, ap, ◌||◌, some, ok,
  arith, Bool-cases, ◌==◌, u32, u32_mod, u64_mod,
}
use test_flash_sim.Bridge.{
  Circuit, Bridge, verilator_tick_hardware, sim_set_io_trigger, sim_set_io_cmd,
  sim_set_validated_target_page, sim_set_validated_zone_id, sim_get_out_status,
  sim_get_out_err_code,
}
use test_flash_sim.Driver.{
  Register, Sqe, Cqe, Driver, hardware_cmd, nvme_sc, status_word, set_lba, csr_write32, submit,
  await, finish, zns_process_nvme_command,
}

module _ {C : Type 0} (c : Circuit C) where
  -- The circuit after a number of ticks, and the status that it then shows at the next.
  unfoldable pub after : ℕ → Bridge C → Bridge C
  after zero b = b
  after (suc m) b = after m (verilator_tick_hardware c b)

  unfoldable pub status_after : ℕ → Bridge C → ℕ
  unfolding after
  status_after m b = (sim_get_out_status c (after m b)).0

  await_ends :
      (m : ℕ) (b : Bridge C)
      → status_after m b ≢ 2
      → status_after m b ≢ 0
      → (j : ℕ) × (j ≤ m)
        × (r : Bridge C) × (await c (suc m) b ≡ ok (status_after j b, r))
        × (status_after j b ≢ 2)
        × (status_after j b ≢ 0)
  unfolding await status_after after sim_get_out_status
  await_ends zero b not_busy not_idle =
      (zero, omega arith, verilator_tick_hardware c b, ground arith, not_busy, not_idle)
  await_ends (suc m) b not_busy not_idle =
      let first = (sim_get_out_status c b).0 in
      elim (Bool-cases (first == 2 || first == 0)) [
        | inl waits ↦
            let (j, early, r, ran, busy, idle) =
              await_ends m (verilator_tick_hardware c b) not_busy not_idle in
            (suc j, omega arith, r, ground (arith, waits, ran), busy, idle)
        | inr answers ↦ (
          zero,
          omega arith,
          verilator_tick_hardware c b,
          ground (arith, answers),
          ground (arith, answers),
          ground (arith, answers),
        )
      ]

  whole_lba :
      (acc slba : ℕ)
      → slba < u64_mod
      → (acc % u32_mod + slba / u32_mod % u32_mod * u32_mod) / u32_mod * u32_mod + slba % u32_mod
        ≡ slba
  whole_lba acc slba h = omega arith

  -- What the circuit is sent of an address, with what it had before.
  submit_addresses :
      (cmd slba : ℕ) (s : Driver C)
      → slba < u64_mod
      → ((submit c cmd slba s).current_lba_accumulator ≡ slba)
        × ((b : Bridge C) × ((submit c cmd slba s).bridge
              ≡ sim_set_io_trigger c 1 (
                  sim_set_io_cmd c (cmd % 256) (
                    sim_set_validated_zone_id c
                      (u32 (slba / 64))
                      (sim_set_validated_target_page c (slba % 64) b)))))
  unfolding submit csr_write32 set_lba
  submit_addresses cmd slba s fits =
      let whole = whole_lba s.current_lba_accumulator slba fits in
      let high = csr_write32 c (u32 (slba / u32_mod)) Register.nvme_lba_hi s in
      (
        whole,
        (
          high.bridge,
          ap
              (λ (n : ℕ). sim_set_io_trigger c 1 (
                sim_set_io_cmd c (cmd % 256) (
                  sim_set_validated_zone_id c (u32 (n / 64))
                    (sim_set_validated_target_page c (n % 64) high.bridge))))
              whole,
        ),
      )

  error_word : (hw_status hw_error : ℕ) → hw_status ≢ 3 → 512 < status_word hw_status hw_error
  unfolding status_word nvme_sc
  error_word hw_status hw_error failed = ground arith

  -- Let a command be one that the circuit has, its address of 64 bits, and let the circuit,
  -- once the command is submitted, show a status other than 0 and 2 after m ticks and one more.
  -- Then the loop ends with m + 1 rounds at most, whatever address was accumulated before: the
  -- circuit got the zone and the page of the address of the command, the completion has its
  -- identifier, and its status is 0 if the status that ended the wait, one of the first m + 1
  -- and neither 0 nor 2, is 3, and an error above 512 if it is another.
  pub zns_process_nvme_command_ends :
      (m cmd : ℕ) (q : Sqe) (s : Driver C)
      → (hardware_cmd q).0 ≡ some cmd
      → q.slba < u64_mod
      → status_after m (submit c cmd q.slba s).bridge ≢ 2
      → status_after m (submit c cmd q.slba s).bridge ≢ 0
      → (a : Cqe) × (t : Driver C) × (j : ℕ) × (zns_process_nvme_command c (suc m) q s ≡ ok (a, t))
        × (a.cid ≡ q.cid)
        × (t.current_lba_accumulator ≡ q.slba)
        × (j ≤ m)
        × (((status_after j (submit c cmd q.slba s).bridge ≡ 3) × (a.status ≡ 0))
            ⊎ ((status_after j (submit c cmd q.slba s).bridge ≢ 3)
                × (status_after j (submit c cmd q.slba s).bridge ≢ 2)
                × (status_after j (submit c cmd q.slba s).bridge ≢ 0)
                × (512 < a.status)))
        × ((b : Bridge C) × ((submit c cmd q.slba s).bridge
              ≡ sim_set_io_trigger c 1 (
                  sim_set_io_cmd c (cmd % 256) (
                    sim_set_validated_zone_id c
                      (u32 (q.slba / 64))
                      (sim_set_validated_target_page c (q.slba % 64) b)))))
  unfolding zns_process_nvme_command
  zns_process_nvme_command_ends m cmd q s known fits not_busy not_idle =
      let submitted = submit c cmd q.slba s in
      let (whole, addressed) = submit_addresses cmd q.slba s fits in
      let (j, early, b, ran, busy, idle) = await_ends m submitted.bridge not_busy not_idle in
      let hw = status_after j submitted.bridge in
      let word = status_word hw (sim_get_out_err_code c b) in
      (
        record { cdw0 = 0; cid = q.cid; status = word },
        finish c b submitted,
        j,
        ground (arith, known, ran),
        refl,
        (unfold finish csr_write32 in whole),
        early,
        elim (Bool-cases (hw == 3)) [
          | inl done ↦ inl (ground (arith, done), (unfold status_word in ground (arith, done)))
          | inr failed ↦ inr (
            ground (arith, failed),
            busy,
            idle,
            error_word hw (sim_get_out_err_code c b) (ground (arith, failed)),
          )
        ],
        addressed,
      )

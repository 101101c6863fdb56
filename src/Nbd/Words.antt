-- ===== src/Nbd/Words.antt =====
-- The array of OriginalFlashSim/hardware_bridge.cpp keeps its size under the calls of the server.
use test_flash_sim.Base.{
  ℕ, zero, suc, ◌≡◌, ◌∙◌, refl, inl, inr, ◌||◌, List, arith, length, length-set, Bool-cases,
  Option-cases, if◌then◌else◌, ltb, ◌==◌,
}
use test_flash_sim.Bridge.{
  Circuit, Bridge, bram_words, drive, tick_circuit, verilator_tick_hardware, with_top,
  sim_set_io_trigger, sim_set_io_cmd, sim_set_validated_target_page, sim_set_validated_zone_id,
  sim_get_out_status,
}
use test_flash_sim.Nbd.{Disk, Host, Request, target_zone_id, target_page}
use test_flash_sim.Nbd.Requests.{submit, release, poll, wait}

-- How many words the array has.
abbrev pub num_words : {C : Type 0} → Bridge C → ℕ
num_words b = length b.mock_bram_storage

module _ {C : Type 0} (c : Circuit C) where
  num_words-with_top : (f : C → C) (b : Bridge C) → num_words (with_top c f b) ≡ num_words b
  unfolding with_top
  num_words-with_top f b = ground arith

  pub num_words-tick : (b : Bridge C) → num_words (verilator_tick_hardware c b) ≡ num_words b
  unfolding verilator_tick_hardware tick_circuit
  num_words-tick b = elim (Option-cases b.top) [
    | inl missing ↦ ground (arith, missing)
    | inr (top, there) ↦
        let risen = c.eval 1 (
          drive c (if ltb (c.bram_addr top) bram_words then b.bram_rdata_latch else 0) b.thermal
            top) in
        ground (arith, there, length-set b.mock_bram_storage (c.bram_addr top) (c.bram_wdata risen))
  ]

  pub num_words-status : (b : Bridge C) → num_words (sim_get_out_status c b).1 ≡ num_words b
  unfolding sim_get_out_status
  num_words-status b = num_words-tick b

  pub num_words-trigger :
      (n : ℕ) (b : Bridge C) → num_words (sim_set_io_trigger c n b) ≡ num_words b
  unfolding sim_set_io_trigger
  num_words-trigger n b = num_words-with_top (c.set_io_trigger n) b

  pub num_words-cmd : (n : ℕ) (b : Bridge C) → num_words (sim_set_io_cmd c n b) ≡ num_words b
  unfolding sim_set_io_cmd
  num_words-cmd n b = num_words-with_top (c.set_io_cmd n) b

  pub num_words-zone :
      (n : ℕ) (b : Bridge C) → num_words (sim_set_validated_zone_id c n b) ≡ num_words b
  unfolding sim_set_validated_zone_id
  num_words-zone n b = num_words-with_top (c.set_validated_zone_id n) b

  pub num_words-page :
      (n : ℕ) (b : Bridge C) → num_words (sim_set_validated_target_page c n b) ≡ num_words b
  unfolding sim_set_validated_target_page
  num_words-page n b = num_words-with_top (c.set_validated_target_page n) b

module _ {C X : Type 0} (c : Circuit C) (d : Disk) (h : Host X) (unset : ℕ → List ℕ) where
  pub num_words-submit :
      (cmd : ℕ) (r : Request) (b : Bridge C) → num_words (submit c d h unset cmd r b) ≡ num_words b
  unfolding submit
  num_words-submit cmd r b =
      let commanded = sim_set_io_cmd c cmd b in
      let zoned = sim_set_validated_zone_id c (target_zone_id d r) commanded in
      let paged = sim_set_validated_target_page c (target_page d r) zoned in
      num_words-trigger c 1 paged
      ∙ num_words-page c (target_page d r) zoned
      ∙ num_words-zone c (target_zone_id d r) commanded
      ∙ num_words-cmd c cmd b

  pub num_words-release : (b : Bridge C) → num_words (release c d h unset b) ≡ num_words b
  unfolding release
  num_words-release b = num_words-tick c (sim_set_io_trigger c 0 b) ∙ num_words-trigger c 0 b

  num_words-poll :
      (n status : ℕ) (b : Bridge C) → num_words (poll c d h unset n status b).1 ≡ num_words b
  unfolding poll
  num_words-poll zero status b = refl
  num_words-poll (suc n) status b =
      let polled = sim_get_out_status c b in
      elim (Bool-cases (polled.0 == 3 || polled.0 == 1)) [
        | inl answered ↦ ground (arith, answered, num_words-status c b)
        | inr busy ↦ ground (arith, busy, num_words-status c b, num_words-poll n polled.0 polled.1)
      ]

  pub num_words-wait :
      (r : Request) (words : List ℕ) (b : Bridge C)
      → num_words (wait c d h unset r words b).1 ≡ length words
  unfolding wait
  num_words-wait r words b =
      let aligned = record b { mock_bram_storage = words } in
      let submitted = submit c d h unset 1 r aligned in
      num_words-release (poll c d h unset 10 0 submitted).1
      ∙ num_words-poll 10 0 submitted
      ∙ num_words-submit 1 r aligned

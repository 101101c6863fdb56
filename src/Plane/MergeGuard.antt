-- ===== src/Plane/MergeGuard.antt =====
-- When Plane::_merge gets past its asserts.
use test_flash_sim.Base.{◌≡◌, ◌≢◌, inl, inr, abort, assertion, arith, Bool-cases, leb, ltb, ◌&&◌}
use test_flash_sim.Config.{Config}
use test_flash_sim.Address.{compare, rank, block_level, plane_level, valid_beyond}
use test_flash_sim.Address.Levels.{compare_correct}
use test_flash_sim.Event.{Event}
use test_flash_sim.Memory.{Memory}
use test_flash_sim.Plane.{Plane}
use test_flash_sim.Plane.Merge.{merge}

-- _merge asserts that its two addresses agree down to the block, so a merge of two different
-- blocks stops at a failed assert, whatever the blocks hold.
pub merge_other_block :
    (c : Config) (p : Plane) (e : Event) (m : Memory)
    → e.address.block ≢ e.merge_address.block
    → merge c p e m ≡ abort assertion
unfolding merge
merge_other_block c p e m different =
    let agree = (compare_correct e.address e.merge_address block_level).0 in
    elim (Bool-cases (leb (rank block_level) (rank (compare e.address e.merge_address)))) [
      | inl same ↦ absurd (different ((agree (ground arith)).2.3))
      | inr refused ↦
          elim (Bool-cases (ltb e.address.block p.size && valid_beyond e.address plane_level)) [
            | inl first ↦ rw (first, refused)
            | inr first ↦ rw first
          ]
    ]

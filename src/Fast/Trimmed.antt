-- ===== src/Fast/Trimmed.antt =====
-- What a trim of OriginalFlashSim/FTLs/fast_ftl.cpp leaves of the RW log.
use test_flash_sim.Base.{
  ℕ, suc, ◌+◌, ◌-◌, ◌≤◌, ◌≡◌, ◌∙◌, inl, inr, refl, sym, ap, none, some, List, [], ◌∷◌, Run, ok,
  fetch, arith, get_elem?, Bool-cases, Option-cases, Run-cases,
}
use test_flash_sim.Options.{Options}
use test_flash_sim.Address.{Address, page_level, of_linear, get_linear_address}
use test_flash_sim.Controller.{Controller}
use test_flash_sim.Bast.Trims.{is_inactive}
use test_flash_sim.BlockManager.{erase_and_invalidate}
use test_flash_sim.Block.{log}
use test_flash_sim.Fast.{
  LogBlock, Fast, State, logical_block, lbn_offset, set_data, page_in, find_logged,
}
use test_flash_sim.Fast.Logs.{set_entry}
use test_flash_sim.Fast.Requests.{is_in_sequential}
use test_flash_sim.Fast.Trims.{
  erase_if_inactive, invalidate_at, forget_data, forget_sequential, trim_logged, trim_sequential,
  trim_data, trim_page,
}
use test_flash_sim.Fast.Kept.{SameLog, SameLog-refl, SameLog-trans, bind_ok}
use test_flash_sim.Fast.Recycled.{SameLog-eq, set_entry-SameLog}

-- A search that finds a block tells its place in the list.
find_logged_place :
    (la : ℕ) (blocks : List LogBlock) (i : ℕ) (x : ℕ × LogBlock × ℕ)
    → find_logged la blocks i ≡ ok (some x)
    → (i ≤ x.0) × (get_elem? blocks (x.0 - i) ≡ some x.1)
unfolding find_logged
find_logged_place la [] i x h = absurd (cc)
find_logged_place la (b ∷ rest) i x h = elim (Run-cases (page_in la b.a_pages 0 b.num_pages)) [
  | inr (f, stopped) ↦ absurd (ground (arith, h, stopped))
  | inl (r, searched) ↦ elim (Option-cases r) [
    | inr (j, found) ↦
        let index : x.0 ≡ i = ground (arith, h, searched, found) in
        let block : x.1 ≡ b = ground (arith, h, searched, found) in
        let first : x.0 - i ≡ 0 = omega (arith, index) in
        (omega (arith, index), ap (get_elem? (b ∷ rest)) first ∙ ap some (sym block))
    | inl nothing ↦
        let (after, there) =
          find_logged_place la rest (suc i) x (ground (arith, h, searched, nothing)) in
        let later : x.0 - i ≡ suc (x.0 - suc i) = omega (arith, after) in
        (omega (arith, after), ap (get_elem? (b ∷ rest)) later ∙ there)
  ]
]

module _ {S : Type 0} (k : Controller S) (o : Options) where
  erase_if_inactive-SameLog :
      (p : ℕ) (a : Address) (forget : State S → Run (State S)) (s t : State S)
      → ((u v : State S) → forget u ≡ ok v → SameLog u.ftl v.ftl)
      → erase_if_inactive k o p a forget s ≡ ok t
      → SameLog s.ftl t.ftl
  unfolding erase_if_inactive
  erase_if_inactive-SameLog p a forget s t keeps h =
      elim (Bool-cases (is_inactive (k.block s.world.device p).state)) [
        | inr used ↦ SameLog-refl s.ftl t.ftl (ground (arith, h, used)) (ground (arith, h, used))
        | inl unused ↦ elim (Run-cases (erase_and_invalidate k o s.event a log s.world)) [
          | inr (x, stopped) ↦ absurd (ground (arith, h, unused, stopped))
          | inl (c, erased) ↦
              keeps (record s { event = c.0; world = c.1 }) t (ground (arith, h, unused, erased))
        ]
      ]

  forget_data-SameLog :
      (lba : ℕ) (s t : State S) → forget_data k o lba s ≡ ok t → SameLog s.ftl t.ftl
  unfolding forget_data set_data
  forget_data-SameLog lba s t h = SameLog-refl s.ftl t.ftl (ground arith) (ground arith)

  forget_sequential-SameLog : (s t : State S) → forget_sequential k o s ≡ ok t → SameLog s.ftl t.ftl
  unfolding forget_sequential
  forget_sequential-SameLog s t h = SameLog-refl s.ftl t.ftl (ground arith) (ground arith)

  invalidate_at_kept :
      (a : Address) (s : State S) (r : ℕ × State S) → invalidate_at k o a s ≡ ok r → r.1.ftl ≡ s.ftl
  unfolding invalidate_at
  invalidate_at_kept a s r h = ground arith

  trim_logged-SameLog :
      (lba i : ℕ) (b : LogBlock) (j : ℕ) (s t : State S)
      → get_elem? s.ftl.log_pages i ≡ some b
      → trim_logged k o lba i b j s ≡ ok t
      → SameLog s.ftl t.ftl
  unfolding trim_logged
  trim_logged-SameLog lba i b j s t found h =
      let a = of_linear o.geometry (get_linear_address b.address + j) page_level in
      let (p, invalidated, h1) = bind_ok (invalidate_at k o a s) _ t h in
      let same = invalidate_at_kept a s p invalidated in
      let there = ap (λ (f : Fast). get_elem? f.log_pages i) same ∙ found in
      SameLog-trans
        (SameLog-trans (SameLog-eq same (SameLog-refl s.ftl s.ftl refl refl))
          (set_entry-SameLog i b j none p.1 there))
        (erase_if_inactive-SameLog p.0 b.address (forget_data k o lba) (set_entry i b j none p.1) t
          (forget_data-SameLog lba) h1)

  trim_sequential-SameLog : (s t : State S) → trim_sequential k o s ≡ ok t → SameLog s.ftl t.ftl
  unfolding trim_sequential
  trim_sequential-SameLog s t h =
      let a =
        of_linear o.geometry (get_linear_address s.ftl.sequential_address + lbn_offset o s.event)
          page_level in
      let (p, invalidated, h1) = bind_ok (invalidate_at k o a s) _ t h in
      let same = invalidate_at_kept a s p invalidated in
      SameLog-trans (SameLog-eq same (SameLog-refl s.ftl s.ftl refl refl))
        (erase_if_inactive-SameLog p.0 a (forget_sequential k o) p.1 t forget_sequential-SameLog h1)

  trim_data-SameLog : (lba : ℕ) (s t : State S) → trim_data k o lba s ≡ ok t → SameLog s.ftl t.ftl
  unfolding trim_data
  trim_data-SameLog lba s t h =
      let (base, found, h1) = bind_ok (fetch s.ftl.data_list lba) _ t h in
      elim (Option-cases base) [
        | inl nothing ↦
            SameLog-refl s.ftl t.ftl (ground (arith, h1, nothing)) (ground (arith, h1, nothing))
        | inr (d, mapped) ↦
            let a = of_linear o.geometry (d + lbn_offset o s.event) page_level in
            elim (Run-cases (invalidate_at k o a s)) [
              | inr (x, stopped) ↦ absurd (ground (arith, h1, mapped, stopped))
              | inl (p, invalidated) ↦
                  let same = invalidate_at_kept a s p invalidated in
                  SameLog-trans (SameLog-eq same (SameLog-refl s.ftl s.ftl refl refl)) (
                    erase_if_inactive-SameLog p.0 a (forget_data k o lba) p.1 t
                      (forget_data-SameLog lba) (ground (arith, h1, mapped, invalidated)))
            ]
      ]

  pub trim_page-SameLog : (s t : State S) → trim_page k o s ≡ ok t → SameLog s.ftl t.ftl
  unfolding trim_page
  trim_page-SameLog s t h =
      let lba = logical_block s.ftl s.event in
      let (place, searched, h1) =
        bind_ok (find_logged s.event.logical_address s.ftl.log_pages 0) _ t h in
      elim (Option-cases place) [
        | inr (x, found) ↦
            let (low, there) =
              find_logged_place s.event.logical_address s.ftl.log_pages 0 x
                (searched ∙ ap ok found) in
            let whole : x.0 ≡ x.0 - 0 = omega arith in
            trim_logged-SameLog lba x.0 x.1 x.2 s t (ap (get_elem? s.ftl.log_pages) whole ∙ there)
              (ground (arith, h1, found))
        | inl nothing ↦ elim (Bool-cases (is_in_sequential o s.ftl s.event)) [
          | inl sequential ↦ trim_sequential-SameLog s t (ground (arith, h1, nothing, sequential))
          | inr other ↦ trim_data-SameLog lba s t (ground (arith, h1, nothing, other))
        ]
      ]

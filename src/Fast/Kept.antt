-- ===== src/Fast/Kept.antt =====
-- What the merges of OriginalFlashSim/FTLs/fast_ftl.cpp leave of the RW log.
use test_flash_sim.Base.{
  ℕ, zero, suc, ◌+◌, ◌≡◌, ◌∙◌, inl, inr, refl, ap, Option, map, Run, ok, fetch, ◌>>=◌, Status,
  arith, length, Option-cases, Run-cases, Status-cases,
}
use test_flash_sim.Options.{Options}
use test_flash_sim.Address.{Address, get_linear_address}
use test_flash_sim.Block.{dat}
use test_flash_sim.Controller.{Controller}
use test_flash_sim.BlockManager.{get_free_block}
use test_flash_sim.Fast.{LogBlock, Fast, State, set_data, update_map_block}
use test_flash_sim.Fast.Merging.{
  copy_page, page_source, copy_pages, drop_data_block, owner, switch_sequential, install,
  merge_owned, merge_sequential, replenish,
}

-- The lengths of a log block.
abbrev pub shape : LogBlock → ℕ × ℕ
shape b = (length b.a_pages, b.num_pages)

-- The log has the blocks that it had, as full as they were.
pub record SameLog (f g : Fast) : Type 0 where
  pub shapes : map shape g.log_pages ≡ map shape f.log_pages
  pub next : g.log_page_next ≡ f.log_page_next

pub SameLog-refl :
    (f g : Fast) → g.log_pages ≡ f.log_pages → g.log_page_next ≡ f.log_page_next → SameLog f g
SameLog-refl f g pages next = record { shapes = ap (map shape) pages; next = next }

pub SameLog-trans : {f g h : Fast} → SameLog f g → SameLog g h → SameLog f h
SameLog-trans p q = record { shapes = q.shapes ∙ p.shapes; next = q.next ∙ p.next }

-- What a bind that ends went through.
pub bind_ok :
    {A B : Type 0} (m : Run A) (f : A → Run B) (b : B)
    → (m >>= f) ≡ ok b
    → (a : A) × (m ≡ ok a) × (f a ≡ ok b)
bind_ok (Run.ok a) f b h = (a, refl, h)
bind_ok (Run.abort x) f b h = absurd (cc)

pub set_data-SameLog : (i : ℕ) (v : Option ℕ) (f g : Fast) → set_data i v f ≡ ok g → SameLog f g
unfolding set_data
set_data-SameLog i v f g h = SameLog-refl f g (ground arith) (ground arith)

module _ {S : Type 0} (k : Controller S) (o : Options) where
  pub update_map_block_kept : (s t : State S) → update_map_block k o s ≡ ok t → t.ftl ≡ s.ftl
  unfolding update_map_block
  update_map_block_kept s t h = ground arith

  pub copy_page_kept :
      (from : Address) (to : ℕ) (s : State S) (r : Status × State S)
      → copy_page k o from to s ≡ ok r
      → r.1.ftl ≡ s.ftl
  unfolding copy_page
  copy_page_kept from to s r h = ground arith

  copy_pages_kept :
      (old : Option ℕ) (to i n : ℕ) (s : State S) (r : Status × State S)
      → copy_pages k o old to i n s ≡ ok r
      → r.1.ftl ≡ s.ftl
  unfolding copy_pages
  copy_pages_kept old to i zero s r h = ground arith
  copy_pages_kept old to i (suc n) s r h = elim (Option-cases (page_source k o old i s)) [
    | inl nowhere ↦ copy_pages_kept old to (suc i) n s r (ground (arith, h, nowhere))
    | inr (from, there) ↦ elim (Run-cases (copy_page k o from (to + i) s)) [
      | inr (x, stopped) ↦ absurd (ground (arith, h, there, stopped))
      | inl ((status, t), copied) ↦ elim (Status-cases status) [
        | inr failed ↦
            ground
              (arith, h, there, copied, failed, copy_page_kept from (to + i) s (status, t) copied)
        | inl done ↦
            copy_pages_kept old to (suc i) n t r (ground (arith, h, there, copied, done))
            ∙ copy_page_kept from (to + i) s (status, t) copied
      ]
    ]
  ]

  pub switch_sequential-SameLog :
      (s t : State S) → switch_sequential k o s ≡ ok t → SameLog s.ftl t.ftl
  unfolding switch_sequential owner drop_data_block set_data update_map_block
  switch_sequential-SameLog s t h = SameLog-refl s.ftl t.ftl (ground arith) (ground arith)

  install-SameLog :
      (lba : ℕ) (old : Option ℕ) (to : ℕ) (s t : State S)
      → install k o lba old to s ≡ ok t
      → SameLog s.ftl t.ftl
  unfolding install drop_data_block set_data update_map_block
  install-SameLog lba old to s t h = SameLog-refl s.ftl t.ftl (ground arith) (ground arith)

  merge_owned-SameLog :
      (lba : ℕ) (s t : State S) → merge_owned k o lba s ≡ ok t → SameLog s.ftl t.ftl
  unfolding merge_owned
  merge_owned-SameLog lba s t h =
      let (fresh, taken, h1) = bind_ok (get_free_block k o dat s.event s.world) _ t h in
      let (left, replenished, h2) = bind_ok (replenish k o fresh.1 fresh.2) _ t h1 in
      let (old, found, h3) = bind_ok (fetch s.ftl.data_list lba) _ t h2 in
      let start : State S = record s { event = left.0; world = left.1 } in
      let (r, copied, h4) =
        bind_ok (copy_pages k o old (get_linear_address fresh.0) 0 o.block_size start) _ t h3 in
      let kept = copy_pages_kept old (get_linear_address fresh.0) 0 o.block_size start r copied in
      elim (Status-cases r.0) [
        | inr failed ↦
            SameLog-refl s.ftl t.ftl (ground (arith, h4, failed, kept))
              (ground (arith, h4, failed, kept))
        | inl done ↦
            SameLog-trans
              (SameLog-refl s.ftl r.1.ftl (ap (λ (f : Fast). f.log_pages) kept)
                (ap (λ (f : Fast). f.log_page_next) kept))
              (install-SameLog lba old (get_linear_address fresh.0) r.1 t
                (ground (arith, h4, done)))
      ]

  pub merge_sequential-SameLog :
      (s t : State S) → merge_sequential k o s ≡ ok t → SameLog s.ftl t.ftl
  unfolding merge_sequential
  merge_sequential-SameLog s t h = elim (Option-cases s.ftl.sequential_logicalblock_address) [
    | inl nothing ↦
        SameLog-refl s.ftl t.ftl (ground (arith, h, nothing)) (ground (arith, h, nothing))
    | inr (lba, owned) ↦ merge_owned-SameLog lba s t (ground (arith, h, owned))
  ]

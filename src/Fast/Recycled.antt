-- ===== src/Fast/Recycled.antt =====
-- What random_merge of OriginalFlashSim/FTLs/fast_ftl.cpp leaves of the RW log.
use test_flash_sim.Base.{
  ℕ, zero, suc, ◌+◌, ◌-◌, ◌/◌, ◌%◌, ◌^◌, ◌≡◌, ◌∙◌, inl, inr, refl, sym, ap, subst, false, not, ◌&&◌,
  Option, none, some, List, [], ◌∷◌, ok, fetch, Status, arith, get_elem?, set, replicate,
  length-set, map-set_same, Bool-cases, Option-cases, Run-cases, Status-cases, ◌==◌,
}
use test_flash_sim.Options.{Options}
use test_flash_sim.Address.{get_linear_address, of_linear, page_level}
use test_flash_sim.Page.{is_empty}
use test_flash_sim.Block.{dat}
use test_flash_sim.Controller.{Controller}
use test_flash_sim.BlockManager.{get_free_block}
use test_flash_sim.Fast.{LogBlock, Fast, State, set_data, update_map_block}
use test_flash_sim.Fast.Merging.{copy_page, replenish}
use test_flash_sim.Fast.Logs.{
  Merge, pin, set_entry, charge, victims, merge_entry, merge_page, merge_pages, merge_blocks,
  merge_data_page, merge_data, remap, merge_victim, merge_victims, random_merge,
}
use test_flash_sim.Fast.Kept.{SameLog, SameLog-refl, SameLog-trans, bind_ok, shape, copy_page_kept}

pub SameLog-eq : {f g h : Fast} → h ≡ g → SameLog f g → SameLog f h
SameLog-eq {f} e p = subst (λ (x : Fast). SameLog f x) (sym e) p

module _ {S : Type 0} where
  pub set_entry-SameLog :
      (index : ℕ) (b : LogBlock) (i : ℕ) (v : Option ℕ) (s : State S)
      → get_elem? s.ftl.log_pages index ≡ some b
      → SameLog s.ftl (set_entry index b i v s).ftl
  unfolding set_entry
  set_entry-SameLog index b i v s found = record {
    shapes =
        map-set_same shape s.ftl.log_pages index b (record b { a_pages = set b.a_pages i v }) found
          (ap (λ (n : ℕ). (n, b.num_pages)) (length-set b.a_pages i v));
    next = refl;
  }

module _ {S : Type 0} (k : Controller S) (o : Options) where
  victims_kept :
      (pages : List (Option ℕ)) (i n : ℕ) (keys : List ℕ) (s : State S) (r : List ℕ × State S)
      → victims k o pages i n keys s ≡ ok r
      → r.1.ftl ≡ s.ftl
  unfolding victims charge
  victims_kept pages i zero keys s r h = ground arith
  victims_kept pages i (suc n) keys s r h =
      let (p, found, rest) = bind_ok (fetch pages i) _ r h in
      victims_kept pages (suc i) n _ (charge k o s) r rest

  merge_entry-SameLog :
      (index : ℕ) (b : LogBlock) (i to a : ℕ) (m : Merge S) (r : Status × Merge S)
      → get_elem? m.state.ftl.log_pages index ≡ some b
      → merge_entry k o index b i to a m ≡ ok r
      → SameLog m.state.ftl r.1.state.ftl
  unfolding merge_entry pin
  merge_entry-SameLog index b i to a m r found h =
      let place = a % o.block_size in
      let (pinned, fetched, rest) = bind_ok (fetch m.pinned place) _ r h in
      let from = of_linear o.geometry (get_linear_address b.address + i) page_level in
      let target = of_linear o.geometry (to + place) page_level in
      elim (Bool-cases pinned) [
        | inl before ↦
            SameLog-eq (ground (arith, rest, before))
              (set_entry-SameLog index b i none m.state found)
        | inr new ↦ elim (Bool-cases (is_empty (k.get_state m.state.world.device target))) [
          | inr full ↦
              SameLog-eq (ground (arith, rest, new, full))
                (SameLog-refl m.state.ftl m.state.ftl refl refl)
          | inl free ↦ elim (Run-cases (copy_page k o from (to + place) m.state)) [
            | inr (x, stopped) ↦ absurd (ground (arith, rest, new, free, stopped))
            | inl (c, copied) ↦
                let kept = copy_page_kept k o from (to + place) m.state c copied in
                SameLog-eq (ground (arith, rest, new, free, copied, kept))
                  (SameLog-refl m.state.ftl m.state.ftl refl refl)
          ]
        ]
      ]

  merge_page-SameLog :
      (lba index : ℕ) (b : LogBlock) (i to : ℕ) (m : Merge S) (r : Status × Merge S)
      → get_elem? m.state.ftl.log_pages index ≡ some b
      → merge_page k o lba index b i to m ≡ ok r
      → SameLog m.state.ftl r.1.state.ftl
  unfolding merge_page charge
  merge_page-SameLog lba index b i to m r found h =
      let (p, fetched, rest) = bind_ok (fetch b.a_pages i) _ r h in
      let same = SameLog-refl m.state.ftl m.state.ftl refl refl in
      elim (Option-cases p) [
        | inl unused ↦ SameLog-eq (ground (arith, rest, unused)) same
        | inr (a, used) ↦
            elim (Bool-cases (not (a == 4294967295) && a / 2 ^ m.state.ftl.address_shift == lba)) [
              | inr other ↦ SameLog-eq (ground (arith, rest, used, other)) same
              | inl ours ↦
                  merge_entry-SameLog index b i to a (record m { state = charge k o m.state }) r
                    found (ground (arith, rest, used, ours))
            ]
      ]

  merge_pages-SameLog :
      (lba index to i : ℕ) (m : Merge S) (r : Status × Merge S)
      → merge_pages k o lba index to i m ≡ ok r
      → SameLog m.state.ftl r.1.state.ftl
  unfolding merge_pages
  merge_pages-SameLog lba index to zero m r h =
      SameLog-eq (ground arith) (SameLog-refl m.state.ftl m.state.ftl refl refl)
  merge_pages-SameLog lba index to (suc i) m r h =
      elim (Option-cases (get_elem? m.state.ftl.log_pages index)) [
        | inl missing ↦ absurd (ground (arith, h, missing))
        | inr (b, found) ↦ elim (Run-cases (merge_page k o lba index b (suc i) to m)) [
          | inr (x, stopped) ↦ absurd (ground (arith, h, found, stopped))
          | inl (c, merged) ↦
              let first = merge_page-SameLog lba index b (suc i) to m c found merged in
              elim (Status-cases c.0) [
                | inr failed ↦ SameLog-eq (ground (arith, h, found, merged, failed)) first
                | inl done ↦ SameLog-trans first (
                    merge_pages-SameLog lba index to i c.1 r
                      (ground (arith, h, found, merged, done)))
              ]
        ]
      ]

  merge_blocks-SameLog :
      (lba to n : ℕ) (m : Merge S) (r : Status × Merge S)
      → merge_blocks k o lba to n m ≡ ok r
      → SameLog m.state.ftl r.1.state.ftl
  unfolding merge_blocks
  merge_blocks-SameLog lba to zero m r h =
      SameLog-eq (ground arith) (SameLog-refl m.state.ftl m.state.ftl refl refl)
  merge_blocks-SameLog lba to (suc n) m r h =
      elim (Option-cases (get_elem? m.state.ftl.log_pages n)) [
        | inl missing ↦ absurd (ground (arith, h, missing))
        | inr (b, found) ↦ elim (Run-cases (merge_pages k o lba n to (b.num_pages - 1) m)) [
          | inr (x, stopped) ↦ absurd (ground (arith, h, found, stopped))
          | inl (c, merged) ↦
              let first = merge_pages-SameLog lba n to (b.num_pages - 1) m c merged in
              elim (Status-cases c.0) [
                | inr failed ↦ SameLog-eq (ground (arith, h, found, merged, failed)) first
                | inl done ↦
                    SameLog-trans first
                      (merge_blocks-SameLog lba to n c.1 r (ground (arith, h, found, merged, done)))
              ]
        ]
      ]

  merge_data_page_kept :
      (lba to i : ℕ) (m : Merge S) (r : Status × Merge S)
      → merge_data_page k o lba to i m ≡ ok r
      → r.1.state.ftl ≡ m.state.ftl
  unfolding merge_data_page charge pin copy_page
  merge_data_page_kept lba to i m r h = ground arith

  merge_data_kept :
      (lba to i n : ℕ) (m : Merge S) (r : Status × Merge S)
      → merge_data k o lba to i n m ≡ ok r
      → r.1.state.ftl ≡ m.state.ftl
  unfolding merge_data
  merge_data_kept lba to i zero m r h = ground arith
  merge_data_kept lba to i (suc n) m r h = elim (Run-cases (merge_data_page k o lba to i m)) [
    | inr (x, stopped) ↦ absurd (ground (arith, h, stopped))
    | inl (c, merged) ↦
        let first = merge_data_page_kept lba to i m c merged in
        elim (Status-cases c.0) [
          | inr failed ↦ ground (arith, h, merged, failed, first)
          | inl done ↦
              merge_data_kept lba to (suc i) n c.1 r (ground (arith, h, merged, done)) ∙ first
        ]
  ]

  remap-SameLog : (lba to : ℕ) (s t : State S) → remap k o lba to s ≡ ok t → SameLog s.ftl t.ftl
  unfolding remap set_data
  remap-SameLog lba to s t h = SameLog-refl s.ftl t.ftl (ground arith) (ground arith)

  merge_victim-SameLog :
      (lba : ℕ) (s : State S) (r : Status × State S)
      → merge_victim k o lba s ≡ ok r
      → SameLog s.ftl r.1.ftl
  unfolding merge_victim
  merge_victim-SameLog lba s r h =
      let (left, replenished, h1) = bind_ok (replenish k o s.event s.world) _ r h in
      let (fresh, taken, h2) = bind_ok (get_free_block k o dat left.0 left.1) _ r h1 in
      let to = get_linear_address fresh.0 in
      let start : Merge S = record {
        state = record s { event = fresh.1; world = fresh.2 };
        pinned = replicate o.block_size false;
      } in
      let (m, logged, h3) = bind_ok (merge_blocks k o lba to o.fast_log_block_limit start) _ r h2 in
      let first : SameLog s.ftl m.1.state.ftl =
        merge_blocks-SameLog lba to o.fast_log_block_limit start m logged in
      elim (Status-cases m.0) [
        | inr failed ↦ SameLog-eq (ground (arith, h3, failed)) first
        | inl done ↦ elim (Run-cases (merge_data k o lba to 0 o.block_size m.1)) [
          | inr (x, stopped) ↦ absurd (ground (arith, h3, done, stopped))
          | inl (n, copied) ↦
              let kept = merge_data_kept lba to 0 o.block_size m.1 n copied in
              let second = SameLog-eq kept first in
              elim (Status-cases n.0) [
                | inr failed ↦ SameLog-eq (ground (arith, h3, done, copied, failed)) second
                | inl finished ↦ elim (Run-cases (remap k o lba to n.1.state)) [
                  | inr (x, stopped) ↦ absurd (ground (arith, h3, done, copied, finished, stopped))
                  | inl (t, remapped) ↦
                      SameLog-eq (ground (arith, h3, done, copied, finished, remapped))
                        (SameLog-trans second (remap-SameLog lba to n.1.state t remapped))
                ]
              ]
        ]
      ]

  merge_victims-SameLog :
      (keys : List ℕ) (s : State S) (r : Status × State S)
      → merge_victims k o keys s ≡ ok r
      → SameLog s.ftl r.1.ftl
  unfolding merge_victims
  merge_victims-SameLog [] s r h = SameLog-eq (ground arith) (SameLog-refl s.ftl s.ftl refl refl)
  merge_victims-SameLog (lba ∷ rest) s r h = elim (Run-cases (merge_victim k o lba s)) [
    | inr (x, stopped) ↦ absurd (ground (arith, h, stopped))
    | inl (c, merged) ↦
        let first = merge_victim-SameLog lba s c merged in
        elim (Status-cases c.0) [
          | inr failed ↦ SameLog-eq (ground (arith, h, merged, failed)) first
          | inl done ↦
              SameLog-trans first
                (merge_victims-SameLog rest c.1 r (ground (arith, h, merged, done)))
        ]
  ]

  pub random_merge-SameLog :
      (b : LogBlock) (s t : State S) → random_merge k o b s ≡ ok t → SameLog s.ftl t.ftl
  unfolding random_merge update_map_block
  random_merge-SameLog b s t h =
      let (found, searched, h1) = bind_ok (victims k o b.a_pages 0 b.num_pages [] s) _ t h in
      let same = victims_kept b.a_pages 0 b.num_pages [] s found searched in
      let (c, merged, h2) = bind_ok (merge_victims k o found.0 found.1) _ t h1 in
      let log =
        SameLog-trans (SameLog-eq same (SameLog-refl s.ftl s.ftl refl refl))
          (merge_victims-SameLog found.0 found.1 c merged) in
      elim (Status-cases c.0) [
        | inr failed ↦ SameLog-eq (ground (arith, h2, failed)) log
        | inl done ↦ SameLog-eq (ground (arith, h2, done)) log
      ]

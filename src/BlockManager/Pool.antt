-- ===== src/BlockManager/Pool.antt =====
-- The blocks that the manager of OriginalFlashSim/ssd_bm.cpp has to give, as a queue.
use native.Mathlib.Nat.{mod-eq_of_lt, suc-mul, zero-mul}
use test_flash_sim.Base.{
  ℕ, zero, suc, ◌+◌, ◌*◌, ◌<◌, ◌≡◌, refl, sym, ap, subst, inl, inr, true, false, not, ◌&&◌, Option,
  none, some, List, [], ◌∷◌, ◌++◌, ok, abort, assertion, null_pointer, arith, length, Bool-cases,
  ltb, leb, u32, u64, u64_mod, ◌>>=◌,
}
use test_flash_sim.Options.{Options}
use test_flash_sim.Address.{Address, block_level, set_linear_level}
use test_flash_sim.Event.{Event}
use test_flash_sim.Controller.{Controller}
use test_flash_sim.BlockManager.{
  BlockManager, World, has_room, used_blocks, insert_events, take_fresh, take_free, get_page_block,
}

-- The blocks that were never taken, `n` of them from a page on.
abbrev pub fresh_blocks : ℕ → ℕ → ℕ → List (Option ℕ)
fresh_blocks zero block_size from = []
fresh_blocks (suc n) block_size from = some from ∷ fresh_blocks n block_size (from + block_size)

-- The queue of a manager: the blocks that were never taken, then those of the free list.
pub record IsPool (o : Options) (m : BlockManager) (blocks : List (Option ℕ)) : Type 0 where
  pub fresh : ℕ
  pub reaches : m.simple_current_free + fresh * o.block_size ≡ m.max_blocks * o.block_size
  pub word : m.max_blocks * o.block_size < u64_mod
  pub queued : blocks ≡ fresh_blocks fresh o.block_size m.simple_current_free ++ m.free_list

exhausted :
    (o : Options) (m : BlockManager)
    → m.simple_current_free ≡ m.max_blocks * o.block_size
    → m.max_blocks * o.block_size < u64_mod
    → ltb m.simple_current_free (u64 (m.max_blocks * o.block_size)) ≡ false
exhausted o m spent word =
    let limit : u64 (m.max_blocks * o.block_size) ≡ m.max_blocks * o.block_size =
      mod-eq_of_lt word in
    ground (arith, limit)

module _ {S : Type 0} (k : Controller S) (o : Options) (positive : 0 < o.block_size) where
  no_events :
      (e : Event) (w : World S)
      → has_room o w.manager ≡ true
      → (insert_events k o e (record w { manager = record w.manager { out_of_blocks = true } })
          ≡ ok (e, record w { manager = record w.manager { out_of_blocks = true } }))
  unfolding insert_events has_room used_blocks
  no_events e w room = ground (arith, room)

  -- With no fresh block left.
  from_free_list :
      (a : Address) (e : Event) (w : World S)
      → has_room o w.manager ≡ true
      → ltb w.manager.simple_current_free (u64 (w.manager.max_blocks * o.block_size)) ≡ false
      → (v : World S) × (get_page_block k o a e w ≡ (take_free k o a v >>= λ r. ok (r.0, e, r.1)))
        × (v.manager.free_list ≡ w.manager.free_list)
        × (v.manager.simple_current_free ≡ w.manager.simple_current_free)
        × (v.manager.max_blocks ≡ w.manager.max_blocks)
        × (v.stats ≡ w.stats)
        × (v.device ≡ w.device)
  unfolding get_page_block
  from_free_list a e w room spent =
      let none_left = no_events e w room in
      elim (Bool-cases (leb (length w.manager.free_list) 1 && not w.manager.out_of_blocks)) [
        | inl low ↦ (
          record w { manager = record w.manager { out_of_blocks = true } },
          ground (arith, spent, low, none_left),
          refl,
          refl,
          refl,
          refl,
          refl,
        )
        | inr enough ↦ (w, ground (arith, spent, enough), refl, refl, refl, refl, refl)
      ]

  -- What taking a block from the queue does: nothing is left, a null pointer is at its head, or the
  -- head is taken.
  abbrev pub Takes : Address → Event → World S → List (Option ℕ) → Type 0
  Takes a e w [] = get_page_block k o a e w ≡ abort assertion
  Takes a e w (none ∷ rest) = get_page_block k o a e w ≡ abort null_pointer
  Takes a e w (some b ∷ rest) =
      (w' : World S) × (get_page_block k o a e w
        ≡ ok (set_linear_level o.geometry b block_level a, e, w'))
      × IsPool o w'.manager rest
      × (w'.stats ≡ w.stats)
      × (w'.device ≡ w.device)

  take_fresh-Takes :
      (a : Address) (e : Event) (w : World S) (n : ℕ)
      → w.manager.simple_current_free + suc n * o.block_size ≡ w.manager.max_blocks * o.block_size
      → w.manager.max_blocks * o.block_size < u64_mod
      → Takes a e w
          (fresh_blocks (suc n) o.block_size w.manager.simple_current_free ++ w.manager.free_list)
  unfolding get_page_block take_fresh
  take_fresh-Takes a e w n reaches word =
      let step = suc-mul n o.block_size in
      let limit : u64 (w.manager.max_blocks * o.block_size) ≡ w.manager.max_blocks * o.block_size =
        mod-eq_of_lt word in
      let next : u64 (w.manager.simple_current_free + o.block_size)
          ≡ w.manager.simple_current_free + o.block_size =
        mod-eq_of_lt (omega (arith, step)) in
      (
        (take_fresh k o a w).1,
        ground (arith, limit, step),
        record {
          fresh = n;
          reaches = omega (arith, next, step);
          word = word;
          queued = rw next refl;
        },
        refl,
        refl,
      )

  take_free-Takes :
      (l : List (Option ℕ)) (a : Address) (e : Event) (w : World S)
      → has_room o w.manager ≡ true
      → w.manager.free_list ≡ l
      → w.manager.simple_current_free ≡ w.manager.max_blocks * o.block_size
      → w.manager.max_blocks * o.block_size < u64_mod
      → Takes a e w l
  unfolding take_free
  take_free-Takes [] a e w room listed spent word =
      let (v, runs, kept, _, _, _, _) =
        from_free_list a e w room (exhausted o w.manager spent word) in
      ground (arith, runs, kept, listed)
  take_free-Takes (none ∷ rest) a e w room listed spent word =
      let (v, runs, kept, _, _, _, _) =
        from_free_list a e w room (exhausted o w.manager spent word) in
      ground (arith, runs, kept, listed)
  take_free-Takes (some b ∷ rest) a e w room listed spent word =
      let (v, runs, kept, current, most, stats, device) =
        from_free_list a e w room (exhausted o w.manager spent word) in
      (
        record v {
          manager = record v.manager {
            current_writing_block = u32 b;
            free_list = rest;
            out_of_blocks = false;
          };
        },
        ground (arith, runs, kept, listed),
        record {
          fresh = 0;
          reaches = omega (
            arith,
            current,
            most,
            spent,
            zero-mul o.block_size,
            ap (λ (m : ℕ). m * o.block_size) most,
          );
          word = omega (arith, word, ap (λ (m : ℕ). m * o.block_size) most);
          queued = refl;
        },
        stats,
        device,
      )

  queue-Takes :
      (n : ℕ) (a : Address) (e : Event) (w : World S)
      → has_room o w.manager ≡ true
      → w.manager.simple_current_free + n * o.block_size ≡ w.manager.max_blocks * o.block_size
      → w.manager.max_blocks * o.block_size < u64_mod
      → Takes a e w
          (fresh_blocks n o.block_size w.manager.simple_current_free ++ w.manager.free_list)
  queue-Takes zero a e w room reaches word =
      take_free-Takes w.manager.free_list a e w room refl
        (omega (arith, reaches, zero-mul o.block_size)) word
  queue-Takes (suc n) a e w room reaches word = take_fresh-Takes a e w n reaches word

  -- Let the blocks of a manager be queued up, those that were never taken first and then the
  -- free list, and let there be no need to erase any. get_page_block then returns the address
  -- of the head of the queue, and the manager is left with the rest of the queue, the
  -- statistics and the device as they were; it stops at a failed assert if the queue is empty,
  -- and at a null pointer if one is at its head.
  pub get_page_block-Takes :
      (a : Address) (e : Event) (w : World S) (blocks : List (Option ℕ))
      → has_room o w.manager ≡ true
      → IsPool o w.manager blocks
      → Takes a e w blocks
  get_page_block-Takes a e w blocks room p =
      subst (Takes a e w) (sym p.queued) (queue-Takes p.fresh a e w room p.reaches p.word)

-- ===== src/BlockManager/Gives.antt =====
-- How blocks come back to the queue of OriginalFlashSim/ssd_bm.cpp, and the count of the free ones.
use test_flash_sim.Base.{
  ℕ, ◌+◌, ◌*◌, ◌≡◌, ◌∙◌, refl, sym, ap, Option, some, List, [], ◌∷◌, ◌++◌, ok, arith, map, length,
  pop_back,
}
use mathlib.Core.List.{append_assoc, append-nil}
use test_flash_sim.Options.{Options}
use test_flash_sim.Address.{Address, block_level, of_linear}
use test_flash_sim.Event.{Event, set_address, incr_time_taken}
use test_flash_sim.Event
use test_flash_sim.Block.{BlockType, log, dat, log_seq}
use test_flash_sim.Controller.{Controller, IsIssuing}
use test_flash_sim.BlockManager.{
  BlockManager, World, release, issue_erase, count_erase, erase_invalid, erase_and_invalidate,
}
use test_flash_sim.BlockManager.Pool.{IsPool, fresh_blocks}

release_keeps :
    (t : BlockType) (m : BlockManager)
    → ((release t m).free_list ≡ m.free_list)
      × ((release t m).invalid_list ≡ m.invalid_list)
      × ((release t m).simple_current_free ≡ m.simple_current_free)
      × ((release t m).max_blocks ≡ m.max_blocks)
unfolding release
release_keeps dat m = (refl, refl, refl, refl)
release_keeps log m = (refl, refl, refl, refl)
release_keeps log_seq m = (refl, refl, refl, refl)

-- What was written down last stands at the end.
abbrev pub backwards : List ℕ → List (Option ℕ)
backwards [] = []
backwards (x ∷ xs) = backwards xs ++ some x ∷ []

pop_back-append : {A : Type 0} (xs : List A) (x : A) → pop_back (xs ++ x ∷ []) ≡ some (xs, x)
pop_back-append [] x = refl
pop_back-append (y ∷ xs) x = ground (arith, pop_back-append xs x)

IsPool-append :
    (o : Options) (m n : BlockManager) (blocks more : List (Option ℕ))
    → IsPool o m blocks
    → n.free_list ≡ m.free_list ++ more
    → n.simple_current_free ≡ m.simple_current_free
    → n.max_blocks ≡ m.max_blocks
    → IsPool o n (blocks ++ more)
IsPool-append o m n blocks more p frees current most =
    let limit = ap (λ (x : ℕ). x * o.block_size) most in
    record {
      fresh = p.fresh;
      reaches = omega (arith, current, limit, p.reaches);
      word = omega (arith, limit, p.word);
      queued =
          ap (λ (l : List (Option ℕ)). l ++ more) p.queued
          ∙ append_assoc (fresh_blocks p.fresh o.block_size m.simple_current_free) m.free_list more
          ∙ rw (frees, current) refl;
    }

module _ {S : Type 0} (k : Controller S) (o : Options) where
  issue_erase_runs :
      (a : Address) (start_time : ℕ) (e : Event) (w : World S)
      → IsIssuing k
      → (e' : Event) × (device : S) × (issue_erase k o a start_time e w
          ≡ ok (e', record w { device = device }))
  unfolding issue_erase
  issue_erase_runs a start_time e w issuing =
      let request = set_address (Event.new Event.erase e.logical_address 1 start_time) a in
      let (issued, device, done) = issuing request w.device in
      (incr_time_taken e issued.time_taken, device, ground (arith, done))

  -- With a controller that carries out every request, erase_and_invalidate returns, puts the
  -- block at the address to the end of the queue of blocks, and counts one erase.
  pub erase_and_invalidate_gives :
      (e : Event) (a : Address) (t : BlockType) (w : World S) (blocks : List (Option ℕ))
      → IsIssuing k
      → IsPool o w.manager blocks
      → (e' : Event) × (w' : World S) × (erase_and_invalidate k o e a t w ≡ ok (e', w'))
        × IsPool o w'.manager (blocks ++ k.get_block_pointer w'.device a ∷ [])
        × (w'.stats.num_ftl_erase ≡ w.stats.num_ftl_erase + 1)
  unfolding erase_and_invalidate count_erase
  erase_and_invalidate_gives e a t w blocks issuing p =
      let (e', device, done) = issue_erase_runs a (e.start_time + e.time_taken) e w issuing in
      let given = k.get_block_pointer device a in
      let appended = record w.manager { free_list = w.manager.free_list ++ given ∷ [] } in
      let (frees, _, current, most) = release_keeps t appended in
      (
        e',
        count_erase k o (record w { manager = release t appended; device = device }),
        ground (arith, done),
        IsPool-append o w.manager (release t appended) blocks (given ∷ []) p frees current most,
        refl,
      )

  -- With a controller that carries out every request, and the blocks `taken` at the end of the
  -- invalid list, the last one first, the loop over that list returns. It moves them in this
  -- order to the end of the queue of blocks, leaves the rest of the list, and counts an erase
  -- for each.
  pub erase_invalid_gives :
      (taken : List ℕ) (kept blocks : List (Option ℕ)) (e : Event) (w : World S)
      → IsIssuing k
      → IsPool o w.manager blocks
      → w.manager.invalid_list ≡ kept ++ backwards taken
      → (e' : Event) × (w' : World S) × (erase_invalid k o (length taken) e w ≡ ok (e', w'))
        × IsPool o w'.manager (blocks ++ map some taken)
        × (w'.manager.invalid_list ≡ kept)
        × (w'.stats.num_ftl_erase ≡ w.stats.num_ftl_erase + length taken)
  unfolding erase_invalid count_erase
  erase_invalid_gives [] kept blocks e w issuing p listed =
      (e, w, refl, rw append-nil p, listed ∙ append-nil kept, omega arith)
  erase_invalid_gives (b ∷ taken) kept blocks e w issuing p listed =
      let last : pop_back w.manager.invalid_list ≡ some (kept ++ backwards taken, some b) =
        ap pop_back (listed ∙ sym (append_assoc kept (backwards taken) (some b ∷ [])))
        ∙ pop_back-append (kept ++ backwards taken) (some b) in
      let (e', device, done) =
        issue_erase_runs (of_linear o.geometry b block_level) e.start_time e w issuing in
      let erased = record w.manager {
        free_list = w.manager.free_list ++ some b ∷ [];
        invalid_list = kept ++ backwards taken;
      } in
      let w' = count_erase k o (record w { manager = erased; device = device }) in
      let (e'', w'', ran, q, rest, n) =
        erase_invalid_gives taken kept (blocks ++ some b ∷ []) e' w' issuing
          (IsPool-append o w.manager erased blocks (some b ∷ []) p refl refl refl) refl in
      (
        e'',
        w'',
        ground (arith, last, done, ran),
        rw (append_assoc blocks (some b ∷ []) (map some taken)) at q,
        rest,
        omega (arith, n),
      )

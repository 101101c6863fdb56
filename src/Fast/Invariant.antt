-- ===== src/Fast/Invariant.antt =====
-- The RW log of OriginalFlashSim/FTLs/fast_ftl.cpp stays filled from the first block on.
use test_flash_sim.Base.{
  ℕ, zero, suc, ◌+◌, ◌-◌, ◌*◌, ◌%◌, ◌≤◌, ◌<◌, ◌≡◌, ◌⊎◌, ◌∙◌, inl, inr, refl, sym, ap, subst, none,
  List, [], ◌∷◌, ◌++◌, map, ok, arith, length, length-replicate, length-append, length-map,
  Run-cases, u32, u32_mod, decr32,
}
use native.Mathlib.Nat.{mod-eq_of_lt}
use test_flash_sim.Options.{Options}
use test_flash_sim.Address.{Address}
use test_flash_sim.Event.{Event}
use test_flash_sim.Block.{log}
use test_flash_sim.Controller.{Controller}
use test_flash_sim.BlockManager.{World, get_free_block, invalidate}
use test_flash_sim.Fast.{
  LogBlock, Fast, State, new_log_block, more_log_blocks, create_log_pages, initialize_log_pages,
}
use test_flash_sim.Fast.Logs.{random_merge}
use test_flash_sim.Fast.Writes.{extend_log, recycle_log, append_log}
use test_flash_sim.Fast.Filled.{IsFilled, place_entry-IsAppended}
use test_flash_sim.Fast.Shadowed.{IsLog}
use test_flash_sim.Fast.Kept.{SameLog, shape, bind_ok}
use test_flash_sim.Fast.Recycled.{random_merge-SameLog}

List-cases :
    (xs : List LogBlock) → (xs ≡ []) ⊎ ((x : LogBlock) × (rest : List LogBlock) × (xs ≡ x ∷ rest))
List-cases [] = inl refl
List-cases (x ∷ rest) = inr (x, rest, refl)

IsFilled_of_shapes :
    (block_size n : ℕ) (xs ys : List LogBlock)
    → map shape ys ≡ map shape xs
    → IsFilled block_size n xs
    → IsFilled block_size n ys
IsFilled_of_shapes block_size n xs [] same filled = tt
IsFilled_of_shapes block_size n [] (y ∷ ys) same filled = absurd (cc)
IsFilled_of_shapes block_size n (x ∷ xs) (y ∷ ys) same (size, entries, later) = (
  ground (arith, same, size),
  ground (arith, same, entries),
  IsFilled_of_shapes block_size (n - block_size) xs ys (ground (arith, same)) later,
)

-- A log has as many blocks as there are, filled.
pub SameLog-IsLog : (o : Options) (f g : Fast) → SameLog f g → IsLog o f → IsLog o g
SameLog-IsLog o f g same h = record {
  whole =
      sym (length-map shape g.log_pages)
      ∙ ap length same.shapes
      ∙ length-map shape f.log_pages
      ∙ h.whole;
  filled =
      subst (λ (n : ℕ). IsFilled o.block_size n g.log_pages) (sym same.next)
        (IsFilled_of_shapes o.block_size f.log_page_next f.log_pages g.log_pages same.shapes
          h.filled);
  bounded = omega (arith, same.next, h.bounded);
}

-- A new block behind blocks that take all the entries.
IsFilled-append :
    (o : Options) (a : Address) (n : ℕ) (xs : List LogBlock)
    → n ≤ length xs * o.block_size
    → IsFilled o.block_size n xs
    → IsFilled o.block_size n (xs ++ new_log_block o a ∷ [])
unfolding new_log_block
IsFilled-append o a n [] covered filled = (length-replicate o.block_size none, ground arith, tt)
IsFilled-append o a n (x ∷ xs) covered (size, entries, later) =
    (size, entries, IsFilled-append o a (n - o.block_size) xs (omega arith) later)

module _ {S : Type 0} (k : Controller S) (o : Options) where
  more_log_blocks-IsFilled :
      (n : ℕ) (e : Event) (w : World S) (blocks : List LogBlock) (r : List LogBlock × World S)
      → more_log_blocks k o n e w blocks ≡ ok r
      → IsFilled o.block_size 0 blocks
      → IsFilled o.block_size 0 r.0 × (length r.0 ≡ length blocks + n)
  unfolding more_log_blocks
  more_log_blocks-IsFilled zero e w blocks r h filled =
      let same : r.0 ≡ blocks = ground (arith, h) in
      (subst (IsFilled o.block_size 0) (sym same) filled, ap length same ∙ omega arith)
  more_log_blocks-IsFilled (suc n) e w blocks r h filled =
      let (a, taken, rest) = bind_ok (get_free_block k o log e w) _ r h in
      let (left, long) =
        more_log_blocks-IsFilled n a.1 a.2 (blocks ++ new_log_block o a.0 ∷ []) r rest
          (IsFilled-append o a.0 0 blocks (omega arith) filled) in
      (left, omega (arith, long, length-append blocks (new_log_block o a.0 ∷ [])))

le_mul : (n m : ℕ) → 0 < m → n ≤ n * m
le_mul zero m positive = omega arith
le_mul (suc n) m positive = omega (arith, le_mul n m positive)

-- The log pages are not made yet, or they are filled.
abbrev pub IsReady : Options → Fast → Type 0
IsReady o f = ((f.log_pages ≡ []) × (f.log_page_next ≡ 0)) ⊎ IsLog o f

module _ {S : Type 0} (k : Controller S) (o : Options) (positive : 0 < o.block_size)
    (one : 0 < o.fast_log_block_limit) (few : o.fast_log_block_limit * o.block_size < u32_mod) where
  pub initialize_log_pages-IsLog :
      (f : Fast) (w : World S) (r : Fast × World S)
      → IsReady o f
      → initialize_log_pages k o f w ≡ ok r
      → IsLog o r.0
  unfolding initialize_log_pages create_log_pages new_log_block
  initialize_log_pages-IsLog f w r (inr v) h =
      let n_blocks = v.whole in
      let same : r.0 ≡ f = ground (arith, n_blocks, h) in subst (IsLog o) (sym same) v
  initialize_log_pages-IsLog f w r (inl (unmade, zero_next)) h =
      elim (Run-cases (create_log_pages k o w)) [
        | inr (x, stopped) ↦ absurd (ground (arith, h, unmade, stopped))
        | inl (made, created) ↦
            let (a, taken, rest) = bind_ok (get_free_block k o log _ w) _ made created in
            let (filled, long) =
              more_log_blocks-IsFilled k o (decr32 o.fast_log_block_limit) a.1 a.2
                (new_log_block o a.0 ∷ []) made rest
                (length-replicate o.block_size none, ground arith, tt) in
            let less : (o.fast_log_block_limit + (u32_mod - 1)) % u32_mod
                ≡ o.fast_log_block_limit - 1 =
              omega (arith, le_mul o.fast_log_block_limit o.block_size positive) in
            let next : r.0.log_page_next ≡ 0 = ground (arith, h, unmade, created, zero_next) in
            let pages : r.0.log_pages ≡ made.0 = ground (arith, h, unmade, created) in
            record {
              whole = ap length pages ∙ long ∙ omega (arith, less);
              filled =
                  subst (λ (n : ℕ). IsFilled o.block_size n r.0.log_pages) (sym next)
                    (subst (IsFilled o.block_size 0) (sym pages) filled);
              bounded = omega (arith, next);
            }
      ]

  pub append_log-IsLog :
      (s t : State S)
      → s.ftl.log_page_next < o.fast_log_block_limit * o.block_size
      → IsLog o s.ftl
      → append_log k o s ≡ ok t
      → IsLog o t.ftl
  unfolding append_log
  append_log-IsLog s t room v h =
      let f = s.ftl in
      let (c, blocks, g) =
        place_entry-IsAppended o.block_size f.log_page_next s.event.logical_address f.log_pages
          positive (subst (λ (n : ℕ). f.log_page_next < n * o.block_size) (sym v.whole) room)
          v.filled in
      let next : u32 (f.log_page_next + 1) ≡ f.log_page_next + 1 = mod-eq_of_lt (omega arith) in
      let placed = g.placed in
      let pages : t.ftl.log_pages ≡ blocks = ground (arith, h, placed) in
      let left : t.ftl.log_page_next ≡ f.log_page_next + 1 = ground (arith, h, placed, next) in
      record {
        whole = ap length pages ∙ g.same_length ∙ v.whole;
        filled =
            subst (λ (n : ℕ). IsFilled o.block_size n t.ftl.log_pages) (sym left)
              (subst (IsFilled o.block_size (f.log_page_next + 1)) (sym pages) g.filled);
        bounded = omega (arith, left);
      }

  -- The end of recycle_log, where the first of the blocks goes and a new one comes.
  shifted-IsLog :
      (a : Address) (head : LogBlock) (rest : List LogBlock) (f g : Fast)
      → f.log_pages ≡ head ∷ rest
      → f.log_page_next ≡ o.fast_log_block_limit * o.block_size
      → IsLog o f
      → g.log_pages ≡ rest ++ new_log_block o a ∷ []
      → g.log_page_next ≡ u32 (f.log_page_next + (u32_mod - u32 o.block_size))
      → IsLog o g × (g.log_page_next < o.fast_log_block_limit * o.block_size)
  shifted-IsLog a head rest f g there full v pages next =
      let limit = o.fast_log_block_limit in
      let whole : suc (length rest) ≡ limit = sym (ap length there) ∙ v.whole in
      let filled : IsFilled o.block_size (limit * o.block_size) (head ∷ rest) =
        subst (λ (xs : List LogBlock). IsFilled o.block_size (limit * o.block_size) xs) there
          (subst (λ (n : ℕ). IsFilled o.block_size n f.log_pages) full v.filled) in
      let product : limit * o.block_size ≡ o.block_size + length rest * o.block_size =
        ap (λ (n : ℕ). n * o.block_size) (sym whole) ∙ omega arith in
      let block_word : u32 o.block_size ≡ o.block_size = mod-eq_of_lt (omega (arith, product)) in
      let left : g.log_page_next ≡ limit * o.block_size - o.block_size =
        omega (arith, next, full, block_word, few, product, positive) in
      (
        record {
          whole =
              ap length pages ∙ length-append rest (new_log_block o a ∷ []) ∙ omega (arith, whole);
          filled =
              subst (λ (n : ℕ). IsFilled o.block_size n g.log_pages) (sym left)
                (subst (IsFilled o.block_size (limit * o.block_size - o.block_size)) (sym pages) (
                  IsFilled-append o a (limit * o.block_size - o.block_size) rest
                    (omega (arith, product)) filled.2));
          bounded = omega (arith, left);
        },
        omega (arith, left, product),
      )

  pub recycle_log-IsLog :
      (s t : State S)
      → s.ftl.log_page_next ≡ o.fast_log_block_limit * o.block_size
      → IsLog o s.ftl
      → recycle_log k o s ≡ ok t
      → IsLog o t.ftl × (t.ftl.log_page_next < o.fast_log_block_limit * o.block_size)
  recycle_log-IsLog s t full v h = elim (List-cases s.ftl.log_pages) [
    | inl nothing ↦ absurd (let whole = v.whole in ground (arith, whole, nothing))
    | inr (victim, others, there) ↦ elim (Run-cases (random_merge k o victim s)) [
      | inr (x, stopped) ↦ absurd (unfold recycle_log in ground (arith, h, there, stopped))
      | inl (m, merged) ↦
          let same = random_merge-SameLog k o victim s m merged in
          elim (List-cases m.ftl.log_pages) [
            | inl gone ↦ absurd (unfold recycle_log in ground (arith, h, there, merged, gone))
            | inr (head, rest, left) ↦
                let w = invalidate k o victim.address log m.world in
                elim (Run-cases (get_free_block k o log m.event w)) [
                  | inr (x, stopped) ↦ absurd (
                      unfold recycle_log extend_log in
                      ground (arith, h, there, merged, left, stopped))
                  | inl (a, taken) ↦ elim (List-cases rest) [
                    | inl alone ↦ absurd (
                        unfold recycle_log extend_log in
                        ground (arith, h, there, merged, left, taken, alone))
                    | inr (second, more, further) ↦
                        shifted-IsLog a.0 head rest m.ftl t.ftl left (same.next ∙ full)
                          (SameLog-IsLog o s.ftl m.ftl same v)
                          (unfold recycle_log extend_log in
                            ground (arith, h, there, merged, left, taken, further))
                          (unfold recycle_log extend_log in
                            ground (arith, h, there, merged, left, taken, further))
                  ]
                ]
          ]
    ]
  ]

-- ===== src/Plane/Free.antt =====
-- The count of the free blocks of a plane.
use test_flash_sim.Base.{
  ℕ, ◌+◌, ◌<◌, ◌≡◌, ◌⊎◌, inl, inr, ◌||◌, List, some, ok, arith, Option-cases, Run-cases,
  if◌then◌else◌, length, length-set, count, count-set, count_pos, count-le-length, set, get_elem?,
  success, Status-cases, refl, [], ◌∷◌, u32, u32_mod,
}
use test_flash_sim.Config.{Config}
use test_flash_sim.Event.{Event}
use test_flash_sim.Memory.{Memory}
use test_flash_sim.Page.{Done}
use test_flash_sim.Block.{Block, BlockState, active, free}
use test_flash_sim.Block
use test_flash_sim.Plane.{Plane, is_free, put, count_used, write, erase, update_wear_stats}

abbrev pub frees : List Block → ℕ
frees = count (λ b. is_free b.state)

-- The counter is the number of the free blocks of an array whose length fits a word,
-- with room for one more.
pub record CountsFree (p : Plane) : Type 0 where
  pub counted : p.free_blocks ≡ frees p.blocks
  pub word : length p.blocks + 1 < u32_mod

-- What a write that returns did.
write_parts :
    (c : Config) (p : Plane) (e : Event) (m : Memory) (r : Done Plane)
    → write c p e m ≡ ok r
    → (b : Block) × (s : Done Block) × (get_elem? p.blocks e.address.block ≡ some b)
      × (Block.write c b e m ≡ ok s)
      × (r.self ≡ count_used b.state s.self.state (put p e.address.block s).self)
unfolding write
write_parts c p e m r h = elim (Option-cases (get_elem? p.blocks e.address.block)) [
  | inl missing ↦ absurd (ground arith)
  | inr (b, found) ↦ elim (Run-cases (Block.write c b e m)) [
    | inl (s, served) ↦ (b, s, found, served, ground arith)
    | inr (f, failed) ↦ absurd (ground arith)
  ]
]

block_write_state :
    (c : Config) (b : Block) (e : Event) (m : Memory) (s : Done Block)
    → Block.write c b e m ≡ ok s
    → (s.self.state ≡ b.state) ⊎ (s.self.state ≡ active)
unfolding Block.write
block_write_state c b e m s h = ground arith

-- Replacing a block, and counting it as used if it left FREE.
count_used-CountsFree :
    (p : Plane) (i : ℕ) (b b' : Block)
    → CountsFree p
    → get_elem? p.blocks i ≡ some b
    → (b'.state ≡ b.state) ⊎ (b'.state ≡ active)
    → CountsFree (count_used b.state b'.state (record p { blocks = set p.blocks i b' }))
unfolding count_used
count_used-CountsFree p i b b' v found kept =
    let change = count-set (λ x. is_free x.state) p.blocks i b b' found in
    let size = length-set p.blocks i b' in
    let most = count-le-length (λ x. is_free x.state) p.blocks in
    let some_free = count_pos (λ x. is_free x.state) p.blocks i b found in
    record {
      counted = ground (arith, change, most, v.counted, v.word, some_free);
      word = ground (arith, size, v.word);
    }

-- If the free block counter of a plane is the number of its free blocks, it still is after a
-- write that returns.
pub write-CountsFree :
    (c : Config) (p : Plane) (e : Event) (m : Memory) (r : Done Plane)
    → CountsFree p
    → write c p e m ≡ ok r
    → CountsFree r.self
unfolding put
write-CountsFree c p e m r v h =
    let (b, s, found, served, same) = write_parts c p e m r h in
    rw same (
      count_used-CountsFree p e.address.block b s.self v found (block_write_state c b e m s served))

update_wear_stats_keeps :
    (p q : Plane)
    → update_wear_stats p ≡ ok q
    → (q.blocks ≡ p.blocks) × (q.free_blocks ≡ p.free_blocks)
unfolding update_wear_stats
update_wear_stats_keeps p q h = wears p.blocks refl
  where
    wears :
        (bs : List Block) → p.blocks ≡ bs → (q.blocks ≡ p.blocks) × (q.free_blocks ≡ p.free_blocks)
    wears [] e = ground arith
    wears (b ∷ bs) e = ground arith

erase_parts :
    (p : Plane) (e : Event) (m : Memory) (r : Done Plane)
    → erase p e m ≡ ok r
    → r.status ≡ success
    → (b : Block) × (s : Done Block) × (get_elem? p.blocks e.address.block ≡ some b)
      × (Block.erase b e m ≡ ok s)
      × (s.status ≡ success)
      × (r.self.free_blocks ≡ u32 (p.free_blocks + 1))
      × (r.self.blocks ≡ set p.blocks e.address.block s.self)
unfolding erase put
erase_parts p e m r h done = elim (Option-cases (get_elem? p.blocks e.address.block)) [
  | inl missing ↦ absurd (ground arith)
  | inr (b, found) ↦ elim (Run-cases (Block.erase b e m)) [
    | inr (f, stuck) ↦ absurd (ground arith)
    | inl (s, ran) ↦
        let q = record p { blocks = set p.blocks e.address.block s.self } in
        elim (Status-cases s.status) [
          | inr failed ↦ absurd (ground arith)
          | inl fine ↦ elim (Run-cases (update_wear_stats q)) [
            | inr (f, stuck) ↦ absurd (ground arith)
            | inl (w, worn) ↦
                let (same, same_count) = update_wear_stats_keeps q w worn in
                (b, s, found, ran, fine, ground arith, ground arith)
          ]
        ]
  ]
]

block_erase_state :
    (b : Block) (e : Event) (m : Memory) (s : Done Block)
    → Block.erase b e m ≡ ok s
    → s.status ≡ success
    → s.self.state ≡ (if e.noop then b.state else free)
unfolding Block.erase Block.erased
block_erase_state b e m s ran fine = ground arith

-- Let the free block counter be right and let an erase of a block of the plane return with
-- success. The counter is then right for a block that was not free, and one too high for one
-- that was, as it is after a request without effect (noop).
pub free_blocks-erase :
    (p : Plane) (e : Event) (m : Memory) (r : Done Plane) (b : Block)
    → CountsFree p
    → get_elem? p.blocks e.address.block ≡ some b
    → erase p e m ≡ ok r
    → r.status ≡ success
    → r.self.free_blocks ≡ frees r.self.blocks + (if e.noop || is_free b.state then 1 else 0)
unfolding is_free
free_blocks-erase p e m r b v found h done =
    let (b', s, found', ran, fine, counter, array) = erase_parts p e m r h done in
    let same : b' ≡ b = ground arith in
    let state = block_erase_state b' e m s ran fine in
    let change = count-set (λ x. is_free x.state) p.blocks e.address.block b' s.self found' in
    let most = count-le-length (λ x. is_free x.state) p.blocks in
    rw array (ground (arith, change, most, v.counted, v.word, counter, state, same))

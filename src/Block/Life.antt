-- ===== src/Block/Life.antt =====
-- Any history of a block: the calls that it serves, one after the other.
use test_flash_sim.Base.{
  inl, inr, refl, ◌∙◌, Option-cases, Run-cases, get_elem?, set, set_self, arith, ℕ, ◌<◌, ◌≡◌, ok,
  u32_mod,
}
use test_flash_sim.Config.{Config}
use test_flash_sim.Event.{Event}
use test_flash_sim.Memory.{Memory}
use test_flash_sim.Page.{Done}
use test_flash_sim.Block.{
  Block, BlockType, new, read, replace, write, invalidate_page, erase, set_block_type,
  derived_state,
}
use test_flash_sim.Block.Invariant.{
  IsValid, new-IsValid, write-IsValid, invalidate_page-IsValid, erase-IsValid,
}

-- A step is a call that changes the block and returns; a call that aborts ends the program.
pub data Step (c : Config) : Block → Block → Type 0 where
  writes :
      {b : Block} (e : Event) (m : Memory) (r : Done Block) → write c b e m ≡ ok r → Step c b r.self
  invalidates :
      {b : Block} (page : ℕ) (m : Memory) (r : Block × Memory)
      → invalidate_page b page m ≡ ok r
      → Step c b r.0
  reads :
      {b : Block} (e : Event) (m : Memory) (r : Done Block) → read c b e m ≡ ok r → Step c b r.self
  replaces :
      {b : Block} (e : Event) (m : Memory) (r : Done Block) → replace b e m ≡ ok r → Step c b r.self
  erases :
      {b : Block} (e : Event) (m : Memory) (r : Done Block) → erase b e m ≡ ok r → Step c b r.self
  retypes : {b : Block} (t : BlockType) → Step c b (set_block_type b t)

pub data Reach (c : Config) (b : Block) : Block → Type 0 where
  here : Reach c b b
  next : {b' b'' : Block} → Reach c b b' → Step c b' b'' → Reach c b b''

read_self :
    (c : Config) (b : Block) (e : Event) (m : Memory) (r : Done Block)
    → read c b e m ≡ ok r
    → r.self ≡ b
unfolding read
read_self c b e m r h = elim (Option-cases (get_elem? b.pages e.address.page)) [
  | inl missing ↦ absurd (ground arith)
  | inr (p, found) ↦
      let same = set_self b.pages e.address.page p found in
      let left : r.self ≡ record b { pages = set b.pages e.address.page p } = ground arith in
      left ∙ rw same refl
]

replace_parts :
    (b : Block) (e : Event) (m : Memory) (r : Done Block)
    → replace b e m ≡ ok r
    → (s : Block × Memory) × (invalidate_page b e.replace_address.page m ≡ ok s) × (r.self ≡ s.0)
unfolding replace
replace_parts b e m r h = elim (Run-cases (invalidate_page b e.replace_address.page m)) [
  | inl (s, served) ↦ (s, served, ground arith)
  | inr (f, failed) ↦ absurd (ground arith)
]

Step-IsValid : {c : Config} {b b' : Block} → Step c b b' → IsValid b → IsValid b'
unfolding set_block_type derived_state
Step-IsValid {c} {b} (writes e m r h) v = write-IsValid c b e m r v h
Step-IsValid {b} (invalidates page m r h) v = invalidate_page-IsValid b page m r v h
Step-IsValid {c} {b} (reads e m r h) v = rw (read_self c b e m r h) v
Step-IsValid {b} (replaces e m r h) v =
    let (s, served, left) = replace_parts b e m r h in
    rw left (invalidate_page-IsValid b e.replace_address.page m s v served)
Step-IsValid {b} (erases e m r h) v = erase-IsValid b e m r v h
Step-IsValid (retypes t) v = record {
  nonempty = v.nonempty;
  word = v.word;
  sized = v.sized;
  invalid_counted = v.invalid_counted;
  valid_counted = v.valid_counted;
  writes_bounded = v.writes_bounded;
  derived = v.derived;
}

Reach-IsValid : {c : Config} {b b' : Block} → IsValid b → Reach c b b' → IsValid b'
Reach-IsValid v here = v
Reach-IsValid v (next r s) = Step-IsValid s (Reach-IsValid v r)

-- In every history of calls that return, of a new block whose number of pages is positive and
-- fits 32 bits, its counters agree with its pages and its state is the one that invalidate_page
-- derives from them.
pub Reach-new-IsValid :
    (c : Config) (size endurance delay address : ℕ) (b : Block)
    → 0 < size
    → size < u32_mod
    → Reach c (new c size endurance delay address) b
    → IsValid b
Reach-new-IsValid c size endurance delay address b pos word r =
    Reach-IsValid (new-IsValid c size endurance delay address pos word) r

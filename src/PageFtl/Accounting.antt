-- ===== src/PageFtl/Accounting.antt =====
-- The count of active pages against the counters of the requests.
use native.Mathlib.Nat.{mul-add}
use test_flash_sim.Base.{
  ◌⊎◌, ◌≢◌, set, ℕ, ◌+◌, ◌-◌, ◌*◌, ◌%◌, ◌≤◌, ◌<◌, ◌≡◌, inl, inr, true, ok, arith, Bool-cases,
  Run-cases, Option-cases, get_elem?, u32, u64_mod, u32_mod, ◌==◌, if◌then◌else◌,
}
use test_flash_sim.Config.{Config}
use test_flash_sim.Event.{Event}
use test_flash_sim.PageFtl.{PageFtl, Answer, read, write, trim, erase_block, capacity, all_trimmed}

-- The pages written are those active and those of the blocks erased, modulo the word.
abbrev pub IsBalanced : Config → PageFtl → Type 0
IsBalanced c f =
    (f.num_pages_active + c.block_size * f.stats.num_ftl_erase) % u64_mod
    ≡ f.stats.num_ftl_write % u64_mod

-- Erasing a block moves its pages from one side to the other.
erase_balance :
    (b n k w : ℕ)
    → b < u64_mod
    → (n + b * k) % u64_mod ≡ w % u64_mod
    → ((n + (u64_mod - b)) % u64_mod + b * (k + 1)) % u64_mod ≡ w % u64_mod
erase_balance b n k w small h = omega (arith, mul-add b k 1)

-- Writing a page counts it on both.
write_balance :
    (n p w : ℕ)
    → (n + p) % u64_mod ≡ w % u64_mod
    → ((n + 1) % u64_mod + p) % u64_mod ≡ (w + 1) % u64_mod
write_balance n p w h = omega arith

write-IsBalanced :
    (c : Config) (blocks : ℕ) (f : PageFtl) (e : Event)
    → c.block_size < u64_mod
    → IsBalanced c f
    → IsBalanced c (write c blocks f e).ftl
unfolding write erase_block
write-IsBalanced c blocks f e small v =
    elim (Bool-cases (f.num_pages_active == capacity c blocks)) [
      | inl full ↦ rw full (
          write_balance ((f.num_pages_active + (u64_mod - c.block_size)) % u64_mod)
            (c.block_size * (f.stats.num_ftl_erase + 1)) f.stats.num_ftl_write
            (erase_balance c.block_size f.num_pages_active f.stats.num_ftl_erase
              f.stats.num_ftl_write small v))
      | inr room ↦ rw room (
          write_balance f.num_pages_active (c.block_size * f.stats.num_ftl_erase)
            f.stats.num_ftl_write v)
    ]

read-IsBalanced :
    (c : Config) (f : PageFtl) (e : Event) → IsBalanced c f → IsBalanced c (read c f e).ftl
unfolding read
read-IsBalanced c f e v = v

-- A trim that returns erased the block, or did not.
trim_cases :
    (c : Config) (f : PageFtl) (e : Event) (r : Answer)
    → trim c f e ≡ ok r
    → (r.ftl.stats.num_ftl_write ≡ f.stats.num_ftl_write)
      × (((r.ftl.num_pages_active ≡ f.num_pages_active)
            × (r.ftl.stats.num_ftl_erase ≡ f.stats.num_ftl_erase))
          ⊎ ((r.ftl.num_pages_active ≡ (f.num_pages_active + (u64_mod - c.block_size)) % u64_mod)
              × (r.ftl.stats.num_ftl_erase ≡ f.stats.num_ftl_erase + 1)))
unfolding trim erase_block
trim_cases c f e r h = elim (Option-cases (get_elem? f.trim_map e.logical_address)) [
  | inl missing ↦ absurd (ground arith)
  | inr (t, found) ↦
      let start = u32 e.logical_address - u32 e.logical_address % c.block_size in
      let marked = if t then f.trim_map else set f.trim_map e.logical_address true in
      elim (Run-cases (all_trimmed marked start c.block_size)) [
        | inr (fault, failed) ↦ absurd (ground arith)
        | inl (all, looped) ↦ elim (Bool-cases all) [
          | inl whole ↦ (ground arith, inr (ground arith, ground arith))
          | inr part ↦ (ground arith, inl (ground arith, ground arith))
        ]
      ]
]

trim-IsBalanced :
    (c : Config) (f : PageFtl) (e : Event) (r : Answer)
    → c.block_size < u64_mod
    → IsBalanced c f
    → trim c f e ≡ ok r
    → IsBalanced c r.ftl
trim-IsBalanced c f e r small v h =
    let (writes, cases) = trim_cases c f e r h in
    elim cases [
      | inl (active, erases) ↦ rw (writes, active, erases) v
      | inr (active, erases) ↦
          rw (writes, active, erases)
            (erase_balance c.block_size f.num_pages_active f.stats.num_ftl_erase
              f.stats.num_ftl_write small v)
    ]

-- Any history of the layer: the requests that it serves, one after the other.
pub data Served (c : Config) (blocks : ℕ) (f : PageFtl) : PageFtl → Type 0 where
  here : Served c blocks f f
  reads : {g : PageFtl} (e : Event) → Served c blocks f g → Served c blocks f (read c g e).ftl
  writes :
      {g : PageFtl} (e : Event) → Served c blocks f g → Served c blocks f (write c blocks g e).ftl
  trims :
      {g : PageFtl} (e : Event) (r : Answer)
      → Served c blocks f g
      → trim c g e ≡ ok r
      → Served c blocks f r.ftl

-- In every history of requests that return, from a balanced state, with blocks of fewer than 2
-- ^ 64 pages, the pages written are those active and those of the blocks erased, modulo 2 ^ 64.
pub Served-IsBalanced :
    (c : Config) (blocks : ℕ) (f g : PageFtl)
    → c.block_size < u64_mod
    → IsBalanced c f
    → Served c blocks f g
    → IsBalanced c g
Served-IsBalanced c blocks f g small v here = v
Served-IsBalanced c blocks f g small v (reads {g = g'} e s) =
    read-IsBalanced c g' e (Served-IsBalanced c blocks f g' small v s)
Served-IsBalanced c blocks f g small v (writes {g = g'} e s) =
    write-IsBalanced c blocks g' e small (Served-IsBalanced c blocks f g' small v s)
Served-IsBalanced c blocks f g small v (trims {g = g'} e r s h) =
    trim-IsBalanced c g' e r small (Served-IsBalanced c blocks f g' small v s) h

capacity_word : (c : Config) (blocks : ℕ) → capacity c blocks < u32_mod
unfolding capacity
capacity_word c blocks = omega arith

-- If blocks are not empty, the capacity is at least a block and no more pages are active than
-- that, then after a write at least one page is active and no more than the capacity.
pub write_bounded :
    (c : Config) (blocks : ℕ) (f : PageFtl) (e : Event)
    → 0 < c.block_size
    → c.block_size ≤ capacity c blocks
    → f.num_pages_active ≤ capacity c blocks
    → (0 < (write c blocks f e).ftl.num_pages_active)
      × ((write c blocks f e).ftl.num_pages_active ≤ capacity c blocks)
unfolding write erase_block
write_bounded c blocks f e pos one v =
    let word = capacity_word c blocks in
    elim (Bool-cases (f.num_pages_active == capacity c blocks)) [
      | inl full ↦ rw full (ground arith, ground arith)
      | inr room ↦ rw room (ground arith, ground arith)
    ]

-- Let fewer pages be active than a block of fewer than 2 ^ 64 pages has. A trim that returns
-- and erases the block then makes the count of active pages wrap around.
pub trim_underflow :
    (c : Config) (f : PageFtl) (e : Event) (r : Answer)
    → f.num_pages_active < c.block_size
    → c.block_size < u64_mod
    → trim c f e ≡ ok r
    → r.ftl.stats.num_ftl_erase ≢ f.stats.num_ftl_erase
    → r.ftl.num_pages_active ≡ u64_mod - (c.block_size - f.num_pages_active)
trim_underflow c f e r few small h erased =
    let (_, cases) = trim_cases c f e r h in
    elim cases [
      | inl (active, same) ↦ absurd (erased same)
      | inr (active, _) ↦ omega (arith, active)
    ]

-- ===== src/PageFtl/Trims.antt =====
-- The map of the trimmed pages.
use test_flash_sim.Base.{
  ℕ, zero, suc, ◌+◌, ◌-◌, ◌%◌, ◌≤◌, ◌<◌, ◌≡◌, ◌⊎◌, ◌∙◌, refl, sym, inl, inr, Bool, true, false,
  ◌&&◌, List, ok, arith, Bool-cases, Run-cases, Option-cases, some, get_elem?, set, set_self,
  length, length-set, get_elem?-set_self, get_elem?-set_ne, lt-length_of_get_elem?, u32, ◌==◌,
  ◌>>=◌, get_elem?_of_lt, if◌then◌else◌,
}
use test_flash_sim.Config.{Config}
use test_flash_sim.Event.{Event}
use test_flash_sim.PageFtl.{PageFtl, Answer, trim, erase_block, all_trimmed, reset_trimmed}

-- All pages from `i` to `i + n` are trimmed, or one of them is not.
abbrev pub AllTrimmed : List Bool → ℕ → ℕ → Type 0
AllTrimmed m i n = (j : ℕ) → i ≤ j → j < i + n → get_elem? m j ≡ some true

abbrev pub OneLeft : List Bool → ℕ → ℕ → Type 0
OneLeft m i n = (j : ℕ) × (i ≤ j) × (j < i + n) × (get_elem? m j ≡ some false)

AllTrimmed-suc :
    (m : List Bool) (i n : ℕ)
    → get_elem? m i ≡ some true
    → AllTrimmed m (suc i) n
    → AllTrimmed m i (suc n)
AllTrimmed-suc m i n first rest j low high = elim (Bool-cases (j == i)) [
  | inl same ↦ let e : j ≡ i = ground arith in rw e first
  | inr other ↦ rest j (ground arith) (omega arith)
]

all_trimmed_cases :
    (m : List Bool) (i n : ℕ) (b : Bool)
    → all_trimmed m i n ≡ ok b
    → ((b ≡ true) × AllTrimmed m i n) ⊎ ((b ≡ false) × OneLeft m i n)
unfolding all_trimmed
all_trimmed_cases m i zero b h = inl (ground arith, λ j low high. absurd (omega arith))
all_trimmed_cases m i (suc n) b h = elim (Option-cases (get_elem? m i)) [
  | inl missing ↦ absurd (ground arith)
  | inr (t, found) ↦ elim (Run-cases (all_trimmed m (suc i) n)) [
    | inr (fault, failed) ↦ absurd (ground arith)
    | inl (rest, looped) ↦ elim (all_trimmed_cases m (suc i) n rest looped) [
      | inr (left, (j, low, high, untrimmed)) ↦
          inr (ground arith, (j, omega arith, omega arith, untrimmed))
      | inl (all, trimmed) ↦ elim (Bool-cases t) [
        | inl set_bit ↦ inl (ground arith, AllTrimmed-suc m i n (ground arith) trimmed)
        | inr clear ↦ inr (ground arith, (i, omega arith, omega arith, ground arith))
      ]
    ]
  ]
]

reset_outside :
    (m : List Bool) (i n j : ℕ)
    → (j < i) ⊎ (i + n ≤ j)
    → get_elem? (reset_trimmed m i n) j ≡ get_elem? m j
unfolding reset_trimmed
reset_outside m i zero j out = refl
reset_outside m i (suc n) j out =
    reset_outside (set m i false) (suc i) n j (ground arith)
    ∙ get_elem?-set_ne m i j false (ground arith)

reset_inside :
    (m : List Bool) (i n j : ℕ)
    → i ≤ j
    → j < i + n
    → j < length m
    → get_elem? (reset_trimmed m i n) j ≡ some false
unfolding reset_trimmed
reset_inside m i zero j low high there = absurd (omega arith)
reset_inside m i (suc n) j low high there = elim (Bool-cases (j == i)) [
  | inl same ↦
      let e : j ≡ i = ground arith in
      reset_outside (set m i false) (suc i) n j (inl (omega arith))
      ∙ rw e (get_elem?-set_self m i false (omega arith))
  | inr other ↦
      reset_inside (set m i false) (suc i) n j (ground arith) (omega arith)
        (omega (arith, length-set m i false))
]

-- The map with the page of the request trimmed.
abbrev pub with_trimmed : PageFtl → Event → List Bool
with_trimmed f e = set f.trim_map e.logical_address true

-- The first page of the block of the request.
abbrev pub block_start : Config → Event → ℕ
block_start c e = u32 e.logical_address - u32 e.logical_address % c.block_size

marked_lem :
    (xs : List Bool) (i : ℕ) (t : Bool)
    → get_elem? xs i ≡ some t
    → (if t then xs else set xs i true) ≡ set xs i true
marked_lem xs i true h = sym (set_self xs i true h)
marked_lem xs i false h = refl

-- What a trim that returns found in its block, and the map that it leaves.
trim_parts :
    (c : Config) (f : PageFtl) (e : Event) (r : Answer)
    → trim c f e ≡ ok r
    → let m = with_trimmed f e in
      let i = block_start c e in
      (all : Bool) × (all_trimmed m i c.block_size ≡ ok all)
      × (r.ftl.trim_map ≡ (if all then reset_trimmed m i c.block_size else m))
unfolding trim erase_block
trim_parts c f e r h = elim (Option-cases (get_elem? f.trim_map e.logical_address)) [
  | inl missing ↦ absurd (ground arith)
  | inr (t, found) ↦
      let same = marked_lem f.trim_map e.logical_address t found in
      let marked = if t then f.trim_map else set f.trim_map e.logical_address true in
      elim (Run-cases (all_trimmed marked (block_start c e) c.block_size)) [
        | inr (fault, failed) ↦ absurd (ground arith)
        | inl (all, looped) ↦ elim (Bool-cases all) [
          | inl whole ↦ (all, cc, ground arith)
          | inr part ↦ (all, cc, ground arith)
        ]
      ]
]

all_trimmed_returns :
    (m : List Bool) (i n : ℕ) → i + n ≤ length m → (b : Bool) × (all_trimmed m i n ≡ ok b)
unfolding all_trimmed
all_trimmed_returns m i zero h = (true, refl)
all_trimmed_returns m i (suc n) h =
    let (t, found) = get_elem?_of_lt m i (omega arith) in
    let (b, looped) = all_trimmed_returns m (suc i) n (omega arith) in
    (t && b, rw (found, ◌>>=◌, looped) refl)

trim_returns :
    (c : Config) (f : PageFtl) (e : Event)
    → e.logical_address < length f.trim_map
    → block_start c e + c.block_size ≤ length f.trim_map
    → (r : Answer) × (trim c f e ≡ ok r)
unfolding trim erase_block
trim_returns c f e inside block =
    let (t, found) = get_elem?_of_lt f.trim_map e.logical_address inside in
    let same = marked_lem f.trim_map e.logical_address t found in
    let long = length-set f.trim_map e.logical_address true in
    let (all, looped) =
      all_trimmed_returns (with_trimmed f e) (block_start c e) c.block_size (omega (arith, long)) in
    let marked = if t then f.trim_map else set f.trim_map e.logical_address true in
    let looped' : all_trimmed marked (block_start c e) c.block_size ≡ ok all = rw same looped in
    elim (Run-cases (trim c f e)) [
      | inl returns ↦ returns
      | inr (fault, aborts) ↦ elim (Bool-cases all) [
        | inl whole ↦ absurd (ground arith)
        | inr part ↦ absurd (ground arith)
      ]
    ]

-- Let the map hold the page of the request and its block. Then trim returns, and marks the
-- page. If then all pages of the block are marked, the marks of the block are removed and those
-- of no other page; else a page of the block is not marked, and the other marks stay as they
-- were.
pub trim_marks :
    (c : Config) (f : PageFtl) (e : Event)
    → e.logical_address < length f.trim_map
    → block_start c e + c.block_size ≤ length f.trim_map
    → let m = with_trimmed f e in
      let i = block_start c e in
      (r : Answer) × (trim c f e ≡ ok r)
      × ((AllTrimmed m i c.block_size
            × ((j : ℕ) → i ≤ j → j < i + c.block_size → get_elem? r.ftl.trim_map j ≡ some false)
            × ((j : ℕ)
                → (j < i) ⊎ (i + c.block_size ≤ j)
                → get_elem? r.ftl.trim_map j ≡ get_elem? m j))
          ⊎ (OneLeft m i c.block_size × (r.ftl.trim_map ≡ m)))
trim_marks c f e inside block =
    let m = with_trimmed f e in
    let i = block_start c e in
    let (r, returns) = trim_returns c f e inside block in
    let (all, looped, left) = trim_parts c f e r returns in
    (
      r,
      returns,
      elim (all_trimmed_cases m i c.block_size all looped) [
        | inl (whole, trimmed) ↦ inl (
          trimmed,
          λ j low high.
              rw (left, whole)
                (reset_inside m i c.block_size j low high
                  (lt-length_of_get_elem? m j true (trimmed j low high))),
          λ j out. rw (left, whole) (reset_outside m i c.block_size j out),
        )
        | inr (part, one) ↦ inr (one, rw (left, part) refl)
      ],
    )

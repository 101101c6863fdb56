-- ===== src/Fast/Filled.antt =====
-- How the RW log of OriginalFlashSim/FTLs/fast_ftl.cpp fills up, and what a search of it finds after
-- an append.
use test_flash_sim.Base.{
  ℕ, zero, suc, ◌+◌, ◌-◌, ◌*◌, ◌%◌, ◌≤◌, ◌<◌, ◌≡◌, inl, inr, ◌∙◌, refl, sym, ap, Option, none, some,
  List, [], ◌∷◌, Run, ok, ◌>>=◌, if◌then◌else◌, ltb, ◌==◌, arith, length, get_elem?, set,
  length-set, get_elem?_of_lt, get_elem?-set_self, get_elem?-set_ne, Bool-cases, Option-cases,
  Run-cases, subst, All, u32_mod,
}
use native.Mathlib.Nat.{mod-eq_of_lt, mod-eq-sub-mod}
use test_flash_sim.Address.{Address}
use test_flash_sim.Fast.{LogBlock, is_entry, page_in, find_logged}
use test_flash_sim.Fast.Writes.{place_entry}

-- The entries fill the blocks from the first on: `n` of them are left for these blocks.
abbrev pub IsFilled : ℕ → ℕ → List LogBlock → Type 0
IsFilled block_size n [] = Unit
IsFilled block_size n (b ∷ rest) =
    (length b.a_pages ≡ block_size)
    × (b.num_pages ≡ (if ltb n block_size then n else block_size))
    × IsFilled block_size (n - block_size) rest

-- The linear address that a search leads to.
abbrev pub aim : Run (Option (ℕ × LogBlock × ℕ)) → Run (Option ℕ)
aim r = r >>= λ place.
    ok (elim place [ none ↦ none | some (i, b, j) ↦ some (b.address.real_address + j) ])

-- A search, with an answer for where it finds nothing.
abbrev pub or_else : Run (Option ℕ) → Option ℕ → Run (Option ℕ)
or_else r x = r >>= λ place. ok (elim place [ none ↦ x | some n ↦ some n ])

page_in_step :
    (la : ℕ) (pages : List (Option ℕ)) (i n : ℕ) (p : Option ℕ)
    → get_elem? pages i ≡ some p
    → page_in la pages i (suc n)
      ≡ (if is_entry la p then ok (some i) else page_in la pages (suc i) n)
unfolding page_in
page_in_step la pages i n p found = ground (arith, found)

-- One more page in a log block.
page_in-set :
    (la v : ℕ) (pages : List (Option ℕ)) (n i m : ℕ)
    → m ≡ i + n
    → m < length pages
    → page_in la (set pages m (some v)) i (suc n)
      ≡ or_else (page_in la pages i n) (if v == la then some m else none)
page_in-set la v pages zero i m last inside =
    let found = get_elem?-set_self pages m (some v) inside in
    let same : m ≡ i = omega arith in
    page_in_step la (set pages m (some v)) i 0 (some v) (ground (arith, found, same))
    ∙ (unfold page_in is_entry in ground (arith, same))
page_in-set la v pages (suc n) i m last inside =
    let (p, found) = get_elem?_of_lt pages i (omega arith) in
    let kept = get_elem?-set_ne pages m i (some v) (λ same. absurd (omega arith)) in
    let ih = page_in-set la v pages n (suc i) m (omega arith) inside in
    let now = page_in_step la (set pages m (some v)) i (suc n) p (kept ∙ found) in
    let before = page_in_step la pages i n p found in
    elim (Bool-cases (is_entry la p)) [
      | inl hit ↦ ground (arith, now, before, hit)
      | inr miss ↦ ground (arith, now, before, miss, ih)
    ]

page_in_runs :
    (la : ℕ) (pages : List (Option ℕ)) (n i : ℕ)
    → i + n ≤ length pages
    → (r : Option ℕ) × (page_in la pages i n ≡ ok r)
page_in_runs la pages zero i inside = (none, (unfold page_in in refl))
page_in_runs la pages (suc n) i inside =
    let (p, found) = get_elem?_of_lt pages i (omega arith) in
    let step = page_in_step la pages i n p found in
    let (r, rest) = page_in_runs la pages n (suc i) (omega arith) in
    elim (Bool-cases (is_entry la p)) [
      | inl hit ↦ (some i, ground (arith, step, hit))
      | inr miss ↦ (r, ground (arith, step, miss, rest))
    ]

find_logged_step :
    (la : ℕ) (b : LogBlock) (rest : List LogBlock) (i : ℕ) (r : Option ℕ)
    → page_in la b.a_pages 0 b.num_pages ≡ ok r
    → aim (find_logged la (b ∷ rest) i) ≡ elim r [
      | some j ↦ ok (some (b.address.real_address + j))
      | none ↦ aim (find_logged la rest (suc i))
    ]
unfolding find_logged
find_logged_step la b rest i r found = elim (Option-cases r) [
  | inl nothing ↦ ground (arith, found, nothing)
  | inr (j, here) ↦ ground (arith, found, here)
]

-- No entry is left for these blocks, so none is found.
find_logged_empty :
    (block_size la : ℕ) (blocks : List LogBlock) (i : ℕ)
    → 0 < block_size
    → IsFilled block_size 0 blocks
    → find_logged la blocks i ≡ ok none
unfolding find_logged page_in
find_logged_empty block_size la [] i positive filled = refl
find_logged_empty block_size la (b ∷ rest) i positive (length, entries, later) =
    let ih =
      find_logged_empty block_size la rest (suc i) positive
        (subst (λ (n : ℕ). IsFilled block_size n rest) (omega arith) later) in
    let unused : b.num_pages ≡ 0 = ground (arith, entries) in ground (arith, unused, ih)

-- A search of a log that is filled ends.
pub find_logged_runs :
    (block_size n la : ℕ) (blocks : List LogBlock) (i : ℕ)
    → IsFilled block_size n blocks
    → (r : Option (ℕ × LogBlock × ℕ)) × (find_logged la blocks i ≡ ok r)
unfolding find_logged
find_logged_runs block_size n la [] i filled = (none, refl)
find_logged_runs block_size n la (b ∷ rest) i (size, entries, later) =
    let (r, searched) = page_in_runs la b.a_pages b.num_pages 0 (ground (arith, size, entries)) in
    let (r', rest_searched) = find_logged_runs block_size (n - block_size) la rest (suc i) later in
    elim (Option-cases r) [
      | inl nothing ↦ (r', ground (arith, searched, nothing, rest_searched))
      | inr (j, here) ↦ (some (i, b, j), ground (arith, searched, here))
    ]

-- What a block that is not full becomes, with room at the n-th place.
abbrev entered : LogBlock → ℕ → ℕ → LogBlock
entered b n la = record b { a_pages = set b.a_pages n (some la); num_pages = b.num_pages + 1 }

find_logged-entered :
    (block_size n la other : ℕ) (b : LogBlock) (rest : List LogBlock) (i : ℕ)
    → n < block_size
    → IsFilled block_size n (b ∷ rest)
    → aim (find_logged other (entered b n la ∷ rest) i)
      ≡ or_else
          (aim (find_logged other (b ∷ rest) i))
          (if la == other then some (b.address.real_address + n) else none)
find_logged-entered block_size n la other b rest i room (size, entries, later) =
    let num : b.num_pages ≡ n = ground (arith, entries) in
    let next : b.num_pages + 1 ≡ suc n = omega (arith, num) in
    let (r, searched) = page_in_runs other b.a_pages n 0 (omega (arith, size)) in
    let unused : n - block_size ≡ 0 = omega arith in
    let nothing =
      find_logged_empty block_size other rest (suc i) (omega arith)
        (subst (λ (m : ℕ). IsFilled block_size m rest) unused later) in
    let appended = page_in-set other la b.a_pages n 0 n (omega arith) (omega (arith, size)) in
    let before =
      find_logged_step other b rest i r (ap (λ m. page_in other b.a_pages 0 m) num ∙ searched) in
    let after = λ (r' : Option ℕ) (h : page_in other (set b.a_pages n (some la)) 0 (suc n) ≡ ok r').
      find_logged_step other (entered b n la) rest i r'
        (ap (λ m. page_in other (set b.a_pages n (some la)) 0 m) next ∙ h) in
    elim (Option-cases r) [
      | inr (j, here) ↦
          let now = after (some j) (ground (arith, appended, searched, here)) in
          ground (arith, now, before, here)
      | inl none_here ↦ elim (Bool-cases (la == other)) [
        | inl same ↦
            let now = after (some n) (ground (arith, appended, searched, none_here, same)) in
            ground (arith, now, before, none_here, nothing, same)
        | inr apart ↦
            let now = after none (ground (arith, appended, searched, none_here, apart)) in
            ground (arith, now, before, none_here, nothing, apart)
      ]
    ]

-- Where an append to a filled log goes, and what searches find after it.
pub record IsAppended (block_size n slot la : ℕ) (blocks : List LogBlock) (c : LogBlock)
    (blocks' : List LogBlock) : Type 0 where
  pub placed : place_entry block_size la slot blocks ≡ ok (c, blocks')
  pub filled : IsFilled block_size (n + 1) blocks'
  pub same_length : length blocks' ≡ length blocks
  pub searched :
      (other i : ℕ)
      → aim (find_logged other blocks' i)
        ≡ or_else
            (aim (find_logged other blocks i))
            (if la == other then some (c.address.real_address + slot) else none)

-- The blocks whose pages have linear addresses of 32 bits.
abbrev pub AreSmall : ℕ → List LogBlock → Type 0
AreSmall block_size blocks = All (λ b. b.address.real_address + block_size ≤ u32_mod) blocks

append_here :
    (block_size n la : ℕ) (b : LogBlock) (rest : List LogBlock)
    → n < block_size
    → IsFilled block_size n (b ∷ rest)
    → IsAppended block_size n n la (b ∷ rest) (entered b n la) (entered b n la ∷ rest)
unfolding place_entry
append_here block_size n la b rest room filled =
    let (size, entries, later) = filled in
    let (p, found) = get_elem?_of_lt b.a_pages n (omega (arith, size)) in
    let none_left : n - block_size ≡ n + 1 - block_size = omega arith in
    record {
      placed = ground (arith, entries, found);
      filled = (
        length-set b.a_pages n (some la) ∙ size,
        ground (arith, entries),
        subst (λ (m : ℕ). IsFilled block_size m rest) none_left later,
      );
      same_length = refl;
      searched = λ other i. find_logged-entered block_size n la other b rest i room filled;
    }

append_later :
    (block_size n slot la : ℕ) (b c : LogBlock) (rest rest' : List LogBlock)
    → block_size ≤ n
    → 0 < block_size
    → IsFilled block_size n (b ∷ rest)
    → IsAppended block_size (n - block_size) slot la rest c rest'
    → IsAppended block_size n slot la (b ∷ rest) c (b ∷ rest')
unfolding place_entry
append_later block_size n slot la b c rest rest' full positive (size, entries, later) behind =
    let stepped : n - block_size + 1 ≡ n + 1 - block_size = omega arith in
    record {
      placed = ground (arith, entries, behind.placed);
      filled = (
        size,
        ground (arith, entries),
        subst (λ (m : ℕ). IsFilled block_size m rest') stepped behind.filled,
      );
      same_length = ap suc behind.same_length;
      searched = λ other i.
          let (r, here) =
            page_in_runs other b.a_pages b.num_pages 0 (ground (arith, size, entries)) in
          let before = find_logged_step other b rest i r here in
          let after = find_logged_step other b rest' i r here in
          let ih = behind.searched other (suc i) in
          elim (Option-cases r) [
            | inl nothing ↦ ground (arith, before, after, ih, nothing)
            | inr (j, place) ↦ ground (arith, before, after, place)
          ];
    }

pub place_entry-AreSmall :
    (block_size la slot : ℕ) (blocks : List LogBlock) (r : LogBlock × List LogBlock)
    → AreSmall block_size blocks
    → place_entry block_size la slot blocks ≡ ok r
    → r.0.address.real_address + block_size ≤ u32_mod
unfolding place_entry
place_entry-AreSmall block_size la slot [] r small h = absurd (cc)
place_entry-AreSmall block_size la slot (b ∷ rest) r small h =
    elim (Bool-cases (b.num_pages == block_size)) [
      | inr room ↦
          let same : r.0.address ≡ b.address = ground (arith, h, room) in
          subst (λ (a : Address). a.real_address + block_size ≤ u32_mod) (sym same) small.0
      | inl full ↦ elim (Run-cases (place_entry block_size la slot rest)) [
        | inr (x, stopped) ↦ absurd (ground (arith, h, full, stopped))
        | inl (later, placed) ↦
            let same : r.0.address ≡ later.0.address = ground (arith, h, full, placed) in
            subst (λ (a : Address). a.real_address + block_size ≤ u32_mod) (sym same)
              (place_entry-AreSmall block_size la slot rest later small.1 placed)
      ]
    ]

-- An append to a filled log with room.
pub place_entry-IsAppended :
    (block_size n la : ℕ) (blocks : List LogBlock)
    → 0 < block_size
    → n < length blocks * block_size
    → IsFilled block_size n blocks
    → (c : LogBlock) × (blocks' : List LogBlock) × IsAppended block_size n
        (n % block_size)
        la
        blocks
        c
        blocks'
place_entry-IsAppended block_size n la [] positive room filled = absurd (omega arith)
place_entry-IsAppended block_size n la (b ∷ rest) positive room filled =
    elim (Bool-cases (ltb n block_size)) [
      | inl inside ↦
          let slot : n ≡ n % block_size = sym (mod-eq_of_lt (ground (arith, inside))) in
          let now : n < block_size = ground (arith, inside) in
          (
            entered b n la,
            entered b n la ∷ rest,
            subst
                (λ (m : ℕ).
                  IsAppended block_size n m la (b ∷ rest) (entered b n la) (entered b n la ∷ rest))
                slot (append_here block_size n la b rest now filled),
          )
      | inr full ↦
          let over : block_size ≤ n = ground (arith, full) in
          let (c, rest', behind) =
            place_entry-IsAppended block_size (n - block_size) la rest positive (omega arith)
              filled.2 in
          let slot : (n - block_size) % block_size ≡ n % block_size = sym (mod-eq-sub-mod over) in
          (
            c,
            b ∷ rest',
            subst (λ (m : ℕ). IsAppended block_size n m la (b ∷ rest) c (b ∷ rest')) slot
                (append_later block_size n ((n - block_size) % block_size) la b c rest rest' over
                  positive filled behind),
          )
    ]

-- ===== src/Block/Invariant.antt =====
-- The counters and the state of a block against its pages.
use test_flash_sim.Base.{
  ℕ, ◌+◌, ◌≤◌, ◌<◌, ◌≡◌, ◌↔◌, refl, inl, inr, false, some, List, [], ◌∷◌, ok, arith, length,
  length-set, length-replicate, count-set, count-replicate, set, get_elem?, Option-cases,
  Bool-cases, u32_mod, ◌⊎◌,
}
use test_flash_sim.Config.{Config}
use test_flash_sim.Event.{Event, incr_time_taken}
use test_flash_sim.Memory.{Memory}
use test_flash_sim.Page.{Page, Done, PageState, is_empty, is_valid, is_invalid}
use test_flash_sim.Page
use test_flash_sim.Block.{
  Block, free, inactive, new, write, written, counted, erased, erase, invalidate_page,
  derived_state,
}
use test_flash_sim.Block.Counts.{empties, valids, invalids, counts-length, erased_counts}

-- `pages_valid` counts the writes since the last erase, so it is at least the number of valid
-- pages, and no more than the number of pages that are not empty.
pub record IsValid (b : Block) : Type 0 where
  pub nonempty : 0 < b.size
  pub word : b.size < u32_mod
  pub sized : length b.pages ≡ b.size
  pub invalid_counted : b.pages_invalid ≡ invalids b.pages
  pub valid_counted : valids b.pages ≤ b.pages_valid
  pub writes_bounded : b.pages_valid ≤ valids b.pages + invalids b.pages
  pub derived : b.state ≡ derived_state b

-- A new block is valid.
pub new-IsValid :
    (c : Config) (size erases delay address : ℕ)
    → 0 < size
    → size < u32_mod
    → IsValid (new c size erases delay address)
unfolding new derived_state Page.new
new-IsValid c size erases delay address pos word =
    let page = Page.new c.page_read_delay c.page_write_delay in
    let n = length-replicate size page in
    let v = count-replicate (λ p. is_valid p.state) size page in
    let i = count-replicate (λ p. is_invalid p.state) size page in
    record {
      nonempty = pos;
      word = word;
      sized = n;
      invalid_counted = omega (arith, i);
      valid_counted = omega (arith, v);
      writes_bounded = omega arith;
      derived = ground arith;
    }

-- Writing the state of one page.
stored_counts :
    (ps : List Page) (i : ℕ) (p q : Page)
    → get_elem? ps i ≡ some p
    → let qs = set ps i q in
      (length qs ≡ length ps)
      × (empties qs + empties (p ∷ []) ≡ empties ps + empties (q ∷ []))
      × (valids qs + valids (p ∷ []) ≡ valids ps + valids (q ∷ []))
      × (invalids qs + invalids (p ∷ []) ≡ invalids ps + invalids (q ∷ []))
stored_counts ps i p q h = (
  length-set ps i q,
  omega (arith, count-set (λ x. is_empty x.state) ps i p q h),
  omega (arith, count-set (λ x. is_valid x.state) ps i p q h),
  omega (arith, count-set (λ x. is_invalid x.state) ps i p q h),
)

module _ (b : Block) (i : ℕ) (p : Page) (v : IsValid b) (found : get_elem? b.pages i ≡ some p) where
  same-IsValid : IsValid (record b { pages = set b.pages i p })
  unfolding derived_state
  same-IsValid =
      let (n, _, y, z) = stored_counts b.pages i p p found in
      record {
        nonempty = v.nonempty;
        word = v.word;
        sized = omega arith;
        invalid_counted = omega arith;
        valid_counted = omega arith;
        writes_bounded = omega arith;
        derived = v.derived;
      }

  written-IsValid :
      (e : Event)
      → p.state ≡ Page.empty
      → IsValid (written (record b { pages = set b.pages i (record p { state = Page.valid }) }) e)
  unfolding derived_state written
  written-IsValid e was_empty =
      let q = record p { state = Page.valid } in
      let (n, x, y, z) = stored_counts b.pages i p q found in
      let total = counts-length b.pages in
      let total' = counts-length (set b.pages i q) in
      let one : (empties (p ∷ []) ≡ 1) × (valids (p ∷ []) ≡ 0) × (invalids (p ∷ []) ≡ 0) =
        (ground arith, ground arith, ground arith) in
      record {
        nonempty = v.nonempty;
        word = v.word;
        sized = omega arith;
        invalid_counted = omega arith;
        valid_counted = omega arith;
        writes_bounded = omega arith;
        derived = ground (arith, x, y, z, total, v.writes_bounded);
      }

write_cases :
    (c : Config) (b : Block) (e : Event) (m : Memory) (r : Done Block) (p : Page)
    → get_elem? b.pages e.address.page ≡ some p
    → write c b e m ≡ ok r
    → (r.self ≡ record b { pages = set b.pages e.address.page p })
      ⊎ ((p.state ≡ Page.empty)
          × (r.self
              ≡ written
                  (record b {
                    pages = set b.pages e.address.page (record p { state = Page.valid });
                  })
                  e))
unfolding write
write_cases c b e m r p found h = ground arith

-- A write that the block completes leaves it valid.
pub write-IsValid :
    (c : Config) (b : Block) (e : Event) (m : Memory) (r : Done Block)
    → IsValid b
    → write c b e m ≡ ok r
    → IsValid r.self
unfolding write
write-IsValid c b e m r v h = elim (Option-cases (get_elem? b.pages e.address.page)) [
  | inl missing ↦ absurd (ground arith)
  | inr (p, found) ↦ elim (write_cases c b e m r p found h) [
    | inl same ↦ rw same (same-IsValid b e.address.page p v found)
    | inr (was_empty, done) ↦ rw done (written-IsValid b e.address.page p v found e was_empty)
  ]
]

counted-IsValid :
    (b : Block) (i : ℕ) (p : Page)
    → IsValid b
    → get_elem? b.pages i ≡ some p
    → is_invalid p.state ≡ false
    → IsValid (record (counted b i p) { state = derived_state (counted b i p) })
unfolding derived_state counted Page.set_state
counted-IsValid b i p v found fresh =
    let q = record p { state = Page.invalid } in
    let (n, x, y, z) = stored_counts b.pages i p q found in
    let total = counts-length b.pages in
    let total' = counts-length (set b.pages i q) in
    let one : invalids (p ∷ []) ≡ 0 = ground arith in
    let two : valids (p ∷ []) ≤ 1 = ground arith in
    record {
      nonempty = v.nonempty;
      word = v.word;
      sized = omega arith;
      invalid_counted = omega arith;
      valid_counted = omega arith;
      writes_bounded = omega arith;
      derived = refl;
    }

-- Invalidating a page, whatever its state, leaves the block valid.
pub invalidate_page-IsValid :
    (b : Block) (i : ℕ) (m : Memory) (r : Block × Memory)
    → IsValid b
    → invalidate_page b i m ≡ ok r
    → IsValid r.0
unfolding invalidate_page
invalidate_page-IsValid b i m r v h = elim (Option-cases (get_elem? b.pages i)) [
  | inl missing ↦ absurd (ground arith)
  | inr (p, found) ↦ elim (Bool-cases (is_invalid p.state)) [
    | inl old ↦ let same : r.0 ≡ b = ground arith in rw same v
    | inr fresh ↦
        let done : r.0 ≡ record (counted b i p) { state = derived_state (counted b i p) } =
          ground arith in
        rw done (counted-IsValid b i p v found fresh)
  ]
]

pub erase_cases :
    (b : Block) (e : Event) (m : Memory) (r : Done Block)
    → erase b e m ≡ ok r
    → (r.self ≡ b) ⊎ (r.self ≡ erased b (incr_time_taken e b.erase_delay))
unfolding erase
erase_cases b e m r h = ground arith

erased-IsValid : (b : Block) (e : Event) → IsValid b → IsValid (erased b e)
unfolding erased derived_state
erased-IsValid b e v =
    let (x, y, z, n) = erased_counts b.pages in
    record {
      nonempty = v.nonempty;
      word = v.word;
      sized = omega arith;
      invalid_counted = omega arith;
      valid_counted = omega arith;
      writes_bounded = omega arith;
      derived = ground (arith, v.nonempty);
    }

-- An erase that returns leaves the block valid, also one that fails.
pub erase-IsValid :
    (b : Block) (e : Event) (m : Memory) (r : Done Block)
    → IsValid b
    → erase b e m ≡ ok r
    → IsValid r.self
erase-IsValid b e m r v h = elim (erase_cases b e m r h) [
  | inl same ↦ rw same v
  | inr done ↦ rw done (erased-IsValid b (incr_time_taken e b.erase_delay) v)
]

-- A valid block is FREE exactly when all its pages are empty, and INACTIVE exactly when all its
-- pages are invalid.
pub state_documented :
    (b : Block)
    → IsValid b
    → ((b.state ≡ free) ↔ (empties b.pages ≡ b.size))
      × ((b.state ≡ inactive) ↔ (invalids b.pages ≡ b.size))
unfolding derived_state
state_documented b v =
    let total = counts-length b.pages in
    ((λ h. ground arith, λ h. ground arith), (λ h. ground arith, λ h. ground arith))

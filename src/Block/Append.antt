-- ===== src/Block/Append.antt =====
-- A block that is written from its first page on.
use native.Mathlib.Nat.{div-add-mod'}
use test_flash_sim.Base.{
  ◌-◌, ◌*◌, ℕ, zero, suc, ◌+◌, ◌<◌, ◌≡◌, refl, true, false, some, List, [], ◌∷◌, ok, arith, length,
  set, get_elem?, Option-cases, inl, inr, map, ◌%◌, ◌/◌, success, u32_mod,
}
use test_flash_sim.Config.{Config}
use test_flash_sim.Address.{Address, page_level, set_linear_address, set_linear_level}
use test_flash_sim.Address.Linear.{quotient, remainder}
use test_flash_sim.Event.{Event, incr_time_taken}
use test_flash_sim.Memory.{Memory}
use test_flash_sim.Page.{Page, Done, is_empty, PageState}
use test_flash_sim.Page
use test_flash_sim.Block.{
  Block, write, written, counted, notify, invalidate_page, erase, erased, first_empty,
  get_next_page,
}
use test_flash_sim.Block.Invariant.{IsValid, erase_cases}

-- The first n pages were written, and the others are empty.
abbrev pub Filled : ℕ → List Page → Type 0
Filled n [] = n ≡ 0
Filled zero (p ∷ ps) = (is_empty p.state ≡ true) × Filled zero ps
Filled (suc n) (p ∷ ps) = (is_empty p.state ≡ false) × Filled n ps

abbrev pub IsAppended : Block → Type 0
IsAppended b = Filled b.pages_valid b.pages

Filled-set :
    (n : ℕ) (ps : List Page) (q : Page)
    → n < length ps
    → is_empty q.state ≡ false
    → Filled n ps
    → Filled (suc n) (set ps n q)
Filled-set n [] q h e f = absurd (omega arith)
Filled-set zero (p ∷ ps) q h e f = (e, f.1)
Filled-set (suc n) (p ∷ ps) q h e f = (f.0, Filled-set n ps q (omega arith) e f.1)

Filled-replace :
    (n i : ℕ) (ps : List Page) (q : Page)
    → i < n
    → is_empty q.state ≡ false
    → Filled n ps
    → Filled n (set ps i q)
Filled-replace n i [] q h e f = f
Filled-replace zero i (p ∷ ps) q h e f = absurd (omega arith)
Filled-replace (suc n) zero (p ∷ ps) q h e f = (e, f.1)
Filled-replace (suc n) (suc i) (p ∷ ps) q h e f = (f.0, Filled-replace n i ps q (omega arith) e f.1)

Filled-get :
    (n : ℕ) (ps : List Page)
    → n < length ps
    → Filled n ps
    → (p : Page) × (get_elem? ps n ≡ some p) × (p.state ≡ Page.empty)
Filled-get n [] h f = absurd (omega arith)
Filled-get zero (p ∷ ps) h f = (p, refl, ground arith)
Filled-get (suc n) (p ∷ ps) h f = Filled-get n ps (omega arith) f.1

-- The search of Block::get_next_page finds the page that Plane::get_free_page takes in one step,
-- the one at `pages_valid`, as long as the block has room.
first_empty-Filled :
    (n i : ℕ) (ps : List Page) → n < length ps → Filled n ps → first_empty ps i ≡ some (i + n)
unfolding first_empty
first_empty-Filled n i [] h f = absurd (omega arith)
first_empty-Filled zero i (p ∷ ps) h f = ground arith
first_empty-Filled (suc n) i (p ∷ ps) h f =
    ground (arith, first_empty-Filled n (suc i) ps (omega arith) f.1)

-- What a write of an empty page leaves.
abbrev filled : Block → Event → Page → Block
filled b e p =
    written (record b { pages = set b.pages e.address.page (record p { state = Page.valid }) })
      (incr_time_taken e p.write_delay)

abbrev filled_done : Block → Event → Memory → Page → Done Block
filled_done b e noted p = record {
  status = success;
  self = filled b e p;
  event = incr_time_taken e p.write_delay;
  memory = noted;
}

pub write-empty :
    (c : Config) (b : Block) (e : Event) (m stored noted : Memory) (p : Page)
    → get_elem? b.pages e.address.page ≡ some p
    → p.state ≡ Page.empty
    → e.noop ≡ false
    → Page.copy_payload c e m ≡ ok stored
    → notify (filled b e p) stored ≡ ok noted
    → write c b e m ≡ ok (filled_done b e noted p)
unfolding write Page.write
write-empty c b e m stored noted p found was_empty real copied noted_so =
    ground (arith, found, copied, noted_so)

-- Writing the page at `pages_valid` keeps the block so.
Filled-filled :
    (b : Block) (e : Event) (p : Page)
    → IsValid b
    → IsAppended b
    → b.pages_valid < b.size
    → e.address.page ≡ b.pages_valid
    → IsAppended (filled b e p)
unfolding written
Filled-filled b e p v f room here =
    let q = record p { state = Page.valid } in
    let more = Filled-set b.pages_valid b.pages q (rw v.sized room) refl f in
    let grown : (b.pages_valid + 1) % u32_mod ≡ suc b.pages_valid = omega (arith, v.word) in
    rw (grown, here) more

-- Invalidating a page that was written keeps the block so.
pub invalidate_page-IsAppended :
    (b : Block) (i : ℕ) (m : Memory) (r : Block × Memory)
    → IsAppended b
    → i < b.pages_valid
    → invalidate_page b i m ≡ ok r
    → IsAppended r.0
unfolding invalidate_page counted Page.set_state
invalidate_page-IsAppended b i m r f h e = elim (Option-cases (get_elem? b.pages i)) [
  | inl missing ↦ absurd (ground arith)
  | inr (p, found) ↦
      let q = record p { state = Page.invalid } in
      let kept = Filled-replace b.pages_valid i b.pages q h refl f in ground arith
]

erased-Filled : (ps : List Page) → Filled 0 (map (λ p. Page.set_state p Page.empty) ps)
unfolding Page.set_state
erased-Filled [] = refl
erased-Filled (p ∷ ps) = (refl, erased-Filled ps)

-- An erase that returns, whether it succeeds or not, keeps the block so.
pub erase-IsAppended :
    (b : Block) (e : Event) (m : Memory) (r : Done Block)
    → IsAppended b
    → erase b e m ≡ ok r
    → IsAppended r.self
unfolding erased
erase-IsAppended b e m r f h = elim (erase_cases b e m r h) [
  | inl same ↦ rw same f
  | inr done ↦ rw done (erased-Filled b.pages)
]

aligned : (i address k : ℕ) → 0 + i + address - address % k ≡ address / k * k + i
aligned i address k = omega (arith, div-add-mod' address k)

-- On a valid block of the configured size that is written in order and has room,
-- Block::get_next_page finds the page at `pages_valid`, and addresses it within the block whose
-- number its physical address has.
pub get_next_page-IsAppended :
    (c : Config) (b : Block) (a : Address)
    → IsValid b
    → IsAppended b
    → b.pages_valid < b.size
    → b.size ≡ c.block_size
    → let r = get_next_page c b a in
      (r.0 ≡ success)
      × (r.1.page ≡ b.pages_valid)
      × (r.1.block ≡ b.physical_address / c.block_size % c.plane_size)
      × (r.1.valid ≡ page_level)
unfolding get_next_page set_linear_level set_linear_address
get_next_page-IsAppended c b a v f room same =
    let found = first_empty-Filled b.pages_valid 0 b.pages (rw v.sized room) f in
    let small : b.pages_valid < c.block_size = rw (← same) room in
    let q = b.physical_address / c.block_size in
    rw (found, get_next_page, aligned b.pages_valid b.physical_address c.block_size)
      (
        refl,
        remainder q c.block_size b.pages_valid small,
        rw (quotient q c.block_size b.pages_valid (omega arith) small) refl,
        refl,
      )

-- ===== src/Dftl/Space.antt =====
-- The page that a write of OriginalFlashSim/FTLs/dftl_ftl.cpp goes to.
use test_flash_sim.Base.{
  ℕ, ◌+◌, ◌-◌, ◌*◌, ◌%◌, ◌<◌, ◌≡◌, ◌∙◌, refl, sym, inl, inr, true, Option, none, some, Option-cases,
  List, ok, arith, Bool-cases, ◌==◌, if◌then◌else◌, u64,
}
use test_flash_sim.Options.{Options}
use test_flash_sim.Address.{Address, empty, block_level, set_linear_level}
use test_flash_sim.Event.{Event}
use test_flash_sim.Block.{dat}
use test_flash_sim.Controller.{Controller}
use test_flash_sim.BlockManager.{
  BlockManager, World, has_room, insert_events, take_fresh, get_page_block, set_type,
  get_free_block,
}
use test_flash_sim.Dftl.{MPage, Dftl, After}
use test_flash_sim.Dftl.Pages.{at_end, get_free_data_page}

-- The block that is taken next.
abbrev pub next_block : Options → BlockManager → Address
next_block o m = set_linear_level o.geometry m.simple_current_free block_level (empty 0)

-- If a block is wanted, the device has the one that is taken next.
abbrev pub HasBlock : {S : Type 0} → Controller S → Options → Dftl → World S → Type 0
HasBlock k o f w =
    at_end o f ≡ true → (b : ℕ) × (k.get_block_pointer w.device (next_block o w.manager) ≡ some b)

-- A block can be taken without looking for one to erase, if one is wanted at all.
abbrev pub HasSpace : Options → Dftl → BlockManager → Type 0
HasSpace o f m =
    at_end o f ≡ true
    → (has_room o m ≡ true) × (m.simple_current_free < u64 (m.max_blocks * o.block_size))

-- The page that the next write goes to.
abbrev pub next_page : Options → Dftl → BlockManager → ℕ
next_page o f m = elim f.current_data_page [
  | none ↦ (next_block o m).real_address
  | some p ↦ if p % o.block_size == o.block_size - 1 then (next_block o m).real_address else p + 1
]

module _ {S : Type 0} (k : Controller S) (o : Options) (oldest : List MPage → Option ℕ) where
  -- Taking a block that was never taken.
  get_free_block_fresh :
      (e : Event) (w : World S) (b : ℕ)
      → k.get_block_pointer w.device (next_block o w.manager) ≡ some b
      → w.manager.simple_current_free < u64 (w.manager.max_blocks * o.block_size)
      → (w' : World S) × (get_free_block k o dat e w ≡ ok (next_block o w.manager, e, w'))
  unfolding get_free_block get_page_block take_fresh set_type
  get_free_block_fresh e w b there room =
      let taken = (take_fresh k o (empty 0) w).1 in
      (
        record taken {
          device = k.set_block_type w.device b dat;
          manager = record taken.manager { data_active = u64 (taken.manager.data_active + 1) };
        },
        ground (arith, there),
      )

  insert_events_room :
      (e : Event) (w : World S) → has_room o w.manager ≡ true → insert_events k o e w ≡ ok (e, w)
  unfolding insert_events
  insert_events_room e w room = ground (arith, room)

  pub get_free_data_page_lem :
      (e : Event) (f : Dftl) (w : World S)
      → HasBlock k o f w
      → HasSpace o f w.manager
      → (b : After S) × (get_free_data_page k o oldest e true f w ≡ ok (next_page o f w.manager, b))
        × (b.event ≡ e)
        × (b.ftl ≡ record f { current_data_page = some (next_page o f w.manager) })
  unfolding get_free_data_page at_end
  get_free_data_page_lem e f w block space =
      let fresh = next_block o w.manager in
      let moved = λ (page : ℕ). record f { current_data_page = some page } in
      let opened : at_end o f ≡ true
          → (w' : World S) × (get_free_block k o dat e w ≡ ok (fresh, e, w'))
            × (insert_events k o e w ≡ ok (e, w)) =
        λ last.
          let (b, there) = block last in
          let (w', got) = get_free_block_fresh e w b there (space last).1 in
          (w', got, insert_events_room e w (space last).0) in
      elim (Option-cases f.current_data_page) [
        | inl unset ↦
            let (w', got, room) = opened (ground (arith, unset)) in
            (
              record { event = e; ftl = moved fresh.real_address; world = w' },
              ground (arith, unset, got, room),
              refl,
              ground (arith, unset),
            )
        | inr (p, set_page) ↦ elim (Bool-cases (p % o.block_size == o.block_size - 1)) [
          | inl last ↦
              let (w', got, room) = opened (ground (arith, set_page, last)) in
              (
                record { event = e; ftl = moved fresh.real_address; world = w' },
                ground (arith, set_page, last, got, room),
                refl,
                ground (arith, set_page, last),
              )
          | inr inner ↦ (
            record { event = e; ftl = moved (p + 1); world = w },
            ground (arith, set_page, inner),
            refl,
            ground (arith, set_page, inner),
          )
        ]
      ]

-- The block is there in the world that is left.
pub HasBlock-kept :
    {S : Type 0} (k : Controller S) (o : Options) (f g : Dftl) (m : BlockManager) (w : World S)
    → g.current_data_page ≡ f.current_data_page
    → w.manager ≡ m
    → (at_end o f ≡ true → (b : ℕ) × (k.get_block_pointer w.device (next_block o m) ≡ some b))
    → HasBlock k o g w
unfolding at_end
HasBlock-kept k o f g m w current manager block =
    let last : at_end o g ≡ at_end o f = ground (arith, current) in
    λ at_last. rw manager (block (sym last ∙ at_last))

pub next_page_kept :
    (o : Options) (f g : Dftl) (m n : BlockManager)
    → g.current_data_page ≡ f.current_data_page
    → n ≡ m
    → HasSpace o f m
    → HasSpace o g n × (next_page o g n ≡ next_page o f m)
unfolding at_end
next_page_kept o f g m n current manager space =
    let last : at_end o g ≡ at_end o f = ground (arith, current) in
    (λ at_last. rw manager (space (sym last ∙ at_last)), rw (manager, current) refl)

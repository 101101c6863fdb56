-- ===== src/Bast/Logged.antt =====
-- The reads after a write into a log block with room, of OriginalFlashSim/FTLs/bast_ftl.cpp.
use test_flash_sim.Base.{
  ℕ, ◌+◌, ◌%◌, ◌<◌, ◌≡◌, ◌≢◌, ◌⊎◌, ◌∙◌, refl, sym, ap, subst, inl, inr, Option, none, some, List,
  [], ◌∷◌, ok, arith, length, get_elem?, get_elem?_of_lt, set, get_elem?-set_self, get_elem?-set_ne,
  Bool-cases, Option-cases, ◌==◌,
}
use native.Mathlib.Nat.{mod-lt}
use test_flash_sim.Options.{Options}
use test_flash_sim.Address.{Address, page_level, of_linear}
use test_flash_sim.Event.{Event, set_address, set_replace_address}
use test_flash_sim.Page.{Page, is_empty}
use test_flash_sim.Block.{Block, page_state}
use test_flash_sim.Controller.{Controller}
use test_flash_sim.BlockManager.{World}
use test_flash_sim.Bast.{LogPageBlock, Bast, State, logical_block, find, assign}
use test_flash_sim.Bast.Requests.{
  logged, page_of, finish, count_memory_read, target_in, target, append, replace_data, write,
}

find-assign_self :
    (key : ℕ) (b : LogPageBlock) (m : List (ℕ × LogPageBlock)) → find key (assign key b m) ≡ some b
unfolding find assign
find-assign_self key b [] = ground arith
find-assign_self key b ((k, c) ∷ rest) = ground (arith, find-assign_self key b rest)

find-assign_ne :
    (key i : ℕ) (b : LogPageBlock) (m : List (ℕ × LogPageBlock))
    → i ≢ key
    → find i (assign key b m) ≡ find i m
unfolding find assign
find-assign_ne key i b [] other = ground arith
find-assign_ne key i b ((k, c) ∷ rest) other = ground (arith, find-assign_ne key i b rest other)

-- The device has the block of an address, with as many pages as the constant says.
abbrev pub HasWholeBlock : {S : Type 0} → Controller S → Options → S → Address → Type 0
HasWholeBlock k o s a =
    (b : ℕ) × (k.get_block_pointer s a ≡ some b)
    × ((k.block s b).size ≡ o.block_size)
    × (length (k.block s b).pages ≡ o.block_size)

-- The page of the data block that a request stands for.
abbrev pub data_page : Options → Event → ℕ → Address
data_page o e d = of_linear o.geometry (d + e.logical_address % o.block_size) page_level

page_state_runs :
    (b : Block) (i n : ℕ)
    → i < n
    → b.size ≡ n
    → length b.pages ≡ n
    → (p : Page) × (page_state b i ≡ ok p.state)
unfolding page_state
page_state_runs b i n inside size pages =
    let (p, found) = get_elem?_of_lt b.pages i (omega arith) in (p, ground (arith, found))

module _ {S : Type 0} (k : Controller S) (o : Options) (random : ℕ → ℕ)
    (positive : 0 < o.block_size) where
  replace_data_runs :
      (lba : ℕ) (s : State S) (base : Option ℕ)
      → get_elem? s.ftl.data_list lba ≡ some base
      → ((d : ℕ) → base ≡ some d → HasWholeBlock k o s.world.device (data_page o s.event d))
      → (t : State S) × (replace_data k o random lba s ≡ ok t)
        × (t.ftl ≡ s.ftl)
        × (t.event.address ≡ s.event.address)
  unfolding replace_data set_replace_address
  replace_data_runs lba s none found blocks = (s, ground (arith, found), refl, refl)
  replace_data_runs lba s (some d) found blocks =
      let offset = s.event.logical_address % o.block_size in
      let replaced = data_page o s.event d in
      let (b, there, size, pages) = blocks d refl in
      let (p, state) =
        page_state_runs (k.block s.world.device b) offset o.block_size
          (mod-lt s.event.logical_address positive) size pages in
      elim (Bool-cases (is_empty p.state)) [
        | inl unwritten ↦ (s, ground (arith, found, there, state, unwritten), refl, refl)
        | inr written ↦ (
          record s { event = set_replace_address s.event replaced },
          ground (arith, found, there, state, written),
          refl,
          refl,
        )
      ]

-- The log map once a page of a log block is entered.
abbrev pub enter : LogPageBlock → ℕ → ℕ → ℕ → Bast → Bast
enter b lba page j f = record f {
  log_map = assign lba (record b { pages = set b.pages page (some j) }) f.log_map;
}

target_entered :
    (o : Options) (f : Bast) (b : LogPageBlock) (j : ℕ) (e : Event)
    → page_of o e < length b.pages
    → target o (enter b (logical_block f e) (page_of o e) j f) e
      ≡ ok (of_linear o.geometry (b.address.real_address + j) page_level)
unfolding target target_in logical_block logged
target_entered o f b j e inside =
    let lba = logical_block f e in
    let c = record b { pages = set b.pages (page_of o e) (some j) } in
    ground (
      arith,
      find-assign_self lba c f.log_map,
      get_elem?-set_self b.pages (page_of o e) (some j) inside,
    )

target_other_block :
    (o : Options) (f : Bast) (b : LogPageBlock) (lba page j : ℕ) (e : Event)
    → logical_block f e ≢ lba
    → target o (enter b lba page j f) e ≡ target o f e
unfolding target target_in logical_block
target_other_block o f b lba page j e other =
    let c = record b { pages = set b.pages page (some j) } in
    ap (target_in o f e) (find-assign_ne lba (logical_block f e) c f.log_map other)

-- Two log blocks that agree on the page that is read.
target_in_same :
    (o : Options) (f : Bast) (e : Event) (b c : LogPageBlock)
    → get_elem? c.pages (page_of o e) ≡ get_elem? b.pages (page_of o e)
    → c.address ≡ b.address
    → target_in o f e (some c) ≡ target_in o f e (some b)
unfolding target_in logged
target_in_same o f e b c pages address = ground (arith, pages, address)

target_other_page :
    (o : Options) (f : Bast) (b : LogPageBlock) (page j : ℕ) (e : Event)
    → find (logical_block f e) f.log_map ≡ some b
    → page_of o e ≢ page
    → target o (enter b (logical_block f e) page j f) e ≡ target o f e
unfolding target target_in logical_block
target_other_page o f b page j e found other =
    let c = record b { pages = set b.pages page (some j) } in
    ap (target_in o f e) (find-assign_self (logical_block f e) c f.log_map)
    ∙ target_in_same o f e b c
        (get_elem?-set_ne b.pages page (page_of o e) (some j) (λ same. other (sym same))) refl
    ∙ sym (ap (target_in o f e) found)

target_apart :
    (o : Options) (f : Bast) (b : LogPageBlock) (j : ℕ) (e other : Event)
    → find (logical_block f e) f.log_map ≡ some b
    → (logical_block f other ≢ logical_block f e) ⊎ (page_of o other ≢ page_of o e)
    → target o (enter b (logical_block f e) (page_of o e) j f) other ≡ target o f other
target_apart o f b j e other found apart =
    elim (Bool-cases (logical_block f other == logical_block f e)) [
      | inr elsewhere ↦
          target_other_block o f b (logical_block f e) (page_of o e) j other (ground arith)
      | inl here ↦
          let same : logical_block f other ≡ logical_block f e = ground arith in
          subst (λ (lba : ℕ). target o (enter b lba (page_of o e) j f) other ≡ target o f other)
            same
            (target_other_page o f b (page_of o e) j other
              (ap (λ (lba : ℕ). find lba f.log_map) same ∙ found)
              (elim apart [ inl far ↦ absurd (far same) | inr page ↦ page ]))
    ]

module _ {S : Type 0} (k : Controller S) (o : Options) (random : ℕ → ℕ) where
  append_runs :
      (b : LogPageBlock) (lba : ℕ) (s : State S)
      → page_of o s.event < length b.pages
      → (t : State S) × (append k o random b lba s ≡ ok t)
        × (t.ftl ≡ enter b lba (page_of o s.event) (k.get_num_valid s.world.device b.address) s.ftl)
        × (t.event.address ≡ k.get_free_page s.world.device b.address)
        × (t.event.logical_address ≡ s.event.logical_address)
        × (t.world ≡ s.world)
  unfolding append set_address set_replace_address
  append_runs b lba s inside =
      let (place, found) = get_elem?_of_lt b.pages (page_of o s.event) inside in
      let entered =
        enter b lba (page_of o s.event) (k.get_num_valid s.world.device b.address) s.ftl in
      let free_page = k.get_free_page s.world.device b.address in
      elim (Option-cases place) [
        | inl new ↦ (
          record s { event = set_address s.event free_page; ftl = entered },
          ground (arith, found, new),
          refl,
          refl,
          refl,
          refl,
        )
        | inr (j, old) ↦ (
          record s {
            event =
                set_address
                  (set_replace_address s.event
                    (of_linear o.geometry (b.address.real_address + j) page_level))
                  free_page;
            ftl = entered;
          },
          ground (arith, found, old),
          refl,
          refl,
          refl,
          refl,
        )
      ]

-- Let the log block of the logical block be there and have room, with its free page right
-- behind as many pages as it counts, let the device have the block of the page that the write
-- replaces in the data block, if there is a data block, with as many pages as the constant
-- says, and let the indices be in range. Then a write ends with what the controller returns for
-- its request, and leaves the layer so that a read of the same logical address is aimed at the
-- page that the request was sent to, and a read of an address of another logical block, or of
-- another page, at what it was aimed at before.
pub write_enters :
    {S : Type 0} (k : Controller S) (o : Options) (random : ℕ → ℕ) (e other : Event) (f : Bast)
    (w : World S) (b : LogPageBlock) (base : Option ℕ)
    → 0 < o.block_size
    → ((d : ℕ) → base ≡ some d → HasWholeBlock k o w.device (data_page o e d))
    → find (logical_block f e) f.log_map ≡ some b
    → get_elem? f.data_list (logical_block f e) ≡ some base
    → page_of o e < length b.pages
    → k.get_num_valid w.device b.address < o.block_size
    → k.get_free_page w.device b.address
      ≡ of_linear o.geometry
          (b.address.real_address + k.get_num_valid w.device b.address)
          page_level
    → (logical_block f other ≢ logical_block f e) ⊎ (page_of o other ≢ page_of o e)
    → (s : State S) × (write k o random e f w ≡ finish k s)
      × (target o s.ftl e ≡ ok s.event.address)
      × (target o s.ftl other ≡ target o f other)
unfolding write count_memory_read
write_enters k o random e other f w b base positive blocks found there inside room free apart =
    let lba = logical_block f e in
    let j = k.get_num_valid w.device b.address in
    let counted : State _ = record { event = e; ftl = f; world = count_memory_read w } in
    let (t, appended, entered, address, logical, same_world) =
      append_runs k o random b lba counted inside in
    let (u, replaced, kept, same_address) =
      replace_data_runs k o random positive lba t base (ground (arith, entered, there))
        (λ d is_base. rw (same_world, logical) (blocks d is_base)) in
    let s : State _ = record u {
      world = record u.world {
        stats = record u.world.stats { num_ftl_write = u.world.stats.num_ftl_write + 1 };
      };
    } in
    let left : u.ftl ≡ enter b lba (page_of o e) j f = kept ∙ entered in
    (
      s,
      ground (arith, found, room, appended, replaced),
      ap (λ (x : Bast). target o x e) left
          ∙ target_entered o f b j e inside
          ∙ ap ok (sym free ∙ sym address ∙ sym same_address),
      ap (λ (x : Bast). target o x other) left ∙ target_apart o f b j e other found apart,
    )

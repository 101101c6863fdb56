-- ===== src/Bdftl.antt =====
-- OriginalFlashSim/FTLs/bdftl_ftl.cpp: blocks that are written in order are mapped as a whole, and
-- the others by the demand mapping layer. The number of a block is a word of 32 bits, in which -1
-- stands for none, and that of its next page a byte.
pub mod Requests
pub mod Trims
pub mod Unwritten
use test_flash_sim.Base.{
  ℕ, ◌+◌, ◌-◌, ◌%◌, Bool, true, false, Option, none, some, List, [], ◌∷◌, Run, ok, abort,
  null_pointer, assertion, ◌>>=◌, Status, success, failure, ◌==◌, replicate, u32,
}
use test_flash_sim.Options.{Options}
use test_flash_sim.Address.{Address, empty}
use test_flash_sim.Event.{Event}
use test_flash_sim.Block.{get_next_page}
use test_flash_sim.Controller.{Controller}
use test_flash_sim.BlockManager.{World}
use test_flash_sim.Dftl.{MPage, Dftl, After}
use test_flash_sim.Dftl.Pages.{at_end, get_free_data_page}
use test_flash_sim.Dftl
use test_flash_sim.Dftl.Cleaning

-- `(uint) -1`
abbrev pub no_block : ℕ
no_block = 4294967295

pub record BPage : Type 0 where
  pub pbn : ℕ
  pub next_page : ℕ
  pub optimal : Bool

abbrev pub new_bpage : BPage
new_bpage = record { pbn = no_block; next_page = 0; optimal = true }

-- `pages` is what the layer inherits. `block_queue` and `inuse_block` are pointers to blocks.
pub record Bdftl : Type 0 where
  pub pages : Dftl
  pub block_map : List BPage
  pub trim_map : List Bool
  pub block_queue : List ℕ
  pub inuse_block : Option ℕ

-- The constructor does not set the elements of `trim_map`, nor those of `reverse_trans_map`.
unfoldable pub new : Options → List ℕ → List Bool → Bdftl
new o unset unset_trims = record {
  pages = Dftl.new o unset;
  block_map = replicate o.number_of_addressable_blocks new_bpage;
  trim_map = unset_trims;
  block_queue = [];
  inuse_block = none;
}

-- What a call leaves.
pub record State (S : Type 0) : Type 0 where
  pub event : Event
  pub ftl : Bdftl
  pub world : World S

-- What a call of the inherited layer leaves.
unfoldable pub with_pages : {S : Type 0} → Bdftl → After S → State S
with_pages f a = record { event = a.event; ftl = record f { pages = a.ftl }; world = a.world }

-- Whether the next page of the demand mapping layer is in a new block.
unfoldable pub block_next_new : Options → Bdftl → Bool
unfolding at_end
block_next_new o f = at_end o f.pages

module _ {S : Type 0} (k : Controller S) (o : Options) (oldest : List MPage → Option ℕ) where
  -- A page from the demand mapping layer.
  unfoldable pub inherited_page : State S → Run (ℕ × State S)
  unfolding get_free_data_page with_pages
  inherited_page s = do
    (page, a) ← get_free_data_page k o oldest s.event true s.ftl.pages s.world
    ok (page, with_pages s.ftl a)

  -- The next page of a block, whose empty pages it looks for.
  unfoldable pub next_page_of : ℕ → State S → Status × Address
  unfolding get_next_page empty
  next_page_of b s = get_next_page o.config (k.block s.world.device b) (empty 0)

  -- A page of a block that was mapped as a whole, or else one of the demand mapping layer. The
  -- number of a page is never -1.
  unfoldable pub get_free_biftl_page : State S → Run (ℕ × State S)
  unfolding inherited_page next_page_of
  get_free_biftl_page s = elim s.ftl.inuse_block [
    | none ↦ inherited_page s
    | some b ↦
        let (status, a) = next_page_of b s in
        elim status [
          | success ↦ ok (a.real_address, s)
          | failure ↦ elim s.ftl.block_queue [
            | [] ↦ inherited_page (record s { ftl = record s.ftl { inuse_block = none } })
            | front ∷ rest ↦
                let popped = record s {
                  ftl = record s.ftl { inuse_block = some front; block_queue = rest };
                } in
                let (status', a') = next_page_of front popped in
                elim status' [ success ↦ ok (a'.real_address, popped) | failure ↦ abort assertion ]
          ]
        ]
  ]

  -- It has the body of the cleanup_block of FtlImpl_Dftl.
  unfoldable pub cleanup_block : ℕ → State S → Run (State S)
  unfolding Cleaning.cleanup_block with_pages
  cleanup_block b s = do
    a ← Cleaning.cleanup_block k o oldest b s.event s.ftl.pages s.world
    ok (with_pages s.ftl a)

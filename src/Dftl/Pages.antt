-- ===== src/Dftl/Pages.antt =====
-- get_free_data_page of OriginalFlashSim/FTLs/dftl_parent.cpp: the page that is next.
use test_flash_sim.Base.{
  ℕ, ◌+◌, ◌-◌, ◌%◌, Bool, true, false, ◌&&◌, ◌||◌, Option, none, some, List, Run, ok, abort,
  out_of_range, ◌>>=◌, if◌then◌else◌, ◌==◌,
}
use test_flash_sim.Options.{Options}
use test_flash_sim.Event.{Event}
use test_flash_sim.Block.{dat}
use test_flash_sim.Controller.{Controller}
use test_flash_sim.BlockManager.{World, insert_events, get_free_block}
use test_flash_sim.Dftl.{MPage, Dftl, After}

-- Whether the current page is the last of its block, or there is none.
unfoldable pub at_end : Options → Dftl → Bool
at_end o f = elim f.current_data_page [
  | none ↦ true
  | some p ↦ p % o.block_size == o.block_size - 1
]

abbrev pub no_page : Dftl → Bool
no_page f = elim f.current_data_page [ none ↦ true | some p ↦ false ]

module _ {S : Type 0} (k : Controller S) (o : Options) (oldest : List MPage → Option ℕ) where
  -- The next page of the current block, or the first one of a new block.
  unfoldable pub get_free_data_page : Event → Bool → Dftl → World S → Run (ℕ × After S)
  unfolding at_end
  get_free_data_page e inserts f w = do
    (e', w') ← if no_page f || (at_end o f && inserts) then insert_events k o e w else ok (e, w)
    if at_end o f
        then (do
          (a, e'', w'') ← get_free_block k o dat e' w'
          ok (
            a.real_address,
            record {
              event = e'';
              ftl = record f { current_data_page = some a.real_address };
              world = w'';
            },
          ))
        else elim f.current_data_page [
          | none ↦ abort out_of_range
          | some p ↦ ok (
            p + 1,
            record { event = e'; ftl = record f { current_data_page = some (p + 1) }; world = w' },
          )
        ]

-- ===== src/Bdftl/Unwritten.antt =====
-- The trim of OriginalFlashSim/FTLs/bdftl_ftl.cpp on a block that was never written.
use test_flash_sim.Base.{
  ℕ, ◌+◌, ◌-◌, ◌*◌, ◌%◌, ◌<◌, ◌≡◌, ◌∙◌, ap, refl, List, Option, u32_mod, true, false, some, ok,
  arith, get_elem?, length, set, u32,
}
use native.Mathlib.Nat.{mod-lt}
use test_flash_sim.Config.{Geometry}
use test_flash_sim.Options.{Options}
use test_flash_sim.Address.{page_level, of_linear}
use test_flash_sim.Event.{Event, set_address, set_noop}
use test_flash_sim.Controller.{Controller}
use test_flash_sim.BlockManager.{World}
use test_flash_sim.Dftl.{MPage}
use test_flash_sim.Bast.Trims.{is_inactive}
use test_flash_sim.Bdftl.{BPage, Bdftl, State, no_block}
use test_flash_sim.Bdftl.Requests.{finish, dlbn, charge}
use test_flash_sim.Bdftl.Trims.{trim_block, count_memory_reads, trim}

-- The sum with -1, cut to 32 bits.
before :
    (g : Geometry) (n : ℕ)
    → 0 < n
    → n < 4294967296
    → of_linear g (no_block + n) page_level ≡ of_linear g (n - 1) page_level
unfolding of_linear
before g n pos small = let cut : u32 (no_block + n) ≡ u32 (n - 1) = omega arith in rw cut refl

module _ {S : Type 0} (k : Controller S) (o : Options) (oldest : List MPage → Option ℕ) where
  trim_block_runs :
      (p : BPage) (s : State S) (b : ℕ) (device : S)
      → let a = of_linear o.geometry (s.event.logical_address % o.block_size - 1) page_level in
        p.pbn ≡ no_block
        → 0 < s.event.logical_address % o.block_size
        → s.event.logical_address % o.block_size < u32_mod
        → k.get_block_pointer s.world.device a ≡ some b
        → k.invalidate_page s.world.device b a.page ≡ ok device
        → is_inactive (k.block device b).state ≡ false
        → trim_block k o oldest p s ≡ ok (record s { world = record s.world { device = device } })
  unfolding trim_block
  trim_block_runs p s b device unset pos small there invalidated kept =
      let here : of_linear o.geometry (p.pbn + s.event.logical_address % o.block_size) page_level
          ≡ of_linear o.geometry (s.event.logical_address % o.block_size - 1) page_level =
        ap (λ (n : ℕ). of_linear o.geometry (n + s.event.logical_address % o.block_size) page_level)
          unset
        ∙ before o.geometry (s.event.logical_address % o.block_size) pos small in
      ground (arith, here, there, invalidated, kept)

  -- Let the block of a request be mapped as a whole and never written, and let the request be
  -- for its n-th page, n not 0, where the number of pages of a block is positive and fits 32
  -- bits. Then a trim invalidates the physical page n - 1, if the device lets it and the block
  -- of that page is not INACTIVE after it, whatever that page holds, leaves the map of the
  -- blocks as it is, and ends with what the controller returns for the request.
  pub trim_unwritten :
      (e : Event) (f : Bdftl) (w : World S) (p : BPage) (b : ℕ) (device : S)
      → let a = of_linear o.geometry (e.logical_address % o.block_size - 1) page_level in
        u32 e.logical_address < length f.trim_map
        → get_elem? f.block_map (dlbn o e) ≡ some p
        → p.optimal ≡ true
        → p.pbn ≡ no_block
        → 0 < e.logical_address % o.block_size
        → 0 < o.block_size
        → o.block_size < u32_mod
        → k.get_block_pointer w.device a ≡ some b
        → k.invalidate_page w.device b a.page ≡ ok device
        → is_inactive (k.block device b).state ≡ false
        → (s : State S) × (trim k o oldest e f w ≡ finish k s)
          × (s.world.device ≡ device)
          × (s.ftl.block_map ≡ f.block_map)
  unfolding trim count_memory_reads charge
  trim_unwritten e f w p b device inside found whole unset pos some_page word there invalidated
        kept =
      let below = mod-lt e.logical_address some_page in
      let marked : State S = record {
        event = e;
        ftl = record f { trim_map = set f.trim_map (u32 e.logical_address) true };
        world = w;
      } in
      let trimmed : State S = record marked { world = record w { device = device } } in
      let ran = trim_block_runs p marked b device unset pos (omega arith) there invalidated kept in
      let sent : State S = record trimmed {
        event = set_noop (set_address e (of_linear o.geometry 0 page_level)) true;
        world = record trimmed.world {
          stats = record w.stats { num_ftl_trim = w.stats.num_ftl_trim + 1 };
        };
      } in
      (
        count_memory_reads k o oldest 2 (charge (o.ram_read_delay * 2) sent),
        ground (arith, inside, found, whole, ran),
        refl,
        refl,
      )

-- ===== src/Dftl/Table.antt =====
-- The layer against the table that it stands for: a page for each logical address.
use test_flash_sim.Base.{
  ℕ, ◌+◌, ◌<◌, ◌≡◌, refl, sym, subst, Bool, true, false, Option, some, List, ok, arith, length, set,
  get_elem?, u32,
}
use native.Mathlib.Nat.{mod-eq_of_lt}
use test_flash_sim.Options.{Options}
use test_flash_sim.Event.{Event}
use test_flash_sim.Controller.{Controller, IsIssuing}
use test_flash_sim.BlockManager.{World}
use test_flash_sim.Dftl.{MPage, Dftl, After, Answer}
use test_flash_sim.Dftl.Pages.{at_end}
use test_flash_sim.Dftl.Resolve.{resolve_mapping}
use test_flash_sim.Dftl.Requests.{finish, located, redirected, read, write}
use test_flash_sim.Dftl.Cache.{mapping}
use test_flash_sim.Dftl.Evict.{Finds}
use test_flash_sim.Dftl.Rooms.{resolve_mapping-Resolves}
use test_flash_sim.Dftl.Space.{
  HasSpace, next_block, next_page, next_page_kept, HasBlock-kept, get_free_data_page_lem,
}
use test_flash_sim.Dftl.Ready.{
  IsReady, Resolves-IsReady, finish_runs, entry_of_mapping, inside_of_mapping, remapped_entry,
  write_runs, remapped-IsReady,
}

module _ {S : Type 0} (k : Controller S) (o : Options) (oldest : List MPage → Option ℕ)
    (issuing : IsIssuing k) (finds : Finds oldest) where
  -- With a controller that carries out every request and an index that finds a cached entry
  -- whenever there is one, resolve_mapping returns for every logical address of a layer that
  -- IsReady (Dftl/Ready). The entry of that address is then cached, every entry names the page
  -- that it named before, and the layer IsReady again: the counter is the number of cached
  -- entries and within the limit, cached entries have their stamps, and every entry stands at
  -- its number.
  pub resolve_mapping_keeps :
      (e : Event) (b : Bool) (f : Dftl) (w : World S)
      → IsReady f
      → e.logical_address < length f.trans_map
      → (a : After S) × (p : MPage) × (resolve_mapping k o oldest e b f w ≡ ok a)
        × IsReady a.ftl
        × (mapping a.ftl ≡ mapping f)
        × (get_elem? a.ftl.trans_map e.logical_address ≡ some p)
        × (p.cached ≡ true)
  resolve_mapping_keeps e b f w h inside =
      let (a, resolved, res, _) =
        resolve_mapping-Resolves k o oldest issuing finds e b f w h.valid h.has_cache inside
          h.word in
      let (p, found, cached) = res.in_cache in
      (
        a,
        p,
        resolved,
        Resolves-IsReady e.logical_address f a.ftl h res,
        res.kept.map_kept,
        found,
        cached,
      )

  -- On a layer that IsReady (Dftl/Ready), with a controller that carries out every request and
  -- an index that finds a cached entry whenever there is one, a read, of a logical address to
  -- which the table of pages gives `target`, returns what the controller returns for the
  -- request, charged some time and addressed to that page, or addressed to page 0 as a noop if
  -- there is none. The layer IsReady again and the table is as it was: the cache does not show.
  pub read_follows :
      (e : Event) (f : Dftl) (w : World S) (target : Option ℕ)
      → IsReady f
      → get_elem? (mapping f) e.logical_address ≡ some target
      → (r : Answer S) × (time : ℕ) × (w' : World S) × (read k o oldest e f w ≡ ok r)
        × (finish k (located o target (record e { time_taken = time })) r.ftl w' ≡ ok r)
        × IsReady r.ftl
        × (mapping r.ftl ≡ mapping f)
  unfolding read
  read_follows e f w target h aimed =
      let inside = inside_of_mapping f e.logical_address target aimed in
      let (a, resolved, res, spent) =
        resolve_mapping-Resolves k o oldest issuing finds e false f w h.valid h.has_cache inside
          h.word in
      let (p, found, names) = entry_of_mapping f a.ftl e.logical_address target res.kept aimed in
      let small : u32 e.logical_address ≡ e.logical_address =
        mod-eq_of_lt (omega (arith, h.word)) in
      let w' = record a.world {
        stats = record a.world.stats { num_ftl_read = a.world.stats.num_ftl_read + 1 };
      } in
      let (r, done, same, _) = finish_runs k (located o p.ppn a.event) a.ftl w' issuing in
      let (ready, table) =
        subst (λ (x : Dftl). IsReady x × (mapping x ≡ mapping f)) (sym same)
          (Resolves-IsReady e.logical_address f a.ftl h res, res.kept.map_kept) in
      (
        r,
        spent.time,
        w',
        ground (arith, resolved, small, found, done),
        ground (arith, done, names, same, spent.charged),
        ready,
        table,
      )

  -- On a layer that IsReady (Dftl/Ready), with a controller that carries out every request and
  -- an index that finds a cached entry whenever there is one, let the current block have a page
  -- left, or let there be a block that was never taken, which the device has once the entry is
  -- resolved, and no need to erase one, and let the page that is next be in the reverse map.
  -- Then a write returns what the controller returns for the request, charged some time and
  -- addressed to that page, with the page that it replaces, if there is one. The table of pages
  -- is the old one with that page at the logical address, the reverse map the old one with the
  -- logical address at that page, that page is the current one, and the layer IsReady again.
  pub write_remaps :
      (e : Event) (f : Dftl) (w : World S) (old : Option ℕ)
      → (at_end o f ≡ true
          → (a : After S) → resolve_mapping k o oldest e true f w ≡ ok a
          → (b : ℕ) × (k.get_block_pointer a.world.device (next_block o w.manager) ≡ some b))
      → IsReady f
      → HasSpace o f w.manager
      → next_page o f w.manager < length f.reverse_trans_map
      → get_elem? (mapping f) e.logical_address ≡ some old
      → let page = next_page o f w.manager in
        (r : Answer S) × (time : ℕ) × (w' : World S) × (write k o oldest e f w ≡ ok r)
        × (finish k (redirected o old page (record e { time_taken = time })) r.ftl w' ≡ ok r)
        × IsReady r.ftl
        × (mapping r.ftl ≡ set (mapping f) e.logical_address (some page))
        × (r.ftl.current_data_page ≡ some page)
        × (r.ftl.reverse_trans_map ≡ set f.reverse_trans_map page e.logical_address)
  write_remaps e f w old block h space fits aimed =
      let lba = e.logical_address in
      let page = next_page o f w.manager in
      let inside = inside_of_mapping f lba old aimed in
      let (a, resolved, res, spent) =
        resolve_mapping-Resolves k o oldest issuing finds e true f w h.valid h.has_cache inside
          h.word in
      let (p, found, names) = entry_of_mapping f a.ftl lba old res.kept aimed in
      let small : u32 lba ≡ lba = mod-eq_of_lt (omega (arith, h.word)) in
      let (roomy, goes_on) =
        next_page_kept o f a.ftl w.manager a.world.manager res.kept.current_kept spent.manager_kept
          space in
      let (b, got, same_event, moved) =
        get_free_data_page_lem k o oldest a.event a.ftl a.world
          (HasBlock-kept k o f a.ftl w.manager a.world res.kept.current_kept spent.manager_kept
            (λ last. block last a resolved))
          roomy in
      let (r, w', ran, finished, left) =
        write_runs k o oldest e f w a b p page resolved (ground (arith, got, goes_on))
          (ground (arith, moved, found)) small (ground (arith, moved, res.kept.reverse_kept, fits))
          issuing in
      let (ready, remapped, reversed) =
        remapped-IsReady f a.ftl lba page p (Resolves-IsReady lba f a.ftl h res) res.kept found in
      let is_left : r.ftl ≡ remapped_entry a.ftl lba page p =
        ground (arith, left, moved, goes_on) in
      let (ready', remapped', current', reversed') =
        subst
          (λ (x : Dftl).
            IsReady x
            × (mapping x ≡ set (mapping f) lba (some page))
            × (x.current_data_page ≡ some page)
            × (x.reverse_trans_map ≡ set f.reverse_trans_map page lba))
          (sym is_left) (ready, remapped, refl, reversed) in
      (
        r,
        spent.time,
        w',
        ran,
        ground (arith, finished, names, same_event, spent.charged),
        ready',
        remapped',
        current',
        reversed',
      )

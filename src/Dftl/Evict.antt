-- ===== src/Dftl/Evict.antt =====
-- The eviction of one entry, and the loop that evicts until there is room.
use test_flash_sim.Base.{
  ℕ, ◌+◌, ◌-◌, ◌%◌, ◌<◌, ◌≡◌, ◌∙◌, refl, sym, ap, inl, inr, Bool, true, Option, some, List, ok,
  arith, get_elem?, get_elem?-map, get_elem?_of_map, Bool-cases, lt-length_of_get_elem?, ◌==◌,
}
use test_flash_sim.Options.{Options}
use test_flash_sim.Address.{page_level, of_linear}
use test_flash_sim.Event.{Event, EventType, set_address, set_noop, incr_time_taken}
use test_flash_sim.Event
use test_flash_sim.Controller.{Controller, IsIssuing}
use test_flash_sim.BlockManager.{World}
use test_flash_sim.Dftl.{
  MPage, Dftl, After, is_dirty, drop_entry, transfer, write_back, consult_gtd, evict,
}
use test_flash_sim.Dftl.Cache.{
  view, num_cached, IsCache, Evicts, Evicts-trans, Spends, Spends-refl, Spends-incr,
}
use test_flash_sim.Dftl.Drop.{clean_entries-AreEntries, drop_entry-IsCache, cleaned-IsCache}

-- The first entry by the time of the last visit is a cached one, if there is any: the key of the
-- others is the greatest number there is.
abbrev pub Finds : (List MPage → Option ℕ) → Type 0
Finds oldest =
    (pages : List MPage)
    → 0 < num_cached pages
    → (i : ℕ) × (p : MPage) × (oldest pages ≡ some i)
      × (get_elem? pages i ≡ some p)
      × (p.cached ≡ true)

module _ {S : Type 0} (k : Controller S) (o : Options) (oldest : List MPage → Option ℕ)
    (issuing : IsIssuing k) where
  transfer_runs :
      (type : EventType) (e : Event) (w : World S)
      → (e' : Event) × (w' : World S) × (transfer k o oldest type e w ≡ ok (e', w'))
        × Spends e e' w w'
  unfolding transfer
  transfer_runs type e w =
      let request =
        set_noop
          (set_address (Event.new type e.logical_address 1 e.start_time)
            (of_linear o.geometry 0 page_level))
          true in
      let (issued, device, done) = issuing request w.device in
      (
        incr_time_taken e issued.time_taken,
        record w { device = device },
        ground (arith, done),
        Spends-incr e issued.time_taken w (record w { device = device }) refl,
      )

  write_back_runs :
      (e : Event) (w : World S)
      → (e' : Event) × (w' : World S) × (write_back k o oldest e w ≡ ok (e', w')) × Spends e e' w w'
  unfolding write_back
  write_back_runs e w =
      let (e', w', done, spent) = transfer_runs Event.write e w in
      (
        e',
        record w' {
          stats = record w'.stats {
            num_ftl_write = w'.stats.num_ftl_write + 1;
            num_gc_write = w'.stats.num_gc_write + 1;
          };
        },
        ground (arith, done),
        record { time = spent.time; charged = spent.charged; manager_kept = spent.manager_kept },
      )

  pub consult_gtd_runs :
      (e : Event) (w : World S)
      → (e' : Event) × (w' : World S) × (consult_gtd k o oldest e w ≡ ok (e', w'))
        × Spends e e' w w'
  unfolding consult_gtd
  consult_gtd_runs e w =
      let (e', w', done, spent) = transfer_runs Event.read e w in
      (
        e',
        record w' { stats = record w'.stats { num_ftl_read = w'.stats.num_ftl_read + 1 } },
        ground (arith, done),
        record { time = spent.time; charged = spent.charged; manager_kept = spent.manager_kept },
      )

  -- One eviction drops one entry, and nothing else.
  pub evict-drops :
      (i : ℕ) (p : MPage) (e : Event) (f : Dftl) (w : World S)
      → IsCache f
      → get_elem? f.trans_map i ≡ some p
      → p.cached ≡ true
      → (a : After S) × (evict k o oldest p e f w ≡ ok a)
        × IsCache a.ftl
        × Evicts f a.ftl
        × (a.ftl.cmt + 1 ≡ f.cmt)
        × Spends e a.event w a.world
  unfolding evict is_dirty
  evict-drops i p e f w h found cached =
      let (place, stamps) = h.entries i p found in
      let here : get_elem? f.trans_map p.vpn ≡ some p = rw (sym place) at found in
      let ((c, created), (m, modified)) = stamps cached in
      elim (Bool-cases (c == m)) [
        | inl clean ↦
            let (h', keeps, fewer) = drop_entry-IsCache p p f h here refl cached in
            (
              record { event = e; ftl = drop_entry p f; world = w },
              ground (arith, cached, created, modified, clean),
              h',
              keeps,
              fewer,
              Spends-refl e w,
            )
        | inr dirty ↦
            let inside = h.whole p.vpn (lt-length_of_get_elem? f.trans_map p.vpn p here) in
            let (cleaned, looped, entries, same) =
              clean_entries-AreEntries f.trans_map (p.vpn - p.vpn % f.address_per_page)
                f.address_per_page h.entries inside in
            let (e', w', wrote, spent) = write_back_runs e w in
            let (valid, keeps) = cleaned-IsCache f cleaned h entries same in
            let seen =
              ap (λ (l : List (Option ℕ × Bool)). get_elem? l p.vpn) same
              ∙ get_elem?-map view f.trans_map p.vpn p here in
            let (q, found', looks) = get_elem?_of_map view cleaned p.vpn (view p) seen in
            let (h', keeps', fewer) =
              drop_entry-IsCache p q (record f { trans_map = cleaned }) valid found' looks cached in
            (
              record {
                event = e';
                ftl = drop_entry p (record f { trans_map = cleaned });
                world = w';
              },
              ground (arith, cached, created, modified, dirty, looped, wrote),
              h',
              Evicts-trans f (record f { trans_map = cleaned })
                  (drop_entry p (record f { trans_map = cleaned })) keeps keeps',
              fewer,
              spent,
            )
      ]

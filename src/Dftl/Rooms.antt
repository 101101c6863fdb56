-- ===== src/Dftl/Rooms.antt =====
-- The loop of evict_page_from_cache ends, and resolve_mapping brings an entry into the cache.
use test_flash_sim.Base.{
  ℕ, zero, suc, ◌+◌, ◌-◌, ◌≤◌, ◌<◌, ◌≡◌, ◌∙◌, refl, inl, inr, Bool, true, false, Option, some, List,
  ok, arith, length, set, get_elem?, get_elem?_of_lt, count-set, map-set_same, Bool-cases, leb,
  if◌then◌else◌, u32_mod, get_elem?-set_self, lt-length_of_get_elem?, length-set, ltb,
}
use native.Mathlib.Nat.{mod-eq_of_lt}
use test_flash_sim.Options.{Options}
use test_flash_sim.Event.{Event, incr_time_taken}
use test_flash_sim.Controller.{Controller, IsIssuing}
use test_flash_sim.BlockManager.{World}
use test_flash_sim.Dftl.{MPage, Dftl, After, evict_page_from_cache}
use test_flash_sim.Dftl.Resolve.{visit, load, resolve_mapping}
use test_flash_sim.Dftl.Cache.{
  IsStamped, IsCache, Keeps, Keeps-trans, Evicts, Evicts-refl, Evicts-trans, Spends, Spends-refl,
  Spends-trans, Spends-incr, AreEntries-set,
}
use test_flash_sim.Dftl.Evict.{Finds, evict-drops, consult_gtd_runs}

-- What the resolution of a logical address leaves.
pub record Resolves (lba : ℕ) (f g : Dftl) : Type 0 where
  pub valid : IsCache g
  pub kept : Keeps f g
  pub in_cache : (p : MPage) × (get_elem? g.trans_map lba ≡ some p) × (p.cached ≡ true)
  pub bounded : f.cmt ≤ f.total_cmt_entries → g.cmt ≤ f.total_cmt_entries

-- Writing a cached entry over the one at its number.
entered :
    (f : Dftl) (i n : ℕ) (p q : MPage)
    → IsCache f
    → get_elem? f.trans_map i ≡ some p
    → q.vpn ≡ p.vpn
    → q.ppn ≡ p.ppn
    → q.cached ≡ true
    → IsStamped q
    → n + (if p.cached then 1 else 0) ≡ f.cmt + 1
    → let g = record f { cmt = n; trans_map = set f.trans_map i q } in IsCache g × Keeps f g
entered f i n p q h found place page cached stamped counted =
    let (here, _) = h.entries i p found in
    let total = count-set (λ (r : MPage). r.cached) f.trans_map i p q found in
    (
      record {
        counted = ground (arith, total, counted, cached, h.counted);
        entries = AreEntries-set f.trans_map i q h.entries (place ∙ here, λ c. stamped);
        whole = λ j inside.
            rw (length-set f.trans_map i q) (h.whole j (omega (arith, length-set f.trans_map i q)));
      },
      record {
        map_kept = map-set_same (λ (r : MPage). r.ppn) f.trans_map i p q found page;
        reverse_kept = refl;
        per_page_kept = refl;
        total_kept = refl;
        current_kept = refl;
      },
    )

visit-IsStamped : (b : Bool) (e : Event) (p : MPage) → IsStamped p → IsStamped (visit b e p)
unfolding visit
visit-IsStamped true e p (created, modified) = (created, (e.start_time, refl))
visit-IsStamped false e p h = h

module _ {S : Type 0} (k : Controller S) (o : Options) (oldest : List MPage → Option ℕ)
    (issuing : IsIssuing k) (finds : Finds oldest) where
  -- On a layer whose cache is well formed and may hold at least one entry, with a controller
  -- that carries out every request and an index that finds a cached entry whenever there is
  -- one, the eviction loop ends within one round more than there are cached entries. It leaves
  -- the cache well formed, no entry newly cached, every entry's page and the block manager as
  -- they were, and the number of cached entries one below the limit, or as it was if it was
  -- below already.
  pub evict_page_from_cache_ends :
      (n : ℕ) (e : Event) (f : Dftl) (w : World S)
      → IsCache f
      → 0 < f.total_cmt_entries
      → f.cmt < n
      → (a : After S) × (evict_page_from_cache k o oldest n e f w ≡ ok a)
        × IsCache a.ftl
        × Evicts f a.ftl
        × Spends e a.event w a.world
        × (a.ftl.cmt ≡ (if ltb f.cmt f.total_cmt_entries then f.cmt else f.total_cmt_entries - 1))
  unfolding evict_page_from_cache
  evict_page_from_cache_ends zero e f w h pos enough = absurd (omega arith)
  evict_page_from_cache_ends (suc n) e f w h pos enough =
      elim (Bool-cases (leb f.total_cmt_entries f.cmt)) [
        | inr room ↦ (
          record { event = e; ftl = f; world = w },
          ground (arith, room),
          h,
          Evicts-refl f,
          Spends-refl e w,
          ground (arith, room),
        )
        | inl full ↦
            let above : f.total_cmt_entries ≤ f.cmt = ground arith in
            let (i, p, first, found, cached) = finds f.trans_map (omega (arith, h.counted)) in
            let (a, dropped, h', evicts, fewer, spent) =
              evict-drops k o oldest issuing i p e f w h found cached in
            let total = evicts.keeps.total_kept in
            let (b, looped, h'', evicts', spent', left) =
              evict_page_from_cache_ends n a.event a.ftl a.world h' (omega arith) (omega arith) in
            (
              b,
              ground (arith, full, first, found, dropped, looped),
              h'',
              Evicts-trans f a.ftl b.ftl evicts evicts',
              Spends-trans e a.event b.event w a.world b.world spent spent',
              ground (arith, left, total, fewer, above),
            )
      ]

  hit :
      (e : Event) (b : Bool) (f : Dftl) (w : World S) (p : MPage)
      → IsCache f
      → e.logical_address < u32_mod
      → get_elem? f.trans_map e.logical_address ≡ some p
      → p.cached ≡ true
      → (a : After S) × (resolve_mapping k o oldest e b f w ≡ ok a)
        × Resolves e.logical_address f a.ftl
        × Spends e a.event w a.world
  unfolding resolve_mapping visit
  hit e b f w p h word found cached =
      let lba = e.logical_address in
      let e' = incr_time_taken e o.ram_read_delay in
      let q = visit b e' p in
      let g = record f { trans_map = set f.trans_map lba q } in
      let (place, stamps) = h.entries lba p found in
      let (h', keeps) =
        entered f lba f.cmt p q h found refl refl cached (visit-IsStamped b e' p (stamps cached))
          (ground (arith, cached)) in
      let small = mod-eq_of_lt word in
      (
        record {
          event = e';
          ftl = g;
          world = record w {
            stats = record w.stats {
              num_memory_read = w.stats.num_memory_read + 1;
              num_cache_hits = w.stats.num_cache_hits + 1;
            };
          };
        },
        ground (arith, found, cached, small),
        record {
          valid = h';
          kept = keeps;
          in_cache = (
            q,
            get_elem?-set_self f.trans_map lba q (lt-length_of_get_elem? f.trans_map lba p found),
            cached,
          );
          bounded = λ bound. bound;
        },
        (let spent = Spends-incr e o.ram_read_delay w w refl in
            record { time = spent.time; charged = spent.charged; manager_kept = refl }),
      )

  fault :
      (e : Event) (b : Bool) (f : Dftl) (w : World S) (p : MPage)
      → IsCache f
      → 0 < f.total_cmt_entries
      → e.logical_address < u32_mod
      → get_elem? f.trans_map e.logical_address ≡ some p
      → p.cached ≡ false
      → (a : After S) × (resolve_mapping k o oldest e b f w ≡ ok a)
        × Resolves e.logical_address f a.ftl
        × Spends e a.event w a.world
  unfolding resolve_mapping load
  fault e b f w p h pos word found out =
      let lba = e.logical_address in
      let counted = record w {
        stats = record w.stats { num_cache_faults = w.stats.num_cache_faults + 1 };
      } in
      let (a, evicted, h', evicts, spent, left) =
        evict_page_from_cache_ends (f.cmt + 1) e f counted h pos (omega arith) in
      let (e', w', consulted, spent') = consult_gtd_runs k o oldest issuing a.event a.world in
      let (cur, found', out') = evicts.loads_none lba p found out in
      let q = load b e' cur in
      let g = record a.ftl { cmt = a.ftl.cmt + 1; trans_map = set a.ftl.trans_map lba q } in
      let (h'', keeps) =
        entered a.ftl lba (a.ftl.cmt + 1) cur q h' found' refl refl refl
          ((e'.start_time, refl), (if b then e'.start_time + 1 else e'.start_time, refl))
          (ground (arith, out')) in
      let small = mod-eq_of_lt word in
      (
        record { event = e'; ftl = g; world = w' },
        ground (arith, found, out, small, evicted, consulted, found'),
        record {
          valid = h'';
          kept = Keeps-trans f a.ftl g evicts.keeps keeps;
          in_cache = (
            q,
            get_elem?-set_self a.ftl.trans_map lba q
                (lt-length_of_get_elem? a.ftl.trans_map lba cur found'),
            refl,
          );
          bounded = λ bound. ground (arith, left);
        },
        Spends-trans e a.event e' w a.world w'
            (record {
              time = spent.time;
              charged = spent.charged;
              manager_kept = spent.manager_kept;
            })
            spent',
      )

  -- resolve_mapping, whether it hits or not.
  pub resolve_mapping-Resolves :
      (e : Event) (b : Bool) (f : Dftl) (w : World S)
      → IsCache f
      → 0 < f.total_cmt_entries
      → e.logical_address < length f.trans_map
      → length f.trans_map < u32_mod
      → (a : After S) × (resolve_mapping k o oldest e b f w ≡ ok a)
        × Resolves e.logical_address f a.ftl
        × Spends e a.event w a.world
  resolve_mapping-Resolves e b f w h pos inside word =
      let (p, found) = get_elem?_of_lt f.trans_map e.logical_address inside in
      elim (Bool-cases p.cached) [
        | inl cached ↦ hit e b f w p h (omega arith) found cached
        | inr out ↦ fault e b f w p h pos (omega arith) found out
      ]

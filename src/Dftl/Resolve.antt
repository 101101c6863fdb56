-- ===== src/Dftl/Resolve.antt =====
-- resolve_mapping and lookup_CMT of OriginalFlashSim/FTLs/dftl_parent.cpp: the entry of a request comes
-- into the cache.
use test_flash_sim.Base.{
  ℕ, ◌+◌, Bool, true, false, Option, some, List, Run, ok, fetch, ◌>>=◌, if◌then◌else◌, set, u32,
}
use test_flash_sim.Options.{Options}
use test_flash_sim.Event.{Event, incr_time_taken}
use test_flash_sim.Controller.{Controller}
use test_flash_sim.BlockManager.{World}
use test_flash_sim.Dftl.{MPage, Dftl, After, evict_page_from_cache, consult_gtd}

-- A hit: the entry is visited.
unfoldable pub visit : Bool → Event → MPage → MPage
visit is_write e p = record p {
  modified_ts = if is_write then some e.start_time else p.modified_ts;
  last_visited_time = some e.start_time;
}

-- A fault: the entry is loaded.
unfoldable pub load : Bool → Event → MPage → MPage
load is_write e p = record p {
  create_ts = some e.start_time;
  modified_ts = some (if is_write then e.start_time + 1 else e.start_time);
  last_visited_time = some e.start_time;
  cached = true;
}

module _ {S : Type 0} (k : Controller S) (o : Options) (oldest : List MPage → Option ℕ) where
  -- lookup_CMT reads the entry at the whole logical address, and the rest the one at its lower 32
  -- bits.
  unfoldable pub resolve_mapping : Event → Bool → Dftl → World S → Run (After S)
  unfolding incr_time_taken visit load consult_gtd evict_page_from_cache
  resolve_mapping e is_write f w = do
    let dlpn = u32 e.logical_address
    looked_up ← fetch f.trans_map e.logical_address
    elim looked_up.cached [
      | true ↦ do
        current ← fetch f.trans_map dlpn
        let e' = incr_time_taken e o.ram_read_delay
        ok (record {
          event = e';
          ftl = record f { trans_map = set f.trans_map dlpn (visit is_write e' current) };
          world = record w {
            stats = record w.stats {
              num_memory_read = w.stats.num_memory_read + 1;
              num_cache_hits = w.stats.num_cache_hits + 1;
            };
          };
        })
      | false ↦ do
        a ← evict_page_from_cache k o oldest (f.cmt + 1) e f (record w {
          stats = record w.stats { num_cache_faults = w.stats.num_cache_faults + 1 };
        })
        (e', w') ← consult_gtd k o oldest a.event a.world
        current ← fetch a.ftl.trans_map dlpn
        ok (record {
          event = e';
          ftl = record a.ftl {
            cmt = a.ftl.cmt + 1;
            trans_map = set a.ftl.trans_map dlpn (load is_write e' current);
          };
          world = w';
        })
    ]

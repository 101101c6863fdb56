-- ===== src/Examples/Cache.antt =====
-- The demand mapping layer on one block of four pages, with room for one entry in its cache. The
-- device only counts the requests that it is sent.
use test_flash_sim.Base.{
  ℕ, zero, suc, ◌+◌, ◌-◌, ◌≡◌, ◌≢◌, ◌⊎◌, refl, inl, inr, true, false, Option, none, some, List, [],
  ◌∷◌, Fault, ok, abort, arith, success, get_elem?, leb, ltb, if◌then◌else◌, ◌&&◌, Bool-cases,
}
use test_flash_sim.Options.{Options, impl_dftl}
use test_flash_sim.Event.{Event}
use test_flash_sim.Event
use test_flash_sim.Page
use test_flash_sim.Block
use test_flash_sim.Stats.{reset}
use test_flash_sim.Controller.{Controller, IsIssuing}
use test_flash_sim.BlockManager.{BlockManager, World}
use test_flash_sim.Dftl.{MPage, Dftl, After, Answer, new_page, evict_page_from_cache}
use test_flash_sim.Dftl.Pages.{at_end}
use test_flash_sim.Dftl.Resolve.{resolve_mapping}
use test_flash_sim.Dftl.Requests.{finish, located, redirected, read, write, trim}
use test_flash_sim.Dftl.Cache.{IsCache, AreEntries, mapping, num_cached, Evicts, Spends}
use test_flash_sim.Dftl.Evict.{Finds}
use test_flash_sim.Dftl.Rooms.{evict_page_from_cache_ends}
use test_flash_sim.Dftl.Space.{HasSpace}
use test_flash_sim.Dftl.Ready.{IsReady}
use test_flash_sim.Dftl.Table.{resolve_mapping_keeps, read_follows, write_remaps}
use test_flash_sim.Dftl.Trims.{Stops, trim_ends}
use test_flash_sim.Examples.{config, address_37, at}

abbrev pub counting : Controller ℕ
counting = record {
  issue = λ e s. ok (success, e, s + 1);
  get_state = λ s a. Page.empty;
  get_num_valid = λ s a. 0;
  get_free_page = λ s a. a;
  get_block_pointer = λ s a. some (a.real_address - a.page);
  block = λ s b. Block.new config 4 100 30 b;
  invalidate_page = λ s b i. ok s;
  set_block_type = λ s b t. s;
  page_data = λ s p. none;
}

pub counting-IsIssuing : IsIssuing counting
counting-IsIssuing e s = (e, s + 1, refl)

-- The place and the time of the cached entry that was visited first.
abbrev stamp : MPage → ℕ
stamp p = elim p.last_visited_time [ none ↦ 0 | some t ↦ t ]

lru_from : List MPage → Option (ℕ × ℕ)
lru_from [] = none
lru_from (p ∷ rest) = elim (lru_from rest) [
  | none ↦ if p.cached then some (0, stamp p) else none
  | some (j, t) ↦ if p.cached && leb (stamp p) t then some (0, stamp p) else some (suc j, t)
]

pub lru : List MPage → Option ℕ
unfolding lru_from
lru pages = elim (lru_from pages) [ none ↦ none | some (j, t) ↦ some j ]

lru_from-num_cached :
    (pages : List MPage)
    → ((lru_from pages ≡ none) × (num_cached pages ≡ 0))
      ⊎ ((j t : ℕ) × (p : MPage) × (lru_from pages ≡ some (j, t))
          × (get_elem? pages j ≡ some p)
          × (p.cached ≡ true))
unfolding lru_from
lru_from-num_cached [] = inl (refl, refl)
lru_from-num_cached (p ∷ rest) = elim (lru_from-num_cached rest) [
  | inl (nothing, uncached) ↦ elim (Bool-cases p.cached) [
    | inl cached ↦ inr (0, stamp p, p, ground (arith, nothing, cached), refl, cached)
    | inr out ↦ inl (ground (arith, nothing, out), ground (arith, out, uncached))
  ]
  | inr (j, t, q, first, found, cached) ↦ elim (Bool-cases (p.cached && leb (stamp p) t)) [
    | inl older ↦ inr (0, stamp p, p, ground (arith, first, older), refl, ground (arith, older))
    | inr newer ↦ inr (suc j, t, q, ground (arith, first, newer), found, cached)
  ]
]

lru-Finds : Finds lru
unfolding lru
lru-Finds pages some_cached = elim (lru_from-num_cached pages) [
  | inl (nothing, uncached) ↦ absurd (omega arith)
  | inr (j, t, p, first, found, cached) ↦ (j, p, ground (arith, first), found, cached)
]

abbrev pub options : Options
options = record {
  config = config;
  ftl_implementation = impl_dftl;
  number_of_addressable_blocks = 1;
  bast_log_block_limit = 1;
  fast_log_block_limit = 1;
  cache_dftl_limit = 1;
  ram_read_delay = 1;
  ram_write_delay = 1;
}

-- Page 0 holds logical page 0, whose entry is the cached one and was written since it was loaded.
abbrev first_entry : MPage
first_entry = record (new_page 0) {
  ppn = some 0;
  create_ts = some 1;
  modified_ts = some 2;
  last_visited_time = some 1;
  cached = true;
}

abbrev pub layer : Dftl
layer = record {
  cmt = 1;
  trans_map = first_entry ∷ new_page 1 ∷ new_page 2 ∷ new_page 3 ∷ [];
  reverse_trans_map = 0 ∷ 0 ∷ 0 ∷ 0 ∷ [];
  address_per_page = 2;
  total_cmt_entries = 1;
  current_data_page = some 0;
}

abbrev taken : BlockManager
taken = record {
  data_active = 1;
  log_active = 0;
  max_log_blocks = 1;
  max_blocks = 1;
  free_list = [];
  invalid_list = [];
  simple_current_free = 4;
  num_insert_events = 0;
  current_writing_block = 0;
  out_of_blocks = false;
}

abbrev pub world : World ℕ
world = record { stats = reset; manager = taken; device = 0 }

layer-AreEntries : AreEntries layer.trans_map
layer-AreEntries zero p h = (ground arith, λ c. ((1, ground arith), (2, ground arith)))
layer-AreEntries (suc zero) p h = (ground arith, λ c. absurd (ground arith))
layer-AreEntries (suc (suc zero)) p h = (ground arith, λ c. absurd (ground arith))
layer-AreEntries (suc (suc (suc zero))) p h = (ground arith, λ c. absurd (ground arith))
layer-AreEntries (suc (suc (suc (suc i)))) p h = absurd (cc)

layer-IsReady : IsReady layer
layer-IsReady = record {
  valid = record { counted = refl; entries = layer-AreEntries; whole = λ i inside. omega arith };
  has_cache = omega arith;
  bounded = omega arith;
  word = omega arith;
}

-- A request for logical page 1, at time 5.
abbrev pub request_1 : Event
request_1 = record (at Event.write address_37) { logical_address = 1; start_time = 5 }

abbrev pub request_0 : Event
request_0 = record request_1 { logical_address = 0 }

evict_page_from_cache_ends_example :
    (a : After ℕ) × (evict_page_from_cache counting options lru 2 request_1 layer world ≡ ok a)
    × IsCache a.ftl
    × Evicts layer a.ftl
    × Spends request_1 a.event world a.world
    × (a.ftl.cmt ≡ (if ltb 1 1 then 1 else 1 - 1))
evict_page_from_cache_ends_example =
    evict_page_from_cache_ends counting options lru counting-IsIssuing lru-Finds 2 request_1 layer
      world layer-IsReady.valid (omega arith) (omega arith)

resolve_mapping_keeps_example :
    (a : After ℕ) × (p : MPage) × (resolve_mapping counting options lru request_1 true layer world
      ≡ ok a)
    × IsReady a.ftl
    × (mapping a.ftl ≡ mapping layer)
    × (get_elem? a.ftl.trans_map 1 ≡ some p)
    × (p.cached ≡ true)
resolve_mapping_keeps_example =
    resolve_mapping_keeps counting options lru counting-IsIssuing lru-Finds request_1 true layer
      world layer-IsReady (omega arith)

read_follows_example :
    (r : Answer ℕ) × (time : ℕ) × (w' : World ℕ) × (read counting options lru request_0 layer world
      ≡ ok r)
    × (finish counting (located options (some 0) (record request_0 { time_taken = time })) r.ftl w'
        ≡ ok r)
    × IsReady r.ftl
    × (mapping r.ftl ≡ mapping layer)
read_follows_example =
    read_follows counting options lru counting-IsIssuing lru-Finds request_0 layer world (some 0)
      layer-IsReady refl

page_left : at_end options layer ≢ true
unfolding at_end
page_left last = ground arith

has_space : HasSpace options layer taken
has_space last = absurd (page_left last)

write_remaps_example :
    (r : Answer ℕ) × (time : ℕ) × (w' : World ℕ) × (write counting options lru request_1 layer world
      ≡ ok r)
    × (finish counting (redirected options none 1 (record request_1 { time_taken = time })) r.ftl w'
        ≡ ok r)
    × IsReady r.ftl
    × (mapping r.ftl ≡ some 0 ∷ some 1 ∷ none ∷ none ∷ [])
    × (r.ftl.current_data_page ≡ some 1)
    × (r.ftl.reverse_trans_map ≡ 0 ∷ 1 ∷ 0 ∷ 0 ∷ [])
write_remaps_example =
    write_remaps counting options lru counting-IsIssuing lru-Finds request_1 layer world none
      (λ last. absurd (page_left last)) layer-IsReady has_space (omega arith) refl

trim_ends_example :
    ((◌≡◌ {A = Option ℕ} (some 0) none)
      × (r : Answer ℕ) × (trim counting options lru request_0 layer world ≡ ok r)
      × (r.ftl ≡ layer))
    ⊎ ((ppn : ℕ) × (fault : Fault) × (◌≡◌ {A = Option ℕ} (some 0) (some ppn))
        × (trim counting options lru request_0 layer world ≡ abort fault)
        × Stops counting options ppn 0 fault)
trim_ends_example =
    trim_ends counting options lru counting-IsIssuing lru-Finds request_0 layer world (some 0)
      layer-IsReady refl

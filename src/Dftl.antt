-- ===== src/Dftl.antt =====
-- OriginalFlashSim/FTLs/dftl_parent.cpp and FTLs/dftl_ftl.cpp: a map of pages, of which a limited
-- number of entries is cached. Time stamps are natural numbers, and `none` where the source has -1
-- or -2, which it only tells from numbers that are not negative.
pub mod Cache
pub mod Cleaning
pub mod Drop
pub mod Evict
pub mod Pages
pub mod Ready
pub mod Requests
pub mod Resolve
pub mod Rooms
pub mod Space
pub mod Start
pub mod Table
pub mod Trims
use test_flash_sim.Base.{
  ℕ, zero, suc, ◌+◌, ◌-◌, ◌*◌, ◌/◌, ◌%◌, Bool, true, false, not, ◌&&◌, ◌||◌, Option, none, some,
  List, [], ◌∷◌, Run, ok, abort, out_of_range, assertion, out_of_fuel, guard, fetch, ◌>>=◌, ◌>>◌,
  Status, success, failure, if◌then◌else◌, ltb, leb, ◌==◌, length, set, u32,
}
use test_flash_sim.Options.{Options}
use test_flash_sim.Address.{Address, page_level, of_linear}
use test_flash_sim.Event.{Event, EventType, set_address, set_noop, incr_time_taken}
use test_flash_sim.Event
use test_flash_sim.Block.{dat}
use test_flash_sim.Stats.{Stats}
use test_flash_sim.Controller.{Controller}
use test_flash_sim.BlockManager.{World, insert_events, get_free_block}

pub record MPage : Type 0 where
  pub vpn : ℕ
  pub ppn : Option ℕ
  pub create_ts : Option ℕ
  pub modified_ts : Option ℕ
  pub last_visited_time : Option ℕ
  pub cached : Bool

abbrev pub new_page : ℕ → MPage
new_page vpn = record {
  vpn = vpn;
  ppn = none;
  create_ts = none;
  modified_ts = none;
  last_visited_time = none;
  cached = false;
}

-- `cmt` counts the cached entries. It is lowered only where a cached entry is dropped, so that it
-- stays a natural number.
pub record Dftl : Type 0 where
  pub cmt : ℕ
  pub trans_map : List MPage
  pub reverse_trans_map : List ℕ
  pub address_per_page : ℕ
  pub total_cmt_entries : ℕ
  pub current_data_page : Option ℕ

-- `log(n)/log(2)`, cut to an integer; the rounds are at least as many as the bits.
unfoldable pub floor_log2 : ℕ → ℕ → ℕ
floor_log2 zero n = 0
floor_log2 (suc f) n = let rest = floor_log2 f (n / 2) in if ltb n 2 then 0 else 1 + rest

unfoldable pub new_pages : ℕ → ℕ → List MPage
new_pages zero i = []
new_pages (suc n) i = new_page i ∷ new_pages n (suc i)

-- The constructor does not set the elements of `reverse_trans_map`: they are an argument.
unfoldable pub new : Options → List ℕ → Dftl
new o unset =
    let pages = u32 (o.number_of_addressable_blocks * o.block_size) in
    let address_size = floor_log2 32 pages in
    let address_per_page = o.page_size / ((address_size + 7) / 8) in
    record {
      cmt = 0;
      trans_map = new_pages pages 0;
      reverse_trans_map = unset;
      address_per_page = address_per_page;
      total_cmt_entries = u32 (o.cache_dftl_limit * address_per_page);
      current_data_page = none;
    }

-- What a call of a helper leaves: the event, the layer and what it shares.
pub record After (S : Type 0) : Type 0 where
  pub event : Event
  pub ftl : Dftl
  pub world : World S

-- What a request leaves.
pub record Answer (S : Type 0) : Type 0 where
  pub status : Status
  pub event : Event
  pub ftl : Dftl
  pub world : World S

-- The entry without its stamps (reset_MPage), and out of the cache.
unfoldable pub uncached : MPage → MPage
uncached p = record p {
  create_ts = none;
  modified_ts = none;
  last_visited_time = none;
  cached = false;
}

-- `create_ts != modified_ts`, where both are set.
unfoldable pub is_dirty : MPage → Run Bool
is_dirty p = elim p.create_ts [
  | none ↦ abort assertion
  | some c ↦ elim p.modified_ts [ none ↦ abort assertion | some m ↦ ok (not (c == m)) ]
]

-- The loop over the entries of a translation page, `n` of them from the i-th on: what is cached is
-- as it was created.
unfoldable pub clean_entries : List MPage → ℕ → ℕ → Run (List MPage)
clean_entries pages i zero = ok pages
clean_entries pages i (suc n) = do
  cur ← fetch pages i
  clean_entries
      (if cur.cached then set pages i (record cur { create_ts = cur.modified_ts }) else pages)
      (suc i) n

-- Taking the entry out of the cache.
unfoldable pub drop_entry : MPage → Dftl → Dftl
unfolding uncached
drop_entry p f = record f { cmt = f.cmt - 1; trans_map = set f.trans_map p.vpn (uncached p) }

-- `mpage.ppn = ppn; reverse_trans_map[ppn] = mpage.vpn`, with the entry put back in its place. A
-- page of -1 is `none`: it stands before the array.
unfoldable pub update_translation_map : MPage → Option ℕ → ℕ → Dftl → Run Dftl
update_translation_map p none i f = abort out_of_range
update_translation_map p (some ppn) i f =
    if ltb ppn (length f.reverse_trans_map)
    then ok (record f {
      trans_map = set f.trans_map i (record p { ppn = some ppn });
      reverse_trans_map = set f.reverse_trans_map ppn p.vpn;
    })
    else abort out_of_range

-- The index of `multi_index_container` by the time of the last visit is Boost's: `oldest` is the
-- place of its first entry, if it has any.
module _ {S : Type 0} (k : Controller S) (o : Options) (oldest : List MPage → Option ℕ) where
  -- The request that simulates the transfer of a translation page.
  unfoldable pub transfer : EventType → Event → World S → Run (Event × World S)
  unfolding set_address set_noop incr_time_taken
  transfer type e w = do
    let request =
        set_noop
          (set_address (Event.new type e.logical_address 1 e.start_time)
            (of_linear o.geometry 0 page_level))
          true
    (status, issued, device) ← k.issue request w.device
    elim status [
      | failure ↦ abort assertion
      | success ↦ ok (incr_time_taken e issued.time_taken, record w { device = device })
    ]

  unfoldable pub consult_gtd : Event → World S → Run (Event × World S)
  unfolding transfer
  consult_gtd e w = do
    (e', w') ← transfer Event.read e w
    ok (e', record w' { stats = record w'.stats { num_ftl_read = w'.stats.num_ftl_read + 1 } })

  unfoldable pub write_back : Event → World S → Run (Event × World S)
  unfolding transfer
  write_back e w = do
    (e', w') ← transfer Event.write e w
    ok (
      e',
      record w' {
        stats = record w'.stats {
          num_ftl_write = w'.stats.num_ftl_write + 1;
          num_gc_write = w'.stats.num_gc_write + 1;
        };
      },
    )

  -- The body of evict_page_from_cache's loop, and what evict_specific_page_from_cache does with a
  -- cached entry.
  unfoldable pub evict : MPage → Event → Dftl → World S → Run (After S)
  unfolding is_dirty clean_entries write_back drop_entry
  evict p e f w = do
    guard p.cached
    dirty ← is_dirty p
    elim dirty [
      | false ↦ ok (record { event = e; ftl = drop_entry p f; world = w })
      | true ↦ do
        cleaned ← clean_entries f.trans_map (p.vpn - p.vpn % f.address_per_page) f.address_per_page
        (e', w') ← write_back e w
        ok (record {
          event = e';
          ftl = drop_entry p (record f { trans_map = cleaned });
          world = w';
        })
    ]

  -- The loop, with fuel for its rounds.
  unfoldable pub evict_page_from_cache : ℕ → Event → Dftl → World S → Run (After S)
  unfolding evict
  evict_page_from_cache zero e f w = abort out_of_fuel
  evict_page_from_cache (suc n) e f w = elim (leb f.total_cmt_entries f.cmt) [
    | false ↦ ok (record { event = e; ftl = f; world = w })
    | true ↦ elim (oldest f.trans_map) [
      | none ↦ abort out_of_range
      | some i ↦ do
        p ← fetch f.trans_map i
        a ← evict p e f w
        evict_page_from_cache n a.event a.ftl a.world
    ]
  ]

  unfoldable pub evict_specific_page_from_cache : ℕ → Event → Dftl → World S → Run (After S)
  unfolding evict
  evict_specific_page_from_cache lba e f w = do
    p ← fetch f.trans_map lba
    if p.cached then evict p e f w else ok (record { event = e; ftl = f; world = w })

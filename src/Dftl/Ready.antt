-- ===== src/Dftl/Ready.antt =====
-- What a layer keeps from one request to the next, and the end of a request.
use test_flash_sim.Base.{
  ℕ, ◌+◌, ◌≤◌, ◌<◌, ◌≡◌, ◌∙◌, refl, ap, true, Option, some, List, ok, arith, length, set, get_elem?,
  get_elem?_of_map, map-set, success, lt-length_of_get_elem?, length-map, length-set, count-set,
  u32, u32_mod,
}
use test_flash_sim.Options.{Options}
use test_flash_sim.Event.{Event}
use test_flash_sim.Controller.{Controller, IsIssuing}
use test_flash_sim.BlockManager.{World}
use test_flash_sim.Dftl.{MPage, Dftl, After, Answer, update_translation_map}
use test_flash_sim.Dftl.Pages.{get_free_data_page}
use test_flash_sim.Dftl.Resolve.{resolve_mapping}
use test_flash_sim.Dftl.Requests.{finish, redirected, write}
use test_flash_sim.Dftl.Cache.{IsCache, mapping, Keeps, mapping-length, AreEntries-set}
use test_flash_sim.Dftl.Rooms.{Resolves}

pub finish_runs :
    {S : Type 0} (k : Controller S) (e : Event) (f : Dftl) (w : World S)
    → IsIssuing k
    → (r : Answer S) × (finish k e f w ≡ ok r) × (r.ftl ≡ f) × (r.status ≡ success)
unfolding finish
finish_runs k e f w issuing =
    let (e', device, done) = issuing e w.device in
    (
      record { status = success; event = e'; ftl = f; world = record w { device = device } },
      ground (arith, done),
      refl,
      refl,
    )

-- What a layer keeps from one request to the next.
pub record IsReady (f : Dftl) : Type 0 where
  pub valid : IsCache f
  pub has_cache : 0 < f.total_cmt_entries
  pub bounded : f.cmt ≤ f.total_cmt_entries
  pub word : length f.trans_map < u32_mod

pub Resolves-IsReady : (lba : ℕ) (f g : Dftl) → IsReady f → Resolves lba f g → IsReady g
Resolves-IsReady lba f g h r = record {
  valid = r.valid;
  has_cache = omega (arith, h.has_cache, r.kept.total_kept);
  bounded = omega (arith, r.bounded h.bounded, r.kept.total_kept);
  word = omega (arith, h.word, mapping-length f g r.kept);
}

-- The entry of a request that resolve_mapping has left.
pub entry_of_mapping :
    (f g : Dftl) (i : ℕ) (target : Option ℕ)
    → Keeps f g
    → get_elem? (mapping f) i ≡ some target
    → (p : MPage) × (get_elem? g.trans_map i ≡ some p) × (p.ppn ≡ target)
entry_of_mapping f g i target keeps h =
    get_elem?_of_map (λ (p : MPage). p.ppn) g.trans_map i target
      (ap (λ (l : List (Option ℕ)). get_elem? l i) keeps.map_kept ∙ h)

pub inside_of_mapping :
    (f : Dftl) (i : ℕ) (target : Option ℕ)
    → get_elem? (mapping f) i ≡ some target
    → i < length f.trans_map
inside_of_mapping f i target h = omega (
  arith,
  lt-length_of_get_elem? (mapping f) i target h,
  length-map (λ (p : MPage). p.ppn) f.trans_map,
)

-- The layer once an entry names another page.
abbrev pub remapped_entry : Dftl → ℕ → ℕ → MPage → Dftl
remapped_entry f i page p = record f {
  trans_map = set f.trans_map i (record p { ppn = some page });
  reverse_trans_map = set f.reverse_trans_map page p.vpn;
  current_data_page = some page;
}

pub write_runs :
    {S : Type 0} (k : Controller S) (o : Options) (oldest : List MPage → Option ℕ) (e : Event)
    (f : Dftl) (w : World S) (a b : After S) (p : MPage) (page : ℕ)
    → resolve_mapping k o oldest e true f w ≡ ok a
    → get_free_data_page k o oldest a.event true a.ftl a.world ≡ ok (page, b)
    → get_elem? b.ftl.trans_map e.logical_address ≡ some p
    → u32 e.logical_address ≡ e.logical_address
    → page < length b.ftl.reverse_trans_map
    → IsIssuing k
    → (r : Answer S) × (w' : World S) × (write k o oldest e f w ≡ ok r)
      × (finish k (redirected o p.ppn page b.event) r.ftl w' ≡ ok r)
      × (r.ftl ≡ record b.ftl {
        trans_map = set b.ftl.trans_map e.logical_address (record p { ppn = some page });
        reverse_trans_map = set b.ftl.reverse_trans_map page p.vpn;
      })
unfolding write update_translation_map
write_runs k o oldest e f w a b p page resolved got found small fits issuing =
    let g = record b.ftl {
      trans_map = set b.ftl.trans_map e.logical_address (record p { ppn = some page });
      reverse_trans_map = set b.ftl.reverse_trans_map page p.vpn;
    } in
    let w' = record b.world {
      stats = record b.world.stats { num_ftl_write = b.world.stats.num_ftl_write + 1 };
    } in
    let (r, done, same, _) = finish_runs k (redirected o p.ppn page b.event) g w' issuing in
    (
      r,
      w',
      ground (arith, resolved, got, found, small, fits, done),
      ground (arith, done, same),
      same,
    )

pub remapped-IsReady :
    (f g : Dftl) (i page : ℕ) (p : MPage)
    → IsReady g
    → Keeps f g
    → get_elem? g.trans_map i ≡ some p
    → IsReady (remapped_entry g i page p)
      × (mapping (remapped_entry g i page p) ≡ set (mapping f) i (some page))
      × ((remapped_entry g i page p).reverse_trans_map ≡ set f.reverse_trans_map page i)
remapped-IsReady f g i page p h keeps found =
    let q = record p { ppn = some page } in
    let n = length-set g.trans_map i q in
    let (place, stamps) = h.valid.entries i p found in
    let total = count-set (λ (r : MPage). r.cached) g.trans_map i p q found in
    (
      record {
        valid = record {
          counted = omega (arith, total, h.valid.counted);
          entries = AreEntries-set g.trans_map i q h.valid.entries (place, stamps);
          whole = λ j inside. rw n (h.valid.whole j (omega (arith, n)));
        };
        has_cache = h.has_cache;
        bounded = h.bounded;
        word = omega (arith, n, h.word);
      },
      map-set (λ (r : MPage). r.ppn) g.trans_map i q
          ∙ ap (λ (l : List (Option ℕ)). set l i (some page)) keeps.map_kept,
      rw (place, keeps.reverse_kept) refl,
    )

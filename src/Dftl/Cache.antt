-- ===== src/Dftl/Cache.antt =====
-- What the cache of the map keeps: the invariant of the layer, and what its helpers leave alone.
use test_flash_sim.Base.{
  ℕ, ◌+◌, ◌-◌, ◌%◌, ◌≤◌, ◌<◌, ◌≡◌, ◌∙◌, refl, sym, ap, inl, inr, Bool, true, false, Option, some,
  List, arith, length, set, get_elem?, count, map, length-map, map-map, length-set, count-map,
  get_elem?-map, get_elem?_of_map, get_elem?-set_self, get_elem?-set_ne, lt-length_of_get_elem?,
  Bool-cases, ◌==◌, ltb,
}
use test_flash_sim.Event.{Event, incr_time_taken}
use test_flash_sim.BlockManager.{World}
use test_flash_sim.Dftl.{MPage, Dftl}

-- The stamps are set, as the asserts before an eviction ask.
abbrev pub IsStamped : MPage → Type 0
IsStamped p = ((c : ℕ) × (p.create_ts ≡ some c)) × ((m : ℕ) × (p.modified_ts ≡ some m))

-- An entry stands at its own number, and has its stamps while it is cached.
abbrev pub IsEntry : ℕ → MPage → Type 0
IsEntry i p = (p.vpn ≡ i) × (p.cached ≡ true → IsStamped p)

abbrev pub AreEntries : List MPage → Type 0
AreEntries pages = (i : ℕ) (p : MPage) → get_elem? pages i ≡ some p → IsEntry i p

-- What the callers see of an entry: its page, and whether it is cached.
abbrev pub view : MPage → Option ℕ × Bool
view p = (p.ppn, p.cached)

abbrev pub num_cached : List MPage → ℕ
num_cached pages = count (λ (p : MPage). p.cached) pages

-- The pages that the entries name: the map that the layer keeps, without its cache.
abbrev pub mapping : Dftl → List (Option ℕ)
mapping f = map (λ (p : MPage). p.ppn) f.trans_map

-- `cmt` counts the cached entries, and every translation page is whole.
pub record IsCache (f : Dftl) : Type 0 where
  pub counted : f.cmt ≡ num_cached f.trans_map
  pub entries : AreEntries f.trans_map
  pub whole :
      (i : ℕ)
      → i < length f.trans_map
      → i - i % f.address_per_page + f.address_per_page ≤ length f.trans_map

-- All but the cache is as it was.
pub record Keeps (f g : Dftl) : Type 0 where
  pub map_kept : mapping g ≡ mapping f
  pub reverse_kept : g.reverse_trans_map ≡ f.reverse_trans_map
  pub per_page_kept : g.address_per_page ≡ f.address_per_page
  pub total_kept : g.total_cmt_entries ≡ f.total_cmt_entries
  pub current_kept : g.current_data_page ≡ f.current_data_page

pub Keeps-refl : (f : Dftl) → Keeps f f
Keeps-refl f = record {
  map_kept = refl;
  reverse_kept = refl;
  per_page_kept = refl;
  total_kept = refl;
  current_kept = refl;
}

pub Keeps-trans : (f g h : Dftl) → Keeps f g → Keeps g h → Keeps f h
Keeps-trans f g h a b = record {
  map_kept = b.map_kept ∙ a.map_kept;
  reverse_kept = b.reverse_kept ∙ a.reverse_kept;
  per_page_kept = b.per_page_kept ∙ a.per_page_kept;
  total_kept = b.total_kept ∙ a.total_kept;
  current_kept = b.current_kept ∙ a.current_kept;
}

pub mapping-length : (f g : Dftl) → Keeps f g → length g.trans_map ≡ length f.trans_map
mapping-length f g h =
    let m = ap length h.map_kept in
    sym (length-map (λ (p : MPage). p.ppn) g.trans_map)
    ∙ m
    ∙ length-map (λ (p : MPage). p.ppn) f.trans_map

-- Writing an entry at its own number.
pub AreEntries-set :
    (pages : List MPage) (i : ℕ) (q : MPage)
    → AreEntries pages
    → IsEntry i q
    → AreEntries (set pages i q)
AreEntries-set pages i q h e j p found = elim (Bool-cases (i == j)) [
  | inl same ↦
      let here : i ≡ j = ground arith in
      let inside = lt-length_of_get_elem? (set pages i q) j p found in
      let n = length-set pages i q in
      let written = get_elem?-set_self pages i q (omega arith) in
      let it : q ≡ p = ground (arith, here, written, found) in rw (here, it) at e
  | inr other ↦ h j p (sym (get_elem?-set_ne pages i j q (ground arith)) ∙ found)
]

-- What looks the same holds as many cached entries.
pub num_cached_of_view :
    (xs ys : List MPage) → map view xs ≡ map view ys → num_cached xs ≡ num_cached ys
num_cached_of_view xs ys h =
    sym (count-map (λ (v : Option ℕ × Bool). v.1) view xs)
    ∙ ap (count (λ (v : Option ℕ × Bool). v.1)) h
    ∙ count-map (λ (v : Option ℕ × Bool). v.1) view ys

pub mapping_of_view :
    (xs ys : List MPage)
    → map view xs ≡ map view ys
    → map (λ (p : MPage). p.ppn) xs ≡ map (λ (p : MPage). p.ppn) ys
mapping_of_view xs ys h =
    sym (map-map (λ (v : Option ℕ × Bool). v.0) view xs)
    ∙ ap (map (λ (v : Option ℕ × Bool). v.0)) h
    ∙ map-map (λ (v : Option ℕ × Bool). v.0) view ys

-- All but the cache is as it was, and no entry came into the cache.
pub record Evicts (f g : Dftl) : Type 0 where
  pub keeps : Keeps f g
  pub loads_none :
      (i : ℕ) (p : MPage)
      → get_elem? f.trans_map i ≡ some p
      → p.cached ≡ false
      → (q : MPage) × (get_elem? g.trans_map i ≡ some q) × (q.cached ≡ false)

pub Evicts-refl : (f : Dftl) → Evicts f f
Evicts-refl f = record { keeps = Keeps-refl f; loads_none = λ i p found out. (p, found, out) }

pub Evicts-trans : (f g h : Dftl) → Evicts f g → Evicts g h → Evicts f h
Evicts-trans f g h a b = record {
  keeps = Keeps-trans f g h a.keeps b.keeps;
  loads_none = λ i p found out.
      let (q, found', out') = a.loads_none i p found out in b.loads_none i q found' out';
}

-- A map that looks the same loads none, and neither does one write of an entry out of the cache.
pub loads_none_of_view :
    (xs ys : List MPage) (i : ℕ) (p : MPage)
    → map view ys ≡ map view xs
    → get_elem? xs i ≡ some p
    → p.cached ≡ false
    → (q : MPage) × (get_elem? ys i ≡ some q) × (q.cached ≡ false)
loads_none_of_view xs ys i p same found out =
    let (q, found', looks) =
      get_elem?_of_map view ys i (view p) (
        ap (λ (l : List (Option ℕ × Bool)). get_elem? l i) same
        ∙ get_elem?-map view xs i p found) in
    (q, found', ap (λ (v : Option ℕ × Bool). v.1) looks ∙ out)

pub loads_none_of_set :
    (xs : List MPage) (i j : ℕ) (p q : MPage)
    → get_elem? xs j ≡ some p
    → p.cached ≡ false
    → q.cached ≡ false
    → (r : MPage) × (get_elem? (set xs i q) j ≡ some r) × (r.cached ≡ false)
loads_none_of_set xs i j p q found out out' = elim (Bool-cases (i == j)) [
  | inl same ↦
      let here : i ≡ j = ground arith in
      (q, rw here (get_elem?-set_self xs j q (lt-length_of_get_elem? xs j p found)), out')
  | inr other ↦ (p, get_elem?-set_ne xs i j q (ground arith) ∙ found, out)
]

-- A helper that charges its time to the event, and leaves the block manager as it is.
pub record Spends {S : Type 0} (e e' : Event) (w w' : World S) : Type 0 where
  pub time : ℕ
  pub charged : e' ≡ record e { time_taken = time }
  pub manager_kept : w'.manager ≡ w.manager

pub Spends-refl : {S : Type 0} (e : Event) (w : World S) → Spends e e w w
Spends-refl e w = record { time = e.time_taken; charged = refl; manager_kept = refl }

pub Spends-trans :
    {S : Type 0} (e e' e'' : Event) (w w' w'' : World S)
    → Spends e e' w w'
    → Spends e' e'' w' w''
    → Spends e e'' w w''
Spends-trans e e' e'' w w' w'' a b = record {
  time = b.time;
  charged = b.charged ∙ ap (λ (x : Event). record x { time_taken = b.time }) a.charged;
  manager_kept = b.manager_kept ∙ a.manager_kept;
}

pub Spends-incr :
    {S : Type 0} (e : Event) (t : ℕ) (w w' : World S)
    → w'.manager ≡ w.manager
    → Spends e (incr_time_taken e t) w w'
unfolding incr_time_taken
Spends-incr e t w w' h = elim (Bool-cases (ltb 0 t)) [
  | inl pos ↦ record { time = e.time_taken + t; charged = ground (arith, pos); manager_kept = h }
  | inr zero_time ↦ record {
    time = e.time_taken;
    charged = ground (arith, zero_time);
    manager_kept = h;
  }
]

-- ===== src/Dftl/Drop.antt =====
-- What it does to the cache to clean a translation page, and to drop an entry.
use test_flash_sim.Base.{
  ℕ, zero, suc, ◌+◌, ◌≤◌, ◌≡◌, ◌∙◌, refl, sym, ap, inl, inr, Bool, true, false, Option, some, List,
  ok, arith, length, set, get_elem?, get_elem?_of_lt, count-set, count_pos, length-map, map,
  map-set_same, Bool-cases, if◌then◌else◌,
}
use test_flash_sim.Dftl.{MPage, Dftl, uncached, clean_entries, drop_entry}
use test_flash_sim.Dftl.Cache.{
  AreEntries, view, IsCache, Keeps, Evicts, loads_none_of_view, loads_none_of_set, mapping-length,
  AreEntries-set, num_cached_of_view, mapping_of_view,
}

clean_entries_step :
    (pages : List MPage) (i n : ℕ) (cur : MPage)
    → get_elem? pages i ≡ some cur
    → clean_entries pages i (suc n)
      ≡ clean_entries
          (if cur.cached then set pages i (record cur { create_ts = cur.modified_ts }) else pages)
          (suc i)
          n
unfolding clean_entries
clean_entries_step pages i n cur found = ground arith

clean_entries_skip :
    (pages : List MPage) (i n : ℕ) (cur : MPage)
    → get_elem? pages i ≡ some cur
    → cur.cached ≡ false
    → clean_entries pages i (suc n) ≡ clean_entries pages (suc i) n
clean_entries_skip pages i n cur found out = ground (arith, clean_entries_step pages i n cur found)

clean_entries_clean :
    (pages : List MPage) (i n : ℕ) (cur : MPage)
    → get_elem? pages i ≡ some cur
    → cur.cached ≡ true
    → clean_entries pages i (suc n)
      ≡ clean_entries (set pages i (record cur { create_ts = cur.modified_ts })) (suc i) n
clean_entries_clean pages i n cur found cached =
    ground (arith, clean_entries_step pages i n cur found)

pub clean_entries-AreEntries :
    (pages : List MPage) (i n : ℕ)
    → AreEntries pages
    → i + n ≤ length pages
    → (cleaned : List MPage) × (clean_entries pages i n ≡ ok cleaned)
      × AreEntries cleaned
      × (map view cleaned ≡ map view pages)
unfolding clean_entries
clean_entries-AreEntries pages i zero h inside = (pages, refl, h, refl)
clean_entries-AreEntries pages i (suc n) h inside =
    let (cur, found) = get_elem?_of_lt pages i (omega arith) in
    let (place, stamps) = h i cur found in
    elim (Bool-cases cur.cached) [
      | inr out ↦
          let (cleaned, looped, ok_entries, same) =
            clean_entries-AreEntries pages (suc i) n h (omega arith) in
          (cleaned, clean_entries_skip pages i n cur found out ∙ looped, ok_entries, same)
      | inl cached ↦
          let q = record cur { create_ts = cur.modified_ts } in
          let n' = ap length (map-set_same view pages i cur q found refl) in
          let (cleaned, looped, ok_entries, same) =
            clean_entries-AreEntries (set pages i q) (suc i) n
              (AreEntries-set pages i q h (place, λ c. ((stamps c).1, (stamps c).1)))
              (omega (arith, n', length-map view pages, length-map view (set pages i q))) in
          (
            cleaned,
            clean_entries_clean pages i n cur found cached ∙ looped,
            ok_entries,
            same ∙ map-set_same view pages i cur q found refl,
          )
    ]

-- Dropping a cached entry, by a copy of it that may have other stamps.
pub drop_entry-IsCache :
    (p q : MPage) (f : Dftl)
    → IsCache f
    → get_elem? f.trans_map p.vpn ≡ some q
    → view q ≡ view p
    → p.cached ≡ true
    → IsCache (drop_entry p f) × Evicts f (drop_entry p f) × ((drop_entry p f).cmt + 1 ≡ f.cmt)
unfolding drop_entry uncached
drop_entry-IsCache p q f h found looks cached =
    let in_cache : q.cached ≡ true = ap (λ (v : Option ℕ × Bool). v.1) looks ∙ cached in
    let before = count-set (λ (r : MPage). r.cached) f.trans_map p.vpn q (uncached p) found in
    let pos = count_pos (λ (r : MPage). r.cached) f.trans_map p.vpn q found in_cache in
    let same =
      map-set_same (λ (r : MPage). r.ppn) f.trans_map p.vpn q (uncached p) found
        (sym (ap (λ (v : Option ℕ × Bool). v.0) looks)) in
    let keeps : Keeps f (drop_entry p f) = record {
      map_kept = same;
      reverse_kept = refl;
      per_page_kept = refl;
      total_kept = refl;
      current_kept = refl;
    } in
    let n = mapping-length f (drop_entry p f) keeps in
    (
      record {
        counted = ground (arith, before, h.counted, in_cache, pos);
        entries = AreEntries-set f.trans_map p.vpn (uncached p) h.entries (refl, λ c. absurd (cc));
        whole = λ j inside. rw n (h.whole j (omega (arith, n)));
      },
      record {
        keeps = keeps;
        loads_none =
            λ j r at_j out. loads_none_of_set f.trans_map p.vpn j r (uncached p) at_j out refl;
      },
      omega (arith, h.counted, pos),
    )

-- A cleaned map under the same counter.
pub cleaned-IsCache :
    (f : Dftl) (cleaned : List MPage)
    → IsCache f
    → AreEntries cleaned
    → map view cleaned ≡ map view f.trans_map
    → IsCache (record f { trans_map = cleaned }) × Evicts f (record f { trans_map = cleaned })
cleaned-IsCache f cleaned h entries same =
    let n : length cleaned ≡ length f.trans_map =
      omega (arith, ap length same, length-map view cleaned, length-map view f.trans_map) in
    (
      record {
        counted = h.counted ∙ sym (num_cached_of_view cleaned f.trans_map same);
        entries = entries;
        whole = λ j inside. rw n (h.whole j (omega arith));
      },
      record {
        keeps = record {
          map_kept = mapping_of_view cleaned f.trans_map same;
          reverse_kept = refl;
          per_page_kept = refl;
          total_kept = refl;
          current_kept = refl;
        };
        loads_none = λ i p found out. loads_none_of_view f.trans_map cleaned i p same found out;
      },
    )

-- ===== src/Dftl/Trims.antt =====
-- The trim of a page, of OriginalFlashSim/FTLs/dftl_ftl.cpp.
use test_flash_sim.Base.{
  ℕ, ◌≡◌, refl, inl, inr, Option, none, some, List, Fault, ok, abort, out_of_range, null_pointer,
  Run-cases, arith, get_elem?, Bool-cases, u32, get_elem?_of_map, Option-cases, ◌⊎◌, ◌+◌,
  lt-length_of_get_elem?,
}
use native.Mathlib.Nat.{mod-eq_of_lt}
use test_flash_sim.Options.{Options}
use test_flash_sim.Address.{page_level, of_linear}
use test_flash_sim.Event.{Event, set_address}
use test_flash_sim.Controller.{Controller, IsIssuing}
use test_flash_sim.BlockManager.{World}
use test_flash_sim.Dftl.{
  MPage, Dftl, After, Answer, evict_specific_page_from_cache, update_translation_map,
}
use test_flash_sim.Dftl.Requests.{unmap, unmap_if_mapped, trim}
use test_flash_sim.Dftl.Cache.{IsCache, mapping}
use test_flash_sim.Dftl.Evict.{Finds, evict-drops}
use test_flash_sim.Dftl.Ready.{IsReady, finish_runs}

-- How a trim of a mapped page stops: the device has no block for the page, or does not let it be
-- invalidated, or else the page -1 is entered into the reverse map.
abbrev pub Stops : {S : Type 0} → Controller S → Options → ℕ → S → Fault → Type 0
Stops {S} k o ppn s fault =
    let a = of_linear o.geometry ppn page_level in
    ((k.get_block_pointer s a ≡ none) × (fault ≡ null_pointer))
    ⊎ ((b : ℕ) × (k.get_block_pointer s a ≡ some b)
        × ((k.invalidate_page s b a.page ≡ abort fault)
            ⊎ ((s' : S) × (k.invalidate_page s b a.page ≡ ok s') × (fault ≡ out_of_range))))

module _ {S : Type 0} (k : Controller S) (o : Options) (oldest : List MPage → Option ℕ)
    (issuing : IsIssuing k) (finds : Finds oldest) where
  evict_specific_runs :
      (i : ℕ) (p : MPage) (e : Event) (f : Dftl) (w : World S)
      → IsCache f
      → get_elem? f.trans_map i ≡ some p
      → (a : After S) × (evict_specific_page_from_cache k o oldest i e f w ≡ ok a)
  unfolding evict_specific_page_from_cache
  evict_specific_runs i p e f w h found = elim (Bool-cases p.cached) [
    | inr out ↦ (record { event = e; ftl = f; world = w }, ground (arith, found, out))
    | inl cached ↦
        let (a, dropped, _, _, _, _) = evict-drops k o oldest issuing i p e f w h found cached in
        (a, ground (arith, found, cached, dropped))
  ]

  unmap_aborts :
      (p : MPage) (ppn : ℕ) (e : Event) (f : Dftl) (w : World S)
      → IsCache f
      → get_elem? f.trans_map (u32 e.logical_address) ≡ some p
      → (fault : Fault) × (unmap k o oldest p ppn e f w ≡ abort fault)
        × Stops k o ppn w.device fault
  unfolding unmap update_translation_map
  unmap_aborts p ppn e f w h found =
      let a = of_linear o.geometry ppn page_level in
      elim (Option-cases (k.get_block_pointer w.device a)) [
        | inl missing ↦ (null_pointer, ground (arith, missing), inl (missing, refl))
        | inr (b, there) ↦ elim (Run-cases (k.invalidate_page w.device b a.page)) [
          | inl (device, invalidated) ↦
              let (a, evicted) =
                evict_specific_runs (u32 e.logical_address) p e f (record w { device = device }) h
                  found in
              (
                out_of_range,
                ground (arith, there, invalidated, evicted),
                inr (b, there, inr (device, invalidated, refl)),
              )
          | inr (fault, refused) ↦
              (fault, ground (arith, there, refused), inr (b, there, inl refused))
        ]
      ]

  -- On a layer that IsReady (Dftl/Ready), with a controller that carries out every request and
  -- an index that finds a cached entry whenever there is one, a trim of a logical address that
  -- has no page returns and leaves the layer as it is. A trim of one that has a page never
  -- returns, on any device: it goes through a null pointer if the device has no block for the
  -- page, ends as the invalidation of the page ends if that stops, and else with a write
  -- outside an array, since it enters the page -1 into the reverse map.
  pub trim_ends :
      (e : Event) (f : Dftl) (w : World S) (target : Option ℕ)
      → IsReady f
      → get_elem? (mapping f) e.logical_address ≡ some target
      → ((target ≡ none) × (r : Answer S) × (trim k o oldest e f w ≡ ok r) × (r.ftl ≡ f))
        ⊎ ((ppn : ℕ) × (fault : Fault) × (target ≡ some ppn)
            × (trim k o oldest e f w ≡ abort fault)
            × Stops k o ppn w.device fault)
  unfolding trim unmap_if_mapped set_address
  trim_ends e f w target h aimed =
      let (p, found, names) =
        get_elem?_of_map (λ (q : MPage). q.ppn) f.trans_map e.logical_address target aimed in
      let small : u32 e.logical_address ≡ e.logical_address =
        mod-eq_of_lt
          (omega (arith, lt-length_of_get_elem? f.trans_map e.logical_address p found, h.word)) in
      let addressed = set_address e (of_linear o.geometry 0 page_level) in
      let here : get_elem? f.trans_map (u32 e.logical_address) ≡ some p = rw small found in
      elim (Option-cases target) [
        | inl unmapped ↦
            let counted = record w {
              stats = record w.stats { num_ftl_trim = w.stats.num_ftl_trim + 1 };
            } in
            let (r, done, left, _) = finish_runs k addressed f counted issuing in
            inl (unmapped, r, ground (arith, here, names, unmapped, done), left)
        | inr (ppn, mapped) ↦
            let (fault, stopped, stops) = unmap_aborts p ppn addressed f w h.valid here in
            inr (ppn, fault, mapped, ground (arith, here, names, mapped, stopped), stops)
      ]

-- ===== src/Dftl/Start.antt =====
-- The layer that the constructor of OriginalFlashSim/FTLs/dftl_parent.cpp makes.
use native.Mathlib.Nat.{
  div-add-mod, div-lt_iff_lt-mul, mul-le-mul_right, mul-zero, suc-mul, mul_comm,
}
use test_flash_sim.Base.{
  ℕ, zero, suc, ◌+◌, ◌-◌, ◌*◌, ◌/◌, ◌%◌, ◌≤◌, ◌<◌, ◌≡◌, ◌∙◌, refl, sym, ap, subst, false, none,
  some, List, ◌∷◌, arith, length, get_elem?, replicate, map, u32,
}
use test_flash_sim.Options.{Options}
use test_flash_sim.Dftl.{MPage, new, new_pages}
use test_flash_sim.Dftl.Cache.{num_cached, mapping}
use test_flash_sim.Dftl.Ready.{IsReady}

length-new_pages : (n i : ℕ) → length (new_pages n i) ≡ n
unfolding new_pages
length-new_pages zero i = refl
length-new_pages (suc n) i = ap suc (length-new_pages n (suc i))

num_cached-new_pages : (n i : ℕ) → num_cached (new_pages n i) ≡ 0
unfolding new_pages
num_cached-new_pages zero i = refl
num_cached-new_pages (suc n) i = omega (arith, num_cached-new_pages n (suc i))

map-new_pages : (n i : ℕ) → map (λ (p : MPage). p.ppn) (new_pages n i) ≡ replicate n none
unfolding new_pages
map-new_pages zero i = refl
map-new_pages (suc n) i = ap (◌∷◌ none) (map-new_pages n (suc i))

get_elem?-new_pages :
    (n i j : ℕ) (p : MPage)
    → get_elem? (new_pages n i) j ≡ some p
    → (p.vpn ≡ i + j) × (p.cached ≡ false)
unfolding new_pages
get_elem?-new_pages zero i j p h = absurd (cc)
get_elem?-new_pages (suc n) i zero p h = (ground arith, ground arith)
get_elem?-new_pages (suc n) i (suc j) p h =
    let (place, out) = get_elem?-new_pages n (suc i) j p h in (omega (arith, place), out)

-- Translation pages of `q` entries, `n` of them, are whole.
whole_of_multiple : (n q i : ℕ) → i < n * q → i - i % q + q ≤ n * q
whole_of_multiple n zero i inside = absurd (omega (arith, mul-zero n))
whole_of_multiple n (suc q) i inside =
    let split = div-add-mod i (suc q) in
    let below : i / suc q < n = (div-lt_iff_lt-mul (omega arith)).1 inside in
    let rows = mul-le-mul_right (suc q) below in
    omega (arith, split, rows, suc-mul (i / suc q) (suc q), mul_comm (suc q) (i / suc q))

pub new-IsReady :
    (o : Options) (unset : List ℕ) (n : ℕ)
    → 0 < (new o unset).total_cmt_entries
    → u32 (o.number_of_addressable_blocks * o.block_size) ≡ n * (new o unset).address_per_page
    → IsReady (new o unset)
      × (mapping (new o unset)
          ≡ replicate (u32 (o.number_of_addressable_blocks * o.block_size)) none)
unfolding new
new-IsReady o unset n pos whole =
    let pages = u32 (o.number_of_addressable_blocks * o.block_size) in
    let size = length-new_pages pages 0 in
    (
      record {
        valid = record {
          counted = sym (num_cached-new_pages pages 0);
          entries = λ i p found.
              let (place, out) = get_elem?-new_pages pages 0 i p found in
              (omega (arith, place), λ cached. absurd (cc));
          whole = λ i inside.
              let split = sym whole ∙ sym size in
              subst
                (λ (m : ℕ).
                  i - i % (new o unset).address_per_page + (new o unset).address_per_page ≤ m)
                split
                (whole_of_multiple n (new o unset).address_per_page i
                  (omega (arith, inside, split)));
        };
        has_cache = pos;
        bounded = omega arith;
        word = omega (arith, size);
      },
      map-new_pages pages 0,
    )

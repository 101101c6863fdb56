-- ===== src/Block/Counts.antt =====
-- Counting the pages of a block by state.
use test_flash_sim.Base.{ℕ, ◌+◌, ◌≡◌, refl, List, [], ◌∷◌, map, arith, length, count}
use test_flash_sim.Page.{Page, is_empty, is_valid, is_invalid}
use test_flash_sim.Page

abbrev pub empties : List Page → ℕ
empties = count (λ p. is_empty p.state)

abbrev pub valids : List Page → ℕ
valids = count (λ p. is_valid p.state)

abbrev pub invalids : List Page → ℕ
invalids = count (λ p. is_invalid p.state)

pub counts-length : (ps : List Page) → empties ps + valids ps + invalids ps ≡ length ps
counts-length [] = refl
counts-length (p ∷ ps) = ground (arith, counts-length ps)

pub erased_counts :
    (ps : List Page)
    → let qs = map (λ p. Page.set_state p Page.empty) ps in
      (empties qs ≡ length ps) × (valids qs ≡ 0) × (invalids qs ≡ 0) × (length qs ≡ length ps)
unfolding Page.set_state
erased_counts [] = (refl, refl, refl, refl)
erased_counts (p ∷ ps) =
    let ih = erased_counts ps in
    (omega (arith, ih.0), omega (arith, ih.1), omega (arith, ih.2), omega (arith, ih.3))

-- ===== src/Base/Slices.antt =====
-- Parts of lists: `memcpy`, and what is read back of it.
use Prim.Native.Nat.{ℕ, zero, suc, ◌+◌, ◌≤◌}
use mathlib.Core.Path.{◌≡◌, refl, ap}
use mathlib.Core.List.{List, [], ◌∷◌}
use native.Mathlib.Omega.{arith}
use test_flash_sim.Base.Lists.{length}

module _ {ℓ} {A : Type ℓ} where
  abbrev pub take : ℕ → List A → List A
  take zero xs = []
  take (suc n) [] = []
  take (suc n) (x ∷ xs) = x ∷ take n xs

  abbrev pub drop : ℕ → List A → List A
  drop zero xs = xs
  drop (suc n) [] = []
  drop (suc n) (x ∷ xs) = drop n xs

  -- A list written over another, from its start: what does not fit is left out.
  abbrev pub overlay : List A → List A → List A
  overlay [] xs = xs
  overlay (y ∷ ys) [] = []
  overlay (y ∷ ys) (x ∷ xs) = y ∷ overlay ys xs

  -- The same from a place on.
  abbrev pub overwrite : ℕ → List A → List A → List A
  overwrite zero ys xs = overlay ys xs
  overwrite (suc i) ys [] = []
  overwrite (suc i) ys (x ∷ xs) = x ∷ overwrite i ys xs

module _ {ℓ} {A : Type ℓ} where
  pub length-overlay : (ys xs : List A) → length (overlay ys xs) ≡ length xs
  length-overlay [] xs = refl
  length-overlay (y ∷ ys) [] = refl
  length-overlay (y ∷ ys) (x ∷ xs) = ap suc (length-overlay ys xs)

  pub length-overwrite : (i : ℕ) (ys xs : List A) → length (overwrite i ys xs) ≡ length xs
  length-overwrite zero ys xs = length-overlay ys xs
  length-overwrite (suc i) ys [] = refl
  length-overwrite (suc i) ys (x ∷ xs) = ap suc (length-overwrite i ys xs)

  -- One list over another that is as long.
  pub overlay_whole : (ys xs : List A) → length ys ≡ length xs → overlay ys xs ≡ ys
  overlay_whole [] [] h = refl
  overlay_whole [] (x ∷ xs) h = absurd (omega arith)
  overlay_whole (y ∷ ys) [] h = absurd (omega arith)
  overlay_whole (y ∷ ys) (x ∷ xs) h = ap (◌∷◌ y) (overlay_whole ys xs (omega arith))

  take-overlay : (ys xs : List A) → length ys ≤ length xs → take (length ys) (overlay ys xs) ≡ ys
  take-overlay [] xs h = refl
  take-overlay (y ∷ ys) [] h = absurd (omega arith)
  take-overlay (y ∷ ys) (x ∷ xs) h = ap (◌∷◌ y) (take-overlay ys xs (omega arith))

  -- What was written is read back.
  pub take-overwrite :
      (i : ℕ) (ys xs : List A)
      → i + length ys ≤ length xs
      → take (length ys) (drop i (overwrite i ys xs)) ≡ ys
  take-overwrite zero ys xs h = take-overlay ys xs (omega arith)
  take-overwrite (suc i) ys [] h = absurd (omega arith)
  take-overwrite (suc i) ys (x ∷ xs) h = take-overwrite i ys xs (omega arith)

-- ===== src/Base/Maps.antt =====
-- What `map` does to the reads, the writes and the counts of a list.
use Prim.Native.Nat.{ℕ, zero, suc}
use mathlib.Core.Path.{◌≡◌, refl, ap}
use mathlib.Core.Bool.{Bool}
use mathlib.Core.Option.{some}
use mathlib.Core.List.{List, [], ◌∷◌, map}
use native.Mathlib.Omega.{arith}
use test_flash_sim.Base.Lists.{length, get_elem?, set, count}

module _ {ℓ κ} {A : Type ℓ} {B : Type κ} where
  pub length-map : (g : A → B) (xs : List A) → length (map g xs) ≡ length xs
  length-map g [] = refl
  length-map g (x ∷ xs) = ap suc (length-map g xs)

  pub map-set :
      (g : A → B) (xs : List A) (i : ℕ) (v : A) → map g (set xs i v) ≡ set (map g xs) i (g v)
  map-set g [] i v = refl
  map-set g (x ∷ xs) zero v = refl
  map-set g (x ∷ xs) (suc i) v = ap (◌∷◌ (g x)) (map-set g xs i v)

  -- A write of what looks the same.
  pub map-set_same :
      (g : A → B) (xs : List A) (i : ℕ) (x v : A)
      → get_elem? xs i ≡ some x
      → g v ≡ g x
      → map g (set xs i v) ≡ map g xs
  map-set_same g [] i x v h e = refl
  map-set_same g (y ∷ xs) zero x v h e =
      let same : g v ≡ g y = ground arith in ap (λ z. z ∷ map g xs) same
  map-set_same g (y ∷ xs) (suc i) x v h e = ap (◌∷◌ (g y)) (map-set_same g xs i x v h e)

  pub get_elem?-map :
      (g : A → B) (xs : List A) (i : ℕ) (x : A)
      → get_elem? xs i ≡ some x
      → get_elem? (map g xs) i ≡ some (g x)
  get_elem?-map g [] i x h = absurd (cc)
  get_elem?-map g (y ∷ xs) zero x h = ground arith
  get_elem?-map g (y ∷ xs) (suc i) x h = get_elem?-map g xs i x h

  pub get_elem?_of_map :
      (g : A → B) (xs : List A) (i : ℕ) (y : B)
      → get_elem? (map g xs) i ≡ some y
      → (x : A) × (get_elem? xs i ≡ some x) × (g x ≡ y)
  get_elem?_of_map g [] i y h = absurd (cc)
  get_elem?_of_map g (x ∷ xs) zero y h = (x, refl, ground arith)
  get_elem?_of_map g (x ∷ xs) (suc i) y h = get_elem?_of_map g xs i y h

  pub count-map :
      (p : B → Bool) (g : A → B) (xs : List A) → count p (map g xs) ≡ count (λ x. p (g x)) xs
  count-map p g [] = refl
  count-map p g (x ∷ xs) = omega (arith, count-map p g xs)

module _ {ℓ κ κ'} {A : Type ℓ} {B : Type κ} {C : Type κ'} where
  pub map-map : (f : B → C) (g : A → B) (xs : List A) → map f (map g xs) ≡ map (λ x. f (g x)) xs
  map-map f g [] = refl
  map-map f g (x ∷ xs) = ap (◌∷◌ (f (g x))) (map-map f g xs)

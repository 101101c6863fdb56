-- ===== src/Base/Outcome.antt =====
-- How a call ends: with a value, or with the process stopped by a failed `assert`, by a read or
-- write outside an array or through a null pointer (which C++ leaves undefined), or by a thrown
-- `std::bad_alloc`. `out_of_fuel` is no end of the source: it marks a loop of the model that is cut
-- short.
use Prim.Native.Nat.{ℕ}
use mathlib.Core.Path.{◌≡◌, refl}
use mathlib.Core.Logic.{◌⊎◌, inl, inr}
use mathlib.Core.Bool.{Bool, true, false}
use mathlib.Core.Option.{none, some}
use mathlib.Core.List.{List}
use test_flash_sim.Base.Lists.{get_elem?}

pub data Fault : Type 0 where
  assertion out_of_range null_pointer bad_alloc out_of_fuel : Fault

pub data Run {ℓ} (A : Type ℓ) : Type ℓ where
  ok : A → Run A
  abort : Fault → Run A

infixl 5 ◌>>=◌ ◌>>◌
abbrev pub ◌>>=◌ {ℓ κ} : {A : Type ℓ} {B : Type κ} → Run A → (A → Run B) → Run B
ok a >>= f = f a
abort e >>= f = abort e

abbrev pub ◌>>◌ {ℓ} : {B : Type ℓ} → Run (Unit {0}) → Run B → Run B
m >> k = m >>= λ _. k

-- `assert(b)`
abbrev pub guard : Bool → Run (Unit {0})
guard true = ok tt
guard false = abort assertion

-- `xs[i]`
abbrev pub fetch {ℓ} : {A : Type ℓ} → List A → ℕ → Run A
fetch xs i = elim (get_elem? xs i) [ none ↦ abort out_of_range | some x ↦ ok x ]

-- `enum status`
pub data Status : Type 0 where
  failure success : Status

-- To split on how a call ends and keep the equation.
pub Run-cases {ℓ} :
    {A : Type ℓ} (r : Run A) → ((a : A) × (r ≡ ok a)) ⊎ ((f : Fault) × (r ≡ abort f))
Run-cases (ok a) = inl (a, refl)
Run-cases (abort f) = inr (f, refl)

pub Status-cases : (s : Status) → (s ≡ success) ⊎ (s ≡ failure)
Status-cases success = inl refl
Status-cases failure = inr refl

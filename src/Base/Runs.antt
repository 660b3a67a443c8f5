-- ===== src/Base/Runs.antt =====
-- The outcomes of runs of the code's pointer operations, and how a run of two steps is taken
-- apart.
use mathlib.Core.Path.{◌≡◌, refl}
use native.Mathlib.Omega.{arith}

-- What a run of the program's pointer code can come to.
-- `crash` is a null dereference, `hang` a loop that its fuel does not suffice for. `astray` is
-- the model's own limit: a pointer was followed to memory that another object owns.
pub data Outcome {ℓ} (A : Type ℓ) : Type ℓ where
  done : A → Outcome A
  crash hang astray : Outcome A

infixl 5 ◌>>=◌
abbrev pub ◌>>=◌ {ℓ κ} : {A : Type ℓ} {B : Type κ} → Outcome A → (A → Outcome B) → Outcome B
done a >>= f = f a
crash >>= f = crash
hang >>= f = hang
astray >>= f = astray

-- What holds of one result of a run holds of the other.
pub of_done :
    {A : Type 0} (P : A → Type 0) (x y : A) → ◌≡◌ {A = Outcome A} (done x) (done y) → P x → P y
of_done P x y e p = let same : x ≡ y = ground (arith, e) in rw (← same) p

-- A run of two steps that ends went through both.
pub run_of_bind :
    {A B : Type 0} (x : Outcome A) (f : A → Outcome B) (b : B)
    → (x >>= f) ≡ done b
    → (a : A) × (x ≡ done a) × (f a ≡ done b)
run_of_bind (done a) f b e = (a, refl, e)
run_of_bind crash f b e = cc
run_of_bind hang f b e = cc
run_of_bind astray f b e = cc

-- ===== src/Prelude/Defined.antt =====
-- Computations that are defined: no access outside an array and no failed assertion on the way.
use mathlib.Core.Path.{◌≡◌, refl, ◌∙◌, ap}
use mathlib.Core.Bool.{Bool, true, false}
use mathlib.Core.Option.{Option, some}
use libnice4android.Prelude.Tests.{if◌then◌else◌, ◌>>=◌}

pub data IsDefined {ℓ} {A : Type ℓ} (o : Option A) : Type ℓ where
  defined : (a : A) → o ≡ some a → IsDefined o

pub IsDefined-some {ℓ} : {A : Type ℓ} (a : A) → IsDefined (some a)
IsDefined-some a = defined a refl

pub IsDefined-if {ℓ} :
    {A : Type ℓ} (b : Bool) (x y : Option A)
    → (b ≡ true → IsDefined x)
    → (b ≡ false → IsDefined y)
    → IsDefined (if b then x else y)
IsDefined-if true x y h k = h refl
IsDefined-if false x y h k = k refl

pub IsDefined-bind {ℓ κ} :
    {A : Type ℓ} {B : Type κ} (o : Option A) (f : A → Option B)
    → IsDefined o
    → ((a : A) → o ≡ some a → IsDefined (f a))
    → IsDefined (o >>= f)
IsDefined-bind o f (defined a e) h = elim (h a e) [
  | defined b d ↦ defined b (ap (λ t. t >>= f) e ∙ d)
]

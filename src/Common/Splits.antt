-- ===== src/Common/Splits.antt =====
-- Properties of a test and of a choice on a value that may be missing.
use mathlib.Core.Path.{◌≡◌, refl}
use mathlib.Core.Bool.{Bool, true, false}
use mathlib.Core.Option.{Option, none, some}
use chessview.Common.Tests.{if◌then◌else◌}

-- A property of both branches of a test, each where the test has its result.
pub if_split :
    {A : Type 0} (P : A → Type 0) (b : Bool) (x y : A)
    → (b ≡ true → P x)
    → (b ≡ false → P y)
    → P (if b then x else y)
if_split P true x y h k = h refl
if_split P false x y h k = k refl

-- The same for a value that may be missing.
pub option_split :
    {A B : Type 0} (P : B → Type 0) (o : Option A) (x : B) (f : A → B)
    → (o ≡ none → P x)
    → ((a : A) → o ≡ some a → P (f a))
    → P (elim o as (λ _. B) [ none ↦ x | some a ↦ f a ])
option_split P none x f h k = h refl
option_split P (some a) x f h k = k a refl

-- ===== src/Common/Sort.antt =====
-- `Array.prototype.sort` with a comparator: it is stable, and so is this insertion sort.
use mathlib.Core.List.{List, [], ◌∷◌}
use chessview.Common.Tests.{if◌then◌else◌}
use chessview.Common.Int.{ℤ, pos, leb_ℤ}

module _ {ℓ} {A : Type ℓ} (order : A → A → ℤ) where
  -- `x` stands before `y` where the comparator is not positive.
  abbrev pub place : A → List A → List A
  place x [] = x ∷ []
  place x (y ∷ ys) = if leb_ℤ (order x y) (pos 0) then x ∷ y ∷ ys else y ∷ place x ys

  abbrev pub sort : List A → List A
  sort [] = []
  sort (x ∷ xs) = place x (sort xs)

-- ===== src/Common/Numbers.antt =====
-- JavaScript's floating point numbers, as far as the code uses them. `literal` is a literal of the
-- source or `Number(text)`, `of_int` a small integer, and a method keeps the name it has in `Math`.
use Prim.Native.String.{String}
use Prim.Native.Nat.{ℕ, zero, suc}
use mathlib.Core.Bool.{Bool}
use mathlib.Core.List.{List, [], ◌∷◌}
use chessview.Common.Int.{ℤ, pos}

pub record JsNumbers : Type 1 where
  pub Number : Type 0
  pub literal : String → Number
  pub of_int : ℤ → Number
  pub add : Number → Number → Number
  pub sub : Number → Number → Number
  pub mul : Number → Number → Number
  pub div : Number → Number → Number
  pub neg : Number → Number
  pub exp : Number → Number
  pub sqrt : Number → Number
  pub round : Number → Number
  pub abs : Number → Number
  pub sign : Number → Number
  pub max_of : Number → Number → Number
  pub min_of : Number → Number → Number
  pub at_most : Number → Number → Bool
  pub is_finite : Number → Bool

module _ (js : JsNumbers) where
  open js use {Number, of_int, add, mul, div, round, max_of, min_of}

  abbrev pub number : ℕ → Number
  number n = of_int (pos n)

  -- `Math.max(min, Math.min(max, value))`
  abbrev pub clamp : Number → Number → Number → Number
  clamp value least most = max_of least (min_of most value)

  -- `10 ** decimals`
  abbrev pub power_of_ten : ℕ → Number
  power_of_ten zero = number 1
  power_of_ten (suc n) = mul (number 10) (power_of_ten n)

  abbrev pub round_to : Number → ℕ → Number
  round_to value decimals = div (round (mul value (power_of_ten decimals))) (power_of_ten decimals)

  -- `xs.reduce((sum, x) => sum + f(x), 0)`
  abbrev pub sum_from : {A : Type 0} → (A → Number) → Number → List A → Number
  sum_from f total [] = total
  sum_from f total (x ∷ xs) = sum_from f (add total (f x)) xs

-- ===== src/Common/Text.antt =====
-- JavaScript's tests on whole strings.
use Prim.Native.String
use Prim.Native.String.{String}
use Prim.Native.Char.{Char, code}
use Prim.Native.Nat.{ℕ, zero, suc}
use mathlib.Core.List.{List, [], ◌∷◌, ◌++◌}
use text.Mathlib.Text.{◌==◌ as str_eq, find?}
use mathlib.Core.Bool.{Bool, true, false, not, ◌&&◌}
use mathlib.Core.Path.{◌≡◌}
use mathlib.Core.Logic.{◌↔◌, ◌≢◌}
use text.Mathlib.TextEquality.{eq_iff}
use native.Mathlib.Omega.{arith}
use mathlib.Core.Option.{Option, none, some}
use chessview.Common.Tests.{is_some, ◌==◌, ltb, if◌then◌else◌}

-- `s.includes(t)`
abbrev pub includes : String → String → Bool
includes s t = is_some (find? s t)

-- `Boolean(s)` of a string, and of a string that may be null or undefined.
abbrev pub truthy : String → Bool
truthy s = not (str_eq s "")

abbrev pub truthy? : Option String → Bool
truthy? none = false
truthy? (some s) = truthy s

-- `a === b` where either may be null.
abbrev pub same : Option String → Option String → Bool
same none none = true
same none (some _) = false
same (some _) none = false
same (some a) (some b) = str_eq a b

-- `${s}${t}`
abbrev pub concat : String → String → String
concat s t = String.◌++◌ s t

-- The code points of a text. `String` has its own `[]` and `∷`.
abbrev pub codes : String → List ℕ
codes String.[] = []
codes (String.◌∷◌ c s) = code c ∷ codes s

-- The first characters of a text, and those behind them: `s.slice(0, n)` and `s.slice(n)`.
abbrev pub take_text : ℕ → String → String
take_text zero s = ""
take_text (suc n) String.[] = ""
take_text (suc n) (String.◌∷◌ c s) = String.◌∷◌ c (take_text n s)

abbrev pub drop_text : ℕ → String → String
drop_text zero s = s
drop_text (suc n) String.[] = ""
drop_text (suc n) (String.◌∷◌ c s) = drop_text n s

-- `text.split(separator)` of a text as code points, for a separator of one character.
abbrev pub split_from : ℕ → List ℕ → List ℕ → List (List ℕ)
split_from c part [] = part ∷ []
split_from c part (x ∷ xs) =
    if x == c then part ∷ split_from c [] xs else split_from c (part ++ x ∷ []) xs

abbrev pub split : ℕ → List ℕ → List (List ℕ)
split c = split_from c []

-- `s.length`: a character outside the basic plane counts twice.
abbrev pub text_length : String → ℕ
text_length String.[] = 0
text_length (String.◌∷◌ c s) =
    if ltb (code c) 65536 then suc (text_length s) else suc (suc (text_length s))

-- Whether two texts as code points are the same.
unfoldable pub same_codes : List ℕ → List ℕ → Bool
same_codes [] [] = true
same_codes [] (y ∷ ys) = false
same_codes (x ∷ xs) [] = false
same_codes (x ∷ xs) (y ∷ ys) = x == y && same_codes xs ys

pub same_codes_iff : (a b : List ℕ) → (same_codes a b ≡ true) ↔ (a ≡ b)
unfolding same_codes
same_codes_iff [] [] = ground arith
same_codes_iff [] (y ∷ ys) = ground arith
same_codes_iff (x ∷ xs) [] = ground arith
same_codes_iff (x ∷ xs) (y ∷ ys) = ground (arith, same_codes_iff xs ys)

pub truthy_cons : (c : Char) (s : String) → truthy (String.◌∷◌ c s) ≡ true
truthy_cons c s =
    let filled : String.◌∷◌ c s ≢ "" = λ e. cc in ground (arith, eq_iff (String.◌∷◌ c s) "", filled)

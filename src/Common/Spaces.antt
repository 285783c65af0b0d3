-- ===== src/Common/Spaces.antt =====
-- White space in JavaScript: `trim`, and `split` at white space.
use Prim.Native.String
use Prim.Native.String.{String}
use Prim.Native.Char.{code}
use Prim.Native.Nat.{ℕ}
use mathlib.Core.Bool.{Bool, false, not, ◌&&◌, ◌||◌}
use mathlib.Core.List.{List, [], ◌∷◌}
use chessview.Common.Tests.{◌==◌, leb, if◌then◌else◌}
use chessview.Common.Text.{truthy}

-- The white space and line ends that `trim` removes.
abbrev pub is_space : ℕ → Bool
is_space c =
    (leb 9 c && leb c 13)
    || c == 32
    || c == 160
    || c == 5760
    || (leb 8192 c && leb c 8202)
    || c == 8232
    || c == 8233
    || c == 8239
    || c == 8287
    || c == 12288
    || c == 65279

abbrev pub trim_start : String → String
trim_start String.[] = ""
trim_start (String.◌∷◌ c s) = if is_space (code c) then trim_start s else String.◌∷◌ c s

abbrev pub trim_end : String → String
trim_end String.[] = ""
trim_end (String.◌∷◌ c s) =
    let rest = trim_end s in
    if not (truthy rest) && is_space (code c) then "" else String.◌∷◌ c rest

-- `rawContent.trim()`
abbrev pub trim : String → String
trim s = trim_end (trim_start s)

abbrev pub starts_with_space : String → Bool
starts_with_space String.[] = false
starts_with_space (String.◌∷◌ c s) = is_space (code c)

abbrev cons_head : String → List String → List String
cons_head c [] = c ∷ []
cons_head c (w ∷ ws) = String.◌++◌ c w ∷ ws

-- `s.split(/\s+/)`: a run of white space is one separator.
unfoldable pub split_spaces : String → List String
split_spaces String.[] = "" ∷ []
split_spaces (String.◌∷◌ c s) =
    let rest = split_spaces s in
    if not (is_space (code c))
    then cons_head (String.◌∷◌ c "") rest
    else if starts_with_space s
    then rest
    else "" ∷ rest

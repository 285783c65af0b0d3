-- ===== src/Review/Lines.antt =====
-- The lines of the engine as the review reads them,
-- frontend/src/features/game-review-analysis/browserStockfish.ts.
use Prim.Native.Char.{code}
use chessview.Common.{
  ℕ, String, Bool, not, ◌&&◌, ◌||◌, Option, none, some, List, [], ◌∷◌, map, ◌==◌, leb, str_eq,
  ◌or_else◌, if◌then◌else◌,
}
use chessview.Common.Text.{concat, truthy, take_text, drop_text}
use chessview.Common.Spaces.{is_space, trim, trim_start, starts_with_space}
use chessview.Analysis.{ScoreKind}

-- `text.split("\n")`
abbrev extend_head : String → List String → List String
extend_head c [] = c ∷ []
extend_head c (l ∷ ls) = concat c l ∷ ls

unfoldable pub split_lines : String → List String
split_lines String.[] = "" ∷ []
split_lines (String.◌∷◌ c s) =
    let rest = split_lines s in
    if code c == 10 then "" ∷ rest else extend_head (String.◌∷◌ c "") rest

unfoldable pub lines_of : String → List String
lines_of text = map trim (split_lines text)

abbrev pub is_digit : ℕ → Bool
is_digit c = leb 48 c && leb c 57

-- `\w`
abbrev pub is_word : ℕ → Bool
is_word c = is_digit c || (leb 65 c && leb c 90) || c == 95 || (leb 97 c && leb c 122)

-- `\d*` and `\S*` at the front of a text.
unfoldable pub digits_of : String → String
digits_of String.[] = ""
digits_of (String.◌∷◌ c s) =
    let rest = digits_of s in if is_digit (code c) then String.◌∷◌ c rest else ""

unfoldable pub word_of : String → String
word_of String.[] = ""
word_of (String.◌∷◌ c s) =
    let rest = word_of s in if is_space (code c) then "" else String.◌∷◌ c rest

-- The text behind a prefix, and behind `\s+`.
abbrev behind : ℕ → String → String → Option String
behind n prefix s = if str_eq (take_text n s) prefix then some (drop_text n s) else none

abbrev behind_spaces : Option String → Option String
behind_spaces none = none
behind_spaces (some s) = if starts_with_space s then some (trim_start s) else none

-- `-?\d+`
unfoldable pub number_text : Option String → Option String
number_text none = none
number_text (some s) =
    let is_negative = str_eq (take_text 1 s) "-" in
    let digits = digits_of (if is_negative then drop_text 1 s else s) in
    if not (truthy digits) then none else some (if is_negative then concat "-" digits else digits)

abbrev pub with_kind : ScoreKind → Option String → Option (ScoreKind × String)
with_kind kind none = none
with_kind kind (some text) = some (kind, text)

-- `score\s+(cp|mate)\s+(-?\d+)` at the front of a text.
unfoldable pub score_at : String → Option (ScoreKind × String)
score_at s = elim (behind_spaces (behind 5 "score" s)) [
  | none ↦ none
  | some t ↦
      (with_kind ScoreKind.mate (number_text (behind_spaces (behind 4 "mate" t))))
      or_else with_kind ScoreKind.cp (number_text (behind_spaces (behind 2 "cp" t)))
]

-- The first match behind a word boundary.
unfoldable pub find_score : Bool → String → Option (ScoreKind × String)
find_score in_word String.[] = none
find_score in_word (String.◌∷◌ c s) =
    let later = find_score (is_word (code c)) s in
    if in_word then later else score_at (String.◌∷◌ c s) or_else later

unfoldable pub parse_best_move : String → Option String
parse_best_move line = elim (behind_spaces (behind 8 "bestmove" line)) [
  | none ↦ none
  | some t ↦
      (let move = word_of t in
        if not (truthy move) || str_eq move "(none)" then none else some move)
]

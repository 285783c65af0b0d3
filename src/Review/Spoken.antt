-- ===== src/Review/Spoken.antt =====
-- The lines that an engine writes, and how the review reads them,
-- frontend/src/features/game-review-analysis/browserStockfish.ts.
use Prim.Native.Char.{Char, code}
use chessview.Common.{
  ℕ, ◌≡◌, ◌≢◌, refl, ap, ◌∙◌, String, Bool, true, false, not, ◌||◌, Option, none, some, List, [],
  ◌∷◌, ◌++◌, str_eq, eq_iff, arith, if◌then◌else◌,
}
use chessview.Common.Text.{truthy, same_codes}
use chessview.Common.Spaces.{is_space, trim_start}
use chessview.Chess.{Color, Fen}
use chessview.Chess.Editor.{has_letter}
use chessview.Chess.Editor.RoundTrip.{split_from-append}
use chessview.Review.Positions.{has_active, active_part}
use chessview.Review.Lines.{parse_best_move, word_of}

abbrev pub side_code : Color → ℕ
side_code Color.w = b'w'
side_code Color.b = b'b'

abbrev pub is_black : Color → Bool
is_black Color.w = false
is_black Color.b = true

-- A FEN: the pieces, the side to move, and the rest.
abbrev pub fen_with : ℕ → List ℕ → Color → List ℕ → Fen
fen_with first pieces side rest = first ∷ (pieces ++ b' ' ∷ side_code side ∷ b' ' ∷ rest)

-- `has_active 98` behind the split.
abbrev active_is_b : List (List ℕ) → Bool
active_is_b parts =
    elim (elim parts as (λ _. Option Fen) [
      | [] ↦ none
      | part ∷ ps ↦ elim ps as (λ _. Option Fen) [ [] ↦ none | second ∷ others ↦ some second ]
    ])
      as (λ _. Bool) [ none ↦ false | some part ↦ same_codes part (98 ∷ []) ]

pub has_active-side :
    (first : ℕ) (pieces : List ℕ) (side : Color) (rest : List ℕ)
    → has_letter b' ' (first ∷ pieces) ≡ false
    → has_active 98 (fen_with first pieces side rest) ≡ is_black side
unfolding has_active active_part same_codes
has_active-side first pieces Color.w rest h =
    ap active_is_b (split_from-append b' ' [] (first ∷ pieces) (b'w' ∷ b' ' ∷ rest) h)
has_active-side first pieces Color.b rest h =
    ap active_is_b (split_from-append b' ' [] (first ∷ pieces) (b'b' ∷ b' ' ∷ rest) h)

-- One text before another.
abbrev pub before : String → String → String
before String.[] s = s
before (String.◌∷◌ c w) s = String.◌∷◌ c (before w s)

-- No character is white space.
abbrev pub IsWord : String → Type 0
IsWord String.[] = Unit
IsWord (String.◌∷◌ c s) = (is_space (code c) ≡ false) × IsWord s

-- Nothing, or text behind white space.
abbrev pub IsApart : String → Type 0
IsApart String.[] = Unit
IsApart (String.◌∷◌ c s) = is_space (code c) ≡ true

word_of-before : (w s : String) → IsWord w → IsApart s → word_of (before w s) ≡ w
unfolding word_of
word_of-before String.[] String.[] h k = refl
word_of-before String.[] (String.◌∷◌ c s) h k = rw k refl
word_of-before (String.◌∷◌ c w) s h k = rw h.0 (ap (String.◌∷◌ c) (word_of-before w s h.1 k))

-- The engine's best move: "bestmove", a move, and what follows; or "(none)".
abbrev pub SaysBest : String → Option String → Type 0
SaysBest line none = line ≡ "bestmove (none)"
SaysBest line (some move) =
    (reply : String) × (line ≡ before "bestmove " (before move reply))
    × IsWord move
    × IsApart reply
    × (move ≢ "")
    × (move ≢ "(none)")

judged :
    (move : String)
    → move ≢ ""
    → move ≢ "(none)"
    → (if not (truthy move) || str_eq move "(none)" then none else some move) ≡ some move
judged move filled told = ground (arith, eq_iff move "", eq_iff move "(none)", filled, told)

pub trim_start_blank :
    (c : Char) (s : String)
    → is_space (code c) ≡ false
    → trim_start (before " " (String.◌∷◌ c s)) ≡ String.◌∷◌ c s
trim_start_blank c s h = rw h refl

best_of :
    (move reply : String)
    → IsWord move
    → IsApart reply
    → move ≢ ""
    → move ≢ "(none)"
    → parse_best_move (before "bestmove " (before move reply)) ≡ some move
unfolding parse_best_move
best_of String.[] reply h k filled told = absurd (filled refl)
best_of (String.◌∷◌ c w) reply h k filled told =
    ap (λ v. if not (truthy v) || str_eq v "(none)" then none else some v)
      (ap word_of (trim_start_blank c (before w reply) h.0)
        ∙ word_of-before (String.◌∷◌ c w) reply h k)
    ∙ judged (String.◌∷◌ c w) filled told

pub parse_best_move-SaysBest :
    (line : String) (best : Option String) → SaysBest line best → parse_best_move line ≡ best
unfolding parse_best_move word_of
parse_best_move-SaysBest line none h = rw h refl
parse_best_move-SaysBest line (some move) h =
    let (reply, e, word, apart, filled, told) = h in
    ap parse_best_move e ∙ best_of move reply word apart filled told

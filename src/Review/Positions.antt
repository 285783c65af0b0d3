-- ===== src/Review/Positions.antt =====
-- Positions, saved moves and comments of PGN as the review reads them,
-- frontend/src/features/game-review-analysis/gameReviewReport.ts.
use chessview.Common.{
  ℕ, zero, suc, String, Bool, false, not, ◌&&◌, ◌||◌, Option, none, some, List, [], ◌∷◌, ◌==◌, leb,
  if◌then◌else◌,
}
use chessview.Common.Int.{ℤ, pos, ◌+ℤ◌, ◌-ℤ◌, sub_ℕ, to_nat}
use chessview.Common.Text.{codes, truthy, split, same_codes, take_text, drop_text}
use chessview.Chess.{Fen, Color, PieceSymbol, Piece, BoardPiece, ParsedUciMove, Throws}
use chessview.Review.{ChessViewReviewMove}

-- `PIECE_VALUES`
unfoldable pub piece_value : PieceSymbol → ℕ
piece_value PieceSymbol.pawn = 100
piece_value PieceSymbol.knight = 320
piece_value PieceSymbol.bishop = 330
piece_value PieceSymbol.rook = 500
piece_value PieceSymbol.queen = 900
piece_value PieceSymbol.king = 0

-- `fen.split(" ")[0]`
unfoldable pub placement : Fen → Fen
placement fen = elim (split 32 fen) [ [] ↦ [] | part ∷ parts ↦ part ]

-- `fen.split(" ")[1]`
unfoldable pub active_part : Fen → Option Fen
active_part fen = elim (split 32 fen) [
  | [] ↦ none
  | part ∷ parts ↦ elim parts [ [] ↦ none | second ∷ others ↦ some second ]
]

-- `fen.split(" ")[1] === "w"`, or `"b"`, given as its code.
unfoldable pub has_active : ℕ → Fen → Bool
has_active c fen = elim (active_part fen) [ none ↦ false | some part ↦ same_codes part (c ∷ []) ]

unfoldable pub add_piece : ℤ → Option BoardPiece → ℤ
add_piece balance none = balance
add_piece balance (some p) = elim p.piece.color [
  | Color.w ↦ balance +ℤ pos (piece_value p.piece.kind)
  | Color.b ↦ balance -ℤ pos (piece_value p.piece.kind)
]

unfoldable pub add_row : ℤ → List (Option BoardPiece) → ℤ
add_row balance [] = balance
add_row balance (p ∷ ps) = add_row (add_piece balance p) ps

unfoldable pub add_rows : ℤ → List (List (Option BoardPiece)) → ℤ
add_rows balance [] = balance
add_rows balance (row ∷ rows) = add_rows (add_row balance row) rows

-- `/^[a-h][1-8][a-h][1-8][qrbn]?$/.test(uci)`
abbrev is_file : ℕ → Bool
is_file c = leb 97 c && leb c 104

abbrev is_rank : ℕ → Bool
is_rank c = leb 49 c && leb c 56

abbrev is_promotion : ℕ → Bool
is_promotion c = c == 113 || c == 114 || c == 98 || c == 110

unfoldable pub is_uci : List ℕ → Bool
is_uci (a ∷ b ∷ c ∷ d ∷ []) = is_file a && is_rank b && is_file c && is_rank d
is_uci (a ∷ b ∷ c ∷ d ∷ p ∷ []) = is_file a && is_rank b && is_file c && is_rank d && is_promotion p
is_uci _ = false

-- The promotion of a text that passes the test is its fifth character, which is not a capital.
unfoldable pub parse_review_move : String → Throws ParsedUciMove
parse_review_move uci =
    if not (is_uci (codes uci))
    then none
    else some (record {
      from = take_text 2 uci;
      to = take_text 2 (drop_text 2 uci);
      promotion =
          (let promotion = take_text 1 (drop_text 4 uci) in
            if truthy promotion then some promotion else none);
    })

unfoldable pub player_material_loss : ℤ → ℤ → Color → ℕ
player_material_loss before after Color.w = to_nat (before -ℤ after)
player_material_loss before after Color.b = to_nat (after -ℤ before)

abbrev pub value_of : Option Piece → ℕ
value_of none = 0
value_of (some p) = piece_value p.kind

-- `left.move_number - right.move_number`
abbrev pub number_order : ChessViewReviewMove → ChessViewReviewMove → ℤ
number_order left right = sub_ℕ left.move_number right.move_number

-- The text with each `{...}` replaced by a space; the next `k` characters are skipped.
abbrev comment_length : List ℕ → Option ℕ
comment_length [] = none
comment_length (c ∷ cs) =
    let rest = comment_length cs in
    if c == 125
    then some 1
    else if c == 123
    then none
    else elim rest [ none ↦ none | some n ↦ some (suc n) ]

abbrev drop_braces : ℕ → List ℕ → List ℕ
drop_braces k [] = []
drop_braces (suc k) (c ∷ cs) = drop_braces k cs
drop_braces zero (c ∷ cs) = elim (if c == 123 then comment_length cs else none) [
  | none ↦ c ∷ drop_braces zero cs
  | some n ↦ 32 ∷ drop_braces n cs
]

-- The text with each `;...` up to the end of its line replaced by a space.
abbrev drop_line_comments : Bool → List ℕ → List ℕ
drop_line_comments inside [] = []
drop_line_comments inside (c ∷ cs) =
    let goes_on = inside && not (c == 10 || c == 13) in
    let rest = drop_line_comments (goes_on || c == 59) cs in
    if goes_on then rest else if c == 59 then 32 ∷ rest else c ∷ rest

unfoldable pub without_comments : List ℕ → List ℕ
without_comments pgn = drop_line_comments false (drop_braces zero pgn)

-- ===== src/Chess/Validation.antt =====
-- Whether a position can be analysed, frontend/src/shared/lib/chess.ts.
pub mod Check
pub mod Laws
use chessview.Common.{
  ℕ, ◌+◌, ◌-◌, String, Bool, true, false, ◌&&◌, ◌||◌, not, Option, none, some, List, [], ◌∷◌, ltb,
  is_some, if◌then◌else◌,
}
use chessview.Common.Text.{concat}
use chessview.Types.{PlayerColor}
use chessview.Chess.{Fen, Color, ChessJs, Loaded, Throws, game_of, to_chess_color, opposite_color}
use chessview.Chess.Editor.{
  EditorPieceCode, BoardPosition, lookup, is_white, has_letter, castling_token, active_color,
  is_text_b, board_position_from_fen,
}

pub record Counts : Type 0 where
  pub total : ℕ
  pub pawns : ℕ
  pub queens : ℕ
  pub rooks : ℕ
  pub bishops : ℕ
  pub knights : ℕ

abbrev pub no_pieces : Counts
no_pieces = record { total = 0; pawns = 0; queens = 0; rooks = 0; bishops = 0; knights = 0 }

-- The `switch` on the letter of a piece, behind `bucket.total += 1`.
count_piece : EditorPieceCode → Counts → Counts
count_piece EditorPieceCode.w_p c = record c { total = c.total + 1; pawns = c.pawns + 1 }
count_piece EditorPieceCode.b_p c = record c { total = c.total + 1; pawns = c.pawns + 1 }
count_piece EditorPieceCode.w_q c = record c { total = c.total + 1; queens = c.queens + 1 }
count_piece EditorPieceCode.b_q c = record c { total = c.total + 1; queens = c.queens + 1 }
count_piece EditorPieceCode.w_r c = record c { total = c.total + 1; rooks = c.rooks + 1 }
count_piece EditorPieceCode.b_r c = record c { total = c.total + 1; rooks = c.rooks + 1 }
count_piece EditorPieceCode.w_b c = record c { total = c.total + 1; bishops = c.bishops + 1 }
count_piece EditorPieceCode.b_b c = record c { total = c.total + 1; bishops = c.bishops + 1 }
count_piece EditorPieceCode.w_n c = record c { total = c.total + 1; knights = c.knights + 1 }
count_piece EditorPieceCode.b_n c = record c { total = c.total + 1; knights = c.knights + 1 }
count_piece _ c = record c { total = c.total + 1 }

pub record BothCounts : Type 0 where
  pub white : Counts
  pub black : Counts

count_from : BoardPosition → BothCounts → BothCounts
unfolding count_piece
count_from [] c = c
count_from ((square, piece) ∷ entries) c = count_from entries (
    if is_white piece
    then record c { white = count_piece piece c.white }
    else record c { black = count_piece piece c.black })

unfoldable pub count_pieces : BoardPosition → BothCounts
unfolding count_from
count_pieces position = count_from position (record { white = no_pieces; black = no_pieces })

-- One of the `castlingRequirements`.
pub record Requirement : Type 0 where
  pub token : ℕ
  pub king_square : String
  pub rook_square : String
  pub king : EditorPieceCode
  pub rook : EditorPieceCode
  pub label : String

abbrev pub castling_requirements : List Requirement
castling_requirements =
    record {
      token = b'K';
      king_square = "e1";
      rook_square = "h1";
      king = EditorPieceCode.w_k;
      rook = EditorPieceCode.w_r;
      label = "White kingside castling";
    }
    ∷ record {
      token = b'Q';
      king_square = "e1";
      rook_square = "a1";
      king = EditorPieceCode.w_k;
      rook = EditorPieceCode.w_r;
      label = "White queenside castling";
    }
    ∷ record {
      token = b'k';
      king_square = "e8";
      rook_square = "h8";
      king = EditorPieceCode.b_k;
      rook = EditorPieceCode.b_r;
      label = "Black kingside castling";
    }
    ∷ record {
      token = b'q';
      king_square = "e8";
      rook_square = "a8";
      king = EditorPieceCode.b_k;
      rook = EditorPieceCode.b_r;
      label = "Black queenside castling";
    }
    ∷ []

pub EditorPieceCode-discrete : Discrete EditorPieceCode
EditorPieceCode-discrete = hlevel

-- `position[square] === piece`
pub holds : Option EditorPieceCode → EditorPieceCode → Bool
holds none p = false
holds (some q) p = elim (EditorPieceCode-discrete q p) [ yes e ↦ true | no e ↦ false ]

abbrev pub stands : BoardPosition → String → EditorPieceCode → Bool
stands position square p = holds (lookup square position) p

check_castling : BoardPosition → List ℕ → List Requirement → Option String
check_castling position token [] = none
check_castling position token (r ∷ rs) =
    if not (has_letter r.token token)
    then check_castling position token rs
    else if not (stands position r.king_square r.king) || not (stands position r.rook_square r.rook)
    then some (concat r.label " is enabled, but the king and rook are not on their home squares.")
    else check_castling position token rs

unfoldable pub get_castling_validation_error : BoardPosition → List ℕ → Option String
unfolding check_castling
get_castling_validation_error position token = check_castling position token castling_requirements

abbrev pub promoted_pieces_needed : Counts → ℕ
promoted_pieces_needed c = (c.queens - 1) + (c.rooks - 2) + (c.bishops - 2) + (c.knights - 2)

-- The body of the loop over the two colours. Behind the first test `8 - pawns` is not negative.
pub check_material : String → Counts → Option String
check_material label c =
    if ltb 8 c.pawns
    then some (concat label " has more than eight pawns.")
    else if ltb 16 c.total
    then some (concat label " has more than sixteen pieces on the board.")
    else if ltb (8 - c.pawns) (promoted_pieces_needed c)
    then some (concat label " has more promoted material than its missing pawns allow.")
    else none

pub first_error : Option String → Option String → Option String
first_error (some e) next = some e
first_error none next = next

unfoldable pub get_material_validation_error : BoardPosition → Option String
get_material_validation_error position =
    first_error (check_material "White" (count_pieces position).white)
      (check_material "Black" (count_pieces position).black)

-- ===== src/Chess/Editor.antt =====
-- The board editor of frontend/src/shared/lib/chess.ts: positions, the metadata of a FEN, and the
-- FEN of an edited board.
pub mod RoundTrip
use chessview.Common.{
  ℕ, suc, ◌+◌, String, Bool, true, false, ◌||◌, Option, none, some, List, [], ◌∷◌, ◌++◌, map, ◌==◌,
  ltb, any, str_eq, if◌then◌else◌, get_elem?, ◌or◌,
}
use chessview.Common.Text.{codes, concat, split}
use chessview.Types.{PlayerColor}
use chessview.Chess.{Fen, Color, PieceSymbol, Piece, BoardPiece, ChessJs, Loaded, Throws, game_of}

-- "wP", "wN", and so on.
pub data EditorPieceCode : Type 0 where
  w_p w_n w_b w_r w_q w_k b_p b_n b_b b_r b_q b_k : EditorPieceCode

-- `piece[0] === "w"`
abbrev pub is_white : EditorPieceCode → Bool
is_white EditorPieceCode.w_p = true
is_white EditorPieceCode.w_n = true
is_white EditorPieceCode.w_b = true
is_white EditorPieceCode.w_r = true
is_white EditorPieceCode.w_q = true
is_white EditorPieceCode.w_k = true
is_white _ = false

-- `piece[1]`, a capital letter.
abbrev pub letter : EditorPieceCode → ℕ
letter EditorPieceCode.w_p = b'P'
letter EditorPieceCode.w_n = b'N'
letter EditorPieceCode.w_b = b'B'
letter EditorPieceCode.w_r = b'R'
letter EditorPieceCode.w_q = b'Q'
letter EditorPieceCode.w_k = b'K'
letter EditorPieceCode.b_p = b'P'
letter EditorPieceCode.b_n = b'N'
letter EditorPieceCode.b_b = b'B'
letter EditorPieceCode.b_r = b'R'
letter EditorPieceCode.b_q = b'Q'
letter EditorPieceCode.b_k = b'K'

-- `${piece.color}${piece.type.toUpperCase()}`
unfoldable pub piece_code : Piece → EditorPieceCode
piece_code p = go p.color p.kind
  where
    go : Color → PieceSymbol → EditorPieceCode
    go Color.w PieceSymbol.pawn = EditorPieceCode.w_p
    go Color.w PieceSymbol.knight = EditorPieceCode.w_n
    go Color.w PieceSymbol.bishop = EditorPieceCode.w_b
    go Color.w PieceSymbol.rook = EditorPieceCode.w_r
    go Color.w PieceSymbol.queen = EditorPieceCode.w_q
    go Color.w PieceSymbol.king = EditorPieceCode.w_k
    go Color.b PieceSymbol.pawn = EditorPieceCode.b_p
    go Color.b PieceSymbol.knight = EditorPieceCode.b_n
    go Color.b PieceSymbol.bishop = EditorPieceCode.b_b
    go Color.b PieceSymbol.rook = EditorPieceCode.b_r
    go Color.b PieceSymbol.queen = EditorPieceCode.b_q
    go Color.b PieceSymbol.king = EditorPieceCode.b_k

-- An object from squares to pieces: its entries, each square once.
abbrev pub BoardPosition : Type 0
BoardPosition = List (String × EditorPieceCode)

abbrev pub lookup : String → BoardPosition → Option EditorPieceCode
lookup k [] = none
lookup k ((j, p) ∷ m) = if str_eq j k then some p else lookup k m

abbrev pub insert : String → EditorPieceCode → BoardPosition → BoardPosition
insert k p [] = (k, p) ∷ []
insert k p ((j, q) ∷ m) = if str_eq j k then (k, p) ∷ m else (j, q) ∷ insert k p m

-- The two loops of `boardPositionFromFen`, over the rows and within a row.
fill_row : List (Option BoardPiece) → BoardPosition → BoardPosition
fill_row [] position = position
fill_row (none ∷ row) position = fill_row row position
fill_row (some p ∷ row) position = fill_row row (insert p.square (piece_code p.piece) position)

fill_rows : List (List (Option BoardPiece)) → BoardPosition → BoardPosition
fill_rows [] position = position
fill_rows (row ∷ rows) position = fill_rows rows (fill_row row position)

unfoldable pub board_position_from_fen : (js : ChessJs) → Fen → Throws BoardPosition
unfolding fill_rows fill_row piece_code
board_position_from_fen js fen = elim (js.load fen) [
  | Loaded.loaded game ↦ some (fill_rows (js.board game) [])
  | Loaded.thrown message ↦ none
]

pub record FenMetadata : Type 0 where
  pub turn : PlayerColor
  pub white_kingside : Bool
  pub white_queenside : Bool
  pub black_kingside : Bool
  pub black_queenside : Bool

-- `token.includes(letter)`
abbrev pub has_letter : ℕ → List ℕ → Bool
has_letter c = any (λ x. x == c)

abbrev pub is_text_b : List ℕ → Bool
is_text_b (c ∷ []) = c == b'b'
is_text_b _ = false

-- The second and the third field of a FEN, with their defaults.
abbrev pub active_color : Fen → List ℕ
active_color fen = get_elem? (split b' ' fen) 1 or (b'w' ∷ [])

abbrev pub castling_token : Fen → List ℕ
castling_token fen = get_elem? (split b' ' fen) 2 or (b'-' ∷ [])

unfoldable pub fen_metadata_from_fen : Fen → FenMetadata
fen_metadata_from_fen fen = record {
  turn = if is_text_b (active_color fen) then PlayerColor.black else PlayerColor.white;
  white_kingside = has_letter b'K' (castling_token fen);
  white_queenside = has_letter b'Q' (castling_token fen);
  black_kingside = has_letter b'k' (castling_token fen);
  black_queenside = has_letter b'q' (castling_token fen);
}

abbrev pub board_files : List String
board_files = "a" ∷ "b" ∷ "c" ∷ "d" ∷ "e" ∷ "f" ∷ "g" ∷ "h" ∷ []

abbrev pub board_ranks : List String
board_ranks = "8" ∷ "7" ∷ "6" ∷ "5" ∷ "4" ∷ "3" ∷ "2" ∷ "1" ∷ []

-- `symbol` or `symbol.toLowerCase()`
abbrev pub symbol : EditorPieceCode → ℕ
symbol p = if is_white p then letter p else letter p + 32

-- `row += String(emptyCount)` if there is a count; it has one digit.
abbrev pub flush : ℕ → List ℕ → List ℕ
flush empty row = if ltb 0 empty then row ++ (b'0' + empty) ∷ [] else row

-- The loop over the files of a rank, and what follows it.
pub row_text : List (Option EditorPieceCode) → ℕ → List ℕ → List ℕ
row_text [] empty row = flush empty row
row_text (none ∷ cells) empty row = row_text cells (suc empty) row
row_text (some p ∷ cells) empty row = row_text cells 0 (flush empty row ++ symbol p ∷ [])

-- `row || "8"`
abbrev or_eight : List ℕ → List ℕ
or_eight [] = b'8' ∷ []
or_eight (c ∷ cs) = c ∷ cs

-- What stands on the squares of a rank.
abbrev pub cells : BoardPosition → String → List (Option EditorPieceCode)
cells position rank = map (λ file. lookup (concat file rank) position) board_files

-- `rows.join("/")`
abbrev join : List (List ℕ) → List ℕ
join [] = []
join (row ∷ []) = row
join (row ∷ next ∷ rows) = row ++ b'/' ∷ join (next ∷ rows)

unfoldable pub fen_placement_from_board_position : BoardPosition → List ℕ
unfolding row_text
fen_placement_from_board_position position =
    join (map (λ rank. or_eight (row_text (cells position rank) 0 [])) board_ranks)

abbrev letter_if : Bool → ℕ → List ℕ
letter_if b c = if b then c ∷ [] else []

abbrev or_dash : List ℕ → List ℕ
or_dash [] = b'-' ∷ []
or_dash (c ∷ cs) = c ∷ cs

unfoldable pub fen_castling_token : FenMetadata → List ℕ
fen_castling_token m = or_dash (
    letter_if m.white_kingside b'K'
    ++ (letter_if m.white_queenside b'Q'
        ++ (letter_if m.black_kingside b'k' ++ letter_if m.black_queenside b'q')))

-- `metadata.turn === "black" ? "b" : "w"`
unfoldable pub turn_letter : PlayerColor → ℕ
turn_letter PlayerColor.black = b'b'
turn_letter PlayerColor.white = b'w'

-- The FEN that `buildFenFromEditorState` tries.
unfoldable pub editor_fen : BoardPosition → FenMetadata → Fen
unfolding turn_letter
editor_fen position m =
    fen_placement_from_board_position position
    ++ b' ' ∷ turn_letter m.turn ∷ b' ' ∷ (fen_castling_token m ++ codes " - 0 1")

-- `{ fen, error }`
pub record EditorFen : Type 0 where
  pub fen : Option Fen
  pub error : Option String

unfoldable pub build_fen_from_editor_state :
    (js : ChessJs) → BoardPosition → FenMetadata → EditorFen
build_fen_from_editor_state js position m = elim (js.load (editor_fen position m)) [
  | Loaded.loaded game ↦ record { fen = some (editor_fen position m); error = none }
  | Loaded.thrown message ↦ record { fen = none; error = some message }
]

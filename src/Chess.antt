-- ===== src/Chess.antt =====
-- The chess helpers of the front end, frontend/src/shared/lib/chess.ts. The library chess.js, which
-- knows the rules, is the parameter `ChessJs`. A FEN is a text as code points; squares, moves and
-- messages are `String`.
pub mod Editor
pub mod Validation
pub mod Moves
use chessview.Common.{ℕ, String, Bool, Option, none, some, List}
use chessview.Types.{PlayerColor}

abbrev pub Fen : Type 0
Fen = List ℕ

-- "w" and "b"
pub data Color : Type 0 where
  w b : Color

pub data PieceSymbol : Type 0 where
  pawn knight bishop rook queen king : PieceSymbol

pub record Piece : Type 0 where
  pub color : Color
  pub kind : PieceSymbol

-- An entry of `game.board()`.
pub record BoardPiece : Type 0 where
  pub square : String
  pub piece : Piece

pub record Move : Type 0 where
  pub color : Color
  pub from : String
  pub to : String
  pub promotion : Option String
  pub san : String

-- `{ from, to, promotion? }`
pub record ParsedUciMove : Type 0 where
  pub from : String
  pub to : String
  pub promotion : Option String

-- `new Chess(fen)`: a game, or the message of the error that it throws.
pub data Loaded (G : Type 0) : Type 0 where
  loaded : G → Loaded G
  thrown : String → Loaded G

-- What the code uses of chess.js. A method that throws returns `none`; a move returns the game
-- after it, since `move` changes the object.
pub record ChessJs : Type 1 where
  pub Game : Type 0
  pub load : Fen → Loaded Game
  pub set_turn : Color → Game → Game
  pub turn : Game → Color
  pub board : Game → List (List (Option BoardPiece))
  pub moves : Game → String → List Move
  pub move : Game → ParsedUciMove → Option (Move × Game)
  pub fen : Game → Fen
  pub history_length : Game → ℕ
  pub get : Game → String → Option Piece
  pub is_check : Game → Bool
  pub find_king : Game → Color → List String
  pub attackers : Option (Game → String → Color → List String)

-- The result of code that may throw: `none` is an exception that reaches the caller.
abbrev pub Throws : Type 0 → Type 0
Throws A = Option A

abbrev pub game_of : {G : Type 0} → Loaded G → Throws G
game_of (Loaded.loaded g) = some g
game_of (Loaded.thrown message) = none

infixl 5 ◌>>=◌
abbrev pub ◌>>=◌ : {A B : Type 0} → Throws A → (A → Throws B) → Throws B
none >>= f = none
some a >>= f = f a

unfoldable pub to_chess_color : PlayerColor → Color
to_chess_color PlayerColor.white = Color.w
to_chess_color PlayerColor.black = Color.b

unfoldable pub opposite_color : PlayerColor → PlayerColor
opposite_color PlayerColor.white = PlayerColor.black
opposite_color PlayerColor.black = PlayerColor.white

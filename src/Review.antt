-- ===== src/Review.antt =====
-- The review of a game, frontend/src/features/game-review-analysis: the types that its parts share.
-- A FEN is a list of code points, and an integer is kept apart from the numbers that are computed.
pub mod Classifier
pub mod Positions
pub mod Context
pub mod Report
pub mod Insights
pub mod Lines
pub mod Browser
pub mod Classes
pub mod Rows
pub mod Saved
pub mod Faithful
pub mod Replay
pub mod Measured
pub mod Complete
pub mod Spoken
pub mod Scored
pub mod Waits
pub mod Answers
pub mod Counts
pub mod Pairs
use chessview.Common.{ℕ, String, Bool, Option, List}
use chessview.Common.Numbers.{JsNumbers}
use chessview.Chess.{Fen, Color}

pub data MoveClass : Type 0 where
  best forced great excellent good book inaccuracy mistake miss blunder brilliant : MoveClass

pub record ClassifiedMoveInput : Type 0 where
  pub from : String
  pub to : String
  pub promotion : Option String
  pub color : Option Color
  pub san : Option String
  pub is_book : Option Bool
  pub is_forced : Option Bool
  pub is_best : Option Bool
  pub is_sacrifice : Option Bool

pub record MoveQualityMetrics (N : Type 0) : Type 0 where
  pub win_probability_before : N
  pub win_probability_after : N
  pub win_probability_loss : N
  pub move_accuracy : N
  pub centipawn_loss : N

pub record ChessViewReviewMove : Type 0 where
  pub move_number : ℕ
  pub uci : String
  pub username : String
  pub user_id : Option String
  pub fen_after : Option Fen
  pub created_at : Option String

pub record PlayedReviewMove : Type 0 where
  pub from : String
  pub to : String
  pub promotion : Option String
  pub color : Color
  pub san : String
  pub uci : String
  pub fen_before : Fen
  pub fen_after : Fen
  pub is_book : Option Bool
  pub is_forced : Option Bool
  pub is_best : Option Bool
  pub is_sacrifice : Option Bool

pub data SourceKind : Type 0 where
  pgn chessview_game : SourceKind

pub record GameReviewSource : Type 0 where
  pub kind : SourceKind
  pub game_id : Option String
  pub pgn_text : Option Fen
  pub moves : Option (List ChessViewReviewMove)
  pub final_fen : Option Fen

-- The texts of `verificationError`.
pub data VerificationError : Type 0 where
  saved_position : ℕ → String → VerificationError
  final_position : VerificationError

pub record AnalysisContext : Type 0 where
  pub source : GameReviewSource
  pub fens : List Fen
  pub moves : List PlayedReviewMove
  pub is_verified : Bool
  pub verification_error : Option VerificationError

pub record ReviewReportRow (N : Type 0) : Type 0 where
  pub ply : ℕ
  pub move_number : ℕ
  pub color : Color
  pub from : String
  pub to : String
  pub promotion : Option String
  pub san : String
  pub uci : String
  pub fen_before : Fen
  pub fen_after : Fen
  pub evaluation_before : N
  pub evaluation_after : N
  pub win_probability_before : N
  pub win_probability_after : N
  pub win_probability_loss : N
  pub move_accuracy : N
  pub best_move : Option String
  pub is_best_move : Bool
  pub classification : MoveClass

pub record GameReview (N : Type 0) : Type 0 where
  pub context : AnalysisContext
  pub rows : List (ReviewReportRow N)

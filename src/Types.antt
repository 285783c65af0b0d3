-- ===== src/Types.antt =====
-- The WebSocket and REST contracts, frontend/src/shared/types/index.ts, as far as the modelled
-- parts use them. Counters, ids of messages, ratings and times in milliseconds are natural numbers;
-- texts that the code only stores and compares are `String`; an optional or nullable field is an
-- `Option`. A string union is a data type with a constructor for each text.
pub mod Events
use chessview.Common.{ℕ, String, Bool, Option, List}
use chessview.Common.Int.{ℤ}

pub data ConnectionState : Type 0 where
  idle connecting open_state disconnected error : ConnectionState

pub data PlayerColor : Type 0 where
  white black : PlayerColor

pub data GameStatus : Type 0 where
  active checkmate stalemate draw resigned timeout aborted : GameStatus

-- "1-0", "0-1" and "1/2-1/2"
pub data GameResult : Type 0 where
  white_wins black_wins half : GameResult

pub data TerminationReason : Type 0 where
  checkmate stalemate draw repetition draw_agreement resignation : TerminationReason
  identity_verification_failed clock_timeout disconnect_timeout auto_abort : TerminationReason

-- "1+0", "1+1", and so on: minutes and increment.
pub data TimeControlKey : Type 0 where
  bullet_1_0 bullet_1_1 bullet_1_2 bullet_2_1 : TimeControlKey
  blitz_3_0 blitz_3_1 blitz_3_2 blitz_5_0 blitz_5_3 : TimeControlKey
  rapid_10_0 rapid_15_0 rapid_15_10 : TimeControlKey

pub record PlayerSummary : Type 0 where
  pub id : String
  pub username : String
  pub rating : ℕ
  pub avatar_url : Option String

pub record QueueJoinedPayload : Type 0 where
  pub position : ℕ
  pub time_control : TimeControlKey

pub record MatchFoundPayload : Type 0 where
  pub game_id : String
  pub opponent : PlayerSummary
  pub color : PlayerColor
  pub time_control : TimeControlKey

pub data PauseReason : Type 0 where
  disconnect game_over : PauseReason

pub record ClockState : Type 0 where
  pub time_control_name : String
  pub initial_time_ms : ℕ
  pub increment_ms : ℕ
  pub white_time_ms : ℕ
  pub black_time_ms : ℕ
  pub active_color : Option PlayerColor
  pub is_paused : Bool
  pub pause_reason : Option PauseReason
  pub disconnected_player_id : Option String
  pub grace_deadline_at : Option String
  pub last_updated_at : String

-- `{ uci: string; move_number: number }`
pub record LastMove : Type 0 where
  pub uci : String
  pub move_number : ℕ

pub record GameStatePayload : Type 0 where
  pub fen : String
  pub last_move : Option LastMove
  pub turn : PlayerColor
  pub white : PlayerSummary
  pub black : PlayerSummary
  pub status : GameStatus
  pub termination_reason : Option TerminationReason
  pub clock : ClockState
  pub move_history : List String

-- `{ before: number; after: number; delta: number }`
pub record RatingChange : Type 0 where
  pub before : ℕ
  pub after : ℕ
  pub delta : ℤ

pub record RatingUpdate : Type 0 where
  pub white : RatingChange
  pub black : RatingChange

-- The code guards `status` with `??`, so it may be missing here.
pub record GameOverPayload : Type 0 where
  pub status : Option GameStatus
  pub result : GameResult
  pub reason : TerminationReason
  pub winner_id : Option String
  pub clock : ClockState
  pub rating_update : Option RatingUpdate

pub record ChatMessagePayload : Type 0 where
  pub id : ℕ
  pub user_id : String
  pub username : String
  pub content : String
  pub created_at : String

pub record ErrorPayload : Type 0 where
  pub code : String
  pub message : String

pub record GameMoveResponse : Type 0 where
  pub user_id : String
  pub username : String
  pub uci : String
  pub fen_after : String
  pub move_number : ℕ
  pub created_at : String

pub record GameDetailResponse : Type 0 where
  pub id : String
  pub white : PlayerSummary
  pub black : PlayerSummary
  pub rated : Bool
  pub time_control_name : String
  pub status : GameStatus
  pub termination_reason : Option TerminationReason
  pub result : Option GameResult
  pub fen : String
  pub pgn : Option String
  pub move_count : ℕ
  pub clock : ClockState
  pub white_rating : Option RatingChange
  pub black_rating : Option RatingChange
  pub started_at : String
  pub ended_at : Option String
  pub moves : List GameMoveResponse

-- ===== src/Matchmaking.antt =====
-- The matchmaking store, frontend/src/entities/matchmaking/model.ts.
pub mod Lobby
pub mod Invariant
use chessview.Common.{ℕ, String, Option, none, some}
use chessview.Types.{ConnectionState, ErrorPayload, MatchFoundPayload, TimeControlKey}

pub data QueueStatus : Type 0 where
  idle joining queued leaving matched : QueueStatus

pub record MatchmakingState : Type 0 where
  pub queue_status : QueueStatus
  pub queue_position : Option ℕ
  pub selected_time_control : TimeControlKey
  pub connection_state : ConnectionState
  pub last_error : Option ErrorPayload
  pub last_match : Option MatchFoundPayload

unfoldable pub initial_state : MatchmakingState
initial_state = record {
  queue_status = QueueStatus.idle;
  queue_position = none;
  selected_time_control = TimeControlKey.blitz_5_0;
  connection_state = ConnectionState.idle;
  last_error = none;
  last_match = none;
}

unfoldable pub set_connection_state : ConnectionState → MatchmakingState → MatchmakingState
set_connection_state state s = record s { connection_state = state }

unfoldable pub set_selected_time_control : TimeControlKey → MatchmakingState → MatchmakingState
set_selected_time_control key s = record s { selected_time_control = key }

unfoldable pub set_joining : MatchmakingState → MatchmakingState
set_joining s = record s {
  queue_status = QueueStatus.joining;
  queue_position = none;
  last_error = none;
  last_match = none;
}

unfoldable pub set_queued : ℕ → MatchmakingState → MatchmakingState
set_queued position s = record s {
  queue_status = QueueStatus.queued;
  queue_position = some position;
  last_error = none;
}

unfoldable pub set_leaving : MatchmakingState → MatchmakingState
set_leaving s = record s { queue_status = QueueStatus.leaving; last_error = none }

unfoldable pub clear_queue : MatchmakingState → MatchmakingState
clear_queue s = record s {
  queue_status = QueueStatus.idle;
  queue_position = none;
  last_error = none;
  last_match = none;
}

unfoldable pub set_matched : MatchFoundPayload → MatchmakingState → MatchmakingState
set_matched found s = record s {
  queue_status = QueueStatus.matched;
  queue_position = none;
  last_error = none;
  last_match = some found;
}

unfoldable pub set_error : Option ErrorPayload → MatchmakingState → MatchmakingState
set_error error s = record s { last_error = error }

unfoldable pub reset : MatchmakingState → MatchmakingState
reset s = initial_state

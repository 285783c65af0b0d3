-- ===== src/Game.antt =====
-- The game store, frontend/src/entities/game/model.ts. A setter of the store is a function on its
-- state; `set(partial)` keeps the fields that the partial state leaves out.
pub mod Moves
pub mod Status
pub mod Actions
pub mod Invariant
use chessview.Common.{
  ℕ, String, ◌≡◌, Bool, true, false, Option, none, some, List, [], ◌∷◌, map, ◌or◌, ◌or_else◌,
  str_eq, get_last?, if◌then◌else◌,
}
use chessview.Common.Text.{includes, same}
use chessview.Types.{
  PlayerColor, GameStatus, GameResult, TerminationReason, ClockState, LastMove, ErrorPayload,
  GameStatePayload, GameOverPayload, GameDetailResponse, GameMoveResponse, RatingUpdate,
}
use Moves.{GamePlayer, GameMove, to_game_player, build_move_fallbacks}
use Status.{status_from_game_over, reason_from_status, is_active}

pub record QueuedPremove : Type 0 where
  pub from : String
  pub to : String
  pub uci : String

pub record GameState : Type 0 where
  pub game_id : Option String
  pub fen : String
  pub turn : PlayerColor
  pub status : GameStatus
  pub termination_reason : Option TerminationReason
  pub time_control_name : String
  pub white : Option GamePlayer
  pub black : Option GamePlayer
  pub clock : Option ClockState
  pub my_color : Option PlayerColor
  pub move_history : List String
  pub moves : List GameMove
  pub last_move : Option LastMove
  pub selected_square : Option String
  pub legal_targets : List String
  pub premove : Option QueuedPremove
  pub result : Option GameResult
  pub game_over_reason : Option TerminationReason
  pub winner_id : Option String
  pub error : Option ErrorPayload
  pub is_loading : Bool

unfoldable pub initial_state : GameState
initial_state = record {
  game_id = none;
  fen = "rnbqkbnr/pppppppp/8/8/8/8/PPPPPPPP/RNBQKBNR w KQkq - 0 1";
  turn = PlayerColor.white;
  status = GameStatus.active;
  termination_reason = none;
  time_control_name = "5+0";
  white = none;
  black = none;
  clock = none;
  my_color = none;
  move_history = [];
  moves = [];
  last_move = none;
  selected_square = none;
  legal_targets = [];
  premove = none;
  result = none;
  game_over_reason = none;
  winner_id = none;
  error = none;
  is_loading = false;
}

unfoldable pub set_game : String → Option PlayerColor → GameState → GameState
unfolding initial_state
set_game id color s = record initial_state { game_id = some id; my_color = color }

-- The body of `payload.moves.map(...)`.
abbrev pub to_game_move : GameMoveResponse → GameMove
to_game_move m = record {
  move_number = m.move_number;
  uci = m.uci;
  username = m.username;
  user_id = some m.user_id;
  fen_after = some m.fen_after;
  created_at = some m.created_at;
}

abbrev to_last_move : Option GameMoveResponse → Option LastMove
to_last_move none = none
to_last_move (some m) = some (record { uci = m.uci; move_number = m.move_number })

color_of_user : Option String → GameDetailResponse → Option PlayerColor
color_of_user user payload =
    if same user (some payload.white.id)
    then some PlayerColor.white
    else if same user (some payload.black.id)
    then some PlayerColor.black
    else none

winner_from_result : Option GameResult → GameDetailResponse → Option String
winner_from_result (some GameResult.white_wins) payload = some payload.white.id
winner_from_result (some GameResult.black_wins) payload = some payload.black.id
winner_from_result _ payload = none

unfoldable pub hydrate_game : GameDetailResponse → Option String → GameState → GameState
unfolding color_of_user winner_from_result
hydrate_game payload current_user_id s = record {
  game_id = some payload.id;
  fen = payload.fen;
  turn = if includes payload.fen " w " then PlayerColor.white else PlayerColor.black;
  status = payload.status;
  termination_reason = payload.termination_reason;
  time_control_name = payload.time_control_name;
  white = to_game_player (some payload.white);
  black = to_game_player (some payload.black);
  clock = some payload.clock;
  my_color = s.my_color or_else color_of_user current_user_id payload;
  move_history = map (λ m. m.uci) payload.moves;
  moves = map to_game_move payload.moves;
  last_move = to_last_move (get_last? payload.moves);
  selected_square = none;
  legal_targets = [];
  premove = none;
  result = payload.result;
  game_over_reason =
      payload.termination_reason
      or_else (if is_active payload.status then none else some (reason_from_status payload.status));
  winner_id = winner_from_result payload.result payload;
  error = none;
  is_loading = false;
}

unfoldable pub update_state : GameStatePayload → GameState → GameState
update_state payload s =
    let white = to_game_player (some payload.white) in
    let black = to_game_player (some payload.black) in
    record s {
      fen = payload.fen;
      turn = payload.turn;
      status = payload.status;
      termination_reason = payload.termination_reason;
      white = white;
      black = black;
      clock = some payload.clock;
      move_history = payload.move_history;
      moves = build_move_fallbacks payload.move_history white black s.moves;
      last_move = payload.last_move;
      selected_square = none;
      legal_targets = [];
      error = none;
    }

-- `update && player ? { ...player, rating } : player`
abbrev with_rating : Option ℕ → Option GamePlayer → Option GamePlayer
with_rating (some rating) (some p) = some (record p { rating = rating })
with_rating (some rating) none = none
with_rating none p = p

abbrev white_after : Option RatingUpdate → Option ℕ
white_after none = none
white_after (some u) = some u.white.after

abbrev black_after : Option RatingUpdate → Option ℕ
black_after none = none
black_after (some u) = some u.black.after

unfoldable pub set_game_over : GameOverPayload → GameState → GameState
set_game_over payload s = record s {
  result = some payload.result;
  game_over_reason = some payload.reason;
  winner_id = payload.winner_id;
  status = payload.status or status_from_game_over payload.reason;
  termination_reason = some payload.reason;
  clock = some payload.clock;
  selected_square = none;
  legal_targets = [];
  premove = none;
  white = with_rating (white_after payload.rating_update) s.white;
  black = with_rating (black_after payload.rating_update) s.black;
  error = none;
}

unfoldable pub set_selection : Option String → List String → GameState → GameState
set_selection square targets s = record s { selected_square = square; legal_targets = targets }

unfoldable pub clear_selection : GameState → GameState
clear_selection s = record s { selected_square = none; legal_targets = [] }

unfoldable pub set_premove : Option QueuedPremove → GameState → GameState
set_premove premove s = record s { premove = premove; selected_square = none; legal_targets = [] }

unfoldable pub clear_premove : GameState → GameState
clear_premove s = record s { premove = none }

unfoldable pub set_error : Option ErrorPayload → GameState → GameState
set_error payload s = record s { error = payload }

unfoldable pub set_loading : Bool → GameState → GameState
set_loading loading s = record s { is_loading = loading }

unfoldable pub reset : GameState → GameState
reset s = initial_state

-- ===== src/Examples/PlayExamples.antt =====
-- The theorems on moves, resignation and the events of a game at concrete inputs:
-- frontend/src/features/make-move/index.ts, frontend/src/features/resign-game/model.ts and
-- frontend/src/shared/hooks/useLiveClock.ts.
use chessview.Common.{
  ℕ, ◌+◌, ◌≤◌, String, ◌≡◌, refl, Bool, true, false, not, ◌&&◌, Option, none, some, List, [], ◌∷◌,
  is_some, All, if◌then◌else◌, arith,
}
use chessview.Types.{
  PlayerColor, GameStatus, GameResult, TerminationReason, GameOverPayload, RatingUpdate,
}
use chessview.Game
use chessview.Game.{GameState, set_error}
use chessview.Game.Moves.{to_game_player}
use chessview.Game.Invariant.{IsConsistent, initial_state-IsConsistent}
use chessview.Ws.{Client, ReadyState, new_client}
use chessview.Types.{ConnectionState}
use chessview.MakeMove.Turns.{Board, is_game_over}
use chessview.MakeMove.{on_piece_drop, premove_effect}
use chessview.MakeMove.Sending.Moves.{KeepsOrSends}
use chessview.MakeMove.Sending.{Input, step, run, step-KeepsOrSends}
use chessview.MakeMove.Frame.{SameGame, step-SameGame, run_finished, premove_effect_idem}
use chessview.User
use chessview.User.{AuthenticatedUser, Persisted}
use chessview.Realtime.{Session, on_game_over, is_player}
use chessview.Realtime
use chessview.Realtime.Laws.{
  Event, actions, rating_of, user_rating, step-actions, run_events-IsConsistent,
  on_game_over-rating,
}
use chessview.Realtime.Laws
use chessview.Examples.ChessExamples.{toy_chess}
use chessview.Examples.GameExamples.{anna, clock, after_moves}

abbrev pub ready_client : Client
ready_client = record new_client {
  ws = some 0;
  token = some "token";
  connection_state = ConnectionState.open_state;
  ready = λ _. ReadyState.open_state;
  next = 1;
}

-- White's game, in White's turn, with a premove that waits.
abbrev playing : GameState
playing = record Game.initial_state {
  game_id = some "g1";
  my_color = some PlayerColor.white;
  premove = some (record { from = "e2"; to = "e4"; uci = "e2e4" });
}

abbrev board : Board
board = record { game = playing; client = ready_client }

step-KeepsOrSends_example :
    KeepsOrSends toy_chess board.game board.client
      (step toy_chess (Input.drop "e2" "e4") board).client
step-KeepsOrSends_example = step-KeepsOrSends toy_chess (Input.drop "e2" "e4") board

step-SameGame_example : SameGame board.game (step toy_chess (Input.square_click "e2") board).game
step-SameGame_example = step-SameGame toy_chess (Input.square_click "e2") board

abbrev finished : Board
finished = record board { game = record playing { status = GameStatus.resigned } }

is_finished : is_game_over finished.game ≡ true
unfolding is_game_over
is_finished = refl

run_finished_example :
    (run toy_chess
      (Input.premove ∷ Input.drop "e2" "e4" ∷ Input.square_click "e2" ∷ [])
      finished).client
    ≡ finished.client
run_finished_example =
    run_finished toy_chess (Input.premove ∷ Input.drop "e2" "e4" ∷ Input.square_click "e2" ∷ [])
      finished is_finished

premove_effect_idem_example :
    premove_effect toy_chess
      (premove_effect toy_chess board.game board).game
      (premove_effect toy_chess board.game board)
    ≡ premove_effect toy_chess board.game board
premove_effect_idem_example = premove_effect_idem toy_chess board

drop_refused : (on_piece_drop toy_chess board.game "e2" "e5" board).1 ≡ some false
unfolding on_piece_drop chessview.MakeMove.Turns.is_my_turn is_game_over
    chessview.MakeMove.Turns.is_paused chessview.Game.initial_state
    chessview.Chess.Moves.build_move_uci chessview.Chess.Moves.get_moves_for_square
drop_refused = refl

abbrev to_json : Persisted → String
to_json p = "{}"

abbrev pub ada : AuthenticatedUser
ada = record {
  id = "u1";
  username = "anna";
  rating = 1500;
  avatar_url = none;
  email = "anna@example.test";
  created_at = "2026-01-01";
  bio = none;
  role = none;
  banned_at = none;
}

abbrev session : Session
session = record {
  game = record playing { white = to_game_player (some anna) };
  client = ready_client;
  auth = record { state = User.initial_state; stored = none };
  is_disposed = false;
}

abbrev rating_update : RatingUpdate
rating_update = record {
  white = record { before = 1500; after = 1508; delta = chessview.Common.Int.pos 8 };
  black = record { before = 1480; after = 1472; delta = chessview.Common.Int.negsuc 7 };
}

abbrev ended : GameOverPayload
ended = record {
  status = none;
  result = GameResult.white_wins;
  reason = TerminationReason.resignation;
  winner_id = some "u1";
  clock = clock;
  rating_update = some rating_update;
}

plays_white : is_player ada session.game.white ≡ true
unfolding to_game_player
plays_white = refl

abbrev new_session : Session
new_session = record session { game = Game.initial_state }

abbrev events : List Event
events = Event.enter (some "token") ∷ Event.game_state (some "g1") (after_moves ("e2e4" ∷ [])) ∷ []

run_events-IsConsistent_example :
    IsConsistent (Realtime.Laws.run to_json "g1" (some ada) events new_session).game
run_events-IsConsistent_example =
    run_events-IsConsistent to_json "g1" (some ada) events new_session (tt, (tt, tt))
      initial_state-IsConsistent

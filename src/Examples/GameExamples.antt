-- ===== src/Examples/GameExamples.antt =====
-- The theorems on the game store, frontend/src/entities/game/model.ts, at concrete inputs.
use chessview.Common.{String, ◌≡◌, refl, false, none, some, List, [], ◌∷◌, ◌++◌, All}
use chessview.Types.{PlayerColor, PlayerSummary, ClockState, GameStatus, GameStatePayload}
use chessview.Game.{initial_state, update_state}
use chessview.Game.Actions.{Action, run, IsProper, StaysInGame}
use chessview.Game.Invariant.{IsConsistent, initial_state-IsConsistent, run-IsConsistent}

abbrev pub anna : PlayerSummary
anna = record { id = "u1"; username = "anna"; rating = 1500; avatar_url = none }

abbrev ben : PlayerSummary
ben = record { id = "u2"; username = "ben"; rating = 1480; avatar_url = some "ben.png" }

abbrev pub clock : ClockState
clock = record {
  time_control_name = "5+0";
  initial_time_ms = 300000;
  increment_ms = 0;
  white_time_ms = 300000;
  black_time_ms = 300000;
  active_color = some PlayerColor.white;
  is_paused = false;
  pause_reason = none;
  disconnected_player_id = none;
  grace_deadline_at = none;
  last_updated_at = "2026-01-01T00:00:00Z";
}

abbrev pub after_moves : List String → GameStatePayload
after_moves history = record {
  fen = "8/8/8/8/8/8/8/8 w - - 0 1";
  last_move = none;
  turn = PlayerColor.white;
  white = anna;
  black = ben;
  status = GameStatus.active;
  termination_reason = none;
  clock = clock;
  move_history = history;
}

abbrev actions : List Action
actions =
    Action.set_game "g1" (some PlayerColor.white)
    ∷ Action.update_state (after_moves ("e2e4" ∷ []))
    ∷ Action.set_selection (some "d2") ("d4" ∷ [])
    ∷ []

actions-IsProper : All IsProper actions
actions-IsProper = (tt, (tt, (tt, tt)))

run-IsConsistent_example : IsConsistent (run actions initial_state)
run-IsConsistent_example =
    run-IsConsistent actions initial_state actions-IsProper initial_state-IsConsistent

extends :
    (after_moves ("e2e4" ∷ "e7e5" ∷ [])).move_history
    ≡ (run actions initial_state).move_history ++ "e7e5" ∷ []
unfolding run initial_state chessview.Game.Actions.apply chessview.Game.set_game update_state
    chessview.Game.set_selection
extends = refl

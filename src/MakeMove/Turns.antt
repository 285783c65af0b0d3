-- ===== src/MakeMove/Turns.antt =====
-- Whose turn it is, and the errors of `useMakeMove`, frontend/src/features/make-move/index.ts.
use chessview.Common.{
  String, Bool, true, false, not, ◌&&◌, Option, none, some, is_some, if◌then◌else◌,
}
use chessview.Types.{PlayerColor, ErrorPayload}
use chessview.Types.Events.{EventType}
use chessview.Game.{GameState, set_error}
use chessview.Game.Status.{is_active}
use chessview.Ws.{Client, Message}

-- The stores that the handlers change.
pub record Board : Type 0 where
  pub game : GameState
  pub client : Client

abbrev pub same_color : PlayerColor → PlayerColor → Bool
same_color PlayerColor.white PlayerColor.white = true
same_color PlayerColor.black PlayerColor.black = true
same_color _ _ = false

-- `myColor === color` for a colour, false where there is none.
abbrev pub has_color : Option PlayerColor → PlayerColor → Bool
has_color none color = false
has_color (some c) color = same_color c color

unfoldable pub is_game_over : GameState → Bool
is_game_over g = not (is_active g.status)

unfoldable pub is_paused : GameState → Bool
is_paused g = elim g.clock [ none ↦ false | some clock ↦ clock.is_paused ]

unfoldable pub is_my_turn : GameState → Bool
is_my_turn g = has_color g.my_color g.turn && not (is_game_over g) && not (is_paused g)

unfoldable pub can_queue_premove : GameState → Bool
can_queue_premove g =
    is_some g.my_color
    && not (has_color g.my_color g.turn)
    && not (is_game_over g)
    && not (is_paused g)

abbrev pub game_not_active : ErrorPayload
game_not_active = record {
  code = "GAME_NOT_ACTIVE";
  message = "This game is finished. Moves are disabled.";
}

abbrev pub illegal_move : ErrorPayload
illegal_move = record {
  code = "ILLEGAL_MOVE";
  message = "That move is not legal in the current position.";
}

abbrev pub ws_not_ready : ErrorPayload
ws_not_ready = record { code = "WS_NOT_READY"; message = "Realtime connection is not ready yet." }

abbrev pub create_not_your_turn_error : Bool → ErrorPayload
create_not_your_turn_error paused = record {
  code = "NOT_YOUR_TURN";
  message =
      if paused
      then "The game is paused during reconnect grace."
      else "Wait for your turn before moving.";
}

abbrev pub move_message : String → String → Message
move_message game_id uci = record { kind = EventType.move; payload = uci; game_id = some game_id }

abbrev pub edit : (GameState → GameState) → Board → Board
edit f b = record b { game = f b.game }

abbrev pub fail : ErrorPayload → Board → Board
fail e = edit (set_error (some e))

-- ===== src/Resign.antt =====
-- Resigning, frontend/src/features/resign-game/model.ts. `confirmed` is what `window.confirm` returns.
use chessview.Common.{String, ◌≡◌, Bool, not, ◌&&◌, ◌||◌, Option, some, arith, if◌then◌else◌}
use chessview.Common.Text.{truthy?}
use chessview.Types.{ErrorPayload}
use chessview.Types.Events.{EventType}
use chessview.Game.{GameState, set_error}
use chessview.Game.Status.{is_active}
use chessview.Ws
use chessview.Ws.{Message, current_is, is_open}
use chessview.MakeMove.Turns.{Board, fail}

abbrev pub resign_message : Option String → Message
resign_message game_id = record { kind = EventType.resign; payload = ""; game_id = game_id }

unfoldable pub can_resign : GameState → Bool
can_resign g = truthy? g.game_id && is_active g.status

abbrev pub unable_to_resign : ErrorPayload
unable_to_resign = record { code = "WS_NOT_READY"; message = "Unable to send resign right now." }

unfoldable pub resign : GameState → Bool → Board → Board
resign g confirmed b =
    if not (truthy? g.game_id) || not (is_active g.status)
    then b
    else if not confirmed
    then b
    else (let (client, sent) = Ws.send (resign_message g.game_id) b.client in
        let after = record b { client = client } in
        if not sent then fail unable_to_resign after else after)

-- The resignation is written once, for the game of the store, exactly if the button for it is shown,
-- the user confirms and the socket is open; if only the socket is missing an error is shown, and
-- otherwise nothing changes.
pub resign_lem :
    (confirmed : Bool) (b : Board)
    → (resign b.game confirmed b).client ≡ (
        if can_resign b.game && confirmed
        then (Ws.send (resign_message b.game.game_id) b.client).0
        else b.client)
      × ((resign b.game confirmed b).game ≡ (
          if can_resign b.game && confirmed && not (current_is is_open b.client)
          then set_error (some unable_to_resign) b.game
          else b.game))
unfolding resign can_resign Ws.send
resign_lem confirmed b = ground arith

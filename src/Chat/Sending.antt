-- ===== src/Chat/Sending.antt =====
-- What `sendMessage` of frontend/src/features/send-chat-message/model.ts sends.
use chessview.Common.{String, ◌≡◌, Bool, not, ◌&&◌, Option, arith, leb, if◌then◌else◌, ◌or◌}
use chessview.Common.Text.{truthy, truthy?, text_length}
use chessview.Ws
use chessview.Ws.{current_is, is_open}
use chessview.Common.Spaces.{trim}
use chessview.Chat.{Room, max_message_length, chat_message, send_message}

-- A message may go out: a game, a text that is more than white space and no longer than the limit,
-- and no message on its way.
abbrev pub may_send : Option String → String → Room → Bool
may_send game_id raw r =
    truthy? game_id
    && truthy (trim raw)
    && not r.is_sending
    && leb (text_length (trim raw)) max_message_length

-- A message is accepted exactly if it may go out and the socket is open; then its trimmed text is
-- written to the game, and in every other case the client is as it was.
pub send_message_lem :
    (game_id : Option String) (raw : String) (r : Room)
    → ((send_message game_id raw r).1 ≡ (may_send game_id raw r && current_is is_open r.client))
      × ((send_message game_id raw r).0.client ≡ (
          if may_send game_id raw r
          then (Ws.send (chat_message (game_id or "") (trim raw)) r.client).0
          else r.client))
unfolding send_message Ws.send
send_message_lem game_id raw r = ground arith

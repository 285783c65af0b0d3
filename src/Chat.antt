-- ===== src/Chat.antt =====
-- The chat of a game, frontend/src/features/send-chat-message/model.ts: the effect of `useGameChat`
-- with its callbacks, and `sendMessage`. `time_of` stands for `new Date(text).getTime()`, as in
-- Messages.
pub mod Sending
pub mod Receiving
use Prim.Native.String
use Prim.Native.Char.{code}
use chessview.Common.{
  ℕ, String, Bool, true, false, not, ◌&&◌, ◌||◌, Option, none, some, List, [], ◌∷◌, ◌==◌, ltb, leb,
  any, str_eq, if◌then◌else◌,
}
use chessview.Common.Text.{truthy, truthy?, same, text_length}
use chessview.Common.Spaces.{trim}
use chessview.Types.{ChatMessagePayload, ErrorPayload}
use chessview.Types.Events.{EventType}
use chessview.Messages.{
  MessageState, add_message, set_messages, set_game_room, set_loading, set_error, clear,
}
use chessview.Ws
use chessview.Ws.{Client, Message}

-- What the callbacks change; `is_sending` is the state of the hook `useSendMessage`, and
-- `is_disposed` the variable of the effect.
pub record Room : Type 0 where
  pub messages : MessageState
  pub client : Client
  pub is_sending : Bool
  pub is_disposed : Bool

abbrev pub max_message_length : ℕ
max_message_length = 500

abbrev pub chat_message : String → String → Message
chat_message game_id content = record {
  kind = EventType.chat_send;
  payload = content;
  game_id = some game_id;
}

-- `sendMessage` behind its tests.
abbrev pub send_content : String → String → Room → Room × Bool
send_content game_id content r =
    let (client, sent) = Ws.send (chat_message game_id content) r.client in
    let cleared = set_error none r.messages in
    if not sent
    then (
      record r {
        messages = set_error (some "Realtime connection is not ready yet.") cleared;
        client = client;
        is_sending = false;
      },
      false,
    )
    else (record r { messages = cleared; client = client; is_sending = false }, true)

unfoldable pub send_message : Option String → String → Room → Room × Bool
send_message game_id raw r = elim game_id [
  | none ↦ (r, false)
  | some id ↦
      if not (truthy id) || not (truthy (trim raw)) || r.is_sending
      then (r, false)
      else if ltb max_message_length (text_length (trim raw))
      then (
        record r { messages = set_error (some "Message exceeds 500 characters.") r.messages },
        false,
      )
      else send_content id (trim raw) r
]

abbrev edit : (MessageState → MessageState) → Room → Room
edit f r = record r { messages = f r.messages }

-- The effect up to its request, for the game and the token of the stores.
unfoldable pub enter_room : Option String → Option String → Room → Room
enter_room game_id token r =
    if not (truthy? game_id) || not (truthy? token) then edit clear r else elim game_id [
      | none ↦ r
      | some id ↦ elim token [
        | none ↦ r
        | some t ↦ record r {
          messages = set_error none (set_loading true (set_game_room id r.messages));
          client = Ws.connect t r.client;
          is_disposed = false;
        }
      ]
    ]

-- `CHAT_ERROR_CODES`
abbrev pub chat_error_codes : List String
chat_error_codes = "MESSAGE_TOO_LONG" ∷ "NOT_IN_GAME" ∷ "WS_NOT_READY" ∷ []

unfoldable pub on_chat_error : ErrorPayload → Room → Room
on_chat_error payload r =
    if not (any (λ c. str_eq c payload.code) chat_error_codes)
    then r
    else edit (set_error (some payload.message)) r

-- `toErrorMessage`: the message of an `Error`, or the text for anything else that is thrown.
abbrev pub to_error_message : Option String → String
to_error_message none = "Unable to load chat history right now."
to_error_message (some message) = message

unfoldable pub on_history_failed : Option String → Room → Room
on_history_failed error r =
    if r.is_disposed then r else edit (set_error (some (to_error_message error))) r

-- The function that the effect returns.
unfoldable pub dispose : Room → Room
dispose r = record r { is_disposed = true }

module _ (time_of : String → ℕ) where
  unfoldable pub on_history : List ChatMessagePayload → Room → Room
  on_history messages r = if r.is_disposed then r else edit (set_messages time_of messages) r

  unfoldable pub on_chat_message : String → Option String → ChatMessagePayload → Room → Room
  on_chat_message game_id from payload r =
      if not (same from (some game_id)) then r else edit (add_message time_of payload) r

-- ===== src/Examples/AccountExamples.antt =====
-- The theorems on the auth store and the chat of a game at concrete inputs:
-- frontend/src/entities/user/model.ts and frontend/src/features/send-chat-message/model.ts.
use Prim.Native.Char.{code}
use chessview.Common.{
  String, ◌≡◌, refl, true, false, ◌&&◌, Option, none, some, List, [], ◌∷◌, if◌then◌else◌, ◌==◌,
  eq_iff, str_eq, Bool-cases, Option-cases, inl, inr,
}
use chessview.Common.Text.{truthy?, truthy, text_length}
use chessview.User.{Persisted, Auth, initial_state}
use chessview.User.Laws.{Call, IsTruthful, run, run-IsTruthful}
use chessview.Messages
use chessview.Messages.{normalize_messages}
use chessview.Messages.Laws.{received}
use chessview.Ws
use chessview.Ws.{Client, current_is, is_open}
use chessview.Http.{Request, Fetched, Page, get_access_token, request}
use chessview.Http.Laws.{request_refused}
use chessview.Common.Spaces.{trim}
use chessview.Chat.{Room, chat_message, send_message}
use chessview.Chat.Sending.{may_send, send_message_lem}
use chessview.Chat.Receiving.{Event, arrivals, run-messages, on_history-dispose}
use chessview.Chat.Receiving
use chessview.Examples.MessageExamples.{message, stored}
use chessview.Examples.PlayExamples.{ready_client, ada}

-- A text for a state: the token behind a mark, or another mark alone.
abbrev to_json : Persisted → String
to_json p = elim p.access_token [ none ↦ "-" | some token ↦ String.◌∷◌ "+" token ]

abbrev from_json : String → Option (Option String)
from_json String.[] = none
from_json (String.◌∷◌ c s) = if code c == b'+' then some (some s) else some none

cons-truthy : (token : String) → truthy (String.◌∷◌ "+" token) ≡ true
cons-truthy token = elim (Bool-cases (str_eq (String.◌∷◌ "+" token) "")) [
  | inl e ↦ absurd (cc ((eq_iff (String.◌∷◌ "+" token) "").0 e))
  | inr e ↦ rw e refl
]

to_json-full : (p : Persisted) → truthy (to_json p) ≡ true
to_json-full p =
    elim p.access_token
      as (λ t.
        truthy (elim t as (λ _. String) [ none ↦ "-" | some token ↦ String.◌∷◌ "+" token ])
        ≡ true) [ none ↦ refl | some token ↦ cons-truthy token ]

from_json-to_json : (p : Persisted) → from_json (to_json p) ≡ some p.access_token
from_json-to_json p = elim (Option-cases p.access_token) [
  | inl missing ↦ rw missing refl
  | inr (token, e) ↦ rw e refl
]

abbrev new_auth : Auth
new_auth = record { state = initial_state; stored = some "+old" }

abbrev calls : List Call
calls = Call.set_auth ada "access" "refresh" ∷ Call.logout ∷ []

starts-IsTruthful : IsTruthful to_json new_auth
unfolding initial_state
starts-IsTruthful = refl

run-IsTruthful_example : IsTruthful to_json (run to_json calls new_auth)
run-IsTruthful_example = run-IsTruthful to_json calls new_auth (refl, (tt, tt)) starts-IsTruthful

abbrev room : Room
room = record {
  messages = Messages.initial_state;
  client = ready_client;
  is_sending = false;
  is_disposed = false;
}

send_message_lem_example :
    ((send_message (some "g1") "  hello " room).1
      ≡ (may_send (some "g1") "  hello " room && current_is is_open room.client))
    × ((send_message (some "g1") "  hello " room).0.client ≡ (
        if may_send (some "g1") "  hello " room
        then (Ws.send (chat_message "g1" (trim "  hello ")) room.client).0
        else room.client))
send_message_lem_example = send_message_lem (some "g1") "  hello " room

abbrev events : List Event
events =
    Event.message (some "g1") (message 3 "d")
    ∷ Event.message (some "g2") (message 4 "e")
    ∷ Event.history stored
    ∷ []

empty_room : room.messages.messages ≡ []
unfolding Messages.initial_state
empty_room = refl

run-messages_example :
    (Receiving.run text_length "g1" events room).messages.messages
    ≡ normalize_messages text_length (received (arrivals text_length "g1" events))
run-messages_example = run-messages text_length "g1" events room refl empty_room

-- A server that knows no one, and a page whose token has run out.
abbrev refuses : Request → Fetched String
refuses asked =
    Fetched.answered
      (record { status = 401; status_text = "401"; ok = false; json = none; error_json = none })

abbrev page : Page
page = record {
  auth = record { state = record initial_state { access_token = some "expired" }; stored = none };
  path = "/game/g1";
}

has_token : truthy? (get_access_token to_json from_json page) ≡ true
unfolding get_access_token initial_state
has_token = refl

request_refused_example :
    get_access_token to_json from_json
      (request to_json from_json refuses "/api" "/games/g1" "GET" none page).0
    ≡ none
request_refused_example =
    request_refused to_json from_json from_json-to_json refuses "/api" "/games/g1" "GET" none page
      has_token refl

-- ===== src/Types/Events.antt =====
-- The events of the WebSocket contract, frontend/src/shared/types/index.ts.
use chessview.Common.{String, Option}

pub data EventType : Type 0 where
  queue_join queue_leave move resign draw_offer draw_accept draw_decline : EventType
  chat_send rtc_offer rtc_answer rtc_ice : EventType
  queue_joined match_found game_state game_over draw_offered draw_declined : EventType
  chat_message error : EventType

-- `===` on the texts of two events.
pub EventType-discrete : Discrete EventType
EventType-discrete = hlevel

-- An envelope whose payload is of type `P`.
pub record WsEnvelope (P : Type 0) : Type 0 where
  pub kind : EventType
  pub payload : P
  pub game_id : Option String
  pub timestamp : String

-- ===== src/Examples/WsExamples.antt =====
-- The theorems on the WebSocket client, frontend/src/shared/api/ws.ts, at concrete inputs.
use chessview.Common.{
  String, ◌≡◌, ◌≢◌, refl, true, false, Option, none, some, List, [], ◌∷◌, ◌==◌, any, if◌then◌else◌,
}
use chessview.Common.NatMap.{last_of}
use chessview.Types.Events.{EventType, WsEnvelope}
use chessview.Ws
use chessview.Ws.{
  Client, ReadyState, Message, new_client, is_open, max_reconnect_delay, delay_after,
}
use chessview.Ws.Events.{Event, run, step, on_open, on_close, on_timer, has_timer, is_current}
use chessview.Ws.Invariant.{IsLinked, run-IsLinked, IsCut, run-disconnect, on_timer_orphans}
use chessview.Ws.Delays.{IsRetrying, failures, run-failures}
use chessview.Ws.Listeners.{run-AllTold}
use chessview.Ws.Dispatch.{Op, registry, times, due, on_message, on_message-times}

-- The connection is lost, and `connect` is called again before the timer of the retry goes off.
abbrev events : List Event
events =
    Event.subscribe 7
    ∷ Event.connect "token"
    ∷ Event.opened 0
    ∷ Event.closed 0
    ∷ Event.connect "token"
    ∷ Event.opened 1
    ∷ []

abbrev open_client : Client
open_client = run events new_client

run-IsLinked_example : IsLinked (run events new_client)
run-IsLinked_example = run-IsLinked events

subscribed : any (λ x. x == 7) (run events new_client).connection_listeners ≡ true
unfolding run step new_client Ws.connect Ws.on_connection_state_change on_open on_close
subscribed = refl

run-AllTold_example :
    last_of 7 (run events new_client).notified ≡ some (run events new_client).connection_state
run-AllTold_example = run-AllTold events 7 subscribed

run-failures_example : IsRetrying "token" 3 3 (run (failures 3 0 0) (Ws.connect "token" new_client))
run-failures_example = run-failures 3 "token" refl

stale : is_current 0 open_client ≡ false
unfolding run step new_client Ws.connect Ws.on_connection_state_change on_open on_close
stale = refl

current : open_client.ws ≡ some 1
unfolding run step new_client Ws.connect Ws.on_connection_state_change on_open on_close
current = refl

is_ready : open_client.ready 1 ≡ ReadyState.open_state
unfolding run step new_client Ws.connect Ws.on_connection_state_change on_open on_close
is_ready = refl

waiting : has_timer 1000 open_client.timers ≡ true
unfolding run step new_client Ws.connect Ws.on_connection_state_change on_open on_close
waiting = refl

run-disconnect_example :
    IsCut open_client.next open_client.sent
      (run (Event.timer 1000 ∷ Event.opened 1 ∷ []) (Ws.disconnect open_client))
run-disconnect_example =
    run-disconnect (Event.timer 1000 ∷ Event.opened 1 ∷ []) open_client (tt, (tt, tt))

on_timer_orphans_example :
    ((on_timer 1000 open_client).ws ≡ some open_client.next)
    × (open_client.next ≢ 1)
    × ((on_timer 1000 open_client).ready 1 ≡ ReadyState.open_state)
on_timer_orphans_example =
    on_timer_orphans 1000 1 open_client (run-IsLinked events) waiting current is_ready

-- An envelope with its text as the payload, of any text.
abbrev parse_text : String → Option (WsEnvelope String)
parse_text text =
    some (record { kind = EventType.game_state; payload = text; game_id = none; timestamp = "" })

abbrev calls : List Op
calls =
    Op.on_call EventType.game_state 5
    ∷ Op.off_call EventType.game_state 5
    ∷ Op.on_call EventType.game_state 5
    ∷ []

on_message-times_example :
    times 5 (on_message parse_text 1 "text" open_client (registry calls))
    ≡ (if is_current 1 open_client then due 5 calls (parse_text "text") else 0)
on_message-times_example = on_message-times parse_text calls 1 5 "text" open_client

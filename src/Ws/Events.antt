-- ===== src/Ws/Events.antt =====
-- What can happen to the client of frontend/src/shared/api/ws.ts: the calls of the program, and
-- the events of the browser's sockets and timers, in any order. The handlers are those that `open`
-- sets on a socket; a socket's ready state changes just before its handler runs.
use chessview.Common.{ℕ, String, Bool, true, false, none, some, List, [], ◌∷◌, ◌==◌, if◌then◌else◌}
use chessview.Common.Text.{truthy?}
use chessview.Types.{ConnectionState}
use chessview.Ws
use chessview.Ws.{
  Client, ReadyState, Message, set_ready, set_connection_state, open_socket, reconnect,
}

-- `this.ws === socket`
abbrev pub is_current : ℕ → Client → Bool
is_current i c = elim c.ws [ none ↦ false | some j ↦ j == i ]

unfoldable pub on_open : ℕ → Client → Client
unfolding set_connection_state
on_open i c =
    let d = record c { ready = set_ready i ReadyState.open_state c.ready } in
    if is_current i c
    then set_connection_state ConnectionState.open_state (record d { reconnect_attempt = 0 })
    else d

unfoldable pub on_close : ℕ → Client → Client
unfolding set_connection_state reconnect
on_close i c =
    let d = record c { ready = set_ready i ReadyState.closed c.ready } in
    if is_current i c
    then if truthy? c.token
      then reconnect (set_connection_state ConnectionState.disconnected (record d { ws = none }))
      else set_connection_state ConnectionState.idle (record d { ws = none })
    else d

unfoldable pub on_error : ℕ → Client → Client
unfolding set_connection_state
on_error i c = if is_current i c then set_connection_state ConnectionState.error c else c

-- The first timer of the list that has the delay goes off.
abbrev pub remove_first : ℕ → List ℕ → List ℕ
remove_first t [] = []
remove_first t (x ∷ xs) = if x == t then xs else x ∷ remove_first t xs

abbrev pub has_timer : ℕ → List ℕ → Bool
has_timer t [] = false
has_timer t (x ∷ xs) = if x == t then true else has_timer t xs

unfoldable pub on_timer : ℕ → Client → Client
unfolding open_socket
on_timer t c =
    if has_timer t c.timers then open_socket (record c { timers = remove_first t c.timers }) else c

pub data Event : Type 0 where
  connect : String → Event
  disconnect : Event
  send : Message → Event
  subscribe : ℕ → Event
  unsubscribe : ℕ → Event
  opened : ℕ → Event
  closed : ℕ → Event
  failed : ℕ → Event
  timer : ℕ → Event

unfoldable pub step : Event → Client → Client
step (connect token) c = Ws.connect token c
step disconnect c = Ws.disconnect c
step (send m) c = (Ws.send m c).0
step (subscribe l) c = Ws.on_connection_state_change l c
step (unsubscribe l) c = Ws.off_connection_state_change l c
step (opened i) c = on_open i c
step (closed i) c = on_close i c
step (failed i) c = on_error i c
step (timer t) c = on_timer t c

unfoldable pub run : List Event → Client → Client
run [] c = c
run (e ∷ es) c = run es (step e c)

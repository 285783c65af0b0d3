-- ===== src/Ws.antt =====
-- The WebSocket client, frontend/src/shared/api/ws.ts. The sockets of the browser are a store: a
-- socket is the number of its construction, `ready` gives the ready state of each, and `sent` what
-- was written to which. The timers of `reconnect` are the list `timers` of their delays; they are
-- never cleared. A call of a connection listener is an entry of `notified`.
pub mod Events
pub mod Listeners
pub mod Dispatch
pub mod Invariant
pub mod Delays
use chessview.Common.{
  ℕ, suc, ◌+◌, ◌*◌, ◌^◌, min, String, Bool, true, false, ◌&&◌, ◌||◌, not, Option, none, some, List,
  [], ◌∷◌, ◌++◌, map, ◌==◌, any, if◌then◌else◌,
}
use chessview.Common.Text.{same, truthy?}
use chessview.Types.{ConnectionState}
use chessview.Types.Events.{EventType}

pub data ReadyState : Type 0 where
  connecting open_state closing closed : ReadyState

-- What `send` puts into an envelope; the payload is text here, and the timestamp is left out.
pub record Message : Type 0 where
  pub kind : EventType
  pub payload : String
  pub game_id : Option String

pub record Client : Type 0 where
  pub ws : Option ℕ
  pub connection_listeners : List ℕ
  pub reconnect_attempt : ℕ
  pub token : Option String
  pub connection_state : ConnectionState
  pub ready : ℕ → ReadyState
  pub next : ℕ
  pub timers : List ℕ
  pub sent : List (ℕ × Message)
  pub notified : List (ℕ × ConnectionState)

abbrev pub is_open : ReadyState → Bool
is_open ReadyState.open_state = true
is_open _ = false

abbrev pub is_connecting : ReadyState → Bool
is_connecting ReadyState.connecting = true
is_connecting _ = false

abbrev pub max_reconnect_delay : ℕ
max_reconnect_delay = 30000

unfoldable pub new_client : Client
new_client = record {
  ws = none;
  connection_listeners = [];
  reconnect_attempt = 0;
  token = none;
  connection_state = ConnectionState.idle;
  ready = λ _. ReadyState.closed;
  next = 0;
  timers = [];
  sent = [];
  notified = [];
}

abbrev pub set_ready : ℕ → ReadyState → (ℕ → ReadyState) → ℕ → ReadyState
set_ready i r ready j = if j == i then r else ready j

unfoldable pub set_connection_state : ConnectionState → Client → Client
set_connection_state state c = record c {
  connection_state = state;
  notified = c.notified ++ map (λ l. (l, state)) c.connection_listeners;
}

-- `new WebSocket(...)`, which is connecting, and the state that goes with it.
abbrev pub construct : Client → Client
construct c = record c {
  ws = some c.next;
  ready = set_ready c.next ReadyState.connecting c.ready;
  next = suc c.next;
}

abbrev pub current_is : (ReadyState → Bool) → Client → Bool
current_is p c = elim c.ws [ none ↦ false | some i ↦ p (c.ready i) ]

unfoldable pub open_socket : Client → Client
unfolding set_connection_state
open_socket c =
    if not (truthy? c.token)
    then c
    else if current_is is_connecting c
    then c
    else set_connection_state ConnectionState.connecting (construct c)

-- `socket?.close()`: a socket that is not closed yet begins to close.
abbrev pub close_socket : Option ℕ → (ℕ → ReadyState) → ℕ → ReadyState
close_socket none ready = ready
close_socket (some i) ready = elim (ready i) [
  | ReadyState.closed ↦ ready
  | _ ↦ set_ready i ReadyState.closing ready
]

unfoldable pub disconnect : Client → Client
unfolding set_connection_state
disconnect c =
    let d = set_connection_state ConnectionState.idle (record c { token = none; ws = none }) in
    record d { ready = close_socket c.ws d.ready }

abbrev has_socket : Client → Bool
has_socket c = elim c.ws [ none ↦ false | some _ ↦ true ]

-- The rest of `connect`, behind its two tests.
abbrev start : String → Client → Client
start token c = open_socket (record c { token = some token; reconnect_attempt = 0 })

unfoldable pub connect : String → Client → Client
unfolding open_socket disconnect
connect token c =
    if same c.token (some token) && (current_is is_open c || current_is is_connecting c)
    then c
    else if has_socket c && not (same c.token (some token))
    then start token (disconnect c)
    else start token c

unfoldable pub send : Message → Client → Client × Bool
send m c = elim c.ws [
  | none ↦ (c, false)
  | some i ↦
      if is_open (c.ready i) then (record c { sent = c.sent ++ (i, m) ∷ [] }, true) else (c, false)
]

-- `Math.min(1000 * 2 ** this.reconnectAttempt, this.maxReconnectDelay)`
unfoldable pub delay_after : ℕ → ℕ
delay_after attempt = min (1000 * 2 ^ attempt) max_reconnect_delay

unfoldable pub reconnect : Client → Client
unfolding delay_after
reconnect c = record c {
  timers = c.timers ++ delay_after c.reconnect_attempt ∷ [];
  reconnect_attempt = c.reconnect_attempt + 1;
}

-- `add` and `delete` of a Set.
abbrev pub add : ℕ → List ℕ → List ℕ
add l ls = if any (λ x. x == l) ls then ls else ls ++ l ∷ []

abbrev pub delete : ℕ → List ℕ → List ℕ
delete l [] = []
delete l (x ∷ xs) = if x == l then delete l xs else x ∷ delete l xs

unfoldable pub on_connection_state_change : ℕ → Client → Client
on_connection_state_change l c = record c {
  connection_listeners = add l c.connection_listeners;
  notified = c.notified ++ (l, c.connection_state) ∷ [];
}

-- The function that `onConnectionStateChange` returns.
unfoldable pub off_connection_state_change : ℕ → Client → Client
off_connection_state_change l c = record c {
  connection_listeners = delete l c.connection_listeners;
}

unfoldable pub is_open_client : Client → Bool
is_open_client c = elim c.connection_state [ ConnectionState.open_state ↦ true | _ ↦ false ]

unfoldable pub get_state : Client → ConnectionState
get_state c = c.connection_state

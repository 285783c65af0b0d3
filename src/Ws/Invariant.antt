-- ===== src/Ws/Invariant.antt =====
-- The state machine of the WebSocket client, frontend/src/shared/api/ws.ts.
use chessview.Common.{
  ℕ, ◌<◌, ◌≡◌, ◌≢◌, refl, Bool, true, false, Option, none, some, List, [], ◌∷◌, arith, eq_iff,
  if◌then◌else◌, All, is_some, ◌↔◌, ◌++◌,
}
use chessview.Common.Text.{truthy?}
use chessview.Types.{ConnectionState}
use chessview.Ws
use chessview.Ws.{
  Client, ReadyState, Message, is_open, current_is, set_ready, open_socket, set_connection_state,
  disconnect, reconnect, new_client,
}
use chessview.Ws.Events.{
  Event, is_current, on_open, on_close, on_error, on_timer, step, run, has_timer,
}

-- The states in which the client has a socket.
abbrev pub has_live_state : ConnectionState → Bool
has_live_state ConnectionState.idle = false
has_live_state ConnectionState.disconnected = false
has_live_state _ = true

-- A socket is there exactly in the states that say so, only with a token, and it was constructed.
pub record IsLinked (c : Client) : Type 0 where
  pub live : has_live_state c.connection_state ≡ is_some c.ws
  pub has_token : is_some c.ws ≡ true → truthy? c.token ≡ true
  pub known : (i : ℕ) → c.ws ≡ some i → i < c.next

step-IsLinked : (e : Event) (c : Client) → IsLinked c → IsLinked (step e c)
unfolding step Ws.connect Ws.disconnect Ws.send Ws.on_connection_state_change
    Ws.off_connection_state_change on_open on_close on_error on_timer
step-IsLinked (Event.connect t) c h = ground (arith, eq_iff t "")
step-IsLinked _ c h = ground arith

run_from-IsLinked : (es : List Event) (c : Client) → IsLinked c → IsLinked (run es c)
unfolding run
run_from-IsLinked [] c h = h
run_from-IsLinked (e ∷ es) c h = run_from-IsLinked es (step e c) (step-IsLinked e c h)

-- After any calls and any events of the browser, in any order, the client has a socket exactly when
-- its state is "connecting", "open" or "error", a socket goes with a token that is not empty, and
-- it is one that the client constructed.
pub run-IsLinked : (es : List Event) → IsLinked (run es new_client)
unfolding new_client
run-IsLinked es =
    run_from-IsLinked es new_client (record { live = refl; has_token = λ e. cc; known = λ i e. cc })

abbrev pub socket_of : Event → Option ℕ
socket_of (Event.opened i) = some i
socket_of (Event.closed i) = some i
socket_of (Event.failed i) = some i
socket_of _ = none

-- An event of a socket that is not the client's changes nothing but ready states.
pub step_stale :
    (e : Event) (i : ℕ) (c : Client)
    → socket_of e ≡ some i
    → is_current i c ≡ false
    → step e c ≡ record c { ready = (step e c).ready }
unfolding step on_open on_close on_error
step_stale (Event.opened j) i c h k = ground arith
step_stale (Event.closed j) i c h k = ground arith
step_stale (Event.failed j) i c h k = ground arith
step_stale _ i c h k = ground arith

-- A message is accepted exactly when the client's socket is open.
pub send_iff : (m : Message) (c : Client) → ((Ws.send m c).1 ≡ true) ↔ (current_is is_open c ≡ true)
unfolding Ws.send
send_iff m c = ground arith

-- An accepted message is written once, to the client's socket; a refused one changes nothing.
pub send_writes :
    (m : Message) (c : Client) (i : ℕ)
    → c.ws ≡ some i
    → (Ws.send m c).0
      ≡ (record c { sent = if is_open (c.ready i) then c.sent ++ (i, m) ∷ [] else c.sent })
unfolding Ws.send
send_writes m c i h = ground arith

abbrev pub IsNotConnect : Event → Type 0
IsNotConnect (Event.connect token) = ⊥
IsNotConnect _ = Unit

-- What `disconnect` leaves: no token and no socket, with `n` sockets constructed and `sent` written.
pub record IsCut (n : ℕ) (log : List (ℕ × Message)) (c : Client) : Type 0 where
  pub token : c.token ≡ none
  pub ws : c.ws ≡ none
  pub state : c.connection_state ≡ ConnectionState.idle
  pub next : c.next ≡ n
  pub sent : c.sent ≡ log

step-IsCut :
    (e : Event) (c : Client) (n : ℕ) (sent : List (ℕ × Message))
    → IsNotConnect e
    → IsCut n sent c
    → IsCut n sent (step e c)
unfolding step Ws.connect Ws.disconnect Ws.send Ws.on_connection_state_change
    Ws.off_connection_state_change on_open on_close on_error on_timer
step-IsCut (Event.connect t) c n sent p h = elim p [ ]
step-IsCut _ c n sent p h = ground arith

run-IsCut :
    (es : List Event) (c : Client) (n : ℕ) (sent : List (ℕ × Message))
    → All IsNotConnect es
    → IsCut n sent c
    → IsCut n sent (run es c)
unfolding run
run-IsCut [] c n sent p h = h
run-IsCut (e ∷ es) c n sent p h = run-IsCut es (step e c) n sent p.1 (step-IsCut e c n sent p.0 h)

-- After a disconnect nothing but a call of `connect` brings the client back: whatever timers and
-- late events follow, it stays idle, constructs no socket and writes nothing.
pub run-disconnect :
    (es : List Event) (c : Client)
    → All IsNotConnect es
    → IsCut c.next c.sent (run es (Ws.disconnect c))
unfolding Ws.disconnect
run-disconnect es c p =
    run-IsCut es _ c.next c.sent p
      (record { token = refl; ws = refl; state = refl; next = refl; sent = refl })

-- A timer that goes off while the client has an open socket constructs another one in its place
-- and leaves the open one open.
pub on_timer_orphans :
    (t i : ℕ) (c : Client)
    → IsLinked c
    → has_timer t c.timers ≡ true
    → c.ws ≡ some i
    → c.ready i ≡ ReadyState.open_state
    → ((on_timer t c).ws ≡ some c.next)
      × (c.next ≢ i)
      × ((on_timer t c).ready i ≡ ReadyState.open_state)
unfolding on_timer
on_timer_orphans t i c h timer e o = ground (arith, h.known i e)

-- ===== src/Ws/Listeners.antt =====
-- Listeners of the WebSocket client, frontend/src/shared/api/ws.ts: the registry of event handlers
-- and its dispatch, and what the connection listeners have been told.
use chessview.Common.{
  ℕ, String, ◌≡◌, refl, sym, Bool, true, false, not, ◌&&◌, ◌||◌, none, some, List, [], ◌∷◌, ◌++◌,
  map, arith, any, ◌==◌, ◌or_else◌, or_else-none, if◌then◌else◌, Bool-cases, inl, inr, ◌⊎◌,
}
use chessview.Common.NatMap.{last_of}
use chessview.Common.Text.{truthy?, same}
use chessview.Types.{ConnectionState}
use chessview.Ws
use chessview.Ws.{
  Client, add, delete, new_client, set_connection_state, open_socket, disconnect, current_is,
  is_connecting, construct, is_open, ReadyState, set_ready, reconnect, has_socket, start,
}
use chessview.Ws.Events.{
  Event, is_current, has_timer, remove_first, on_open, on_close, on_error, on_timer, step, run,
}

last_of-append :
    (l : ℕ) (xs ys : List (ℕ × ConnectionState))
    → last_of l (xs ++ ys) ≡ (last_of l ys or_else last_of l xs)
last_of-append l [] ys = sym (or_else-none (last_of l ys))
last_of-append l ((j, s) ∷ xs) ys = ground (arith, last_of-append l xs ys)

last_of-all :
    (l : ℕ) (state : ConnectionState) (ls : List ℕ)
    → last_of l (map (λ x. (x, state)) ls) ≡ (if any (λ x. x == l) ls then some state else none)
last_of-all l state [] = refl
last_of-all l state (x ∷ ls) = ground (arith, last_of-all l state ls)

-- Each subscribed listener was called last with the state that the client is in.
abbrev pub AllTold : Client → Type 0
AllTold c =
    (l : ℕ)
    → any (λ x. x == l) c.connection_listeners ≡ true
    → last_of l c.notified ≡ some c.connection_state

set_connection_state-AllTold :
    (state : ConnectionState) (c : Client) → AllTold (set_connection_state state c)
unfolding set_connection_state
set_connection_state-AllTold state c l h =
    rw (last_of-append, last_of-all l state c.connection_listeners, h)

open_socket-AllTold : (c : Client) → AllTold c → AllTold (open_socket c)
unfolding open_socket
open_socket-AllTold c h = elim (Bool-cases (not (truthy? c.token))) [
  | inl none_there ↦ rw none_there h
  | inr there ↦ elim (Bool-cases (current_is is_connecting c)) [
    | inl busy ↦ rw (there, busy) h
    | inr idle ↦ rw (there, idle) (set_connection_state-AllTold _ (construct c))
  ]
]

disconnect-AllTold : (c : Client) → AllTold (disconnect c)
unfolding disconnect
disconnect-AllTold c = set_connection_state-AllTold _ (record c { token = none; ws = none })

-- Either branch of a test keeps what both branches have.
if-AllTold : (b : Bool) (c d : Client) → AllTold c → AllTold d → AllTold (if b then c else d)
if-AllTold true c d h k = h
if-AllTold false c d h k = k

start-AllTold : (token : String) (c : Client) → AllTold c → AllTold (start token c)
start-AllTold token c h =
    open_socket-AllTold (record c { token = some token; reconnect_attempt = 0 }) h

connect-AllTold : (token : String) (c : Client) → AllTold c → AllTold (Ws.connect token c)
unfolding Ws.connect
connect-AllTold token c h =
    if-AllTold (same c.token (some token) && (current_is is_open c || current_is is_connecting c)) c
      _ h
      (if-AllTold (has_socket c && not (same c.token (some token))) (start token (disconnect c))
        (start token c) (start-AllTold token (disconnect c) (disconnect-AllTold c))
        (start-AllTold token c h))

on_open-AllTold : (i : ℕ) (c : Client) → AllTold c → AllTold (on_open i c)
unfolding on_open
on_open-AllTold i c h =
    if-AllTold (is_current i c) _ _
      (set_connection_state-AllTold _
        (record c { ready = set_ready i ReadyState.open_state c.ready; reconnect_attempt = 0 }))
      h

on_close-AllTold : (i : ℕ) (c : Client) → AllTold c → AllTold (on_close i c)
unfolding on_close reconnect
on_close-AllTold i c h =
    let d = record c { ready = set_ready i ReadyState.closed c.ready; ws = none } in
    if-AllTold (is_current i c) _ _
      (if-AllTold (truthy? c.token) _ _
        (set_connection_state-AllTold ConnectionState.disconnected d)
        (set_connection_state-AllTold ConnectionState.idle d))
      h

on_error-AllTold : (i : ℕ) (c : Client) → AllTold c → AllTold (on_error i c)
unfolding on_error
on_error-AllTold i c h = if-AllTold (is_current i c) _ c (set_connection_state-AllTold _ c) h

on_timer-AllTold : (t : ℕ) (c : Client) → AllTold c → AllTold (on_timer t c)
unfolding on_timer
on_timer-AllTold t c h =
    if-AllTold (has_timer t c.timers) _ c
      (open_socket-AllTold (record c { timers = remove_first t c.timers }) h) h

any-append :
    (l k : ℕ) (ls : List ℕ)
    → any (λ x. x == l) (ls ++ k ∷ []) ≡ true
    → (k ≡ l) ⊎ (any (λ x. x == l) ls ≡ true)
any-append l k [] h = ground arith
any-append l k (x ∷ ls) h = ground (arith, any-append l k ls)

any-add :
    (l k : ℕ) (ls : List ℕ)
    → any (λ x. x == l) (add k ls) ≡ true
    → (k ≡ l) ⊎ (any (λ x. x == l) ls ≡ true)
any-add l k ls h = ground (arith, any-append l k ls)

any-delete :
    (l k : ℕ) (ls : List ℕ) → any (λ x. x == l) (delete k ls) ≡ true → any (λ x. x == l) ls ≡ true
any-delete l k [] h = h
any-delete l k (x ∷ ls) h = ground (arith, any-delete l k ls)

subscribe-AllTold : (k : ℕ) (c : Client) → AllTold c → AllTold (Ws.on_connection_state_change k c)
unfolding Ws.on_connection_state_change
subscribe-AllTold k c h l e = ground (
  arith,
  any-add l k c.connection_listeners e,
  last_of-append l c.notified ((k, c.connection_state) ∷ []),
  h l,
)

step-AllTold : (e : Event) (c : Client) → AllTold c → AllTold (step e c)
unfolding step Ws.send Ws.off_connection_state_change
step-AllTold (Event.connect t) c h = connect-AllTold t c h
step-AllTold Event.disconnect c h = disconnect-AllTold c
step-AllTold (Event.send m) c h = λ l e. ground (arith, h l)
step-AllTold (Event.subscribe k) c h = subscribe-AllTold k c h
step-AllTold (Event.unsubscribe k) c h = λ l e. h l (any-delete l k c.connection_listeners e)
step-AllTold (Event.opened i) c h = on_open-AllTold i c h
step-AllTold (Event.closed i) c h = on_close-AllTold i c h
step-AllTold (Event.failed i) c h = on_error-AllTold i c h
step-AllTold (Event.timer t) c h = on_timer-AllTold t c h

run_from-AllTold : (es : List Event) (c : Client) → AllTold c → AllTold (run es c)
unfolding run
run_from-AllTold [] c h = h
run_from-AllTold (e ∷ es) c h = run_from-AllTold es (step e c) (step-AllTold e c h)

-- After any calls and events, the last call that a subscribed connection listener had was with the
-- state that the client is in.
pub run-AllTold :
    (es : List Event) (l : ℕ)
    → any (λ x. x == l) (run es new_client).connection_listeners ≡ true
    → last_of l (run es new_client).notified ≡ some (run es new_client).connection_state
unfolding new_client
run-AllTold es = run_from-AllTold es new_client (λ l e. cc)

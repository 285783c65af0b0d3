-- ===== src/Ws/Delays.antt =====
-- The delays of `reconnect`, frontend/src/shared/api/ws.ts.
use chessview.Common.{
  ℕ, zero, suc, ◌+◌, ◌*◌, ◌^◌, ◌≤◌, min, String, ◌≡◌, refl, true, some, List, [], ◌∷◌, ◌++◌, arith,
  All,
}
use mathlib.Core.Path.{subst₂}
use chessview.Common.Text.{truthy?}
use chessview.Types.{ConnectionState}
use chessview.Ws
use chessview.Ws.{Client, delay_after, max_reconnect_delay, new_client, open_socket, reconnect}
use chessview.Ws.Events.{Event, on_open, on_close, on_error, on_timer, remove_first, step, run}
use native.Mathlib.Nat.{pow-suc}
use native.Mathlib.Numerals.{towards_suc}

pow_pos : (k : ℕ) → 1 ≤ 2 ^ k
pow_pos zero = omega arith
pow_pos (suc k) = rw pow-suc (omega (arith, pow_pos k))

abbrev pub InRange : ℕ → Type 0
InRange d = (1000 ≤ d) × (d ≤ max_reconnect_delay)

delay_after-InRange : (k : ℕ) → InRange (delay_after k)
unfolding delay_after
delay_after-InRange k = omega (arith, pow_pos k)

-- The delay doubles with each attempt, from one second, until it stays at thirty seconds from the
-- fifth retry on.
pub delay_after_lem :
    (k : ℕ)
    → (delay_after 0 ≡ 1000)
      × (delay_after (suc k) ≡ min (2 * delay_after k) max_reconnect_delay)
      × (delay_after (k + 5) ≡ max_reconnect_delay)
unfolding delay_after
delay_after_lem k =
    (refl, rw pow-suc (omega arith), simp (towards_suc, pow-suc) (omega (arith, pow_pos k)))

All-append : (xs ys : List ℕ) → All InRange xs → All InRange ys → All InRange (xs ++ ys)
All-append [] ys h k = k
All-append (x ∷ xs) ys h k = (h.0, All-append xs ys h.1 k)

remove_first-All : (t : ℕ) (xs : List ℕ) → All InRange xs → All InRange (remove_first t xs)
remove_first-All t [] h = tt
remove_first-All t (x ∷ xs) h = ground (arith, remove_first-All t xs)

step-InRange : (e : Event) (c : Client) → All InRange c.timers → All InRange (step e c).timers
unfolding step Ws.connect Ws.disconnect Ws.send Ws.on_connection_state_change
    Ws.off_connection_state_change on_open on_close on_error on_timer
step-InRange (Event.timer t) c h = ground (arith, remove_first-All t c.timers)
step-InRange (Event.closed i) c h = ground (
  arith,
  delay_after-InRange c.reconnect_attempt,
  All-append c.timers (delay_after c.reconnect_attempt ∷ []),
)
step-InRange _ c h = ground arith

run_from-InRange :
    (es : List Event) (c : Client) → All InRange c.timers → All InRange (run es c).timers
unfolding run
run_from-InRange [] c h = h
run_from-InRange (e ∷ es) c h = run_from-InRange es (step e c) (step-InRange e c h)

-- Whatever happens, every delay that waits lies between one second and thirty.
pub run-InRange : (es : List Event) → All InRange (run es new_client).timers
unfolding new_client
run-InRange es = run_from-InRange es new_client tt

-- The client has lost `k` connections in a row and tries again: its socket is `i`.
pub record IsRetrying (t : String) (k i : ℕ) (c : Client) : Type 0 where
  pub token : c.token ≡ some t
  pub attempt : c.reconnect_attempt ≡ k
  pub ws : c.ws ≡ some i
  pub next : c.next ≡ suc i
  pub timers : c.timers ≡ []
  pub state : c.connection_state ≡ ConnectionState.connecting

retry-IsRetrying :
    (token : String) (k i : ℕ) (c : Client)
    → truthy? (some token) ≡ true
    → IsRetrying token k i c
    → IsRetrying token (k + 1) (suc i) (on_timer (delay_after k) (on_close i c))
unfolding on_timer on_close delay_after
retry-IsRetrying token k i c p h = ground arith

-- `n` connections in a row are lost, and each delay passes: the client had lost `k` before, and its
-- socket is `i`.
abbrev pub failures : ℕ → ℕ → ℕ → List Event
failures zero k i = []
failures (suc n) k i = Event.closed i ∷ Event.timer (delay_after k) ∷ failures n (k + 1) (suc i)

run_from-failures :
    (n k i : ℕ) (token : String) (c : Client)
    → truthy? (some token) ≡ true
    → IsRetrying token k i c
    → IsRetrying token (k + n) (i + n) (run (failures n k i) c)
unfolding run step
run_from-failures zero k i token c p h =
    subst₂ (λ a b. IsRetrying token a b (run [] c)) (omega arith) (omega arith) h
run_from-failures (suc n) k i token c p h =
    subst₂ (λ a b. IsRetrying token a b (run (failures (suc n) k i) c)) (omega arith) (omega arith)
      (run_from-failures n (k + 1) (suc i) token (on_timer (delay_after k) (on_close i c)) p
        (retry-IsRetrying token k i c p h))

connect-IsRetrying :
    (token : String)
    → truthy? (some token) ≡ true
    → IsRetrying token 0 0 (Ws.connect token new_client)
unfolding new_client Ws.connect
connect-IsRetrying token p = ground arith

-- The client never gives up: after any number of lost connections in a row it is connecting again
-- with the same token, and the next delay is the one of that number.
pub run-failures :
    (n : ℕ) (token : String)
    → truthy? (some token) ≡ true
    → IsRetrying token n n (run (failures n 0 0) (Ws.connect token new_client))
run-failures n token p =
    subst₂ (λ a b. IsRetrying token a b (run (failures n 0 0) (Ws.connect token new_client)))
      (omega arith) (omega arith)
      (run_from-failures n 0 0 token (Ws.connect token new_client) p (connect-IsRetrying token p))

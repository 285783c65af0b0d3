-- ===== src/Rtc/Signals.antt =====
-- What a video call sends,
-- frontend/src/features/connect-rtc/index.ts.
use chessview.Common.{
  ℕ, ◌-◌, ◌≡◌, refl, String, Bool, true, false, not, ◌&&◌, ◌||◌, Option, none, some, List, [], ◌∷◌,
  ◌++◌, ◌==◌, all, arith,
}
use chessview.Types.{PlayerColor}
use chessview.Types.Events.{EventType}
use chessview.Ws
use chessview.Ws.{Client, Message, is_open}
use chessview.Common.Splits.{option_split, if_split}
use chessview.Rtc.Call.{
  Call, is_white, send_signal, create_offer_if_needed, on_offer_created, on_offer_failed, on_retry,
  handle_pending_offer, on_pending_answered, on_pending_failed, on_media, on_media_refused,
  on_offer, on_answered, on_answer_failed, on_finalize_failed, on_candidate_failed, on_error,
  on_remote_stream, on_state_change, dispose,
}
use chessview.Rtc.Left.{
  Event, offer_created, pending_answered, answered, offer_failed, pending_failed, answer_failed,
  finalize_failed, candidate_failed, retry, leave, media, media_refused, offer, ice_candidate,
  server_error, remote_stream, state_change, step, run,
}
use chessview.Common.{eq_iff}
use chessview.Common.Text.{same}

-- A frame of the game, and an offer only from White.
unfoldable pub is_offer : EventType → Bool
is_offer EventType.rtc_offer = true
is_offer _ = false

unfoldable pub is_own : Option String → PlayerColor → ℕ × Message → Bool
unfolding is_offer
is_own g color (i, m) = same m.game_id g && (not (is_offer m.kind) || is_white color)

pub record IsOwn (g : Option String) (color : PlayerColor) (c : Call) : Type 0 where
  pub own_game : c.game_id ≡ g
  pub own_color : c.my_color ≡ color
  pub own_offers : (c.offers == 0) ≡ false → is_white color ≡ true
  pub sent : all (is_own g color) c.client.sent ≡ true

same_refl : (g : Option String) → same g g ≡ true
same_refl none = refl
same_refl (some s) = ground (arith, eq_iff s s)

all-append :
    {A : Type 0} (test : A → Bool) (xs : List A) (x : A)
    → all test (xs ++ x ∷ []) ≡ (all test xs && test x)
all-append test [] x = ground arith
all-append test (y ∷ xs) x = ground (arith, all-append test xs x)

send-own :
    (g : Option String) (color : PlayerColor) (m : Message) (c : Client)
    → all (is_own g color) c.sent ≡ true
    → ((i : ℕ) → is_own g color (i, m) ≡ true)
    → all (is_own g color) (Ws.send m c).0.sent ≡ true
unfolding Ws.send
send-own g color m c h k =
    option_split (λ (r : Client × Bool). all (is_own g color) r.0.sent ≡ true) c.ws _ _ (λ n. h)
      (λ i e.
        if_split (λ (r : Client × Bool). all (is_own g color) r.0.sent ≡ true) (is_open (c.ready i))
          _ _ (λ o. ground (arith, h, k i, all-append (is_own g color) c.sent (i, m))) (λ o. h))

own_signal :
    (g h : Option String) (color : PlayerColor) (kind : EventType) (payload : String) (i : ℕ)
    → h ≡ g
    → (not (is_offer kind) || is_white color) ≡ true
    → is_own g color (i, record { kind = kind; payload = payload; game_id = h }) ≡ true
unfolding is_own
own_signal g h color kind payload i e k = ground (arith, e, k, same_refl g)

send_signal-IsOwn :
    (g : Option String) (color : PlayerColor) (kind : EventType) (payload : String) (c : Call)
    → IsOwn g color c
    → (not (is_offer kind) || is_white color) ≡ true
    → IsOwn g color (send_signal kind payload c)
unfolding send_signal
send_signal-IsOwn g color kind payload c h k =
    let m : Message = record { kind = kind; payload = payload; game_id = c.game_id } in
    ground (
      arith,
      h,
      send-own g color m c.client h.sent
          (λ i. own_signal g c.game_id color kind payload i h.own_game k),
    )

step-IsOwn :
    (g : Option String) (color : PlayerColor) (e : Event) (c : Call)
    → IsOwn g color c
    → IsOwn g color (step e c)
unfolding step is_offer create_offer_if_needed on_offer_created on_offer_failed on_retry
    handle_pending_offer on_pending_answered on_pending_failed on_media on_media_refused on_offer
    on_answered on_answer_failed on_finalize_failed on_candidate_failed on_error on_remote_stream
    on_state_change dispose
step-IsOwn g color (offer_created sdp) c h = ground (
  arith,
  h,
  send_signal-IsOwn g color EventType.rtc_offer sdp (record c { offers = c.offers - 1 })
      (ground (arith, h)),
)
step-IsOwn g color (pending_answered sdp) c h = ground (
  arith,
  h,
  send_signal-IsOwn g color EventType.rtc_answer sdp
      (record c { pending_offer = none; pending_answers = c.pending_answers - 1 })
      (ground (arith, h)),
)
step-IsOwn g color (answered sdp) c h = ground (
  arith,
  h,
  send_signal-IsOwn g color EventType.rtc_answer sdp (record c { answers = c.answers - 1 })
      (ground (arith, h)),
)
step-IsOwn g color offer_failed c h = ground (arith, h)
step-IsOwn g color pending_failed c h = ground (arith, h)
step-IsOwn g color answer_failed c h = ground (arith, h)
step-IsOwn g color finalize_failed c h = ground (arith, h)
step-IsOwn g color candidate_failed c h = ground (arith, h)
step-IsOwn g color retry c h = ground (arith, h)
step-IsOwn g color leave c h = ground (arith, h)
step-IsOwn g color (media t) c h = ground (arith, h)
step-IsOwn g color (media_refused t) c h = ground (arith, h)
step-IsOwn g color (offer t) c h = ground (arith, h)
step-IsOwn g color (ice_candidate t) c h =
    ground (arith, h, send_signal-IsOwn g color EventType.rtc_ice t c h)
step-IsOwn g color (server_error p) c h = ground (arith, h)
step-IsOwn g color (remote_stream t) c h = ground (arith, h)
step-IsOwn g color (state_change t) c h = ground (arith, h)

-- A call sends nothing for another game, and no offer unless the user plays White: after any events from
-- a call of which this is true, it is true of every frame that was written.
pub run-IsOwn :
    (g : Option String) (color : PlayerColor) (events : List Event) (c : Call)
    → IsOwn g color c
    → IsOwn g color (run events c)
unfolding run
run-IsOwn g color [] c h = h
run-IsOwn g color (e ∷ events) c h = run-IsOwn g color events (step e c) (step-IsOwn g color e c h)

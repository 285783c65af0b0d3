-- ===== src/Rtc/Left.antt =====
-- What a video call sends and what it leaves behind,
-- frontend/src/features/connect-rtc/index.ts.
use chessview.Common.{
  ℕ, ◌≡◌, refl, String, Bool, true, false, ◌||◌, none, some, List, [], ◌∷◌, ◌==◌, any, arith,
}
use chessview.Types.{ErrorPayload}
use chessview.Types.Events.{EventType, WsEnvelope}
use chessview.Rtc
use chessview.Rtc.{
  Media, replaced, stop_stream, set_local_stream, set_remote_stream, set_status, set_error,
}
use chessview.Rtc.Released.{names, is_stopped, stop_stream-stopped, replaced-names}
use chessview.Rtc.Call.{
  Call, ConnectionState, send_signal, create_offer_if_needed, on_offer_created, on_offer_failed,
  on_retry, handle_pending_offer, on_pending_answered, on_pending_failed, on_media,
  on_media_refused, on_offer, on_answered, on_answer_failed, on_finalize_failed,
  on_candidate_failed, on_error, on_remote_stream, on_state_change, dispose,
}

pub data Event : Type 0 where
  offer_created pending_answered answered : String → Event
  offer_failed pending_failed answer_failed finalize_failed candidate_failed retry leave : Event
  media : ℕ → Event
  media_refused : String → Event
  offer : WsEnvelope String → Event
  ice_candidate : String → Event
  server_error : ErrorPayload → Event
  remote_stream : ℕ → Event
  state_change : ConnectionState → Event

unfoldable pub step : Event → Call → Call
step (offer_created sdp) = on_offer_created sdp
step (pending_answered sdp) = on_pending_answered sdp
step (answered sdp) = on_answered sdp
step offer_failed = on_offer_failed
step pending_failed = on_pending_failed
step answer_failed = on_answer_failed
step finalize_failed = on_finalize_failed
step candidate_failed = on_candidate_failed
step retry = on_retry
step leave = dispose
step (media s) = on_media s
step (media_refused text) = on_media_refused text
step (offer e) = on_offer e
step (ice_candidate text) = send_signal EventType.rtc_ice text
step (server_error payload) = on_error payload
step (remote_stream s) = on_remote_stream s
step (state_change state) = on_state_change state

unfoldable pub run : List Event → Call → Call
run [] c = c
run (e ∷ events) c = run events (step e c)

-- A call that was left holds no stream of its own, in the store or beside it.
pub record IsLeft (c : Call) : Type 0 where
  pub store_left : c.disposed ≡ true → c.media.store.local_stream ≡ none
  pub own_left : c.disposed ≡ true → c.local_stream ≡ none

step-IsLeft : (e : Event) (c : Call) → IsLeft c → IsLeft (step e c)
unfolding step send_signal create_offer_if_needed on_offer_created on_offer_failed on_retry
    handle_pending_offer on_pending_answered on_pending_failed on_media on_media_refused on_offer
    on_answered on_answer_failed on_finalize_failed on_candidate_failed on_error on_remote_stream
    on_state_change dispose Rtc.reset set_status set_error set_local_stream set_remote_stream
step-IsLeft e c h = elim e [
  | offer_created sdp ↦ ground (arith, h)
  | pending_answered sdp ↦ ground (arith, h)
  | answered sdp ↦ ground (arith, h)
  | offer_failed ↦ ground (arith, h)
  | pending_failed ↦ ground (arith, h)
  | answer_failed ↦ ground (arith, h)
  | finalize_failed ↦ ground (arith, h)
  | candidate_failed ↦ ground (arith, h)
  | retry ↦ ground (arith, h)
  | leave ↦ ground (arith, h)
  | media s ↦ ground (arith, h)
  | media_refused t ↦ ground (arith, h)
  | offer t ↦ ground (arith, h)
  | ice_candidate t ↦ ground (arith, h)
  | server_error p ↦ ground (arith, h)
  | remote_stream s ↦ ground (arith, h)
  | state_change s ↦ ground (arith, h)
]

step-disposed : (e : Event) (c : Call) → c.disposed ≡ true → (step e c).disposed ≡ true
unfolding step send_signal create_offer_if_needed on_offer_created on_offer_failed on_retry
    handle_pending_offer on_pending_answered on_pending_failed on_media on_media_refused on_offer
    on_answered on_answer_failed on_finalize_failed on_candidate_failed on_error on_remote_stream
    on_state_change dispose
step-disposed (offer_created sdp) c h = ground (arith, h)
step-disposed (pending_answered sdp) c h = ground (arith, h)
step-disposed (answered sdp) c h = ground (arith, h)
step-disposed offer_failed c h = ground (arith, h)
step-disposed pending_failed c h = ground (arith, h)
step-disposed answer_failed c h = ground (arith, h)
step-disposed finalize_failed c h = ground (arith, h)
step-disposed candidate_failed c h = ground (arith, h)
step-disposed retry c h = ground (arith, h)
step-disposed leave c h = ground (arith, h)
step-disposed (media t) c h = ground (arith, h)
step-disposed (media_refused t) c h = ground (arith, h)
step-disposed (offer t) c h = ground (arith, h)
step-disposed (ice_candidate t) c h = ground (arith, h)
step-disposed (server_error p) c h = ground (arith, h)
step-disposed (remote_stream t) c h = ground (arith, h)
step-disposed (state_change t) c h = ground (arith, h)

left_disposed : (c : Call) → (step leave c).disposed ≡ true
unfolding step dispose
left_disposed c = refl

-- The stream is the one of the store, or is stopped.
abbrev pub is_kept : ℕ → Call → Bool
is_kept s c = names s c.media.store.local_stream || is_stopped s c.media

abbrev pub grants : ℕ → Event → Bool
grants s (media t) = t == s
grants s _ = false

names_self : (s : ℕ) → names s (some s) ≡ true
names_self s = ground arith

step-is_kept :
    (s : ℕ) (e : Event) (c : Call)
    → (is_kept s c || grants s e) ≡ true
    → is_kept s (step e c) ≡ true
unfolding step send_signal create_offer_if_needed on_offer_created on_offer_failed on_retry
    handle_pending_offer on_pending_answered on_pending_failed on_media on_media_refused on_offer
    on_answered on_answer_failed on_finalize_failed on_candidate_failed on_error on_remote_stream
    on_state_change dispose Rtc.reset set_status set_error set_local_stream set_remote_stream
step-is_kept s (offer_created sdp) c h = ground (arith, h)
step-is_kept s (pending_answered sdp) c h = ground (arith, h)
step-is_kept s (answered sdp) c h = ground (arith, h)
step-is_kept s offer_failed c h = ground (arith, h)
step-is_kept s pending_failed c h = ground (arith, h)
step-is_kept s answer_failed c h = ground (arith, h)
step-is_kept s finalize_failed c h = ground (arith, h)
step-is_kept s candidate_failed c h = ground (arith, h)
step-is_kept s retry c h = ground (arith, h)
step-is_kept s leave c h = ground (
  arith,
  h,
  stop_stream-stopped s c.media.store.local_stream c.media.tracks,
  stop_stream-stopped s c.media.store.remote_stream
      (stop_stream c.media.store.local_stream c.media.tracks),
)
step-is_kept s (media t) c h = ground (
  arith,
  h,
  stop_stream-stopped s (some t) c.media.tracks,
  stop_stream-stopped s (replaced c.media.store.local_stream (some t)) c.media.tracks,
  replaced-names s c.media.store.local_stream (some t),
)
step-is_kept s (media_refused t) c h = ground (
  arith,
  h,
  stop_stream-stopped s (replaced c.media.store.local_stream none) c.media.tracks,
  replaced-names s c.media.store.local_stream none,
)
step-is_kept s (offer t) c h = ground (arith, h)
step-is_kept s (ice_candidate t) c h = ground (arith, h)
step-is_kept s (server_error p) c h = ground (arith, h)
step-is_kept s (remote_stream t) c h =
    ground (
      arith,
      h,
      stop_stream-stopped s (replaced c.media.store.remote_stream (some t)) c.media.tracks,
    )
step-is_kept s (state_change t) c h = ground (arith, h)

run-is_kept :
    (s : ℕ) (events : List Event) (c : Call)
    → (is_kept s c || any (grants s) events) ≡ true
    → is_kept s (run events c) ≡ true
unfolding run
run-is_kept s [] c h = ground (arith, h)
run-is_kept s (e ∷ events) c h =
    run-is_kept s events (step e c) (ground (arith, h, step-is_kept s e c))

run-IsLeft : (events : List Event) (c : Call) → IsLeft c → IsLeft (run events c)
unfolding run
run-IsLeft [] c h = h
run-IsLeft (e ∷ events) c h = run-IsLeft events (step e c) (step-IsLeft e c h)

run-disposed : (events : List Event) (c : Call) → c.disposed ≡ true → (run events c).disposed ≡ true
unfolding run
run-disposed [] c h = h
run-disposed (e ∷ events) c h = run-disposed events (step e c) (step-disposed e c h)

-- A call that was left, whatever happens before and after that, has no local stream in the store, and
-- every stream of the camera and the microphone that was granted to it, before it was left or too late,
-- has all its tracks stopped.
pub run-leave :
    (s : ℕ) (before after : List Event) (c : Call)
    → IsLeft c
    → (any (grants s) before || any (grants s) after) ≡ true
    → ((run after (step leave (run before c))).media.store.local_stream ≡ none)
      × (is_stopped s (run after (step leave (run before c))).media ≡ true)
run-leave s before after c l h =
    let left = step leave (run before c) in
    let gone =
      (run-IsLeft after left (step-IsLeft leave (run before c) (run-IsLeft before c l))).store_left
        (run-disposed after left (left_disposed (run before c))) in
    ground (
      arith,
      h,
      gone,
      run-is_kept s before c,
      step-is_kept s leave (run before c),
      run-is_kept s after left,
    )

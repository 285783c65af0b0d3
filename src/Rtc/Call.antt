-- ===== src/Rtc/Call.antt =====
-- The video call of a game, frontend/src/features/connect-rtc/index.ts. A session description and a
-- candidate are texts. What follows an `await` is a function of its own, and does nothing where no
-- call of its kind waits: `offers`, `pending_answers` and `answers` count those. The candidates and the tracks of the connection are Rtc/Peer.
use chessview.Common.{
  ℕ, suc, ◌-◌, String, Bool, true, false, not, ◌&&◌, ◌||◌, Option, none, some, List, [], ◌∷◌, ◌==◌,
  is_some, str_eq, any, if◌then◌else◌,
}
use chessview.Common.Text.{truthy, truthy?, same}
use chessview.Types.{PlayerColor, ErrorPayload}
use chessview.Types.Events.{EventType, WsEnvelope}
use chessview.Ws
use chessview.Ws.{Client, Message}
use chessview.Rtc
use chessview.Rtc.{
  Media, RtcStatus, stop_stream, set_local_stream, set_remote_stream, set_status, set_error,
}

-- `RTC_ERROR_CODES`
abbrev pub rtc_error_codes : List String
rtc_error_codes = "NOT_IN_GAME" ∷ "WS_NOT_READY" ∷ []

-- `RTCPeerConnectionState`
pub data ConnectionState : Type 0 where
  new connecting connected disconnected failed closed : ConnectionState

unfoldable pub map_connection_state : ConnectionState → RtcStatus
map_connection_state connected = RtcStatus.connected
map_connection_state connecting = RtcStatus.connecting
map_connection_state failed = RtcStatus.failed
map_connection_state disconnected = RtcStatus.failed
map_connection_state closed = RtcStatus.failed
map_connection_state new = RtcStatus.ready

-- The effect's references and variables, the store, and the client. `game_id` and `my_color` are
-- those of the effect.
pub record Call : Type 0 where
  pub game_id : Option String
  pub my_color : PlayerColor
  pub media : Media
  pub client : Client
  pub has_peer : Bool
  pub pending_offer : Option String
  pub initiated_offer : Bool
  pub local_stream : Option ℕ
  pub connected : Bool
  pub disposed : Bool
  pub retry_timer : Bool
  pub offers : ℕ
  pub pending_answers : ℕ
  pub answers : ℕ

abbrev pub is_white : PlayerColor → Bool
is_white PlayerColor.white = true
is_white PlayerColor.black = false

abbrev pub with_media : (Media → Media) → Call → Call
with_media f c = record c { media = f c.media }

abbrev pub show : RtcStatus → String → Call → Call
show status text c = with_media (λ m. set_error (some text) (set_status status m)) c

-- The effect, up to its first wait, or its early return.
unfoldable pub start :
    Option String → Option PlayerColor → Option String → Media → Client → Option Call
start game_id none token media client = none
start game_id (some color) none media client = none
start game_id (some color) (some token) media client =
    if not (truthy? game_id) || not (truthy token)
    then none
    else some (record {
      game_id = game_id;
      my_color = color;
      media = set_error none (set_status RtcStatus.requesting_media media);
      client = Ws.connect token client;
      has_peer = true;
      pending_offer = none;
      initiated_offer = false;
      local_stream = none;
      connected = false;
      disposed = false;
      retry_timer = false;
      offers = 0;
      pending_answers = 0;
      answers = 0;
    })

-- What the early return leaves of the store.
unfoldable pub not_started : Media → Media
not_started = Rtc.reset

unfoldable pub send_signal : EventType → String → Call → Call
send_signal kind payload c =
    let (client, sent) =
      Ws.send (record { kind = kind; payload = payload; game_id = c.game_id }) c.client in
    let after = record c { client = client } in
    if sent
    then after
    else with_media (set_error (some "Realtime signaling is not ready yet.")) after

-- `createOfferIfNeeded`, up to its wait, and what follows it: an offer, or an exception.
unfoldable pub create_offer_if_needed : Call → Call
create_offer_if_needed c =
    if not (is_white c.my_color) || c.initiated_offer || not (is_some c.local_stream) || c.connected
    then c
    else with_media (set_status RtcStatus.connecting)
        (record c { initiated_offer = true; offers = suc c.offers })

unfoldable pub on_offer_created : String → Call → Call
unfolding send_signal
on_offer_created sdp c =
    let settled = record c { offers = c.offers - 1 } in
    if c.offers == 0
    then c
    else if c.disposed
    then settled
    else record (send_signal EventType.rtc_offer sdp settled) { retry_timer = true }

unfoldable pub on_offer_failed : Call → Call
on_offer_failed c =
    let settled = record c { offers = c.offers - 1 } in
    if c.offers == 0
    then c
    else if c.disposed
    then settled
    else show RtcStatus.failed "Unable to start the peer connection." settled

-- The timer of `scheduleOfferRetry`.
unfoldable pub on_retry : Call → Call
unfolding create_offer_if_needed
on_retry c =
    let fired = record c { retry_timer = false } in
    if not c.retry_timer
    then c
    else if c.disposed || c.connected || not (is_white c.my_color) || not (is_some c.local_stream)
    then fired
    else create_offer_if_needed (record fired { initiated_offer = false })

-- `handlePendingOfferIfReady`, up to its wait: `false` if it does not wait.
unfoldable pub handle_pending_offer : Call → Call × Bool
handle_pending_offer c =
    if not (is_some c.pending_offer) || not (is_some c.local_stream) then (c, false) else (
      with_media (set_status RtcStatus.connecting)
          (record c { pending_answers = suc c.pending_answers }),
      true,
    )

unfoldable pub on_pending_answered : String → Call → Call
unfolding send_signal create_offer_if_needed
on_pending_answered sdp c =
    if c.pending_answers == 0
    then c
    else create_offer_if_needed (
        send_signal EventType.rtc_answer sdp
          (record c { pending_offer = none; pending_answers = c.pending_answers - 1 }))

unfoldable pub on_pending_failed : Call → Call
unfolding create_offer_if_needed
on_pending_failed c =
    if c.pending_answers == 0
    then c
    else create_offer_if_needed (
        show RtcStatus.failed "Unable to answer the peer connection offer."
          (record c { pending_answers = c.pending_answers - 1 }))

-- The media are there, or are refused with a text.
unfoldable pub on_media : ℕ → Call → Call
unfolding handle_pending_offer create_offer_if_needed
on_media stream c =
    if c.disposed
    then with_media (λ m. record m { tracks = stop_stream (some stream) m.tracks }) c
    else (let (after, waits) = handle_pending_offer (
          with_media (λ m. set_status RtcStatus.ready (set_local_stream (some stream) m))
            (record c { local_stream = some stream })) in
        if waits then after else create_offer_if_needed after)

unfoldable pub on_media_refused : String → Call → Call
on_media_refused text c =
    if c.disposed
    then c
    else with_media
        (λ m. set_error (some text) (set_status RtcStatus.failed (set_local_stream none m))) c

-- An envelope of another game, or without a connection, is ignored.
abbrev pub is_ours : Option String → Call → Bool
is_ours game_id c = same game_id c.game_id && c.has_peer

-- The callback on an offer, up to its wait, and what follows it.
unfoldable pub on_offer : WsEnvelope String → Call → Call
on_offer e c =
    if not (is_ours e.game_id c)
    then c
    else if not (is_some c.local_stream)
    then record c { pending_offer = some e.payload }
    else with_media (set_status RtcStatus.connecting) (record c { answers = suc c.answers })

unfoldable pub on_answered : String → Call → Call
unfolding send_signal
on_answered sdp c =
    if c.answers == 0
    then c
    else send_signal EventType.rtc_answer sdp (record c { answers = c.answers - 1 })

unfoldable pub on_answer_failed : Call → Call
on_answer_failed c =
    if c.answers == 0
    then c
    else show RtcStatus.failed "Unable to accept the incoming peer connection."
        (record c { answers = c.answers - 1 })

unfoldable pub on_finalize_failed : Call → Call
on_finalize_failed c = show RtcStatus.failed "Unable to finalize the peer connection." c

unfoldable pub on_candidate_failed : Call → Call
on_candidate_failed c = with_media (set_error (some "A network candidate could not be applied.")) c

unfoldable pub on_error : ErrorPayload → Call → Call
on_error payload c =
    if not (any (λ code. str_eq code payload.code) rtc_error_codes)
    then c
    else with_media (set_error (some payload.message)) c

-- The callbacks of the connection.
unfoldable pub on_remote_stream : ℕ → Call → Call
on_remote_stream stream c =
    with_media
      (λ m. set_error none (set_status RtcStatus.connected (set_remote_stream (some stream) m)))
      (record c { connected = true })

abbrev is_failed : RtcStatus → Bool
is_failed RtcStatus.failed = true
is_failed _ = false

unfoldable pub on_state_change : ConnectionState → Call → Call
unfolding map_connection_state
on_state_change state c =
    let status = map_connection_state state in
    let after = with_media (set_status status) c in
    if is_failed status
    then with_media
        (set_error (
          some "Peer connection was interrupted. Refresh the game page if video does not recover."))
        after
    else after

-- The clean-up of the effect.
unfoldable pub dispose : Call → Call
dispose c = record c {
  disposed = true;
  retry_timer = false;
  has_peer = false;
  pending_offer = none;
  local_stream = none;
  connected = false;
  media = Rtc.reset c.media;
}

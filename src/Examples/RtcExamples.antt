-- ===== src/Examples/RtcExamples.antt =====
-- The theorems on video calls at concrete inputs: frontend/src/entities/rtc-peer/model.ts,
-- frontend/src/shared/lib/webrtc.ts and frontend/src/features/connect-rtc/index.ts.
use chessview.Common.{◌≡◌, refl, true, false, ◌||◌, none, some, List, [], ◌∷◌, ◌==◌, if◌then◌else◌}
use chessview.Types.{PlayerColor}
use chessview.Ws.{new_client}
use chessview.Rtc
use chessview.Rtc.{Track, Media}
use chessview.Rtc.Released
use chessview.Rtc.Released.{is_held, is_stopped, local_stream, camera, run-released}
use chessview.Rtc.Peer.{new_peer, continue_flush, add_ice_candidate, start_flush, describe}
use chessview.Rtc.Candidates
use chessview.Rtc.Candidates.{described, flushed, candidate, continued, times, run-applied}
use chessview.Rtc.Call.{Call}
use chessview.Rtc.Left
use chessview.Rtc.Left.{Event, media, offer_created, ice_candidate, leave, IsLeft, run-leave}
use chessview.Rtc.Signals.{IsOwn, run-IsOwn}
use chessview.Examples.PlayExamples.{ready_client}

abbrev video : Track
video = record { id = "v"; is_video = true; enabled = true; stopped = false }

abbrev empty_media : Media
empty_media = record { tracks = λ s. if s == 7 then video ∷ [] else []; store = Rtc.initial_state }

-- A stream is set, the camera is toggled, and another stream takes its place.
run-released_example :
    (is_held 7
        (Released.run (local_stream (some 7) ∷ camera ∷ local_stream (some 8) ∷ []) empty_media)
      || is_stopped 7
          (Released.run (local_stream (some 7) ∷ camera ∷ local_stream (some 8) ∷ []) empty_media))
    ≡ true
run-released_example =
    run-released 7 (local_stream (some 7) ∷ camera ∷ local_stream (some 8) ∷ []) empty_media refl

-- Two candidates come before the description, one behind it.
abbrev steps : List Candidates.Step
steps =
    candidate 1 ∷ candidate 2 ∷ described ∷ flushed ∷ continued 0 ∷ candidate 1 ∷ continued 0 ∷ []

nothing_waits : Candidates.waiting 1 (Candidates.run (λ c. true) steps new_peer) ≡ 0
unfolding Candidates.run Candidates.step continue_flush add_ice_candidate start_flush describe
nothing_waits = refl

run-applied_example : times 1 (Candidates.run (λ c. true) steps new_peer).applied ≡ 2
run-applied_example = run-applied (λ c. true) (λ c. refl) 1 steps nothing_waits

abbrev call : Call
call = record {
  game_id = some "g1";
  my_color = PlayerColor.white;
  media = empty_media;
  client = ready_client;
  has_peer = true;
  pending_offer = none;
  initiated_offer = false;
  local_stream = none;
  connected = false;
  disposed = false;
  retry_timer = false;
  offers = 0;
  pending_answers = 0;
  answers = 0;
}

call-IsLeft : IsLeft call
call-IsLeft = record { store_left = λ e. refl; own_left = λ e. refl }

-- The camera is granted, and again when the call was left.
run-leave_example :
    ((Left.run
        (media 8 ∷ [])
        (Left.step leave (Left.run (media 7 ∷ []) call))).media.store.local_stream
      ≡ none)
    × (is_stopped 7 (Left.run (media 8 ∷ []) (Left.step leave (Left.run (media 7 ∷ []) call))).media
        ≡ true)
run-leave_example = run-leave 7 (media 7 ∷ []) (media 8 ∷ []) call call-IsLeft refl

call-IsOwn : IsOwn (some "g1") PlayerColor.white call
unfolding new_client
call-IsOwn = record { own_game = refl; own_color = refl; own_offers = λ e. refl; sent = refl }

run-IsOwn_example :
    IsOwn
      (some "g1")
      PlayerColor.white
      (Left.run (media 7 ∷ offer_created "sdp" ∷ ice_candidate "c" ∷ []) call)
run-IsOwn_example =
    run-IsOwn (some "g1") PlayerColor.white (media 7 ∷ offer_created "sdp" ∷ ice_candidate "c" ∷ [])
      call call-IsOwn

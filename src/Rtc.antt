-- ===== src/Rtc.antt =====
-- The store of a video call, frontend/src/entities/rtc-peer/model.ts. A stream is a number, and its
-- tracks, which the store changes, are kept beside the store.
pub mod Released
pub mod Flags
pub mod Peer
pub mod Candidates
pub mod Call
pub mod Left
pub mod Signals
use chessview.Common.{
  ℕ, String, Bool, true, false, not, ◌&&◌, Option, none, some, List, map, any, filter, ◌==◌,
  if◌then◌else◌,
}

pub data RtcStatus : Type 0 where
  idle requesting_media ready connecting connected failed : RtcStatus

pub record Track : Type 0 where
  pub id : String
  pub is_video : Bool
  pub enabled : Bool
  pub stopped : Bool

pub record RtcPeerState : Type 0 where
  pub local_stream : Option ℕ
  pub remote_stream : Option ℕ
  pub is_camera_on : Bool
  pub is_mic_on : Bool
  pub status : RtcStatus
  pub error : Option String

-- The tracks of every stream, and the store.
pub record Media : Type 0 where
  pub tracks : ℕ → List Track
  pub store : RtcPeerState

abbrev pub initial_state : RtcPeerState
initial_state = record {
  local_stream = none;
  remote_stream = none;
  is_camera_on = true;
  is_mic_on = true;
  status = idle;
  error = none;
}

-- The tracks of one stream are changed.
abbrev pub change_tracks : (Track → Track) → ℕ → (ℕ → List Track) → ℕ → List Track
change_tracks f s tracks t = if t == s then map f (tracks t) else tracks t

abbrev pub stop_track : Track → Track
stop_track t = record t { stopped = true }

unfoldable pub stop_stream : Option ℕ → (ℕ → List Track) → ℕ → List Track
stop_stream none tracks = tracks
stop_stream (some s) tracks = change_tracks stop_track s tracks

-- `state.stream && state.stream !== stream`
abbrev pub replaced : Option ℕ → Option ℕ → Option ℕ
replaced none new = none
replaced (some s) none = some s
replaced (some s) (some t) = if s == t then none else some s

-- `stream ? stream.getVideoTracks().some((track) => track.enabled) : false`, and for the others.
abbrev pub is_on : Bool → Track → Bool
is_on video t = (if video then t.is_video else not t.is_video) && t.enabled

abbrev pub has_enabled : Bool → Option ℕ → (ℕ → List Track) → Bool
has_enabled video none tracks = false
has_enabled video (some s) tracks = any (is_on video) (tracks s)

unfoldable pub set_local_stream : Option ℕ → Media → Media
unfolding stop_stream
set_local_stream stream m =
    let tracks = stop_stream (replaced m.store.local_stream stream) m.tracks in
    record {
      tracks = tracks;
      store = record m.store {
        local_stream = stream;
        is_camera_on = has_enabled true stream tracks;
        is_mic_on = has_enabled false stream tracks;
      };
    }

unfoldable pub set_remote_stream : Option ℕ → Media → Media
unfolding stop_stream
set_remote_stream stream m = record {
  tracks = stop_stream (replaced m.store.remote_stream stream) m.tracks;
  store = record m.store { remote_stream = stream };
}

unfoldable pub set_status : RtcStatus → Media → Media
set_status status m = record m { store = record m.store { status = status } }

unfoldable pub set_error : Option String → Media → Media
set_error error m = record m { store = record m.store { error = error } }

-- `track.enabled = value`, for the video tracks or for the others.
abbrev pub enable : Bool → Bool → Track → Track
enable video value t =
    if (if video then t.is_video else not t.is_video) then record t { enabled = value } else t

abbrev pub enable_all : Bool → Bool → Option ℕ → (ℕ → List Track) → ℕ → List Track
enable_all video value none tracks = tracks
enable_all video value (some s) tracks = change_tracks (enable video value) s tracks

unfoldable pub toggle_camera : Media → Media
toggle_camera m = record {
  tracks = enable_all true (not m.store.is_camera_on) m.store.local_stream m.tracks;
  store = record m.store { is_camera_on = not m.store.is_camera_on };
}

unfoldable pub toggle_mic : Media → Media
toggle_mic m = record {
  tracks = enable_all false (not m.store.is_mic_on) m.store.local_stream m.tracks;
  store = record m.store { is_mic_on = not m.store.is_mic_on };
}

unfoldable pub reset : Media → Media
unfolding stop_stream
reset m = record {
  tracks = stop_stream m.store.remote_stream (stop_stream m.store.local_stream m.tracks);
  store = initial_state;
}

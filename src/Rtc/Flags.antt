-- ===== src/Rtc/Flags.antt =====
-- The flags of the store of a video call follow the tracks,
-- frontend/src/entities/rtc-peer/model.ts.
use chessview.Common.{
  ℕ, ◌≡◌, refl, Bool, true, false, not, ◌&&◌, Option, none, some, List, [], ◌∷◌, map, any, arith,
  if◌then◌else◌,
}
use chessview.Rtc.{
  Media, Track, replaced, enable_all, stop_stream, stop_track, is_on, enable, has_enabled,
  set_local_stream, set_remote_stream, set_status, set_error, toggle_camera, toggle_mic, reset,
}
use chessview.Rtc.Released.{
  Action, local_stream, remote_stream, status, error, camera, mic, clear, step, run,
}

-- Whether the stream of the store has tracks of a kind, and whether one of them is enabled.
abbrev pub has_kind : Bool → Track → Bool
has_kind video t = if video then t.is_video else not t.is_video

abbrev pub has_any : Bool → Option ℕ → (ℕ → List Track) → Bool
has_any video none tracks = false
has_any video (some s) tracks = any (has_kind video) (tracks s)

-- The flags say whether a track of their kind is enabled, if there is one.
pub record IsShown (m : Media) : Type 0 where
  pub camera_shown :
      has_any true m.store.local_stream m.tracks ≡ true
      → m.store.is_camera_on ≡ has_enabled true m.store.local_stream m.tracks
  pub mic_shown :
      has_any false m.store.local_stream m.tracks ≡ true
      → m.store.is_mic_on ≡ has_enabled false m.store.local_stream m.tracks

any-stop :
    (video : Bool) (ts : List Track)
    → (any (is_on video) (map stop_track ts) ≡ any (is_on video) ts)
      × (any (has_kind video) (map stop_track ts) ≡ any (has_kind video) ts)
any-stop video [] = (refl, refl)
any-stop video (t ∷ ts) = ground (arith, any-stop video ts)

any-enable-same :
    (video value : Bool) (ts : List Track)
    → (any (has_kind video) (map (enable video value) ts) ≡ any (has_kind video) ts)
      × (any (is_on video) (map (enable video value) ts) ≡ (any (has_kind video) ts && value))
any-enable-same video value [] = (refl, ground arith)
any-enable-same video value (t ∷ ts) = ground (arith, any-enable-same video value ts)

any-enable-other :
    (video value : Bool) (ts : List Track)
    → (any (has_kind (not video)) (map (enable video value) ts) ≡ any (has_kind (not video)) ts)
      × (any (is_on (not video)) (map (enable video value) ts) ≡ any (is_on (not video)) ts)
any-enable-other video value [] = (refl, refl)
any-enable-other video value (t ∷ ts) = ground (arith, any-enable-other video value ts)

stop_stream-flags :
    (o : Option ℕ) (video : Bool) (l : Option ℕ) (tracks : ℕ → List Track)
    → (has_enabled video l (stop_stream o tracks) ≡ has_enabled video l tracks)
      × (has_any video l (stop_stream o tracks) ≡ has_any video l tracks)
unfolding stop_stream
stop_stream-flags none video l tracks = (refl, refl)
stop_stream-flags (some s) video none tracks = (refl, refl)
stop_stream-flags (some s) video (some t) tracks = ground (arith, any-stop video (tracks t))

enable_all-same :
    (video value : Bool) (l : Option ℕ) (tracks : ℕ → List Track)
    → (has_any video l (enable_all video value l tracks) ≡ has_any video l tracks)
      × (has_enabled video l (enable_all video value l tracks) ≡ (has_any video l tracks && value))
enable_all-same video value none tracks = (refl, ground arith)
enable_all-same video value (some t) tracks = ground (arith, any-enable-same video value (tracks t))

enable_all-other :
    (video value : Bool) (l : Option ℕ) (tracks : ℕ → List Track)
    → (has_any (not video) l (enable_all video value l tracks) ≡ has_any (not video) l tracks)
      × (has_enabled (not video) l (enable_all video value l tracks)
          ≡ has_enabled (not video) l tracks)
enable_all-other video value none tracks = (refl, refl)
enable_all-other video value (some t) tracks =
    ground (arith, any-enable-other video value (tracks t))

pub step-IsShown : (a : Action) (m : Media) → IsShown m → IsShown (step a m)
unfolding step set_local_stream set_remote_stream set_status set_error toggle_camera toggle_mic
    reset
step-IsShown (local_stream t) m h = record { camera_shown = λ e. refl; mic_shown = λ e. refl }
step-IsShown (remote_stream t) m h = ground (
  arith,
  h,
  stop_stream-flags (replaced m.store.remote_stream t) true m.store.local_stream m.tracks,
  stop_stream-flags (replaced m.store.remote_stream t) false m.store.local_stream m.tracks,
)
step-IsShown (status t) m h = ground (arith, h)
step-IsShown (error t) m h = ground (arith, h)
step-IsShown camera m h = ground (
  arith,
  h,
  enable_all-same true (not m.store.is_camera_on) m.store.local_stream m.tracks,
  enable_all-other true (not m.store.is_camera_on) m.store.local_stream m.tracks,
)
step-IsShown mic m h = ground (
  arith,
  h,
  enable_all-same false (not m.store.is_mic_on) m.store.local_stream m.tracks,
  enable_all-other false (not m.store.is_mic_on) m.store.local_stream m.tracks,
)
step-IsShown clear m h = ground arith

-- After any calls from a store that shows its flags, the flag of the camera says whether a video track of
-- the local stream is enabled, if it has one, and the flag of the microphone the same of the others.
pub run-IsShown : (calls : List Action) (m : Media) → IsShown m → IsShown (run calls m)
unfolding run
run-IsShown [] m h = h
run-IsShown (a ∷ rest) m h = run-IsShown rest (step a m) (step-IsShown a m h)

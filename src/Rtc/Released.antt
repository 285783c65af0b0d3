-- ===== src/Rtc/Released.antt =====
-- The streams that leave the store of a video call are stopped, and its flags follow the tracks,
-- frontend/src/entities/rtc-peer/model.ts.
use chessview.Common.{
  ℕ, ◌≡◌, refl, String, Bool, true, false, not, ◌||◌, Option, none, some, List, [], ◌∷◌, map, any,
  all, ◌==◌, arith,
}
use chessview.Rtc.{
  Media, Track, RtcStatus, replaced, enable_all, stop_stream, stop_track, enable, set_local_stream,
  set_remote_stream, set_status, set_error, toggle_camera, toggle_mic, reset,
}

-- The calls of the store's setters.
pub data Action : Type 0 where
  local_stream remote_stream : Option ℕ → Action
  status : RtcStatus → Action
  error : Option String → Action
  camera mic clear : Action

unfoldable pub step : Action → Media → Media
step (local_stream s) = set_local_stream s
step (remote_stream s) = set_remote_stream s
step (status s) = set_status s
step (error e) = set_error e
step camera = toggle_camera
step mic = toggle_mic
step clear = reset

unfoldable pub run : List Action → Media → Media
run [] m = m
run (a ∷ rest) m = run rest (step a m)

-- Whether the calls put the stream into the store.
abbrev pub names : ℕ → Option ℕ → Bool
names s none = false
names s (some t) = t == s

abbrev pub puts : ℕ → Action → Bool
puts s (local_stream t) = names s t
puts s (remote_stream t) = names s t
puts s _ = false

abbrev pub is_stopped : ℕ → Media → Bool
is_stopped s m = all (λ t. t.stopped) (m.tracks s)

abbrev pub is_held : ℕ → Media → Bool
is_held s m = names s m.store.local_stream || names s m.store.remote_stream

pub all-stop : (ts : List Track) → all (λ t. t.stopped) (map stop_track ts) ≡ true
all-stop [] = refl
all-stop (t ∷ ts) = all-stop ts

all-enable :
    (video value : Bool) (ts : List Track)
    → all (λ t. t.stopped) (map (enable video value) ts) ≡ all (λ t. t.stopped) ts
all-enable video value [] = refl
all-enable video value (t ∷ ts) = ground (arith, all-enable video value ts)

pub stop_stream-stopped :
    (s : ℕ) (o : Option ℕ) (tracks : ℕ → List Track)
    → (names s o || all (λ t. t.stopped) (tracks s)) ≡ true
    → all (λ t. t.stopped) (stop_stream o tracks s) ≡ true
unfolding stop_stream
stop_stream-stopped s none tracks h = h
stop_stream-stopped s (some t) tracks h = ground (arith, h, all-stop (tracks s))

pub replaced-names :
    (s : ℕ) (old new : Option ℕ)
    → names s old ≡ true
    → (names s new || names s (replaced old new)) ≡ true
replaced-names s old new h = ground arith

enable_all-stopped :
    (s : ℕ) (video value : Bool) (o : Option ℕ) (tracks : ℕ → List Track)
    → all (λ t. t.stopped) (enable_all video value o tracks s) ≡ all (λ t. t.stopped) (tracks s)
enable_all-stopped s video value none tracks = refl
enable_all-stopped s video value (some t) tracks = ground (arith, all-enable video value (tracks s))

-- A step keeps a stream that is held or stopped so, and a stream that it puts into the store is held.
step-released :
    (s : ℕ) (a : Action) (m : Media)
    → (is_held s m || is_stopped s m || puts s a) ≡ true
    → (is_held s (step a m) || is_stopped s (step a m)) ≡ true
unfolding step set_local_stream set_remote_stream set_status set_error toggle_camera toggle_mic
    reset
step-released s (local_stream t) m h = ground (
  arith,
  h,
  stop_stream-stopped s (replaced m.store.local_stream t) m.tracks,
  replaced-names s m.store.local_stream t,
)
step-released s (remote_stream t) m h = ground (
  arith,
  h,
  stop_stream-stopped s (replaced m.store.remote_stream t) m.tracks,
  replaced-names s m.store.remote_stream t,
)
step-released s (status t) m h = ground (arith, h)
step-released s (error t) m h = ground (arith, h)
step-released s camera m h =
    ground
      (arith, h, enable_all-stopped s true (not m.store.is_camera_on) m.store.local_stream m.tracks)
step-released s mic m h =
    ground
      (arith, h, enable_all-stopped s false (not m.store.is_mic_on) m.store.local_stream m.tracks)
step-released s clear m h = ground (
  arith,
  h,
  stop_stream-stopped s m.store.local_stream m.tracks,
  stop_stream-stopped s m.store.remote_stream (stop_stream m.store.local_stream m.tracks),
)

-- Every stream that was put into the store is still there, or all its tracks are stopped: after any
-- calls, a stream that was in the store before them or that one of them put there.
pub run-released :
    (s : ℕ) (calls : List Action) (m : Media)
    → (is_held s m || is_stopped s m || any (puts s) calls) ≡ true
    → (is_held s (run calls m) || is_stopped s (run calls m)) ≡ true
unfolding run
run-released s [] m h = ground (arith, h)
run-released s (a ∷ rest) m h =
    run-released s rest (step a m) (ground (arith, h, step-released s a m))

-- ===== src/Matchmaking/Invariant.antt =====
-- What holds of the matchmaking store under the callbacks of the lobby,
-- frontend/src/entities/matchmaking/model.ts and frontend/src/features/join-matchmaking/index.ts.
use chessview.Common.{
  String, ◌≡◌, true, false, Option, none, some, List, [], ◌∷◌, arith, is_some, str_eq, not, ◌&&◌,
  if◌then◌else◌,
}
use chessview.Types.{
  ConnectionState, ErrorPayload, MatchFoundPayload, QueueJoinedPayload, TimeControlKey,
}
use chessview.Ws
use chessview.Ws.{Client, is_open_client, current_is, is_open}
use chessview.Matchmaking.{QueueStatus, MatchmakingState, initial_state, set_selected_time_control}
use chessview.Matchmaking.Lobby.{
  Lobby, join_queue, leave_queue, on_connection, on_queue_joined, on_match_found, on_error,
  enter_lobby, join_message, is_waiting,
}

-- Everything that the lobby may do to the queue.
pub data Event : Type 0 where
  join leave : Event
  connection : ConnectionState → Event
  queue_joined : QueueJoinedPayload → Event
  match_found : MatchFoundPayload → Event
  error : ErrorPayload → Event
  enter : Option String → Event
  select : TimeControlKey → Event

unfoldable pub step : Event → Lobby → Lobby
step join l = join_queue l
step leave l = leave_queue l
step (connection state) l = on_connection state l
step (queue_joined payload) l = on_queue_joined payload l
step (match_found payload) l = on_match_found payload l
step (error payload) l = on_error payload l
step (enter token) l = enter_lobby token l
step (select key) l = record l { queue = set_selected_time_control key l.queue }

unfoldable pub run : List Event → Lobby → Lobby
run [] l = l
run (e ∷ es) l = run es (step e l)

pub record IsSettled (s : MatchmakingState) : Type 0 where
  pub position_queued : is_some s.queue_position ≡ true → s.queue_status ≡ QueueStatus.queued
  pub queued_position : s.queue_status ≡ QueueStatus.queued → is_some s.queue_position ≡ true
  pub matched_match : s.queue_status ≡ QueueStatus.matched → is_some s.last_match ≡ true
  pub joining_blank : s.queue_status ≡ QueueStatus.joining → s.last_match ≡ none
  pub idle_blank : s.queue_status ≡ QueueStatus.idle → s.last_match ≡ none
  pub not_leaving : s.queue_status ≡ QueueStatus.leaving → ⊥

step-IsSettled : (e : Event) (l : Lobby) → IsSettled l.queue → IsSettled (step e l).queue
unfolding step join_queue leave_queue on_connection on_queue_joined on_match_found on_error
    enter_lobby set_selected_time_control Ws.send
step-IsSettled join l h = ground arith
step-IsSettled _ l h = ground arith

run_from-IsSettled : (es : List Event) (l : Lobby) → IsSettled l.queue → IsSettled (run es l).queue
unfolding run
run_from-IsSettled [] l h = h
run_from-IsSettled (e ∷ es) l h = run_from-IsSettled es (step e l) (step-IsSettled e l h)

-- From the initial state of the store, and whatever the user and the server do: a position is shown
-- exactly while queued, a match is there once matched and gone when joining or idle, and no callback
-- ends in "leaving".
pub run-IsSettled :
    (es : List Event) (l : Lobby) → l.queue ≡ initial_state → IsSettled (run es l).queue
unfolding initial_state
run-IsSettled es l h = run_from-IsSettled es l (ground arith)

-- Joining twice is joining once, in every state: no second request is sent.
pub join_queue_idem : (l : Lobby) → join_queue (join_queue l) ≡ join_queue l
unfolding join_queue Ws.send
join_queue_idem l = ground arith

-- Outside the queue, a request is sent exactly when the connection reports that it is open and its
-- socket is; then the store is joining, with no error. Otherwise it is idle with an error and the
-- client is as it was.
pub join_queue_lem :
    (l : Lobby)
    → is_waiting l.queue.queue_status ≡ false
    → let can_send = is_open_client l.client && current_is is_open l.client in
      ((join_queue l).queue.queue_status
        ≡ (if can_send then QueueStatus.joining else QueueStatus.idle))
      × (is_some (join_queue l).queue.last_error ≡ not can_send)
      × ((join_queue l).client ≡ (
          if can_send
          then (Ws.send (join_message l.queue.selected_time_control) l.client).0
          else l.client))
unfolding join_queue Ws.send
join_queue_lem l h = ground arith

-- Leaving always ends idle, with no position and no match; an error is shown exactly when the
-- request could not be sent.
pub leave_queue_lem :
    (l : Lobby)
    → ((leave_queue l).queue.queue_status ≡ QueueStatus.idle)
      × ((leave_queue l).queue.queue_position ≡ none)
      × ((leave_queue l).queue.last_match ≡ none)
      × (is_some (leave_queue l).queue.last_error ≡ not (current_is is_open l.client))
unfolding leave_queue Ws.send
leave_queue_lem l = ground arith

-- The error of the server that ends the queue is erased as soon as it is shown; every other is kept.
pub on_error-last_error :
    (payload : ErrorPayload) (l : Lobby)
    → (on_error payload l).queue.last_error
      ≡ (if str_eq payload.code "NOT_IN_QUEUE" then none else some payload)
unfolding on_error
on_error-last_error payload l = ground arith

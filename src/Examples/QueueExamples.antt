-- ===== src/Examples/QueueExamples.antt =====
-- The theorems on the lobby, frontend/src/features/join-matchmaking/index.ts, at concrete inputs.
use chessview.Common.{◌≡◌, refl, false, none, some, List, [], ◌∷◌}
use chessview.Types.{ConnectionState, ErrorPayload, PlayerColor, MatchFoundPayload, TimeControlKey}
use chessview.Game
use chessview.Ws.{Client, ReadyState, new_client}
use chessview.Matchmaking.{initial_state}
use chessview.Matchmaking.Lobby.{Lobby, is_waiting}
use chessview.Matchmaking.Invariant.{Event, run, IsSettled, run-IsSettled}

-- A client whose socket 0 is open.
abbrev ready_client : Client
ready_client = record new_client {
  ws = some 0;
  token = some "token";
  connection_state = ConnectionState.open_state;
  ready = λ _. ReadyState.open_state;
  next = 1;
}

abbrev lobby : Lobby
lobby = record {
  queue = initial_state;
  client = ready_client;
  game = Game.initial_state;
  path = "/";
}

abbrev found : MatchFoundPayload
found = record {
  game_id = "g1";
  color = PlayerColor.white;
  time_control = TimeControlKey.blitz_5_0;
  opponent = record { id = "u2"; username = "ben"; rating = 1500; avatar_url = none };
}

abbrev events : List Event
events =
    Event.join
    ∷ Event.queue_joined (record { position = 4; time_control = TimeControlKey.blitz_5_0 })
    ∷ Event.match_found found
    ∷ []

abbrev not_in_queue : ErrorPayload
not_in_queue = record { code = "NOT_IN_QUEUE"; message = "You are not in the queue." }

run-IsSettled_example : IsSettled (run events lobby).queue
run-IsSettled_example = run-IsSettled events lobby refl

is_idle : is_waiting lobby.queue.queue_status ≡ false
unfolding initial_state
is_idle = refl

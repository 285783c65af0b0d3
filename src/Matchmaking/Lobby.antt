-- ===== src/Matchmaking/Lobby.antt =====
-- Joining and leaving the queue, and what the lobby does with the events of the server:
-- frontend/src/features/join-matchmaking/index.ts and frontend/src/features/leave-matchmaking/index.ts.
-- A callback reads the store as it is when it runs. A payload of a message is the text of its field.
use chessview.Common.{String, Bool, true, false, Option, none, some, not, str_eq, if◌then◌else◌}
use chessview.Common.Text.{truthy?, concat}
use chessview.Types.{
  ConnectionState, ErrorPayload, MatchFoundPayload, QueueJoinedPayload, TimeControlKey,
}
use chessview.Types.Events.{EventType}
use chessview.Game
use chessview.Game.{GameState}
use chessview.Ws
use chessview.Ws.{Client, Message, is_open_client}
use chessview.Matchmaking.{
  QueueStatus, MatchmakingState, set_connection_state, set_joining, set_queued, set_leaving,
  clear_queue, set_matched, set_error,
}

-- What the callbacks change. The path is that of `navigate`.
pub record Lobby : Type 0 where
  pub queue : MatchmakingState
  pub client : Client
  pub game : GameState
  pub path : String

abbrev pub key_text : TimeControlKey → String
key_text TimeControlKey.bullet_1_0 = "1+0"
key_text TimeControlKey.bullet_1_1 = "1+1"
key_text TimeControlKey.bullet_1_2 = "1+2"
key_text TimeControlKey.bullet_2_1 = "2+1"
key_text TimeControlKey.blitz_3_0 = "3+0"
key_text TimeControlKey.blitz_3_1 = "3+1"
key_text TimeControlKey.blitz_3_2 = "3+2"
key_text TimeControlKey.blitz_5_0 = "5+0"
key_text TimeControlKey.blitz_5_3 = "5+3"
key_text TimeControlKey.rapid_10_0 = "10+0"
key_text TimeControlKey.rapid_15_0 = "15+0"
key_text TimeControlKey.rapid_15_10 = "15+10"

abbrev pub join_message : TimeControlKey → Message
join_message key = record { kind = EventType.queue_join; payload = key_text key; game_id = none }

abbrev pub leave_message : Message
leave_message = record { kind = EventType.queue_leave; payload = ""; game_id = none }

abbrev pub not_ready : String → Option ErrorPayload
not_ready message = some (record { code = "WS_NOT_READY"; message = message })

abbrev is_connecting : ConnectionState → Bool
is_connecting ConnectionState.connecting = true
is_connecting _ = false

-- `queueStatus === "joining" || queueStatus === "queued"`
abbrev pub is_waiting : QueueStatus → Bool
is_waiting QueueStatus.joining = true
is_waiting QueueStatus.queued = true
is_waiting _ = false

unfoldable pub join_queue : Lobby → Lobby
unfolding is_open_client set_joining clear_queue set_error
join_queue l =
    if is_waiting l.queue.queue_status
    then l
    else if not (is_open_client l.client)
    then record l {
      queue =
          set_error
            (not_ready (
              if is_connecting l.queue.connection_state
              then "Connecting to matchmaking server..."
              else "Realtime connection is not ready yet."))
            (clear_queue l.queue);
    }
    else (let (client, sent) = Ws.send (join_message l.queue.selected_time_control) l.client in
        let joining = set_joining l.queue in
        record l {
          client = client;
          queue =
              if sent
              then joining
              else set_error (not_ready "Unable to send queue request right now.")
                  (clear_queue joining);
        })

unfoldable pub leave_queue : Lobby → Lobby
unfolding set_leaving clear_queue set_error
leave_queue l =
    let (client, sent) = Ws.send leave_message l.client in
    let cleared = clear_queue (set_leaving l.queue) in
    record l {
      client = client;
      queue =
          if sent
          then cleared
          else set_error (not_ready "Unable to leave the queue because realtime is disconnected.")
              cleared;
    }

-- The listener that is given to `onConnectionStateChange`.
abbrev is_disconnected : ConnectionState → Bool
is_disconnected ConnectionState.disconnected = true
is_disconnected _ = false

unfoldable pub on_connection : ConnectionState → Lobby → Lobby
unfolding set_connection_state clear_queue
on_connection state l =
    let told = set_connection_state state l.queue in
    record l { queue = if is_disconnected state then clear_queue told else told }

unfoldable pub on_queue_joined : QueueJoinedPayload → Lobby → Lobby
unfolding set_queued set_error
on_queue_joined payload l = record l {
  queue = set_error none (set_queued payload.position l.queue);
}

unfoldable pub on_match_found : MatchFoundPayload → Lobby → Lobby
unfolding set_matched Game.set_game
on_match_found payload l = record l {
  queue = set_matched payload l.queue;
  game = Game.set_game payload.game_id (some payload.color) l.game;
  path = concat "/game/" payload.game_id;
}

unfoldable pub on_error : ErrorPayload → Lobby → Lobby
unfolding set_error clear_queue
on_error payload l =
    let shown = set_error (some payload) l.queue in
    record l { queue = if str_eq payload.code "NOT_IN_QUEUE" then clear_queue shown else shown }

-- The effect of the lobby without an access token, and with one, up to its subscriptions.
unfoldable pub enter_lobby : Option String → Lobby → Lobby
unfolding set_connection_state clear_queue
enter_lobby none l = record l {
  queue = set_connection_state ConnectionState.idle (clear_queue l.queue);
}
enter_lobby (some token) l =
    if truthy? (some token)
    then record l { client = Ws.connect token l.client }
    else record l { queue = set_connection_state ConnectionState.idle (clear_queue l.queue) }

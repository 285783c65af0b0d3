-- ===== src/Realtime.antt =====
-- The events of a game, `useGameRealtime` of frontend/src/features/make-move/index.ts: the effect and
-- its callbacks. `game` and `user` are the values that the effect closed over; the setters act on the
-- stores as they are. `to_json` is that of User.
pub mod Laws
use chessview.Common.{
  ℕ, String, Bool, true, false, not, ◌||◌, Option, none, some, List, [], ◌∷◌, any, str_eq,
  if◌then◌else◌,
}
use chessview.Common.Text.{same, truthy?}
use chessview.Types.{
  ErrorPayload, GameStatePayload, GameOverPayload, GameDetailResponse, RatingUpdate,
}
use chessview.Game
use chessview.Game.{
  GameState, set_game, hydrate_game, update_state, set_game_over, set_error, set_loading,
}
use chessview.Game.Moves.{GamePlayer}
use chessview.User
use chessview.User.{AuthenticatedUser, Auth, Persisted}
use chessview.Ws
use chessview.Ws.{Client}

pub record Session : Type 0 where
  pub game : GameState
  pub client : Client
  pub auth : Auth
  pub is_disposed : Bool

-- `GAME_ERROR_CODES`
abbrev pub game_error_codes : List String
game_error_codes =
    "NOT_IN_GAME" ∷ "NOT_YOUR_TURN" ∷ "ILLEGAL_MOVE" ∷ "GAME_NOT_ACTIVE" ∷ "WS_NOT_READY"
    ∷ "LOAD_GAME_FAILED" ∷ []

-- The message of an `Error`, or `none` for anything else that is thrown.
abbrev pub to_error_payload : Option String → ErrorPayload
to_error_payload none = record {
  code = "LOAD_GAME_FAILED";
  message = "Unable to load the game right now.";
}
to_error_payload (some message) = record { code = "LOAD_GAME_FAILED"; message = message }

-- The effect up to its request.
unfoldable pub enter_game : Option String → Option String → Session → Session
enter_game game token s = if not (truthy? game) || not (truthy? token) then s else elim game [
  | none ↦ s
  | some id ↦ elim token [
    | none ↦ s
    | some t ↦ record s {
      game = set_error none (set_loading true (set_game id none s.game));
      client = Ws.connect t s.client;
      is_disposed = false;
    }
  ]
]

-- The function that the effect returns.
unfoldable pub leave_game : Session → Session
leave_game s = record s { is_disposed = true }

-- `user?.id ?? null`
abbrev pub id_of : Option AuthenticatedUser → Option String
id_of none = none
id_of (some u) = some u.id

unfoldable pub on_loaded : Option AuthenticatedUser → GameDetailResponse → Session → Session
on_loaded user response s =
    if s.is_disposed then s else record s { game = hydrate_game response (id_of user) s.game }

unfoldable pub on_load_failed : Option String → Session → Session
on_load_failed failure s =
    if s.is_disposed
    then s
    else record s { game = set_error (some (to_error_payload failure)) (set_loading false s.game) }

unfoldable pub on_game_state : String → Option String → GameStatePayload → Session → Session
on_game_state game from payload s =
    if not (same from (some game)) then s else record s { game = update_state payload s.game }

unfoldable pub on_game_error : ErrorPayload → Session → Session
on_game_error payload s =
    if not (any (λ c. str_eq c payload.code) game_error_codes)
    then s
    else record s { game = set_error (some payload) s.game }

-- `user.id === player?.id`
abbrev pub is_player : AuthenticatedUser → Option GamePlayer → Bool
is_player u none = false
is_player u (some p) = str_eq u.id p.id

module _ (to_json : Persisted → String) where
  rate : ℕ → AuthenticatedUser → Session → Session
  rate rating u s = record s { auth = User.set_user to_json (record u { rating = rating }) s.auth }

  -- The part of the callback on "game_over" that sets the rating of the user.
  unfoldable pub update_rating : Option AuthenticatedUser → Option RatingUpdate → Session → Session
  unfolding rate
  update_rating none update s = s
  update_rating (some u) none s = s
  update_rating (some u) (some r) s =
      if is_player u s.game.white
      then rate r.white.after u s
      else if is_player u s.game.black
      then rate r.black.after u s
      else s

  unfoldable pub on_game_over :
      String → Option AuthenticatedUser → Option String → GameOverPayload → Session → Session
  on_game_over game user from payload s =
      if not (same from (some game))
      then s
      else (let rated = update_rating user payload.rating_update s in
          record rated { game = set_game_over payload rated.game })

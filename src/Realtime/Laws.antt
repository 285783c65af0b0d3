-- ===== src/Realtime/Laws.antt =====
-- What the events of a game do to the stores, `useGameRealtime` of
-- frontend/src/features/make-move/index.ts.
use text.Mathlib.TextPositions.{eq_refl}
use chessview.Common.{
  ℕ, String, ◌≡◌, refl, ◌∙◌, true, false, not, ◌||◌, Option, none, some, List, [], ◌∷◌, map, arith,
  any, str_eq, if◌then◌else◌, All, Bool-cases, inl, inr,
}
use chessview.Common.Text.{same, truthy?}
use chessview.Types.{
  ErrorPayload, GameStatePayload, GameOverPayload, GameDetailResponse, RatingUpdate,
}
use chessview.Game
use chessview.Game.{GameState, to_game_move, set_game_over}
use chessview.Game.Moves.{GamePlayer}
use chessview.Game.Moves.History.{Records}
use chessview.Game.Actions.{Action, apply, IsProper}
use chessview.Game.Actions
use chessview.Game.Invariant.{IsConsistent, run-IsConsistent}
use chessview.User
use chessview.User.{AuthenticatedUser, Persisted}
use chessview.Realtime.{
  Session, enter_game, leave_game, on_loaded, on_load_failed, on_game_state, on_game_error,
  on_game_over, update_rating, id_of, is_player, game_error_codes, to_error_payload,
}

pub data Event : Type 0 where
  enter : Option String → Event
  leave : Event
  loaded : GameDetailResponse → Event
  load_failed : Option String → Event
  game_state : Option String → GameStatePayload → Event
  game_over : Option String → GameOverPayload → Event
  error : ErrorPayload → Event

module _ (to_json : Persisted → String) (game : String) (user : Option AuthenticatedUser) where
  unfoldable pub step : Event → Session → Session
  step (enter token) s = enter_game (some game) token s
  step leave s = leave_game s
  step (loaded response) s = on_loaded user response s
  step (load_failed failure) s = on_load_failed failure s
  step (game_state from payload) s = on_game_state game from payload s
  step (game_over from payload) s = on_game_over to_json game user from payload s
  step (error payload) s = on_game_error payload s

  unfoldable pub run : List Event → Session → Session
  run [] s = s
  run (e ∷ es) s = run es (step e s)

  -- The calls of setters of the game store that an event makes.
  abbrev pub actions : Event → Session → List Action
  actions (enter token) s =
      if not (truthy? (some game)) || not (truthy? token)
      then []
      else Action.set_game game none ∷ Action.set_loading true ∷ Action.set_error none ∷ []
  actions leave s = []
  actions (loaded response) s =
      if s.is_disposed then [] else Action.hydrate_game response (id_of user) ∷ []
  actions (load_failed failure) s =
      if s.is_disposed
      then []
      else Action.set_loading false ∷ Action.set_error (some (to_error_payload failure)) ∷ []
  actions (game_state from payload) s =
      if same from (some game) then Action.update_state payload ∷ [] else []
  actions (game_over from payload) s =
      if same from (some game) then Action.set_game_over payload ∷ [] else []
  actions (error payload) s =
      if any (λ c. str_eq c payload.code) game_error_codes
      then Action.set_error (some payload) ∷ []
      else []

  update_rating-game :
      (u : Option AuthenticatedUser) (r : Option RatingUpdate) (s : Session)
      → (update_rating to_json u r s).game ≡ s.game
  unfolding update_rating
  update_rating-game u r s = ground arith

  on_game_over-game :
      (from : Option String) (payload : GameOverPayload) (s : Session)
      → (on_game_over to_json game user from payload s).game
        ≡ (if same from (some game) then set_game_over payload s.game else s.game)
  unfolding on_game_over
  on_game_over-game from payload s = elim (Bool-cases (same from (some game))) [
    | inl ours ↦ rw (ours, update_rating-game user payload.rating_update s)
    | inr other ↦ rw other refl
  ]

  -- Each event of the server is a sequence of calls of the setters of the game store.
  pub step-actions : (e : Event) (s : Session) → (step e s).game ≡ Actions.run (actions e s) s.game
  unfolding step enter_game leave_game on_loaded on_load_failed on_game_state on_game_error
      Actions.run apply
  step-actions (game_over from payload) s = on_game_over-game from payload s ∙ ground arith
  step-actions _ s = ground arith

  -- A response of the server numbers the moves of the game from 1.
  abbrev pub IsNumbered : Event → Type 0
  IsNumbered (loaded response) =
      Records 1 (map (λ m. m.uci) response.moves) (map to_game_move response.moves)
  IsNumbered _ = Unit

  actions-IsProper : (e : Event) (s : Session) → IsNumbered e → All IsProper (actions e s)
  actions-IsProper e s h = ground arith

  -- Whatever the server sends, in any order, the moves of the store stand for its history, numbered
  -- from 1, and no targets are shown without a selected square, if its responses number their moves
  -- from 1.
  pub run_events-IsConsistent :
      (es : List Event) (s : Session)
      → All IsNumbered es
      → IsConsistent s.game
      → IsConsistent (run es s).game
  unfolding run
  run_events-IsConsistent [] s p h = h
  run_events-IsConsistent (e ∷ es) s p h =
      run_events-IsConsistent es (step e s) p.1
        (rw (step-actions e s) (run-IsConsistent (actions e s) s.game (actions-IsProper e s p.0) h))

abbrev pub rating_of : Option GamePlayer → Option ℕ
rating_of none = none
rating_of (some p) = some p.rating

abbrev pub user_rating : Option AuthenticatedUser → Option ℕ
user_rating none = none
user_rating (some u) = some u.rating

-- When a rated game ends, the rating in the auth store of a user who plays White is the one that the
-- game store shows for White.
pub on_game_over-rating :
    (to_json : Persisted → String) (game : String) (u : AuthenticatedUser)
    (payload : GameOverPayload) (r : RatingUpdate) (s : Session)
    → payload.rating_update ≡ some r
    → is_player u s.game.white ≡ true
    → user_rating (on_game_over to_json game (some u) (some game) payload s).auth.state.user
      ≡ rating_of (on_game_over to_json game (some u) (some game) payload s).game.white
unfolding on_game_over update_rating User.set_user chessview.User.set chessview.Game.set_game_over
on_game_over-rating to_json game u payload r s e white = ground (arith, eq_refl game)

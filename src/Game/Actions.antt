-- ===== src/Game/Actions.antt =====
-- The calls of the setters of the game store, frontend/src/entities/game/model.ts, as data: an
-- arbitrary sequence of events of the server and of the user is a list of these.
use chessview.Common.{String, Bool, Option, none, List, [], ◌∷◌, map}
use chessview.Types.{
  PlayerColor, ErrorPayload, GameStatePayload, GameOverPayload, GameDetailResponse,
}
use chessview.Game
use chessview.Game.{GameState, QueuedPremove, to_game_move}
use chessview.Game.Moves.History.{Records}

pub data Action : Type 0 where
  set_game : String → Option PlayerColor → Action
  hydrate_game : GameDetailResponse → Option String → Action
  update_state : GameStatePayload → Action
  set_game_over : GameOverPayload → Action
  set_selection : Option String → List String → Action
  clear_selection : Action
  set_premove : Option QueuedPremove → Action
  clear_premove : Action
  set_error : Option ErrorPayload → Action
  set_loading : Bool → Action
  reset : Action

unfoldable pub apply : Action → GameState → GameState
apply (set_game id color) = Game.set_game id color
apply (hydrate_game payload user) = Game.hydrate_game payload user
apply (update_state payload) = Game.update_state payload
apply (set_game_over payload) = Game.set_game_over payload
apply (set_selection square targets) = Game.set_selection square targets
apply clear_selection = Game.clear_selection
apply (set_premove premove) = Game.set_premove premove
apply clear_premove = Game.clear_premove
apply (set_error payload) = Game.set_error payload
apply (set_loading loading) = Game.set_loading loading
apply reset = Game.reset

unfoldable pub run : List Action → GameState → GameState
run [] s = s
run (a ∷ as') s = run as' (apply a s)

-- A stored game numbers its moves from 1, and no targets are set without a square.
abbrev pub IsProper : Action → Type 0
IsProper (hydrate_game payload user) =
    Records 1 (map (λ m. m.uci) payload.moves) (map to_game_move payload.moves)
IsProper (set_selection none (x ∷ xs)) = ⊥
IsProper _ = Unit

-- The action neither enters another game nor resets the store.
abbrev pub StaysInGame : Action → Type 0
StaysInGame (set_game id color) = ⊥
StaysInGame reset = ⊥
StaysInGame _ = Unit

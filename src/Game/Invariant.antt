-- ===== src/Game/Invariant.antt =====
-- What holds of the game store of frontend/src/entities/game/model.ts after any calls.
use chessview.Common.{String, ◌≡◌, refl, none, some, List, [], ◌∷◌, ◌++◌, All, length}
use chessview.Types.{PlayerColor, GameStatePayload}
use chessview.Game.{
  GameState, initial_state, set_game, hydrate_game, update_state, set_game_over, set_selection,
  clear_selection, set_premove, clear_premove, set_error, set_loading, reset,
}
use chessview.Game.Moves.{to_game_player}
use chessview.Game.Moves.History.{
  Records, fresh, build_move_fallbacks-Records, build_move_fallbacks-append,
}
use chessview.Game.Actions.{Action, apply, run, IsProper, StaysInGame}

pub record IsConsistent (s : GameState) : Type 0 where
  pub moves_match : Records 1 s.move_history s.moves
  pub no_stray_targets : s.selected_square ≡ none → s.legal_targets ≡ []

pub initial_state-IsConsistent : IsConsistent initial_state
unfolding initial_state
initial_state-IsConsistent = record { moves_match = tt; no_stray_targets = λ _. refl }

apply-IsConsistent :
    (a : Action) (s : GameState) → IsProper a → IsConsistent s → IsConsistent (apply a s)
unfolding apply initial_state set_game hydrate_game update_state set_game_over set_selection
    clear_selection set_premove clear_premove set_error set_loading reset
apply-IsConsistent (Action.hydrate_game payload user) s p h = record {
  moves_match = p;
  no_stray_targets = λ _. refl;
}
apply-IsConsistent (Action.update_state payload) s p h = record {
  moves_match = build_move_fallbacks-Records _ _ payload.move_history s.moves;
  no_stray_targets = λ _. refl;
}
apply-IsConsistent (Action.set_game id color) s p h = record {
  moves_match = tt;
  no_stray_targets = λ _. refl;
}
apply-IsConsistent Action.reset s p h = record { moves_match = tt; no_stray_targets = λ _. refl }
apply-IsConsistent (Action.set_selection none []) s p h = record {
  moves_match = h.moves_match;
  no_stray_targets = λ _. refl;
}
apply-IsConsistent (Action.set_selection none (x ∷ xs)) s p h = elim p [ ]
apply-IsConsistent (Action.set_selection (some q) xs) s p h = record {
  moves_match = h.moves_match;
  no_stray_targets = λ e. cc;
}
apply-IsConsistent (Action.set_game_over payload) s p h = record {
  moves_match = h.moves_match;
  no_stray_targets = λ _. refl;
}
apply-IsConsistent Action.clear_selection s p h = record {
  moves_match = h.moves_match;
  no_stray_targets = λ _. refl;
}
apply-IsConsistent (Action.set_premove q) s p h = record {
  moves_match = h.moves_match;
  no_stray_targets = λ _. refl;
}
apply-IsConsistent _ s p h = record {
  moves_match = h.moves_match;
  no_stray_targets = h.no_stray_targets;
}

-- After any sequence of proper calls on a consistent store the moves stand for the history, in
-- order and numbered from 1, and no targets are shown without a selected square.
pub run-IsConsistent :
    (as' : List Action) (s : GameState)
    → All IsProper as'
    → IsConsistent s
    → IsConsistent (run as' s)
unfolding run
run-IsConsistent [] s p h = h
run-IsConsistent (a ∷ as') s p h =
    run-IsConsistent as' (apply a s) p.1 (apply-IsConsistent a s p.0 h)

-- After any sequence of proper calls on a new store, a state of the server that extends the
-- history keeps every move that the store has and adds one for each new text.
pub update_state-append :
    (as' : List Action) (payload : GameStatePayload) (new : List String)
    → All IsProper as'
    → payload.move_history ≡ (run as' initial_state).move_history ++ new
    → (update_state payload (run as' initial_state)).moves
      ≡ (run as' initial_state).moves
        ++ fresh
            (to_game_player (some payload.white))
            (to_game_player (some payload.black))
            (length (run as' initial_state).move_history)
            new
unfolding update_state
update_state-append as' payload new p e = rw e (
    build_move_fallbacks-append _ _ (run as' initial_state).move_history new
      (run as' initial_state).moves
      (run-IsConsistent as' initial_state p initial_state-IsConsistent).moves_match)

apply-my_color :
    (a : Action) (s : GameState) (c : PlayerColor)
    → StaysInGame a
    → s.my_color ≡ some c
    → (apply a s).my_color ≡ some c
unfolding apply initial_state set_game hydrate_game update_state set_game_over set_selection
    clear_selection set_premove clear_premove set_error set_loading reset
apply-my_color (Action.set_game id color) s c p h = elim p [ ]
apply-my_color Action.reset s c p h = elim p [ ]
apply-my_color (Action.hydrate_game payload user) s c p h = rw h
apply-my_color _ s c p h = h

-- Once the colour of the user is known, no call changes it but entering a game and a reset.
pub run-my_color :
    (as' : List Action) (s : GameState) (c : PlayerColor)
    → All StaysInGame as'
    → s.my_color ≡ some c
    → (run as' s).my_color ≡ some c
unfolding run
run-my_color [] s c p h = h
run-my_color (a ∷ as') s c p h = run-my_color as' (apply a s) c p.1 (apply-my_color a s c p.0 h)

-- ===== src/MakeMove/Frame.antt =====
-- What the handlers of the board leave alone, frontend/src/features/make-move/index.ts.
use chessview.Common.{
  String, ◌≡◌, refl, ap, ◌∙◌, inl, inr, Bool, true, not, Option, some, List, [], ◌∷◌, arith,
  is_some,
}
use chessview.Common.Text.{truthy?}
use chessview.Types.{PlayerColor}
use chessview.Game.{
  GameState, set_selection, clear_selection, set_premove, clear_premove, set_error,
}
use chessview.Game.Status.{is_active}
use chessview.Ws
use chessview.Ws.{Client, Message, ReadyState, current_is, is_open}
use chessview.Chess.{ChessJs}
use chessview.MakeMove.Turns.{Board, is_my_turn, is_game_over, is_paused}
use chessview.MakeMove.{
  submit_move, clear_queued_move_on_interaction, select_square, show_targets, on_piece_drop,
  on_piece_drag_begin, on_square_click, premove_effect,
}
use chessview.MakeMove.Sending.{Input, step, run, step-KeepsOrSends}

-- All but the selection, the premove and the error is as it was.
abbrev pub SameGame : GameState → GameState → Type 0
SameGame s t = t ≡ record s {
  selected_square = t.selected_square;
  legal_targets = t.legal_targets;
  premove = t.premove;
  error = t.error;
}

module _ (js : ChessJs) (g : GameState) where
  select_square-SameGame :
      (square : String) (preview : Option PlayerColor) (b : Board)
      → SameGame b.game (select_square js g square preview b).game
  unfolding select_square show_targets set_selection clear_selection set_error
  select_square-SameGame square preview b = ground arith

  submit_move-SameGame :
      (a s : Bool) (uci : String) (b : Board) → SameGame b.game (submit_move a s g uci b).0.game
  unfolding submit_move clear_selection set_error clear_premove
  submit_move-SameGame a s uci b = ground arith

  clear_queued-SameGame : (b : Board) → SameGame b.game (clear_queued_move_on_interaction g b).game
  unfolding clear_queued_move_on_interaction clear_premove
  clear_queued-SameGame b = ground arith

  premove_effect-SameGame : (b : Board) → SameGame b.game (premove_effect js g b).game
  unfolding premove_effect clear_selection set_error clear_premove
  premove_effect-SameGame b = ground arith

  on_piece_drop-SameGame :
      (from to : String) (b : Board) → SameGame b.game (on_piece_drop js g from to b).0.game
  unfolding on_piece_drop clear_queued_move_on_interaction submit_move clear_selection set_error
      clear_premove
  on_piece_drop-SameGame from to b = ground arith

  on_piece_drag_begin-SameGame :
      (piece source : String) (b : Board)
      → SameGame b.game (on_piece_drag_begin js g piece source b).game
  unfolding on_piece_drag_begin clear_queued_move_on_interaction select_square show_targets
      set_selection clear_selection set_error clear_premove
  on_piece_drag_begin-SameGame piece source b = ground arith

  on_square_click-SameGame :
      (square : String) (b : Board) → SameGame b.game (on_square_click js g square b).game
  unfolding on_square_click clear_queued_move_on_interaction select_square show_targets submit_move
      set_selection clear_selection set_premove set_error clear_premove
  on_square_click-SameGame square b = ground arith

-- No input on the board changes the position, the players, the clock or the result: only the
-- selection, the premove and the error.
pub step-SameGame : (js : ChessJs) (i : Input) (b : Board) → SameGame b.game (step js i b).game
unfolding step
step-SameGame js (Input.drop source target) b = on_piece_drop-SameGame js b.game source target b
step-SameGame js (Input.drag_begin piece source) b =
    on_piece_drag_begin-SameGame js b.game piece source b
step-SameGame js (Input.square_click square) b = on_square_click-SameGame js b.game square b
step-SameGame js Input.premove b = premove_effect-SameGame js b.game b

step_finished :
    (js : ChessJs) (i : Input) (b : Board)
    → is_game_over b.game ≡ true
    → (step js i b).client ≡ b.client
unfolding is_my_turn
step_finished js i b over = elim (step-KeepsOrSends js i b) [
  | inl same ↦ same
  | inr sends ↦ let turn = sends.turn in ground arith
]

step-is_game_over :
    (js : ChessJs) (i : Input) (b : Board) → is_game_over (step js i b).game ≡ is_game_over b.game
unfolding is_game_over
step-is_game_over js i b = ap (λ s. not (is_active s.status)) (step-SameGame js i b)

-- Once the game is over, nothing that the user does on the board reaches the server, and no premove
-- is played.
pub run_finished :
    (js : ChessJs) (is : List Input) (b : Board)
    → is_game_over b.game ≡ true
    → (run js is b).client ≡ b.client
unfolding run
run_finished js [] b over = refl
run_finished js (i ∷ is) b over =
    run_finished js is (step js i b) (step-is_game_over js i b ∙ over) ∙ step_finished js i b over

-- Running the premove effect twice is running it once: where the first run sends the premove, the
-- second sends nothing.
pub premove_effect_idem :
    (js : ChessJs) (b : Board)
    → premove_effect js (premove_effect js b.game b).game (premove_effect js b.game b)
      ≡ premove_effect js b.game b
unfolding premove_effect clear_selection set_error clear_premove Ws.send is_my_turn is_game_over
    is_paused
premove_effect_idem js b = ground arith

-- In a game with an id, a drop of a piece that chess.js can judge shows an error exactly if the
-- board is told to take the piece back.
pub on_piece_drop-error :
    (js : ChessJs) (from to : String) (b : Board) (accepted : Bool)
    → truthy? b.game.game_id ≡ true
    → (on_piece_drop js b.game from to b).1 ≡ some accepted
    → is_some (on_piece_drop js b.game from to b).0.game.error ≡ not accepted
unfolding on_piece_drop clear_queued_move_on_interaction submit_move clear_selection set_error
    clear_premove Ws.send
on_piece_drop-error js from to b accepted named h = ground arith

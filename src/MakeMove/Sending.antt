-- ===== src/MakeMove/Sending.antt =====
-- What the handlers of the board send, frontend/src/features/make-move/index.ts.
pub mod Moves
use mathlib.Core.Path.{subst}
use chessview.Common.{
  String, ◌≡◌, refl, ◌⊎◌, inl, inr, ap, Bool, true, false, not, ◌||◌, Option, none, some, List, [],
  ◌∷◌, arith, is_some, if◌then◌else◌, ◌∙◌, Option-cases, Bool-cases,
}
use chessview.Common.Splits.{if_split, option_split}
use chessview.Common.Text.{codes, truthy, truthy?}
use chessview.Types.{PlayerColor}
use chessview.Game.{GameState, clear_selection, clear_premove, set_error}
use chessview.Ws
use chessview.Ws.{Client, Message, ReadyState, current_is, is_open}
use chessview.Chess.{ChessJs, Throws}
use chessview.Chess.Moves.{build_move_uci, get_square_color}
use chessview.MakeMove.Turns.{
  Board, is_my_turn, is_game_over, can_queue_premove, has_color, illegal_move, ws_not_ready,
  move_message, edit, fail,
}
use chessview.MakeMove.{
  submit_move, after_send, piece_color, clear_queued_move_on_interaction, select_square,
  show_targets, on_piece_drop, on_piece_drag_begin, on_square_click, premove_effect, click,
  selected, is_own, legal_uci, drop_move, click_move, click_premove, play_premove, is_target,
}
use Moves.{
  SendsMove, KeepsOrSends, clear_queued-client, from_cleared, select_square-client,
  drop_move-KeepsOrSends, click_move-KeepsOrSends, click_premove-client, play_premove-KeepsOrSends,
}

-- What the user does on the board, and a run of the premove effect.
pub data Input : Type 0 where
  drop : String → String → Input
  drag_begin : String → String → Input
  square_click : String → Input
  premove : Input

-- The effect of an input on the stores as they are.
unfoldable pub step : ChessJs → Input → Board → Board
step js (drop source target) b = (on_piece_drop js b.game source target b).0
step js (drag_begin piece source) b = on_piece_drag_begin js b.game piece source b
step js (square_click square) b = on_square_click js b.game square b
step js premove b = premove_effect js b.game b

unfoldable pub run : ChessJs → List Input → Board → Board
run js [] b = b
run js (i ∷ is) b = run js is (step js i b)

module _ (js : ChessJs) (g : GameState) where
  premove_effect-KeepsOrSends :
      (b : Board) → KeepsOrSends js g b.client (premove_effect js g b).client
  unfolding premove_effect
  premove_effect-KeepsOrSends b =
      let P : Board → Type 0 = λ after. KeepsOrSends js g b.client after.client in
      option_split P g.premove _ _ (λ _. inl refl)
        (λ p _.
          if_split P (not (is_my_turn g) || not (truthy? g.game_id)) _ _ (λ _. inl refl)
            (λ both.
              option_split P g.game_id _ _ (λ _. inl refl)
                (λ id in_game.
                  play_premove-KeepsOrSends js g p.from p.to id _ b (ground arith) in_game refl)))

  on_piece_drop-KeepsOrSends :
      (from to : String) (b : Board)
      → KeepsOrSends js g b.client (on_piece_drop js g from to b).0.client
  unfolding on_piece_drop
  on_piece_drop-KeepsOrSends from to b =
      let P : Board × Throws Bool → Type 0 = λ r. KeepsOrSends js g b.client r.0.client in
      let same = clear_queued-client js g b in
      if_split P (is_game_over g) _ _ (λ _. inl same)
        (λ _.
          if_split P (not (is_my_turn g)) _ _ (λ _. inl same)
            (λ turn. from_cleared js g b _ (
              drop_move-KeepsOrSends js g from to _ (clear_queued_move_on_interaction g b)
                (ground arith) refl)))

  on_piece_drag_begin-client :
      (piece source : String) (b : Board)
      → (on_piece_drag_begin js g piece source b).client ≡ b.client
  unfolding on_piece_drag_begin
  on_piece_drag_begin-client piece source b =
      let P : Board → Type 0 = λ after. after.client ≡ b.client in
      let same = clear_queued-client js g b in
      if_split P (not (is_my_turn g)) _ _ (λ _. same)
        (λ _.
          if_split P (not (has_color g.my_color (piece_color piece))) _ _ (λ _. same)
            (λ _.
              select_square-client js g source none (clear_queued_move_on_interaction g b) ∙ same))

  click-KeepsOrSends :
      (square : String) (mine : PlayerColor) (color : Option PlayerColor) (b : Board)
      → KeepsOrSends js g b.client (click js g square mine color b).client
  click-KeepsOrSends square mine color b =
      let P : Board → Type 0 = λ after. KeepsOrSends js g b.client after.client in
      if_split P (is_game_over g) _ _ (λ _. inl refl)
        (λ _.
          if_split P (is_my_turn g) _ _
            (λ turn.
              if_split P (is_target g square) _ _
                (λ _. click_move-KeepsOrSends js g (selected js g) square _ b turn refl)
                (λ _.
                  if_split P (is_own color mine) _ _
                    (λ _. inl (select_square-client js g square none b)) (λ _. inl refl)))
            (λ _.
              if_split P (can_queue_premove g) _ _
                (λ _.
                  if_split P (is_target g square) _ _
                    (λ _. inl (
                      click_premove-client js g (selected js g) square
                        (build_move_uci js (codes g.fen) (selected js g) square (some mine)) b))
                    (λ _.
                      if_split P (is_own color mine) _ _
                        (λ _. inl (select_square-client js g square (some mine) b))
                        (λ _. inl refl)))
                (λ _.
                  if_split P (is_own color mine || truthy? g.selected_square) _ _ (λ _. inl refl)
                    (λ _. inl refl))))

  on_square_click-KeepsOrSends :
      (square : String) (b : Board)
      → KeepsOrSends js g b.client (on_square_click js g square b).client
  unfolding on_square_click
  on_square_click-KeepsOrSends square b =
      let P : Board → Type 0 = λ after. KeepsOrSends js g b.client after.client in
      option_split P g.my_color _ _ (λ _. inl refl)
        (λ mine _.
          option_split P (get_square_color js (codes g.fen) square) _ _ (λ _. inl refl)
            (λ color _.
              from_cleared js g b _
                (click-KeepsOrSends square mine color (clear_queued_move_on_interaction g b))))

-- Whatever the user does on the board, and whenever the premove effect runs, the client stays as it
-- was or writes one move: one that chess.js lists for the position of the store, of its game, in
-- the user's turn, on an open socket.
pub step-KeepsOrSends :
    (js : ChessJs) (i : Input) (b : Board) → KeepsOrSends js b.game b.client (step js i b).client
unfolding step
step-KeepsOrSends js (Input.drop source target) b =
    on_piece_drop-KeepsOrSends js b.game source target b
step-KeepsOrSends js (Input.drag_begin piece source) b =
    inl (on_piece_drag_begin-client js b.game piece source b)
step-KeepsOrSends js (Input.square_click square) b = on_square_click-KeepsOrSends js b.game square b
step-KeepsOrSends js Input.premove b = premove_effect-KeepsOrSends js b.game b

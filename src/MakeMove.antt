-- ===== src/MakeMove.antt =====
-- The moves of the user, `useMakeMove` of frontend/src/features/make-move/index.ts: the handlers of
-- the board and the effect that plays a premove. The values that the hook selects are those of the
-- store when a handler is called, the argument `g`; the setters act on the store `b.game`. An
-- exception of chess.js ends a handler, which leaves the store as it is then.
pub mod Turns
pub mod Sending
pub mod Frame
use chessview.Common.{
  String, Bool, true, false, not, ◌&&◌, ◌||◌, Option, none, some, List, [], ◌∷◌, any, is_some,
  str_eq, if◌then◌else◌,
}
use chessview.Common.Text.{codes, take_text, truthy, truthy?}
use chessview.Types.{PlayerColor, ErrorPayload}
use chessview.Types.Events.{EventType}
use chessview.Game.{
  GameState, QueuedPremove, set_selection, clear_selection, set_premove, clear_premove, set_error,
}
use chessview.Game.Status.{is_active}
use chessview.Ws
use chessview.Ws.{Client, Message}
use chessview.Chess.{ChessJs, Throws}
use chessview.Chess.Moves.{build_move_uci, get_legal_moves, get_square_color}
use Turns.{
  Board, same_color, has_color, is_game_over, is_paused, is_my_turn, can_queue_premove,
  game_not_active, illegal_move, ws_not_ready, create_not_your_turn_error, move_message, edit, fail,
}

-- What follows the call of `send` in `submitMove`; the options are `clearQueuedPremove` and
-- `suppressSocketError`.
abbrev pub after_send : Bool → Bool → Bool → Board → Board
after_send clear_queued suppress sent b =
    if not sent && not suppress
    then fail ws_not_ready b
    else if sent && clear_queued
    then edit clear_premove b
    else b

-- `submitMove` behind its test of `gameId`.
abbrev pub submit : Bool → Bool → String → String → Board → Board × Bool
submit clear_queued suppress game_id uci b =
    let (client, sent) = Ws.send (move_message game_id uci) b.client in
    let game = clear_selection (set_error none b.game) in
    (after_send clear_queued suppress sent (record { game = game; client = client }), sent)

unfoldable pub submit_move : Bool → Bool → GameState → String → Board → Board × Bool
submit_move clear_queued suppress g uci b = elim g.game_id [
  | none ↦ (b, false)
  | some game_id ↦ if truthy game_id then submit clear_queued suppress game_id uci b else (b, false)
]

unfoldable pub clear_queued_move_on_interaction : GameState → Board → Board
clear_queued_move_on_interaction g b = if is_some g.premove then edit clear_premove b else b

-- `selectedSquare && legalTargets.includes(square)`
abbrev pub is_target : GameState → String → Bool
is_target g square = truthy? g.selected_square && any (λ t. str_eq t square) g.legal_targets

-- `pieceColor === myColor` for a colour of the user.
abbrev pub is_own : Option PlayerColor → PlayerColor → Bool
is_own none color = false
is_own (some c) color = same_color c color

-- `piece.startsWith("w")`
abbrev starts_with_w : String → Bool
starts_with_w piece = str_eq (take_text 1 piece) "w"

abbrev pub piece_color : String → PlayerColor
piece_color piece = if starts_with_w piece then PlayerColor.white else PlayerColor.black

unfoldable pub is_draggable_piece : GameState → String → Bool
is_draggable_piece g piece =
    if not (is_my_turn g)
    then false
    else if has_color g.my_color PlayerColor.white
    then starts_with_w piece
    else str_eq (take_text 1 piece) "b"

module _ (js : ChessJs) where
  -- The text of a legal move; `none` where there is none or its text is empty.
  abbrev pub legal_uci : Option String → Option String
  legal_uci none = none
  legal_uci (some uci) = if truthy uci then some uci else none

  pub show_targets : String → List String → Board → Board
  show_targets square [] b = edit clear_selection b
  show_targets square (t ∷ ts) b =
      edit (λ s. set_error none (set_selection (some square) (t ∷ ts) s)) b

  unfoldable pub select_square : GameState → String → Option PlayerColor → Board → Board
  unfolding show_targets
  select_square g square preview b = elim g.my_color [
    | none ↦ edit clear_selection b
    | some mine ↦ elim (get_square_color js (codes g.fen) square) [
      | none ↦ b
      | some color ↦
          if not (is_own color mine)
          then edit clear_selection b
          else elim (get_legal_moves js (codes g.fen) square preview) [
            | none ↦ b
            | some targets ↦ show_targets square targets b
          ]
    ]
  ]

  -- What follows `buildMoveUci` in `onPieceDrop`.
  abbrev pub drop_move : GameState → Throws (Option String) → Board → Board × Throws Bool
  drop_move g none b = (b, none)
  drop_move g (some built) b = elim (legal_uci built) [
    | none ↦ (fail illegal_move b, some false)
    | some uci ↦ (let (after, sent) = submit_move false false g uci b in (after, some sent))
  ]

  -- What is returned is `none` where chess.js throws.
  unfoldable pub on_piece_drop : GameState → String → String → Board → Board × Throws Bool
  on_piece_drop g source target b =
      let cleared = clear_queued_move_on_interaction g b in
      if is_game_over g
      then (fail game_not_active cleared, some false)
      else if not (is_my_turn g)
      then (fail (create_not_your_turn_error (is_paused g)) cleared, some false)
      else drop_move g (build_move_uci js (codes g.fen) source target none) cleared

  unfoldable pub on_piece_drag_begin : GameState → String → String → Board → Board
  on_piece_drag_begin g piece source b =
      let cleared = clear_queued_move_on_interaction g b in
      if not (is_my_turn g)
      then cleared
      else if not (has_color g.my_color (piece_color piece))
      then edit clear_selection cleared
      else select_square g source none cleared

  -- `onSquareClick` on a target, in the user's turn.
  abbrev pub click_move : GameState → Throws (Option String) → Board → Board
  click_move g none b = b
  click_move g (some built) b = elim (legal_uci built) [
    | none ↦ fail illegal_move (edit clear_selection b)
    | some uci ↦ (submit_move false false g uci b).0
  ]

  -- `onSquareClick` on a target, in the opponent's turn.
  abbrev pub click_premove : String → String → Throws (Option String) → Board → Board
  click_premove from to none b = b
  click_premove from to (some built) b = elim (legal_uci built) [
    | none ↦ edit clear_selection b
    | some uci ↦
        edit
          (λ s. set_error none (set_premove (some (record { from = from; to = to; uci = uci })) s))
          b
  ]

  abbrev pub selected : GameState → String
  selected g = elim g.selected_square [ none ↦ "" | some s ↦ s ]

  -- `onSquareClick` behind the colour of the piece and the end of a queued premove.
  abbrev pub click : GameState → String → PlayerColor → Option PlayerColor → Board → Board
  click g square mine color b =
      if is_game_over g
      then fail game_not_active (edit clear_selection b)
      else if is_my_turn g
      then if is_target g square
        then click_move g (build_move_uci js (codes g.fen) (selected g) square none) b
        else if is_own color mine
        then select_square g square none b
        else edit clear_selection b
      else if can_queue_premove g
      then if is_target g square
        then click_premove (selected g) square
            (build_move_uci js (codes g.fen) (selected g) square (some mine)) b
        else if is_own color mine
        then select_square g square (some mine) b
        else edit clear_selection b
      else if is_own color mine || truthy? g.selected_square
      then fail (create_not_your_turn_error (is_paused g)) (edit clear_selection b)
      else edit clear_selection b

  unfoldable pub on_square_click : GameState → String → Board → Board
  on_square_click g square b = elim g.my_color [
    | none ↦ edit clear_selection b
    | some mine ↦ elim (get_square_color js (codes g.fen) square) [
      | none ↦ b
      | some color ↦ click g square mine color (clear_queued_move_on_interaction g b)
    ]
  ]

  -- What follows the tests of the premove effect.
  abbrev pub play_premove : String → Throws (Option String) → Board → Board
  play_premove game_id none b = b
  play_premove game_id (some built) b = elim (legal_uci built) [
    | none ↦ edit clear_premove b
    | some uci ↦
        (let (client, sent) = Ws.send (move_message game_id uci) b.client in
          let game = clear_selection (set_error none b.game) in
          if not sent
          then record { game = set_error (some ws_not_ready) game; client = client }
          else record { game = clear_premove game; client = client })
  ]

  unfoldable pub premove_effect : GameState → Board → Board
  premove_effect g b = elim g.premove [
    | none ↦ b
    | some p ↦ if not (is_my_turn g) || not (truthy? g.game_id) then b else elim g.game_id [
      | none ↦ b
      | some game_id ↦ play_premove game_id (build_move_uci js (codes g.fen) p.from p.to none) b
    ]
  ]

-- ===== src/Sandbox/Clicks.antt =====
-- The clicks and drops on the sandbox board,
-- frontend/src/pages/analysis-page/AnalysisWorkspace.tsx. The editor's position is an object: the order
-- of its squares is not read.
use chessview.Common.{
  String, not, ◌&&◌, Option, none, some, [], ◌∷◌, ◌++◌, any, str_eq, ◌or◌, if◌then◌else◌,
}
use chessview.Common.Text.{truthy?}
use chessview.Chess.{Fen, ChessJs}
use chessview.Chess.Editor.{EditorPieceCode, BoardPosition}
use chessview.Chess.Moves.{get_legal_moves, get_square_color}
use chessview.Puzzle.{active_color, has_turn, same_color}
use chessview.Sandbox.{Sandbox, play, edit, current_fen, handle_apply_sandbox_move}

-- `next[square] = piece` and `delete next[square]`.
abbrev pub without : String → BoardPosition → BoardPosition
without square [] = []
without square ((s, p) ∷ ps) =
    if str_eq s square then without square ps else (s, p) ∷ without square ps

abbrev pub piece_on : String → BoardPosition → Option EditorPieceCode
piece_on square [] = none
piece_on square ((s, p) ∷ ps) = if str_eq s square then some p else piece_on square ps

abbrev pub put : String → EditorPieceCode → BoardPosition → BoardPosition
put square piece ps = without square ps ++ (square, piece) ∷ []

-- `editorSelection` is a piece, or the eraser.
unfoldable pub edit_square : String → Sandbox → Sandbox
edit_square square s = record s {
  editor_position = elim s.editor_selection as (λ _. BoardPosition) [
    | none ↦ without square s.editor_position
    | some piece ↦ put square piece s.editor_position
  ];
}

unfoldable pub edit_drop : String → String → Sandbox → Sandbox
edit_drop from to s = elim (piece_on from s.editor_position) as (λ _. Sandbox) [
  | none ↦ s
  | some piece ↦ record s { editor_position = put to piece (without from s.editor_position) }
]

module _ (js : ChessJs) (standard_start : Fen) where
  unfoldable pub handle_piece_drop : String → String → Sandbox → Sandbox
  unfolding edit_drop
  handle_piece_drop from to s = elim s.mode as (λ _. Sandbox) [
    | edit ↦ edit_drop from to s
    | play ↦ handle_apply_sandbox_move js standard_start from to s
  ]

  -- The rest of `handleSquareClick`: a piece of the side to move is selected.
  unfoldable pub select_square : String → Sandbox → Sandbox
  select_square square s =
      let fen = current_fen s in
      elim (get_square_color js fen square) as (λ _. Sandbox) [
        | none ↦ s
        | some color ↦
            if not (same_color js color (has_turn 119 fen))
            then record s { selected_square = none; legal_targets = [] }
            else elim (get_legal_moves js fen square (some (active_color js fen)))
                as (λ _. Sandbox) [
                  | none ↦ record s { selected_square = some square }
                  | some targets ↦ record s {
                    selected_square = some square;
                    legal_targets = targets;
                  }
                ]
      ]

  unfoldable pub handle_square_click : String → Sandbox → Sandbox
  unfolding edit_square select_square
  handle_square_click square s = elim s.mode as (λ _. Sandbox) [
    | edit ↦ edit_square square s
    | play ↦
        if truthy? s.selected_square && any (λ t. str_eq t square) s.legal_targets
        then handle_apply_sandbox_move js standard_start (s.selected_square or "") square s
        else select_square square s
  ]

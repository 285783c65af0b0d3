-- ===== src/Sandbox/Reloaded.antt =====
-- A move on the board of a game of the URL, frontend/src/pages/analysis-page/AnalysisWorkspace.tsx.
use chessview.Common.{ℕ, ◌≡◌, String, Option, some, List, arith}
use chessview.Chess.{Fen, ChessJs}
use chessview.Chess.Moves.{SandboxMove, apply_sandbox_move_from_squares}
use chessview.Puzzle.{active_color}
use chessview.Sandbox.{
  Sandbox, current_fen, line_of, load_game, replace_workspace, place_line, sync_editor,
  handle_apply_sandbox_move,
}

module _ (js : ChessJs) (standard_start : Fen) where
  replaced_line :
      (fen : Fen) (line : List SandboxMove) (key : Option String) (s : Sandbox)
      → (replace_workspace js standard_start fen line key s).0.line_moves ≡ line
  unfolding replace_workspace sync_editor place_line
  replaced_line fen line key s = ground arith

  -- A move that is made on the board of a game of the URL is undone by the effect that loads the game: the
  -- move clears the key of the loaded source, so the effect runs again and puts the game's line back.
  pub load_game-undoes :
      (key from to : String) (moves : List (ℕ × String)) (line : List SandboxMove) (m : SandboxMove)
      (s : Sandbox)
      → apply_sandbox_move_from_squares js
          (current_fen s)
          from
          to
          (some (active_color js (current_fen s)))
        ≡ some (some m)
      → line_of js standard_start standard_start moves ≡ some line
      → (load_game js standard_start key moves
          (handle_apply_sandbox_move js standard_start from to s)).line_moves
        ≡ line
  unfolding load_game handle_apply_sandbox_move
  load_game-undoes key from to moves line m s h k = ground (
    arith,
    h,
    k,
    replaced_line standard_start line (some key)
        (handle_apply_sandbox_move js standard_start from to s),
  )

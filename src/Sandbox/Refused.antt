-- ===== src/Sandbox/Refused.antt =====
-- A FEN that chess.js refuses, frontend/src/pages/analysis-page/AnalysisWorkspace.tsx.
use chessview.Common.{ℕ, ◌≡◌, String, some, [], ◌∷◌, arith}
use chessview.Chess.{Fen, ChessJs, Loaded}
use chessview.Chess.Editor.{board_position_from_fen}
use chessview.Sandbox.{Sandbox, load_trimmed, replace_workspace, sync_editor, place_line}

module _ (js : ChessJs) (standard_start : Fen) where
  -- A position that chess.js refuses, with the text it throws, becomes the root of the sandbox all the
  -- same: the line is lost, only the editor keeps its position, and the text is shown.
  pub load_trimmed-thrown :
      (code : ℕ) (codes : Fen) (text : String) (s : Sandbox)
      → js.load (code ∷ codes) ≡ Loaded.thrown text
      → ((load_trimmed js standard_start (code ∷ codes) s).root_fen ≡ code ∷ codes)
        × ((load_trimmed js standard_start (code ∷ codes) s).line_moves ≡ [])
        × ((load_trimmed js standard_start (code ∷ codes) s).editor_position ≡ s.editor_position)
        × ((load_trimmed js standard_start (code ∷ codes) s).fen_message ≡ some text)
  unfolding load_trimmed replace_workspace sync_editor place_line board_position_from_fen
  load_trimmed-thrown code codes text s h = ground (arith, h)

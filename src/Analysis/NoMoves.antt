-- ===== src/Analysis/NoMoves.antt =====
-- What `useStockfishAnalysis` does at the end of a search in a position without moves,
-- frontend/src/features/analyze-position/useStockfishAnalysis.ts.
use chessview.Common.{String, ◌≡◌, ◌≢◌, refl, Bool, true, Option, none, some, arith, is_some}
use chessview.Common.Text.{codes}
use chessview.Common.Spaces.{split_spaces}
use chessview.Chess.{game_of, ◌>>=◌, Loaded, ChessJs, ParsedUciMove}
use chessview.Chess.Moves.{is_playable_uci_move, try_apply_uci_move, parse_uci_move}
use chessview.Analysis.Engine.{Engine}
use chessview.Analysis.Replies.{on_message, on_best_move, ends_playable}

module _ {N : Type 0} (zero_depth : N) (js : ChessJs) (number : Option String → N)
    (is_nan : N → Bool) where
  none_refused :
      (game : js.Game)
      → ((game : js.Game) (m : ParsedUciMove) → m.from ≡ "(n" → js.move game m ≡ none)
      → try_apply_uci_move js game "(none)" ≡ none
  unfolding try_apply_uci_move parse_uci_move
  none_refused game refuses = refuses game _ refl

  none_unplayable_loaded :
      (l : Loaded js.Game)
      → ((game : js.Game) (m : ParsedUciMove) → m.from ≡ "(n" → js.move game m ≡ none)
      → (game_of l >>= (λ game. some (is_some (try_apply_uci_move js game "(none)")))) ≢ some true
  none_unplayable_loaded (Loaded.loaded game) refuses = ground (arith, none_refused game refuses)
  none_unplayable_loaded (Loaded.thrown text) refuses = ground arith

  none_unplayable :
      (fen : String)
      → ((game : js.Game) (m : ParsedUciMove) → m.from ≡ "(n" → js.move game m ≡ none)
      → ends_playable zero_depth js fen (some "(none)") ≢ some true
  unfolding ends_playable is_playable_uci_move
  none_unplayable fen refuses = none_unplayable_loaded (js.load (codes fen)) refuses

  -- Where chess.js makes no move from "(n", which is no square, the answer `bestmove (none)` of the
  -- engine for a position without moves is ignored: nothing changes, and a search stays active.
  pub on_message-none :
      (e : Engine N)
      → ((game : js.Game) (m : ParsedUciMove) → m.from ≡ "(n" → js.move game m ≡ none)
      → on_message zero_depth js number is_nan "bestmove (none)" e ≡ e
  unfolding on_message on_best_move split_spaces
  on_message-none e refuses = ground (arith, none_unplayable e.current_fen refuses)

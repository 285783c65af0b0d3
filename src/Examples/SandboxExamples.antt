-- ===== src/Examples/SandboxExamples.antt =====
-- The theorems on the sandbox board at concrete inputs,
-- frontend/src/pages/analysis-page/AnalysisWorkspace.tsx.
use chessview.Common.{◌≡◌, refl, false, none, some, List, [], ◌∷◌, arith}
use chessview.Common.Int.{pos, ◌-ℤ◌}
use chessview.Types.{PlayerColor}
use chessview.Chess.{ChessJs, Loaded}
use chessview.Sandbox.{Sandbox, at_index, from_current, play, load_trimmed}
use chessview.Sandbox.Chain.{Event, go, game, drop, typed, load_fen, run, IsLine, run-IsLine}
use chessview.Sandbox.Refused.{load_trimmed-thrown}
use chessview.Examples.ChessExamples.{toy_chess}

abbrev sandbox : Sandbox
sandbox = record {
  mode = play;
  root_fen = 97 ∷ [];
  line_moves = [];
  current_move_index = 0;
  selected_square = none;
  legal_targets = [];
  editor_position = [];
  editor_metadata = record {
    turn = PlayerColor.white;
    white_kingside = false;
    white_queenside = false;
    black_kingside = false;
    black_queenside = false;
  };
  editor_selection = none;
  fen_input = [];
  fen_message = none;
  pgn_error = none;
  loaded_source_key = none;
}

sandbox-IsLine : IsLine toy_chess (97 ∷ []) sandbox
sandbox-IsLine = record { chain = tt; in_range = ground arith }

-- A game is loaded, a move is made behind its first one, the board goes to the start, and a position is typed.
abbrev events : List Event
events =
    game "game:g1" ((1, "e2e4") ∷ (2, "e7e5") ∷ [])
    ∷ go (at_index (pos 1))
    ∷ drop "d2" "e4"
    ∷ go (from_current (λ n. pos n -ℤ pos 9))
    ∷ typed (98 ∷ [])
    ∷ load_fen
    ∷ []

run-IsLine_example : IsLine toy_chess (97 ∷ []) (run toy_chess (97 ∷ []) events sandbox)
run-IsLine_example = run-IsLine toy_chess (97 ∷ []) events sandbox sandbox-IsLine

-- chess.js that refuses every position.
abbrev strict_chess : ChessJs
strict_chess = record toy_chess { load = λ f. Loaded.thrown "Invalid FEN" }

load_trimmed-thrown_example :
    ((load_trimmed strict_chess (97 ∷ []) (120 ∷ []) sandbox).root_fen ≡ 120 ∷ [])
    × ((load_trimmed strict_chess (97 ∷ []) (120 ∷ []) sandbox).line_moves ≡ [])
    × ((load_trimmed strict_chess (97 ∷ []) (120 ∷ []) sandbox).editor_position ≡ [])
    × ((load_trimmed strict_chess (97 ∷ []) (120 ∷ []) sandbox).fen_message ≡ some "Invalid FEN")
load_trimmed-thrown_example =
    load_trimmed-thrown strict_chess (97 ∷ []) 120 [] "Invalid FEN" sandbox refl

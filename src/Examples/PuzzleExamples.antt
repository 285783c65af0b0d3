-- ===== src/Examples/PuzzleExamples.antt =====
-- The theorems on the puzzle trainer at concrete inputs,
-- frontend/src/pages/puzzle-page/PuzzlePage.tsx.
use chessview.Common.{◌+◌, ◌≤◌, ◌≡◌, List, [], ◌∷◌, ◌++◌}
use chessview.Puzzle.{Puzzle, new_workspace}
use chessview.Puzzle.Line.{Event, drop, click, timeout, reset, run, IsOnLine, run-IsOnLine}
use chessview.Puzzle.Failures.{failures, resets, failures-run}
use chessview.Examples.ChessExamples.{toy_chess}

abbrev puzzle : Puzzle
puzzle = record { fen = 97 ∷ []; solution_moves = "e2e4" ∷ "e7e5" ∷ "g1f3" ∷ [] }

-- A wrong move, the right one, its reply, and a reset.
abbrev events : List Event
events = drop "a2" "a4" ∷ drop "e2" "e4" ∷ timeout ∷ click "g1" ∷ reset ∷ []

run-IsOnLine_example :
    IsOnLine toy_chess puzzle (run toy_chess puzzle events (new_workspace puzzle))
run-IsOnLine_example = run-IsOnLine toy_chess puzzle events

-- Two resets, then two wrong moves: the second one is not reported.
abbrev wrong_moves : List Event
wrong_moves = drop "a2" "a4" ∷ drop "a2" "a4" ∷ []

failures-run_example :
    (resets wrong_moves ≡ 0
      → failures
          (run toy_chess puzzle
            ((reset ∷ reset ∷ []) ++ wrong_moves)
            (new_workspace puzzle)).reported
        ≤ 1 + failures (run toy_chess puzzle (reset ∷ reset ∷ []) (new_workspace puzzle)).reported)
    × (failures
          (run toy_chess puzzle
            ((reset ∷ reset ∷ []) ++ wrong_moves)
            (new_workspace puzzle)).reported
        ≤ 1 + resets ((reset ∷ reset ∷ []) ++ wrong_moves))
failures-run_example = failures-run toy_chess puzzle (reset ∷ reset ∷ []) wrong_moves

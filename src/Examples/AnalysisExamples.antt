-- ===== src/Examples/AnalysisExamples.antt =====
-- The theorems on the local analysis of a position at concrete inputs:
-- frontend/src/features/analyze-position/useStockfishAnalysis.ts.
use chessview.Common.{
  ℕ, String, ◌≡◌, Bool, true, false, Option, none, List, [], ◌∷◌, arith, str_eq, eq_iff,
  if◌then◌else◌,
}
use chessview.Chess.{ChessJs, ParsedUciMove}
use chessview.Analysis.Engine.{Engine, new_engine, shown}
use chessview.Analysis.Replies.{on_message}
use chessview.Analysis.Shown.{
  Event, turn_on, message, render, timeout, IsPlayable, run, run-IsPlayable,
}
use chessview.Analysis.NoMoves.{on_message-none}
use chessview.Examples.ChessExamples.{toy_chess}

-- chess.js with the moves of `toy_chess` but for the square "(n", which is none.
abbrev no_brackets : ChessJs
no_brackets = record toy_chess {
  move = λ g m. if str_eq m.from "(n" then none else toy_chess.move g m;
}

-- `Number(text)` is 0 here.
abbrev zero_number : Option String → ℕ
zero_number text = 0

abbrev is_number : ℕ → Bool
is_number n = false

-- An engine that is started, answers, is asked for a position, and finds a move.
abbrev session : List Event
session =
    turn_on "start" 14
    ∷ message "uciok"
    ∷ message "readyok"
    ∷ render "start" 14
    ∷ timeout
    ∷ message "readyok"
    ∷ message "info depth 1 pv e2e4"
    ∷ message "bestmove e2e4"
    ∷ []

run-IsPlayable_example : IsPlayable 0 no_brackets zero_number is_number "start" (
    shown 0 "start" true true
      (run 0 no_brackets zero_number is_number session (new_engine 0 "start")))
run-IsPlayable_example =
    run-IsPlayable 0 no_brackets zero_number is_number session "start" "start" true true

abbrev active : Engine ℕ
active = record (new_engine 0 "start") { has_worker = true; is_search_active = true }

refuses : (g : no_brackets.Game) (m : ParsedUciMove) → m.from ≡ "(n" → no_brackets.move g m ≡ none
refuses g m h = ground (arith, h, eq_iff m.from "(n")

on_message-none_example :
    on_message 0 no_brackets zero_number is_number "bestmove (none)" active ≡ active
on_message-none_example = on_message-none 0 no_brackets zero_number is_number active refuses

-- ===== src/Puzzle/Failures.antt =====
-- The failures that the trainer reports, frontend/src/pages/puzzle-page/PuzzlePage.tsx.
use chessview.Common.{
  ℕ, suc, ◌+◌, ◌≤◌, ◌≡◌, refl, String, not, ◌||◌, Option, none, List, [], ◌∷◌, ◌++◌, get_elem?,
  arith, if◌then◌else◌, ◌or◌,
}
use chessview.Common.Splits.{if_split, option_split}
use chessview.Common.Text.{truthy?, same}
use chessview.Chess.{ChessJs}
use chessview.Chess.Moves.{build_move_uci, SandboxMove, apply_sandbox_move}
use chessview.Puzzle.{
  AttemptResult, Puzzle, Workspace, Replied, new_workspace, reset_puzzle, complete_puzzle,
  is_solved, moves_from, play_replies, after_replies, on_timer, advance, handle_solved_move,
  fail_attempt, handle_attempt_uci, handle_piece_drop, handle_square_click, select, stands, broken,
  threw,
}
use chessview.Puzzle.Line.{Event, drop, click, timeout, reset, step, run}

-- How many failures are among the reports, and how often the puzzle was reset.
abbrev pub failures : List AttemptResult → ℕ
failures [] = 0
failures (AttemptResult.attempt_failed ∷ rs) = suc (failures rs)
failures (AttemptResult.attempt_solved ∷ rs) = failures rs

abbrev pub resets : List Event → ℕ
resets [] = 0
resets (reset ∷ events) = suc (resets events)
resets (drop from to ∷ events) = resets events
resets (click square ∷ events) = resets events
resets (timeout ∷ events) = resets events

failures-append :
    (rs : List AttemptResult) (r : AttemptResult)
    → failures (rs ++ r ∷ []) ≡ failures rs + failures (r ∷ [])
failures-append [] r = omega arith
failures-append (AttemptResult.attempt_failed ∷ rs) r = omega (arith, failures-append rs r)
failures-append (AttemptResult.attempt_solved ∷ rs) r = failures-append rs r

-- One failure is open until the next reset, if none was reported since the last.
abbrev pub open_failures : Workspace → ℕ
open_failures w = failures w.reported + (if w.reported_failure then 0 else 1)

module _ (js : ChessJs) where
  -- No more failures than before.
  abbrev Keeps : Workspace → Workspace → Type 0
  Keeps w v = open_failures v ≤ open_failures w

  advance-Keeps :
      (p : Puzzle) (uci : String) (m : SandboxMove) (w : Workspace) → Keeps w (advance js p uci m w)
  unfolding advance complete_puzzle
  advance-Keeps p uci m w = ground (arith, failures-append w.reported AttemptResult.attempt_solved)

  handle_attempt_uci-Keeps :
      (p : Puzzle) (uci : Option String) (w : Workspace) → Keeps w (handle_attempt_uci js p uci w)
  unfolding handle_attempt_uci fail_attempt handle_solved_move
  handle_attempt_uci-Keeps p uci w =
      if_split (Keeps w) (not (truthy? uci) || w.is_auto_replying || is_solved w.session_state) _ _
        (λ q. omega arith)
        (λ q.
          if_split (Keeps w) (not (same uci (get_elem? p.solution_moves w.current_move_index))) _ _
            (λ s. ground (arith, failures-append w.reported AttemptResult.attempt_failed))
            (λ s.
              option_split (Keeps w) (apply_sandbox_move js w.current_fen (uci or "")) _ _
                (λ n. omega arith)
                (λ made e.
                  option_split (Keeps w) made _ _ (λ n. omega arith)
                    (λ m i. advance-Keeps p (uci or "") m w))))

  after_replies-Keeps :
      (p : Puzzle) (r : Replied) (w : Workspace) → Keeps w (after_replies js p r w)
  unfolding after_replies complete_puzzle
  after_replies-Keeps p threw w = omega arith
  after_replies-Keeps p broken w = omega arith
  after_replies-Keeps p (stands fen index last) w =
      ground (arith, failures-append w.reported AttemptResult.attempt_solved)

  handle_piece_drop-Keeps :
      (p : Puzzle) (from to : String) (w : Workspace) → Keeps w (handle_piece_drop js p from to w)
  unfolding handle_piece_drop
  handle_piece_drop-Keeps p from to w =
      option_split (Keeps w) (build_move_uci js w.current_fen from to none) _ _ (λ n. omega arith)
        (λ uci e. handle_attempt_uci-Keeps p uci w)

  select-Keeps : (square : String) (w : Workspace) → Keeps w (select js square w)
  select-Keeps square w = ground arith

  step-failures :
      (p : Puzzle) (e : Event) (w : Workspace)
      → open_failures (step js p e w) ≤ open_failures w + resets (e ∷ [])
  unfolding step reset_puzzle handle_square_click on_timer
  step-failures p (drop from to) w = omega (arith, handle_piece_drop-Keeps p from to w)
  step-failures p (click square) w =
      ground
        (arith, select-Keeps square w, handle_piece_drop-Keeps p (w.selected_square or "") square w)
  step-failures p timeout w =
      option_split (λ v. open_failures v ≤ open_failures w + 0) w.timer _ _ (λ n. omega arith)
        (λ r e. omega (
          arith,
          after_replies-Keeps p
              (play_replies js r.fen r.index r.last_move (moves_from r.index p.solution_moves))
              (record w { timer = none }),
        ))
  step-failures p reset w = ground arith

  resets-cons :
      (e : Event) (events : List Event) → resets (e ∷ events) ≡ resets (e ∷ []) + resets events
  resets-cons (drop from to) events = omega arith
  resets-cons (click square) events = omega arith
  resets-cons timeout events = omega arith
  resets-cons reset events = omega arith

  failures-run_from :
      (p : Puzzle) (events : List Event) (w : Workspace)
      → failures (run js p events w).reported ≤ open_failures w + resets events
  unfolding run
  failures-run_from p [] w = omega arith
  failures-run_from p (e ∷ events) w =
      omega (
        arith,
        failures-run_from p events (step js p e w),
        step-failures p e w,
        resets-cons e events,
      )

  run-append :
      (p : Puzzle) (before during : List Event) (w : Workspace)
      → run js p (before ++ during) w ≡ run js p during (run js p before w)
  unfolding run
  run-append p [] during w = refl
  run-append p (e ∷ before) during w = run-append p before during (step js p e w)

  -- Whatever has happened to a puzzle, events without a reset among them report at most one more failure. All
  -- together, there are at most one more failures reported than there were resets.
  pub failures-run :
      (p : Puzzle) (before during : List Event)
      → (resets during ≡ 0
          → failures (run js p (before ++ during) (new_workspace p)).reported
            ≤ 1 + failures (run js p before (new_workspace p)).reported)
        × (failures (run js p (before ++ during) (new_workspace p)).reported
            ≤ 1 + resets (before ++ during))
  unfolding new_workspace
  failures-run p before during =
      let w = run js p before (new_workspace p) in
      (
        λ h.
            rw (run-append p before during (new_workspace p))
              (ground (arith, h, failures-run_from p during w)),
        omega (arith, failures-run_from p (before ++ during) (new_workspace p)),
      )

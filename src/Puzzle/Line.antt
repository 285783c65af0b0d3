-- ===== src/Puzzle/Line.antt =====
-- The trainer follows the solution of the puzzle, frontend/src/pages/puzzle-page/PuzzlePage.tsx.
use mathlib.Core.Path.{subst}
use chessview.Common.{
  ℕ, suc, ◌≡◌, refl, ap, ◌∙◌, String, true, false, not, ◌||◌, Option, none, some, List, [], ◌∷◌,
  length, get_elem?, arith, if◌then◌else◌, ◌or◌,
}
use chessview.Common.Splits.{if_split, option_split}
use chessview.Chess.{Fen, ChessJs}
use chessview.Common.Text.{truthy, same}
use chessview.Chess.Moves.{build_move_uci, SandboxMove, apply_sandbox_move}
use chessview.Puzzle.{
  Puzzle, Reply, Workspace, Replied, new_workspace, reset_puzzle, complete_puzzle, is_solved,
  moves_from, is_odd, play_replies, after_replies, on_timer, advance, handle_solved_move,
  fail_attempt, handle_attempt_uci, handle_piece_drop, handle_square_click, select, stands, broken,
  threw,
}
use chessview.Puzzle.Behind.{behind, behind-suc, behind-length, moves_from-cons, same-some}

pub data Event : Type 0 where
  drop : String → String → Event
  click : String → Event
  timeout reset : Event

module _ (js : ChessJs) where
  unfoldable pub step : Puzzle → Event → Workspace → Workspace
  step p (drop from to) = handle_piece_drop js p from to
  step p (click square) = handle_square_click js p square
  step p timeout = on_timer js p
  step p reset = reset_puzzle p

  unfoldable pub run : Puzzle → List Event → Workspace → Workspace
  run p [] w = w
  run p (e ∷ events) w = run p events (step p e w)

  -- A reply that waits belongs to the position of a puzzle that is not solved, and is waited for.
  abbrev pub IsAwaited : Option Reply → Workspace → Type 0
  IsAwaited none w = Unit
  IsAwaited (some r) w =
      (r.fen ≡ w.current_fen)
      × (r.index ≡ w.current_move_index)
      × (is_solved w.session_state ≡ false)
      × (w.is_auto_replying ≡ true)

  -- The workspace stands behind the first moves of the solution, and a solved puzzle has all its moves
  -- played.
  pub record IsOnLine (p : Puzzle) (w : Workspace) : Type 0 where
    pub stands_behind : behind js p.fen w.current_move_index p.solution_moves ≡ some w.current_fen
    pub awaited : IsAwaited w.timer w
    pub finished : is_solved w.session_state ≡ true → w.current_move_index ≡ length p.solution_moves

  advance-IsOnLine :
      (p : Puzzle) (uci : String) (m : SandboxMove) (w : Workspace)
      → IsOnLine p w
      → (w.is_auto_replying || is_solved w.session_state) ≡ false
      → get_elem? p.solution_moves w.current_move_index ≡ some uci
      → apply_sandbox_move js w.current_fen uci ≡ some (some m)
      → IsOnLine p (advance js p uci m w)
  unfolding advance complete_puzzle
  advance-IsOnLine p uci m w h q k e =
      let next =
        behind-suc js p.solution_moves w.current_move_index uci m w.current_fen p.fen k e
          h.stands_behind in
      ground (
        arith,
        h,
        q,
        next,
        behind-length js p.solution_moves (suc w.current_move_index) m.fen_after p.fen next,
      )

  -- The end of the replies is behind the moves of the solution too.
  abbrev pub EndsBehind : Puzzle → Replied → Type 0
  EndsBehind p (stands fen index last) = behind js p.fen index p.solution_moves ≡ some fen
  EndsBehind p broken = Unit
  EndsBehind p threw = Unit

  play_replies-EndsBehind :
      (p : Puzzle) (rest : List String) (fen : Fen) (index : ℕ) (last : Option String)
      → moves_from index p.solution_moves ≡ rest
      → behind js p.fen index p.solution_moves ≡ some fen
      → EndsBehind p (play_replies js fen index last rest)
  unfolding play_replies
  play_replies-EndsBehind p [] fen index last h k = k
  play_replies-EndsBehind p (uci ∷ rest) fen index last h k =
      let cons = moves_from-cons index p.solution_moves uci rest h in
      option_split (EndsBehind p)
        (if is_odd index then apply_sandbox_move js fen uci else some none) _ _ (λ n. tt)
        (λ made e.
          option_split (EndsBehind p) made _ _
            (λ n. if_split (EndsBehind p) (is_odd index) _ _ (λ o. tt) (λ o. k))
            (λ m i. play_replies-EndsBehind p rest m.fen_after (suc index) (some uci) cons.1 (
              behind-suc js p.solution_moves index uci m fen p.fen cons.0 (ground (arith, e, i))
                k)))

  handle_solved_move-IsOnLine :
      (p : Puzzle) (uci : String) (w : Workspace)
      → IsOnLine p w
      → (w.is_auto_replying || is_solved w.session_state) ≡ false
      → get_elem? p.solution_moves w.current_move_index ≡ some uci
      → IsOnLine p (handle_solved_move js p uci w)
  unfolding handle_solved_move
  handle_solved_move-IsOnLine p uci w h q k =
      option_split (IsOnLine p) (apply_sandbox_move js w.current_fen uci) _ _ (λ n. h)
        (λ made e.
          option_split (IsOnLine p) made _ _ (λ n. h)
            (λ m i. advance-IsOnLine p uci m w h q k (e ∙ ap some i)))

  after_replies-IsOnLine :
      (p : Puzzle) (r : Replied) (w : Workspace)
      → IsOnLine p w
      → is_solved w.session_state ≡ false
      → w.timer ≡ none
      → EndsBehind p r
      → IsOnLine p (after_replies js p r w)
  unfolding after_replies complete_puzzle
  after_replies-IsOnLine p threw w h q t e = h
  after_replies-IsOnLine p broken w h q t e = ground (arith, h, q, t)
  after_replies-IsOnLine p (stands fen index last) w h q t e =
      ground (arith, h, q, t, e, behind-length js p.solution_moves index fen p.fen e)

  on_timer-IsOnLine : (p : Puzzle) (w : Workspace) → IsOnLine p w → IsOnLine p (on_timer js p w)
  unfolding on_timer
  on_timer-IsOnLine p w h =
      option_split (IsOnLine p) w.timer _ _ (λ n. h)
        (λ r e.
          let fired = record w { timer = none } in
          let waits : IsAwaited (some r) w = subst (λ t. IsAwaited t w) e h.awaited in
          after_replies-IsOnLine p
            (play_replies js r.fen r.index r.last_move (moves_from r.index p.solution_moves)) fired
            (ground (arith, h)) waits.2 refl
            (play_replies-EndsBehind p (moves_from r.index p.solution_moves) r.fen r.index
              r.last_move refl (cc (waits.0, waits.1, h.stands_behind))))

  handle_attempt_uci-IsOnLine :
      (p : Puzzle) (uci : Option String) (w : Workspace)
      → IsOnLine p w
      → IsOnLine p (handle_attempt_uci js p uci w)
  unfolding handle_attempt_uci fail_attempt
  handle_attempt_uci-IsOnLine p none w h = h
  handle_attempt_uci-IsOnLine p (some uci) w h =
      if_split (IsOnLine p) (not (truthy uci) || w.is_auto_replying || is_solved w.session_state) _
        _ (λ q. h)
        (λ q.
          if_split (IsOnLine p)
            (not (same (some uci) (get_elem? p.solution_moves w.current_move_index))) _ _
            (λ s. ground (arith, h, q))
            (λ s.
              handle_solved_move-IsOnLine p uci w h (ground (arith, q))
                (same-some (get_elem? p.solution_moves w.current_move_index) uci s)))

  handle_piece_drop-IsOnLine :
      (p : Puzzle) (from to : String) (w : Workspace)
      → IsOnLine p w
      → IsOnLine p (handle_piece_drop js p from to w)
  unfolding handle_piece_drop
  handle_piece_drop-IsOnLine p from to w h =
      option_split (IsOnLine p) (build_move_uci js w.current_fen from to none) _ _ (λ n. h)
        (λ uci e. handle_attempt_uci-IsOnLine p uci w h)

  select-IsOnLine :
      (p : Puzzle) (square : String) (w : Workspace)
      → IsOnLine p w
      → IsOnLine p (select js square w)
  select-IsOnLine p square w h = ground (arith, h)

  handle_square_click-IsOnLine :
      (p : Puzzle) (square : String) (w : Workspace)
      → IsOnLine p w
      → IsOnLine p (handle_square_click js p square w)
  unfolding handle_square_click
  handle_square_click-IsOnLine p square w h = ground (
    arith,
    h,
    select-IsOnLine p square w h,
    handle_piece_drop-IsOnLine p (w.selected_square or "") square w h,
  )

  step-IsOnLine : (p : Puzzle) (e : Event) (w : Workspace) → IsOnLine p w → IsOnLine p (step p e w)
  unfolding step reset_puzzle behind
  step-IsOnLine p (drop from to) w h = handle_piece_drop-IsOnLine p from to w h
  step-IsOnLine p (click square) w h = handle_square_click-IsOnLine p square w h
  step-IsOnLine p timeout w h = on_timer-IsOnLine p w h
  step-IsOnLine p reset w h = ground arith

  run_from-IsOnLine :
      (p : Puzzle) (events : List Event) (w : Workspace)
      → IsOnLine p w
      → IsOnLine p (run p events w)
  unfolding run
  run_from-IsOnLine p [] w h = h
  run_from-IsOnLine p (e ∷ events) w h =
      run_from-IsOnLine p events (step p e w) (step-IsOnLine p e w h)

  new_workspace-IsOnLine : (p : Puzzle) → IsOnLine p (new_workspace p)
  unfolding new_workspace behind
  new_workspace-IsOnLine p = ground arith

  -- Whatever is dropped and clicked, whenever the replies come and the puzzle is reset, the board stands
  -- behind the first moves of the solution, as many as the trainer counts, a reply that waits is for that
  -- board, and the puzzle is solved only with all the moves played.
  pub run-IsOnLine :
      (p : Puzzle) (events : List Event) → IsOnLine p (run p events (new_workspace p))
  run-IsOnLine p events = run_from-IsOnLine p events (new_workspace p) (new_workspace-IsOnLine p)

-- ===== src/Puzzle.antt =====
-- The puzzle trainer, frontend/src/pages/puzzle-page/PuzzlePage.tsx, `PuzzleWorkspace`: its state and
-- its handlers. A handler that throws leaves the state as it was.
pub mod Behind
pub mod Line
pub mod Failures
use chessview.Common.{
  ℕ, zero, suc, ◌+◌, ◌%◌, String, Bool, true, false, not, ◌&&◌, ◌||◌, Option, none, some, List, [],
  ◌∷◌, ◌++◌, any, ◌==◌, leb, length, get_elem?, str_eq, ◌or◌, if◌then◌else◌,
}
use chessview.Common.Text.{truthy, truthy?, same}
use chessview.Types.{PlayerColor}
use chessview.Chess.{Fen, ChessJs, Throws}
use chessview.Chess.Moves.{
  SandboxMove, apply_sandbox_move, build_move_uci, get_legal_moves, get_square_color,
}

pub data SessionState : Type 0 where
  ready failed solved : SessionState

-- `PuzzleAttemptResult`
pub data AttemptResult : Type 0 where
  attempt_solved attempt_failed : AttemptResult

-- What the handlers read of `PuzzleDetailResponse`.
pub record Puzzle : Type 0 where
  pub fen : Fen
  pub solution_moves : List String

-- What the timeout will call `autoPlayReplies` with: the position, the index, and the last move that
-- its closure holds.
pub record Reply : Type 0 where
  pub fen : Fen
  pub index : ℕ
  pub last_move : Option String

-- The states and the reference of the component, and the attempts that were reported.
pub record Workspace : Type 0 where
  pub timer : Option Reply
  pub current_fen : Fen
  pub current_move_index : ℕ
  pub selected_square : Option String
  pub legal_targets : List String
  pub last_move_uci : Option String
  pub session_state : SessionState
  pub status_message : String
  pub reported_failure : Bool
  pub is_auto_replying : Bool
  pub reported : List AttemptResult

unfoldable pub new_workspace : Puzzle → Workspace
new_workspace p = record {
  timer = none;
  current_fen = p.fen;
  current_move_index = 0;
  selected_square = none;
  legal_targets = [];
  last_move_uci = none;
  session_state = ready;
  status_message = "Find the best move and continue the forcing line.";
  reported_failure = false;
  is_auto_replying = false;
  reported = [];
}

unfoldable pub reset_puzzle : Puzzle → Workspace → Workspace
reset_puzzle p w = record w {
  timer = none;
  current_fen = p.fen;
  current_move_index = 0;
  selected_square = none;
  legal_targets = [];
  last_move_uci = none;
  session_state = ready;
  status_message = "Position reset. Try to find the solution again.";
  reported_failure = false;
  is_auto_replying = false;
}

unfoldable pub complete_puzzle : Workspace → Workspace
complete_puzzle w = record w {
  session_state = solved;
  status_message = "Perfect calculation. Puzzle solved.";
  reported = w.reported ++ attempt_solved ∷ [];
}

abbrev pub is_solved : SessionState → Bool
is_solved solved = true
is_solved _ = false

-- `runningIndex % 2 === 1`
abbrev pub is_odd : ℕ → Bool
is_odd n = n % 2 == 1

-- `fen.includes(" w ")`, given the code of the letter.
abbrev pub has_turn : ℕ → Fen → Bool
has_turn c [] = false
has_turn c (x ∷ []) = false
has_turn c (x ∷ y ∷ []) = false
has_turn c (x ∷ y ∷ z ∷ rest) = x == 32 && y == c && z == 32 || has_turn c (y ∷ z ∷ rest)

-- The solution from an index on.
abbrev pub moves_from : ℕ → List String → List String
moves_from zero moves = moves
moves_from (suc n) [] = []
moves_from (suc n) (m ∷ moves) = moves_from n moves

-- How the loop over the replies ends: at a position, at a reply that cannot be made, or with an
-- exception.
pub data Replied : Type 0 where
  stands : Fen → ℕ → Option String → Replied
  broken : Replied
  threw : Replied

module _ (js : ChessJs) where
  -- The `while` loop; `rest` is the solution from the index on.
  unfoldable pub play_replies : Fen → ℕ → Option String → List String → Replied
  play_replies fen index last [] = stands fen index last
  play_replies fen index last (uci ∷ rest) =
      elim (if is_odd index then apply_sandbox_move js fen uci else some none) as (λ _. Replied) [
        | none ↦ threw
        | some made ↦ elim made as (λ _. Replied) [
          | none ↦ if is_odd index then broken else stands fen index last
          | some m ↦ play_replies m.fen_after (suc index) (some uci) rest
        ]
      ]

  -- The code behind the loop.
  unfoldable pub after_replies : Puzzle → Replied → Workspace → Workspace
  unfolding complete_puzzle
  after_replies p threw w = w
  after_replies p broken w = record w {
    is_auto_replying = false;
    status_message = "Error in puzzle sequence execution.";
  }
  after_replies p (stands fen index last) w =
      let shown = record w {
        current_fen = fen;
        current_move_index = index;
        last_move_uci = last;
        is_auto_replying = false;
      } in
      if leb (length p.solution_moves) index
      then complete_puzzle shown
      else record shown { status_message = "Correct. Continue the sequence." }

  -- The timeout.
  unfoldable pub on_timer : Puzzle → Workspace → Workspace
  on_timer p w = elim w.timer as (λ _. Workspace) [
    | none ↦ w
    | some r ↦
        after_replies p
          (play_replies r.fen r.index r.last_move (moves_from r.index p.solution_moves))
          (record w { timer = none })
  ]

  -- `handleSolvedMove`, behind the move that was made.
  unfoldable pub advance : Puzzle → String → SandboxMove → Workspace → Workspace
  unfolding complete_puzzle
  advance p uci m w =
      let next = suc w.current_move_index in
      let moved = record w {
        current_fen = m.fen_after;
        current_move_index = next;
        last_move_uci = some uci;
        selected_square = none;
        legal_targets = [];
      } in
      if leb (length p.solution_moves) next
      then complete_puzzle moved
      else if is_odd next
      then record moved {
        is_auto_replying = true;
        status_message = "Wait, opponent is moving...";
        timer = some (record { fen = m.fen_after; index = next; last_move = w.last_move_uci });
      }
      else record moved { status_message = "Great move. What's next?" }

  unfoldable pub handle_solved_move : Puzzle → String → Workspace → Workspace
  handle_solved_move p uci w = elim (apply_sandbox_move js w.current_fen uci) as (λ _. Workspace) [
    | none ↦ w
    | some made ↦ elim made as (λ _. Workspace) [ none ↦ w | some m ↦ advance p uci m w ]
  ]

  -- A wrong move.
  unfoldable pub fail_attempt : Workspace → Workspace
  fail_attempt w = record w {
    selected_square = none;
    legal_targets = [];
    session_state = failed;
    status_message = "That's not the best move. Try again.";
    reported_failure = true;
    reported = if w.reported_failure then w.reported else w.reported ++ attempt_failed ∷ [];
  }

  unfoldable pub handle_attempt_uci : Puzzle → Option String → Workspace → Workspace
  handle_attempt_uci p uci w =
      if not (truthy? uci) || w.is_auto_replying || is_solved w.session_state
      then w
      else if not (same uci (get_elem? p.solution_moves w.current_move_index))
      then fail_attempt w
      else handle_solved_move p (uci or "") w

  -- `buildMoveUci` of a move, which may throw, and the attempt at it.
  unfoldable pub handle_piece_drop : Puzzle → String → String → Workspace → Workspace
  handle_piece_drop p from to w =
      elim (build_move_uci js w.current_fen from to none) as (λ _. Workspace) [
        | none ↦ w
        | some uci ↦ handle_attempt_uci p uci w
      ]

  abbrev pub same_color : Option PlayerColor → Bool → Bool
  same_color none white = false
  same_color (some PlayerColor.white) white = white
  same_color (some PlayerColor.black) white = not white

  -- `currentFen.includes(" w ") ? "white" : "black"`
  abbrev pub active_color : Fen → PlayerColor
  active_color fen = if has_turn 119 fen then PlayerColor.white else PlayerColor.black

  abbrev pub select : String → Workspace → Workspace
  select square w = elim (get_square_color js w.current_fen square) as (λ _. Workspace) [
    | none ↦ w
    | some color ↦
        if not (same_color color (has_turn 119 w.current_fen))
        then record w { selected_square = none; legal_targets = [] }
        else elim (get_legal_moves js w.current_fen square (some (active_color w.current_fen)))
            as (λ _. Workspace) [
              | none ↦ record w { selected_square = some square }
              | some targets ↦ record w { selected_square = some square; legal_targets = targets }
            ]
  ]

  unfoldable pub handle_square_click : Puzzle → String → Workspace → Workspace
  unfolding handle_piece_drop
  handle_square_click p square w =
      if w.is_auto_replying || is_solved w.session_state
      then w
      else if truthy? w.selected_square && any (λ t. str_eq t square) w.legal_targets
      then handle_piece_drop p (w.selected_square or "") square w
      else select square w

-- ===== src/Sandbox/Chain.antt =====
-- The line of the sandbox is a game, frontend/src/pages/analysis-page/AnalysisWorkspace.tsx.
use chessview.Common.{
  ◌or◌, ℕ, zero, suc, ◌≤◌, ◌≡◌, refl, sym, ap, ◌∙◌, String, Bool, true, false, Option, none, some,
  List, [], ◌∷◌, ◌++◌, get_elem?, length, arith, if◌then◌else◌,
}
use mathlib.Core.Path.{subst}
use chessview.Common.Splits.{if_split, option_split}
use chessview.Common.Text.{truthy, same}
use chessview.Chess.{Fen, ChessJs, Throws, ◌>>=◌}
use chessview.Chess.Moves.{
  SandboxMove, apply_sandbox_move, apply_sandbox_move_from_squares, build_move_uci,
}
use chessview.Chess.Editor.{board_position_from_fen, build_fen_from_editor_state}
use chessview.Puzzle.{active_color}
use chessview.Sandbox.Clicks.{
  handle_piece_drop, handle_square_click, select_square, edit_square, edit_drop,
}
use chessview.Sandbox.{
  Sandbox, NextIndex, current_fen, fen_at, take, drop_spaces, drop_end_spaces, go_to_move_index,
  sync_editor, place_line, keep_key, end_of, replace_workspace, line_of, load_game,
  handle_apply_sandbox_move, handle_load_fen, load_trimmed, handle_reset_start,
  handle_apply_editor_position,
}

pub data Event : Type 0 where
  go : NextIndex → Event
  game : String → List (ℕ × String) → Event
  drop : String → String → Event
  click : String → Event
  typed : Fen → Event
  load_fen start apply_editor : Event

module _ (js : ChessJs) (standard_start : Fen) where
  unfoldable pub step : Event → Sandbox → Sandbox
  step (go n) s = go_to_move_index n s
  step (game key moves) s = load_game js standard_start key moves s
  step (drop from to) s = handle_piece_drop js standard_start from to s
  step (click square) s = handle_square_click js standard_start square s
  step (typed text) s = record s { fen_input = text }
  step load_fen s = handle_load_fen js standard_start s
  step start s = handle_reset_start js standard_start s
  step apply_editor s = handle_apply_editor_position js standard_start s

  unfoldable pub run : List Event → Sandbox → Sandbox
  run [] s = s
  run (e ∷ events) s = run events (step e s)

  -- Some move of chess.js leads from the position to the one of the line's move.
  abbrev pub Follows : Fen → SandboxMove → Type 0
  Follows fen m =
      (uci : String) × (n : ℕ) × (apply_sandbox_move js fen uci
        ≡ some (some (record m { move_number = n })))

  abbrev pub IsChain : Fen → List SandboxMove → Type 0
  IsChain fen [] = Unit
  IsChain fen (m ∷ ms) = Follows fen m × IsChain m.fen_after ms

  -- The line is a game from the root, and the index lies in it.
  pub record IsLine (s : Sandbox) : Type 0 where
    pub chain : IsChain s.root_fen s.line_moves
    pub in_range : s.current_move_index ≤ length s.line_moves

  abbrev last_fen : Fen → List SandboxMove → Fen
  last_fen fen [] = fen
  last_fen fen (m ∷ ms) = last_fen m.fen_after ms

  IsChain-take :
      (ms : List SandboxMove) (n : ℕ) (fen : Fen) → IsChain fen ms → IsChain fen (take n ms)
  IsChain-take ms zero fen h = tt
  IsChain-take [] (suc n) fen h = tt
  IsChain-take (m ∷ ms) (suc n) fen h = (h.0, IsChain-take ms n m.fen_after h.1)

  IsChain-append :
      (ms : List SandboxMove) (m : SandboxMove) (fen : Fen)
      → IsChain fen ms
      → Follows (last_fen fen ms) m
      → IsChain fen (ms ++ m ∷ [])
  IsChain-append [] m fen h f = (f, tt)
  IsChain-append (x ∷ ms) m fen h f = (h.0, IsChain-append ms m x.fen_after h.1 f)

  last_fen-take :
      (ms : List SandboxMove) (n : ℕ) (fen other : Fen)
      → suc n ≤ length ms
      → last_fen fen (take (suc n) ms)
        ≡ (elim (get_elem? ms n) as (λ _. Fen) [ none ↦ other | some m ↦ m.fen_after ])
  last_fen-take [] n fen other h = ground (arith, h)
  last_fen-take (m ∷ ms) zero fen other h = refl
  last_fen-take (m ∷ ms) (suc n) fen other h =
      last_fen-take ms n m.fen_after other (omega (arith, h))

  fen_at-last_fen :
      (ms : List SandboxMove) (n : ℕ) (root : Fen)
      → n ≤ length ms
      → last_fen root (take n ms) ≡ fen_at root ms n
  unfolding fen_at
  fen_at-last_fen ms zero root h = refl
  fen_at-last_fen ms (suc n) root h = last_fen-take ms n root root h

  moved_by :
      (fen : Fen) (m : SandboxMove) (built : Throws (Option String))
      → (built >>= (λ b. elim b as (λ _. Throws (Option SandboxMove)) [
        | none ↦ some none
        | some uci ↦ if truthy uci then apply_sandbox_move js fen uci else some none
      ]))
        ≡ some (some m)
      → Follows fen m
  moved_by fen m none h = ground (arith, h)
  moved_by fen m (some none) h = ground (arith, h)
  moved_by fen m (some (some uci)) h = (uci, m.move_number, ground (arith, h))

  -- The line of a loaded game, if there is one, is a game from the position.
  abbrev IsChained : Fen → Throws (List SandboxMove) → Type 0
  IsChained fen none = Unit
  IsChained fen (some line) = IsChain fen line

  line_of-IsChained :
      (moves : List (ℕ × String)) (fen : Fen) → IsChained fen (line_of js standard_start fen moves)
  unfolding line_of
  line_of-IsChained [] fen = tt
  line_of-IsChained ((number, uci) ∷ moves) fen =
      option_split (IsChained fen) (apply_sandbox_move js fen uci) _ _ (λ n. tt)
        (λ made e.
          option_split (IsChained fen) made _ _ (λ n. line_of-IsChained moves fen)
            (λ m i.
              option_split (IsChained fen) (line_of js standard_start m.fen_after moves) _ _
                (λ n. tt)
                (λ line l. (
                  (uci, m.move_number, e ∙ ap some i),
                  subst (IsChained m.fen_after) l (line_of-IsChained moves m.fen_after),
                ))))

  sync_editor-IsLine :
      (fen : Fen) (s : Sandbox) → IsLine s → IsLine (sync_editor js standard_start fen s).0
  unfolding sync_editor
  sync_editor-IsLine fen s h =
      option_split (λ (r : Sandbox × Bool). IsLine r.0) (board_position_from_fen js fen) _ _
        (λ n. h) (λ q e. ground (arith, h))

  place_line-IsLine :
      (root : Fen) (moves : List SandboxMove) (s : Sandbox)
      → IsChain root moves
      → IsLine (place_line js standard_start root moves s)
  unfolding place_line
  place_line-IsLine root moves s h = record { chain = h; in_range = omega arith }

  keep_key-IsLine :
      (key : Option String) (r : Sandbox × Bool)
      → IsLine r.0
      → IsLine (keep_key js standard_start key r).0
  keep_key-IsLine key (s, true) h = h
  keep_key-IsLine key (s, false) h = record { chain = h.chain; in_range = h.in_range }

  replace_workspace-IsLine :
      (root : Fen) (moves : List SandboxMove) (key : Option String) (s : Sandbox)
      → IsChain root moves
      → IsLine (replace_workspace js standard_start root moves key s).0
  unfolding replace_workspace
  replace_workspace-IsLine root moves key s h =
      keep_key-IsLine key
        (sync_editor js standard_start (end_of js standard_start root moves)
          (place_line js standard_start root moves s))
        (sync_editor-IsLine (end_of js standard_start root moves)
          (place_line js standard_start root moves s) (place_line-IsLine root moves s h))

  handle_apply_sandbox_move-IsLine :
      (from to : String) (s : Sandbox)
      → IsLine s
      → IsLine (handle_apply_sandbox_move js standard_start from to s)
  unfolding handle_apply_sandbox_move apply_sandbox_move_from_squares
  handle_apply_sandbox_move-IsLine from to s h =
      let color = some (active_color js (current_fen s)) in
      option_split IsLine (apply_sandbox_move_from_squares js (current_fen s) from to color) _ _
        (λ n. h)
        (λ made e.
          option_split IsLine made _ _ (λ n. h)
            (λ m i.
              let n = s.current_move_index in
              let line = take n s.line_moves in
              let follows : Follows (current_fen s) m =
                moved_by (current_fen s) m (build_move_uci js (current_fen s) from to color)
                  (e ∙ ap some i) in
              record {
                chain =
                    IsChain-append line (record m { move_number = suc n }) s.root_fen
                      (IsChain-take s.line_moves n s.root_fen h.chain)
                      (subst (λ f. Follows f m)
                        (sym (fen_at-last_fen s.line_moves n s.root_fen h.in_range)) follows);
                in_range = omega arith;
              }))

  load_game-IsLine :
      (key : String) (moves : List (ℕ × String)) (s : Sandbox)
      → IsLine s
      → IsLine (load_game js standard_start key moves s)
  unfolding load_game
  load_game-IsLine key moves s h =
      if_split IsLine (same s.loaded_source_key (some key)) _ _ (λ e. h)
        (λ e.
          option_split IsLine (line_of js standard_start standard_start moves) _ _ (λ n. h)
            (λ line l.
              replace_workspace-IsLine standard_start line (some key) s
                (subst (IsChained standard_start) l (line_of-IsChained moves standard_start))))

  load_trimmed-IsLine :
      (fen : Fen) (s : Sandbox) → IsLine s → IsLine (load_trimmed js standard_start fen s)
  unfolding load_trimmed
  load_trimmed-IsLine [] s h = record { chain = h.chain; in_range = h.in_range }
  load_trimmed-IsLine (c ∷ cs) s h =
      let line = replace_workspace-IsLine (c ∷ cs) [] none s tt in
      record { chain = line.chain; in_range = line.in_range }

  handle_apply_editor_position-IsLine :
      (s : Sandbox) → IsLine s → IsLine (handle_apply_editor_position js standard_start s)
  unfolding handle_apply_editor_position
  handle_apply_editor_position-IsLine s h =
      option_split IsLine (build_fen_from_editor_state js s.editor_position s.editor_metadata).fen _
        _ (λ n. record { chain = h.chain; in_range = h.in_range })
        (λ fen e. replace_workspace-IsLine fen [] none s tt)

  step-IsLine : (e : Event) (s : Sandbox) → IsLine s → IsLine (step e s)
  unfolding step handle_piece_drop handle_square_click select_square edit_square edit_drop
      go_to_move_index handle_reset_start handle_load_fen
  step-IsLine (go n) s h = record { chain = h.chain; in_range = omega arith }
  step-IsLine (game key moves) s h = load_game-IsLine key moves s h
  step-IsLine (drop from to) s h = ground (arith, h, handle_apply_sandbox_move-IsLine from to s h)
  step-IsLine (click square) s h =
      ground (arith, h, handle_apply_sandbox_move-IsLine (s.selected_square or "") square s h)
  step-IsLine (typed text) s h = record { chain = h.chain; in_range = h.in_range }
  step-IsLine load_fen s h = load_trimmed-IsLine (drop_end_spaces (drop_spaces s.fen_input)) s h
  step-IsLine start s h = replace_workspace-IsLine standard_start [] none s tt
  step-IsLine apply_editor s h = handle_apply_editor_position-IsLine s h

  -- Whatever is dropped and clicked, loaded, set up and stepped through, the line of the sandbox is a game from its root,
  -- each move made by chess.js in the position behind the one before it, and the index lies in the line.
  pub run-IsLine : (events : List Event) (s : Sandbox) → IsLine s → IsLine (run events s)
  unfolding run
  run-IsLine [] s h = h
  run-IsLine (e ∷ events) s h = run-IsLine events (step e s) (step-IsLine e s h)

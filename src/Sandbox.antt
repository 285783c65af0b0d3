-- ===== src/Sandbox.antt =====
-- The sandbox board, frontend/src/pages/analysis-page/AnalysisWorkspace.tsx: the line of moves, the
-- editor's position, and the handlers that change them. `standard_start` is STANDARD_START_FEN.
pub mod Clicks
pub mod Chain
pub mod Refused
pub mod Reloaded
use chessview.Common.{
  ℕ, zero, suc, ◌+◌, ◌-◌, String, Bool, true, false, not, ◌&&◌, ◌||◌, Option, none, some, List, [],
  ◌∷◌, ◌++◌, any, get_elem?, get_last?, length, min, str_eq, ◌or◌, is_some, if◌then◌else◌,
}
use chessview.Common.Int.{ℤ, to_nat}
use chessview.Common.Text.{same}
use chessview.Common.Spaces.{is_space}
use chessview.Types.{PlayerColor}
use chessview.Chess.{Fen, ChessJs, Loaded, Throws}
use chessview.Chess.Editor.{
  EditorPieceCode, BoardPosition, FenMetadata, EditorFen, board_position_from_fen,
  fen_metadata_from_fen, build_fen_from_editor_state,
}
use chessview.Chess.Moves.{
  SandboxMove, apply_sandbox_move, apply_sandbox_move_from_squares, get_legal_moves,
  get_square_color,
}
use chessview.Puzzle.{active_color, has_turn, same_color}

pub data AnalysisMode : Type 0 where
  play edit : AnalysisMode

-- The states that the handlers below read or change, but for the titles.
pub record Sandbox : Type 0 where
  pub mode : AnalysisMode
  pub root_fen : Fen
  pub line_moves : List SandboxMove
  pub current_move_index : ℕ
  pub selected_square : Option String
  pub legal_targets : List String
  pub editor_position : BoardPosition
  pub editor_metadata : FenMetadata
  pub editor_selection : Option EditorPieceCode
  pub fen_input : Fen
  pub fen_message : Option String
  pub pgn_error : Option String
  pub loaded_source_key : Option String

-- `currentFen`
unfoldable pub fen_at : Fen → List SandboxMove → ℕ → Fen
fen_at root moves zero = root
fen_at root moves (suc n) = elim (get_elem? moves n) as (λ _. Fen) [
  | none ↦ root
  | some m ↦ m.fen_after
]

abbrev pub current_fen : Sandbox → Fen
current_fen s = fen_at s.root_fen s.line_moves s.current_move_index

abbrev pub take {ℓ} : {A : Type ℓ} → ℕ → List A → List A
take zero xs = []
take (suc n) [] = []
take (suc n) (x ∷ xs) = x ∷ take n xs

-- `fenInput.trim()`
abbrev pub drop_spaces : Fen → Fen
drop_spaces [] = []
drop_spaces (c ∷ cs) = if is_space c then drop_spaces cs else c ∷ cs

abbrev pub drop_end_spaces : Fen → Fen
drop_end_spaces [] = []
drop_end_spaces (c ∷ cs) = elim (drop_end_spaces cs) as (λ _. Fen) [
  | [] ↦ if is_space c then [] else c ∷ []
  | d ∷ ds ↦ c ∷ d ∷ ds
]

-- The argument of `goToMoveIndex`: an index, or a function of the current one.
pub data NextIndex : Type 0 where
  at_index : ℤ → NextIndex
  from_current : (ℕ → ℤ) → NextIndex

abbrev resolved : NextIndex → ℕ → ℤ
resolved (at_index n) current = n
resolved (from_current f) current = f current

-- The maximum with 0 is taken first, which gives the same, as a length is not negative.
unfoldable pub go_to_move_index : NextIndex → Sandbox → Sandbox
go_to_move_index next s = record s {
  current_move_index = min (length s.line_moves) (to_nat (resolved next s.current_move_index));
  selected_square = none;
  legal_targets = [];
}

module _ (js : ChessJs) (standard_start : Fen) where
  -- `syncEditorFromFen`, and whether it throws.
  unfoldable pub sync_editor : Fen → Sandbox → Sandbox × Bool
  sync_editor fen s = elim (board_position_from_fen js fen) as (λ _. Sandbox × Bool) [
    | none ↦ (s, true)
    | some position ↦ (
      record s {
        editor_position = position;
        editor_metadata = fen_metadata_from_fen fen;
        fen_input = fen;
      },
      false,
    )
  ]

  -- `replaceWorkspace`: what was set before an exception stays set.
  unfoldable pub place_line : Fen → List SandboxMove → Sandbox → Sandbox
  place_line root moves s = record s {
    root_fen = root;
    line_moves = moves;
    current_move_index = length moves;
    selected_square = none;
    legal_targets = [];
    fen_message = none;
    pgn_error = none;
    mode = play;
  }

  abbrev pub keep_key : Option String → Sandbox × Bool → Sandbox × Bool
  keep_key key (s, thrown) = (if thrown then s else record s { loaded_source_key = key }, thrown)

  abbrev pub end_of : Fen → List SandboxMove → Fen
  end_of root moves = elim (get_last? moves) as (λ _. Fen) [ none ↦ root | some m ↦ m.fen_after ]

  unfoldable pub replace_workspace :
      Fen → List SandboxMove → Option String → Sandbox → Sandbox × Bool
  unfolding sync_editor place_line
  replace_workspace root moves key s =
      keep_key key (sync_editor (end_of root moves) (place_line root moves s))

  -- The loop over the moves of a loaded game: a move that cannot be made is skipped. `none` if
  -- chess.js throws.
  unfoldable pub line_of : Fen → List (ℕ × String) → Throws (List SandboxMove)
  line_of fen [] = some []
  line_of fen ((number, uci) ∷ moves) =
      elim (apply_sandbox_move js fen uci) as (λ _. Throws (List SandboxMove)) [
        | none ↦ none
        | some made ↦ elim made as (λ _. Throws (List SandboxMove)) [
          | none ↦ line_of fen moves
          | some m ↦ elim (line_of m.fen_after moves) as (λ _. Throws (List SandboxMove)) [
            | none ↦ none
            | some line ↦ some (record m { move_number = number } ∷ line)
          ]
        ]
      ]

  -- The effect that loads the game of the URL.
  unfoldable pub load_game : String → List (ℕ × String) → Sandbox → Sandbox
  unfolding replace_workspace line_of
  load_game key moves s =
      if same s.loaded_source_key (some key)
      then s
      else elim (line_of standard_start moves) as (λ _. Sandbox) [
        | none ↦ s
        | some line ↦ (replace_workspace standard_start line (some key) s).0
      ]

  -- `handleApplySandboxMove`
  unfoldable pub handle_apply_sandbox_move : String → String → Sandbox → Sandbox
  handle_apply_sandbox_move from to s =
      elim (apply_sandbox_move_from_squares js (current_fen s) from to
          (some (active_color js (current_fen s))))
        as (λ _. Sandbox) [
          | none ↦ s
          | some made ↦ elim made as (λ _. Sandbox) [
            | none ↦ s
            | some m ↦
                (let line =
                    take s.current_move_index s.line_moves
                    ++ record m { move_number = suc s.current_move_index } ∷ [] in
                  record s {
                    line_moves = line;
                    current_move_index = length line;
                    selected_square = none;
                    legal_targets = [];
                    loaded_source_key = none;
                  })
          ]
        ]

  -- `handleLoadFen`; the message of the exception is the one of chess.js.
  abbrev pub error_text : Fen → String
  error_text fen = elim (js.load fen) as (λ _. String) [
    | Loaded.loaded g ↦ ""
    | Loaded.thrown text ↦ text
  ]

  unfoldable pub load_trimmed : Fen → Sandbox → Sandbox
  unfolding replace_workspace
  load_trimmed [] s = record s { fen_message = some "Paste a FEN first." }
  load_trimmed (c ∷ cs) s =
      let replaced = replace_workspace (c ∷ cs) [] none s in
      record replaced.0 {
        fen_message =
            some (if replaced.1 then error_text (c ∷ cs) else "FEN loaded into the sandbox board.");
      }

  unfoldable pub handle_load_fen : Sandbox → Sandbox
  unfolding load_trimmed
  handle_load_fen s = load_trimmed (drop_end_spaces (drop_spaces s.fen_input)) s

  unfoldable pub handle_reset_start : Sandbox → Sandbox
  unfolding replace_workspace
  handle_reset_start s = (replace_workspace standard_start [] none s).0

  -- `handleApplyEditorPosition`
  unfoldable pub handle_apply_editor_position : Sandbox → Sandbox
  unfolding replace_workspace
  handle_apply_editor_position s =
      let validation = build_fen_from_editor_state js s.editor_position s.editor_metadata in
      elim validation.fen as (λ _. Sandbox) [
        | none ↦ record s {
          fen_message = some (validation.error or "Fix the board setup before using it.");
        }
        | some fen ↦ (replace_workspace fen [] none s).0
      ]

-- ===== src/Chess/Validation/Check.antt =====
-- Kings in check, and the verdict on a FEN, frontend/src/shared/lib/chess.ts.
pub mod Verdict
pub mod Eligible
use chessview.Common.{
  ℕ, String, Bool, true, false, ◌&&◌, not, Option, none, some, List, [], ◌∷◌, if◌then◌else◌,
}
use chessview.Common.Text.{concat}
use chessview.Types.{PlayerColor}
use chessview.Chess.{Fen, Color, ChessJs, Loaded, Throws, to_chess_color, opposite_color, ◌>>=◌}
use chessview.Chess.Editor.{active_color, castling_token, is_text_b, board_position_from_fen}
use chessview.Chess.Validation.{get_castling_validation_error, get_material_validation_error}

is_empty : List String → Bool
is_empty [] = true
is_empty (_ ∷ _) = false

is_color : Color → Color → Bool
is_color Color.w Color.w = true
is_color Color.b Color.b = true
is_color _ _ = false

abbrev pub color_of_token : List ℕ → PlayerColor
color_of_token token = if is_text_b token then PlayerColor.black else PlayerColor.white

abbrev color_name : PlayerColor → String
color_name PlayerColor.white = "White"
color_name PlayerColor.black = "Black"

abbrev lower_name : PlayerColor → String
lower_name PlayerColor.white = "white"
lower_name PlayerColor.black = "black"

-- The two tests of `getCheckValidationError`.
pub check_error : PlayerColor → Bool → Bool → Bool → Option String
check_error active white black inactive =
    if white && black
    then some "Both kings are in check. Fix the board setup before analysis can start."
    else if inactive
    then some (
        concat (color_name (opposite_color active)) (
          concat " cannot already be in check when it is " (concat (lower_name active) "'s turn.")))
    else none

pub record AnalysisEligibility : Type 0 where
  pub ok : Bool
  pub reason : Option String

abbrev pub refused : String → AnalysisEligibility
refused e = record { ok = false; reason = some e }

-- The tests on a loaded position, in their order: an error ends them.
judge : Option String → Option String → Throws (Option String) → Throws AnalysisEligibility
judge (some e) material check = some (refused e)
judge none (some e) check = some (refused e)
judge none none none = none
judge none none (some (some e)) = some (refused e)
judge none none (some none) = some (record { ok = true; reason = none })

module _ (js : ChessJs) where
  open js use {load, turn, is_check, find_king, attackers}

  -- The rest of `isKingInCheck`, on the squares of the king; `attackers` may be missing.
  pub king_attacked : js.Game → PlayerColor → List String → Bool
  unfolding is_empty is_color
  king_attacked game color [] = false
  king_attacked game color (square ∷ _) = elim attackers [
    | none ↦ is_color (turn game) (to_chess_color color) && is_check game
    | some find ↦ not (is_empty (find game square (to_chess_color (opposite_color color))))
  ]

  unfoldable pub is_king_in_check : Fen → PlayerColor → Throws Bool
  is_king_in_check fen color = elim (load fen) [
    | Loaded.loaded game ↦ some (king_attacked game color (find_king game (to_chess_color color)))
    | Loaded.thrown message ↦ none
  ]

  unfoldable pub get_check_validation_error : Fen → Throws (Option String)
  unfolding check_error
  get_check_validation_error fen = do
    white ← is_king_in_check fen PlayerColor.white
    black ← is_king_in_check fen PlayerColor.black
    inactive ← is_king_in_check fen (opposite_color (color_of_token (active_color fen)))
    some (check_error (color_of_token (active_color fen)) white black inactive)

  unfoldable pub get_analysis_eligibility : Fen → Throws AnalysisEligibility
  unfolding judge
  get_analysis_eligibility fen = elim (load fen) [
    | Loaded.thrown message ↦ some (refused message)
    | Loaded.loaded game ↦ (do
      position ← board_position_from_fen js fen
      judge (get_castling_validation_error position (castling_token fen))
          (get_material_validation_error position) (get_check_validation_error fen))
  ]

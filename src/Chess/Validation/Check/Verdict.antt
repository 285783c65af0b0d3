-- ===== src/Chess/Validation/Check/Verdict.antt =====
-- When a FEN can be analysed, frontend/src/shared/lib/chess.ts.
use chessview.Common.{
  String, ◌≡◌, refl, sym, ◌∙◌, ◌↔◌, ◌⊎◌, inl, inr, Bool, true, not, Option, none, some, arith,
  is_some, Option-cases,
}
use chessview.Types.{PlayerColor}
use chessview.Chess.{Fen, ChessJs, Loaded, Throws, to_chess_color, opposite_color}
use chessview.Chess.Editor.{BoardPosition, active_color, castling_token, board_position_from_fen}
use chessview.Chess.Validation.{get_castling_validation_error, get_material_validation_error}
use chessview.Chess.Validation.Check.{
  judge, refused, AnalysisEligibility, color_of_token, check_error, king_attacked, is_king_in_check,
  get_check_validation_error, get_analysis_eligibility,
}

pub Loaded-cases :
    {G : Type 0} (l : Loaded G)
    → ((g : G) × (l ≡ Loaded.loaded g)) ⊎ ((m : String) × (l ≡ Loaded.thrown m))
Loaded-cases (Loaded.loaded g) = inl (g, refl)
Loaded-cases (Loaded.thrown m) = inr (m, refl)

judge_total :
    (castling material check : Option String)
    → (e : AnalysisEligibility) × (judge castling material (some check) ≡ some e)
      × (is_some e.reason ≡ not e.ok)
unfolding judge
judge_total (some e) material check = (refused e, refl, refl)
judge_total none (some e) check = (refused e, refl, refl)
judge_total none none (some e) = (refused e, refl, refl)
judge_total none none none = (record { ok = true; reason = none }, refl, refl)

module _ (js : ChessJs) (fen : Fen) where
  pub king_in_check_of_loaded :
      (g : js.Game) (color : PlayerColor)
      → js.load fen ≡ Loaded.loaded g
      → is_king_in_check js fen color
        ≡ some (king_attacked js g color (js.find_king g (to_chess_color color)))
  unfolding is_king_in_check
  king_in_check_of_loaded g color e = rw (e, is_king_in_check)

  check_of_loaded :
      (g : js.Game)
      → js.load fen ≡ Loaded.loaded g
      → (o : Option String) × (get_check_validation_error js fen ≡ some o)
  unfolding get_check_validation_error
  check_of_loaded g e =
      let active : PlayerColor = color_of_token (active_color fen) in
      let attacked : PlayerColor → Bool =
        λ c. king_attacked js g c (js.find_king g (to_chess_color c)) in
      (
        check_error active (attacked PlayerColor.white) (attacked PlayerColor.black)
            (attacked (opposite_color active)),
        rw (
          king_in_check_of_loaded g PlayerColor.white e,
          king_in_check_of_loaded g PlayerColor.black e,
          king_in_check_of_loaded g (opposite_color active) e,
        ),
      )

  position_of_loaded :
      (g : js.Game)
      → js.load fen ≡ Loaded.loaded g
      → (p : BoardPosition) × (board_position_from_fen js fen ≡ some p)
  unfolding board_position_from_fen
  position_of_loaded g e = elim (Option-cases (board_position_from_fen js fen)) [
    | inl missing ↦ let absurd_read = rw (e, board_position_from_fen) at missing in cc absurd_read
    | inr found ↦ found
  ]

  -- The verdict on a FEN that chess.js reads.
  verdict_of_loaded :
      (g : js.Game) (p : BoardPosition)
      → js.load fen ≡ Loaded.loaded g
      → board_position_from_fen js fen ≡ some p
      → get_analysis_eligibility js fen
        ≡ judge
            (get_castling_validation_error p (castling_token fen))
            (get_material_validation_error p)
            (get_check_validation_error js fen)
  unfolding get_analysis_eligibility
  verdict_of_loaded g p e r = rw (e, get_analysis_eligibility) (rw r)

  -- The verdict on a FEN is always reached: no exception of chess.js escapes, and there is a reason
  -- exactly when the position is refused.
  pub get_analysis_eligibility_total :
      (e : AnalysisEligibility) × (get_analysis_eligibility js fen ≡ some e)
      × (is_some e.reason ≡ not e.ok)
  unfolding get_analysis_eligibility
  get_analysis_eligibility_total = elim (Loaded-cases (js.load fen)) [
    | inl (g, e) ↦
        let (p, r) = position_of_loaded g e in
        let (o, c) = check_of_loaded g e in rw (verdict_of_loaded g p e r, c) (judge_total _ _ o)
    | inr (m, e) ↦ (refused m, rw (e, get_analysis_eligibility), refl)
  ]

  -- The three tests find nothing.
  pub record PassesTests : Type 0 where
    pub position : BoardPosition
    pub read : board_position_from_fen js fen ≡ some position
    pub castling : get_castling_validation_error position (castling_token fen) ≡ none
    pub material : get_material_validation_error position ≡ none
    pub check : get_check_validation_error js fen ≡ some none

  accepted_by_judge :
      (castling material : Option String) (check : Throws (Option String))
      → judge castling material check ≡ some (record { ok = true; reason = none })
      → (castling ≡ none) × (material ≡ none) × (check ≡ some none)
  unfolding judge
  accepted_by_judge castling material check h = ground arith

  passes_of_accepted :
      get_analysis_eligibility js fen ≡ some (record { ok = true; reason = none }) → PassesTests
  unfolding get_analysis_eligibility
  passes_of_accepted h = elim (Loaded-cases (js.load fen)) [
    | inl (g, e) ↦
        let (p, r) = position_of_loaded g e in
        let (c, m, k) = accepted_by_judge _ _ _ (sym (verdict_of_loaded g p e r) ∙ h) in
        record { position = p; read = r; castling = c; material = m; check = k }
    | inr (m, e) ↦ let refusal = rw (e, get_analysis_eligibility) at h in absurd (cc refusal)
  ]

  accepted_of_passes :
      PassesTests → get_analysis_eligibility js fen ≡ some (record { ok = true; reason = none })
  unfolding judge board_position_from_fen
  accepted_of_passes h = elim (Loaded-cases (js.load fen)) [
    | inl (g, e) ↦ verdict_of_loaded g h.position e h.read ∙ rw (h.castling, h.material, h.check)
    | inr (m, e) ↦ let unread = rw (e, board_position_from_fen) at h.read in absurd (cc unread)
  ]

  -- A position is accepted exactly if chess.js reads it and it passes the three tests.
  pub get_analysis_eligibility-PassesTests :
      (get_analysis_eligibility js fen ≡ some (record { ok = true; reason = none })) ↔ PassesTests
  get_analysis_eligibility-PassesTests = (passes_of_accepted, accepted_of_passes)

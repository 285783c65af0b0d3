-- ===== src/Chess/Validation/Check/Eligible.antt =====
-- The positions that can be analysed, frontend/src/shared/lib/chess.ts.
use chessview.Common.{
  ℕ, String, ◌≡◌, ◌≢◌, refl, ap, ◌↔◌, Bool, true, false, not, ◌&&◌, Option, none, some, List, [],
  ◌∷◌, arith, All, ◌⊎◌, inl, inr,
}
use mathlib.Core.Option.{some-injective}
use chessview.Types.{PlayerColor}
use chessview.Chess.{Fen, Color, ChessJs, Loaded, to_chess_color, opposite_color}
use chessview.Chess.Editor.{
  BoardPosition, EditorPieceCode, lookup, is_white, active_color, castling_token,
  board_position_from_fen, has_letter,
}
use chessview.Chess.Validation.{
  stands, holds, Requirement, EditorPieceCode-discrete, castling_requirements,
}
use chessview.Chess.Validation.Laws.{
  IsMet, IsPossible, tally, get_castling_validation_error_iff, get_material_validation_error_iff,
}
use chessview.Chess.Validation.Check.{
  is_color, is_empty, check_error, color_of_token, king_attacked, get_check_validation_error,
  get_analysis_eligibility,
}
use chessview.Chess.Validation.Check.Verdict.{
  PassesTests, Loaded-cases, get_analysis_eligibility-PassesTests, king_in_check_of_loaded,
}

-- If the letter is in the castling field, the king and the rook stand on their squares.
abbrev pub MayCastle :
    BoardPosition → List ℕ → ℕ → String → EditorPieceCode → String → EditorPieceCode → Type 0
MayCastle position token letter king_square king rook_square rook =
    has_letter letter token ≡ true
    → (lookup king_square position ≡ some king) × (lookup rook_square position ≡ some rook)

-- Each right that is claimed has its king and rook at home.
abbrev pub HasRights : BoardPosition → List ℕ → Type 0
HasRights position token =
    MayCastle position token b'K' "e1" EditorPieceCode.w_k "h1" EditorPieceCode.w_r
    × MayCastle position token b'Q' "e1" EditorPieceCode.w_k "a1" EditorPieceCode.w_r
    × MayCastle position token b'k' "e8" EditorPieceCode.b_k "h8" EditorPieceCode.b_r
    × MayCastle position token b'q' "e8" EditorPieceCode.b_k "a8" EditorPieceCode.b_r

holds_iff :
    (found : Option EditorPieceCode) (p : EditorPieceCode)
    → (holds found p ≡ true) ↔ (found ≡ some p)
unfolding holds
holds_iff none p = ground arith
holds_iff (some q) p =
    elim (EditorPieceCode-discrete q p)
      as (λ d.
        ((elim d as (λ x. Bool) [ yes e ↦ true | no e ↦ false ]) ≡ true) ↔ (some q ≡ some p)) [
          | yes e ↦ (λ h. ap some e, λ h. refl)
          | no n ↦ (λ h. cc, λ h. absurd (n (cc)))
        ]

stands_iff :
    (position : BoardPosition) (square : String) (p : EditorPieceCode)
    → (stands position square p ≡ true) ↔ (lookup square position ≡ some p)
stands_iff position square p = holds_iff (lookup square position) p

abbrev Meets : Requirement → BoardPosition → List ℕ → Type 0
Meets r position token = MayCastle position token r.token r.king_square r.king r.rook_square r.rook

IsMet-iff :
    (position : BoardPosition) (token : List ℕ) (r : Requirement)
    → IsMet position token r ↔ Meets r position token
IsMet-iff position token r =
    let (kt, kf) = stands_iff position r.king_square r.king in
    let (rt, rf) = stands_iff position r.rook_square r.rook in
    (λ h l. ground (arith, h, l, kt, rt), λ h. ground (arith, h, kf, rf))

AreMet-iff :
    (position : BoardPosition) (token : List ℕ) (rs : List Requirement)
    → All (IsMet position token) rs ↔ All (λ r. Meets r position token) rs
AreMet-iff position token [] = (λ h. tt, λ h. tt)
AreMet-iff position token (r ∷ rs) =
    let (to, from) = IsMet-iff position token r in
    let (all_to, all_from) = AreMet-iff position token rs in
    (λ h. (to h.0, all_to h.1), λ h. (from h.0, all_from h.1))

castling_iff :
    (position : BoardPosition) (token : List ℕ)
    → All (IsMet position token) castling_requirements ↔ HasRights position token
castling_iff position token =
    let (to, from) = AreMet-iff position token castling_requirements in
    (
      λ h. let (a, (b, (c, (d, u)))) = to h in (a, b, c, d),
      λ (a, b, c, d). from (a, (b, (c, (d, tt)))),
    )

-- No king is attacked beside the other, and the king of the side that waits is not attacked.
abbrev AreSafe : PlayerColor → Bool → Bool → Type 0
AreSafe active white black =
    (¬ ((white ≡ true) × (black ≡ true)))
    × (active ≡ PlayerColor.black → ¬ (white ≡ true))
    × (active ≡ PlayerColor.white → ¬ (black ≡ true))

abbrev waiting : PlayerColor → Bool → Bool → Bool
waiting PlayerColor.white white black = black
waiting PlayerColor.black white black = white

check_error_iff :
    (active : PlayerColor) (white black : Bool)
    → (check_error active white black (waiting active white black) ≡ none)
      ↔ AreSafe active white black
unfolding check_error
check_error_iff PlayerColor.white true true = (λ h. cc, λ h. absurd (h.0 (refl, refl)))
check_error_iff PlayerColor.white true false = (λ h. (λ p. cc, λ e. cc, λ e. cc), λ h. refl)
check_error_iff PlayerColor.white false true = (λ h. cc, λ h. absurd (h.2 refl refl))
check_error_iff PlayerColor.white false false = (λ h. (λ p. cc, λ e. cc, λ e. cc), λ h. refl)
check_error_iff PlayerColor.black true true = (λ h. cc, λ h. absurd (h.0 (refl, refl)))
check_error_iff PlayerColor.black true false = (λ h. cc, λ h. absurd (h.1 refl refl))
check_error_iff PlayerColor.black false true = (λ h. (λ p. cc, λ e. cc, λ e. cc), λ h. refl)
check_error_iff PlayerColor.black false false = (λ h. (λ p. cc, λ e. cc, λ e. cc), λ h. refl)

attacked_of_waiting :
    (attacked : PlayerColor → Bool) (active : PlayerColor)
    → attacked (opposite_color active)
      ≡ waiting active (attacked PlayerColor.white) (attacked PlayerColor.black)
unfolding opposite_color
attacked_of_waiting attacked PlayerColor.white = refl
attacked_of_waiting attacked PlayerColor.black = refl

color_of_token-black :
    (token : List ℕ) → (token ≡ b'b' ∷ []) ↔ (color_of_token token ≡ PlayerColor.black)
color_of_token-black [] = ground arith
color_of_token-black (c ∷ []) = ground arith
color_of_token-black (c ∷ d ∷ token) = ground arith

Color_cases : (c : PlayerColor) → (c ≡ PlayerColor.white) ⊎ (c ≡ PlayerColor.black)
Color_cases PlayerColor.white = inl refl
Color_cases PlayerColor.black = inr refl

color_of_token-white :
    (token : List ℕ) → (token ≢ b'b' ∷ []) ↔ (color_of_token token ≡ PlayerColor.white)
color_of_token-white token = elim (Color_cases (color_of_token token)) [
  | inl w ↦ (λ h. w, λ h e. absurd (cc ((color_of_token-black token).0 e)))
  | inr b ↦ (λ h. absurd (h ((color_of_token-black token).1 b)), λ h. absurd (cc))
]

module _ (js : ChessJs) where
  -- With the squares of the king: the first one is attacked by the other side, or, where chess.js has no
  -- `attackers`, the side is to move and in check.
  abbrev pub AttackedBy :
      Option (js.Game → String → Color → List String) → js.Game → PlayerColor → List String → Type 0
  AttackedBy attackers game color [] = ⊥
  AttackedBy none game color (square ∷ _) =
      (js.turn game ≡ to_chess_color color) × (js.is_check game ≡ true)
  AttackedBy (some find) game color (square ∷ _) =
      find game square (to_chess_color (opposite_color color)) ≢ []

  -- The king of the color is attacked.
  abbrev pub IsAttacked : js.Game → PlayerColor → Type 0
  IsAttacked game color =
      AttackedBy js.attackers game color (js.find_king game (to_chess_color color))

  is_color_iff : (a b : Color) → (is_color a b ≡ true) ↔ (a ≡ b)
  unfolding is_color
  is_color_iff Color.w Color.w = ground arith
  is_color_iff Color.w Color.b = ground arith
  is_color_iff Color.b Color.w = ground arith
  is_color_iff Color.b Color.b = ground arith

  is_empty_iff : (squares : List String) → (not (is_empty squares) ≡ true) ↔ (squares ≢ [])
  unfolding is_empty
  is_empty_iff [] = (λ h. cc, λ h. absurd (h refl))
  is_empty_iff (square ∷ squares) = (λ h e. cc, λ h. refl)

  AttackedBy-iff :
      (attackers : Option (js.Game → String → Color → List String)) (game : js.Game)
      (color : PlayerColor) (square : String) (squares : List String)
      → ((elim attackers as (λ _. Bool) [
        | none ↦ is_color (js.turn game) (to_chess_color color) && js.is_check game
        | some find ↦ not (is_empty (find game square (to_chess_color (opposite_color color))))
      ])
          ≡ true)
        ↔ AttackedBy attackers game color (square ∷ squares)
  AttackedBy-iff none game color square squares =
      let (to, from) = is_color_iff (js.turn game) (to_chess_color color) in
      (λ h. ground (arith, h, to), λ h. ground (arith, h, from))
  AttackedBy-iff (some find) game color square squares =
      is_empty_iff (find game square (to_chess_color (opposite_color color)))

  king_attacked_iff :
      (game : js.Game) (color : PlayerColor) (squares : List String)
      → (king_attacked js game color squares ≡ true) ↔ AttackedBy js.attackers game color squares
  unfolding king_attacked
  king_attacked_iff game color [] = (λ h. cc, λ h. absurd h)
  king_attacked_iff game color (square ∷ squares) =
      AttackedBy-iff js.attackers game color square squares

  -- The king of the side that is not to move, in a position where the second field of the FEN is "b" if Black
  -- is to move.
  abbrev pub WaiterIsSafe : Fen → js.Game → Type 0
  WaiterIsSafe fen game =
      (active_color fen ≡ b'b' ∷ [] → ¬ (IsAttacked game PlayerColor.white))
      × (active_color fen ≢ b'b' ∷ [] → ¬ (IsAttacked game PlayerColor.black))

  -- chess.js reads the position, every claimed right to castle has its king and rook at home, the pieces
  -- of each side can have come from those of the start, not both kings are attacked, and the king of
  -- the side that waits is not.
  pub record IsEligible (fen : Fen) : Type 0 where
    pub game : js.Game
    pub loaded : js.load fen ≡ Loaded.loaded game
    pub position : BoardPosition
    pub read : board_position_from_fen js fen ≡ some position
    pub castling : HasRights position (castling_token fen)
    pub white : IsPossible (tally is_white position)
    pub black : IsPossible (tally (λ p. not (is_white p)) position)
    pub kings : ¬ (IsAttacked game PlayerColor.white × IsAttacked game PlayerColor.black)
    pub waiter : WaiterIsSafe fen game

  check_none :
      (fen : Fen) (game : js.Game)
      → js.load fen ≡ Loaded.loaded game
      → get_check_validation_error js fen ≡ (
          let attacked : PlayerColor → Bool =
            λ c. king_attacked js game c (js.find_king game (to_chess_color c)) in
          let active = color_of_token (active_color fen) in
          some (
            check_error active
              (attacked PlayerColor.white)
              (attacked PlayerColor.black)
              (waiting active (attacked PlayerColor.white) (attacked PlayerColor.black))))
  unfolding get_check_validation_error
  check_none fen game e =
      let attacked : PlayerColor → Bool =
        λ c. king_attacked js game c (js.find_king game (to_chess_color c)) in
      let active = color_of_token (active_color fen) in
      rw
        (
          king_in_check_of_loaded js fen game PlayerColor.white e,
          king_in_check_of_loaded js fen game PlayerColor.black e,
          king_in_check_of_loaded js fen game (opposite_color active) e,
        )
        (ap
          (λ i.
            some (check_error active (attacked PlayerColor.white) (attacked PlayerColor.black) i))
          (attacked_of_waiting attacked active))

  check_iff :
      (fen : Fen) (game : js.Game)
      → js.load fen ≡ Loaded.loaded game
      → (get_check_validation_error js fen ≡ some none) ↔ (
          (¬ (IsAttacked game PlayerColor.white × IsAttacked game PlayerColor.black))
          × WaiterIsSafe fen game)
  check_iff fen game e =
      let attacked : PlayerColor → Bool =
        λ c. king_attacked js game c (js.find_king game (to_chess_color c)) in
      let active = color_of_token (active_color fen) in
      let error =
        check_error_iff active (attacked PlayerColor.white) (attacked PlayerColor.black) in
      let (wt, wf) =
        king_attacked_iff game PlayerColor.white
          (js.find_king game (to_chess_color PlayerColor.white)) in
      let (bt, bf) =
        king_attacked_iff game PlayerColor.black
          (js.find_king game (to_chess_color PlayerColor.black)) in
      let (tb, fb) = color_of_token-black (active_color fen) in
      let (tw, fw) = color_of_token-white (active_color fen) in
      rw (check_none fen game e) (
        λ h.
            let safe = error.0 (some-injective _ _ h) in
            (
              λ p. safe.0 (wf p.0, bf p.1),
              (λ t a. safe.1 (tb t) (wf a), λ t a. safe.2 (tw t) (bf a)),
            ),
        λ h. ap some (
            error.1
              (λ p. h.0 (wt p.0, bt p.1), λ t a. h.1.0 (fb t) (wt a), λ t a. h.1.1 (fw t) (bt a))),
      )

  IsEligible-PassesTests : (fen : Fen) → IsEligible fen → PassesTests js fen
  IsEligible-PassesTests fen h = record {
    position = h.position;
    read = h.read;
    castling =
        (get_castling_validation_error_iff h.position (castling_token fen)).1
          ((castling_iff h.position (castling_token fen)).1 h.castling);
    material = (get_material_validation_error_iff h.position).1 (h.white, h.black);
    check = (check_iff fen h.game h.loaded).1 (h.kings, h.waiter);
  }

  PassesTests-IsEligible : (fen : Fen) → PassesTests js fen → IsEligible fen
  unfolding board_position_from_fen
  PassesTests-IsEligible fen h = elim (Loaded-cases (js.load fen)) [
    | inl (g, e) ↦
        let (kings, waiter) = (check_iff fen g e).0 h.check in
        let (white, black) = (get_material_validation_error_iff h.position).0 h.material in
        record {
          game = g;
          loaded = e;
          position = h.position;
          read = h.read;
          castling =
              (castling_iff h.position (castling_token fen)).0
                ((get_castling_validation_error_iff h.position (castling_token fen)).0 h.castling);
          white = white;
          black = black;
          kings = kings;
          waiter = waiter;
        }
    | inr (m, e) ↦ let unread = rw (e, board_position_from_fen) at h.read in absurd (cc unread)
  ]

  -- A position is accepted exactly if chess.js reads it, the king and rook of each claimed right to castle
  -- stand at home, the pieces of each side can have come from those of the start by promotions, not
  -- both kings are attacked, and the king of the side that waits is not.
  pub get_analysis_eligibility_iff :
      (fen : Fen)
      → (get_analysis_eligibility js fen ≡ some (record { ok = true; reason = none }))
        ↔ IsEligible fen
  get_analysis_eligibility_iff fen =
      let (to, from) = get_analysis_eligibility-PassesTests js fen in
      (λ h. PassesTests-IsEligible fen (to h), λ h. from (IsEligible-PassesTests fen h))

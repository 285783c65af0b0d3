-- ===== src/Chess/Validation/Laws.antt =====
-- What the tests on a position accept, frontend/src/shared/lib/chess.ts.
use chessview.Common.{
  ℕ, suc, ◌+◌, ◌-◌, ◌≤◌, String, ◌≡◌, refl, ◌↔◌, Bool, true, false, ◌&&◌, not, Option, none, List,
  [], ◌∷◌, arith, if◌then◌else◌, All, ◌||◌, ◌∙◌,
}
use chessview.Chess.Editor.{EditorPieceCode, BoardPosition, is_white, has_letter}
use chessview.Chess.Validation.{
  Counts, BothCounts, count_piece, count_from, count_pieces, get_material_validation_error,
  check_castling, get_castling_validation_error, castling_requirements, Requirement, stands,
  check_material, first_error,
}

-- How many pieces of the position pass a test.
abbrev pub count_of : (EditorPieceCode → Bool) → BoardPosition → ℕ
count_of p [] = 0
count_of p ((square, piece) ∷ entries) =
    if p piece then suc (count_of p entries) else count_of p entries

abbrev is_black : EditorPieceCode → Bool
is_black p = not (is_white p)

abbrev is_pawn : EditorPieceCode → Bool
is_pawn EditorPieceCode.w_p = true
is_pawn EditorPieceCode.b_p = true
is_pawn _ = false

abbrev is_queen : EditorPieceCode → Bool
is_queen EditorPieceCode.w_q = true
is_queen EditorPieceCode.b_q = true
is_queen _ = false

abbrev is_rook : EditorPieceCode → Bool
is_rook EditorPieceCode.w_r = true
is_rook EditorPieceCode.b_r = true
is_rook _ = false

abbrev is_bishop : EditorPieceCode → Bool
is_bishop EditorPieceCode.w_b = true
is_bishop EditorPieceCode.b_b = true
is_bishop _ = false

abbrev is_knight : EditorPieceCode → Bool
is_knight EditorPieceCode.w_n = true
is_knight EditorPieceCode.b_n = true
is_knight _ = false

-- The counts of one side, each as a count of the position.
abbrev pub tally : (EditorPieceCode → Bool) → BoardPosition → Counts
tally side position = record {
  total = count_of side position;
  pawns = count_of (λ p. side p && is_pawn p) position;
  queens = count_of (λ p. side p && is_queen p) position;
  rooks = count_of (λ p. side p && is_rook p) position;
  bishops = count_of (λ p. side p && is_bishop p) position;
  knights = count_of (λ p. side p && is_knight p) position;
}

abbrev add_counts : Counts → Counts → Counts
add_counts a b = record {
  total = a.total + b.total;
  pawns = a.pawns + b.pawns;
  queens = a.queens + b.queens;
  rooks = a.rooks + b.rooks;
  bishops = a.bishops + b.bishops;
  knights = a.knights + b.knights;
}

-- One round of the loop of `countPieces`.
abbrev count_one : EditorPieceCode → BothCounts → BothCounts
count_one piece c =
    if is_white piece
    then record c { white = count_piece piece c.white }
    else record c { black = count_piece piece c.black }

add_tally : BothCounts → BoardPosition → BothCounts
add_tally c position = record {
  white = add_counts c.white (tally is_white position);
  black = add_counts c.black (tally is_black position);
}

count_one-add_tally :
    (square : String) (piece : EditorPieceCode) (c : BothCounts) (position : BoardPosition)
    → add_tally (count_one piece c) position ≡ add_tally c ((square, piece) ∷ position)
unfolding count_piece add_tally
count_one-add_tally square EditorPieceCode.w_p c position = ground arith
count_one-add_tally square _ c position = ground arith

count_from-add_tally :
    (position : BoardPosition) (c : BothCounts) → count_from position c ≡ add_tally c position
unfolding count_from
count_from-add_tally [] c = add_nothing c
  where
    add_nothing : (c : BothCounts) → c ≡ add_tally c []
    add_nothing c = unfold add_tally in ground arith
count_from-add_tally ((square, piece) ∷ position) c =
    count_from-add_tally position (count_one piece c) ∙ count_one-add_tally square piece c position

count_pieces-tally :
    (position : BoardPosition)
    → count_pieces position
      ≡ (record { white = tally is_white position; black = tally is_black position })
unfolding count_pieces add_tally
count_pieces-tally position = count_from-add_tally position _ ∙ ground arith

-- The pieces of one side can have come from the sixteen of the start: some of its eight pawns were
-- promoted, to so many queens, rooks, bishops and knights that there are no more of any kind than one
-- queen, two rooks, two bishops and two knights with those.
pub record IsPossible (c : Counts) : Type 0 where
  pub pawns : c.pawns ≤ 8
  pub total : c.total ≤ 16
  pub promoted :
      (q : ℕ) × (r : ℕ) × (b : ℕ) × (n : ℕ) × (c.queens ≤ 1 + q)
      × (c.rooks ≤ 2 + r)
      × (c.bishops ≤ 2 + b)
      × (c.knights ≤ 2 + n)
      × (q + r + b + n + c.pawns ≤ 8)

check_material_iff : (label : String) (c : Counts) → (check_material label c ≡ none) ↔ IsPossible c
unfolding check_material
check_material_iff label c = (
  λ h. record {
    pawns = ground arith;
    total = ground arith;
    promoted = (
      c.queens - 1,
      c.rooks - 2,
      c.bishops - 2,
      c.knights - 2,
      omega arith,
      omega arith,
      omega arith,
      omega arith,
      ground arith,
    );
  },
  λ h. let (q, r, b, n, hq, hr, hb, hn, hs) = h.promoted in ground (arith, h.pawns, h.total),
)

first_error-none : (a b : Option String) → first_error a b ≡ none → (a ≡ none) × (b ≡ none)
unfolding first_error
first_error-none a b h = ground arith

-- A position passes the test on material exactly if, on each side, it has at most eight pawns and at
-- most sixteen pieces, and its queens, rooks, bishops and knights are those of the start and promoted
-- ones, which with the pawns that are left are at most eight.
pub get_material_validation_error_iff :
    (position : BoardPosition)
    → (get_material_validation_error position ≡ none)
      ↔ (IsPossible (tally is_white position) × IsPossible (tally is_black position))
unfolding get_material_validation_error first_error
get_material_validation_error_iff position =
    let (to_w, from_w) = check_material_iff "White" (tally is_white position) in
    let (to_b, from_b) = check_material_iff "Black" (tally is_black position) in
    rw (count_pieces-tally position) (
      λ h. let (w, b) = first_error-none _ _ h in (to_w w, to_b b),
      λ h. rw (from_w h.0, first_error) (from_b h.1),
    )

-- The right is not claimed, or the king and the rook are at home.
abbrev pub IsMet : BoardPosition → List ℕ → Requirement → Type 0
IsMet position token r =
    (not (has_letter r.token token)
      || (stands position r.king_square r.king && stands position r.rook_square r.rook))
    ≡ true

check_castling_iff :
    (position : BoardPosition) (token : List ℕ) (rs : List Requirement)
    → (check_castling position token rs ≡ none) ↔ All (IsMet position token) rs
unfolding check_castling
check_castling_iff position token [] = (λ h. tt, λ h. refl)
check_castling_iff position token (r ∷ rs) = ground (arith, check_castling_iff position token rs)

-- A position passes the test on castling exactly if the king and the rook of each claimed right
-- stand on their home squares.
pub get_castling_validation_error_iff :
    (position : BoardPosition) (token : List ℕ)
    → (get_castling_validation_error position token ≡ none)
      ↔ All (IsMet position token) castling_requirements
unfolding get_castling_validation_error
get_castling_validation_error_iff position token =
    check_castling_iff position token castling_requirements

-- ===== src/Puzzle/Behind.antt =====
-- The position behind the first moves of a solution, frontend/src/pages/puzzle-page/PuzzlePage.tsx.
use chessview.Common.{
  ℕ, zero, suc, ◌≤◌, ◌≡◌, String, false, not, Option, none, some, List, [], ◌∷◌, length, get_elem?,
  arith, eq_iff,
}
use chessview.Chess.{Fen, ChessJs, Throws}
use chessview.Common.Text.{same}
use chessview.Chess.Moves.{SandboxMove, apply_sandbox_move}
use chessview.Puzzle.{moves_from}

pub same-some : (o : Option String) (uci : String) → not (same (some uci) o) ≡ false → o ≡ some uci
same-some none uci h = ground (arith, h)
same-some (some s) uci h = ground (arith, h, eq_iff uci s)

module _ (js : ChessJs) where
  abbrev pub fen_of : Throws (Option SandboxMove) → Option Fen
  fen_of none = none
  fen_of (some none) = none
  fen_of (some (some m)) = some m.fen_after

  -- The position behind so many moves of the solution.
  unfoldable pub behind : Fen → ℕ → List String → Option Fen
  behind fen zero moves = some fen
  behind fen (suc n) [] = none
  behind fen (suc n) (m ∷ moves) =
      elim (fen_of (apply_sandbox_move js fen m)) as (λ _. Option Fen) [
        | none ↦ none
        | some after ↦ behind after n moves
      ]

  -- One more move behind an option.
  behind-suc_then :
      (o : Option Fen) (after : Fen) (n : ℕ) (moves : List String) (m : SandboxMove)
      → ((fen : Fen)
          → behind fen n moves ≡ some after
          → behind fen (suc n) moves ≡ some m.fen_after)
      → (elim o as (λ _. Option Fen) [ none ↦ none | some fen ↦ behind fen n moves ]) ≡ some after
      → (elim o as (λ _. Option Fen) [ none ↦ none | some fen ↦ behind fen (suc n) moves ])
        ≡ some m.fen_after
  behind-suc_then none after n moves m ih h = ground (arith, h)
  behind-suc_then (some fen) after n moves m ih h = ih fen h

  pub behind-suc :
      (moves : List String) (n : ℕ) (uci : String) (m : SandboxMove) (after fen : Fen)
      → get_elem? moves n ≡ some uci
      → apply_sandbox_move js after uci ≡ some (some m)
      → behind fen n moves ≡ some after
      → behind fen (suc n) moves ≡ some m.fen_after
  unfolding behind
  behind-suc [] n uci m after fen k e h = ground (arith, k)
  behind-suc (x ∷ moves) zero uci m after fen k e h = ground (arith, k, e, h)
  behind-suc (x ∷ moves) (suc n) uci m after fen k e h =
      behind-suc_then (fen_of (apply_sandbox_move js fen x)) after n moves m
        (λ f. behind-suc moves n uci m after f k e) h

  behind-length_then :
      (o : Option Fen) (n : ℕ) (moves : List String) (after : Fen)
      → ((fen : Fen) → behind fen n moves ≡ some after → n ≤ length moves)
      → (elim o as (λ _. Option Fen) [ none ↦ none | some fen ↦ behind fen n moves ]) ≡ some after
      → n ≤ length moves
  behind-length_then none n moves after ih h = ground (arith, h)
  behind-length_then (some fen) n moves after ih h = ih fen h

  pub behind-length :
      (moves : List String) (n : ℕ) (after fen : Fen)
      → behind fen n moves ≡ some after
      → n ≤ length moves
  unfolding behind
  behind-length moves zero after fen h = omega arith
  behind-length [] (suc n) after fen h = ground (arith, h)
  behind-length (x ∷ moves) (suc n) after fen h = omega (
    arith,
    behind-length_then (fen_of (apply_sandbox_move js fen x)) n moves after
        (behind-length moves n after) h,
  )

pub moves_from-cons :
    (n : ℕ) (moves : List String) (uci : String) (rest : List String)
    → moves_from n moves ≡ uci ∷ rest
    → (get_elem? moves n ≡ some uci) × (moves_from (suc n) moves ≡ rest)
moves_from-cons zero [] uci rest h = ground (arith, h)
moves_from-cons zero (x ∷ moves) uci rest h = ground (arith, h)
moves_from-cons (suc n) [] uci rest h = ground (arith, h)
moves_from-cons (suc n) (x ∷ moves) uci rest h = moves_from-cons n moves uci rest h

-- ===== src/Chess/Moves/Laws.antt =====
-- Moves in UCI notation and the legal moves of a square, frontend/src/shared/lib/chess.ts.
use mathlib.Core.Option
use text.Mathlib.TextLemmas.{nil-append, cons-append}
use chessview.Common.{
  ℕ, zero, suc, ◌+◌, ◌≤◌, String, ◌≡◌, refl, sym, ap, ◌⊎◌, inl, inr, false, Option, none, some,
  List, [], ◌∷◌, map, any, find, ltb, ◌or◌, str_eq, is_some, arith, Option-cases,
}
use chessview.Common.Text.{concat, take_text, drop_text, text_length}
use chessview.Types.{PlayerColor}
use chessview.Chess.{Fen, Move, ChessJs}
use chessview.Chess.Moves.{
  promotion_of, parse_uci_move, uci_of, get_moves_for_square, is_legal_move, get_legal_moves,
  build_move_uci,
}

-- The number of characters of a text.
abbrev pub size : String → ℕ
size String.[] = 0
size (String.◌∷◌ c s) = suc (size s)

take_text-concat : (n : ℕ) (s t : String) → size s ≡ n → take_text n (concat s t) ≡ s
take_text-concat zero String.[] t e = refl
take_text-concat (suc n) String.[] t e = absurd (omega arith)
take_text-concat zero (String.◌∷◌ c s) t e = absurd (omega arith)
take_text-concat (suc n) (String.◌∷◌ c s) t e =
    rw cons-append (ap (λ r. String.◌∷◌ c r) (take_text-concat n s t (omega arith)))

drop_text-concat : (n : ℕ) (s t : String) → size s ≡ n → drop_text n (concat s t) ≡ t
drop_text-concat zero String.[] t e = nil-append t
drop_text-concat (suc n) String.[] t e = absurd (omega arith)
drop_text-concat zero (String.◌∷◌ c s) t e = absurd (omega arith)
drop_text-concat (suc n) (String.◌∷◌ c s) t e =
    rw cons-append (drop_text-concat n s t (omega arith))

text_length-concat : (s t : String) → size s + text_length t ≤ text_length (concat s t)
text_length-concat String.[] t = rw nil-append (omega arith)
text_length-concat (String.◌∷◌ c s) t = rw cons-append (ground (arith, text_length-concat s t))

-- The pieces that a pawn may become, or none.
abbrev pub IsPromotion : Option String → Type 0
IsPromotion none = Unit
IsPromotion (some p) = (p ≡ "q") ⊎ (p ≡ "r") ⊎ (p ≡ "b") ⊎ (p ≡ "n")

promotion_of-take : (o : Option String) → IsPromotion o → promotion_of (take_text 1 (o or "")) ≡ o
unfolding promotion_of
promotion_of-take none h = refl
promotion_of-take (some p) (inl e) = rw e
promotion_of-take (some p) (inr (inl e)) = rw e
promotion_of-take (some p) (inr (inr (inl e))) = rw e
promotion_of-take (some p) (inr (inr (inr e))) = rw e

text_length-floor : (s t : String) → size s ≤ text_length (concat s t)
text_length-floor s t = ground (arith, text_length-concat s t)

size-concat : (s t : String) → size (concat s t) ≡ size s + size t
size-concat String.[] t = rw nil-append (omega arith)
size-concat (String.◌∷◌ c s) t = rw cons-append (ground (arith, size-concat s t))

size-text_length : (s : String) → size s ≤ text_length s
size-text_length String.[] = omega arith
size-text_length (String.◌∷◌ c s) = ground (arith, size-text_length s)

drop_text-drop_text : (s : String) → drop_text 4 s ≡ drop_text 2 (drop_text 2 s)
drop_text-drop_text String.[] = refl
drop_text-drop_text (String.◌∷◌ a String.[]) = refl
drop_text-drop_text (String.◌∷◌ a (String.◌∷◌ b s)) = refl

ltb-uci_of : (m : Move) → size m.from ≡ 2 → size m.to ≡ 2 → ltb (text_length (uci_of m)) 4 ≡ false
ltb-uci_of m f t =
    let whole = size-concat m.from (concat m.to (m.promotion or "")) in
    let tail = size-concat m.to (m.promotion or "") in
    let bound = size-text_length (uci_of m) in ground arith

-- The notation that is made of a move reads back as its squares and its promotion.
pub parse_uci_move-uci_of :
    (m : Move)
    → size m.from ≡ 2
    → size m.to ≡ 2
    → IsPromotion m.promotion
    → parse_uci_move (uci_of m)
      ≡ some (record { from = m.from; to = m.to; promotion = m.promotion })
unfolding parse_uci_move
parse_uci_move-uci_of m f t p =
    let rest = concat m.to (m.promotion or "") in
    rw (
      ltb-uci_of m f t,
      drop_text-drop_text (uci_of m),
      take_text-concat 2 m.from rest f,
      drop_text-concat 2 m.from rest f,
      take_text-concat 2 m.to (m.promotion or "") t,
      drop_text-concat 2 m.to (m.promotion or "") t,
      promotion_of-take m.promotion p,
    )

module _ (js : ChessJs) (f : Fen) (from to : String) (color : Option PlayerColor) where
  any-map :
      (ms : List Move) → any (λ s. str_eq s to) (map (λ m. m.to) ms) ≡ any (λ m. str_eq m.to to) ms
  any-map [] = refl
  any-map (m ∷ ms) = rw (any-map ms)

  abbrev found : List Move → Option String
  found ms = elim (find (λ m. str_eq m.to to) ms) [ none ↦ none | some m ↦ some (uci_of m) ]

  any-find : (ms : List Move) → any (λ m. str_eq m.to to) ms ≡ is_some (found ms)
  any-find [] = refl
  any-find (m ∷ ms) = ground (arith, any-find ms)

  -- Three ways to ask whether a move is legal agree, exceptions included: the test itself, whether
  -- the target is among the legal ones of the square, and whether the move has a notation.
  pub is_legal_move_agrees :
      (is_legal_move js f from to color
        ≡ Option.map (any (λ s. str_eq s to)) (get_legal_moves js f from color))
      × (is_legal_move js f from to color ≡ Option.map is_some (build_move_uci js f from to color))
  unfolding is_legal_move get_legal_moves build_move_uci
  is_legal_move_agrees = elim (Option-cases (get_moves_for_square js f from color)) [
    | inl thrown ↦ rw (thrown, is_legal_move, get_legal_moves, build_move_uci) (refl, refl)
    | inr (ms, e) ↦ rw (e) (ap some (sym (any-map ms)), ap some (any-find ms))
  ]

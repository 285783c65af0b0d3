-- ===== src/Review/Saved.antt =====
-- The saved moves of a game, spelled and in order,
-- frontend/src/features/game-review-analysis/gameReviewReport.ts.
use Prim.Native.Char.{Char}
use mathlib.Core.Path.{subst}
use mathlib.Core.Option.{some-injective}
use chessview.Common.{
  ℕ, ◌≤◌, ◌≡◌, ◌≢◌, refl, String, Bool, true, false, not, Option, none, some, List, [], ◌∷◌, ◌==◌,
  length, ◌++◌, if◌then◌else◌, arith,
}
use chessview.Common.Text.{truthy_cons, codes, take_text, drop_text, truthy}
use chessview.Common.Sort.{sort, place}
use chessview.Chess.{ParsedUciMove}
use chessview.Review.{ChessViewReviewMove}
use chessview.Review.Positions.{number_order, parse_review_move, is_uci}

-- The characters of a promotion, if there is one.
abbrev promotion_codes : Option String → List ℕ
promotion_codes none = []
promotion_codes (some p) = codes p

-- The text is the two squares, of two characters each, and the promotion, of one if there is one.
pub record Spells (uci : String) (m : ParsedUciMove) : Type 0 where
  pub text : codes uci ≡ codes m.from ++ (codes m.to ++ promotion_codes m.promotion)
  pub from_size : length (codes m.from) ≡ 2
  pub to_size : length (codes m.to) ≡ 2
  pub promotion_size : m.promotion ≢ none → length (promotion_codes m.promotion) ≡ 1

-- A text of four or five characters, cut as the code cuts it.
cut : String → ParsedUciMove
cut uci = record {
  from = take_text 2 uci;
  to = take_text 2 (drop_text 2 uci);
  promotion =
      (let promotion = take_text 1 (drop_text 4 uci) in
        if truthy promotion then some promotion else none);
}

tested : (b : Bool) (v m : ParsedUciMove) → (if not b then none else some v) ≡ some m → v ≡ m
tested true v m h = some-injective v m h
tested false v m h = absurd (cc h)

cut_four :
    (a b c d : Char)
    → let uci = String.◌∷◌ a (String.◌∷◌ b (String.◌∷◌ c (String.◌∷◌ d ""))) in Spells uci (cut uci)
unfolding cut
cut_four a b c d = record {
  text = refl;
  from_size = refl;
  to_size = refl;
  promotion_size = λ h. absurd (h refl);
}

cut_five :
    (a b c d p : Char)
    → let uci = String.◌∷◌ a (String.◌∷◌ b (String.◌∷◌ c (String.◌∷◌ d (String.◌∷◌ p "")))) in
      Spells uci (cut uci)
unfolding cut
cut_five a b c d p =
    rw (truthy_cons p "")
      (record { text = refl; from_size = refl; to_size = refl; promotion_size = λ h. refl })

pub parse_review_move-Spells :
    (uci : String) (m : ParsedUciMove) → parse_review_move uci ≡ some m → Spells uci m
unfolding parse_review_move is_uci cut
parse_review_move-Spells String.[] m h = absurd (cc h)
parse_review_move-Spells (String.◌∷◌ a String.[]) m h = absurd (cc h)
parse_review_move-Spells (String.◌∷◌ a (String.◌∷◌ b String.[])) m h = absurd (cc h)
parse_review_move-Spells (String.◌∷◌ a (String.◌∷◌ b (String.◌∷◌ c String.[]))) m h = absurd (cc h)
parse_review_move-Spells (String.◌∷◌ a (String.◌∷◌ b (String.◌∷◌ c (String.◌∷◌ d String.[])))) m h =
    subst (Spells _) (tested _ _ m h) (cut_four a b c d)
parse_review_move-Spells
      (String.◌∷◌ a (String.◌∷◌ b (String.◌∷◌ c (String.◌∷◌ d (String.◌∷◌ p String.[]))))) m h =
    subst (Spells _) (tested _ _ m h) (cut_five a b c d p)
parse_review_move-Spells
      (String.◌∷◌ a (String.◌∷◌ b (String.◌∷◌ c (String.◌∷◌ d (String.◌∷◌ p (String.◌∷◌ q s)))))) m
      h =
    absurd (cc h)

-- The moves with a number, in their order.
abbrev pub numbered : ℕ → List ChessViewReviewMove → List ChessViewReviewMove
numbered n [] = []
numbered n (m ∷ ms) = let rest = numbered n ms in if m.move_number == n then m ∷ rest else rest

-- The numbers do not fall, from a number on.
abbrev pub IsOrderedFrom : ℕ → List ChessViewReviewMove → Type 0
IsOrderedFrom n [] = Unit
IsOrderedFrom n (m ∷ ms) = (n ≤ m.move_number) × IsOrderedFrom m.move_number ms

numbered-place :
    (n : ℕ) (x : ChessViewReviewMove) (ms : List ChessViewReviewMove)
    → numbered n (place number_order x ms) ≡ numbered n (x ∷ ms)
numbered-place n x [] = refl
numbered-place n x (m ∷ ms) = ground (arith, numbered-place n x ms)

place-IsOrderedFrom :
    (n : ℕ) (x : ChessViewReviewMove) (ms : List ChessViewReviewMove)
    → n ≤ x.move_number
    → IsOrderedFrom n ms
    → IsOrderedFrom n (place number_order x ms)
place-IsOrderedFrom n x [] h k = (h, tt)
place-IsOrderedFrom n x (m ∷ ms) h k = ground (arith, h, k, place-IsOrderedFrom m.move_number x ms)

-- The moves in the order of their numbers, those with the same number in the order in which they were.
pub record IsSortOf (moves sorted : List ChessViewReviewMove) : Type 0 where
  pub ordered : IsOrderedFrom 0 sorted
  pub kept : (n : ℕ) → numbered n sorted ≡ numbered n moves

sort-numbered :
    (n : ℕ) (ms : List ChessViewReviewMove) → numbered n (sort number_order ms) ≡ numbered n ms
sort-numbered n [] = refl
sort-numbered n (m ∷ ms) =
    ground (arith, numbered-place n m (sort number_order ms), sort-numbered n ms)

sort-IsOrderedFrom : (ms : List ChessViewReviewMove) → IsOrderedFrom 0 (sort number_order ms)
sort-IsOrderedFrom [] = tt
sort-IsOrderedFrom (m ∷ ms) =
    place-IsOrderedFrom 0 m (sort number_order ms) (omega arith) (sort-IsOrderedFrom ms)

pub sort-IsSortOf : (ms : List ChessViewReviewMove) → IsSortOf ms (sort number_order ms)
sort-IsSortOf ms = record { ordered = sort-IsOrderedFrom ms; kept = λ n. sort-numbered n ms }

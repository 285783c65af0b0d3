-- ===== src/Review/Classes.antt =====
-- What the classes of moves promise,
-- frontend/src/features/game-review-analysis/moveClassifier.ts.
use mathlib.Core.Option
use chessview.Common.{
  ℕ, zero, suc, ◌+◌, ◌<◌, ◌≡◌, refl, Bool, true, false, not, Option, none, some, List, [], ◌∷◌,
  ◌&&◌, ◌==◌, length, get_elem?, is_some, if◌then◌else◌, arith,
}
use chessview.Common.Splits.{if_split}
use chessview.Common.Numbers.{JsNumbers}
use chessview.Chess.{Throws, ◌>>=◌}
use chessview.Review.{ClassifiedMoveInput, MoveClass, MoveQualityMetrics}
use chessview.Review.Classifier.{
  classify_moves, classify_from, classify_move, class_of, severe_centipawn_loss_class, is_true,
  at_least, is_miss, move_quality_metrics, color_at,
}
use chessview.Review.Insights.{MoveQualityTone, move_quality_tone}

module _ {A : Type 0} where
  pub get_elem?-some : (xs : List A) (i : ℕ) → i < length xs → (x : A) × (get_elem? xs i ≡ some x)
  get_elem?-some [] i h = ground arith
  get_elem?-some (x ∷ xs) zero h = (x, refl)
  get_elem?-some (x ∷ xs) (suc i) h = get_elem?-some xs i (omega arith)

-- Not a warning and not bad.
abbrev pub is_praise : MoveQualityTone → Bool
is_praise MoveQualityTone.warning = false
is_praise MoveQualityTone.bad = false
is_praise _ = true

-- The classes that a best move can have: it need not be reckoned, or it is best, or better than best.
abbrev pub is_top : MoveClass → Bool
is_top MoveClass.book = true
is_top MoveClass.forced = true
is_top MoveClass.best = true
is_top MoveClass.great = true
is_top MoveClass.brilliant = true
is_top _ = false

-- Such a class, which the insights take for praise.
abbrev pub suits_best : MoveClass → Bool
suits_best class = is_top class && is_praise (move_quality_tone class)

module _ (js : JsNumbers) where
  open js use {Number}

  classify_move-some :
      (evaluations : List Number) (index : ℕ) (move : ClassifiedMoveInput)
      → index + 1 < length evaluations
      → is_some (classify_move js evaluations index move) ≡ true
  unfolding classify_move
  classify_move-some evaluations index move h =
      let before = get_elem?-some evaluations index (omega arith) in
      let after = get_elem?-some evaluations (suc index) (omega arith) in
      ground (arith, before.1, after.1)

  classify_from-length :
      (evaluations : List Number) (index : ℕ) (moves : List ClassifiedMoveInput)
      → index + length moves < length evaluations
      → Option.map length (classify_from js evaluations index moves) ≡ some (length moves)
  unfolding classify_from
  classify_from-length evaluations index [] h = refl
  classify_from-length evaluations index (move ∷ moves) h = ground (
    arith,
    classify_move-some evaluations index move (omega (arith, h)),
    classify_from-length evaluations (suc index) moves (omega (arith, h)),
  )

  -- The classifier throws exactly where there is not one evaluation more than there are moves; else
  -- it gives one class for each move.
  pub classify_moves_total :
      (evaluations : List Number) (moves : List ClassifiedMoveInput)
      → Option.map length (classify_moves js evaluations moves)
        ≡ (if length evaluations == length moves + 1 then some (length moves) else none)
  unfolding classify_moves
  classify_moves_total evaluations moves = ground (arith, classify_from-length evaluations 0 moves)

  -- The grades of a loss by one test of its size: from 180 on, and from 90 on.
  abbrev pub two_level_class : MoveQualityMetrics Number → Option MoveClass
  two_level_class m =
      if not (at_least js m.centipawn_loss 90)
      then none
      else if is_miss js m
      then some MoveClass.miss
      else if at_least js m.centipawn_loss 180
      then some
          (if at_least js m.win_probability_loss 20 then MoveClass.blunder else MoveClass.mistake)
      else some (
          if at_least js m.win_probability_loss 10 then MoveClass.mistake else MoveClass.inaccuracy)

  -- A loss of 300 centipawns is graded as one of 180: the three levels of the code are two, if a
  -- number that is at least 300 is at least 180, and one that is at least 180 is at least 90.
  pub severe_centipawn_loss_class-two_level_class :
      (m : MoveQualityMetrics Number)
      → ((x : Number) → at_least js x 300 ≡ true → at_least js x 180 ≡ true)
      → ((x : Number) → at_least js x 180 ≡ true → at_least js x 90 ≡ true)
      → severe_centipawn_loss_class js m ≡ two_level_class m
  unfolding severe_centipawn_loss_class
  severe_centipawn_loss_class-two_level_class m h k =
      ground (arith, h m.centipawn_loss, k m.centipawn_loss)

  class_of-suits_best :
      (move : ClassifiedMoveInput) (m : MoveQualityMetrics Number)
      → is_true move.is_best ≡ true
      → suits_best (class_of js move m) ≡ true
  unfolding class_of move_quality_tone
  class_of-suits_best move m h = ground arith

  -- A class that is there suits a best move.
  abbrev pub praises : Throws MoveClass → Bool
  praises none = true
  praises (some class) = suits_best class

  praises_judged :
      (before after : Option Number) (index : ℕ) (move : ClassifiedMoveInput)
      → is_true move.is_best ≡ true
      → praises (do
        b ← before
        a ← after
        some (class_of js move (move_quality_metrics js b a (color_at move.color index))))
        ≡ true
  praises_judged none after index move h = refl
  praises_judged (some b) none index move h = refl
  praises_judged (some b) (some a) index move h =
      class_of-suits_best move (move_quality_metrics js b a (color_at move.color index)) h

  pub classify_move-praises :
      (evaluations : List Number) (index : ℕ) (move : ClassifiedMoveInput)
      → is_true move.is_best ≡ true
      → praises (classify_move js evaluations index move) ≡ true
  unfolding classify_move move_quality_tone
  classify_move-praises evaluations index move h =
      if_split (λ r. praises r ≡ true) (is_true move.is_book) _ _ (λ b. refl)
        (λ b.
          if_split (λ r. praises r ≡ true) (is_true move.is_forced) _ _ (λ f. refl)
            (λ f.
              praises_judged (get_elem? evaluations index) (get_elem? evaluations (suc index)) index
                move h))

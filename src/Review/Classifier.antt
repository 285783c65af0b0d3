-- ===== src/Review/Classifier.antt =====
-- The class of a move from the evaluations around it,
-- frontend/src/features/game-review-analysis/moveClassifier.ts.
use chessview.Common.{
  ℕ, suc, ◌+◌, ◌%◌, Bool, true, false, ◌&&◌, ◌||◌, Option, none, some, List, [], ◌∷◌, ◌==◌, ◌or◌,
  length, get_elem?, if◌then◌else◌,
}
use chessview.Common.Numbers.{JsNumbers, number, clamp, round_to}
use chessview.Chess.{Color, Throws, ◌>>=◌}
use chessview.Review.{ClassifiedMoveInput, MoveClass, MoveQualityMetrics}

-- `flag === true`
abbrev pub is_true : Option Bool → Bool
is_true none = false
is_true (some b) = b

abbrev pub is_white : Color → Bool
is_white Color.w = true
is_white Color.b = false

-- `move.color ?? (index % 2 === 0 ? "w" : "b")`
abbrev pub color_at : Option Color → ℕ → Color
color_at c index = c or (if index % 2 == 0 then Color.w else Color.b)

module _ (js : JsNumbers) where
  open js use {Number, literal, add, sub, mul, div, neg, exp, max_of, at_most}

  unfoldable pub win_probability_from_white_eval : Number → Number
  win_probability_from_white_eval centipawns = div (number js 100) (
      add (number js 1) (
        exp (
          mul (neg (literal "0.00368208"))
            (clamp js centipawns (neg (number js 1000)) (number js 1000)))))

  unfoldable pub player_win_probability : Number → Color → Number
  player_win_probability white_centipawns color =
      let white_win = win_probability_from_white_eval white_centipawns in
      if is_white color then white_win else sub (number js 100) white_win

  unfoldable pub move_accuracy_from_win_probability_loss : Number → Number
  move_accuracy_from_win_probability_loss loss =
      if at_most loss (number js 0)
      then number js 100
      else (let raw_accuracy =
            sub
              (mul (literal "103.1668100711649")
                (exp (mul (neg (literal "0.04354415386753951")) loss)))
              (literal "3.166924740191411") in
          round_to js (clamp js raw_accuracy (number js 0) (number js 100)) 1)

  unfoldable pub move_quality_metrics : Number → Number → Color → MoveQualityMetrics Number
  move_quality_metrics evaluation_before evaluation_after color =
      let before = player_win_probability evaluation_before color in
      let after = player_win_probability evaluation_after color in
      let loss = max_of (number js 0) (sub before after) in
      record {
        win_probability_before = round_to js before 1;
        win_probability_after = round_to js after 1;
        win_probability_loss = round_to js loss 1;
        move_accuracy = move_accuracy_from_win_probability_loss loss;
        centipawn_loss = max_of (number js 0) (
            if is_white color
            then sub evaluation_before evaluation_after
            else sub evaluation_after evaluation_before);
      }

  abbrev pub at_least : Number → ℕ → Bool
  at_least x n = at_most (number js n) x

  abbrev pub is_miss : MoveQualityMetrics Number → Bool
  is_miss m = at_least m.win_probability_before 70 && at_least m.win_probability_loss 10

  unfoldable pub severe_centipawn_loss_class : MoveQualityMetrics Number → Option MoveClass
  severe_centipawn_loss_class m =
      if at_least m.centipawn_loss 300
      then if is_miss m
        then some MoveClass.miss
        else some
            (if at_least m.win_probability_loss 20 then MoveClass.blunder else MoveClass.mistake)
      else if at_least m.centipawn_loss 180
      then if is_miss m
        then some MoveClass.miss
        else some
            (if at_least m.win_probability_loss 20 then MoveClass.blunder else MoveClass.mistake)
      else if at_least m.centipawn_loss 90
      then if is_miss m
        then some MoveClass.miss
        else some
            (if at_least m.win_probability_loss 10 then MoveClass.mistake else MoveClass.inaccuracy)
      else none

  -- The tests behind `severeClass`.
  unfoldable pub mild_class : MoveQualityMetrics Number → MoveClass
  mild_class m =
      if at_least m.move_accuracy 95 || at_most m.win_probability_loss (number js 2)
      then MoveClass.excellent
      else if at_least m.move_accuracy 88 || at_most m.win_probability_loss (number js 6)
      then MoveClass.good
      else if at_least m.move_accuracy 75 || at_most m.win_probability_loss (number js 10)
      then MoveClass.inaccuracy
      else if at_least m.move_accuracy 50 || at_most m.win_probability_loss (number js 20)
      then MoveClass.mistake
      else if is_miss m
      then MoveClass.miss
      else MoveClass.blunder

  unfoldable pub class_of : ClassifiedMoveInput → MoveQualityMetrics Number → MoveClass
  class_of move m =
      if is_true move.is_best && is_true move.is_sacrifice && at_least m.move_accuracy 98
      then MoveClass.brilliant
      else if is_true move.is_sacrifice && at_least m.move_accuracy 95
      then MoveClass.great
      else if is_true move.is_best
      then MoveClass.best
      else severe_centipawn_loss_class m or mild_class m

  -- The callback of `moves.map`, which throws where an evaluation is missing.
  unfoldable pub classify_move : List Number → ℕ → ClassifiedMoveInput → Throws MoveClass
  classify_move evaluations index move =
      if is_true move.is_book
      then some MoveClass.book
      else if is_true move.is_forced
      then some MoveClass.forced
      else do
        before ← get_elem? evaluations index
        after ← get_elem? evaluations (suc index)
        some (class_of move (move_quality_metrics before after (color_at move.color index)))

  unfoldable pub classify_from :
      List Number → ℕ → List ClassifiedMoveInput → Throws (List MoveClass)
  classify_from evaluations index [] = some []
  classify_from evaluations index (move ∷ moves) = do
    class ← classify_move evaluations index move
    classes ← classify_from evaluations (suc index) moves
    some (class ∷ classes)

  unfoldable pub classify_moves : List Number → List ClassifiedMoveInput → Throws (List MoveClass)
  classify_moves evaluations moves =
      if length evaluations == length moves + 1 then classify_from evaluations 0 moves else none

-- ===== src/Review/Insights.antt =====
-- What a review says of each side, frontend/src/features/game-review-analysis/gameReviewInsights.ts.
use chessview.Common.{ℕ, suc, Bool, true, false, not, List, [], ◌∷◌, length, filter, if◌then◌else◌}
use chessview.Common.Numbers.{JsNumbers, number, clamp, sum_from}
use chessview.Review.{MoveClass, ReviewReportRow}
use chessview.Review.Classifier.{is_white, move_accuracy_from_win_probability_loss}
use chessview.Review.Report.{ignores_evaluation}

pub data MoveQualityTone : Type 0 where
  best brilliant good neutral warning bad : MoveQualityTone

unfoldable pub move_quality_tone : MoveClass → MoveQualityTone
move_quality_tone MoveClass.brilliant = brilliant
move_quality_tone MoveClass.best = best
move_quality_tone MoveClass.great = best
move_quality_tone MoveClass.excellent = best
move_quality_tone MoveClass.good = good
move_quality_tone MoveClass.book = neutral
move_quality_tone MoveClass.forced = neutral
move_quality_tone MoveClass.inaccuracy = warning
move_quality_tone MoveClass.miss = bad
move_quality_tone MoveClass.mistake = bad
move_quality_tone MoveClass.blunder = bad

-- `Record<MoveClass, number>`
pub record ClassCounts : Type 0 where
  pub best_count : ℕ
  pub forced_count : ℕ
  pub great_count : ℕ
  pub excellent_count : ℕ
  pub good_count : ℕ
  pub book_count : ℕ
  pub inaccuracy_count : ℕ
  pub mistake_count : ℕ
  pub miss_count : ℕ
  pub blunder_count : ℕ
  pub brilliant_count : ℕ

abbrev pub empty_class_counts : ClassCounts
empty_class_counts = record {
  best_count = 0;
  forced_count = 0;
  great_count = 0;
  excellent_count = 0;
  good_count = 0;
  book_count = 0;
  inaccuracy_count = 0;
  mistake_count = 0;
  miss_count = 0;
  blunder_count = 0;
  brilliant_count = 0;
}

-- `classCounts[moveClass]`
abbrev pub count_of : MoveClass → ClassCounts → ℕ
count_of MoveClass.best c = c.best_count
count_of MoveClass.forced c = c.forced_count
count_of MoveClass.great c = c.great_count
count_of MoveClass.excellent c = c.excellent_count
count_of MoveClass.good c = c.good_count
count_of MoveClass.book c = c.book_count
count_of MoveClass.inaccuracy c = c.inaccuracy_count
count_of MoveClass.mistake c = c.mistake_count
count_of MoveClass.miss c = c.miss_count
count_of MoveClass.blunder c = c.blunder_count
count_of MoveClass.brilliant c = c.brilliant_count

-- `classCounts[moveClass] += 1`
unfoldable pub add_class : MoveClass → ClassCounts → ClassCounts
add_class MoveClass.best c = record c { best_count = suc c.best_count }
add_class MoveClass.forced c = record c { forced_count = suc c.forced_count }
add_class MoveClass.great c = record c { great_count = suc c.great_count }
add_class MoveClass.excellent c = record c { excellent_count = suc c.excellent_count }
add_class MoveClass.good c = record c { good_count = suc c.good_count }
add_class MoveClass.book c = record c { book_count = suc c.book_count }
add_class MoveClass.inaccuracy c = record c { inaccuracy_count = suc c.inaccuracy_count }
add_class MoveClass.mistake c = record c { mistake_count = suc c.mistake_count }
add_class MoveClass.miss c = record c { miss_count = suc c.miss_count }
add_class MoveClass.blunder c = record c { blunder_count = suc c.blunder_count }
add_class MoveClass.brilliant c = record c { brilliant_count = suc c.brilliant_count }

pub record SideInsights (N : Type 0) : Type 0 where
  pub accuracy : N
  pub estimated_rating : N
  pub average_centipawn_loss : N
  pub class_counts : ClassCounts

pub record GameReviewInsights (N : Type 0) : Type 0 where
  pub total_moves : ℕ
  pub overall_accuracy : N
  pub estimated_rating : N
  pub white : SideInsights N
  pub black : SideInsights N
  pub brilliant_moves : ℕ
  pub class_counts : ClassCounts

abbrev pub is_blunder : MoveClass → Bool
is_blunder MoveClass.blunder = true
is_blunder MoveClass.miss = true
is_blunder _ = false

module _ {N : Type 0} where
  -- The loop of `countMoveClasses`.
  unfoldable pub count_from : ClassCounts → List (ReviewReportRow N) → ClassCounts
  count_from c [] = c
  count_from c (row ∷ rows) = count_from (add_class row.classification c) rows

  unfoldable pub count_move_classes : List (ReviewReportRow N) → ClassCounts
  count_move_classes rows = count_from empty_class_counts rows

  abbrev pub is_reviewable_accuracy_row : ReviewReportRow N → Bool
  is_reviewable_accuracy_row row = not (ignores_evaluation row.classification)

  -- `reviewableRows.length > 0 ? reviewableRows : rows`
  unfoldable pub accuracy_rows : List (ReviewReportRow N) → List (ReviewReportRow N)
  accuracy_rows rows = elim (filter is_reviewable_accuracy_row rows) [
    | [] ↦ rows
    | row ∷ rest ↦ row ∷ rest
  ]

  abbrev pub rows_of_white : List (ReviewReportRow N) → List (ReviewReportRow N)
  rows_of_white = filter (λ row. is_white row.color)

  abbrev pub rows_of_black : List (ReviewReportRow N) → List (ReviewReportRow N)
  rows_of_black = filter (λ row. not (is_white row.color))

module _ (js : JsNumbers) where
  open js use {Number, literal, add, sub, mul, div, sqrt, round, max_of}

  unfoldable pub centipawn_loss : ReviewReportRow Number → Number
  centipawn_loss row = max_of (number js 0) (
      if is_white row.color
      then sub row.evaluation_before row.evaluation_after
      else sub row.evaluation_after row.evaluation_before)

  unfoldable pub estimate_rating : Number → Number → Number → Number
  estimate_rating accuracy average_loss blunder_rate =
      let accuracy_curve = add (number js 250) (mul accuracy (literal "24.5")) in
      let loss_penalty = mul (sqrt (max_of (number js 0) average_loss)) (number js 18) in
      let blunder_penalty = mul blunder_rate (number js 420) in
      round (
        clamp js (sub (sub accuracy_curve loss_penalty) blunder_penalty) (number js 400)
          (number js 2850))

  -- The insights of a side that has moves, from the rows that count for its accuracy.
  unfoldable pub side_from : List (ReviewReportRow Number) → ClassCounts → SideInsights Number
  side_from counted class_counts =
      let size = number js (length counted) in
      let average_loss = div (sum_from js centipawn_loss (number js 0) counted) size in
      let average_win_loss =
        div
          (sum_from js (λ (row : ReviewReportRow Number). row.win_probability_loss) (number js 0)
            counted)
          size in
      let accuracy = move_accuracy_from_win_probability_loss js average_win_loss in
      let blunders = number js (
        length
          (filter (λ (row : ReviewReportRow Number). is_blunder row.classification) counted)) in
      record {
        accuracy = accuracy;
        estimated_rating = estimate_rating accuracy average_loss (div blunders size);
        average_centipawn_loss = round average_loss;
        class_counts = class_counts;
      }

  unfoldable pub side_insights : List (ReviewReportRow Number) → SideInsights Number
  side_insights [] = record {
    accuracy = number js 0;
    estimated_rating = number js 400;
    average_centipawn_loss = number js 0;
    class_counts = count_move_classes {N = Number} [];
  }
  side_insights (row ∷ rows) =
      side_from (accuracy_rows (row ∷ rows)) (count_move_classes (row ∷ rows))

  unfoldable pub build_game_review_insights :
      List (ReviewReportRow Number) → GameReviewInsights Number
  build_game_review_insights rows =
      let class_counts = count_move_classes rows in
      let white = side_insights (rows_of_white rows) in
      let black = side_insights (rows_of_black rows) in
      record {
        total_moves = length rows;
        overall_accuracy =
            div (round (mul (div (add white.accuracy black.accuracy) (number js 2)) (number js 10)))
              (number js 10);
        estimated_rating =
            round (div (add white.estimated_rating black.estimated_rating) (number js 2));
        white = white;
        black = black;
        brilliant_moves = class_counts.brilliant_count;
        class_counts = class_counts;
      }

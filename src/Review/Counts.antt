-- ===== src/Review/Counts.antt =====
-- The counts of the classes of moves,
-- frontend/src/features/game-review-analysis/gameReviewInsights.ts.
use chessview.Common.{
  ℕ, suc, ◌+◌, ◌≡◌, refl, List, [], ◌∷◌, ◌==◌, length, filter, arith, if◌then◌else◌,
}
use chessview.Common.Numbers.{JsNumbers}
use chessview.Review.{MoveClass, ReviewReportRow}
use chessview.Review.Insights.{
  ClassCounts, empty_class_counts, count_of, add_class, count_from, count_move_classes,
  rows_of_white, rows_of_black, side_insights, side_from, build_game_review_insights,
}

-- The place of a class in `MOVE_CLASSES`.
abbrev pub place_of : MoveClass → ℕ
place_of MoveClass.best = 0
place_of MoveClass.forced = 1
place_of MoveClass.great = 2
place_of MoveClass.excellent = 3
place_of MoveClass.good = 4
place_of MoveClass.book = 5
place_of MoveClass.inaccuracy = 6
place_of MoveClass.mistake = 7
place_of MoveClass.miss = 8
place_of MoveClass.blunder = 9
place_of MoveClass.brilliant = 10

abbrev pub all_counts : ClassCounts → ℕ
all_counts c =
    c.best_count + c.forced_count + c.great_count + c.excellent_count + c.good_count + c.book_count
    + c.inaccuracy_count + c.mistake_count + c.miss_count + c.blunder_count + c.brilliant_count

all_counts-add_class :
    (j : MoveClass) (c : ClassCounts) → all_counts (add_class j c) ≡ suc (all_counts c)
unfolding add_class
all_counts-add_class j c = ground arith

count_of-add_class :
    (k j : MoveClass) (c : ClassCounts)
    → count_of k (add_class j c)
      ≡ (if place_of j == place_of k then suc (count_of k c) else count_of k c)
unfolding add_class
count_of-add_class k j c = ground arith

count_of-empty : (k : MoveClass) → count_of k empty_class_counts ≡ 0
count_of-empty k = ground arith

module _ {N : Type 0} where
  -- The rows of a class.
  abbrev pub rows_of : MoveClass → List (ReviewReportRow N) → List (ReviewReportRow N)
  rows_of k = filter (λ row. place_of row.classification == place_of k)

  all_counts-count_from :
      (c : ClassCounts) (rows : List (ReviewReportRow N))
      → all_counts (count_from c rows) ≡ all_counts c + length rows
  unfolding count_from
  all_counts-count_from c [] = omega arith
  all_counts-count_from c (row ∷ rows) = omega (
    arith,
    all_counts-count_from (add_class row.classification c) rows,
    all_counts-add_class row.classification c,
  )

  count_of-count_from :
      (k : MoveClass) (c : ClassCounts) (rows : List (ReviewReportRow N))
      → count_of k (count_from c rows) ≡ count_of k c + length (rows_of k rows)
  unfolding count_from
  count_of-count_from k c [] = omega arith
  count_of-count_from k c (row ∷ rows) = ground (
    arith,
    count_of-count_from k (add_class row.classification c) rows,
    count_of-add_class k row.classification c,
  )

  length-sides :
      (k : MoveClass) (rows : List (ReviewReportRow N))
      → length (rows_of k rows)
        ≡ length (rows_of k (rows_of_white rows)) + length (rows_of k (rows_of_black rows))
  length-sides k [] = refl
  length-sides k (row ∷ rows) = ground (arith, length-sides k rows)

module _ (js : JsNumbers) where
  open js use {Number}

  side_insights-counts :
      (rows : List (ReviewReportRow Number))
      → (side_insights js rows).class_counts ≡ count_move_classes rows
  unfolding side_insights side_from
  side_insights-counts [] = refl
  side_insights-counts (row ∷ rows) = refl

  count_of-side_insights :
      (k : MoveClass) (rows : List (ReviewReportRow Number))
      → count_of k (side_insights js rows).class_counts ≡ length (rows_of k rows)
  unfolding count_move_classes
  count_of-side_insights k rows = ground (
    arith,
    side_insights-counts rows,
    count_of-count_from k empty_class_counts rows,
    count_of-empty k,
  )

  -- The insights count every row once: each class has as many as there are rows of it, the counts of
  -- the two sides make those of the game, and all of them together are the moves.
  pub build_game_review_insights-counts :
      (k : MoveClass) (rows : List (ReviewReportRow Number))
      → (count_of k (build_game_review_insights js rows).class_counts ≡ length (rows_of k rows))
        × (count_of k (build_game_review_insights js rows).class_counts
            ≡ count_of k (build_game_review_insights js rows).white.class_counts
              + count_of k (build_game_review_insights js rows).black.class_counts)
        × (all_counts (build_game_review_insights js rows).class_counts
            ≡ (build_game_review_insights js rows).total_moves)
  unfolding build_game_review_insights count_move_classes
  build_game_review_insights-counts k rows = (
    omega (arith, count_of-count_from k empty_class_counts rows, count_of-empty k),
    omega (
      arith,
      count_of-count_from k empty_class_counts rows,
      count_of-empty k,
      length-sides k rows,
      count_of-side_insights k (rows_of_white rows),
      count_of-side_insights k (rows_of_black rows),
    ),
    omega (arith, all_counts-count_from empty_class_counts rows),
  )

-- ===== src/Review/Report.antt =====
-- The rows of a review, frontend/src/features/game-review-analysis/gameReviewReport.ts, behind the
-- context, and their pairs, frontend/src/features/game-review-analysis/reviewMovePairs.ts.
use chessview.Common.{
  ℕ, suc, ◌+◌, ◌*◌, ◌/◌, ◌%◌, String, Bool, true, false, ◌&&◌, ◌||◌, Option, none, some, List, [],
  ◌∷◌, map_idx, get_elem?, str_eq, ◌or◌, if◌then◌else◌,
}
use chessview.Common.Int.{ℤ, pos, ◌+ℤ◌, ◌-ℤ◌, sub_ℕ}
use chessview.Common.Text.{truthy, take_text}
use chessview.Common.Sort.{sort}
use chessview.Common.NatMap.{lookup, insert, values}
use chessview.Common.Numbers.{JsNumbers, number}
use chessview.Chess.{Fen, ChessJs, Throws, game_of, ◌>>=◌}
use chessview.Review.{
  MoveClass, ClassifiedMoveInput, MoveQualityMetrics, PlayedReviewMove, AnalysisContext,
  ReviewReportRow, GameReview,
}
use chessview.Review.Classifier.{classify_moves, move_quality_metrics, is_true, is_white}
use chessview.Review.Context.{ReviewChess, material_balance_cp}
use chessview.Review.Positions.{has_active}

unfoldable pub move_matches_best_move : String → Option String → Bool
move_matches_best_move uci none = false
move_matches_best_move uci (some best) =
    truthy best && (str_eq uci best || str_eq (take_text 4 uci) (take_text 4 best))

-- `bestMoves[index] ?? undefined`
abbrev pub best_at : List (Option String) → ℕ → Option String
best_at best_moves index = elim (get_elem? best_moves index) [ none ↦ none | some best ↦ best ]

-- The callback that makes `movesForClassification`.
unfoldable pub to_input : List (Option String) → ℕ → PlayedReviewMove → ClassifiedMoveInput
to_input best_moves index move = record {
  from = move.from;
  to = move.to;
  promotion = move.promotion;
  color = some move.color;
  san = some move.san;
  is_book = move.is_book;
  is_forced = move.is_forced;
  is_best =
      some (is_true move.is_best || move_matches_best_move move.uci (best_at best_moves index));
  is_sacrifice = move.is_sacrifice;
}

abbrev pub ignores_evaluation : MoveClass → Bool
ignores_evaluation MoveClass.book = true
ignores_evaluation MoveClass.forced = true
ignores_evaluation _ = false

-- The moves of one number.
pub record ReviewMovePair (N : Type 0) : Type 0 where
  pub move_number : ℕ
  pub white : Option (ReviewReportRow N)
  pub black : Option (ReviewReportRow N)

module _ {N : Type 0} where
  abbrev pub no_rows : ℕ → ReviewMovePair N
  no_rows n = record { move_number = n; white = none; black = none }

  unfoldable pub add_to_pair : ReviewReportRow N → ReviewMovePair N → ReviewMovePair N
  add_to_pair row pair =
      if is_white row.color
      then record pair { white = some row }
      else record pair { black = some row }

  -- The loop over the rows.
  unfoldable pub pairs_by_move :
      List (ℕ × ReviewMovePair N) → List (ReviewReportRow N) → List (ℕ × ReviewMovePair N)
  pairs_by_move m [] = m
  pairs_by_move m (row ∷ rows) =
      pairs_by_move
        (insert row.move_number
          (add_to_pair row (lookup row.move_number m or no_rows row.move_number)) m)
        rows

  abbrev pub pair_order : ReviewMovePair N → ReviewMovePair N → ℤ
  pair_order left right = sub_ℕ left.move_number right.move_number

  unfoldable pub pair_review_rows : List (ReviewReportRow N) → List (ReviewMovePair N)
  pair_review_rows rows = sort pair_order (values (pairs_by_move [] rows))

module _ (js : JsNumbers) where
  open js use {Number, of_int}

  -- What a book move or a forced move has for its metrics.
  abbrev pub spared : MoveQualityMetrics Number → MoveQualityMetrics Number
  spared raw = record raw {
    win_probability_after = raw.win_probability_before;
    win_probability_loss = number js 0;
    move_accuracy = number js 100;
    centipawn_loss = number js 0;
  }

  unfoldable pub row_of :
      ℕ → PlayedReviewMove → Number → Number → MoveClass → Option String → ReviewReportRow Number
  row_of index move before after classification best_move =
      let raw = move_quality_metrics js before after move.color in
      let metrics = if ignores_evaluation classification then spared raw else raw in
      record {
        ply = index + 1;
        move_number = index / 2 + 1;
        color = move.color;
        from = move.from;
        to = move.to;
        promotion = move.promotion;
        san = move.san;
        uci = move.uci;
        fen_before = move.fen_before;
        fen_after = move.fen_after;
        evaluation_before = before;
        evaluation_after = after;
        win_probability_before = metrics.win_probability_before;
        win_probability_after = metrics.win_probability_after;
        win_probability_loss = metrics.win_probability_loss;
        move_accuracy = metrics.move_accuracy;
        best_move = elim best_move [
          | none ↦ none
          | some best ↦ if truthy best then some best else none
        ];
        is_best_move = move_matches_best_move move.uci best_move;
        classification = classification;
      }

  -- The callback that makes the rows, from the move at `index` on.
  unfoldable pub rows_from :
      List Number
      → List MoveClass
      → List (Option String)
      → ℕ
      → List PlayedReviewMove
      → Throws (List (ReviewReportRow Number))
  rows_from evaluations classes best_moves index [] = some []
  rows_from evaluations classes best_moves index (move ∷ moves) = do
    before ← get_elem? evaluations index
    after ← get_elem? evaluations (suc index)
    class ← get_elem? classes index
    rest ← rows_from evaluations classes best_moves (suc index) moves
    some (row_of index move before after class (best_at best_moves index) ∷ rest)

  unfoldable pub build_review_report :
      AnalysisContext → List Number → List (Option String) → Throws (List (ReviewReportRow Number))
  build_review_report context evaluations best_moves = do
    classes ← classify_moves js evaluations (map_idx (to_input best_moves) 0 context.moves)
    rows_from evaluations classes best_moves 0 context.moves

  module _ (chess : ChessJs) (review : ReviewChess chess.Game) (standard_start : Fen) where
    -- The callback of `simulateEvaluations`.
    unfoldable pub simulate_evaluation : ℕ → Fen → Throws Number
    simulate_evaluation index fen = do
      game ← game_of (chess.load (elim fen [ [] ↦ standard_start | c ∷ cs ↦ c ∷ cs ]))
      let material = material_balance_cp chess review game in
          let tempo = if has_active 119 fen then pos 12 else pos 0 -ℤ pos 12 in
          some (of_int ((material +ℤ tempo) +ℤ (pos (index * 37 % 41) -ℤ pos 20)))

    unfoldable pub simulate_from : ℕ → List Fen → Throws (List Number)
    simulate_from index [] = some []
    simulate_from index (fen ∷ fens) = do
      evaluation ← simulate_evaluation index fen
      rest ← simulate_from (suc index) fens
      some (evaluation ∷ rest)

    -- `options.evaluations ?? simulateEvaluations(context.fens)`
    unfoldable pub evaluations_of : AnalysisContext → Option (List Number) → Throws (List Number)
    evaluations_of context (some evaluations) = some evaluations
    evaluations_of context none = simulate_from 0 context.fens

    unfoldable pub build_game_review :
        AnalysisContext → Option (List Number) → List (Option String) → Throws (GameReview Number)
    build_game_review context evaluations best_moves = do
      given ← evaluations_of context evaluations
      rows ← build_review_report context given best_moves
      some (record { context = context; rows = rows })

-- ===== src/Review/Complete.antt =====
-- A replayed game and its evaluations make a whole review,
-- frontend/src/features/game-review-analysis/gameReviewReport.ts.
use mathlib.Core.Option
use mathlib.Core.Path.{subst}
use chessview.Common.{
  ℕ, suc, ◌+◌, ◌≡◌, refl, ap, String, Bool, Option, none, some, List, [], ◌∷◌, length, length-map,
  arith,
}
use chessview.Common.Numbers.{JsNumbers}
use chessview.Chess.{Fen, ChessJs, Throws, ◌>>=◌}
use chessview.Review.{AnalysisContext, GameReview, PlayedReviewMove, ChessViewReviewMove}
use chessview.Review.Context.{ReviewChess, build_context_from_game}
use chessview.Review.Replay.{IsReplay, build_context_from_game-IsReplay}
use chessview.Review.Report.{build_game_review, build_review_report, simulate_from, evaluations_of}
use chessview.Review.Rows.{build_review_report_total}
use chessview.Review.Browser.{
  WorkerEvent, StockfishReviewResult, analyze_game_review_with_stockfish, returned,
}
use chessview.Review.Measured.{IsMeasured, analyze_game_review-IsMeasured}

module _ (js : JsNumbers) (chess : ChessJs) (review : ReviewChess chess.Game)
    (standard_start : Fen) where
  open js use {Number}

  simulate_from-length :
      (index : ℕ) (fens : List Fen)
      → Option.map length (simulate_from js chess review standard_start index fens)
        ≡ Option.map
            (λ (e : List Number). length fens)
            (simulate_from js chess review standard_start index fens)
  unfolding simulate_from
  simulate_from-length index [] = refl
  simulate_from-length index (fen ∷ fens) = ground (arith, simulate_from-length (suc index) fens)

  IsReplay-length :
      (context : AnalysisContext)
      → IsReplay chess review context
      → length context.fens ≡ length context.moves + 1
  IsReplay-length context h =
      omega (arith, ap length h.0, length-map context.moves (λ (p : PlayedReviewMove). p.fen_after))

  -- The number of rows of a review.
  abbrev pub count_rows : Throws (GameReview Number) → Option ℕ
  count_rows = Option.map (λ (r : GameReview Number). length r.rows)

  count_rows-some :
      (context : AnalysisContext) (evaluations : List Number) (best_moves : List (Option String))
      → length evaluations ≡ length context.moves + 1
      → count_rows
          (build_game_review js chess review standard_start context (some evaluations) best_moves)
        ≡ some (length context.moves)
  unfolding build_game_review evaluations_of
  count_rows-some context evaluations best_moves h =
      ground (arith, h, build_review_report_total js context evaluations best_moves)

  count_given :
      (context : AnalysisContext) (best_moves : List (Option String)) (given : Throws (List Number))
      → IsReplay chess review context
      → Option.map length given ≡ Option.map (λ (e : List Number). length context.fens) given
      → count_rows (do
        evaluations ← given
        rows ← build_review_report js context evaluations best_moves
        some (record { context = context; rows = rows }))
        ≡ Option.map (λ (e : List Number). length context.moves) given
  count_given context best_moves none h k = refl
  count_given context best_moves (some evaluations) h k = ground (
    arith,
    k,
    IsReplay-length context h,
    build_review_report_total js context evaluations best_moves,
  )

  -- The review of a replayed game without an analysis has one row for each move, and throws only where
  -- the evaluation of a position from its pieces throws.
  pub simulated-count_rows :
      (context : AnalysisContext) (best_moves : List (Option String))
      → IsReplay chess review context
      → count_rows (build_game_review js chess review standard_start context none best_moves)
        ≡ Option.map
            (λ (e : List Number). length context.moves)
            (simulate_from js chess review standard_start 0 context.fens)
  unfolding build_game_review evaluations_of
  simulated-count_rows context best_moves h =
      count_given context best_moves (simulate_from js chess review standard_start 0 context.fens) h
        (simulate_from-length 0 context.fens)

  -- The review of a replayed game with the result of its analysis never throws, whatever the worker
  -- sent, and has one row for each move.
  pub analyzed-count_rows :
      (context : AnalysisContext) (supported : Bool) (depth : ℕ) (events rest : List WorkerEvent)
      (result : StockfishReviewResult Number)
      → IsReplay chess review context
      → (analyze_game_review_with_stockfish js supported context.fens depth events).1
        ≡ returned result rest
      → count_rows (
          build_game_review js chess review standard_start context
            (some result.evaluations)
            result.best_moves)
        ≡ some (length context.moves)
  analyzed-count_rows context supported depth events rest result h e =
      let measured : IsMeasured js context.fens (returned result rest) =
        subst (IsMeasured js context.fens) e
          (analyze_game_review-IsMeasured js supported context.fens depth events) in
      count_rows-some context result.evaluations result.best_moves
        (omega (arith, measured.0, IsReplay-length context h))

  -- A game of the site whose context is made has a whole review: with the result of its analysis,
  -- whatever the worker sent, the review does not throw and has one row for each replayed move.
  pub reviewed-count_rows :
      (game_id : Option String) (final_fen : Option Fen) (moves : List ChessViewReviewMove)
      (context : AnalysisContext) (supported : Bool) (depth : ℕ) (events rest : List WorkerEvent)
      (result : StockfishReviewResult Number)
      → build_context_from_game chess review game_id final_fen moves ≡ some context
      → (analyze_game_review_with_stockfish js supported context.fens depth events).1
        ≡ returned result rest
      → count_rows (
          build_game_review js chess review standard_start context
            (some result.evaluations)
            result.best_moves)
        ≡ some (length context.moves)
  reviewed-count_rows game_id final_fen moves context supported depth events rest result h e =
      analyzed-count_rows context supported depth events rest result
        (build_context_from_game-IsReplay chess review game_id final_fen moves context h) e

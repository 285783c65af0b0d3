-- ===== src/Review/Rows.antt =====
-- What the rows of a report promise,
-- frontend/src/features/game-review-analysis/gameReviewReport.ts.
use mathlib.Core.Option
use mathlib.Core.Path.{subst}
use chessview.Common.{
  ℕ, zero, suc, ◌+◌, ◌<◌, ◌≡◌, refl, sym, String, true, Option, none, some, List, [], ◌∷◌, ◌==◌,
  map_idx, length, length-map_idx, get_elem?, All, if◌then◌else◌, arith,
}
use chessview.Common.Numbers.{JsNumbers}
use chessview.Chess.{Throws, ◌>>=◌}
use chessview.Review.{MoveClass, PlayedReviewMove, AnalysisContext, ReviewReportRow}
use chessview.Review.Classifier.{classify_moves, classify_from}
use chessview.Review.Classes.{
  get_elem?-some, suits_best, classify_moves_total, classify_move-praises,
}
use chessview.Review.Report.{
  build_review_report, rows_from, row_of, to_input, best_at, move_matches_best_move,
}

module _ (js : JsNumbers) where
  open js use {Number}

  rows_from-length :
      (evaluations : List Number) (classes : List MoveClass) (best_moves : List (Option String))
      (index : ℕ) (moves : List PlayedReviewMove)
      → index + length moves < length evaluations
      → index + length moves ≡ length classes
      → Option.map length (rows_from js evaluations classes best_moves index moves)
        ≡ some (length moves)
  unfolding rows_from
  rows_from-length evaluations classes best_moves index [] h k = refl
  rows_from-length evaluations classes best_moves index (move ∷ moves) h k =
      let before = get_elem?-some evaluations index (omega (arith, h)) in
      let after = get_elem?-some evaluations (suc index) (omega (arith, h)) in
      let class = get_elem?-some classes index (omega (arith, k)) in
      ground (
        arith,
        before.1,
        after.1,
        class.1,
        rows_from-length evaluations classes best_moves (suc index) moves (omega (arith, h))
            (omega (arith, k)),
      )

  rows_of_classes :
      (evaluations : List Number) (best_moves : List (Option String))
      (moves : List PlayedReviewMove) (classes : Throws (List MoveClass))
      → Option.map length classes
        ≡ (if length evaluations == length moves + 1 then some (length moves) else none)
      → Option.map length (classes >>= (λ cs. rows_from js evaluations cs best_moves 0 moves))
        ≡ (if length evaluations == length moves + 1 then some (length moves) else none)
  rows_of_classes evaluations best_moves moves none h = h
  rows_of_classes evaluations best_moves moves (some classes) h =
      ground (arith, h, rows_from-length evaluations classes best_moves 0 moves)

  -- The report throws exactly where there is not one evaluation more than there are moves; else it
  -- has one row for each move.
  pub build_review_report_total :
      (context : AnalysisContext) (evaluations : List Number) (best_moves : List (Option String))
      → Option.map length (build_review_report js context evaluations best_moves) ≡ (
          if length evaluations == length context.moves + 1
          then some (length context.moves)
          else none)
  unfolding build_review_report
  build_review_report_total context evaluations best_moves =
      let inputs = map_idx (to_input best_moves) 0 context.moves in
      rows_of_classes evaluations best_moves context.moves (classify_moves js evaluations inputs) (
        rw (sym (length-map_idx (to_input best_moves) 0 context.moves))
          (classify_moves_total js evaluations inputs))

  -- The row of a best move has a class that suits it.
  abbrev pub PraisesBest : ReviewReportRow Number → Type 0
  PraisesBest row = row.is_best_move ≡ true → suits_best row.classification ≡ true

  -- Each class of a move that is the best one suits it.
  abbrev pub AllPraised : List (Option String) → ℕ → List PlayedReviewMove → List MoveClass → Type 0
  AllPraised best_moves index [] classes = Unit
  AllPraised best_moves index (move ∷ moves) [] = Unit
  AllPraised best_moves index (move ∷ moves) (class ∷ classes) =
      (move_matches_best_move move.uci (best_at best_moves index) ≡ true → suits_best class ≡ true)
      × AllPraised best_moves (suc index) moves classes

  classify_from-AllPraised :
      (evaluations : List Number) (best_moves : List (Option String)) (index : ℕ)
      (moves : List PlayedReviewMove) (classes : List MoveClass)
      → classify_from js evaluations index (map_idx (to_input best_moves) index moves)
        ≡ some classes
      → AllPraised best_moves index moves classes
  unfolding classify_from to_input
  classify_from-AllPraised evaluations best_moves index [] classes h = tt
  classify_from-AllPraised evaluations best_moves index (move ∷ moves) [] h = tt
  classify_from-AllPraised evaluations best_moves index (move ∷ moves) (class ∷ classes) h =
      ground (
        arith,
        classify_move-praises js evaluations index (to_input best_moves index move),
        classify_from-AllPraised evaluations best_moves (suc index) moves classes,
      )

  classify_moves-AllPraised :
      (evaluations : List Number) (best_moves : List (Option String))
      (moves : List PlayedReviewMove) (classes : List MoveClass)
      → classify_moves js evaluations (map_idx (to_input best_moves) 0 moves) ≡ some classes
      → AllPraised best_moves 0 moves classes
  unfolding classify_moves
  classify_moves-AllPraised evaluations best_moves moves classes h =
      classify_from-AllPraised evaluations best_moves 0 moves classes (ground (arith, h))

  -- The classes from an index on.
  abbrev classes_from : ℕ → List MoveClass → List MoveClass
  classes_from zero cs = cs
  classes_from (suc n) [] = []
  classes_from (suc n) (c ∷ cs) = classes_from n cs

  classes_from-get_elem? :
      (n : ℕ) (cs : List MoveClass) (c : MoveClass)
      → get_elem? cs n ≡ some c
      → classes_from n cs ≡ c ∷ classes_from (suc n) cs
  classes_from-get_elem? n [] c h = ground arith
  classes_from-get_elem? zero (d ∷ cs) c h = ground arith
  classes_from-get_elem? (suc n) (d ∷ cs) c h = classes_from-get_elem? n cs c h

  rows_from-first :
      (evaluations : List Number) (classes : List MoveClass) (best_moves : List (Option String))
      (index : ℕ) (move : PlayedReviewMove) (moves : List PlayedReviewMove)
      (row : ReviewReportRow Number) (rows : List (ReviewReportRow Number))
      → rows_from js evaluations classes best_moves index (move ∷ moves) ≡ some (row ∷ rows)
      → (get_elem? classes index ≡ some row.classification)
        × (row.is_best_move ≡ move_matches_best_move move.uci (best_at best_moves index))
        × (rows_from js evaluations classes best_moves (suc index) moves ≡ some rows)
  unfolding rows_from row_of
  rows_from-first evaluations classes best_moves index move moves row rows h = ground arith

  rows_from-PraisesBest :
      (evaluations : List Number) (classes : List MoveClass) (best_moves : List (Option String))
      (index : ℕ) (moves : List PlayedReviewMove) (rows : List (ReviewReportRow Number))
      → AllPraised best_moves index moves (classes_from index classes)
      → rows_from js evaluations classes best_moves index moves ≡ some rows
      → All PraisesBest rows
  unfolding rows_from row_of
  rows_from-PraisesBest evaluations classes best_moves index moves [] p h = tt
  rows_from-PraisesBest evaluations classes best_moves index [] (row ∷ rows) p h = ground arith
  rows_from-PraisesBest evaluations classes best_moves index (move ∷ moves) (row ∷ rows) p h =
      let first = rows_from-first evaluations classes best_moves index move moves row rows h in
      let q : AllPraised best_moves index (move ∷ moves)
          (row.classification ∷ classes_from (suc index) classes) =
        subst (AllPraised best_moves index (move ∷ moves))
          (classes_from-get_elem? index classes row.classification first.0) p in
      ground (
        arith,
        first,
        q,
        rows_from-PraisesBest evaluations classes best_moves (suc index) moves rows q.1 first.2,
      )

  rows_praised :
      (evaluations : List Number) (best_moves : List (Option String))
      (moves : List PlayedReviewMove) (rows : List (ReviewReportRow Number))
      (classes : Throws (List MoveClass))
      → ((cs : List MoveClass) → classes ≡ some cs → AllPraised best_moves 0 moves cs)
      → (classes >>= (λ cs. rows_from js evaluations cs best_moves 0 moves)) ≡ some rows
      → All PraisesBest rows
  rows_praised evaluations best_moves moves rows none p h = ground arith
  rows_praised evaluations best_moves moves rows (some cs) p h =
      rows_from-PraisesBest evaluations cs best_moves 0 moves rows (p cs refl) h

  -- A row whose move is the best one is classified as best, great, brilliant, book or forced, and the tone
  -- of its class is neither warning nor bad.
  pub build_review_report-PraisesBest :
      (context : AnalysisContext) (evaluations : List Number) (best_moves : List (Option String))
      (rows : List (ReviewReportRow Number))
      → build_review_report js context evaluations best_moves ≡ some rows
      → All PraisesBest rows
  unfolding build_review_report classify_moves
  build_review_report-PraisesBest context evaluations best_moves rows h =
      let inputs = map_idx (to_input best_moves) 0 context.moves in
      rows_praised evaluations best_moves context.moves rows (classify_moves js evaluations inputs)
        (λ cs e. classify_moves-AllPraised evaluations best_moves context.moves cs e) h

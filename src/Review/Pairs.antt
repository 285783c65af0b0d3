-- ===== src/Review/Pairs.antt =====
-- The pairs of rows, frontend/src/features/game-review-analysis/reviewMovePairs.ts.
use chessview.Common.{
  ℕ, ◌≡◌, ◌≢◌, refl, ◌∙◌, Bool, false, not, ◌&&◌, Option, none, some, List, [], ◌∷◌, ◌==◌, leb, any,
  arith, ◌or◌, ◌or_else◌, if◌then◌else◌,
}
use chessview.Common.Int.{pos, leb_ℤ}
use chessview.Common.NatMap.{lookup, insert, values, lookup-insert}
use chessview.Common.Keyed.{
  find_by, IsMap, IsIncreasing, insert-IsMap, find_by-values, values-IsDistinct, find_by-sort,
  sort-IsIncreasing,
}
use chessview.Review.{ReviewReportRow}
use chessview.Review.Classifier.{is_white}
use chessview.Review.Report.{
  ReviewMovePair, no_rows, add_to_pair, pairs_by_move, pair_order, pair_review_rows,
}

module _ {N : Type 0} where
  abbrev pub number_of : ReviewMovePair N → ℕ
  number_of p = p.move_number

  -- The last row that passes a test.
  abbrev pub last_row :
      (ReviewReportRow N → Bool) → List (ReviewReportRow N) → Option (ReviewReportRow N)
  last_row test [] = none
  last_row test (row ∷ rows) = last_row test rows or_else (if test row then some row else none)

  abbrev pub has_number : ℕ → ReviewReportRow N → Bool
  has_number k row = row.move_number == k

  -- The pair of a number, on top of a pair that is there: the last rows of each color.
  abbrev pub pair_onto :
      Option (ReviewMovePair N) → ℕ → List (ReviewReportRow N) → Option (ReviewMovePair N)
  pair_onto old k rows =
      if any (has_number k) rows
      then some (record {
        move_number = k;
        white =
            last_row (λ row. has_number k row && is_white row.color) rows
            or_else (old or no_rows k).white;
        black =
            last_row (λ row. has_number k row && not (is_white row.color)) rows
            or_else (old or no_rows k).black;
      })
      else old

  lookup-number :
      (k : ℕ) (m : List (ℕ × ReviewMovePair N))
      → IsMap number_of m
      → number_of (lookup k m or no_rows k) ≡ k
  lookup-number k [] h = refl
  lookup-number k ((j, p) ∷ m) h = ground (arith, lookup-number k m)

  add_to_pair-number :
      (row : ReviewReportRow N) (p : ReviewMovePair N) → number_of (add_to_pair row p) ≡ number_of p
  unfolding add_to_pair
  add_to_pair-number row p = ground arith

  insert_pair-IsMap :
      (m : List (ℕ × ReviewMovePair N)) (row : ReviewReportRow N)
      → IsMap number_of m
      → IsMap number_of (
          insert row.move_number
            (add_to_pair row (lookup row.move_number m or no_rows row.move_number))
            m)
  insert_pair-IsMap m row h =
      let pair = lookup row.move_number m or no_rows row.move_number in
      insert-IsMap number_of row.move_number (add_to_pair row pair) m
        (add_to_pair-number row pair ∙ lookup-number row.move_number m h) h

  pairs_by_move-IsMap :
      (m : List (ℕ × ReviewMovePair N)) (rows : List (ReviewReportRow N))
      → IsMap number_of m
      → IsMap number_of (pairs_by_move m rows)
  unfolding pairs_by_move
  pairs_by_move-IsMap m [] h = h
  pairs_by_move-IsMap m (row ∷ rows) h =
      pairs_by_move-IsMap
        (insert row.move_number
          (add_to_pair row (lookup row.move_number m or no_rows row.move_number)) m)
        rows (insert_pair-IsMap m row h)

  last_row-none :
      (k : ℕ) (test : ReviewReportRow N → Bool) (rows : List (ReviewReportRow N))
      → any (has_number k) rows ≡ false
      → last_row (λ row. has_number k row && test row) rows ≡ none
  last_row-none k test [] h = refl
  last_row-none k test (row ∷ rows) h = ground (arith, h, last_row-none k test rows)

  pair_onto-same :
      (old : Option (ReviewMovePair N)) (k : ℕ) (row : ReviewReportRow N)
      (rows : List (ReviewReportRow N))
      → row.move_number ≡ k
      → number_of (old or no_rows k) ≡ k
      → pair_onto (some (add_to_pair row (old or no_rows k))) k rows ≡ pair_onto old k (row ∷ rows)
  unfolding add_to_pair
  pair_onto-same old k row rows e h = ground (
    arith,
    last_row-none k (λ row. is_white row.color) rows,
    last_row-none k (λ row. not (is_white row.color)) rows,
  )

  pair_onto-other :
      (old : Option (ReviewMovePair N)) (k : ℕ) (row : ReviewReportRow N)
      (rows : List (ReviewReportRow N))
      → row.move_number ≢ k
      → pair_onto old k rows ≡ pair_onto old k (row ∷ rows)
  pair_onto-other old k row rows e = ground arith

  lookup-pairs_by_move :
      (k : ℕ) (m : List (ℕ × ReviewMovePair N)) (rows : List (ReviewReportRow N))
      → IsMap number_of m
      → lookup k (pairs_by_move m rows) ≡ pair_onto (lookup k m) k rows
  unfolding pairs_by_move add_to_pair
  lookup-pairs_by_move k m [] h = refl
  lookup-pairs_by_move k m (row ∷ rows) h =
      let pair = add_to_pair row (lookup row.move_number m or no_rows row.move_number) in
      let later =
        lookup-pairs_by_move k (insert row.move_number pair m) rows (insert_pair-IsMap m row h) in
      ground (
        arith,
        later,
        lookup-insert row.move_number k pair m,
        lookup-number k m h,
        pair_onto-same (lookup k m) k row rows,
        pair_onto-other (lookup k m) k row rows,
      )

  pair_order-agrees :
      (p q : ReviewMovePair N)
      → number_of p ≢ number_of q
      → leb_ℤ (pair_order p q) (pos 0) ≡ leb (number_of p) (number_of q)
  pair_order-agrees p q h = ground arith

  -- The pairs stand in the order of their numbers, each number once, and the pair of a number has the
  -- last row of White and the last row of Black with the number; a number without rows has no pair.
  pub pair_review_rows_lem :
      (k : ℕ) (rows : List (ReviewReportRow N))
      → IsIncreasing number_of 0 (pair_review_rows rows)
        × (find_by number_of k (pair_review_rows rows) ≡ pair_onto none k rows)
  unfolding pair_review_rows
  pair_review_rows_lem k rows =
      let m = pairs_by_move [] rows in
      let map_lem = pairs_by_move-IsMap [] rows tt in
      let distinct = values-IsDistinct number_of m map_lem in
      (
        sort-IsIncreasing number_of pair_order pair_order-agrees (values m) distinct,
        find_by-sort number_of pair_order pair_order-agrees k (values m) distinct
            ∙ find_by-values number_of k m map_lem
            ∙ lookup-pairs_by_move k [] rows tt,
      )

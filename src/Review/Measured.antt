-- ===== src/Review/Measured.antt =====
-- What the analysis of a game in a worker gives to its report,
-- frontend/src/features/game-review-analysis/browserStockfish.ts and
-- frontend/src/features/game-review-analysis/gameReviewReport.ts.
use chessview.Common.{
  ℕ, ◌-◌, ◌≡◌, refl, Bool, true, false, some, List, [], ◌∷◌, ◌++◌, get_last?, length, arith,
}
use chessview.Common.Numbers.{JsNumbers}
use chessview.Chess.{Fen}
use chessview.Review.Browser.{
  WorkerEvent, Post, Ended, Run, FenResult, StockfishReviewResult, analyze_fens, analyze_fen,
  continue_with, value, ◌>>=◌, push_unless_last, finally_quit, analyze_game_review_with_stockfish,
  initialize_worker, other, returned, threw, unsettled,
}

module _ (js : JsNumbers) where
  open js use {Number}

  -- A result has an evaluation for each position, and a best move for each but the last.
  abbrev pub IsMeasured : List Fen → Ended (StockfishReviewResult Number) → Type 0
  IsMeasured fens (returned r events) =
      (length r.evaluations ≡ length fens) × (length r.best_moves ≡ length fens - 1)
  IsMeasured fens threw = Unit
  IsMeasured fens unsettled = Unit

  -- The code behind the analysis of a position.
  abbrev pub with_rest :
      List Fen
      → Run (StockfishReviewResult Number)
      → FenResult Number
      → Run (StockfishReviewResult Number)
  with_rest fens rest_of result = do
    rest ← rest_of
    value (record {
      evaluations = result.evaluation ∷ rest.evaluations;
      best_moves = push_unless_last js fens result.best_move rest.best_moves;
    })

  IsMeasured-rest :
      (fen : Fen) (fens : List Fen) (result : FenResult Number)
      (ended : Ended (StockfishReviewResult Number)) (ps : List Post)
      → IsMeasured fens ended
      → IsMeasured (fen ∷ fens) (with_rest fens (λ events. (ps, ended)) result []).1
  IsMeasured-rest fen [] result (returned r events) ps h = ground (arith, h)
  IsMeasured-rest fen (f ∷ fs) result (returned r events) ps h = ground (arith, h)
  IsMeasured-rest fen fens result threw ps h = tt
  IsMeasured-rest fen fens result unsettled ps h = tt

  IsMeasured-first :
      (fen : Fen) (fens : List Fen) (rest_of : Run (StockfishReviewResult Number)) (ps : List Post)
      (first : Ended (FenResult Number))
      → ((events : List WorkerEvent) → IsMeasured fens (rest_of events).1)
      → IsMeasured (fen ∷ fens) (continue_with (with_rest fens rest_of) ps first).1
  IsMeasured-first fen fens rest_of ps (returned result events) h =
      IsMeasured-rest fen fens result (rest_of events).1 (rest_of events).0 (h events)
  IsMeasured-first fen fens rest_of ps threw h = tt
  IsMeasured-first fen fens rest_of ps unsettled h = tt

  analyze_fens-IsMeasured :
      (depth : ℕ) (fens : List Fen) (events : List WorkerEvent)
      → IsMeasured fens (analyze_fens js depth fens events).1
  unfolding analyze_fens
  analyze_fens-IsMeasured depth [] events = (refl, refl)
  analyze_fens-IsMeasured depth ([] ∷ fens) events = tt
  analyze_fens-IsMeasured depth ((c ∷ cs) ∷ fens) events =
      let first = analyze_fen js depth (c ∷ cs) events in
      IsMeasured-first (c ∷ cs) fens (analyze_fens js depth fens) first.0 first.1
        (analyze_fens-IsMeasured depth fens)

  quit-IsMeasured :
      (fens : List Fen) (ps : List Post) (ended : Ended (StockfishReviewResult Number))
      → IsMeasured fens ended
      → IsMeasured fens (finally_quit js ps ended).1
  quit-IsMeasured fens ps (returned r events) h = h
  quit-IsMeasured fens ps threw h = tt
  quit-IsMeasured fens ps unsettled h = tt

  started-IsMeasured :
      (fens : List Fen) (rest_of : Run (StockfishReviewResult Number)) (ps : List Post)
      (first : Ended (Unit {0}))
      → ((events : List WorkerEvent) → IsMeasured fens (rest_of events).1)
      → IsMeasured fens (continue_with (λ u. rest_of) ps first).1
  started-IsMeasured fens rest_of ps (returned u events) h = h events
  started-IsMeasured fens rest_of ps threw h = tt
  started-IsMeasured fens rest_of ps unsettled h = tt

  -- Whatever the worker sends, an analysis that returns has one evaluation for each position and one
  -- best move for each position but the last.
  pub analyze_game_review-IsMeasured :
      (supported : Bool) (fens : List Fen) (depth : ℕ) (events : List WorkerEvent)
      → IsMeasured fens (analyze_game_review_with_stockfish js supported fens depth events).1
  unfolding analyze_game_review_with_stockfish
  analyze_game_review-IsMeasured false fens depth events = tt
  analyze_game_review-IsMeasured true fens depth events =
      let first = initialize_worker events in
      let body = continue_with (λ u. analyze_fens js depth fens) first.0 first.1 in
      quit-IsMeasured fens body.0 body.1 (
        started-IsMeasured fens (analyze_fens js depth fens) first.0 first.1
          (analyze_fens-IsMeasured depth fens))

  -- The last message to the worker of an analysis that ended is "quit".
  abbrev pub Quits : List Post × Ended (StockfishReviewResult Number) → Type 0
  Quits (ps, returned r events) = get_last? ps ≡ some (other "quit")
  Quits (ps, threw) = get_last? ps ≡ some (other "quit")
  Quits (ps, unsettled) = Unit

  get_last?-append : (ps : List Post) (p : Post) → get_last? (ps ++ p ∷ []) ≡ some p
  get_last?-append [] p = refl
  get_last?-append (q ∷ []) p = refl
  get_last?-append (q ∷ r ∷ ps) p = get_last?-append (r ∷ ps) p

  finally_quit-Quits :
      (ps : List Post) (ended : Ended (StockfishReviewResult Number))
      → Quits (finally_quit js ps ended)
  finally_quit-Quits ps (returned r events) = get_last?-append ps (other "quit")
  finally_quit-Quits ps threw = get_last?-append ps (other "quit")
  finally_quit-Quits ps unsettled = tt

  -- Where workers are supported, the worker of an analysis that returned or threw is told to quit.
  pub analyze_game_review-Quits :
      (fens : List Fen) (depth : ℕ) (events : List WorkerEvent)
      → Quits (analyze_game_review_with_stockfish js true fens depth events)
  unfolding analyze_game_review_with_stockfish
  analyze_game_review-Quits fens depth events =
      let first = initialize_worker events in
      let body = continue_with (λ u. analyze_fens js depth fens) first.0 first.1 in
      finally_quit-Quits body.0 body.1

-- ===== src/Review/Browser.antt =====
-- The analysis of a game in a worker, frontend/src/features/game-review-analysis/browserStockfish.ts.
-- The events of the worker and of the timeouts are a list; code that waits takes them from its front.
-- What is posted is kept in order.
use chessview.Common.{
  ℕ, String, Bool, false, not, Option, none, some, List, [], ◌∷◌, ◌++◌, find, str_eq, ◌or_else◌,
  if◌then◌else◌,
}
use chessview.Common.Text.{take_text}
use chessview.Common.Numbers.{JsNumbers, number}
use chessview.Chess.{Fen}
use chessview.Analysis.{ScoreKind, StockfishScore}
use chessview.Review.Positions.{has_active}
use chessview.Review.Lines.{lines_of, find_score, parse_best_move}

-- An event of the worker, or the end of the wait.
pub data WorkerEvent : Type 0 where
  message : String → WorkerEvent
  failure : WorkerEvent
  timeout : WorkerEvent

pub data Post : Type 0 where
  position : Fen → Post
  go : ℕ → Post
  other : String → Post

-- How code that may wait ends: with a value and the events that are left, with an exception, or not
-- within the events.
pub data Ended (A : Type 0) : Type 0 where
  returned : A → List WorkerEvent → Ended A
  threw : Ended A
  unsettled : Ended A

abbrev pub Run : Type 0 → Type 0
Run A = List WorkerEvent → List Post × Ended A

module _ {A B : Type 0} where
  abbrev pub continue_with : (A → Run B) → List Post → Ended A → List Post × Ended B
  continue_with f ps (returned a events) = let next = f a events in (ps ++ next.0, next.1)
  continue_with f ps threw = (ps, threw)
  continue_with f ps unsettled = (ps, unsettled)

  infixl 5 ◌>>=◌
  abbrev pub ◌>>=◌ : Run A → (A → Run B) → Run B
  (r >>= f) events = continue_with f (r events).0 (r events).1

module _ {A : Type 0} where
  abbrev pub value : A → Run A
  value a events = ([], returned a events)

  abbrev pub throw_error : Run A
  throw_error events = ([], threw)

  abbrev pub posting : List Post → Run A → Run A
  posting ps r events = (ps ++ (r events).0, (r events).1)

-- `waitForLine`, beside a listener that folds the lines of every message. Both listeners see a
-- message before the code behind the wait goes on.
module _ {S : Type 0} (listen : S → String → S) (wanted : String → Bool) where
  unfoldable pub listen_all : S → List String → S
  listen_all s [] = s
  listen_all s (line ∷ lines) = listen_all (listen s line) lines

  unfoldable pub wait_for_line : S → Run (S × String)
  wait_for_line s [] = ([], unsettled)
  wait_for_line s (failure ∷ events) = ([], threw)
  wait_for_line s (timeout ∷ events) = ([], threw)
  wait_for_line s (message text ∷ events) =
      let heard = listen_all s (lines_of text) in
      elim (find wanted (lines_of text)) as (λ _. List Post × Ended (S × String)) [
        | none ↦ wait_for_line heard events
        | some line ↦ ([], returned (heard, line) events)
      ]

abbrev pub hear_nothing : Unit {0} → String → Unit {0}
hear_nothing u line = u

unfoldable pub initialize_worker : Run (Unit {0})
initialize_worker = posting (other "uci" ∷ []) (do
  ready ← wait_for_line hear_nothing (λ line. str_eq line "uciok") tt
  posting
      (other "setoption name UCI_AnalyseMode value true"
        ∷ other "setoption name MultiPV value 1"
        ∷ other "isready"
        ∷ [])
      (do done ← wait_for_line hear_nothing (λ line. str_eq line "readyok") tt; value tt))

pub record FenResult (N : Type 0) : Type 0 where
  pub evaluation : N
  pub best_move : Option String

pub record StockfishReviewResult (N : Type 0) : Type 0 where
  pub evaluations : List N
  pub best_moves : List (Option String)

abbrev pub is_best_move_line : String → Bool
is_best_move_line line = str_eq (take_text 9 line) "bestmove "

module _ (js : JsNumbers) where
  open js use {Number, literal, sub, mul, neg, abs, sign, is_finite}

  unfoldable pub parse_score : String → Option (StockfishScore Number)
  parse_score line = elim (find_score false line) [
    | none ↦ none
    | some (kind, text) ↦
        if is_finite (literal text)
        then some (record { kind = kind; value = literal text })
        else none
  ]

  unfoldable pub raw_score : ScoreKind → Number → Number
  raw_score ScoreKind.cp score = score
  raw_score ScoreKind.mate score = mul (sign score) (sub (number js 100000) (abs score))

  unfoldable pub score_to_white_centipawns : Fen → StockfishScore Number → Number
  score_to_white_centipawns fen score =
      let raw = raw_score score.kind score.value in if has_active 98 fen then neg raw else raw

  -- The listener that keeps the latest score.
  abbrev pub hear_score : Option (StockfishScore Number) → String → Option (StockfishScore Number)
  hear_score latest line = parse_score line or_else latest

  -- The code behind the wait for the best move.
  unfoldable pub judge_fen : Fen → Option (StockfishScore Number) → String → Run (FenResult Number)
  judge_fen fen none line = throw_error
  judge_fen fen (some score) line = value (record {
    evaluation = score_to_white_centipawns fen score;
    best_move = parse_best_move line;
  })

  unfoldable pub analyze_fen : ℕ → Fen → Run (FenResult Number)
  analyze_fen depth fen =
      posting (position fen ∷ go depth ∷ [])
        (do heard ← wait_for_line hear_score is_best_move_line none; judge_fen fen heard.0 heard.1)

  -- `if (index < fens.length - 1) bestMoves.push(result.bestMove)`
  abbrev pub push_unless_last :
      List Fen → Option String → List (Option String) → List (Option String)
  push_unless_last [] best bests = bests
  push_unless_last (f ∷ fs) best bests = best ∷ bests

  unfoldable pub analyze_fens : ℕ → List Fen → Run (StockfishReviewResult Number)
  analyze_fens depth [] = value (record { evaluations = []; best_moves = [] })
  analyze_fens depth ([] ∷ fens) = throw_error
  analyze_fens depth ((c ∷ cs) ∷ fens) = do
    result ← analyze_fen depth (c ∷ cs)
    rest ← analyze_fens depth fens
    value (record {
      evaluations = result.evaluation ∷ rest.evaluations;
      best_moves = push_unless_last fens result.best_move rest.best_moves;
    })

  -- The `finally` block: a run that ended, with a value or an exception, quits the worker.
  abbrev pub finally_quit : {A : Type 0} → List Post → Ended A → List Post × Ended A
  finally_quit ps (returned a events) = (ps ++ other "quit" ∷ [], returned a events)
  finally_quit ps threw = (ps ++ other "quit" ∷ [], threw)
  finally_quit ps unsettled = (ps, unsettled)

  unfoldable pub analyze_game_review_with_stockfish :
      Bool → List Fen → ℕ → Run (StockfishReviewResult Number)
  analyze_game_review_with_stockfish supported fens depth events =
      if not supported
      then ([], threw)
      else (let body = (initialize_worker >>= (λ u. analyze_fens depth fens)) events in
          finally_quit body.0 body.1)

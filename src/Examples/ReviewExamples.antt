-- ===== src/Examples/ReviewExamples.antt =====
-- The theorems on the review of a game at concrete inputs:
-- frontend/src/features/game-review-analysis. The numbers are integers here.
use chessview.Common.{
  ℕ, String, ◌≡◌, refl, ap, ◌∙◌, str_eq, Option, arith, ◌+◌, true, false, none, some, List, [], ◌∷◌,
  All, find, if◌then◌else◌,
}
use chessview.Common.Int.{ℤ, pos, negsuc, ◌+ℤ◌, ◌-ℤ◌, leb_ℤ, to_nat}
use chessview.Common.Numbers.{JsNumbers}
use chessview.Common.Keyed.{find_by, IsIncreasing}
use chessview.Chess.{Fen, Color}
use chessview.Analysis.{ScoreKind}
use chessview.Review.{
  ChessViewReviewMove, AnalysisContext, PlayedReviewMove, ReviewReportRow, MoveClass,
  GameReviewSource,
}
use chessview.Common.Text.{codes, same_codes}
use chessview.Review.Context.{
  ReviewChess, build_context_from_game, replay_moves, play, check_saved, differs, build_context,
  played_move, ends_at, is_sacrifice, material_balance_cp,
}
use chessview.Review.Positions.{
  parse_review_move, is_uci, placement, player_material_loss, add_rows, add_row, add_piece,
  piece_value,
}
use chessview.Review.Replay.{IsAgreed, build_context_from_game-IsAgreed}
use chessview.Review.Classifier.{
  classify_moves, classify_from, classify_move, class_of, move_quality_metrics,
  player_win_probability, win_probability_from_white_eval, move_accuracy_from_win_probability_loss,
  severe_centipawn_loss_class, mild_class,
}
use chessview.Review.Report.{
  to_input, move_matches_best_move, rows_from, row_of, build_review_report, build_game_review,
  pair_review_rows,
}
use chessview.Review.Rows.{PraisesBest, build_review_report-PraisesBest}
use chessview.Review.Browser.{is_best_move_line}
use chessview.Review.Lines.{lines_of, split_lines}
use chessview.Review.Scored.{LacksScore}
use chessview.Review.Spoken.{fen_with, SaysBest}
use chessview.Review.Waits.{Greeting, IsGreeting, greeting_events}
use chessview.Review.Answers.{Answer, IsFit, answer_events, result_of, analyze_game_review-result}
use chessview.Review.Complete.{count_rows, reviewed-count_rows}
use chessview.Review.Insights.{build_game_review_insights, count_of}
use chessview.Review.Counts.{all_counts, build_game_review_insights-counts}
use chessview.Review.Pairs.{number_of, pair_onto, pair_review_rows_lem}
use chessview.Examples.ChessExamples.{toy_chess}

abbrev toy_fen : Fen
toy_fen = fen_with 97 [] Color.w (codes "- - 0 1")

-- The only integer that is read here is -35.
abbrev numbers : JsNumbers
numbers = record {
  Number = ℤ;
  literal = λ s. if str_eq s "-35" then negsuc 34 else pos 13;
  of_int = λ a. a;
  add = λ a b. a +ℤ b;
  sub = λ a b. a -ℤ b;
  mul = λ a b. a;
  div = λ a b. a;
  neg = λ a. pos 0 -ℤ a;
  exp = λ a. a;
  sqrt = λ a. a;
  round = λ a. a;
  abs = λ a. a;
  sign = λ a. a;
  max_of = λ a b. if leb_ℤ a b then b else a;
  min_of = λ a b. if leb_ℤ a b then a else b;
  at_most = leb_ℤ;
  is_finite = λ a. true;
}

-- A game is its position and the number of its moves; the start is `toy_fen`.
abbrev review_chess : ReviewChess toy_chess.Game
review_chess = record { start = (toy_fen, 0); count_moves = λ g. 20; load_pgn = λ t. none }

abbrev saved : ℕ → String → ChessViewReviewMove
saved n uci = record {
  move_number = n;
  uci = uci;
  username = "anna";
  user_id = none;
  fen_after = some toy_fen;
  created_at = none;
}

abbrev saved_moves : List ChessViewReviewMove
saved_moves = saved 2 "e7e4" ∷ saved 1 "e2e4" ∷ []

abbrev played : String → String → PlayedReviewMove
played from uci = record {
  from = from;
  to = "e4";
  promotion = none;
  color = Color.w;
  san = "e4";
  uci = uci;
  fen_before = toy_fen;
  fen_after = toy_fen;
  is_book = some false;
  is_forced = some false;
  is_best = none;
  is_sacrifice = some false;
}

abbrev context : AnalysisContext
context = record {
  source = record {
    kind = chessview.Review.chessview_game;
    game_id = some "g1";
    pgn_text = none;
    moves = some saved_moves;
    final_fen = some toy_fen;
  };
  fens = toy_fen ∷ toy_fen ∷ toy_fen ∷ [];
  moves = played "e2" "e2e4" ∷ played "e7" "e7e4" ∷ [];
  is_verified = true;
  verification_error = none;
}

context_built :
    build_context_from_game toy_chess review_chess (some "g1") (some toy_fen) saved_moves
    ≡ some context
unfolding build_context_from_game replay_moves parse_review_move is_uci play check_saved differs
    same_codes placement build_context played_move ends_at is_sacrifice player_material_loss to_nat
    ◌+ℤ◌ ◌-ℤ◌ material_balance_cp add_rows add_row add_piece piece_value
context_built = refl

build_context_from_game-IsAgreed_example :
    IsAgreed toy_chess review_chess (some toy_fen) saved_moves context
build_context_from_game-IsAgreed_example =
    build_context_from_game-IsAgreed toy_chess review_chess (some "g1") (some toy_fen) saved_moves
      context context_built refl

-- What the worker sends for a position: two scores, and a best move. The later score counts.
abbrev answer : Color → Option String → String → Answer
answer side best line = record {
  first = 97;
  pieces = [];
  side = side;
  rest = codes "- - 0 1";
  infos = "info depth 9 score mate 2" ∷ "info depth 10 score cp -35 nodes 7" ∷ [];
  last = line;
  line = line;
  earlier = "info depth 9 score mate 2" ∷ [];
  latest = record {
    intro = "info depth 10 ";
    kind = ScoreKind.cp;
    negative = true;
    digit = "3";
    digits = "5";
    rest = " nodes 7";
  };
  later = line ∷ [];
  best = best;
}

abbrev answers : List Answer
answers =
    answer Color.w (some "e2e4") "bestmove e2e4 ponder e7e5"
    ∷ answer Color.b (some "e7e5") "bestmove e7e5"
    ∷ answer Color.w none "bestmove (none)"
    ∷ []

abbrev greeting : Greeting
greeting = record {
  hello = "Stockfish" ∷ "id name Stockfish" ∷ [];
  uci = "uciok";
  options = "info string NNUE" ∷ [];
  ready = "readyok";
}

greeting-IsGreeting : IsGreeting greeting
unfolding lines_of split_lines
greeting-IsGreeting = record {
  not_yet = (refl, (refl, tt));
  uci_found = refl;
  not_ready = (refl, tt);
  ready_found = refl;
}

answer-IsFit :
    (side : Color) (best : Option String) (line : String)
    → lines_of line ≡ line ∷ []
    → find is_best_move_line (line ∷ []) ≡ some line
    → SaysBest line best
    → LacksScore line ""
    → IsFit numbers (answer side best line)
unfolding lines_of split_lines
answer-IsFit side best line e f says lacks = record {
  unspaced = refl;
  quiet = (refl, (refl, tt));
  found = ap (find is_best_move_line) e ∙ f;
  tells = says;
  lines = ap (λ ls. "info depth 9 score mate 2" ∷ "info depth 10 score cp -35 nodes 7" ∷ ls) e;
  scores = record { apart = refl; first = ground arith; are_digits = ground arith; ended = refl };
  finite = refl;
  silent = (lacks, tt);
}

ponder-IsFit : IsFit numbers (answer Color.w (some "e2e4") "bestmove e2e4 ponder e7e5")
unfolding lines_of split_lines
ponder-IsFit =
    answer-IsFit Color.w (some "e2e4") "bestmove e2e4 ponder e7e5" refl refl
      (" ponder e7e5", refl, ground arith, ground arith, λ e. cc, λ e. cc) (ground arith)

-- The same position three times.
abbrev repeated : List Answer
repeated = let a = answer Color.w (some "e2e4") "bestmove e2e4 ponder e7e5" in a ∷ a ∷ a ∷ []

reviewed-count_rows_example :
    count_rows numbers toy_chess review_chess toy_fen (
      build_game_review numbers toy_chess review_chess toy_fen context
        (some (result_of numbers repeated).evaluations)
        (result_of numbers repeated).best_moves)
    ≡ some 2
reviewed-count_rows_example =
    reviewed-count_rows numbers toy_chess review_chess toy_fen (some "g1") (some toy_fen)
      saved_moves context true 10 (greeting_events greeting (answer_events repeated)) []
      (result_of numbers repeated) context_built
      (analyze_game_review-result numbers 10 greeting repeated greeting-IsGreeting
        (ponder-IsFit, (ponder-IsFit, (ponder-IsFit, tt))))

-- The report of one move, which was the best.
abbrev report_context : AnalysisContext
report_context = record context { moves = played "e2" "e2e4" ∷ [] }

abbrev first_row : ReviewReportRow ℤ
first_row = record {
  ply = 1;
  move_number = 1;
  color = Color.w;
  from = "e2";
  to = "e4";
  promotion = none;
  san = "e4";
  uci = "e2e4";
  fen_before = toy_fen;
  fen_after = toy_fen;
  evaluation_before = pos 0;
  evaluation_after = pos 1;
  win_probability_before = pos 100;
  win_probability_after = pos 100;
  win_probability_loss = pos 0;
  move_accuracy = pos 100;
  best_move = some "e2e4";
  is_best_move = true;
  classification = MoveClass.best;
}

report_built :
    build_review_report numbers report_context (pos 0 ∷ pos 1 ∷ []) (some "e2e4" ∷ [])
    ≡ some (first_row ∷ [])
unfolding build_review_report classify_moves classify_from classify_move class_of
    move_quality_metrics player_win_probability win_probability_from_white_eval
    move_accuracy_from_win_probability_loss severe_centipawn_loss_class mild_class to_input
    move_matches_best_move rows_from row_of ◌+ℤ◌ ◌-ℤ◌
report_built = refl

build_review_report-PraisesBest_example : All (PraisesBest numbers) (first_row ∷ [])
build_review_report-PraisesBest_example =
    build_review_report-PraisesBest numbers report_context (pos 0 ∷ pos 1 ∷ []) (some "e2e4" ∷ [])
      (first_row ∷ []) report_built

abbrev rows : List (ReviewReportRow ℤ)
rows = first_row ∷ record first_row { ply = 2; color = Color.b } ∷ []

build_game_review_insights-counts_example :
    (count_of MoveClass.best (build_game_review_insights numbers rows).class_counts ≡ 2)
    × (count_of MoveClass.best (build_game_review_insights numbers rows).class_counts
        ≡ count_of MoveClass.best (build_game_review_insights numbers rows).white.class_counts
          + count_of MoveClass.best (build_game_review_insights numbers rows).black.class_counts)
    × (all_counts (build_game_review_insights numbers rows).class_counts
        ≡ (build_game_review_insights numbers rows).total_moves)
build_game_review_insights-counts_example =
    build_game_review_insights-counts numbers MoveClass.best rows

pair_review_rows_lem_example :
    IsIncreasing number_of 0 (pair_review_rows rows)
    × (find_by number_of 1 (pair_review_rows rows) ≡ pair_onto none 1 rows)
pair_review_rows_lem_example = pair_review_rows_lem 1 rows

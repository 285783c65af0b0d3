-- ===== src/Review/Answers.antt =====
-- An analysis whose worker answers returns,
-- frontend/src/features/game-review-analysis/browserStockfish.ts.
use chessview.Common.{
  ℕ, ◌≡◌, refl, ◌∙◌, ap, String, true, Option, none, some, List, [], ◌∷◌, ◌++◌, map, find, false,
  All, if◌then◌else◌, ◌or_else◌,
}
use chessview.Common.Numbers.{JsNumbers, number}
use chessview.Chess.{Fen, Color}
use chessview.Chess.Editor.{has_letter}
use chessview.Analysis.{StockfishScore, ScoreKind}
use chessview.Review.Measured.{with_rest}
use chessview.Review.Waits.{
  messages, lines_of_all, AreQuiet, heard, listen_all-append, heard_lines, wait_for_line-answer,
  bind-returned, Greeting, IsGreeting, greeting_events, initialize_worker-returned,
}
use chessview.Review.Spoken.{
  is_black, fen_with, has_active-side, SaysBest, parse_best_move-SaysBest,
}
use chessview.Review.Scored.{
  LacksScore, ScoreLine, IsScoreLine, number_of, scored, find_score-scored, find_score-none,
}
use chessview.Review.Browser.{
  parse_score, raw_score, WorkerEvent, message, Post, Ended, returned, threw, unsettled, FenResult,
  StockfishReviewResult, wait_for_line, listen_all, hear_score, is_best_move_line, judge_fen,
  analyze_fen, analyze_fens, push_unless_last, score_to_white_centipawns, initialize_worker,
  analyze_game_review_with_stockfish, value, finally_quit, ◌>>=◌,
}
use chessview.Review.Lines.{lines_of, parse_best_move, find_score}

-- What the worker sends for a position, whose FEN is given by its parts: messages without a best move, then
-- one with it. The last line with a score is `scored`; `earlier` are the lines before it.
pub record Answer : Type 0 where
  pub first : ℕ
  pub pieces : List ℕ
  pub side : Color
  pub rest : List ℕ
  pub infos : List String
  pub last : String
  pub line : String
  pub earlier : List String
  pub latest : ScoreLine
  pub later : List String
  pub best : Option String

abbrev pub fen_of : Answer → Fen
fen_of a = fen_with a.first a.pieces a.side a.rest

abbrev pub fens_of : List Answer → List Fen
fens_of = map fen_of

abbrev pub answer_events : List Answer → List WorkerEvent
answer_events [] = []
answer_events (a ∷ answers) = messages a.infos (message a.last ∷ answer_events answers)

-- The best moves but the last.
abbrev pub best_moves_of : List Answer → List (Option String)
best_moves_of [] = []
best_moves_of (a ∷ []) = []
best_moves_of (a ∷ b ∷ answers) = a.best ∷ best_moves_of (b ∷ answers)

module _ (js : JsNumbers) where
  open js use {Number, literal, is_finite, mul, sub, abs, sign, neg}

  -- The pieces have no space, no best move comes early, the line of the best move tells it, and behind the
  -- line with the score, whose number is finite, there is no "score".
  pub record IsFit (a : Answer) : Type 0 where
    pub unspaced : has_letter b' ' (a.first ∷ a.pieces) ≡ false
    pub quiet : AreQuiet is_best_move_line a.infos
    pub found : find is_best_move_line (lines_of a.last) ≡ some a.line
    pub tells : SaysBest a.line a.best
    pub lines : lines_of_all a.infos ++ lines_of a.last ≡ a.earlier ++ scored a.latest ∷ a.later
    pub scores : IsScoreLine a.latest
    pub finite : is_finite (literal (number_of a.latest)) ≡ true
    pub silent : All (λ l. LacksScore l "") a.later

  -- A score in centipawns: a mate is nearly 100000, the less the farther it is.
  abbrev pub centipawns_of : ScoreKind → Number → Number
  centipawns_of ScoreKind.cp n = n
  centipawns_of ScoreKind.mate n = mul (sign n) (sub (number js 100000) (abs n))

  -- From White's side: the engine scores for the side that is to move.
  abbrev pub white_view : Color → Number → Number
  white_view Color.w n = n
  white_view Color.b n = neg n

  abbrev pub evaluation_of : Answer → Number
  evaluation_of a = white_view a.side (centipawns_of a.latest.kind (literal (number_of a.latest)))

  abbrev pub result_of : List Answer → StockfishReviewResult Number
  result_of answers = record {
    evaluations = map evaluation_of answers;
    best_moves = best_moves_of answers;
  }

  abbrev score_of : Answer → StockfishScore Number
  score_of a = record { kind = a.latest.kind; value = literal (number_of a.latest) }

  parse_score_found :
      (line : String) (kind : ScoreKind) (text : String)
      → find_score false line ≡ some (kind, text)
      → is_finite (literal text) ≡ true
      → parse_score js line ≡ some (record { kind = kind; value = literal text })
  unfolding parse_score
  parse_score_found line kind text e f = rw (parse_score, e, f) refl

  parse_score-none : (line : String) → find_score false line ≡ none → parse_score js line ≡ none
  unfolding parse_score
  parse_score-none line e = rw (parse_score, e) refl

  hear_silent :
      (score : Option (StockfishScore Number)) (lines : List String)
      → All (λ l. LacksScore l "") lines
      → listen_all (hear_score js) is_best_move_line score lines ≡ score
  unfolding listen_all
  hear_silent score [] h = refl
  hear_silent score (line ∷ lines) h =
      ap (λ o. listen_all (hear_score js) is_best_move_line (o or_else score) lines)
        (parse_score-none line (find_score-none false line h.0))
      ∙ hear_silent score lines h.1

  hear_latest :
      (a : Answer)
      → IsFit a
      → listen_all
          (hear_score js)
          is_best_move_line
          (heard (hear_score js) is_best_move_line none a.infos)
          (lines_of a.last)
        ≡ some (score_of a)
  hear_latest a h =
      let listener = listen_all (hear_score js) is_best_move_line in
      heard_lines (hear_score js) is_best_move_line none a.infos (lines_of a.last)
      ∙ ap (listener none) h.lines
      ∙ listen_all-append (hear_score js) is_best_move_line none a.earlier
          (scored a.latest ∷ a.later)
      ∙ hear_scored a h (listener none a.earlier)
    where
      hear_scored :
          (a : Answer)
          → IsFit a
          → (s : Option (StockfishScore Number))
          → listen_all (hear_score js) is_best_move_line s (scored a.latest ∷ a.later)
            ≡ some (score_of a)
      hear_scored a h s =
          unfold listen_all in
          ap (λ o. listen_all (hear_score js) is_best_move_line (o or_else s) a.later)
            (parse_score_found (scored a.latest) a.latest.kind (number_of a.latest)
              (find_score-scored a.latest h.scores) h.finite)
          ∙ hear_silent (some (score_of a)) a.later h.silent

  score_to_white_centipawns-score_of :
      (a : Answer)
      → IsFit a
      → score_to_white_centipawns js (fen_of a) (score_of a) ≡ evaluation_of a
  unfolding score_to_white_centipawns raw_score
  score_to_white_centipawns-score_of a h =
      ap
        (λ b.
          let raw = raw_score js a.latest.kind (literal (number_of a.latest)) in
          if b then neg raw else raw)
        (has_active-side a.first a.pieces a.side a.rest h.unspaced)
      ∙ seen_by a.side a.latest.kind (literal (number_of a.latest))
    where
      seen_by :
          (side : Color) (kind : ScoreKind) (n : Number)
          → (if is_black side then neg (raw_score js kind n) else raw_score js kind n)
            ≡ white_view side (centipawns_of kind n)
      seen_by Color.w ScoreKind.cp n = refl
      seen_by Color.w ScoreKind.mate n = refl
      seen_by Color.b ScoreKind.cp n = refl
      seen_by Color.b ScoreKind.mate n = refl

  analyze_fen-result :
      (depth : ℕ) (a : Answer) (events : List WorkerEvent)
      → IsFit a
      → (analyze_fen js depth (fen_of a) (messages a.infos (message a.last ∷ events))).1
        ≡ returned (record { evaluation = evaluation_of a; best_move = a.best }) events
  unfolding analyze_fen judge_fen
  analyze_fen-result depth a events h =
      let waited =
        wait_for_line-answer (hear_score js) is_best_move_line none a.infos a.last a.line events
          h.quiet h.found in
      bind-returned (wait_for_line (hear_score js) is_best_move_line none)
        (λ found. judge_fen js (fen_of a) found.0 found.1) _
        (messages a.infos (message a.last ∷ events)) events (ap (λ r. r.1) waited)
      ∙ ap (λ o. (judge_fen js (fen_of a) o a.line events).1) (hear_latest a h)
      ∙ ap (λ e. returned (record { evaluation = e; best_move = parse_best_move a.line }) events)
          (score_to_white_centipawns-score_of a h)
      ∙ ap (λ b. returned (record { evaluation = evaluation_of a; best_move = b }) events)
          (parse_best_move-SaysBest a.line a.best h.tells)

  push_unless_last-answers :
      (a : Answer) (answers : List Answer)
      → push_unless_last js (fens_of answers) a.best (best_moves_of answers)
        ≡ best_moves_of (a ∷ answers)
  push_unless_last-answers a [] = refl
  push_unless_last-answers a (b ∷ answers) = refl

  analyze_fens-result :
      (depth : ℕ) (answers : List Answer)
      → All IsFit answers
      → (analyze_fens js depth (fens_of answers) (answer_events answers)).1
        ≡ returned (result_of answers) []
  unfolding analyze_fens
  analyze_fens-result depth [] h = refl
  analyze_fens-result depth (a ∷ answers) h =
      let rest_of = analyze_fens js depth (fens_of answers) in
      let result : FenResult Number = record { evaluation = evaluation_of a; best_move = a.best } in
      bind-returned (analyze_fen js depth (fen_of a)) (with_rest js (fens_of answers) rest_of)
        result (answer_events (a ∷ answers)) (answer_events answers)
        (analyze_fen-result depth a (answer_events answers) h.0)
      ∙ bind-returned rest_of
          (λ rest. value (record {
            evaluations = evaluation_of a ∷ rest.evaluations;
            best_moves = push_unless_last js (fens_of answers) a.best rest.best_moves;
          }))
          (result_of answers) (answer_events answers) [] (analyze_fens-result depth answers h.1)
      ∙ ap
          (λ bests.
            returned
              (record { evaluations = (result_of (a ∷ answers)).evaluations; best_moves = bests })
              [])
          (push_unless_last-answers a answers)

  finally_quit-ended :
      {A : Type 0} (ps : List Post) (ended : Ended A) → (finally_quit js ps ended).1 ≡ ended
  finally_quit-ended ps (returned a events) = refl
  finally_quit-ended ps threw = refl
  finally_quit-ended ps unsettled = refl

  pub analyze_game_review-result :
      (depth : ℕ) (greeting : Greeting) (answers : List Answer)
      → IsGreeting greeting
      → All IsFit answers
      → (analyze_game_review_with_stockfish js true
          (fens_of answers)
          depth
          (greeting_events greeting (answer_events answers))).1
        ≡ returned (result_of answers) []
  unfolding analyze_game_review_with_stockfish
  analyze_game_review-result depth greeting answers g h =
      let events = greeting_events greeting (answer_events answers) in
      let body = (initialize_worker >>= (λ u. analyze_fens js depth (fens_of answers))) events in
      finally_quit-ended body.0 body.1
      ∙ bind-returned initialize_worker (λ u. analyze_fens js depth (fens_of answers)) tt events
          (answer_events answers) (initialize_worker-returned greeting (answer_events answers) g)
      ∙ analyze_fens-result depth answers h

-- ===== src/Review/Context.antt =====
-- The replay of a game for its review,
-- frontend/src/features/game-review-analysis/gameReviewReport.ts, as far as `AnalysisContext`.
-- `ReviewChess` is what this code uses of chess.js beyond `ChessJs`.
use chessview.Common.{
  ℕ, ◌+◌, String, Bool, true, false, not, ◌&&◌, ◌||◌, Option, none, some, List, [], ◌∷◌, map,
  get_last?, leb, ltb, ◌or_else◌, is_some, if◌then◌else◌,
}
use chessview.Common.Int.{ℤ, pos}
use chessview.Common.Text.{truthy?, same_codes}
use chessview.Common.Sort.{sort}
use chessview.Chess.{Fen, Move, ParsedUciMove, ChessJs, Throws, game_of, ◌>>=◌}
use chessview.Chess.Moves.{uci_of}
use chessview.Review.{
  ChessViewReviewMove, PlayedReviewMove, SourceKind, GameReviewSource, VerificationError,
  AnalysisContext,
}
use chessview.Review.Positions.{
  placement, add_rows, parse_review_move, player_material_loss, value_of, number_order,
  without_comments,
}

-- `new Chess()`, `moves().length`, and the history behind `loadPgn`, which may throw.
pub record ReviewChess (Game : Type 0) : Type 0 where
  pub start : Game
  pub count_moves : Game → ℕ
  pub load_pgn : Fen → Throws (List Move)

-- Whether the saved position is another than the one behind the replayed move.
unfoldable pub differs : Option Fen → Fen → Bool
differs none after = false
differs (some []) after = false
differs (some (c ∷ cs)) after = not (same_codes (placement (c ∷ cs)) (placement after))

-- The end of the loop's body: the replay stops at a position that differs.
unfoldable pub check_saved :
    ChessViewReviewMove
    → PlayedReviewMove
    → Fen
    → Throws (List PlayedReviewMove × Option VerificationError)
    → Throws (List PlayedReviewMove × Option VerificationError)
check_saved m played after rest =
    if differs m.fen_after after
    then some (played ∷ [], some (VerificationError.saved_position m.move_number m.uci))
    else do more ← rest; some (played ∷ more.0, more.1)

-- `placement(lastFen) === placement(expectedFinalFen)`, if a final position is expected.
unfoldable pub ends_at : Option Fen → Option Fen → Bool
ends_at none last = true
ends_at (some expected) none = false
ends_at (some expected) (some last) = same_codes (placement last) (placement expected)

module _ (js : ChessJs) (review : ReviewChess js.Game) where
  open js use {load, board, move, get, fen}
  open review use {start, count_moves, load_pgn}

  unfoldable pub material_balance_cp : js.Game → ℤ
  material_balance_cp game = add_rows (pos 0) (board game)

  unfoldable pub is_sacrifice : js.Game → Move → ℤ → ℤ → Bool
  is_sacrifice chess_before result before_balance after_balance =
      let moved = value_of (get chess_before result.from) in
      let captured = value_of (get chess_before result.to) in
      leb 250 (player_material_loss before_balance after_balance result.color)
      || (ltb 0 captured && leb (captured + 300) moved)

  -- The move that `pushPlayedMove` adds.
  unfoldable pub played_move : Move → Fen → Fen → ℕ → Bool → PlayedReviewMove
  played_move result before after legal_move_count sacrifice = record {
    from = result.from;
    to = result.to;
    promotion = if truthy? result.promotion then result.promotion else none;
    color = result.color;
    san = result.san;
    uci = uci_of result;
    fen_before = before;
    fen_after = after;
    is_book = some false;
    is_forced = some (leb legal_move_count 1);
    is_best = none;
    is_sacrifice = some sacrifice;
  }

  -- The body that both loops share: a move is made and recorded.
  unfoldable pub play : js.Game → ParsedUciMove → Throws (PlayedReviewMove × js.Game)
  play chess m = do
    chess_before ← game_of (load (fen chess))
    made ← move chess m
    some (
      played_move made.0 (fen chess) (fen made.1) (count_moves chess) (
          is_sacrifice chess_before made.0 (material_balance_cp chess)
            (material_balance_cp made.1)),
      made.1,
    )

  -- `{ from, to, promotion }` of a move of the imported history.
  abbrev pub historical : Move → ParsedUciMove
  historical m = record {
    from = m.from;
    to = m.to;
    promotion = if truthy? m.promotion then m.promotion else none;
  }

  unfoldable pub replay_history : js.Game → List Move → Throws (List PlayedReviewMove)
  replay_history chess [] = some []
  replay_history chess (m ∷ ms) = do
    played ← play chess (historical m)
    rest ← replay_history played.1 ms
    some (played.0 ∷ rest)

  unfoldable pub replay_moves :
      js.Game → List ChessViewReviewMove → Throws (List PlayedReviewMove × Option VerificationError)
  replay_moves chess [] = some ([], none)
  replay_moves chess (m ∷ ms) = do
    parsed ← parse_review_move m.uci
    played ← play chess parsed
    check_saved m played.0 (fen played.1) (replay_moves played.1 ms)

  -- `buildContextFromAppliedMoves`, given what the replay made.
  unfoldable pub build_context :
      GameReviewSource → List PlayedReviewMove × Option VerificationError → AnalysisContext
  build_context source (played, replay_error) =
      let fens = fen start ∷ map (λ (p : PlayedReviewMove). p.fen_after) played in
      let is_verified = not (is_some replay_error) && ends_at source.final_fen (get_last? fens) in
      record {
        source = source;
        fens = fens;
        moves = played;
        is_verified = is_verified;
        verification_error =
            replay_error
            or_else (if is_verified then none else some VerificationError.final_position);
      }

  -- `buildAnalysisContextFromPgn`
  unfoldable pub build_context_from_pgn : Fen → Throws AnalysisContext
  build_context_from_pgn pgn = do
    history ← load_pgn (without_comments pgn)
    elim history [
      | [] ↦ none
      | m ∷ ms ↦ do
        played ← replay_history start (m ∷ ms)
        some (
            build_context
              (record {
                kind = SourceKind.pgn;
                game_id = none;
                pgn_text = some pgn;
                moves = none;
                final_fen = none;
              })
              (played, none))
    ]

  -- `buildAnalysisContextFromChessViewGame`
  unfoldable pub build_context_from_game :
      Option String → Option Fen → List ChessViewReviewMove → Throws AnalysisContext
  build_context_from_game game_id final_fen moves = do
    result ← replay_moves start (sort number_order moves)
    some (
        build_context
          (record {
            kind = SourceKind.chessview_game;
            game_id = game_id;
            pgn_text = none;
            moves = some moves;
            final_fen = final_fen;
          })
          result)

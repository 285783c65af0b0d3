-- ===== src/Review/Replay.antt =====
-- What a replayed game promises,
-- frontend/src/features/game-review-analysis/gameReviewReport.ts.
use mathlib.Core.Path.{subst}
use mathlib.Core.Option.{some-injective}
use chessview.Common.{
  ◌≡◌, refl, String, true, not, Option, none, some, List, ◌∷◌, map, get_last?, is_some, arith,
}
use chessview.Common.Text.{same_codes_iff}
use chessview.Common.Sort.{sort}
use chessview.Chess.{Fen, ChessJs, Throws, ◌>>=◌}
use chessview.Review.{
  ChessViewReviewMove, PlayedReviewMove, GameReviewSource, VerificationError, AnalysisContext,
}
use chessview.Review.Context.{
  ReviewChess, replay_moves, ends_at, build_context, build_context_from_game,
}
use chessview.Review.Positions.{placement, number_order}
use chessview.Review.Faithful.{IsChain, IsReplayOf, IsFaithful, replay_moves-IsFaithful}
use chessview.Review.Saved.{IsSortOf, sort-IsSortOf}

module _ (js : ChessJs) (review : ReviewChess js.Game) where
  open js use {fen, move}
  open review use {start}

  -- The moves are a chain from the start of a game, the positions are those before and behind them,
  -- and there is an error exactly where the game is not verified.
  abbrev pub IsReplay : AnalysisContext → Type 0
  IsReplay context =
      (context.fens ≡ fen start ∷ map (λ (p : PlayedReviewMove). p.fen_after) context.moves)
      × IsChain (fen start) context.moves
      × (is_some context.verification_error ≡ not context.is_verified)

  build_context-IsReplay :
      (source : GameReviewSource) (ps : List PlayedReviewMove) (e : Option VerificationError)
      → IsChain (fen start) ps
      → IsReplay (build_context js review source (ps, e))
  unfolding build_context
  build_context-IsReplay source ps e h = (refl, h, ground arith)

  -- The last position has the pieces of the saved final position, if there is one.
  abbrev pub EndsAt : Option Fen → Option Fen → Type 0
  EndsAt none last = Unit
  EndsAt (some expected) none = ⊥
  EndsAt (some expected) (some last) = placement last ≡ placement expected

  ends_at-EndsAt :
      (expected last : Option Fen) → ends_at expected last ≡ true → EndsAt expected last
  unfolding ends_at
  ends_at-EndsAt none last h = tt
  ends_at-EndsAt (some expected) none h = ground arith
  ends_at-EndsAt (some expected) (some last) h =
      (same_codes_iff (placement last) (placement expected)).0 h

  build_context-EndsAt :
      (source : GameReviewSource) (ps : List PlayedReviewMove) (e : Option VerificationError)
      → (build_context js review source (ps, e)).is_verified ≡ true
      → (e ≡ none)
        × EndsAt source.final_fen (get_last? (build_context js review source (ps, e)).fens)
  unfolding build_context
  build_context-EndsAt source ps e v = (ground arith, ends_at-EndsAt _ _ (ground arith))

  -- The saved moves, in the order of their numbers, were replayed from the start, and the last position is
  -- the expected one.
  abbrev pub IsAgreed : Option Fen → List ChessViewReviewMove → AnalysisContext → Type 0
  IsAgreed final_fen moves context =
      ((sorted : List ChessViewReviewMove) × IsSortOf moves sorted
        × IsReplayOf js review start sorted context.moves)
      × (context.fens ≡ fen start ∷ map (λ (p : PlayedReviewMove). p.fen_after) context.moves)
      × EndsAt final_fen (get_last? context.fens)

  abbrev IsSound : GameReviewSource → List ChessViewReviewMove → AnalysisContext → Type 0
  IsSound source moves context =
      IsReplay context × (context.is_verified ≡ true → IsAgreed source.final_fen moves context)

  built-IsSound :
      (source : GameReviewSource) (moves : List ChessViewReviewMove)
      (r : Throws (List PlayedReviewMove × Option VerificationError))
      → ((ps : List PlayedReviewMove) (e : Option VerificationError)
          → r ≡ some (ps, e)
          → IsFaithful js review start (sort number_order moves) ps e)
      → (context : AnalysisContext)
      → (r >>= (λ result. some (build_context js review source result))) ≡ some context
      → IsSound source moves context
  unfolding build_context
  built-IsSound source moves none k context h = absurd (cc h)
  built-IsSound source moves (some (ps, e)) k context h =
      let faithful = k ps e refl in
      let replay = build_context-IsReplay source ps e faithful.0 in
      subst (IsSound source moves)
        (some-injective (build_context js review source (ps, e)) context h)
        (
          replay,
          λ v.
              let ended = build_context-EndsAt source ps e v in
              (
                (sort number_order moves, sort-IsSortOf moves, faithful.1 ended.0),
                replay.0,
                ended.1,
              ),
        )

  -- The context of a game of the site is a replay from the start, whether it is verified or not.
  pub build_context_from_game-IsReplay :
      (game_id : Option String) (final_fen : Option Fen) (moves : List ChessViewReviewMove)
      (context : AnalysisContext)
      → build_context_from_game js review game_id final_fen moves ≡ some context
      → IsReplay context
  unfolding build_context_from_game
  build_context_from_game-IsReplay game_id final_fen moves context h =
      (built-IsSound _ moves (replay_moves js review start (sort number_order moves))
        (replay_moves-IsFaithful js review start (sort number_order moves)) context h).0

  -- Where the context of a game of the site is verified, its moves are the saved ones: in the order of their
  -- numbers, equal numbers in the order they came in, each was made by chess.js from its text, in the
  -- position behind the one before it, from the start of a game on. Each saved position, and the expected
  -- final one, has the pieces where the replayed one has them.
  pub build_context_from_game-IsAgreed :
      (game_id : Option String) (final_fen : Option Fen) (moves : List ChessViewReviewMove)
      (context : AnalysisContext)
      → build_context_from_game js review game_id final_fen moves ≡ some context
      → context.is_verified ≡ true
      → IsAgreed final_fen moves context
  unfolding build_context_from_game
  build_context_from_game-IsAgreed game_id final_fen moves context h =
      (built-IsSound _ moves (replay_moves js review start (sort number_order moves))
        (replay_moves-IsFaithful js review start (sort number_order moves)) context h).1

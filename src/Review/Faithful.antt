-- ===== src/Review/Faithful.antt =====
-- The replay of the saved moves,
-- frontend/src/features/game-review-analysis/gameReviewReport.ts.
use mathlib.Core.Path.{subst}
use chessview.Common.{◌≡◌, ◌≢◌, refl, ap, ◌∙◌, false, Option, none, some, List, [], ◌∷◌, arith}
use chessview.Common.Text.{same_codes_iff}
use chessview.Chess.{Fen, Move, ParsedUciMove, ChessJs, Throws, game_of, ◌>>=◌}
use chessview.Review.{ChessViewReviewMove, PlayedReviewMove, VerificationError}
use chessview.Review.Context.{
  ReviewChess, play, played_move, historical, replay_history, replay_moves, differs, check_saved,
  is_sacrifice, material_balance_cp,
}
use chessview.Review.Positions.{placement, parse_review_move}
use chessview.Review.Saved.{Spells, parse_review_move-Spells}

-- Each move is made in the position behind the one before it.
abbrev pub IsChain : Fen → List PlayedReviewMove → Type 0
IsChain before [] = Unit
IsChain before (p ∷ ps) = (p.fen_before ≡ before) × IsChain p.fen_after ps

-- The saved position has the pieces where the replayed one has them, if there is a saved one.
abbrev pub SamePlacement : Option Fen → Fen → Type 0
SamePlacement none after = Unit
SamePlacement (some []) after = Unit
SamePlacement (some (c ∷ cs)) after = placement (c ∷ cs) ≡ placement after

differs-SamePlacement :
    (saved : Option Fen) (after : Fen) → differs saved after ≡ false → SamePlacement saved after
unfolding differs
differs-SamePlacement none after h = tt
differs-SamePlacement (some []) after h = tt
differs-SamePlacement (some (c ∷ cs)) after h =
    ground (arith, h, same_codes_iff (placement (c ∷ cs)) (placement after))

module _ (js : ChessJs) (review : ReviewChess js.Game) where
  open js use {fen, move}
  open review use {start}

  -- chess.js makes the move that is recorded.
  abbrev pub IsMade : js.Game → ParsedUciMove → PlayedReviewMove → js.Game → Type 0
  IsMade chess found p after =
      (made : Move) × (move chess found ≡ some (made, after))
      × (p.fen_before ≡ fen chess)
      × (p.fen_after ≡ fen after)
      × (p.from ≡ made.from)
      × (p.to ≡ made.to)
      × (p.san ≡ made.san)

  abbrev as_recorded : js.Game → js.Game → Move × js.Game → PlayedReviewMove × js.Game
  as_recorded chess before m = (
    played_move js review m.0 (fen chess) (fen m.1) (review.count_moves chess) (
        is_sacrifice js review before m.0 (material_balance_cp js review chess)
          (material_balance_cp js review m.1)),
    m.1,
  )

  recorded :
      (chess : js.Game) (found : ParsedUciMove) (copy : Throws js.Game)
      (made : Throws (Move × js.Game)) (p : PlayedReviewMove) (after : js.Game)
      → move chess found ≡ made
      → (do before ← copy; m ← made; some (as_recorded chess before m)) ≡ some (p, after)
      → IsMade chess found p after
  unfolding played_move
  recorded chess found none made p after e h = absurd (cc h)
  recorded chess found (some before) none p after e h = absurd (cc h)
  recorded chess found (some before) (some (m, g)) p after e h = (
    m,
    ground (arith, e, h),
    ground (arith, h),
    ground (arith, h),
    ground (arith, h),
    ground (arith, h),
    ground (arith, h),
  )

  play-IsMade :
      (chess : js.Game) (found : ParsedUciMove) (p : PlayedReviewMove) (after : js.Game)
      → play js review chess found ≡ some (p, after)
      → IsMade chess found p after
  unfolding play
  play-IsMade chess found p after h =
      recorded chess found (game_of (js.load (fen chess))) (move chess found) p after refl h

  -- Each saved move was replayed: chess.js made the move that its text spells, and its saved position,
  -- if there is one, has the pieces where the position behind the move has them.
  abbrev pub IsReplayOf : js.Game → List ChessViewReviewMove → List PlayedReviewMove → Type 0
  IsReplayOf chess [] [] = Unit
  IsReplayOf chess [] (p ∷ ps) = ⊥
  IsReplayOf chess (m ∷ ms) [] = ⊥
  IsReplayOf chess (m ∷ ms) (p ∷ ps) =
      (found : ParsedUciMove) × (after : js.Game) × Spells m.uci found
      × IsMade chess found p after
      × SamePlacement m.fen_after (fen after)
      × IsReplayOf after ms ps

  IsChain-step :
      (before : Fen) (first : Throws (PlayedReviewMove × js.Game))
      (rest : js.Game → Throws (List PlayedReviewMove))
      → ((p : PlayedReviewMove) (after : js.Game)
          → first ≡ some (p, after)
          → (p.fen_before ≡ before) × (p.fen_after ≡ fen after))
      → ((game : js.Game) (ps : List PlayedReviewMove)
          → rest game ≡ some ps
          → IsChain (fen game) ps)
      → (ps : List PlayedReviewMove)
      → (do played ← first; more ← rest played.1; some (played.0 ∷ more)) ≡ some ps
      → IsChain before ps
  IsChain-step before none rest h k ps e = ground arith
  IsChain-step before (some (p, after)) rest h k [] e = tt
  IsChain-step before (some (p, after)) rest h k (q ∷ ps) e =
      let fens = h p after refl in ground (arith, fens, k after ps)

  replay_history-IsChain :
      (chess : js.Game) (ms : List Move) (ps : List PlayedReviewMove)
      → replay_history js review chess ms ≡ some ps
      → IsChain (fen chess) ps
  unfolding replay_history
  replay_history-IsChain chess [] [] h = tt
  replay_history-IsChain chess [] (p ∷ ps) h = ground arith
  replay_history-IsChain chess (m ∷ ms) ps h =
      IsChain-step (fen chess) (play js review chess (historical js review m))
        (λ g. replay_history js review g ms)
        (λ p g e. let made = play-IsMade chess (historical js review m) p g e in (made.2, made.3))
        (λ g qs. replay_history-IsChain g ms qs) ps h

  -- The replayed moves are a chain and, without an error, are the saved ones.
  abbrev pub IsFaithful :
      js.Game → List ChessViewReviewMove → List PlayedReviewMove → Option VerificationError → Type 0
  IsFaithful chess ms ps e = IsChain (fen chess) ps × (e ≡ none → IsReplayOf chess ms ps)

  check_saved-none :
      (m : ChessViewReviewMove) (p q : PlayedReviewMove) (after : Fen) (ps : List PlayedReviewMove)
      (rest : Throws (List PlayedReviewMove × Option VerificationError))
      → check_saved m p after rest ≡ some (q ∷ ps, none)
      → (p ≡ q) × (differs m.fen_after after ≡ false) × (rest ≡ some (ps, none))
  unfolding check_saved
  check_saved-none m p q after ps none h = ground (arith, h)
  check_saved-none m p q after ps (some (rs, e)) h = ground (arith, h)

  check_saved-ne-nil :
      (m : ChessViewReviewMove) (p : PlayedReviewMove) (after : Fen) (e : Option VerificationError)
      (rest : Throws (List PlayedReviewMove × Option VerificationError))
      → check_saved m p after rest ≢ some ([], e)
  unfolding check_saved
  check_saved-ne-nil m p after e none h = ground (arith, h)
  check_saved-ne-nil m p after e (some (rs, d)) h = ground (arith, h)

  check_saved-IsChain :
      (m : ChessViewReviewMove) (p q : PlayedReviewMove) (after : Fen) (ps : List PlayedReviewMove)
      (e : Option VerificationError)
      (rest : Throws (List PlayedReviewMove × Option VerificationError))
      → p.fen_after ≡ after
      → ((rs : List PlayedReviewMove) (d : Option VerificationError)
          → rest ≡ some (rs, d)
          → IsChain after rs)
      → check_saved m p after rest ≡ some (q ∷ ps, e)
      → (q.fen_before ≡ p.fen_before) × IsChain q.fen_after ps
  unfolding check_saved
  check_saved-IsChain m p q after ps e none a k h = ground (arith, h)
  check_saved-IsChain m p q after ps e (some (rs, d)) a k h = ground (arith, h, k rs d refl)

  IsFaithful-step :
      (chess : js.Game) (m : ChessViewReviewMove) (ms : List ChessViewReviewMove)
      (found : ParsedUciMove) (first : Throws (PlayedReviewMove × js.Game))
      → Spells m.uci found
      → ((p : PlayedReviewMove) (after : js.Game)
          → first ≡ some (p, after)
          → IsMade chess found p after)
      → ((game : js.Game) (ps : List PlayedReviewMove) (e : Option VerificationError)
          → replay_moves js review game ms ≡ some (ps, e)
          → IsFaithful game ms ps e)
      → (ps : List PlayedReviewMove) (e : Option VerificationError)
      → (first >>= (λ played.
          check_saved m played.0 (fen played.1) (replay_moves js review played.1 ms)))
        ≡ some (ps, e)
      → IsFaithful chess (m ∷ ms) ps e
  IsFaithful-step chess m ms found none s h k ps e r = absurd (cc r)
  IsFaithful-step chess m ms found (some (p, after)) s h k [] e r =
      absurd (check_saved-ne-nil m p (fen after) e (replay_moves js review after ms) r)
  IsFaithful-step chess m ms found (some (p, after)) s h k (q ∷ ps) e r =
      let made = h p after refl in
      let rest = replay_moves js review after ms in
      let chain =
        check_saved-IsChain m p q (fen after) ps e rest made.3 (λ rs d i. (k after rs d i).0) r in
      (
        (chain.0 ∙ made.2, chain.1),
        λ n.
            let kept =
              check_saved-none m p q (fen after) ps rest (r ∙ ap (λ d. some (q ∷ ps, d)) n) in
            (
              found,
              after,
              s,
              subst (λ x. IsMade chess found x after) kept.0 made,
              differs-SamePlacement m.fen_after (fen after) kept.1,
              (k after ps none kept.2).1 refl,
            ),
      )

  IsFaithful-parsed :
      (chess : js.Game) (m : ChessViewReviewMove) (ms : List ChessViewReviewMove)
      (parsed : Throws ParsedUciMove)
      → ((found : ParsedUciMove) → parsed ≡ some found → Spells m.uci found)
      → ((game : js.Game) (ps : List PlayedReviewMove) (e : Option VerificationError)
          → replay_moves js review game ms ≡ some (ps, e)
          → IsFaithful game ms ps e)
      → (ps : List PlayedReviewMove) (e : Option VerificationError)
      → (do
        found ← parsed
        played ← play js review chess found
        check_saved m played.0 (fen played.1) (replay_moves js review played.1 ms))
        ≡ some (ps, e)
      → IsFaithful chess (m ∷ ms) ps e
  IsFaithful-parsed chess m ms none s k ps e h = absurd (cc h)
  IsFaithful-parsed chess m ms (some found) s k ps e h =
      IsFaithful-step chess m ms found (play js review chess found) (s found refl)
        (play-IsMade chess found) k ps e h

  pub replay_moves-IsFaithful :
      (chess : js.Game) (ms : List ChessViewReviewMove) (ps : List PlayedReviewMove)
      (e : Option VerificationError)
      → replay_moves js review chess ms ≡ some (ps, e)
      → IsFaithful chess ms ps e
  unfolding replay_moves
  replay_moves-IsFaithful chess [] [] e h = (tt, λ n. tt)
  replay_moves-IsFaithful chess [] (p ∷ ps) e h = absurd (cc h)
  replay_moves-IsFaithful chess (m ∷ ms) ps e h =
      IsFaithful-parsed chess m ms (parse_review_move m.uci) (parse_review_move-Spells m.uci)
        (λ g. replay_moves-IsFaithful g ms) ps e h

-- ===== src/Analysis/Replies.antt =====
-- The messages of the worker of `useStockfishAnalysis`,
-- frontend/src/features/analyze-position/useStockfishAnalysis.ts.
use chessview.Common.{
  String, Bool, true, false, not, ◌||◌, Option, none, some, List, [], ◌∷◌, ◌++◌, str_eq, ◌or◌,
  ◌or_else◌, if◌then◌else◌,
}
use chessview.Common.Text.{codes, truthy, take_text}
use chessview.Common.Spaces.{trim, split_spaces}
use chessview.Chess.{ChessJs, Throws}
use chessview.Chess.Moves.{is_playable_uci_move}
use chessview.Analysis.{ParsedInfoLine, parse_info_line, second_token}
use chessview.Analysis.Engine.{
  Status, Analysis, Engine, no_tracking, searching, loading, ready, analyzing, done, position, go,
  other,
}

module _ {N : Type 0} (zero_depth : N) where
  unfoldable pub on_uciok : Engine N → Engine N
  on_uciok e = record e {
    posted =
        e.posted
        ++ other "setoption name UCI_AnalyseMode value true"
          ∷ other "setoption name MultiPV value 1"
          ∷ other "isready"
          ∷ [];
  }

  unfoldable pub is_loading : Status → Bool
  is_loading loading = true
  is_loading _ = false

  unfoldable pub on_readyok : Engine N → Engine N
  unfolding is_loading
  on_readyok e = elim e.queued_search [
    | none ↦ record e {
      is_engine_ready = true;
      analysis =
          if is_loading e.analysis.status then record e.analysis { status = ready } else e.analysis;
    }
    | some search ↦ record e {
      is_engine_ready = true;
      queued_search = none;
      is_search_active = true;
      current_fen = search.fen;
      tracking = record no_tracking { active_fen = some search.fen };
      analysis = searching zero_depth;
      posted = e.posted ++ position search.fen ∷ go search.depth ∷ [];
    }
  ]

  abbrev pub merge : ParsedInfoLine N → Analysis N → Analysis N
  merge p a = record a {
    status = analyzing;
    depth = p.depth or a.depth;
    selective_depth = p.selective_depth or_else a.selective_depth;
    nodes = p.nodes or_else a.nodes;
    nps = p.nps or_else a.nps;
    score = p.score or_else a.score;
    pv = p.pv or a.pv;
  }

  module _ (js : ChessJs) where
    -- `isPlayableUciMove(currentFenRef.current, move)`
    abbrev pub playable : String → String → Throws Bool
    playable fen uci = is_playable_uci_move js (codes fen) uci

    -- The test of the first move of a variation: `none` if chess.js throws.
    unfoldable pub starts_playable : String → Option (List String) → Throws Bool
    starts_playable fen none = some true
    starts_playable fen (some []) = some true
    starts_playable fen (some (m ∷ ms)) = playable fen m

    unfoldable pub on_info : Option (ParsedInfoLine N) → Engine N → Engine N
    on_info none e = e
    on_info (some p) e = elim (starts_playable e.current_fen p.pv) [
      | none ↦ e
      | some is_legal ↦ if is_legal then record e { analysis = merge p e.analysis } else e
    ]

    -- The test of the best move, which may be missing.
    unfoldable pub ends_playable : String → Option String → Throws Bool
    ends_playable fen none = some true
    ends_playable fen (some m) = if truthy m then playable fen m else some true

    unfoldable pub on_best_move : Option String → Engine N → Engine N
    on_best_move best e = elim (ends_playable e.current_fen best) [
      | none ↦ e
      | some is_legal ↦
          if is_legal
          then record e {
            is_search_active = false;
            tracking = record no_tracking { completed_fen = some e.current_fen };
            analysis = record e.analysis { status = done; best_move = best };
          }
          else e
    ]

    module _ (number : Option String → N) (is_nan : N → Bool) where
      -- `worker.onmessage`; a worker that was ended sends nothing.
      unfoldable pub on_message : String → Engine N → Engine N
      unfolding on_uciok on_readyok on_info on_best_move
      on_message text e =
          let line = trim text in
          if not e.has_worker || not (truthy line)
          then e
          else if str_eq line "uciok"
          then on_uciok e
          else if str_eq line "readyok"
          then on_readyok e
          else if str_eq (take_text 5 line) "info "
          then if e.is_search_active then on_info (parse_info_line number is_nan line) e else e
          else if str_eq (take_text 9 line) "bestmove "
          then if e.is_search_active then on_best_move (second_token (split_spaces line)) e else e
          else e

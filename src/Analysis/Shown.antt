-- ===== src/Analysis/Shown.antt =====
-- What `useStockfishAnalysis` shows for a position,
-- frontend/src/features/analyze-position/useStockfishAnalysis.ts.
use chessview.Common.{
  ℕ, String, ◌≡◌, Bool, true, not, ◌||◌, Option, none, some, List, [], ◌∷◌, arith, str_eq, eq_iff,
}
use chessview.Common.Splits.{if_split}
use chessview.Common.Text.{truthy, same, take_text}
use chessview.Common.Spaces.{trim, split_spaces}
use chessview.Chess.{ChessJs}
use chessview.Analysis.{ParsedInfoLine, parse_info_line, second_token}
use chessview.Analysis.Engine.{
  Analysis, Engine, new_engine, commit, enable, disable, on_timer, on_worker_error, shown,
  start_worker, end_worker, cancel_search, schedule_search, is_idle, is_error,
}
use chessview.Analysis.Replies.{
  on_message, on_info, on_best_move, on_readyok, on_uciok, starts_playable, ends_playable,
  is_loading,
}

-- What can happen to the hook: a render, the start and the end of the worker, the timer, a message
-- and an error of the worker.
pub data Event : Type 0 where
  render : String → ℕ → Event
  turn_on : String → ℕ → Event
  turn_off : Event
  timeout : Event
  message : String → Event
  crash : Event

module _ {N : Type 0} (zero_depth : N) (js : ChessJs) (number : Option String → N)
    (is_nan : N → Bool) where
  unfoldable pub step : Event → Engine N → Engine N
  step (render fen depth) e = commit zero_depth fen depth e
  step (turn_on fen depth) e = enable zero_depth fen depth e
  step turn_off e = disable zero_depth e
  step timeout e = on_timer zero_depth e
  step (message text) e = on_message zero_depth js number is_nan text e
  step crash e = on_worker_error zero_depth e

  unfoldable pub run : List Event → Engine N → Engine N
  run [] e = e
  run (ev ∷ evs) e = run evs (step ev e)

  -- The variation and the best move belong to a position, the one that is searched or the one whose
  -- search is complete, and can be played there.
  abbrev pub BelongsTo : Option String → Option String → Analysis N → Type 0
  BelongsTo (some fen) completed a =
      (completed ≡ none)
      × (a.best_move ≡ none)
      × (starts_playable zero_depth js fen (some a.pv) ≡ some true)
  BelongsTo none (some fen) a =
      (starts_playable zero_depth js fen (some a.pv) ≡ some true)
      × (ends_playable zero_depth js fen a.best_move ≡ some true)
  BelongsTo none none a = Unit

  pub record IsSound (e : Engine N) : Type 0 where
    pub worker : e.is_search_active ≡ true → e.has_worker ≡ true
    pub active : e.is_search_active ≡ true → e.tracking.active_fen ≡ some e.current_fen
    pub quiet :
        (is_idle zero_depth e.analysis.status || is_error zero_depth e.analysis.status) ≡ true
        → (e.analysis.best_move ≡ none) × (e.analysis.pv ≡ [])
    pub belongs : BelongsTo e.tracking.active_fen e.tracking.completed_fen e.analysis

  new_engine-IsSound : (fen : String) → IsSound (new_engine zero_depth fen)
  unfolding new_engine is_idle is_error
  new_engine-IsSound fen = ground arith

  commit-IsSound :
      (fen : String) (depth : ℕ) (e : Engine N)
      → IsSound e
      → IsSound (commit zero_depth fen depth e)
  unfolding commit cancel_search schedule_search
  commit-IsSound fen depth e h = ground arith

  enable-IsSound :
      (fen : String) (depth : ℕ) (e : Engine N)
      → IsSound e
      → IsSound (enable zero_depth fen depth e)
  unfolding enable start_worker schedule_search
  enable-IsSound fen depth e h = ground arith

  disable-IsSound : (e : Engine N) → IsSound e → IsSound (disable zero_depth e)
  unfolding disable cancel_search end_worker
  disable-IsSound e h = ground arith

  on_timer-IsSound : (e : Engine N) → IsSound e → IsSound (on_timer zero_depth e)
  unfolding on_timer is_idle is_error starts_playable
  on_timer-IsSound e h = ground arith

  on_readyok-IsSound :
      (e : Engine N) → IsSound e → e.has_worker ≡ true → IsSound (on_readyok zero_depth e)
  unfolding on_readyok is_idle is_error starts_playable is_loading
  on_readyok-IsSound e h w = ground arith

  on_info-IsSound :
      (p : Option (ParsedInfoLine N)) (e : Engine N)
      → IsSound e
      → e.is_search_active ≡ true
      → IsSound (on_info zero_depth js p e)
  unfolding on_info is_idle is_error starts_playable
  on_info-IsSound p e h a = ground arith

  on_best_move-IsSound :
      (best : Option String) (e : Engine N)
      → IsSound e
      → e.is_search_active ≡ true
      → IsSound (on_best_move zero_depth js best e)
  unfolding on_best_move is_idle is_error
  on_best_move-IsSound best e h a = ground arith

  on_worker_error-IsSound : (e : Engine N) → IsSound e → IsSound (on_worker_error zero_depth e)
  unfolding on_worker_error is_idle is_error starts_playable ends_playable
  on_worker_error-IsSound e h = ground arith

  on_uciok-IsSound : (e : Engine N) → IsSound e → IsSound (on_uciok zero_depth e)
  unfolding on_uciok
  on_uciok-IsSound e h = ground arith

  on_message-IsSound :
      (text : String) (e : Engine N)
      → IsSound e
      → IsSound (on_message zero_depth js number is_nan text e)
  unfolding on_message
  on_message-IsSound text e h =
      let line = trim text in
      if_split IsSound (not e.has_worker || not (truthy line)) _ _ (λ w. h)
        (λ w.
          if_split IsSound (str_eq line "uciok") _ _ (λ u. on_uciok-IsSound e h)
            (λ u.
              if_split IsSound (str_eq line "readyok") _ _
                (λ r. on_readyok-IsSound e h (ground arith))
                (λ r.
                  if_split IsSound (str_eq (take_text 5 line) "info ") _ _
                    (λ i.
                      if_split IsSound e.is_search_active _ _
                        (λ a. on_info-IsSound (parse_info_line number is_nan line) e h a) (λ a. h))
                    (λ i.
                      if_split IsSound (str_eq (take_text 9 line) "bestmove ") _ _
                        (λ b.
                          if_split IsSound e.is_search_active _ _
                            (λ a. on_best_move-IsSound (second_token (split_spaces line)) e h a)
                            (λ a. h))
                        (λ b. h)))))

  pub step-IsSound : (ev : Event) (e : Engine N) → IsSound e → IsSound (step ev e)
  unfolding step
  step-IsSound (render fen depth) e h = commit-IsSound fen depth e h
  step-IsSound (turn_on fen depth) e h = enable-IsSound fen depth e h
  step-IsSound turn_off e h = disable-IsSound e h
  step-IsSound timeout e h = on_timer-IsSound e h
  step-IsSound (message text) e h = on_message-IsSound text e h
  step-IsSound crash e h = on_worker_error-IsSound e h

  pub run-IsSound : (evs : List Event) (e : Engine N) → IsSound e → IsSound (run evs e)
  unfolding run
  run-IsSound [] e h = h
  run-IsSound (ev ∷ evs) e h = run-IsSound evs (step ev e) (step-IsSound ev e h)

  -- The moves that are shown can be played in the position.
  abbrev pub IsPlayable : String → Analysis N → Type 0
  IsPlayable fen a =
      (starts_playable zero_depth js fen (some a.pv) ≡ some true)
      × (ends_playable zero_depth js fen a.best_move ≡ some true)

  same-eq : (o : Option String) (t : String) → same o (some t) ≡ true → o ≡ some t
  same-eq none t h = ground arith
  same-eq (some s) t h = ground (arith, eq_iff s t)

  shown-IsPlayable :
      (fen : String) (enabled supported : Bool) (e : Engine N)
      → IsSound e
      → IsPlayable fen (shown zero_depth fen enabled supported e)
  unfolding shown starts_playable ends_playable is_idle is_error
  shown-IsPlayable fen enabled supported e h =
      ground (arith, same-eq e.tracking.active_fen fen, same-eq e.tracking.completed_fen fen)

  -- Whatever the hook goes through, renders with new positions, starts and ends of the worker, timers,
  -- messages and errors of the worker in any order, the first move of the variation and the best move
  -- that it shows for a position can be played in that position.
  pub run-IsPlayable :
      (evs : List Event) (first fen : String) (enabled supported : Bool)
      → IsPlayable fen
          (shown zero_depth fen enabled supported (run evs (new_engine zero_depth first)))
  run-IsPlayable evs first fen enabled supported =
      shown-IsPlayable fen enabled supported (run evs (new_engine zero_depth first))
        (run-IsSound evs (new_engine zero_depth first) (new_engine-IsSound first))

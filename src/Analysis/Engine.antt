-- ===== src/Analysis/Engine.antt =====
-- The state of `useStockfishAnalysis` and what changes it: the effects of the hook, the messages and
-- the errors of the worker, and the timer of a search. What is posted to the worker is a list.
use chessview.Common.{
  ℕ, String, Bool, true, false, not, ◌&&◌, ◌||◌, Option, none, some, List, [], ◌∷◌, ◌++◌,
  if◌then◌else◌,
}
use chessview.Common.Text.{same}
use chessview.Analysis.{StockfishScore}

pub data Status : Type 0 where
  idle loading ready analyzing done error : Status

-- `StockfishAnalysisState`
pub record Analysis (N : Type 0) : Type 0 where
  pub status : Status
  pub depth : N
  pub selective_depth : Option N
  pub nodes : Option N
  pub nps : Option N
  pub score : Option (StockfishScore N)
  pub best_move : Option String
  pub pv : List String
  pub error : Option String

-- `AnalysisTrackingState`
pub record Tracking : Type 0 where
  pub queued_fen : Option String
  pub active_fen : Option String
  pub completed_fen : Option String

pub record Search : Type 0 where
  pub fen : String
  pub depth : ℕ

-- What is posted to the worker: "stop", "position fen " and "go depth " with their arguments, and the
-- other texts.
pub data Post : Type 0 where
  stop : Post
  position : String → Post
  go : ℕ → Post
  other : String → Post

-- The references and the states of the hook. `timer` is what the waiting timeout will queue, and
-- `scheduled` says that the last effect returned a clean-up.
pub record Engine (N : Type 0) : Type 0 where
  pub has_worker : Bool
  pub posted : List Post
  pub timer : Option Search
  pub scheduled : Bool
  pub current_fen : String
  pub queued_search : Option Search
  pub is_search_active : Bool
  pub is_engine_ready : Bool
  pub analysis : Analysis N
  pub tracking : Tracking

abbrev pub no_tracking : Tracking
no_tracking = record { queued_fen = none; active_fen = none; completed_fen = none }

module _ {N : Type 0} (zero_depth : N) where
  -- `INITIAL_STATE`
  abbrev pub initial_state : Analysis N
  initial_state = record {
    status = idle;
    depth = zero_depth;
    selective_depth = none;
    nodes = none;
    nps = none;
    score = none;
    best_move = none;
    pv = [];
    error = none;
  }

  -- `{ ...INITIAL_STATE, status: "analyzing" }`
  abbrev pub searching : Analysis N
  searching = record initial_state { status = analyzing }

  unfoldable pub new_engine : String → Engine N
  new_engine fen = record {
    has_worker = false;
    posted = [];
    timer = none;
    scheduled = false;
    current_fen = fen;
    queued_search = none;
    is_search_active = false;
    is_engine_ready = false;
    analysis = initial_state;
    tracking = no_tracking;
  }

  abbrev pub post : Post → Engine N → Engine N
  post p e = record e { posted = e.posted ++ p ∷ [] }

  -- The effect that makes the worker, and its clean-up, which ends it.
  unfoldable pub start_worker : Engine N → Engine N
  start_worker e = record e { has_worker = true; posted = other "uci" ∷ [] }

  unfoldable pub end_worker : Engine N → Engine N
  end_worker e = record e {
    has_worker = false;
    posted = e.posted ++ stop ∷ other "quit" ∷ [];
    timer = none;
    queued_search = none;
    is_search_active = false;
    is_engine_ready = false;
  }

  -- The clean-up of the effect that queues a search, and the effect itself.
  unfoldable pub cancel_search : Engine N → Engine N
  cancel_search e =
      if e.scheduled then record (post stop e) { timer = none; scheduled = false } else e

  unfoldable pub schedule_search : Bool → String → ℕ → Engine N → Engine N
  schedule_search enabled fen depth e =
      if not enabled || not e.has_worker
      then e
      else (let stopped = record (post stop e) {
        timer = none;
        queued_search = none;
        is_search_active = false;
      } in
          if not e.is_engine_ready then stopped else record stopped {
            timer = some (record { fen = fen; depth = depth });
            scheduled = true;
          })

  -- The effects behind a render in which `fen` or `depth` may be new, or the engine has become ready.
  unfoldable pub commit : String → ℕ → Engine N → Engine N
  unfolding cancel_search schedule_search
  commit fen depth e =
      schedule_search e.has_worker fen depth (record (cancel_search e) { current_fen = fen })

  -- `enabled` becomes true, with support for workers, or false.
  unfoldable pub enable : String → ℕ → Engine N → Engine N
  unfolding start_worker schedule_search
  enable fen depth e = if e.has_worker then e else schedule_search true fen depth (start_worker e)

  unfoldable pub disable : Engine N → Engine N
  unfolding cancel_search end_worker
  disable e = if e.has_worker then cancel_search (end_worker e) else e

  unfoldable pub on_timer : Engine N → Engine N
  on_timer e = elim e.timer [
    | none ↦ e
    | some search ↦ post (other "isready") (
        post stop (record e {
          timer = none;
          queued_search = some search;
          is_search_active = false;
          tracking = record no_tracking { queued_fen = some search.fen };
          analysis = searching;
        }))
  ]

  unfoldable pub on_worker_error : Engine N → Engine N
  on_worker_error e = record e {
    analysis = record initial_state {
      status = error;
      error = some "Stockfish failed to start in this browser session.";
    };
  }

  unfoldable pub is_idle : Status → Bool
  is_idle idle = true
  is_idle _ = false

  unfoldable pub is_error : Status → Bool
  is_error error = true
  is_error _ = false

  -- What the hook returns for the position `fen`.
  unfoldable pub shown : String → Bool → Bool → Engine N → Analysis N
  unfolding is_idle is_error
  shown fen enabled supported e =
      if not enabled
      then initial_state
      else if not supported
      then record initial_state {
        status = error;
        error = some "Web Workers are unavailable in this browser, so local analysis cannot start.";
      }
      else if not e.is_engine_ready && is_idle e.analysis.status
      then record e.analysis { status = loading }
      else if same e.tracking.queued_fen (some fen)
      then searching
      else if not (same e.tracking.active_fen (some fen))
          && not (same e.tracking.completed_fen (some fen))
          && not (is_error e.analysis.status)
      then record initial_state { status = if e.is_engine_ready then ready else loading }
      else e.analysis

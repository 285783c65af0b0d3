-- ===== src/Review/Waits.antt =====
-- What a wait for a line of the worker returns,
-- frontend/src/features/game-review-analysis/browserStockfish.ts.
use chessview.Common.{
  ◌≡◌, refl, ◌∙◌, ap, String, Bool, none, some, List, [], ◌∷◌, ◌++◌, find, arith, sym, str_eq,
}
use mathlib.Core.List.{append_assoc}
use chessview.Review.Browser.{
  hear_nothing, other, posting, WorkerEvent, message, Post, returned, Run, wait_for_line,
  listen_all, initialize_worker, continue_with, value, ◌>>=◌,
}
use chessview.Review.Lines.{lines_of}

-- The messages, before other events.
abbrev pub messages : List String → List WorkerEvent → List WorkerEvent
messages [] events = events
messages (text ∷ texts) events = message text ∷ messages texts events

-- The lines of the messages.
abbrev pub lines_of_all : List String → List String
lines_of_all [] = []
lines_of_all (text ∷ texts) = lines_of text ++ lines_of_all texts

-- No line of the messages is wanted.
abbrev pub AreQuiet : (String → Bool) → List String → Type 0
AreQuiet wanted [] = Unit
AreQuiet wanted (text ∷ texts) = (find wanted (lines_of text) ≡ none) × AreQuiet wanted texts

module _ {S : Type 0} (listen : S → String → S) (wanted : String → Bool) where
  -- What the listener has heard behind the messages.
  abbrev pub heard : S → List String → S
  heard s [] = s
  heard s (text ∷ texts) = heard (listen_all listen wanted s (lines_of text)) texts

  pub listen_all-append :
      (s : S) (xs ys : List String)
      → listen_all listen wanted s (xs ++ ys)
        ≡ listen_all listen wanted (listen_all listen wanted s xs) ys
  unfolding listen_all
  listen_all-append s [] ys = refl
  listen_all-append s (x ∷ xs) ys = listen_all-append (listen s x) xs ys

  pub heard_lines :
      (s : S) (texts : List String) (ys : List String)
      → listen_all listen wanted (heard s texts) ys
        ≡ listen_all listen wanted s (lines_of_all texts ++ ys)
  heard_lines s [] ys = refl
  heard_lines s (text ∷ texts) ys =
      heard_lines (listen_all listen wanted s (lines_of text)) texts ys
      ∙ sym (listen_all-append s (lines_of text) (lines_of_all texts ++ ys))
      ∙ ap (listen_all listen wanted s) (sym (append_assoc (lines_of text) (lines_of_all texts) ys))

  pub wait_for_line-answer :
      (s : S) (infos : List String) (last line : String) (events : List WorkerEvent)
      → AreQuiet wanted infos
      → find wanted (lines_of last) ≡ some line
      → wait_for_line listen wanted s (messages infos (message last ∷ events))
        ≡ ([], returned (listen_all listen wanted (heard s infos) (lines_of last), line) events)
  unfolding wait_for_line
  wait_for_line-answer s [] last line events q h = ground (arith, h)
  wait_for_line-answer s (text ∷ infos) last line events q h = ground (
    arith,
    q,
    wait_for_line-answer (listen_all listen wanted s (lines_of text)) infos last line events q.1 h,
  )

-- Code that goes on behind a wait which returned.
module _ {A B : Type 0} where
  pub bind-returned :
      (r : Run A) (f : A → Run B) (a : A) (events rest : List WorkerEvent)
      → (r events).1 ≡ returned a rest
      → ((r >>= f) events).1 ≡ (f a rest).1
  bind-returned r f a events rest e = ap (λ ended. (continue_with f (r events).0 ended).1) e

-- What the worker sends before it is ready: any messages, "uciok", any messages, "readyok".
pub record Greeting : Type 0 where
  pub hello : List String
  pub uci : String
  pub options : List String
  pub ready : String

abbrev pub greeting_events : Greeting → List WorkerEvent → List WorkerEvent
greeting_events g events =
    messages g.hello (message g.uci ∷ messages g.options (message g.ready ∷ events))

abbrev pub is_line : String → String → Bool
is_line wanted line = str_eq line wanted

pub record IsGreeting (g : Greeting) : Type 0 where
  pub not_yet : AreQuiet (is_line "uciok") g.hello
  pub uci_found : find (is_line "uciok") (lines_of g.uci) ≡ some "uciok"
  pub not_ready : AreQuiet (is_line "readyok") g.options
  pub ready_found : find (is_line "readyok") (lines_of g.ready) ≡ some "readyok"

pub initialize_worker-returned :
    (g : Greeting) (events : List WorkerEvent)
    → IsGreeting g
    → (initialize_worker (greeting_events g events)).1 ≡ returned tt events
unfolding initialize_worker
initialize_worker-returned g events h =
    let rest = messages g.options (message g.ready ∷ events) in
    let second : Run (Unit {0}) =
      wait_for_line hear_nothing (is_line "readyok") tt >>= (λ done. value tt) in
    let setting : List Post =
      other "setoption name UCI_AnalyseMode value true"
      ∷ other "setoption name MultiPV value 1"
      ∷ other "isready"
      ∷ [] in
    let first =
      wait_for_line-answer hear_nothing (is_line "uciok") tt g.hello g.uci "uciok" rest h.not_yet
        h.uci_found in
    let last =
      wait_for_line-answer hear_nothing (is_line "readyok") tt g.options g.ready "readyok" events
        h.not_ready h.ready_found in
    bind-returned (wait_for_line hear_nothing (is_line "uciok") tt) (λ r. posting setting second) _
      (greeting_events g events) rest (ap (λ r. r.1) first)
    ∙ bind-returned (wait_for_line hear_nothing (is_line "readyok") tt) (λ done. value tt) _ rest
        events (ap (λ r. r.1) last)

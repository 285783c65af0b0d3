-- ===== src/Game/Moves/History.antt =====
-- What `buildMoveFallbacks` of frontend/src/entities/game/model.ts returns.
use chessview.Common.{
  ℕ, suc, ◌+◌, ◌<◌, String, ◌≡◌, refl, sym, ap, ◌∙◌, Option, none, some, List, [], ◌∷◌, ◌++◌, map,
  arith, map_idx, eq_iff, length, or_else-none,
}
use chessview.Common.NatMap.{lookup, last_of, lookup-insert_all}
use native.Mathlib.Nat.{add-zero, add-suc, suc-add}
use chessview.Game.Moves.{
  GamePlayer, GameMove, existing_by_number, fallback, keep_or_make, build_move_fallbacks,
}

-- The moves stand for the history: numbered in order from `n`, each with its text.
abbrev pub Records : ℕ → List String → List GameMove → Type 0
Records n [] [] = Unit
Records n [] (_ ∷ _) = ⊥
Records n (_ ∷ _) [] = ⊥
Records n (u ∷ us) (m ∷ ms) = (m.move_number ≡ n) × (m.uci ≡ u) × Records (suc n) us ms

abbrev entries : List GameMove → List (ℕ × GameMove)
entries = map (λ m. (m.move_number, m))

lookup-existing :
    (k : ℕ) (ms : List GameMove) → lookup k (existing_by_number ms) ≡ last_of k (entries ms)
lookup-existing k ms = lookup-insert_all k [] (entries ms) ∙ or_else-none (last_of k (entries ms))

last_of-move_number :
    (k : ℕ) (m : GameMove) (ms : List GameMove)
    → last_of k (entries ms) ≡ some m
    → m.move_number ≡ k
last_of-move_number k m [] h = ground arith
last_of-move_number k m (x ∷ ms) h = ground (arith, last_of-move_number k m ms)

last_of_before :
    (k n : ℕ) (us : List String) (ms : List GameMove)
    → Records n us ms
    → k < n
    → last_of k (entries ms) ≡ none
last_of_before k n [] [] r h = refl
last_of_before k n [] (m ∷ ms) r h = elim r [ ]
last_of_before k n (u ∷ us) [] r h = elim r [ ]
last_of_before k n (u ∷ us) (m ∷ ms) r h =
    ground (arith, last_of_before k (suc n) us ms r.2 (omega arith))

-- The lookup finds each of the moves under its place, and nothing past the last of them.
abbrev FindsFrom : (ℕ → Option GameMove) → ℕ → List GameMove → Type 0
FindsFrom found i [] = (k : ℕ) → i < k → found k ≡ none
FindsFrom found i (m ∷ ms) = (found (suc i) ≡ some m) × FindsFrom found (suc i) ms

FindsFrom-agree :
    (f g : ℕ → Option GameMove) (i : ℕ) (ms : List GameMove)
    → ((k : ℕ) → i < k → g k ≡ f k)
    → FindsFrom f i ms
    → FindsFrom g i ms
FindsFrom-agree f g i [] same h = λ k l. same k l ∙ h k l
FindsFrom-agree f g i (m ∷ ms) same h = (
  same (suc i) (omega arith) ∙ h.0,
  FindsFrom-agree f g (suc i) ms (λ k l. same k (omega arith)) h.1,
)

Records-FindsFrom :
    (i : ℕ) (us : List String) (ms : List GameMove)
    → Records (suc i) us ms
    → FindsFrom (λ k. last_of k (entries ms)) i ms
Records-FindsFrom i [] [] r = λ k l. refl
Records-FindsFrom i [] (m ∷ ms) r = elim r [ ]
Records-FindsFrom i (u ∷ us) [] r = elim r [ ]
Records-FindsFrom i (u ∷ us) (m ∷ ms) r = (
  ground (arith, last_of_before (suc i) (suc (suc i)) us ms r.2 (omega arith)),
  FindsFrom-agree (λ k. last_of k (entries ms)) (λ k. last_of k (entries (m ∷ ms))) (suc i) ms
      (λ k l. ground (arith, or_else-none (last_of k (entries ms))))
      (Records-FindsFrom (suc i) us ms r.2),
)

module _ (white black : Option GamePlayer) where
  abbrev keep_from : (ℕ → Option GameMove) → ℕ → List String → List GameMove
  keep_from found = map_idx (λ i uci. keep_or_make white black (found (suc i)) (suc i) uci)

  keep_or_make-uci :
      (o : Option GameMove) (n : ℕ) (u : String) → (keep_or_make white black o n u).uci ≡ u
  unfolding keep_or_make
  keep_or_make-uci none n u = refl
  keep_or_make-uci (some m) n u = ground (arith, eq_iff m.uci u)

  keep_or_make-number :
      (o : Option GameMove) (n : ℕ) (u : String)
      → ((m : GameMove) → o ≡ some m → m.move_number ≡ n)
      → (keep_or_make white black o n u).move_number ≡ n
  unfolding keep_or_make
  keep_or_make-number none n u h = refl
  keep_or_make-number (some m) n u h = ground (arith, h m refl)

  keep_or_make_same :
      (m : GameMove) (n : ℕ) (u : String) → m.uci ≡ u → keep_or_make white black (some m) n u ≡ m
  unfolding keep_or_make
  keep_or_make_same m n u h = ground (arith, eq_iff m.uci u)

  keep_or_make-none :
      (n : ℕ) (u : String) → keep_or_make white black none n u ≡ fallback white black none n u
  unfolding keep_or_make
  keep_or_make-none n u = refl

  keep_from-Records :
      (found : ℕ → Option GameMove) (i : ℕ) (us : List String)
      → ((k : ℕ) (m : GameMove) → found k ≡ some m → m.move_number ≡ k)
      → Records (suc i) us (keep_from found i us)
  keep_from-Records found i [] h = tt
  keep_from-Records found i (u ∷ us) h = (
    keep_or_make-number (found (suc i)) (suc i) u (h (suc i)),
    keep_or_make-uci (found (suc i)) (suc i) u,
    keep_from-Records found (suc i) us h,
  )

  -- Whatever moves the store had before, the result has one move for each entry of the history, in
  -- order, numbered from 1, each with the text of its entry.
  pub build_move_fallbacks-Records :
      (history : List String) (existing : List GameMove)
      → Records 1 history (build_move_fallbacks history white black existing)
  unfolding build_move_fallbacks
  build_move_fallbacks-Records history existing =
      keep_from-Records (λ k. lookup k (existing_by_number existing)) 0 history
        (λ k m e. last_of-move_number k m existing (sym (lookup-existing k existing) ∙ e))

  -- The moves that are made for texts of which nothing is known, numbered from `i + 1`.
  abbrev pub fresh : ℕ → List String → List GameMove
  fresh = map_idx (λ i uci. fallback white black none (suc i) uci)

  keep_from-fresh :
      (found : ℕ → Option GameMove) (i : ℕ) (us : List String)
      → ((k : ℕ) → i < k → found k ≡ none)
      → keep_from found i us ≡ fresh i us
  keep_from-fresh found i [] h = refl
  keep_from-fresh found i (u ∷ us) h = cc (
    h (suc i) (omega arith),
    keep_or_make-none (suc i) u,
    keep_from-fresh found (suc i) us (λ k l. h k (omega arith)),
  )

  keep_from-append :
      (found : ℕ → Option GameMove) (i : ℕ) (us new : List String) (ms : List GameMove)
      → Records (suc i) us ms
      → FindsFrom found i ms
      → keep_from found i (us ++ new) ≡ ms ++ fresh (i + length us) new
  keep_from-append found i [] new [] r f = rw add-zero (keep_from-fresh found i new f)
  keep_from-append found i [] new (m ∷ ms) r f = elim r [ ]
  keep_from-append found i (u ∷ us) new [] r f = elim r [ ]
  keep_from-append found i (u ∷ us) new (m ∷ ms) r f = rw add-suc (
      cc (
        f.0,
        keep_or_make_same m (suc i) u r.1,
        keep_from-append found (suc i) us new ms r.2 f.1,
        suc-add i (length us),
      ))

  -- Where the store's moves stand for the history, they are all kept as they are, and each further
  -- entry of the history gets a move made for it.
  pub build_move_fallbacks-append :
      (history new : List String) (existing : List GameMove)
      → Records 1 history existing
      → build_move_fallbacks (history ++ new) white black existing
        ≡ existing ++ fresh (length history) new
  unfolding build_move_fallbacks
  build_move_fallbacks-append history new existing r =
      keep_from-append (λ k. lookup k (existing_by_number existing)) 0 history new existing r
        (FindsFrom-agree (λ k. last_of k (entries existing)) _ 0 existing
          (λ k _. lookup-existing k existing) (Records-FindsFrom 0 history existing r))
      ∙ ap (λ n. existing ++ fresh n new) (omega arith)

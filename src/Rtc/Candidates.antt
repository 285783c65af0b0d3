-- ===== src/Rtc/Candidates.antt =====
-- What becomes of the candidates and the tracks of a peer connection,
-- frontend/src/shared/lib/webrtc.ts.
use chessview.Common.{
  ℕ, zero, suc, ◌+◌, ◌≡◌, refl, String, Bool, true, false, ◌||◌, List, [], ◌∷◌, ◌++◌, any, ◌==◌,
  str_eq, eq_iff, arith, if◌then◌else◌,
}
use chessview.Common.Splits.{if_split}
use chessview.Rtc.{Track}
use chessview.Rtc.Peer.{
  Peer, new_peer, describe, start_flush, add_ice_candidate, continue_flush, turn, turn_at, on_track,
}

pub data Step : Type 0 where
  described flushed : Step
  candidate : ℕ → Step
  continued : ℕ → Step

-- How often a candidate is in a list.
abbrev pub times : ℕ → List ℕ → ℕ
times c [] = 0
times c (d ∷ ds) = if d == c then suc (times c ds) else times c ds

abbrev pub times_in : ℕ → List (List ℕ) → ℕ
times_in c [] = 0
times_in c (l ∷ ls) = times c l + times_in c ls

times-append : (c : ℕ) (a b : List ℕ) → times c (a ++ b) ≡ times c a + times c b
times-append c [] b = omega arith
times-append c (d ∷ a) b = ground (arith, times-append c a b)

times_in-append :
    (c : ℕ) (a : List (List ℕ)) (b : List ℕ) → times_in c (a ++ b ∷ []) ≡ times_in c a + times c b
times_in-append c [] b = omega arith
times_in-append c (d ∷ a) b = omega (arith, times_in-append c a b)

-- How often a candidate is somewhere in the peer.
abbrev pub settled : ℕ → Peer → ℕ
settled c p = times c p.applied + times c p.refused + times c p.lost

abbrev pub waiting : ℕ → Peer → ℕ
waiting c p = times c p.pending + times_in c p.loops

module _ (accepts : ℕ → Bool) where
  unfoldable pub step : Step → Peer → Peer
  step described = describe
  step flushed = start_flush
  step (candidate c) = add_ice_candidate accepts c
  step (continued i) = continue_flush accepts i

  unfoldable pub run : List Step → Peer → Peer
  run [] p = p
  run (s ∷ steps) p = run steps (step s p)

  -- How often a candidate came.
  abbrev pub arrivals : ℕ → List Step → ℕ
  arrivals c [] = 0
  arrivals c (described ∷ steps) = arrivals c steps
  arrivals c (flushed ∷ steps) = arrivals c steps
  arrivals c (candidate d ∷ steps) = if d == c then suc (arrivals c steps) else arrivals c steps
  arrivals c (continued i ∷ steps) = arrivals c steps

  turn-times :
      (c : ℕ) (l : List ℕ) (p : Peer)
      → times c (turn accepts l p).0 + settled c (turn accepts l p).1 ≡ times c l + settled c p
  turn-times c [] p = omega arith
  turn-times c (d ∷ l) p = ground (
    arith,
    times-append c p.applied (d ∷ []),
    times-append c p.refused (d ∷ []),
    times-append c p.lost l,
  )

  turn_at-times :
      (c i : ℕ) (ls : List (List ℕ)) (p : Peer)
      → times_in c (turn_at accepts i ls p).0 + settled c (turn_at accepts i ls p).1
        ≡ times_in c ls + settled c p
  turn_at-times c i [] p = omega arith
  turn_at-times c zero (l ∷ ls) p = omega (arith, turn-times c l p)
  turn_at-times c (suc i) (l ∷ ls) p = omega (arith, turn_at-times c i ls p)

  turn_at-pending :
      (i : ℕ) (ls : List (List ℕ)) (p : Peer) → (turn_at accepts i ls p).1.pending ≡ p.pending
  turn_at-pending i [] p = refl
  turn_at-pending zero ([] ∷ ls) p = refl
  turn_at-pending zero ((c ∷ l) ∷ ls) p = ground arith
  turn_at-pending (suc i) (l ∷ ls) p = turn_at-pending i ls p

  step-times :
      (c : ℕ) (s : Step) (p : Peer)
      → waiting c (step s p) + settled c (step s p)
        ≡ waiting c p + settled c p + arrivals c (s ∷ [])
  unfolding step describe start_flush add_ice_candidate continue_flush
  step-times c described p = omega arith
  step-times c flushed p = ground (arith, times_in-append c p.loops p.pending)
  step-times c (candidate d) p = ground (
    arith,
    times-append c p.applied (d ∷ []),
    times-append c p.refused (d ∷ []),
    times-append c p.pending (d ∷ []),
  )
  step-times c (continued i) p =
      ground (arith, turn_at-times c i p.loops p, turn_at-pending i p.loops p)

  arrivals-cons :
      (c : ℕ) (s : Step) (steps : List Step)
      → arrivals c (s ∷ steps) ≡ arrivals c (s ∷ []) + arrivals c steps
  arrivals-cons c described steps = omega arith
  arrivals-cons c flushed steps = omega arith
  arrivals-cons c (candidate d) steps = ground arith
  arrivals-cons c (continued i) steps = omega arith

  -- No candidate is forgotten or applied twice: after any steps from a peer, each candidate is as often
  -- waiting, applied, refused or lost as it was before them and came in them.
  pub run-times :
      (c : ℕ) (steps : List Step) (p : Peer)
      → waiting c (run steps p) + settled c (run steps p)
        ≡ waiting c p + settled c p + arrivals c steps
  unfolding run
  run-times c [] p = omega arith
  run-times c (s ∷ steps) p =
      omega (arith, run-times c steps (step s p), step-times c s p, arrivals-cons c s steps)

  module _ (accepts_all : (c : ℕ) → accepts c ≡ true) where
    -- Nothing was refused or lost.
    abbrev IsClean : Peer → Type 0
    IsClean p = (p.refused ≡ []) × (p.lost ≡ [])

    turn_at-IsClean :
        (i : ℕ) (ls : List (List ℕ)) (p : Peer) → IsClean p → IsClean (turn_at accepts i ls p).1
    turn_at-IsClean i [] p h = h
    turn_at-IsClean zero ([] ∷ ls) p h = h
    turn_at-IsClean zero ((c ∷ l) ∷ ls) p h = ground (arith, accepts_all c, h)
    turn_at-IsClean (suc i) (l ∷ ls) p h = turn_at-IsClean i ls p h

    step-IsClean : (s : Step) (p : Peer) → IsClean p → IsClean (step s p)
    unfolding step describe start_flush add_ice_candidate continue_flush
    step-IsClean described p h = h
    step-IsClean flushed p h = ground (arith, h)
    step-IsClean (candidate d) p h = ground (arith, h, accepts_all d)
    step-IsClean (continued i) p h = turn_at-IsClean i p.loops p h

    run-IsClean : (steps : List Step) (p : Peer) → IsClean p → IsClean (run steps p)
    unfolding run
    run-IsClean [] p h = h
    run-IsClean (s ∷ steps) p h = run-IsClean steps (step s p) (step-IsClean s p h)

    -- Where the browser accepts every candidate and none is waiting any more, each one that came was
    -- applied, as often as it came, in whatever order the descriptions, the candidates and the turns
    -- of the loops were.
    pub run-applied :
        (c : ℕ) (steps : List Step)
        → waiting c (run steps new_peer) ≡ 0
        → times c (run steps new_peer).applied ≡ arrivals c steps
    run-applied c steps h =
        let clean = run-IsClean steps new_peer (refl, refl) in
        ground (arith, h, run-times c steps new_peer, clean)

-- The ids of the tracks are different from each other.
abbrev pub IsDistinct : List Track → Type 0
IsDistinct [] = Unit
IsDistinct (t ∷ ts) = (any (λ (u : Track). str_eq u.id t.id) ts ≡ false) × IsDistinct ts

abbrev has_id : String → List Track → Bool
has_id x = any (λ (u : Track). str_eq u.id x)

str_eq-sym : (a b : String) → str_eq a b ≡ false → str_eq b a ≡ false
str_eq-sym a b h = ground (arith, h, eq_iff a b, eq_iff b a)

has_id-append :
    (x : String) (ts : List Track) (t : Track)
    → has_id x (ts ++ t ∷ []) ≡ (has_id x ts || str_eq t.id x)
has_id-append x [] t = ground arith
has_id-append x (u ∷ ts) t = ground (arith, has_id-append x ts t)

append-IsDistinct :
    (ts : List Track) (t : Track)
    → IsDistinct ts
    → has_id t.id ts ≡ false
    → IsDistinct (ts ++ t ∷ [])
append-IsDistinct [] t h k = (refl, tt)
append-IsDistinct (u ∷ ts) t h k =
    ground (arith, h, k, has_id-append u.id ts t, append-IsDistinct ts t h.1, str_eq-sym u.id t.id)

-- The remote stream has each track once, however often the tracks of the other side are reported.
pub on_track-IsDistinct :
    (present tracks : List Track) → IsDistinct present → IsDistinct (on_track present tracks)
unfolding on_track
on_track-IsDistinct present [] h = h
on_track-IsDistinct present (t ∷ tracks) h =
    on_track-IsDistinct
      (if any (λ existing. str_eq existing.id t.id) present then present else present ++ t ∷ [])
      tracks
      (if_split IsDistinct (has_id t.id present) _ _ (λ e. h)
        (λ e. append-IsDistinct present t h e))

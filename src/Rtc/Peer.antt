-- ===== src/Rtc/Peer.antt =====
-- The peer connection, frontend/src/shared/lib/webrtc.ts. The browser's RTCPeerConnection is a
-- parameter as far as this code sees it: whether it has a remote description, and which candidates it
-- accepts. What happens is a sequence of steps between which other code may run.
use chessview.Common.{
  ℕ, suc, String, Bool, true, false, not, ◌&&◌, ◌||◌, Option, none, some, List, [], ◌∷◌, ◌++◌, any,
  filter, str_eq, if◌then◌else◌,
}
use chessview.Common.Text.{truthy?}
use chessview.Rtc.{Track}

-- `candidates` are numbers. `loops` are the loops of `flushPendingCandidates` that wait, each with
-- the candidates it still has; `applied` are those that the browser accepted, `refused` those it
-- refused, and `lost` those that were left in a loop that ended with an exception.
pub record Peer : Type 0 where
  pub has_remote : Bool
  pub pending : List ℕ
  pub loops : List (List ℕ)
  pub applied : List ℕ
  pub refused : List ℕ
  pub lost : List ℕ

abbrev pub new_peer : Peer
new_peer = record {
  has_remote = false;
  pending = [];
  loops = [];
  applied = [];
  refused = [];
  lost = [];
}

-- `pc.setRemoteDescription` has succeeded.
unfoldable pub describe : Peer → Peer
describe p = record p { has_remote = true }

abbrev is_empty : List ℕ → Bool
is_empty [] = true
is_empty (c ∷ cs) = false

-- The front of `flushPendingCandidates`, as far as its loop.
unfoldable pub start_flush : Peer → Peer
start_flush p =
    if not p.has_remote || is_empty p.pending
    then p
    else record p { pending = []; loops = p.loops ++ p.pending ∷ [] }

module _ (accepts : ℕ → Bool) where
  -- `await this.pc.addIceCandidate(candidate)`
  abbrev pub apply_candidate : ℕ → Peer → Peer
  apply_candidate c p =
      if accepts c
      then record p { applied = p.applied ++ c ∷ [] }
      else record p { refused = p.refused ++ c ∷ [] }

  -- `addIceCandidate`
  unfoldable pub add_ice_candidate : ℕ → Peer → Peer
  add_ice_candidate c p =
      if not p.has_remote then record p { pending = p.pending ++ c ∷ [] } else apply_candidate c p

  -- One turn of a loop: the candidates that it still has, and what becomes of the peer.
  abbrev pub turn : List ℕ → Peer → List ℕ × Peer
  turn [] p = ([], p)
  turn (c ∷ cs) p =
      let after = apply_candidate c p in
      if accepts c then (cs, after) else ([], record after { lost = p.lost ++ cs })

  -- The loop at an index has its next turn.
  abbrev pub turn_at : ℕ → List (List ℕ) → Peer → List (List ℕ) × Peer
  turn_at i [] p = ([], p)
  turn_at ℕ.zero (l ∷ ls) p = let (rest, after) = turn l p in (rest ∷ ls, after)
  turn_at (suc i) (l ∷ ls) p = let (rest, after) = turn_at i ls p in (l ∷ rest, after)

  unfoldable pub continue_flush : ℕ → Peer → Peer
  continue_flush i p = let (loops, after) = turn_at i p.loops p in record after { loops = loops }

-- The tracks that are sent and received.
-- `attachLocalStream`, given the ids of the senders' tracks: the tracks it adds.
unfoldable pub attach_local_stream : List (Option String) → List Track → List Track
attach_local_stream senders tracks =
    filter
      (λ track. not (
        any (λ s. elim s [ none ↦ false | some id ↦ truthy? (some id) && str_eq id track.id ])
          senders))
      tracks

-- `pc.ontrack`: the tracks of the remote stream behind the event.
unfoldable pub on_track : List Track → List Track → List Track
on_track present [] = present
on_track present (track ∷ tracks) =
    on_track
      (if any (λ existing. str_eq existing.id track.id) present
        then present
        else present ++ track ∷ [])
      tracks

-- ===== src/Ws/Dispatch.antt =====
-- The event handlers of the WebSocket client, frontend/src/shared/api/ws.ts: `on`, the function
-- that it returns, and `onmessage`. A handler is a number, since a Set compares by identity; the
-- map from event types to sets is a function, empty where the map has no key. `JSON.parse` is the
-- parameter `parse`, `none` where it throws. A handler that throws is caught, so each call is one
-- entry of the result.
use mathlib.Core.Logic.{ite, if_pos, if_neg}
use chessview.Common.{
  ℕ, String, ◌≡◌, refl, Bool, true, false, Option, none, some, List, [], ◌∷◌, ◌++◌, map, arith, any,
  ◌==◌, if◌then◌else◌, suc, ltb, Bool-cases, inl, inr, ◌∙◌,
}
use chessview.Types.Events.{EventType, EventType-discrete, WsEnvelope}
use chessview.Ws.{Client, add, delete}
use chessview.Ws.Events.{is_current}

abbrev pub Registry : Type 0
Registry = EventType → List ℕ

unfoldable pub on : EventType → ℕ → Registry → Registry
on t h r u = ite (EventType-discrete u t) (add h (r u)) (r u)

-- The function that `on` returns.
unfoldable pub off : EventType → ℕ → Registry → Registry
off t h r u = ite (EventType-discrete u t) (delete h (r u)) (r u)

calls : {P : Type 0} → Registry → Option (WsEnvelope P) → List (ℕ × WsEnvelope P)
calls r none = []
calls r (some envelope) = map (λ h. (h, envelope)) (r envelope.kind)

module _ {P : Type 0} (parse : String → Option (WsEnvelope P)) where
  -- `socket.onmessage`: the calls of handlers, in order.
  unfoldable pub on_message : ℕ → String → Client → Registry → List (ℕ × WsEnvelope P)
  unfolding calls
  on_message i text c r = if is_current i c then calls r (parse text) else []

-- How often a handler is called, and how often it stands in a set.
abbrev pub times {ℓ} : {A : Type ℓ} → ℕ → List (ℕ × A) → ℕ
times h [] = 0
times h ((k, e) ∷ cs) = if k == h then suc (times h cs) else times h cs

abbrev count : ℕ → List ℕ → ℕ
count h [] = 0
count h (k ∷ ks) = if k == h then suc (count h ks) else count h ks

pub data Op : Type 0 where
  on_call : EventType → ℕ → Op
  off_call : EventType → ℕ → Op

-- The registry after some calls, and whether the latest call for a type and a handler is `on`. The
-- latest call stands first.
unfoldable pub registry : List Op → Registry
registry [] = λ _. []
registry (on_call t h ∷ ops) = on t h (registry ops)
registry (off_call t h ∷ ops) = off t h (registry ops)

abbrev pub is_registered : EventType → ℕ → List Op → Bool
is_registered u k [] = false
is_registered u k (on_call t h ∷ ops) =
    ite (EventType-discrete u t) (if h == k then true else is_registered u k ops)
      (is_registered u k ops)
is_registered u k (off_call t h ∷ ops) =
    ite (EventType-discrete u t) (if h == k then false else is_registered u k ops)
      (is_registered u k ops)

abbrev pub once : Bool → ℕ
once true = 1
once false = 0

times-map : {A : Type 0} (h : ℕ) (e : A) (ks : List ℕ) → times h (map (λ k. (k, e)) ks) ≡ count h ks
times-map h e [] = refl
times-map h e (k ∷ ks) = ground (arith, times-map h e ks)

count-append :
    (h k : ℕ) (ks : List ℕ)
    → count h (ks ++ k ∷ []) ≡ (if k == h then suc (count h ks) else count h ks)
count-append h k [] = refl
count-append h k (x ∷ ks) = ground (arith, count-append h k ks)

any-count : (h : ℕ) (ks : List ℕ) → any (λ x. x == h) ks ≡ ltb 0 (count h ks)
any-count h [] = refl
any-count h (k ∷ ks) = ground (arith, any-count h ks)

count-add :
    (h k : ℕ) (ks : List ℕ) (b : Bool)
    → count h ks ≡ once b
    → count h (add k ks) ≡ once (if k == h then true else b)
count-add h k ks b e = ground (arith, count-append h k ks, any-count k ks)

count-delete : (h k : ℕ) (ks : List ℕ) → count h (delete k ks) ≡ (if k == h then 0 else count h ks)
count-delete h k [] = ground arith
count-delete h k (x ∷ ks) = ground (arith, count-delete h k ks)

count-registry :
    (u : EventType) (h : ℕ) (ops : List Op)
    → count h (registry ops u) ≡ once (is_registered u h ops)
unfolding registry on off
count-registry u h [] = refl
count-registry u h (on_call t k ∷ ops) = elim (EventType-discrete u t) [
  | yes e ↦ rw (if_pos _ e, if_pos _ e) (count-add h k (registry ops u) _ (count-registry u h ops))
  | no e ↦ rw (if_neg _ e, if_neg _ e) (count-registry u h ops)
]
count-registry u h (off_call t k ∷ ops) = elim (EventType-discrete u t) [
  | yes e ↦
      rw (if_pos _ e, if_pos _ e)
        (ground (arith, count-delete h k (registry ops u), count-registry u h ops))
  | no e ↦ rw (if_neg _ e, if_neg _ e) (count-registry u h ops)
]

-- How often a handler is to be called for a parsed message.
abbrev pub due : {P : Type 0} → ℕ → List Op → Option (WsEnvelope P) → ℕ
due h ops none = 0
due h ops (some envelope) = once (is_registered envelope.kind h ops)

times-calls :
    {P : Type 0} (h : ℕ) (ops : List Op) (o : Option (WsEnvelope P))
    → times h (calls (registry ops) o) ≡ due h ops o
unfolding calls
times-calls h ops none = refl
times-calls h ops (some e) = times-map h e (registry ops e.kind) ∙ count-registry e.kind h ops

-- A message on the client's own socket calls a handler once if the latest of the calls of `on` and
-- of the functions that it returned, for the message's type and this handler, is one of `on`, and
-- does not call it otherwise. A text that is no message, and any text on another socket, calls none.
pub on_message-times :
    {P : Type 0} (parse : String → Option (WsEnvelope P)) (ops : List Op) (i h : ℕ) (text : String)
    (c : Client)
    → times h (on_message parse i text c (registry ops))
      ≡ (if is_current i c then due h ops (parse text) else 0)
unfolding on_message
on_message-times parse ops i h text c = elim (Bool-cases (is_current i c)) [
  | inl current ↦ rw current (times-calls h ops (parse text))
  | inr stale ↦ rw stale
]

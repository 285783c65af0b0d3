-- ===== src/Messages/Laws.antt =====
-- What the message store of frontend/src/entities/message/model.ts keeps.
use chessview.Common.{
  ℕ, suc, ◌<◌, String, ◌≡◌, ◌≢◌, refl, sym, leb, ap, ◌∙◌, Option, none, some, List, [], ◌∷◌, ◌++◌,
  map, arith, ◌==◌, Option-cases, inl, inr, ◌or_else◌, or_else-none, if◌then◌else◌,
}
use mathlib.Core.List.{append_assoc, append-nil}
use chessview.Common.Int.{pos, leb_ℤ, ◌-ℤ◌}
use chessview.Common.NatMap.{last_of, insert_all, values, lookup-insert_all}
use chessview.Common.Keyed.{
  find_by, IsIncreasing, insert_all-IsMap, find_by-values, values-IsDistinct, find_by-sort,
  sort-IsIncreasing, IsIncreasing-ext,
}
use chessview.Messages.{
  ChatMessage, MessageState, message_order, normalize_messages, add_message, set_messages,
  initial_state,
}

abbrev pub id_of : ChatMessage → ℕ
id_of m = m.id

-- The last message with the id.
abbrev pub last_with : ℕ → List ChatMessage → Option ChatMessage
last_with k [] = none
last_with k (m ∷ ms) = last_with k ms or_else (if m.id == k then some m else none)

last_of-entries :
    (k : ℕ) (ms : List ChatMessage) → last_of k (map (λ m. (m.id, m)) ms) ≡ last_with k ms
last_of-entries k [] = refl
last_of-entries k (m ∷ ms) = rw (last_of-entries k ms)

last_with-append :
    (k : ℕ) (xs ys : List ChatMessage)
    → last_with k (xs ++ ys) ≡ (last_with k ys or_else last_with k xs)
last_with-append k [] ys = sym (or_else-none (last_with k ys))
last_with-append k (x ∷ xs) ys = ground (arith, last_with-append k xs ys)

last_with_below :
    (k n : ℕ) (xs : List ChatMessage) → k < n → IsIncreasing id_of n xs → last_with k xs ≡ none
last_with_below k n [] l h = refl
last_with_below k n (x ∷ xs) l h = ground (arith, last_with_below k (suc x.id) xs (omega arith) h.1)

last_with-IsIncreasing :
    (k n : ℕ) (xs : List ChatMessage)
    → IsIncreasing id_of n xs
    → last_with k xs ≡ find_by id_of k xs
last_with-IsIncreasing k n [] h = refl
last_with-IsIncreasing k n (x ∷ xs) h =
    ground (arith, last_with-IsIncreasing k (suc x.id) xs h.1, last_with_below k (suc x.id) xs)

module _ (time_of : String → ℕ) where
  message_order-agrees :
      (a b : ChatMessage) → a.id ≢ b.id → leb_ℤ (message_order time_of a b) (pos 0) ≡ leb a.id b.id
  unfolding message_order ◌-ℤ◌
  message_order-agrees a b h = ground arith

  -- The normal form is in the order of the ids, each id once, and has for each id the last message
  -- that was given with it.
  pub normalize_messages_lem :
      (ms : List ChatMessage)
      → IsIncreasing id_of 0 (normalize_messages time_of ms)
        × ((k : ℕ) → find_by id_of k (normalize_messages time_of ms) ≡ last_with k ms)
  unfolding normalize_messages
  normalize_messages_lem ms =
      let m : List (ℕ × ChatMessage) = insert_all [] (map (λ m. (m.id, m)) ms) in
      let valid = insert_all-IsMap id_of [] ms tt in
      let distinct = values-IsDistinct id_of m valid in
      (
        sort-IsIncreasing id_of (message_order time_of) message_order-agrees (values m) distinct,
        λ k.
            find_by-sort id_of (message_order time_of) message_order-agrees k (values m) distinct
            ∙ find_by-values id_of k m valid
            ∙ lookup-insert_all k [] (map (λ m. (m.id, m)) ms)
            ∙ or_else-none (last_of k (map (λ m. (m.id, m)) ms))
            ∙ last_of-entries k ms,
      )

  -- Two lists in which each id has the same last message have the same normal form.
  pub normalize_messages-ext :
      (xs ys : List ChatMessage)
      → ((k : ℕ) → last_with k xs ≡ last_with k ys)
      → normalize_messages time_of xs ≡ normalize_messages time_of ys
  normalize_messages-ext xs ys same =
      let (up, finds) = normalize_messages_lem xs in
      let (up', finds') = normalize_messages_lem ys in
      IsIncreasing-ext id_of 0 (normalize_messages time_of xs) (normalize_messages time_of ys) up
        up' (λ k. finds k ∙ same k ∙ sym (finds' k))

  last_with-normalize_messages :
      (k : ℕ) (ms : List ChatMessage) → last_with k (normalize_messages time_of ms) ≡ last_with k ms
  last_with-normalize_messages k ms =
      let (up, finds) = normalize_messages_lem ms in
      last_with-IsIncreasing k 0 (normalize_messages time_of ms) up ∙ finds k

  -- Normalising in steps, as the messages come in, is normalising all of them at once.
  pub normalize_messages-append :
      (xs ys : List ChatMessage)
      → normalize_messages time_of (normalize_messages time_of xs ++ ys)
        ≡ normalize_messages time_of (xs ++ ys)
  normalize_messages-append xs ys =
      normalize_messages-ext (normalize_messages time_of xs ++ ys) (xs ++ ys) (λ k.
        (last_with-append k (normalize_messages time_of xs) ys
          ∙ ap (λ o. last_with k ys or_else o) (last_with-normalize_messages k xs)
          ∙ sym (last_with-append k xs ys)))

  -- A live message may come before or after the stored ones are loaded: the messages shown are the
  -- same, if the stored ones have no other message under its id.
  pub add_message-set_messages :
      (m : ChatMessage) (stored : List ChatMessage) (s : MessageState)
      → ((m' : ChatMessage) → last_with m.id stored ≡ some m' → m' ≡ m)
      → (set_messages time_of stored (add_message time_of m s)).messages
        ≡ (add_message time_of m (set_messages time_of stored s)).messages
  unfolding add_message set_messages
  add_message-set_messages m stored s known =
      normalize_messages-append (s.messages ++ m ∷ []) stored
      ∙ normalize_messages-ext _ _ (λ k. commute k)
      ∙ sym (normalize_messages-append (s.messages ++ stored) (m ∷ []))
    where
      commute :
          (k : ℕ)
          → last_with k ((s.messages ++ m ∷ []) ++ stored)
            ≡ last_with k ((s.messages ++ stored) ++ m ∷ [])
      commute k = elim (Option-cases (last_with k stored)) [
        | inl missing ↦ ground (
          arith,
          last_with-append k (s.messages ++ m ∷ []) stored,
          last_with-append k s.messages (m ∷ []),
          last_with-append k (s.messages ++ stored) (m ∷ []),
          last_with-append k s.messages stored,
        )
        | inr (m', e) ↦ ground (
          arith,
          last_with-append k (s.messages ++ m ∷ []) stored,
          last_with-append k s.messages (m ∷ []),
          last_with-append k (s.messages ++ stored) (m ∷ []),
          last_with-append k s.messages stored,
          known m',
        )
      ]

-- What reaches a room: a live message, or a list of stored ones.
pub data Arrival : Type 0 where
  live : ChatMessage → Arrival
  loaded : List ChatMessage → Arrival

abbrev pub received : List Arrival → List ChatMessage
received [] = []
received (live m ∷ as') = m ∷ received as'
received (loaded ms ∷ as') = ms ++ received as'

module _ (time_of : String → ℕ) where
  unfoldable pub arrive : List Arrival → MessageState → MessageState
  arrive [] s = s
  arrive (live m ∷ as') s = arrive as' (add_message time_of m s)
  arrive (loaded ms ∷ as') s = arrive as' (set_messages time_of ms s)

  arrive_from :
      (as' : List Arrival) (xs : List ChatMessage) (s : MessageState)
      → s.messages ≡ normalize_messages time_of xs
      → (arrive as' s).messages ≡ normalize_messages time_of (xs ++ received as')
  unfolding arrive add_message set_messages
  arrive_from [] xs s e = rw append-nil e
  arrive_from (live m ∷ as') xs s e =
      arrive_from as' (xs ++ m ∷ []) (add_message time_of m s)
        (rw e (normalize_messages-append time_of xs (m ∷ [])))
      ∙ ap (normalize_messages time_of) (append_assoc xs (m ∷ []) (received as'))
  arrive_from (loaded ms ∷ as') xs s e =
      arrive_from as' (xs ++ ms) (set_messages time_of ms s)
        (rw e (normalize_messages-append time_of xs ms))
      ∙ ap (normalize_messages time_of) (append_assoc xs ms (received as'))

  -- After anything that reaches a new room, the messages shown are the normal form of all that
  -- were received, in the order in which they came.
  pub arrive-messages :
      (as' : List Arrival)
      → (arrive as' initial_state).messages ≡ normalize_messages time_of (received as')
  unfolding initial_state normalize_messages
  arrive-messages as' = arrive_from as' [] initial_state refl

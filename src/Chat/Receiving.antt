-- ===== src/Chat/Receiving.antt =====
-- What the callbacks of `useGameChat` show, frontend/src/features/send-chat-message/model.ts.
use chessview.Common.{
  ℕ, String, ◌≡◌, refl, ap, ◌∙◌, true, false, Option, some, List, [], ◌∷◌, arith, if◌then◌else◌,
  Bool-cases, inl, inr,
}
use chessview.Common.Text.{same}
use chessview.Types.{ChatMessagePayload, ErrorPayload}
use chessview.Messages.{
  MessageState, initial_state, add_message, set_messages, normalize_messages, set_error,
}
use chessview.Messages.Laws.{Arrival, received, arrive, arrive-messages}
use chessview.Chat.{Room, on_history, on_chat_message, on_chat_error, on_history_failed, dispose}

-- What reaches the callbacks of the effect before it is disposed of.
pub data Event : Type 0 where
  history : List ChatMessagePayload → Event
  history_failed : Option String → Event
  message : Option String → ChatMessagePayload → Event
  error : ErrorPayload → Event

module _ (time_of : String → ℕ) (game_id : String) where
  unfoldable pub step : Event → Room → Room
  step (history ms) r = on_history time_of ms r
  step (history_failed e) r = on_history_failed e r
  step (message from m) r = on_chat_message time_of game_id from m r
  step (error payload) r = on_chat_error payload r

  unfoldable pub run : List Event → Room → Room
  run [] r = r
  run (e ∷ es) r = run es (step e r)

  -- What the events bring to the room: the history, and the messages of its game.
  abbrev pub arrivals : List Event → List Arrival
  arrivals [] = []
  arrivals (history ms ∷ es) = Arrival.loaded ms ∷ arrivals es
  arrivals (history_failed e ∷ es) = arrivals es
  arrivals (message from m ∷ es) =
      let rest = arrivals es in if same from (some game_id) then Arrival.live m ∷ rest else rest
  arrivals (error payload ∷ es) = arrivals es

  step-is_disposed : (e : Event) (r : Room) → (step e r).is_disposed ≡ r.is_disposed
  unfolding step on_history on_history_failed on_chat_message on_chat_error
  step-is_disposed e r = ground arith

  on_history-messages :
      (ms : List ChatMessagePayload) (r : Room) (s : MessageState)
      → r.is_disposed ≡ false
      → r.messages.messages ≡ s.messages
      → (on_history time_of ms r).messages.messages ≡ (set_messages time_of ms s).messages
  unfolding on_history set_messages
  on_history-messages ms r s d h = rw (d, h)

  add_message-messages :
      (m : ChatMessagePayload) (r s : MessageState)
      → r.messages ≡ s.messages
      → (add_message time_of m r).messages ≡ (add_message time_of m s).messages
  unfolding add_message
  add_message-messages m r s h = rw h

  on_chat_message_ours :
      (from : Option String) (m : ChatMessagePayload) (r : Room) (s : MessageState)
      → same from (some game_id) ≡ true
      → r.messages.messages ≡ s.messages
      → (on_chat_message time_of game_id from m r).messages.messages
        ≡ (add_message time_of m s).messages
  unfolding on_chat_message
  on_chat_message_ours from m r s ours h = rw ours (add_message-messages m r.messages s h)

  on_chat_message_other :
      (from : Option String) (m : ChatMessagePayload) (r : Room)
      → same from (some game_id) ≡ false
      → on_chat_message time_of game_id from m r ≡ r
  unfolding on_chat_message
  on_chat_message_other from m r other = rw other refl

  on_history_failed-messages :
      (e : Option String) (r : Room)
      → (on_history_failed e r).messages.messages ≡ r.messages.messages
  unfolding on_history_failed set_error
  on_history_failed-messages e r = ground arith

  on_chat_error-messages :
      (payload : ErrorPayload) (r : Room)
      → (on_chat_error payload r).messages.messages ≡ r.messages.messages
  unfolding on_chat_error set_error
  on_chat_error-messages payload r = ground arith

  run_from :
      (es : List Event) (r : Room) (s : MessageState)
      → r.is_disposed ≡ false
      → r.messages.messages ≡ s.messages
      → (run es r).messages.messages ≡ (arrive time_of (arrivals es) s).messages
  unfolding run step arrive
  run_from [] r s d h = h
  run_from (history ms ∷ es) r s d h =
      run_from es (on_history time_of ms r) (set_messages time_of ms s)
        (step-is_disposed (history ms) r ∙ d) (on_history-messages ms r s d h)
  run_from (history_failed e ∷ es) r s d h =
      run_from es (on_history_failed e r) s (step-is_disposed (history_failed e) r ∙ d)
        (on_history_failed-messages e r ∙ h)
  run_from (message from m ∷ es) r s d h = elim (Bool-cases (same from (some game_id))) [
    | inl ours ↦ rw ours (
        run_from es (on_chat_message time_of game_id from m r) (add_message time_of m s)
          (step-is_disposed (message from m) r ∙ d) (on_chat_message_ours from m r s ours h))
    | inr other ↦ rw other (
        run_from es (on_chat_message time_of game_id from m r) s
          (step-is_disposed (message from m) r ∙ d)
          (ap (λ q. q.messages.messages) (on_chat_message_other from m r other) ∙ h))
  ]
  run_from (error payload ∷ es) r s d h =
      run_from es (on_chat_error payload r) s (step-is_disposed (error payload) r ∙ d)
        (on_chat_error-messages payload r ∙ h)

  -- From a room with no messages, and until the effect is disposed of, the messages shown are the
  -- normal form of those in the histories and of the live ones of the game, in the order in which
  -- they came: errors change none, and messages of other games are not shown.
  pub run-messages :
      (es : List Event) (r : Room)
      → r.is_disposed ≡ false
      → r.messages.messages ≡ []
      → (run es r).messages.messages ≡ normalize_messages time_of (received (arrivals es))
  unfolding initial_state
  run-messages es r d h = run_from es r initial_state d h ∙ arrive-messages time_of (arrivals es)

-- A response that comes after the effect was disposed of changes nothing.
pub on_history-dispose :
    (time_of : String → ℕ) (ms : List ChatMessagePayload) (failure : Option String) (r : Room)
    → (on_history time_of ms (dispose r) ≡ dispose r)
      × (on_history_failed failure (dispose r) ≡ dispose r)
unfolding on_history on_history_failed dispose
on_history-dispose time_of ms failure r = (refl, refl)

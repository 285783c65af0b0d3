-- ===== src/Examples/MessageExamples.antt =====
-- The theorems on the message store, frontend/src/entities/message/model.ts, at concrete inputs.
use chessview.Common.{ℕ, String, ◌≡◌, some, List, [], ◌∷◌}
use chessview.Common.Keyed.{find_by, IsIncreasing}
use chessview.Common.Text.{text_length}
use chessview.Messages.{ChatMessage, initial_state, normalize_messages}
use chessview.Messages.Laws.{
  id_of, last_with, Arrival, received, arrive, normalize_messages_lem, arrive-messages,
}

abbrev pub message : ℕ → String → ChatMessage
message id content = record {
  id = id;
  user_id = "u1";
  username = "anna";
  content = content;
  created_at = "2026-01-01";
}

abbrev pub stored : List ChatMessage
stored = message 2 "b" ∷ message 1 "a" ∷ message 2 "c" ∷ []

abbrev arrivals : List Arrival
arrivals = Arrival.live (message 3 "d") ∷ Arrival.loaded stored ∷ []

normalize_messages_lem_example :
    IsIncreasing id_of 0 (normalize_messages text_length stored)
    × ((k : ℕ) → find_by id_of k (normalize_messages text_length stored) ≡ last_with k stored)
normalize_messages_lem_example = normalize_messages_lem text_length stored

stored_lacks : (m : ChatMessage) → last_with 3 stored ≡ some m → m ≡ message 3 "d"
stored_lacks m h = absurd (cc h)

arrive-messages_example :
    (arrive text_length arrivals initial_state).messages
    ≡ normalize_messages text_length (received arrivals)
arrive-messages_example = arrive-messages text_length arrivals

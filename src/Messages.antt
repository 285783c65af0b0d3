-- ===== src/Messages.antt =====
-- The chat messages of a game, frontend/src/entities/message/model.ts. `time_of` stands for
-- `new Date(text).getTime()`, as a natural number.
pub mod Laws
use chessview.Common.{
  ℕ, String, ◌≡◌, Bool, true, false, Option, none, some, List, [], ◌∷◌, ◌++◌, map, ◌==◌, not,
  if◌then◌else◌,
}
use chessview.Common.Int.{ℤ, pos, ◌-ℤ◌}
use chessview.Common.NatMap.{insert_all, values}
use chessview.Common.Sort.{sort}
use chessview.Common.Text.{same}
use chessview.Types.{ChatMessagePayload}

-- `ChatMessage` has the fields of the payload.
abbrev pub ChatMessage : Type 0
ChatMessage = ChatMessagePayload

pub record MessageState : Type 0 where
  pub game_id : Option String
  pub messages : List ChatMessage
  pub is_loading : Bool
  pub error : Option String

unfoldable pub initial_state : MessageState
initial_state = record { game_id = none; messages = []; is_loading = false; error = none }

module _ (time_of : String → ℕ) where
  -- The comparator of `sort`.
  unfoldable pub message_order : ChatMessage → ChatMessage → ℤ
  message_order left right =
      if not (left.id == right.id)
      then pos left.id -ℤ pos right.id
      else pos (time_of left.created_at) -ℤ pos (time_of right.created_at)

  unfoldable pub normalize_messages : List ChatMessage → List ChatMessage
  normalize_messages messages =
      sort message_order (values (insert_all [] (map (λ m. (m.id, m)) messages)))

  unfoldable pub add_message : ChatMessage → MessageState → MessageState
  add_message payload s = record s {
    messages = normalize_messages (s.messages ++ payload ∷ []);
    error = none;
  }

  unfoldable pub set_messages : List ChatMessage → MessageState → MessageState
  set_messages messages s = record s {
    messages = normalize_messages (s.messages ++ messages);
    is_loading = false;
    error = none;
  }

unfoldable pub set_game_room : String → MessageState → MessageState
unfolding initial_state
set_game_room id s =
    if same s.game_id (some id) then s else record initial_state { game_id = some id }

unfoldable pub set_loading : Bool → MessageState → MessageState
set_loading loading s = record s { is_loading = loading }

unfoldable pub set_error : Option String → MessageState → MessageState
set_error error s = record s { error = error; is_loading = false }

unfoldable pub clear : MessageState → MessageState
clear s = initial_state

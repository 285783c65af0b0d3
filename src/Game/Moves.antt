-- ===== src/Game/Moves.antt =====
-- The players and the list of moves of the game store, frontend/src/entities/game/model.ts.
pub mod History
use chessview.Common.{
  ℕ, suc, ◌%◌, String, Option, none, some, List, [], map, ◌or◌, ◌==◌, str_eq, map_idx,
  if◌then◌else◌,
}
use chessview.Common.NatMap.{lookup, insert_all}
use chessview.Types.{PlayerSummary}

pub record GamePlayer : Type 0 where
  pub avatar_url : Option String
  pub id : String
  pub username : String
  pub rating : ℕ

pub record GameMove : Type 0 where
  pub move_number : ℕ
  pub uci : String
  pub username : String
  pub user_id : Option String
  pub fen_after : Option String
  pub created_at : Option String

unfoldable pub to_game_player : Option PlayerSummary → Option GamePlayer
to_game_player none = none
to_game_player (some p) = some (record {
  id = p.id;
  username = p.username;
  rating = p.rating;
  avatar_url = some (p.avatar_url or "");
})

-- The fields that are read behind `?.`.
abbrev username_of : Option GamePlayer → Option String
username_of none = none
username_of (some p) = some p.username

abbrev id_of : Option GamePlayer → Option String
id_of none = none
id_of (some p) = some p.id

abbrev fen_after_of : Option GameMove → Option String
fen_after_of none = none
fen_after_of (some m) = m.fen_after

abbrev created_at_of : Option GameMove → Option String
created_at_of none = none
created_at_of (some m) = m.created_at

-- `new Map(existingMoves.map((move) => [move.move_number, move]))`
abbrev pub existing_by_number : List GameMove → List (ℕ × GameMove)
existing_by_number moves = insert_all [] (map (λ m. (m.move_number, m)) moves)

abbrev pub player_of : Option GamePlayer → Option GamePlayer → ℕ → Option GamePlayer
player_of white black move_number = if move_number % 2 == 1 then white else black

-- The object that is made for a move of which the store has no record.
pub fallback : Option GamePlayer → Option GamePlayer → Option GameMove → ℕ → String → GameMove
fallback white black existing move_number uci = record {
  move_number = move_number;
  uci = uci;
  username =
      username_of (player_of white black move_number)
      or (if move_number % 2 == 1 then "White" else "Black");
  user_id = id_of (player_of white black move_number);
  fen_after = fen_after_of existing;
  created_at = created_at_of existing;
}

-- `existing && existing.uci === uci ? existing : ...`
keep_or_make : Option GamePlayer → Option GamePlayer → Option GameMove → ℕ → String → GameMove
unfolding fallback
keep_or_make white black none n uci = fallback white black none n uci
keep_or_make white black (some m) n uci =
    if str_eq m.uci uci then m else fallback white black (some m) n uci

unfoldable pub build_move_fallbacks :
    List String → Option GamePlayer → Option GamePlayer → List GameMove → List GameMove
unfolding keep_or_make
build_move_fallbacks history white black existing =
    map_idx
      (λ i uci. keep_or_make white black (lookup (suc i) (existing_by_number existing)) (suc i) uci)
      0 history

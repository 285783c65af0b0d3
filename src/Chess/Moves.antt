-- ===== src/Chess/Moves.antt =====
-- Moves and squares, frontend/src/shared/lib/chess.ts. A move in UCI notation is a text in which a
-- character is a code point.
pub mod Laws
use chessview.Common.{
  ℕ, String, Bool, true, false, not, ◌||◌, Option, none, some, List, [], ◌∷◌, map, any, find, ltb,
  ◌or◌, str_eq, is_some, if◌then◌else◌,
}
use chessview.Common.Text.{concat, take_text, drop_text, truthy, text_length}
use chessview.Types.{PlayerColor}
use chessview.Chess.{
  Fen, Color, Piece, Move, ParsedUciMove, ChessJs, Loaded, Throws, to_chess_color, ◌>>=◌,
}

-- `uci.slice(4, 5).toLowerCase()`, if it is "q", "r", "b" or "n".
promotion_of : String → Option String
promotion_of s =
    if str_eq s "q" || str_eq s "Q"
    then some "q"
    else if str_eq s "r" || str_eq s "R"
    then some "r"
    else if str_eq s "b" || str_eq s "B"
    then some "b"
    else if str_eq s "n" || str_eq s "N"
    then some "n"
    else none

unfoldable pub parse_uci_move : String → Option ParsedUciMove
unfolding promotion_of
parse_uci_move uci =
    if ltb (text_length uci) 4
    then none
    else some (record {
      from = take_text 2 uci;
      to = take_text 2 (drop_text 2 uci);
      promotion = promotion_of (take_text 1 (drop_text 4 uci));
    })

-- `${move.from}${move.to}${move.promotion ?? ""}`
abbrev pub uci_of : Move → String
uci_of m = concat m.from (concat m.to (m.promotion or ""))

unfoldable pub get_move_squares : Option String → Option (String × String)
get_move_squares none = none
get_move_squares (some uci) =
    if not (truthy uci) || ltb (text_length uci) 4
    then none
    else some (take_text 2 uci, take_text 2 (drop_text 2 uci))

-- `SandboxMove`
pub record SandboxMove : Type 0 where
  pub move_number : ℕ
  pub uci : String
  pub san : String
  pub fen_after : Fen

module _ (js : ChessJs) where
  open js use {
    load, set_turn, moves, move, fen as fen_after, history_length, get, is_check, turn, find_king,
  }

  -- `new Chess(fen)`
  abbrev new_chess : Fen → Throws js.Game
  new_chess f = elim (load f) [ Loaded.loaded g ↦ some g | Loaded.thrown message ↦ none ]

  build_preview_board : Fen → Option PlayerColor → Throws js.Game
  build_preview_board f none = new_chess f
  build_preview_board f (some color) = do
    game ← new_chess f
    some (set_turn (to_chess_color color) game)

  unfoldable pub get_moves_for_square : Fen → String → Option PlayerColor → Throws (List Move)
  unfolding build_preview_board
  get_moves_for_square f square color = do
    game ← build_preview_board f color
    some (moves game square)

  unfoldable pub is_legal_move : Fen → String → String → Option PlayerColor → Throws Bool
  is_legal_move f from to color = do
    ms ← get_moves_for_square f from color
    some (any (λ m. str_eq m.to to) ms)

  unfoldable pub get_legal_moves : Fen → String → Option PlayerColor → Throws (List String)
  get_legal_moves f square color = do
    ms ← get_moves_for_square f square color
    some (map (λ m. m.to) ms)

  unfoldable pub build_move_uci :
      Fen → String → String → Option PlayerColor → Throws (Option String)
  build_move_uci f from to color = do
    ms ← get_moves_for_square f from color
    some (elim (find (λ m. str_eq m.to to) ms) [ none ↦ none | some m ↦ some (uci_of m) ])

  color_of_piece : Option Piece → Option PlayerColor
  color_of_piece none = none
  color_of_piece (some p) =
      some (elim p.color [ Color.w ↦ PlayerColor.white | Color.b ↦ PlayerColor.black ])

  unfoldable pub get_square_color : Fen → String → Throws (Option PlayerColor)
  unfolding color_of_piece
  get_square_color f square = do game ← new_chess f; some (color_of_piece (get game square))

  first : List String → Option String
  first [] = none
  first (s ∷ ss) = some s

  unfoldable pub get_check_square : Fen → Throws (Option String)
  unfolding first
  get_check_square f = do
    game ← new_chess f
    some (if is_check game then first (find_king game (turn game)) else none)

  -- `tryApplyUciMove`: an exception of `game.move` is caught.
  unfoldable pub try_apply_uci_move : js.Game → String → Option (Move × js.Game)
  try_apply_uci_move game uci = elim (parse_uci_move uci) [ none ↦ none | some m ↦ move game m ]

  unfoldable pub apply_sandbox_move : Fen → String → Throws (Option SandboxMove)
  unfolding try_apply_uci_move
  apply_sandbox_move f uci = do
    game ← new_chess f
    some (elim (try_apply_uci_move game uci) [
      | none ↦ none
      | some (m, after) ↦ some (record {
        move_number = history_length after;
        uci = uci_of m;
        san = m.san;
        fen_after = fen_after after;
      })
    ])

  unfoldable pub apply_sandbox_move_from_squares :
      Fen → String → String → Option PlayerColor → Throws (Option SandboxMove)
  apply_sandbox_move_from_squares f from to color = do
    built ← build_move_uci f from to color
    elim built [
      | none ↦ some none
      | some uci ↦ if truthy uci then apply_sandbox_move f uci else some none
    ]

  unfoldable pub uci_to_san : Fen → String → Throws (Option String)
  unfolding try_apply_uci_move
  uci_to_san f uci = do
    game ← new_chess f
    some (elim (try_apply_uci_move game uci) [ none ↦ none | some (m, after) ↦ some m.san ])

  unfoldable pub is_playable_uci_move : Fen → String → Throws Bool
  unfolding try_apply_uci_move
  is_playable_uci_move f uci = do game ← new_chess f; some (is_some (try_apply_uci_move game uci))

  -- The loop of `formatPrincipalVariation`: it ends at the first move that cannot be made.
  sans_of : js.Game → List String → List String
  sans_of game [] = []
  sans_of game (uci ∷ ucis) = elim (try_apply_uci_move game uci) [
    | none ↦ []
    | some (m, after) ↦ m.san ∷ sans_of after ucis
  ]

  -- `sanMoves.join(" ")`
  abbrev join_spaced : List String → String
  join_spaced [] = ""
  join_spaced (s ∷ []) = s
  join_spaced (s ∷ t ∷ ss) = concat s (concat " " (join_spaced (t ∷ ss)))

  unfoldable pub format_principal_variation : Fen → List String → Throws String
  unfolding sans_of try_apply_uci_move
  format_principal_variation f [] = some ""
  format_principal_variation f (uci ∷ ucis) = do
    game ← new_chess f
    some (join_spaced (sans_of game (uci ∷ ucis)))

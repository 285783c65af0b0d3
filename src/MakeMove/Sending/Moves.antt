-- ===== src/MakeMove/Sending/Moves.antt =====
-- The parts of the handlers of frontend/src/features/make-move/index.ts that send a move.
use mathlib.Core.Path.{subst}
use chessview.Common.{
  String, ◌≡◌, refl, ◌⊎◌, inl, inr, ap, Bool, true, false, not, Option, none, some, arith, is_some,
  if◌then◌else◌, ◌∙◌, Option-cases, Bool-cases,
}
use chessview.Common.Splits.{if_split}
use chessview.Common.Text.{codes, truthy}
use chessview.Types.{PlayerColor}
use chessview.Game.{GameState, clear_selection, clear_premove, set_error}
use chessview.Ws
use chessview.Ws.{Client, Message, ReadyState, current_is, is_open}
use chessview.Chess.{ChessJs, Throws}
use chessview.Chess.Moves.{build_move_uci}
use chessview.MakeMove.Turns.{
  Board, is_my_turn, illegal_move, ws_not_ready, move_message, edit, fail,
}
use chessview.MakeMove.{
  submit_move, after_send, clear_queued_move_on_interaction, select_square, show_targets, legal_uci,
  drop_move, click_move, click_premove, play_premove,
}

-- The client wrote one move: of the game, in the user's turn, and one that chess.js lists for the
-- position.
pub record SendsMove (js : ChessJs) (g : GameState) (c after : Client) : Type 0 where
  pub from : String
  pub to : String
  pub uci : String
  pub game_id : String
  pub turn : is_my_turn g ≡ true
  pub legal : build_move_uci js (codes g.fen) from to none ≡ some (some uci)
  pub in_game : g.game_id ≡ some game_id
  pub ready : current_is is_open c ≡ true
  pub written : after ≡ (Ws.send (move_message game_id uci) c).0

-- Either the client is as it was, or it wrote such a move.
abbrev pub KeepsOrSends : ChessJs → GameState → Client → Client → Type 0
KeepsOrSends js g c after = (after ≡ c) ⊎ SendsMove js g c after

send-cases : (m : Message) (c : Client) → (Ws.send m c ≡ (c, false)) ⊎ (current_is is_open c ≡ true)
unfolding Ws.send
send-cases m c = ground arith

after_send-client : (a s sent : Bool) (b : Board) → (after_send a s sent b).client ≡ b.client
after_send-client a s sent b = ground arith

-- The premove effect behind `buildMoveUci`.
abbrev played : String → Board → Option String → Board
played id b none = edit clear_premove b
played id b (some uci) =
    let (client, sent) = Ws.send (move_message id uci) b.client in
    let game = clear_selection (set_error none b.game) in
    if not sent
    then record { game = set_error (some ws_not_ready) game; client = client }
    else record { game = clear_premove game; client = client }

module _ (js : ChessJs) (g : GameState) where
  write-KeepsOrSends :
      (from to uci id : String) (c : Client)
      → is_my_turn g ≡ true
      → build_move_uci js (codes g.fen) from to none ≡ some (some uci)
      → g.game_id ≡ some id
      → KeepsOrSends js g c (Ws.send (move_message id uci) c).0
  write-KeepsOrSends from to uci id c turn legal in_game =
      elim (send-cases (move_message id uci) c) [
        | inl e ↦ inl (ap (λ r. r.0) e)
        | inr ready ↦ inr (record {
          from = from;
          to = to;
          uci = uci;
          game_id = id;
          turn = turn;
          legal = legal;
          in_game = in_game;
          ready = ready;
          written = refl;
        })
      ]

  submit_move-client :
      (a s : Bool) (uci : String) (b : Board)
      → ((submit_move a s g uci b).0.client ≡ b.client)
        ⊎ ((id : String) × (g.game_id ≡ some id)
            × ((submit_move a s g uci b).0.client ≡ (Ws.send (move_message id uci) b.client).0))
  unfolding submit_move
  submit_move-client a s uci b = elim (Option-cases g.game_id) [
    | inl missing ↦ rw missing (inl refl)
    | inr (id, e) ↦ elim (Bool-cases (truthy id)) [
      | inl named ↦
          rw (e, named)
            (inr (id, refl, after_send-client a s (Ws.send (move_message id uci) b.client).1 _))
      | inr unnamed ↦ rw (e, unnamed) (inl refl)
    ]
  ]

  submit_move-KeepsOrSends :
      (a s : Bool) (from to uci : String) (b : Board)
      → is_my_turn g ≡ true
      → build_move_uci js (codes g.fen) from to none ≡ some (some uci)
      → KeepsOrSends js g b.client (submit_move a s g uci b).0.client
  submit_move-KeepsOrSends a s from to uci b turn legal = elim (submit_move-client a s uci b) [
    | inl same ↦ inl same
    | inr (id, in_game, written) ↦
        rw written (write-KeepsOrSends from to uci id b.client turn legal in_game)
  ]

  pub clear_queued-client : (b : Board) → (clear_queued_move_on_interaction g b).client ≡ b.client
  unfolding clear_queued_move_on_interaction
  clear_queued-client b = elim (Bool-cases (is_some g.premove)) [
    | inl e ↦ rw e refl
    | inr e ↦ rw e refl
  ]

  pub from_cleared :
      (b : Board) (after : Client)
      → KeepsOrSends js g (clear_queued_move_on_interaction g b).client after
      → KeepsOrSends js g b.client after
  from_cleared b after h = subst (λ c. KeepsOrSends js g c after) (clear_queued-client b) h

  pub select_square-client :
      (square : String) (preview : Option PlayerColor) (b : Board)
      → (select_square js g square preview b).client ≡ b.client
  unfolding select_square show_targets
  select_square-client square preview b = ground arith

  legal_uci-some :
      (built : Option String) (uci : String) → legal_uci js built ≡ some uci → built ≡ some uci
  legal_uci-some none uci h = absurd (cc h)
  legal_uci-some (some u) uci h = ground arith

  -- A text behind `legal_uci`.
  built_split :
      (P : Option String → Type 0) (built : Option String)
      → P none
      → ((uci : String) → built ≡ some uci → P (some uci))
      → P (legal_uci js built)
  built_split P none h k = h
  built_split P (some uci) h k = if_split P (truthy uci) (some uci) none (λ _. k uci refl) (λ _. h)

  pub drop_move-KeepsOrSends :
      (from to : String) (o : Throws (Option String)) (b : Board)
      → is_my_turn g ≡ true
      → build_move_uci js (codes g.fen) from to none ≡ o
      → KeepsOrSends js g b.client (drop_move js g o b).0.client
  drop_move-KeepsOrSends from to none b turn e = inl refl
  drop_move-KeepsOrSends from to (some built) b turn e =
      built_split
        (λ o.
          KeepsOrSends js g b.client
            (elim o as (λ _. Board × Throws Bool) [
              | none ↦ (fail illegal_move b, some false)
              | some uci ↦
                  (let (after, sent) = submit_move false false g uci b in (after, some sent))
            ]).0.client)
        built (inl refl)
        (λ uci f. submit_move-KeepsOrSends false false from to uci b turn (e ∙ ap some f))

  pub click_move-KeepsOrSends :
      (from to : String) (o : Throws (Option String)) (b : Board)
      → is_my_turn g ≡ true
      → build_move_uci js (codes g.fen) from to none ≡ o
      → KeepsOrSends js g b.client (click_move js g o b).client
  click_move-KeepsOrSends from to none b turn e = inl refl
  click_move-KeepsOrSends from to (some built) b turn e =
      built_split
        (λ o.
          KeepsOrSends js g b.client
            (elim o as (λ _. Board) [
              | none ↦ fail illegal_move (edit clear_selection b)
              | some uci ↦ (submit_move false false g uci b).0
            ]).client)
        built (inl refl)
        (λ uci f. submit_move-KeepsOrSends false false from to uci b turn (e ∙ ap some f))

  pub click_premove-client :
      (from to : String) (o : Throws (Option String)) (b : Board)
      → (click_premove js from to o b).client ≡ b.client
  click_premove-client from to o b = ground arith

  pub play_premove-KeepsOrSends :
      (from to id : String) (o : Throws (Option String)) (b : Board)
      → is_my_turn g ≡ true
      → g.game_id ≡ some id
      → build_move_uci js (codes g.fen) from to none ≡ o
      → KeepsOrSends js g b.client (play_premove js id o b).client
  play_premove-KeepsOrSends from to id none b turn in_game e = inl refl
  play_premove-KeepsOrSends from to id (some built) b turn in_game e =
      built_split (λ o. KeepsOrSends js g b.client (played id b o).client) built (inl refl)
        (λ uci f.
          if_split {A = Board} (λ after. KeepsOrSends js g b.client after.client)
            (not (Ws.send (move_message id uci) b.client).1) _ _
            (λ _. write-KeepsOrSends from to uci id b.client turn (e ∙ ap some f) in_game)
            (λ _. write-KeepsOrSends from to uci id b.client turn (e ∙ ap some f) in_game))

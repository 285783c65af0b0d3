-- ===== src/Chess/Editor/RoundTrip.antt =====
-- The FEN that the board editor of frontend/src/shared/lib/chess.ts writes, read back.
pub mod Rank
use mathlib.Core.List.{append-nil, append_assoc}
use chessview.Common.{
  ℕ, zero, suc, ◌+◌, ◌-◌, ◌≤◌, String, ◌≡◌, ◌≢◌, refl, sym, ap, ◌∙◌, true, false, ◌&&◌, ◌||◌,
  Option, none, some, List, [], ◌∷◌, ◌++◌, map, arith, ◌==◌, leb, ltb, if◌then◌else◌, length, All,
  inl, inr, replicate, ◌⊎◌,
}
use chessview.Common.Text.{codes, split, split_from}
use chessview.Types.{PlayerColor}
use chessview.Chess.Editor.{
  EditorPieceCode, BoardPosition, FenMetadata, symbol, flush, row_text, or_eight, cells, join,
  fen_placement_from_board_position, fen_castling_token, editor_fen, turn_letter,
  fen_metadata_from_fen, board_ranks, has_letter,
}
use Rank.{
  piece_of, read_char, read_rank, read_placement, rank_text, read_rank-rank_text, IsSeparator,
  has_letter-append, rank_text_lacks,
}

-- Splitting at the first separator.
pub split_from-append :
    (c : ℕ) (part xs ys : List ℕ)
    → has_letter c xs ≡ false
    → split_from c part (xs ++ c ∷ ys) ≡ (part ++ xs) ∷ split_from c [] ys
split_from-append c part [] ys h = ground (arith, append-nil part)
split_from-append c part (x ∷ xs) ys h =
    ground (arith, split_from-append c (part ++ x ∷ []) xs ys, append_assoc part (x ∷ []) xs)

split_from_last :
    (c : ℕ) (part xs : List ℕ) → has_letter c xs ≡ false → split_from c part xs ≡ (part ++ xs) ∷ []
split_from_last c part [] h = ground (arith, append-nil part)
split_from_last c part (x ∷ xs) h =
    ground (arith, split_from_last c (part ++ x ∷ []) xs, append_assoc part (x ∷ []) xs)

split-join :
    (row : List ℕ) (rows : List (List ℕ))
    → All (λ r. has_letter b'/' r ≡ false) (row ∷ rows)
    → split b'/' (join (row ∷ rows)) ≡ row ∷ rows
split-join row [] h = split_from_last b'/' [] row h.0
split-join row (next ∷ rows) h =
    split_from-append b'/' [] row (join (next ∷ rows)) h.0
    ∙ ap (λ l. row ∷ l) (split-join next rows h.1)

placement_rows-lack :
    (c : ℕ) (position : BoardPosition) (ranks : List String)
    → IsSeparator c
    → All (λ r. has_letter c r ≡ false) (map (rank_text position) ranks)
placement_rows-lack c position [] s = tt
placement_rows-lack c position (rank ∷ ranks) s =
    (rank_text_lacks c position rank s, placement_rows-lack c position ranks s)

read_ranks :
    (position : BoardPosition) (ranks : List String)
    → map read_rank (map (rank_text position) ranks) ≡ map (cells position) ranks
read_ranks position [] = refl
read_ranks position (rank ∷ ranks) =
    cc (read_rank-rank_text position rank, read_ranks position ranks)

-- Reading the placement that the editor writes gives back, rank by rank, what stands on each square.
pub read_placement-fen_placement :
    (position : BoardPosition)
    → read_placement (fen_placement_from_board_position position) ≡ map (cells position) board_ranks
unfolding read_placement fen_placement_from_board_position
read_placement-fen_placement position =
    rw (split-join _ _ (placement_rows-lack b'/' position board_ranks (inl refl)))
      (read_ranks position board_ranks)

join_lacks_space :
    (rows : List (List ℕ))
    → All (λ r. has_letter b' ' r ≡ false) rows
    → has_letter b' ' (join rows) ≡ false
join_lacks_space [] h = refl
join_lacks_space (row ∷ []) h = h.0
join_lacks_space (row ∷ next ∷ rows) h = ground (
  arith,
  has_letter-append b' ' row (b'/' ∷ join (next ∷ rows)),
  join_lacks_space (next ∷ rows) h.1,
)

fen_placement_lacks_space :
    (position : BoardPosition)
    → has_letter b' ' (fen_placement_from_board_position position) ≡ false
unfolding fen_placement_from_board_position
fen_placement_lacks_space position =
    join_lacks_space (map (rank_text position) board_ranks)
      (placement_rows-lack b' ' position board_ranks (inr refl))

turn_letter_lacks_space : (t : PlayerColor) → has_letter b' ' (turn_letter t ∷ []) ≡ false
unfolding turn_letter
turn_letter_lacks_space PlayerColor.white = refl
turn_letter_lacks_space PlayerColor.black = refl

castling_token_lacks_space : (m : FenMetadata) → has_letter b' ' (fen_castling_token m) ≡ false
unfolding fen_castling_token
castling_token_lacks_space m = ground arith

split-editor_fen :
    (position : BoardPosition) (m : FenMetadata)
    → split b' ' (editor_fen position m)
      ≡ fen_placement_from_board_position position
        ∷ (turn_letter m.turn ∷ [])
        ∷ fen_castling_token m
        ∷ codes "-"
        ∷ codes "0"
        ∷ codes "1"
        ∷ []
unfolding editor_fen
split-editor_fen position m =
    split_from-append b' ' [] (fen_placement_from_board_position position)
      (turn_letter m.turn ∷ b' ' ∷ (fen_castling_token m ++ codes " - 0 1"))
      (fen_placement_lacks_space position)
    ∙ ap (λ l. fen_placement_from_board_position position ∷ l)
        (split_from-append b' ' [] (turn_letter m.turn ∷ [])
            (fen_castling_token m ++ codes " - 0 1") (turn_letter_lacks_space m.turn)
          ∙ ap (λ l. (turn_letter m.turn ∷ []) ∷ l)
              (split_from-append b' ' [] (fen_castling_token m) (codes "- 0 1")
                (castling_token_lacks_space m)))

-- The metadata of the FEN that the editor writes are those that it was written from.
pub fen_metadata_from_fen-editor_fen :
    (position : BoardPosition) (m : FenMetadata) → fen_metadata_from_fen (editor_fen position m) ≡ m
unfolding fen_metadata_from_fen turn_letter fen_castling_token
fen_metadata_from_fen-editor_fen position m = rw (split-editor_fen position m) (ground arith)

-- ===== src/Chess/Editor/RoundTrip/Rank.antt =====
-- One rank of the FEN that the board editor of frontend/src/shared/lib/chess.ts writes, read back.
use mathlib.Core.List.{append-nil, append_assoc}
use chessview.Common.{
  ℕ, zero, suc, ◌+◌, ◌-◌, ◌≤◌, String, ◌≡◌, ◌≢◌, refl, sym, ap, ◌∙◌, true, false, ◌&&◌, ◌||◌,
  Option, none, some, List, [], ◌∷◌, ◌++◌, map, arith, ◌==◌, leb, ltb, if◌then◌else◌, length,
  replicate, ◌⊎◌,
}
use chessview.Common.Text.{split}
use chessview.Chess.Editor.{
  EditorPieceCode, BoardPosition, symbol, flush, row_text, or_eight, cells, has_letter,
}

-- The piece that a letter of a FEN stands for.
abbrev pub piece_of : ℕ → Option EditorPieceCode
piece_of c =
    if c == b'P'
    then some EditorPieceCode.w_p
    else if c == b'N'
    then some EditorPieceCode.w_n
    else if c == b'B'
    then some EditorPieceCode.w_b
    else if c == b'R'
    then some EditorPieceCode.w_r
    else if c == b'Q'
    then some EditorPieceCode.w_q
    else if c == b'K'
    then some EditorPieceCode.w_k
    else if c == b'p'
    then some EditorPieceCode.b_p
    else if c == b'n'
    then some EditorPieceCode.b_n
    else if c == b'b'
    then some EditorPieceCode.b_b
    else if c == b'r'
    then some EditorPieceCode.b_r
    else if c == b'q'
    then some EditorPieceCode.b_q
    else if c == b'k'
    then some EditorPieceCode.b_k
    else none

abbrev piece_cells : Option EditorPieceCode → List (Option EditorPieceCode)
piece_cells none = []
piece_cells (some p) = some p ∷ []

-- The squares that a character of a FEN stands for: a digit is a number of empty ones.
pub read_char : ℕ → List (Option EditorPieceCode)
read_char c =
    if leb b'1' c && leb c b'8' then replicate (c - b'0') none else piece_cells (piece_of c)

abbrev pub read_rank : List ℕ → List (Option EditorPieceCode)
read_rank [] = []
read_rank (c ∷ cs) = read_char c ++ read_rank cs

unfoldable pub read_placement : List ℕ → List (List (Option EditorPieceCode))
read_placement text = map read_rank (split b'/' text)

read_char-symbol : (p : EditorPieceCode) → read_char (symbol p) ≡ some p ∷ []
unfolding read_char
read_char-symbol EditorPieceCode.w_p = refl
read_char-symbol _ = refl

read_char-digit : (n : ℕ) → 1 ≤ n → n ≤ 8 → read_char (b'0' + n) ≡ replicate n none
unfolding read_char
read_char-digit n low high = let e : b'0' + n - b'0' ≡ n = omega arith in rw e (ground arith)

read_rank-append : (xs ys : List ℕ) → read_rank (xs ++ ys) ≡ read_rank xs ++ read_rank ys
read_rank-append [] ys = refl
read_rank-append (x ∷ xs) ys =
    rw (read_rank-append xs ys) (sym (append_assoc (read_char x) (read_rank xs) (read_rank ys)))

read_rank-flush :
    (n : ℕ) (row : List ℕ) → n ≤ 8 → read_rank (flush n row) ≡ read_rank row ++ replicate n none
read_rank-flush zero row h = sym (append-nil (read_rank row))
read_rank-flush (suc n) row h =
    let written : ltb 0 (suc n) ≡ true = ground arith in
    rw written (
      read_rank-append row ((b'0' + suc n) ∷ [])
      ∙ ap (λ l. read_rank row ++ l)
          (append-nil (read_char (b'0' + suc n)) ∙ read_char-digit (suc n) (omega arith) h))

replicate-cons :
    {A : Type 0} (n : ℕ) (a : A) (xs : List A) → replicate n a ++ a ∷ xs ≡ a ∷ (replicate n a ++ xs)
replicate-cons zero a xs = refl
replicate-cons (suc n) a xs = ap (λ l. a ∷ l) (replicate-cons n a xs)

read_rank-row_text :
    (cs : List (Option EditorPieceCode)) (n : ℕ) (row : List ℕ)
    → n + length cs ≤ 8
    → read_rank (row_text cs n row) ≡ read_rank row ++ (replicate n none ++ cs)
unfolding row_text
read_rank-row_text [] n row h =
    read_rank-flush n row (omega arith)
    ∙ ap (λ l. read_rank row ++ l) (sym (append-nil (replicate n none)))
read_rank-row_text (none ∷ cs) n row h =
    read_rank-row_text cs (suc n) row (omega arith)
    ∙ ap (λ l. read_rank row ++ l) (sym (replicate-cons n none cs))
read_rank-row_text (some p ∷ cs) n row h =
    read_rank-row_text cs 0 (flush n row ++ symbol p ∷ []) (omega arith)
    ∙ simp (read_rank-append, read_char-symbol, read_rank-flush n row (omega arith), append_assoc)

or_eight-read_rank :
    (r : List ℕ) (cs : List (Option EditorPieceCode))
    → cs ≢ []
    → read_rank r ≡ cs
    → read_rank (or_eight r) ≡ cs
or_eight-read_rank [] cs h e = absurd (h (sym e))
or_eight-read_rank (c ∷ r) cs h e = e

-- The text that the editor writes for a rank.
abbrev pub rank_text : BoardPosition → String → List ℕ
rank_text position rank = or_eight (row_text (cells position rank) 0 [])

pub read_rank-rank_text :
    (position : BoardPosition) (rank : String)
    → read_rank (rank_text position rank) ≡ cells position rank
read_rank-rank_text position rank =
    or_eight-read_rank (row_text (cells position rank) 0 []) (cells position rank) (λ e. cc)
      (read_rank-row_text (cells position rank) 0 [] (omega arith))

-- The separators "/" and " " stand in no rank.
abbrev pub IsSeparator : ℕ → Type 0
IsSeparator c = (c ≡ b'/') ⊎ (c ≡ b' ')

pub has_letter-append :
    (c : ℕ) (xs ys : List ℕ) → has_letter c (xs ++ ys) ≡ (has_letter c xs || has_letter c ys)
has_letter-append c [] ys = refl
has_letter-append c (x ∷ xs) ys = ground (arith, has_letter-append c xs ys)

symbol_lacks : (c : ℕ) (p : EditorPieceCode) → IsSeparator c → (symbol p == c) ≡ false
symbol_lacks c EditorPieceCode.w_p s = ground arith
symbol_lacks c _ s = ground arith

flush_lacks :
    (c n : ℕ) (row : List ℕ)
    → IsSeparator c
    → has_letter c row ≡ false
    → has_letter c (flush n row) ≡ false
flush_lacks c zero row s h = h
flush_lacks c (suc n) row s h = ground (arith, has_letter-append c row ((b'0' + suc n) ∷ []))

row_text_lacks :
    (c : ℕ) (cs : List (Option EditorPieceCode)) (n : ℕ) (row : List ℕ)
    → IsSeparator c
    → has_letter c row ≡ false
    → has_letter c (row_text cs n row) ≡ false
unfolding row_text
row_text_lacks c [] n row s h = flush_lacks c n row s h
row_text_lacks c (none ∷ cs) n row s h = row_text_lacks c cs (suc n) row s h
row_text_lacks c (some p ∷ cs) n row s h = row_text_lacks c cs 0 (flush n row ++ symbol p ∷ []) s (
    ground (
      arith,
      has_letter-append c (flush n row) (symbol p ∷ []),
      flush_lacks c n row s h,
      symbol_lacks c p s,
    ))

or_eight_lacks :
    (c : ℕ) (r : List ℕ)
    → IsSeparator c
    → has_letter c r ≡ false
    → has_letter c (or_eight r) ≡ false
or_eight_lacks c [] s h = ground arith
or_eight_lacks c (x ∷ r) s h = h

pub rank_text_lacks :
    (c : ℕ) (position : BoardPosition) (rank : String)
    → IsSeparator c
    → has_letter c (rank_text position rank) ≡ false
rank_text_lacks c position rank s =
    or_eight_lacks c (row_text (cells position rank) 0 []) s
      (row_text_lacks c (cells position rank) 0 [] s refl)

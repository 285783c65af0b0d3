-- ===== src/Analysis.antt =====
-- The local analysis of a position by Stockfish, frontend/src/features/analyze-position/useStockfishAnalysis.ts.
-- This file has the lines that the engine writes. `N` stands for JavaScript's numbers, `number` for
-- `Number(text)` of a text that may be missing, and `is_nan` for `Number.isNaN`.
pub mod Engine
pub mod Replies
pub mod Shown
pub mod NoMoves
use chessview.Common.{
  ℕ, zero, suc, String, Bool, true, false, not, ◌&&◌, ◌||◌, Option, none, some, List, [], ◌∷◌,
  str_eq, is_some, if◌then◌else◌,
}
use chessview.Common.Spaces.{trim, split_spaces}

pub data ScoreKind : Type 0 where
  cp mate : ScoreKind

pub record StockfishScore (N : Type 0) : Type 0 where
  pub kind : ScoreKind
  pub value : N

pub record ParsedInfoLine (N : Type 0) : Type 0 where
  pub depth : Option N
  pub selective_depth : Option N
  pub nodes : Option N
  pub nps : Option N
  pub score : Option (StockfishScore N)
  pub pv : Option (List String)

-- `tokens[index]`
abbrev pub first_token : List String → Option String
first_token [] = none
first_token (t ∷ ts) = some t

abbrev pub second_token : List String → Option String
second_token [] = none
second_token (t ∷ ts) = first_token ts

abbrev pub is_text : Option String → String → Bool
is_text none t = false
is_text (some s) t = str_eq s t

-- How the loop goes on behind a token: with the line as parsed so far and so many tokens skipped,
-- with the refusal of the line, or with its end.
pub data Next (N : Type 0) : Type 0 where
  skip : ℕ → ParsedInfoLine N → Next N
  refuse : Next N
  finish : ParsedInfoLine N → Next N

abbrev pub nothing_parsed : {N : Type 0} → ParsedInfoLine N
nothing_parsed = record {
  depth = none;
  selective_depth = none;
  nodes = none;
  nps = none;
  score = none;
  pv = none;
}

abbrev pub is_blank : {N : Type 0} → ParsedInfoLine N → Bool
is_blank p =
    not (is_some p.depth)
    && not (is_some p.selective_depth)
    && not (is_some p.nodes)
    && not (is_some p.nps)
    && not (is_some p.score)
    && not (is_some p.pv)

module _ {N : Type 0} (number : Option String → N) (is_nan : N → Bool) where
  read_score : Option String → N → ParsedInfoLine N → ParsedInfoLine N
  read_score kind value p =
      if is_nan value
      then p
      else if is_text kind "cp"
      then record p { score = some (record { kind = cp; value = value }) }
      else if is_text kind "mate"
      then record p { score = some (record { kind = mate; value = value }) }
      else p

  -- The `switch` on a token; `rest` are the tokens behind it.
  on_token : String → List String → ParsedInfoLine N → Next N
  unfolding read_score
  on_token token rest p =
      if str_eq token "depth"
      then skip 1 (record p { depth = some (number (first_token rest)) })
      else if str_eq token "seldepth"
      then skip 1 (record p { selective_depth = some (number (first_token rest)) })
      else if str_eq token "nodes"
      then skip 1 (record p { nodes = some (number (first_token rest)) })
      else if str_eq token "nps"
      then skip 1 (record p { nps = some (number (first_token rest)) })
      else if str_eq token "multipv"
      then if is_text (first_token rest) "1" then skip 1 p else refuse
      else if str_eq token "score"
      then skip 2 (read_score (first_token rest) (number (second_token rest)) p)
      else if str_eq token "pv"
      then finish (record p { pv = some rest })
      else skip 0 p

  -- The loop over the tokens, the next `k` of which are skipped.
  pub parse_tokens : ℕ → List String → ParsedInfoLine N → Option (ParsedInfoLine N)
  unfolding on_token
  parse_tokens k [] p = some p
  parse_tokens (suc k) (t ∷ ts) p = parse_tokens k ts p
  parse_tokens zero (t ∷ ts) p = elim (on_token t ts p) [
    | skip k q ↦ parse_tokens k ts q
    | refuse ↦ none
    | finish q ↦ some q
  ]

  abbrev pub drop_blank : Option (ParsedInfoLine N) → Option (ParsedInfoLine N)
  drop_blank none = none
  drop_blank (some p) = if is_blank p then none else some p

  abbrev pub parse_info_tokens : List String → Option (ParsedInfoLine N)
  parse_info_tokens [] = none
  parse_info_tokens (t ∷ ts) =
      if not (str_eq t "info") then none else drop_blank (parse_tokens zero ts nothing_parsed)

  unfoldable pub parse_info_line : String → Option (ParsedInfoLine N)
  unfolding parse_tokens
  parse_info_line line = parse_info_tokens (split_spaces (trim line))

-- ===== src/Review/Scored.antt =====
-- The scores in the lines of an engine,
-- frontend/src/features/game-review-analysis/browserStockfish.ts.
use Prim.Native.Char.{Char, code}
use Prim.Native.String.append
use mathlib.Core.Path.{subst}
use chessview.Common.{
  ◌≡◌, ◌≢◌, refl, ap, ◌∙◌, String, Bool, true, false, not, Option, none, some, str_eq, eq_iff,
  arith, if◌then◌else◌,
}
use chessview.Common.Text.{truthy_cons, concat, truthy, take_text, codes}
use chessview.Common.Spaces.{trim_start}
use chessview.Analysis.{ScoreKind}
use chessview.Review.Lines.{
  digits_of, is_digit, is_word, with_kind, number_text, score_at, find_score,
}
use chessview.Review.Spoken.{before, trim_start_blank}

-- Digits, and nothing else.
abbrev pub AreDigits : String → Type 0
AreDigits String.[] = Unit
AreDigits (String.◌∷◌ c s) = (is_digit (code c) ≡ true) × AreDigits s

abbrev pub starts_with_digit : String → Bool
starts_with_digit String.[] = false
starts_with_digit (String.◌∷◌ c s) = is_digit (code c)

digits_of-before :
    (d s : String) → AreDigits d → starts_with_digit s ≡ false → digits_of (before d s) ≡ d
unfolding digits_of
digits_of-before String.[] String.[] h k = refl
digits_of-before String.[] (String.◌∷◌ c s) h k = rw k refl
digits_of-before (String.◌∷◌ c d) s h k = rw h.0 (ap (String.◌∷◌ c) (digits_of-before d s h.1 k))

-- An integer: digits, at least one, behind a minus or not.
abbrev pub signed : Bool → Char → String → String
signed false c d = String.◌∷◌ c d
signed true c d = String.◌∷◌ "-" (String.◌∷◌ c d)

abbrev with_minus : String → Option String
with_minus v = if not (truthy v) then none else some (concat "-" v)

minus_lem : (s : String) → concat "-" s ≡ String.◌∷◌ "-" s
minus_lem s = (λ i. append.cons "-" "" s i) ∙ (λ i. String.◌∷◌ "-" (append.nil s i))

not_minus : (c : Char) → is_digit (code c) ≡ true → str_eq (String.◌∷◌ c "") "-" ≡ false
not_minus c h =
    let differ : String.◌∷◌ c "" ≢ "-" =
      λ e. let f : codes (String.◌∷◌ c "") ≡ codes "-" = ap codes e in ground (arith, f, h) in
    ground (arith, eq_iff (String.◌∷◌ c "") "-", differ)

number_text-signed :
    (negative : Bool) (c : Char) (d s : String)
    → AreDigits (String.◌∷◌ c d)
    → starts_with_digit s ≡ false
    → number_text (some (before (signed negative c d) s)) ≡ some (signed negative c d)
unfolding number_text
number_text-signed true c d s h k =
    ap with_minus (digits_of-before (String.◌∷◌ c d) s h k)
    ∙ rw (truthy_cons c d) (ap some (minus_lem (String.◌∷◌ c d)))
number_text-signed false c d s h k = rw (not_minus c h.0) (
    ap (λ v. if not (truthy v) then none else some v) (digits_of-before (String.◌∷◌ c d) s h k)
    ∙ rw (truthy_cons c d) refl)

-- What stands before the number of a score.
abbrev pub score_text : ScoreKind → String
score_text ScoreKind.cp = "score cp "
score_text ScoreKind.mate = "score mate "

trim_start-signed :
    (negative : Bool) (c : Char) (d s : String)
    → is_digit (code c) ≡ true
    → trim_start (before " " (before (signed negative c d) s)) ≡ before (signed negative c d) s
trim_start-signed true c d s h = refl
trim_start-signed false c d s h = trim_start_blank c (before d s) (ground (arith, h))

not_mate : (s : String) → str_eq (before "cp " s) "mate" ≡ false
not_mate s =
    let differ : before "cp " s ≢ "mate" =
      λ e. let f : codes (before "cp " s) ≡ codes "mate" = ap codes e in ground (arith, f) in
    ground (arith, eq_iff (before "cp " s) "mate", differ)

spaced_number :
    (negative : Bool) (c : Char) (d s : String)
    → AreDigits (String.◌∷◌ c d)
    → starts_with_digit s ≡ false
    → number_text (some (trim_start (before " " (before (signed negative c d) s))))
      ≡ some (signed negative c d)
spaced_number negative c d s h k =
    ap (λ t. number_text (some t)) (trim_start-signed negative c d s h.0)
    ∙ number_text-signed negative c d s h k

number_text-none : number_text none ≡ none
unfolding number_text
number_text-none = refl

score_at-before :
    (kind : ScoreKind) (negative : Bool) (c : Char) (d s : String)
    → AreDigits (String.◌∷◌ c d)
    → starts_with_digit s ≡ false
    → score_at (before (score_text kind) (before (signed negative c d) s))
      ≡ some (kind, signed negative c d)
unfolding score_at
score_at-before ScoreKind.mate negative c d s h k = rw (spaced_number negative c d s h k) refl
score_at-before ScoreKind.cp negative c d s h k =
    rw (not_mate (take_text 1 (before (signed negative c d) s)), number_text-none)
      (ap (with_kind ScoreKind.cp) (spaced_number negative c d s h k))

-- At no place of the text, with what follows it, does "score" stand.
abbrev pub LacksScore : String → String → Type 0
LacksScore String.[] s = Unit
LacksScore (String.◌∷◌ c w) s =
    (str_eq (take_text 5 (String.◌∷◌ c (before w s))) "score" ≡ false) × LacksScore w s

-- Whether the character before what follows is one of a word.
abbrev pub ends_word : Bool → String → Bool
ends_word in_word String.[] = in_word
ends_word in_word (String.◌∷◌ c w) = ends_word (is_word (code c)) w

score_at-none : (s : String) → str_eq (take_text 5 s) "score" ≡ false → score_at s ≡ none
unfolding score_at
score_at-none s h = rw (score_at, h) refl

find_score-before :
    (in_word : Bool) (w s : String)
    → LacksScore w s
    → find_score in_word (before w s) ≡ find_score (ends_word in_word w) s
unfolding find_score
find_score-before in_word String.[] s h = refl
find_score-before true (String.◌∷◌ c w) s h = find_score-before (is_word (code c)) w s h.1
find_score-before false (String.◌∷◌ c w) s h =
    rw (score_at-none (String.◌∷◌ c (before w s)) h.0)
      (find_score-before (is_word (code c)) w s h.1)

before_empty : (w : String) → before w "" ≡ w
before_empty String.[] = refl
before_empty (String.◌∷◌ c w) = ap (String.◌∷◌ c) (before_empty w)

pub find_score-none :
    (in_word : Bool) (line : String) → LacksScore line "" → find_score in_word line ≡ none
unfolding find_score
find_score-none in_word String.[] h = refl
find_score-none true (String.◌∷◌ c w) h = find_score-none (is_word (code c)) w h.1
find_score-none false (String.◌∷◌ c w) h =
    let lacks : str_eq (take_text 5 (String.◌∷◌ c w)) "score" ≡ false =
      subst (λ t. str_eq (take_text 5 (String.◌∷◌ c t)) "score" ≡ false) (before_empty w) h.0 in
    rw (score_at-none (String.◌∷◌ c w) lacks) (find_score-none (is_word (code c)) w h.1)

-- A line of the engine with a score: the kind and the number behind the word "score".
pub record ScoreLine : Type 0 where
  pub intro : String
  pub kind : ScoreKind
  pub negative : Bool
  pub digit : Char
  pub digits : String
  pub rest : String

abbrev pub number_of : ScoreLine → String
number_of l = signed l.negative l.digit l.digits

abbrev pub scored : ScoreLine → String
scored l = before l.intro (before (score_text l.kind) (before (number_of l) l.rest))

-- "score" stands there as a word of its own and not before, and the number ends where it should.
pub record IsScoreLine (l : ScoreLine) : Type 0 where
  pub apart : ends_word false l.intro ≡ false
  pub first : LacksScore l.intro (before (score_text l.kind) (before (number_of l) l.rest))
  pub are_digits : AreDigits (String.◌∷◌ l.digit l.digits)
  pub ended : starts_with_digit l.rest ≡ false

find_at :
    (kind : ScoreKind) (s : String) (found : ScoreKind × String)
    → score_at (before (score_text kind) s) ≡ some found
    → find_score false (before (score_text kind) s) ≡ some found
unfolding find_score
find_at ScoreKind.cp s found h = rw h refl
find_at ScoreKind.mate s found h = rw h refl

pub find_score-scored :
    (l : ScoreLine) → IsScoreLine l → find_score false (scored l) ≡ some (l.kind, number_of l)
find_score-scored l h =
    let tail = before (number_of l) l.rest in
    find_score-before false l.intro (before (score_text l.kind) tail) h.first
    ∙ ap (λ w. find_score w (before (score_text l.kind) tail)) h.apart
    ∙ find_at l.kind tail (l.kind, number_of l)
        (score_at-before l.kind l.negative l.digit l.digits l.rest h.are_digits h.ended)

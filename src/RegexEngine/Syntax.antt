-- ===== src/RegexEngine/Syntax.antt =====
-- What a postfix expression of include/trieste/regex_engine.h denotes: a regular expression, and the
-- stretches of a text that it matches, whatever the automaton built from it.
use trieste.Prelude.{
  ℕ, suc, ◌≡◌, Bool, true, ◌||◌, Option, none, some, List, [], ◌∷◌, length, ltb, ◌==◌,
  if◌then◌else◌,
}
use trieste.RegexEngine.{
  QuantifierKind, zero_or_one, zero_or_more, one_or_more, Token, catenation, alternation,
  quantifier, group, literal, classify, split_label, word_boundary, start_anchor, end_anchor,
  is_capture_open, is_capture_close, max_states,
}

pub data Regex : Type 0 where
  empty : Regex
  lit : ℕ → Regex
  cat alt : Regex → Regex → Regex
  rep : QuantifierKind → Bool → Regex → Regex
  grp : ℕ → Regex → Regex

-- The reading of one token, with the operands so far, the last one first.
unfoldable pub read_token : Token → List Regex → Option (List Regex)
read_token catenation (b ∷ a ∷ rs) = some (cat a b ∷ rs)
read_token catenation (_ ∷ []) = none
read_token catenation [] = none
read_token alternation (b ∷ a ∷ rs) = some (alt a b ∷ rs)
read_token alternation (_ ∷ []) = none
read_token alternation [] = none
read_token (quantifier kind lazy) (a ∷ rs) = some (rep kind lazy a ∷ rs)
read_token (quantifier kind lazy) [] = none
read_token (group idx) (a ∷ rs) = some (grp idx a ∷ rs)
read_token (group idx) [] = none
read_token (literal label) rs = some (lit label ∷ rs)

abbrev pub read_on {ℓ} : {A : Type ℓ} → (List Regex → Option A) → Option (List Regex) → Option A
read_on rest none = none
read_on rest (some rs) = rest rs

abbrev pub only : List Regex → Option Regex
only (r ∷ []) = some r
only [] = none
only (_ ∷ _ ∷ _) = none

unfoldable pub read_tokens : List ℕ → List Regex → Option Regex
unfolding read_token classify
read_tokens [] rs = only rs
read_tokens (label ∷ labels) rs = read_on (read_tokens labels) (read_token (classify label) rs)

-- The expression that a postfix expression denotes, when it is well formed and not too large.
unfoldable pub denoted : List ℕ → Option Regex
unfolding read_tokens
denoted [] = some empty
denoted (label ∷ labels) =
    if ltb max_states (length (label ∷ labels)) then none else read_tokens (label ∷ labels) []

-- What a position in the text is like, for the conditional labels.
pub record Flags : Type 0 where
  pub boundary_match : Bool
  pub at_start : Bool
  pub at_end : Bool

-- Whether a state with this label is passed without reading, `none` when it reads a rune.
unfoldable pub gate : Flags → ℕ → Option Bool
gate f label =
    if label == split_label
    then some true
    else if is_capture_open label || is_capture_close label
    then some true
    else if label == word_boundary
    then some f.boundary_match
    else if label == start_anchor
    then some f.at_start
    else if label == end_anchor
    then some f.at_end
    else none

module _ (flags : ℕ → Flags) (reads : ℕ → ℕ → Bool) where
  -- The stretch from one position to another is matched. `reads c p` says that the label `c`
  -- accepts the rune at `p`.
  pub data Matches : Regex → ℕ → ℕ → Type 0 where
    match_empty : {p q : ℕ} → p ≡ q → Matches empty p q
    match_pass : {c p q : ℕ} → gate (flags p) c ≡ some true → p ≡ q → Matches (lit c) p q
    match_read :
        {c p q : ℕ} → gate (flags p) c ≡ none → reads c p ≡ true → q ≡ suc p → Matches (lit c) p q
    match_cat : {a b : Regex} {p m q : ℕ} → Matches a p m → Matches b m q → Matches (cat a b) p q
    match_left : {a b : Regex} {p q : ℕ} → Matches a p q → Matches (alt a b) p q
    match_right : {a b : Regex} {p q : ℕ} → Matches b p q → Matches (alt a b) p q
    match_zero : {l : Bool} {a : Regex} {p q : ℕ} → p ≡ q → Matches (rep zero_or_one l a) p q
    match_once :
        {l : Bool} {a : Regex} {p q : ℕ} → Matches a p q → Matches (rep zero_or_one l a) p q
    match_done : {l : Bool} {a : Regex} {p q : ℕ} → p ≡ q → Matches (rep zero_or_more l a) p q
    match_more :
        {l : Bool} {a : Regex} {p m q : ℕ}
        → Matches a p m
        → Matches (rep zero_or_more l a) m q
        → Matches (rep zero_or_more l a) p q
    match_plus :
        {l : Bool} {a : Regex} {p m q : ℕ}
        → Matches a p m
        → Matches (rep zero_or_more l a) m q
        → Matches (rep one_or_more l a) p q
    match_group : {k : ℕ} {a : Regex} {p q : ℕ} → Matches a p q → Matches (grp k a) p q

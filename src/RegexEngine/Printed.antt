-- ===== src/RegexEngine/Printed.antt =====
-- The postfix expressions that include/trieste/regex_engine.h can build its automaton from, written
-- out for a regular expression, and that they are read back.
use trieste.Prelude.{
  ℕ, ◌+◌, ◌≤◌, ◌<◌, ◌≡◌, refl, sym, ap, ◌∙◌, Bool, true, false, none, some, List, [], ◌∷◌, ◌++◌,
  length, ltb, arith,
}
use trieste.RegexEngine.{
  QuantifierKind, zero_or_one, zero_or_more, one_or_more, quantifier, group, literal, classify,
  catenation_label, alternation_label, capture_group, max_captures, max_states,
}
use trieste.RegexEngine.Syntax.{
  Regex, empty, lit, cat, alt, rep, grp, read_token, read_tokens, denoted,
}

abbrev pub quantifier_label : QuantifierKind → Bool → ℕ
quantifier_label zero_or_one false = 0xafff02
quantifier_label zero_or_one true = 0xafff07
quantifier_label zero_or_more false = 0xafff03
quantifier_label zero_or_more true = 0xafff08
quantifier_label one_or_more false = 0xafff04
quantifier_label one_or_more true = 0xafff09

-- The empty expression is the empty postfix, which stands alone only.
unfoldable pub printed : Regex → List ℕ
printed empty = []
printed (lit c) = c ∷ []
printed (cat a b) = printed a ++ (printed b ++ catenation_label ∷ [])
printed (alt a b) = printed a ++ (printed b ++ alternation_label ∷ [])
printed (rep kind lazy a) = printed a ++ quantifier_label kind lazy ∷ []
printed (grp k a) = printed a ++ (capture_group + k) ∷ []

-- Each literal is one, each group has a number, and the empty expression is no part of another.
unfoldable pub IsPart : Regex → Type 0
IsPart empty = ⊥
IsPart (lit c) = classify c ≡ literal c
IsPart (cat a b) = IsPart a × IsPart b
IsPart (alt a b) = IsPart a × IsPart b
IsPart (rep kind lazy a) = IsPart a
IsPart (grp k a) = (k < max_captures) × IsPart a

append_assoc : (xs ys zs : List ℕ) → (xs ++ ys) ++ zs ≡ xs ++ (ys ++ zs)
append_assoc [] ys zs = refl
append_assoc (x ∷ xs) ys zs = ap (λ (us : List ℕ). x ∷ us) (append_assoc xs ys zs)

classify-quantifier :
    (kind : QuantifierKind) (lazy : Bool)
    → classify (quantifier_label kind lazy) ≡ quantifier kind lazy
unfolding classify
classify-quantifier zero_or_one false = refl
classify-quantifier zero_or_one true = refl
classify-quantifier zero_or_more false = refl
classify-quantifier zero_or_more true = refl
classify-quantifier one_or_more false = refl
classify-quantifier one_or_more true = refl

classify-group : (k : ℕ) → k < max_captures → classify (capture_group + k) ≡ group k
unfolding classify
classify-group k h = ground arith

read_quantifier :
    (kind : QuantifierKind) (lazy : Bool) (rest : List ℕ) (a : Regex) (rs : List Regex)
    → read_tokens (quantifier_label kind lazy ∷ rest) (a ∷ rs)
      ≡ read_tokens rest (rep kind lazy a ∷ rs)
unfolding read_tokens read_token
read_quantifier kind lazy rest a rs = rw (classify-quantifier kind lazy) refl

read_group :
    (k : ℕ) (rest : List ℕ) (a : Regex) (rs : List Regex)
    → k < max_captures
    → read_tokens ((capture_group + k) ∷ rest) (a ∷ rs) ≡ read_tokens rest (grp k a ∷ rs)
unfolding read_tokens read_token
read_group k rest a rs h = rw (classify-group k h) refl

read_literal :
    (c : ℕ) (rest : List ℕ) (rs : List Regex)
    → classify c ≡ literal c
    → read_tokens (c ∷ rest) rs ≡ read_tokens rest (lit c ∷ rs)
unfolding read_tokens read_token
read_literal c rest rs h = rw h refl

read_catenation :
    (rest : List ℕ) (a b : Regex) (rs : List Regex)
    → read_tokens (catenation_label ∷ rest) (b ∷ a ∷ rs) ≡ read_tokens rest (cat a b ∷ rs)
unfolding read_tokens read_token classify
read_catenation rest a b rs = refl

read_alternation :
    (rest : List ℕ) (a b : Regex) (rs : List Regex)
    → read_tokens (alternation_label ∷ rest) (b ∷ a ∷ rs) ≡ read_tokens rest (alt a b ∷ rs)
unfolding read_tokens read_token classify
read_alternation rest a b rs = refl

read-printed :
    (r : Regex) (rest : List ℕ) (rs : List Regex)
    → IsPart r
    → read_tokens (printed r ++ rest) rs ≡ read_tokens rest (r ∷ rs)
unfolding printed IsPart
read-printed empty rest rs p = absurd p
read-printed (lit c) rest rs p = read_literal c rest rs p
read-printed (cat a b) rest rs p =
    rw
      (
        append_assoc (printed a) (printed b ++ catenation_label ∷ []) rest,
        append_assoc (printed b) (catenation_label ∷ []) rest,
      )
      (read-printed a (printed b ++ catenation_label ∷ rest) rs p.0
        ∙ (read-printed b (catenation_label ∷ rest) (a ∷ rs) p.1 ∙ read_catenation rest a b rs))
read-printed (alt a b) rest rs p =
    rw
      (
        append_assoc (printed a) (printed b ++ alternation_label ∷ []) rest,
        append_assoc (printed b) (alternation_label ∷ []) rest,
      )
      (read-printed a (printed b ++ alternation_label ∷ rest) rs p.0
        ∙ (read-printed b (alternation_label ∷ rest) (a ∷ rs) p.1 ∙ read_alternation rest a b rs))
read-printed (rep kind lazy a) rest rs p =
    rw (append_assoc (printed a) (quantifier_label kind lazy ∷ []) rest) (
      read-printed a (quantifier_label kind lazy ∷ rest) rs p ∙ read_quantifier kind lazy rest a rs)
read-printed (grp k a) rest rs p =
    rw (append_assoc (printed a) ((capture_group + k) ∷ []) rest)
      (read-printed a ((capture_group + k) ∷ rest) rs p.1 ∙ read_group k rest a rs p.0)

append_nil : (xs : List ℕ) → xs ++ [] ≡ xs
append_nil [] = refl
append_nil (x ∷ xs) = ap (λ (us : List ℕ). x ∷ us) (append_nil xs)

not_large :
    (p : List ℕ) (r : Regex)
    → length p ≤ max_states
    → read_tokens p [] ≡ some r
    → denoted p ≡ some r
unfolding denoted read_tokens
not_large [] r l h = absurd (none-some h)
  where
    none-some : none ≡ some r → ⊥
    none-some e = cc
not_large (c ∷ p) r l h = rw (small (length (c ∷ p)) l, denoted) h
  where
    small : (n : ℕ) → n ≤ max_states → ltb max_states n ≡ false
    small n k = ground arith

-- Every regular expression has a postfix expression that denotes it: with each literal a literal
-- label, each group a number below the number of captures, and the postfix within the size limit,
-- what is written out for the expression is read back as it.
pub denoted-printed :
    (r : Regex) → IsPart r → length (printed r) ≤ max_states → denoted (printed r) ≡ some r
unfolding read_tokens
denoted-printed r p l =
    not_large (printed r) r l (
      ap (λ (t : List ℕ). read_tokens t []) (sym (append_nil (printed r))) ∙ read-printed r [] [] p)

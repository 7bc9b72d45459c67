-- ===== src/Rewrite/Operators/Checked.antt =====
-- The operators keep what the constructors check.
use trieste.Prelude.{
  true, false, not, ◌&&◌, Option, none, some, ◌≡◌, refl, subst, arith, Bool-cases, inl, inr,
}
use trieste.Rewrite.Pattern.{
  Pattern, done, cap, anything, token_match, regex_match, opt, rep, negation, choice, inside,
  inside_star, first, last, children_of, pred, neg_pred, action,
}
use trieste.Rewrite.Pattern.Spec.{NoCaptures, IsGuarded}
use trieste.Rewrite.Pattern.Chain.{set_continuation, or_throw-elim}
use trieste.Rewrite.Operators.{
  match_seq, Built, Written, w_any, w_start, w_end, w_tokens, w_text, w_in, w_act, w_named, w_opt,
  w_pred, w_neg_pred, w_rep, w_not, w_seq, w_alt, w_children, build, act, named, optional, ahead,
  not_ahead, repeated, negated, sequence, alternative, with_children, has_captures, custom_rep,
  Custom, throws, given, null, repeated_as, without_captures, chained, only_tokens, is_empty,
}
use trieste.Rewrite.Operators.Single.{some_eq}
use trieste.Rewrite.Operators.Sound.{>>=-some}
use trieste.Rewrite.Operators.Guarded.{IsChecked, IsChecked-IsGuarded}

set_continuation-IsChecked :
    (p q r : Pattern) → IsChecked p → IsChecked q → set_continuation p q ≡ some r → IsChecked r
unfolding set_continuation
set_continuation-IsChecked done q r c d h = subst IsChecked (some_eq h) d
set_continuation-IsChecked (cap t p k) q r c d h =
    or_throw-elim IsChecked _ (cap t p) r h (λ l e. (c.0, set_continuation-IsChecked k q l c.1 d e))
set_continuation-IsChecked (anything k) q r c d h =
    or_throw-elim IsChecked _ anything r h (λ l e. set_continuation-IsChecked k q l c d e)
set_continuation-IsChecked (token_match ts k) q r c d h =
    or_throw-elim IsChecked _ (token_match ts) r h (λ l e. set_continuation-IsChecked k q l c d e)
set_continuation-IsChecked (regex_match t f k) q r c d h =
    or_throw-elim IsChecked _ (regex_match t f) r h (λ l e. set_continuation-IsChecked k q l c d e)
set_continuation-IsChecked (opt p k) q r c d h =
    or_throw-elim IsChecked _ (opt p) r h (λ l e. (c.0, set_continuation-IsChecked k q l c.1 d e))
set_continuation-IsChecked (rep p k) q r c d h =
    or_throw-elim IsChecked _ (rep p) r h
      (λ l e. (c.0, c.1, set_continuation-IsChecked k q l c.2 d e))
set_continuation-IsChecked (negation p k) q r c d h =
    or_throw-elim IsChecked _ (negation p) r h
      (λ l e. (c.0, c.1, set_continuation-IsChecked k q l c.2 d e))
set_continuation-IsChecked (choice b p o k) q r c d h =
    or_throw-elim IsChecked _ (choice b p o) r h
      (λ l e. (c.0, c.1, c.2, set_continuation-IsChecked k q l c.3 d e))
set_continuation-IsChecked (inside ts k) q r c d h =
    or_throw-elim IsChecked _ (inside ts) r h (λ l e. set_continuation-IsChecked k q l c d e)
set_continuation-IsChecked (inside_star ts k) q r c d h =
    or_throw-elim IsChecked _ (inside_star ts) r h (λ l e. set_continuation-IsChecked k q l c d e)
set_continuation-IsChecked (first k) q r c d h =
    or_throw-elim IsChecked _ first r h (λ l e. set_continuation-IsChecked k q l c d e)
set_continuation-IsChecked last q r c d h = absurd (cc)
set_continuation-IsChecked (children_of p o k) q r c d h =
    or_throw-elim IsChecked _ (children_of p o) r h
      (λ l e. (c.0, c.1, set_continuation-IsChecked k q l c.2 d e))
set_continuation-IsChecked (pred p k) q r c d h =
    or_throw-elim IsChecked _ (pred p) r h
      (λ l e. (c.0, c.1, set_continuation-IsChecked k q l c.2 d e))
set_continuation-IsChecked (neg_pred p k) q r c d h =
    or_throw-elim IsChecked _ (neg_pred p) r h
      (λ l e. (c.0, c.1, set_continuation-IsChecked k q l c.2 d e))
set_continuation-IsChecked (action f p k) q r c d h =
    or_throw-elim IsChecked _ (action f p) r h
      (λ l e. (c.0, set_continuation-IsChecked k q l c.1 d e))

-- A constructor that throws on captures leaves the test as a fact.
without_captures-elim :
    (p : Pattern) (b r : Built)
    → without_captures p b ≡ some r
    → (has_captures p ≡ false → IsChecked b.pattern)
    → IsChecked r.pattern
unfolding without_captures
without_captures-elim p b r e h = elim (Bool-cases (has_captures p)) [
  | inl x ↦ absurd (clash x)
  | inr x ↦ subst (λ (z : Built). IsChecked z.pattern) (some_eq (rw x at e)) (h x)
]
  where
    clash : has_captures p ≡ true → ⊥
    clash x = ground arith

custom_rep-IsChecked : (p x : Pattern) → IsChecked p → custom_rep p ≡ given x → IsChecked x
unfolding custom_rep
custom_rep-IsChecked (rep p done) x h e = subst IsChecked (given_eq e) h
  where
    given_eq : {y : Pattern} → given y ≡ given x → y ≡ x
    given_eq q = cc
custom_rep-IsChecked (inside ts done) x h e = subst IsChecked (given_eq e) tt
  where
    given_eq : {y : Pattern} → given y ≡ given x → y ≡ x
    given_eq q = cc
custom_rep-IsChecked _ x h e = absurd (cc)

repeated-IsChecked : (b r : Built) → IsChecked b.pattern → repeated b ≡ some r → IsChecked r.pattern
unfolding repeated repeated_as
repeated-IsChecked b r c e = go (custom_rep b.pattern) (λ x. custom_rep-IsChecked b.pattern x c) e
  where
    go :
        (u : Custom)
        → ((x : Pattern) → u ≡ given x → IsChecked x)
        → repeated_as u b ≡ some r
        → IsChecked r.pattern
    go throws h q = absurd (cc)
    go (given x) h q = subst (λ (z : Built). IsChecked z.pattern) (some_eq q) (h x refl)
    go null h q = without_captures-elim b.pattern _ r q (λ z. (z, c, tt))

alternative-IsChecked :
    (b d : Built) → IsChecked b.pattern → IsChecked d.pattern → IsChecked (alternative b d).pattern
unfolding alternative
alternative-IsChecked b d c e =
    elim (Bool-cases
      (not (is_empty (only_tokens b.pattern)) && not (is_empty (only_tokens d.pattern)))) [
        | inl x ↦ rw x tt
        | inr x ↦ rw x (refl, c, e, tt)
      ]

sequence-IsChecked :
    (b d r : Built)
    → IsChecked b.pattern
    → IsChecked d.pattern
    → sequence b d ≡ some r
    → IsChecked r.pattern
unfolding sequence chained
sequence-IsChecked b d r c h e =
    go (set_continuation b.pattern d.pattern)
      (λ z. set_continuation-IsChecked b.pattern d.pattern z c h) e
  where
    go :
        (o : Option Pattern)
        → ((z : Pattern) → o ≡ some z → IsChecked z)
        → chained o (match_seq b.fast d.fast) ≡ some r
        → IsChecked r.pattern
    go none k q = absurd (cc)
    go (some z) k q = subst (λ (y : Built). IsChecked y.pattern) (some_eq q) (k z refl)

-- No capture stands under an action.
abbrev pub ActsOnPlain : Written → Type 0
ActsOnPlain (w_act f x) = ActsOnPlain x × ((b : Built) → build x ≡ some b → NoCaptures b.pattern)
ActsOnPlain (w_named t x) = ActsOnPlain x
ActsOnPlain (w_opt x) = ActsOnPlain x
ActsOnPlain (w_pred x) = ActsOnPlain x
ActsOnPlain (w_neg_pred x) = ActsOnPlain x
ActsOnPlain (w_rep x) = ActsOnPlain x
ActsOnPlain (w_not x) = ActsOnPlain x
ActsOnPlain (w_seq x y) = ActsOnPlain x × ActsOnPlain y
ActsOnPlain (w_alt x y) = ActsOnPlain x × ActsOnPlain y
ActsOnPlain (w_children x y) = ActsOnPlain x × ActsOnPlain y
ActsOnPlain _ = Unit

abbrev Checks : Built → Type 0
Checks b = IsChecked b.pattern

build-IsChecked : (x : Written) (b : Built) → ActsOnPlain x → build x ≡ some b → IsChecked b.pattern
unfolding build ahead not_ahead negated act named optional with_children
build-IsChecked w_any b s e = subst Checks (some_eq e) tt
build-IsChecked w_start b s e = subst Checks (some_eq e) tt
build-IsChecked w_end b s e = subst Checks (some_eq e) tt
build-IsChecked (w_tokens t ts) b s e = subst Checks (some_eq e) tt
build-IsChecked (w_text t full) b s e = subst Checks (some_eq e) tt
build-IsChecked (w_in t ts) b s e = subst Checks (some_eq e) tt
build-IsChecked (w_act f x) b s e =
    let (a, p, q) = >>=-some (build x) _ e in subst Checks (some_eq q) (s.1 a p, tt)
build-IsChecked (w_named t x) b s e =
    let (a, p, q) = >>=-some (build x) _ e in subst Checks (some_eq q) (build-IsChecked x a s p, tt)
build-IsChecked (w_opt x) b s e =
    let (a, p, q) = >>=-some (build x) _ e in subst Checks (some_eq q) (build-IsChecked x a s p, tt)
build-IsChecked (w_pred x) b s e =
    let (a, p, q) = >>=-some (build x) _ e in
    without_captures-elim a.pattern _ b q (λ z. (z, build-IsChecked x a s p, tt))
build-IsChecked (w_neg_pred x) b s e =
    let (a, p, q) = >>=-some (build x) _ e in
    without_captures-elim a.pattern _ b q (λ z. (z, build-IsChecked x a s p, tt))
build-IsChecked (w_rep x) b s e =
    let (a, p, q) = >>=-some (build x) _ e in repeated-IsChecked a b (build-IsChecked x a s p) q
build-IsChecked (w_not x) b s e =
    let (a, p, q) = >>=-some (build x) _ e in
    without_captures-elim a.pattern _ b q (λ z. (z, build-IsChecked x a s p, tt))
build-IsChecked (w_seq x y) b s e =
    let (a, p, q) = >>=-some (build x) _ e in
    let (d, t, u) = >>=-some (build y) _ q in
    sequence-IsChecked a d b (build-IsChecked x a s.0 p) (build-IsChecked y d s.1 t) u
build-IsChecked (w_alt x y) b s e =
    let (a, p, q) = >>=-some (build x) _ e in
    let (d, t, u) = >>=-some (build y) _ q in
    subst Checks (some_eq u)
      (alternative-IsChecked a d (build-IsChecked x a s.0 p) (build-IsChecked y d s.1 t))
build-IsChecked (w_children x y) b s e =
    let (a, p, q) = >>=-some (build x) _ e in
    let (d, t, u) = >>=-some (build y) _ q in
    subst Checks (some_eq u) (build-IsChecked x a s.0 p, build-IsChecked y d s.1 t, tt)

-- Every pattern that the operators build with no capture under an action is guarded, so that its
-- frames undo the captures of a failed part.
pub build-IsGuarded :
    (x : Written) (b : Built) → ActsOnPlain x → build x ≡ some b → IsGuarded b.pattern
build-IsGuarded x b s e = IsChecked-IsGuarded b.pattern (build-IsChecked x b s e)

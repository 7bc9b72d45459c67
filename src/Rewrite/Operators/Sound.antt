-- ===== src/Rewrite/Operators/Sound.antt =====
-- The quick test of a pattern never rules out a place where the pattern matches.
use trieste.Prelude.{Option, none, some, ◌∷◌, ◌≡◌, refl, sym, subst}
use trieste.Rewrite.Pattern.{done, anything, negation}
use trieste.Rewrite.Operators.{
  Built, Written, w_any, w_start, w_end, w_tokens, w_text, w_in, w_act, w_named, w_opt, w_pred,
  w_neg_pred, w_rep, w_not, w_seq, w_alt, w_children, build, ahead, not_ahead, negated, ◌>>=◌,
}
use trieste.Rewrite.Operators.Admits.{IsOptional}
use trieste.Rewrite.Operators.Single.{
  some_eq, IsSound, match_any-IsSound, tokens-IsSound, token_text-IsSound, start-IsSound,
  finish-IsSound, in_any-IsSound,
}
use trieste.Rewrite.Operators.Composed.{
  act-IsSound, named-IsSound, with_children-IsSound, optional-IsSound, pred-IsSound,
  neg_pred-IsSound, alternative-IsSound, sequence-IsSound, without_captures-some, repeated-IsSound,
}

-- What is made optional or repeated, and may begin with anything, has no parents listed.
abbrev pub IsSafe : Written → Type 0
IsSafe (w_act f x) = IsSafe x
IsSafe (w_named t x) = IsSafe x
IsSafe (w_opt x) = IsSafe x × ((b : Built) → build x ≡ some b → IsOptional b.fast)
IsSafe (w_pred x) = IsSafe x
IsSafe (w_neg_pred x) = IsSafe x
IsSafe (w_rep x) = IsSafe x × ((b : Built) → build x ≡ some b → IsOptional b.fast)
IsSafe (w_not x) = IsSafe x
IsSafe (w_seq x y) = IsSafe x × IsSafe y
IsSafe (w_alt x y) = IsSafe x × IsSafe y
IsSafe (w_children x y) = IsSafe x × IsSafe y
IsSafe _ = Unit

pub >>=-some {ℓ κ} :
    {A : Type ℓ} {B : Type κ} (o : Option A) (f : A → Option B) {r : B}
    → (o >>= f) ≡ some r
    → (a : A) × (o ≡ some a) × (f a ≡ some r)
>>=-some none f e = absurd (cc)
>>=-some (some a) f e = (a, refl, e)

-- Where a pattern that the operators build from safe operands matches, the quick test says so: the
-- parent is one of `parents`, and the pattern may begin with anything, or took no node, or took
-- first a node of one of `starts`.
pub build-IsSound : (x : Written) (b : Built) → IsSafe x → build x ≡ some b → IsSound b
unfolding build ahead not_ahead negated
build-IsSound w_any b s e = subst IsSound (some_eq e) (match_any-IsSound (anything done))
build-IsSound w_start b s e = subst IsSound (some_eq e) start-IsSound
build-IsSound w_end b s e = subst IsSound (some_eq e) finish-IsSound
build-IsSound (w_tokens t ts) b s e = subst IsSound (some_eq e) (tokens-IsSound (t ∷ ts))
build-IsSound (w_text t full) b s e = subst IsSound (some_eq e) (token_text-IsSound t full)
build-IsSound (w_in t ts) b s e = subst IsSound (some_eq e) (in_any-IsSound (t ∷ ts))
build-IsSound (w_act f x) b s e =
    let (a, p, q) = >>=-some (build x) _ e in
    subst IsSound (some_eq q) (act-IsSound a (build-IsSound x a s p) f)
build-IsSound (w_named t x) b s e =
    let (a, p, q) = >>=-some (build x) _ e in
    subst IsSound (some_eq q) (named-IsSound a (build-IsSound x a s p) t)
build-IsSound (w_opt x) b s e =
    let (a, p, q) = >>=-some (build x) _ e in
    subst IsSound (some_eq q) (optional-IsSound a (build-IsSound x a s.0 p) (s.1 a p))
build-IsSound (w_pred x) b s e =
    let (a, p, q) = >>=-some (build x) _ e in
    subst IsSound (sym (without_captures-some a.pattern _ b q)) (pred-IsSound a.pattern)
build-IsSound (w_neg_pred x) b s e =
    let (a, p, q) = >>=-some (build x) _ e in
    subst IsSound (sym (without_captures-some a.pattern _ b q)) (neg_pred-IsSound a.pattern)
build-IsSound (w_rep x) b s e =
    let (a, p, q) = >>=-some (build x) _ e in
    repeated-IsSound a b (s.1 a p) (build-IsSound x a s.0 p) q
build-IsSound (w_not x) b s e =
    let (a, p, q) = >>=-some (build x) _ e in
    subst IsSound (sym (without_captures-some a.pattern _ b q))
      (match_any-IsSound (negation a.pattern done))
build-IsSound (w_seq x y) b s e =
    let (a, p, q) = >>=-some (build x) _ e in
    let (d, t, u) = >>=-some (build y) _ q in
    sequence-IsSound a d b (build-IsSound x a s.0 p) (build-IsSound y d s.1 t) u
build-IsSound (w_alt x y) b s e =
    let (a, p, q) = >>=-some (build x) _ e in
    let (d, t, u) = >>=-some (build y) _ q in
    subst IsSound (some_eq u)
      (alternative-IsSound a d (build-IsSound x a s.0 p) (build-IsSound y d s.1 t))
build-IsSound (w_children x y) b s e =
    let (a, p, q) = >>=-some (build x) _ e in
    let (d, t, u) = >>=-some (build y) _ q in
    subst IsSound (some_eq u) (with_children-IsSound a (build-IsSound x a s.0 p) d)

-- ===== src/Pass/Select.antt =====
-- To try the rules that the map lists is to try all the rules of the pass.
use trieste.Prelude.{
  Bool, true, false, ◌&&◌, ◌||◌, Option, none, some, List, [], ◌∷◌, ◌++◌, elem, ◌==◌, if◌then◌else◌,
  ◌≡◌, refl, sym, ap, ◌∙◌, subst, Bool-cases, inl, inr, ◌⊎◌, All, arith,
}
use trieste.Ast.{Token}
use trieste.DefaultMap.{DefaultMap, get}
use trieste.DefaultMap.Laws.{same_entry}
use trieste.Rewrite.Operators.{FastPattern, is_empty}
use trieste.Pass.RuleMap.{
  start_copies, parent_copies, starts_filed, filed, all_filed, applies, compile_rules,
  get-compile_rules,
}

abbrev pub or_else {ℓ} : {A : Type ℓ} → Option A → Option A → Option A
or_else (some a) o = some a
or_else none o = o

-- The result of the first rule that gives one.
unfoldable pub try_list {ℓ} : {R : Type 0} {A : Type ℓ} → (R → Option A) → List R → Option A
try_list f [] = none
try_list f (r ∷ rs) = or_else (f r) (try_list f rs)

or_else_assoc {ℓ} :
    {A : Type ℓ} (a b c : Option A) → or_else (or_else a b) c ≡ or_else a (or_else b c)
or_else_assoc none b c = refl
or_else_assoc (some x) b c = refl

or_else_self {ℓ} : {A : Type ℓ} (a : Option A) → or_else a a ≡ a
or_else_self none = refl
or_else_self (some x) = refl

or_else-none {ℓ} : {A : Type ℓ} (a : Option A) → or_else a none ≡ a
or_else-none none = refl
or_else-none (some x) = refl

try_list-append {ℓ} :
    {R : Type 0} {A : Type ℓ} (f : R → Option A) (xs ys : List R)
    → try_list f (xs ++ ys) ≡ or_else (try_list f xs) (try_list f ys)
unfolding try_list
try_list-append f [] ys = refl
try_list-append f (x ∷ xs) ys =
    ap (or_else (f x)) (try_list-append f xs ys)
    ∙ sym (or_else_assoc (f x) (try_list f xs) (try_list f ys))

module _ {ℓ} {R : Type 0} {A : Type ℓ} (fast : R → FastPattern) (f : R → Option A) where
  -- The filed copies of a rule are tried as the rule is, or there are none and `b` fails.
  abbrev Filed : R → List R → Bool → Type ℓ
  Filed r rs b = (try_list f rs ≡ f r) ⊎ ((try_list f rs ≡ none) × (b ≡ false))

  Filed-one : (r : R) → Filed r (r ∷ []) true
  unfolding try_list
  Filed-one r = inl (or_else-none (f r))

  Filed-append :
      (r : R) (xs ys : List R) (a b : Bool)
      → Filed r xs a
      → Filed r ys b
      → Filed r (xs ++ ys) (a || b)
  Filed-append r xs ys a b (inl p) (inl q) =
      inl (try_list-append f xs ys ∙ rw (p, q) (or_else_self (f r)))
  Filed-append r xs ys a b (inl p) (inr q) =
      inl (try_list-append f xs ys ∙ rw (p, q.0) (or_else-none (f r)))
  Filed-append r xs ys a b (inr p) (inl q) = inl (try_list-append f xs ys ∙ rw (p.0, q))
  Filed-append r xs ys a b (inr p) (inr q) =
      inr (try_list-append f xs ys ∙ rw (p.0, q.0), rw (p.1, q.1))

  Filed-bool : (r : R) (rs : List R) (a b : Bool) → a ≡ b → Filed r rs a → Filed r rs b
  Filed-bool r rs a b e h = subst (Filed r rs) e h

  -- A token shares its own entry.
  Filed-entry :
      (r : R) (rs : List R) (b : Bool) (s t : Token)
      → Filed r rs b
      → Filed r (if same_entry s t then rs else []) (t == s && b)
  unfolding try_list
  Filed-entry r rs b s t h = elim (Bool-cases (same_entry s t)) [
    | inl e ↦ rw e (weaken h)
    | inr e ↦ rw e (inr (refl, other e))
  ]
    where
      weaken : Filed r rs b → Filed r rs (t == s && b)
      weaken (inl p) = inl p
      weaken (inr p) = inr (p.0, ground arith)

      other : same_entry s t ≡ false → (t == s && b) ≡ false
      other e = ground arith

  start_copies-Filed :
      (r : R) (ss : List Token) (t : Token) → Filed r (start_copies fast r ss t) (elem t ss)
  unfolding try_list
  start_copies-Filed r [] t = inr (refl, refl)
  start_copies-Filed r (s ∷ ss) t = Filed-bool r _ _ _ (ground arith) (
      Filed-append r _ (start_copies fast r ss t) (t == s && true) (elem t ss)
        (Filed-entry r (r ∷ []) true s t (Filed-one r)) (start_copies-Filed r ss t))

  starts_filed-Filed :
      (r : R) (t : Token)
      → Filed r
          (starts_filed fast r t)
          ((is_empty (fast r).starts || (fast r).pass_through) || elem t (fast r).starts)
  unfolding starts_filed
  starts_filed-Filed r t = elim (Bool-cases (is_empty (fast r).starts || (fast r).pass_through)) [
    | inl e ↦ rw e (Filed-one r)
    | inr e ↦ rw e (start_copies-Filed r (fast r).starts t)
  ]

  parent_copies-Filed :
      (r : R) (ss : List Token) (p t : Token) (b : Bool)
      → Filed r (starts_filed fast r t) b
      → Filed r (parent_copies fast r ss p t) (elem p ss && b)
  unfolding try_list
  parent_copies-Filed r [] p t b h = inr (refl, refl)
  parent_copies-Filed r (s ∷ ss) p t b h = Filed-bool r _ _ _ (ground arith) (
      Filed-append r _ (parent_copies fast r ss p t) (p == s && b) (elem p ss && b)
        (Filed-entry r (starts_filed fast r t) b s p h) (parent_copies-Filed r ss p t b h))

  filed-Filed : (r : R) (p t : Token) → Filed r (filed fast r p t) (applies fast r p t)
  unfolding filed
  filed-Filed r p t = elim (Bool-cases (is_empty (fast r).parents)) [
    | inl e ↦ rw e (starts_filed-Filed r t)
    | inr e ↦ rw e (parent_copies-Filed r (fast r).parents p t _ (starts_filed-Filed r t))
  ]

  all_filed-try :
      (rs : List R) (p t : Token)
      → All (λ r. applies fast r p t ≡ false → f r ≡ none) rs
      → try_list f (all_filed fast rs p t) ≡ try_list f rs
  unfolding all_filed try_list
  all_filed-try [] p t h = refl
  all_filed-try (r ∷ rs) p t h =
      try_list-append f (filed fast r p t) (all_filed fast rs p t)
      ∙ ap (or_else (try_list f (filed fast r p t))) (all_filed-try rs p t h.1)
      ∙ ap (λ o. or_else o (try_list f rs)) (one (filed-Filed r p t))
    where
      one : Filed r (filed fast r p t) (applies fast r p t) → try_list f (filed fast r p t) ≡ f r
      one (inl q) = q
      one (inr q) = q.0 ∙ sym (h.0 q.1)

  -- Where a rule that is not for this parent and first token gives nothing, the first result among
  -- the rules that the compiled map lists is the first result among all rules of the pass.
  pub try-compile_rules :
      (rs : List R) (m : DefaultMap (DefaultMap (List R))) (p t : Token)
      → All (λ r. applies fast r p t ≡ false → f r ≡ none) rs
      → try_list f (get (get (compile_rules fast rs m) p) t) ≡ try_list f rs
  try-compile_rules rs m p t h =
      ap (try_list f) (get-compile_rules fast rs m p t) ∙ all_filed-try rs p t h

-- What holds of all rules of the pass holds of all rules that the compiled map lists.
module _ {R : Type 0} (fast : R → FastPattern) (P : R → Type 0) where
  All-append : (xs ys : List R) → All P xs → All P ys → All P (xs ++ ys)
  All-append [] ys h k = k
  All-append (x ∷ xs) ys h k = (h.0, All-append xs ys h.1 k)

  All-if : (b : Bool) (xs : List R) → All P xs → All P (if b then xs else [])
  All-if true xs h = h
  All-if false xs h = tt

  All-start_copies : (r : R) (ss : List Token) (t : Token) → P r → All P (start_copies fast r ss t)
  All-start_copies r [] t h = tt
  All-start_copies r (s ∷ ss) t h =
      All-append _ _ (All-if (same_entry s t) (r ∷ []) (h, tt)) (All-start_copies r ss t h)

  All-starts_filed : (r : R) (t : Token) → P r → All P (starts_filed fast r t)
  unfolding starts_filed
  All-starts_filed r t h = elim (Bool-cases (is_empty (fast r).starts || (fast r).pass_through)) [
    | inl e ↦ rw e (h, tt)
    | inr e ↦ rw e (All-start_copies r (fast r).starts t h)
  ]

  All-parent_copies :
      (r : R) (ss : List Token) (p t : Token) → P r → All P (parent_copies fast r ss p t)
  All-parent_copies r [] p t h = tt
  All-parent_copies r (s ∷ ss) p t h =
      All-append _ _ (All-if (same_entry s p) _ (All-starts_filed r t h))
        (All-parent_copies r ss p t h)

  All-all_filed : (rs : List R) (p t : Token) → All P rs → All P (all_filed fast rs p t)
  unfolding all_filed filed
  All-all_filed [] p t h = tt
  All-all_filed (r ∷ rs) p t h = elim (Bool-cases (is_empty (fast r).parents)) [
    | inl e ↦ rw e (All-append _ _ (All-starts_filed r t h.0) (All-all_filed rs p t h.1))
    | inr e ↦
        rw e
          (All-append _ _ (All-parent_copies r (fast r).parents p t h.0) (All-all_filed rs p t h.1))
  ]

  pub All-compile_rules :
      (rs : List R) (m : DefaultMap (DefaultMap (List R))) (p t : Token)
      → All P rs
      → All P (get (get (compile_rules fast rs m) p) t)
  All-compile_rules rs m p t h =
      subst (All P) (sym (get-compile_rules fast rs m p t)) (All-all_filed rs p t h)

-- ===== src/Rewrite/Operators/Single.antt =====
-- What the quick test of a pattern of one class promises, and that it keeps it.
use trieste.Prelude.{
  ℕ, suc, Bool, true, false, ◌&&◌, ◌||◌, none, some, List, [], ◌∷◌, elem, ◌==◌, if◌then◌else◌, ◌≡◌,
  refl, arith,
}
use trieste.Source.{Location}
use trieste.Ast.{Token, Node, node_type}
use trieste.Rewrite.Frames.{Match}
use trieste.Rewrite.Pattern.{
  Pattern, done, Place, here, at_end, Outcome, matched, failed, fault, diverge, on, test_node,
  match, of_type, full_match,
}
use trieste.Rewrite.Operators.{
  FastPattern, any_first, match_any, match_pred, match_token, match_parent, to_set, Built, start,
  finish, tokens, token_text, in_any,
}
use trieste.Rewrite.Operators.Admits.{Admits, parent_ok, starts_ok, first_in, elem-union}

-- If the run matches, `P` holds of the index that it ends at.
abbrev pub Ends : (ℕ → Type 0) → Outcome → Type 0
Ends P (matched j n) = P j
Ends P _ = Unit

pub Ends-on :
    (P Q : ℕ → Type 0) (o : Outcome) (f : ℕ → Match → Outcome) (g : Match → Outcome)
    → Ends P o
    → ((j : ℕ) (n : Match) → P j → Ends Q (f j n))
    → ((n : Match) → Ends Q (g n))
    → Ends Q (on o f g)
Ends-on P Q (matched j n) f g h a b = a j n h
Ends-on P Q (failed n) f g h a b = b n
Ends-on P Q fault f g h a b = tt
Ends-on P Q diverge f g h a b = tt

pub Ends-any : (P : ℕ → Type 0) (o : Outcome) → ((j : ℕ) → P j) → Ends P o
Ends-any P (matched j n) h = h j
Ends-any P (failed n) h = tt
Ends-any P fault h = tt
Ends-any P diverge h = tt

pub Ends-map : {P Q : ℕ → Type 0} → ((j : ℕ) → P j → Q j) → (o : Outcome) → Ends P o → Ends Q o
Ends-map f (matched j n) h = f j h
Ends-map f (failed n) h = tt
Ends-map f fault h = tt
Ends-map f diverge h = tt

pub some_eq {ℓ} : {A : Type ℓ} {x y : A} → some x ≡ some y → x ≡ y
some_eq e = cc

pub Ends-cases :
    (P : ℕ → Type 0) (b : Bool) (o q : Outcome)
    → (b ≡ true → Ends P o)
    → (b ≡ false → Ends P q)
    → Ends P (elim b [ true ↦ o | false ↦ q ])
Ends-cases P true o q h k = h refl
Ends-cases P false o q h k = k refl

pub Ends-if :
    (P : ℕ → Type 0) (b : Bool) (o q : Outcome)
    → (b ≡ true → Ends P o)
    → (b ≡ false → Ends P q)
    → Ends P (if b then o else q)
Ends-if P true o q h k = h refl
Ends-if P false o q h k = k refl

abbrev pub IsSound : Built → Type 0
IsSound b = (c : Place) (i : ℕ) (m : Match) → Ends (Admits b.fast c i) (match b.pattern c i m)

-- What a test accepts is a first node of the listed types.
test_node-Admits :
    (test : Node → Bool) (ts : List Token) (c : Place) (i : ℕ) (m : Match)
    → ((n : Node) → test n ≡ true → elem (node_type n) ts ≡ true)
    → Ends (Admits (match_token ts) c i) (test_node test (match done) c i m)
unfolding test_node match parent_ok starts_ok any_first first_in
test_node-Admits test ts c i m h =
    elim (here c i)
      as (λ o.
        Ends
          (λ j.
            (true ≡ true)
            × ((any_first (match_token ts) || ((false && i == j) || first_in (to_set ts) o))
                ≡ true))
          (elim o [
            | none ↦ failed m
            | some n ↦ elim (test n) [ true ↦ matched (suc i) m | false ↦ failed m ]
          ])) [
            | none ↦ tt
            | some n ↦
                Ends-cases _ (test n) _ _
                  (λ e. (refl, ground (arith, h n, elem-union (node_type n) [] ts))) (λ e. tt)
          ]

pub match_any-IsSound : (p : Pattern) → IsSound (record { pattern = p; fast = match_any })
unfolding parent_ok starts_ok any_first
match_any-IsSound p c i m = Ends-any (Admits match_any c i) (match p c i m) (λ j. (refl, refl))

pub tokens-IsSound : (ts : List Token) → IsSound (tokens ts)
unfolding match
tokens-IsSound ts c i m = test_node-Admits (of_type ts) ts c i m (λ n h. h)

pub token_text-IsSound : (t : Token) (full : Location → Bool) → IsSound (token_text t full)
unfolding match
token_text-IsSound t full c i m =
    test_node-Admits (full_match t full) (t ∷ []) c i m (λ n h. ground arith)

-- A pattern that stays where it is, under the parents that it allows.
pub stay :
    (f : FastPattern) (c : Place) (i : ℕ)
    → f.pass_through ≡ true
    → parent_ok f (node_type c.parent) ≡ true
    → Admits f c i i
unfolding starts_ok
stay f c i h k = (k, ground arith)

pub start-IsSound : IsSound start
unfolding match parent_ok
start-IsSound c i m = Ends-cases _ (i == 0) _ _ (λ e. stay match_pred c i refl refl) (λ e. tt)

pub finish-IsSound : IsSound finish
unfolding match parent_ok
finish-IsSound c i m = Ends-if _ (at_end c i) _ _ (λ e. stay match_pred c i refl refl) (λ e. tt)

pub in_any-IsSound : (ts : List Token) → IsSound (in_any ts)
unfolding match parent_ok
in_any-IsSound ts c i m =
    Ends-cases _ (elem (node_type c.parent) ts) _ _
      (λ e. stay (match_parent ts) c i refl (ground (arith, elem-union (node_type c.parent) [] ts)))
      (λ e. tt)

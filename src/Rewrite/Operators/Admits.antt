-- ===== src/Rewrite/Operators/Admits.antt =====
-- What a `FastPattern` claims of a match from one index to another, through each combination.
use trieste.Prelude.{
  ℕ, Bool, true, false, ◌&&◌, ◌||◌, Option, none, some, List, [], ◌∷◌, ◌++◌, elem, ◌==◌, ◌≡◌, refl,
  arith, Bool-cases, inl, inr, ==_iff,
}
use trieste.Ast.{Token, Node, node_type}
use trieste.Rewrite.Pattern.{Place, here}
use trieste.Rewrite.Operators.{
  FastPattern, is_empty, any_first, match_choice, match_seq, match_opt, intersect, union, insert,
}

pub elem-append : (a : ℕ) (xs ys : List ℕ) → elem a (xs ++ ys) ≡ (elem a xs || elem a ys)
elem-append a [] ys = refl
elem-append a (x ∷ xs) ys = ground (arith, elem-append a xs ys)

elem-intersect : (a : ℕ) (xs ys : List ℕ) → elem a (intersect xs ys) ≡ (elem a xs && elem a ys)
unfolding intersect
elem-intersect a [] ys = refl
elem-intersect a (x ∷ xs) ys = ground (arith, elem-intersect a xs ys)

elem-insert : (a t : ℕ) (ts : List ℕ) → elem a (insert t ts) ≡ (elem a ts || a == t)
unfolding insert
elem-insert a t ts = elim (Bool-cases (elem t ts)) [
  | inl e ↦ rw e (ground (arith, elem-eq a t ts))
  | inr e ↦ rw e (ground arith)
]
  where
    elem-eq : (a t : ℕ) (ts : List ℕ) → elem t ts ≡ true → (a == t) ≡ true → elem a ts ≡ true
    elem-eq a t ts h k = rw ((==_iff a t).0 k) h

pub elem-union : (a : ℕ) (xs ys : List ℕ) → elem a (union xs ys) ≡ (elem a xs || elem a ys)
unfolding union
elem-union a xs [] = ground arith
elem-union a xs (y ∷ ys) = ground (arith, elem-union a (insert y xs) ys, elem-insert a y xs)

is_empty-insert : (t : ℕ) (ts : List ℕ) → is_empty (insert t ts) ≡ false
unfolding insert
is_empty-insert t [] = refl
is_empty-insert t (x ∷ xs) = ground arith

is_empty-union : (xs ys : List ℕ) → is_empty (union xs ys) ≡ (is_empty xs && is_empty ys)
unfolding union
is_empty-union xs [] = ground arith
is_empty-union xs (y ∷ ys) = ground (arith, is_empty-union (insert y xs) ys, is_empty-insert y xs)

elem-is_empty : (a : ℕ) (xs : List ℕ) → elem a xs ≡ true → is_empty xs ≡ false
elem-is_empty a [] h = cc
elem-is_empty a (x ∷ xs) h = refl

-- The parent is one that the pattern allows.
unfoldable pub parent_ok : FastPattern → Token → Bool
parent_ok f t = is_empty f.parents || elem t f.parents

unfoldable pub first_in : List Token → Option Node → Bool
first_in ts none = false
first_in ts (some n) = elem (node_type n) ts

-- The pattern may begin with anything, or took nothing, or took a first node that it lists.
unfoldable pub starts_ok : FastPattern → Place → ℕ → ℕ → Bool
unfolding any_first
starts_ok f c i j = any_first f || ((f.pass_through && i == j) || first_in f.starts (here c i))

abbrev pub Admits : FastPattern → Place → ℕ → ℕ → Type 0
Admits f c i j = (parent_ok f (node_type c.parent) ≡ true) × (starts_ok f c i j ≡ true)

first_in-union :
    (xs ys : List Token) (o : Option Node)
    → first_in (union xs ys) o ≡ (first_in xs o || first_in ys o)
unfolding first_in
first_in-union xs ys none = refl
first_in-union xs ys (some n) = elem-union (node_type n) xs ys

first_in-is_empty : (xs : List Token) (o : Option Node) → first_in xs o ≡ true → is_empty xs ≡ false
unfolding first_in
first_in-is_empty xs none h = cc
first_in-is_empty xs (some n) h = elem-is_empty (node_type n) xs h

parent_ok-seq :
    (f g : FastPattern) (t : Token)
    → parent_ok f t ≡ true
    → parent_ok g t ≡ true
    → parent_ok (match_seq f g) t ≡ true
unfolding parent_ok match_seq
parent_ok-seq f g t h k = ground (arith, elem-intersect t f.parents g.parents)

parent_ok-choice :
    (f g : FastPattern) (t : Token)
    → (parent_ok f t || parent_ok g t) ≡ true
    → parent_ok (match_choice f g) t ≡ true
unfolding parent_ok match_choice
parent_ok-choice f g t h = ground (arith, elem-union t f.parents g.parents)

starts_ok-seq :
    (f g : FastPattern) (c : Place) (i j k : ℕ)
    → starts_ok f c i j ≡ true
    → starts_ok g c j k ≡ true
    → starts_ok (match_seq f g) c i k ≡ true
unfolding starts_ok match_seq
starts_ok-seq f g c i j k p q = ground (
  arith,
  first_in-union f.starts g.starts (here c i),
  is_empty-union f.starts g.starts,
  first_in-is_empty f.starts (here c i),
  first_in-is_empty g.starts (here c j),
)

starts_ok-choice :
    (f g : FastPattern) (c : Place) (i j : ℕ)
    → (starts_ok f c i j || starts_ok g c i j) ≡ true
    → starts_ok (match_choice f g) c i j ≡ true
unfolding starts_ok match_choice
starts_ok-choice f g c i j p = ground (
  arith,
  first_in-union f.starts g.starts (here c i),
  is_empty-union f.starts g.starts,
  first_in-is_empty f.starts (here c i),
  first_in-is_empty g.starts (here c i),
)

pub Admits-seq :
    (f g : FastPattern) (c : Place) (i j k : ℕ)
    → Admits f c i j
    → Admits g c j k
    → Admits (match_seq f g) c i k
Admits-seq f g c i j k p q =
    (parent_ok-seq f g (node_type c.parent) p.0 q.0, starts_ok-seq f g c i j k p.1 q.1)

pub Admits-choice_left :
    (f g : FastPattern) (c : Place) (i j : ℕ) → Admits f c i j → Admits (match_choice f g) c i j
Admits-choice_left f g c i j p = (
  parent_ok-choice f g (node_type c.parent) (ground arith),
  starts_ok-choice f g c i j (ground arith),
)

pub Admits-choice_right :
    (f g : FastPattern) (c : Place) (i j : ℕ) → Admits g c i j → Admits (match_choice f g) c i j
Admits-choice_right f g c i j p = (
  parent_ok-choice f g (node_type c.parent) (ground arith),
  starts_ok-choice f g c i j (ground arith),
)

-- `match_opt` keeps the parents of a pattern that may begin with anything.
abbrev pub IsOptional : FastPattern → Type 0
IsOptional f = any_first f ≡ true → is_empty f.parents ≡ true

pub Admits-opt :
    (f : FastPattern) (c : Place) (i j : ℕ)
    → IsOptional f
    → starts_ok f c i j ≡ true
    → Admits (match_opt f) c i j
unfolding parent_ok starts_ok match_opt
Admits-opt f c i j s p = (ground (arith, s), ground (arith, s))

pub Admits-opt_none :
    (f : FastPattern) (c : Place) (i : ℕ) → IsOptional f → Admits (match_opt f) c i i
unfolding parent_ok starts_ok match_opt
Admits-opt_none f c i s = (ground (arith, s), ground (arith, s))

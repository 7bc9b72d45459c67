-- ===== src/Rewrite/Pattern/Spec.antt =====
-- What a pattern means, with no frames: an ordered choice that commits, over a map of captures that
-- a failure simply drops.
use trieste.Prelude.{
  ℕ, zero, suc, Bool, true, false, Option, none, some, ◌∷◌, length, elem, ◌==◌, if◌then◌else◌,
}
use trieste.Ast.{Token, Node, node_type, children}
use trieste.Rewrite.Frames.{Range}
use trieste.Rewrite.Pattern.{
  Pattern, done, cap, anything, token_match, regex_match, opt, rep, negation, choice, inside,
  inside_star, first, last, children_of, pred, neg_pred, action, Place, here, at_end, slice,
  descend, some_in, any_node, of_type, full_match,
}

abbrev pub Env : Type 0
Env = Token → Option Range

abbrev pub bind : Token → Range → Env → Env
bind t r e u = if t == u then some r else e u

pub data Answer : Type 0 where
  found : ℕ → Env → Answer
  nothing : Answer
  stray : Answer
  endless : Answer

abbrev pub either : Answer → (ℕ → Env → Answer) → Answer → Answer
either (found i e) f g = f i e
either nothing f g = g
either stray f g = stray
either endless f g = endless

abbrev pub Reading : Type 0
Reading = Place → ℕ → Env → Answer

unfoldable pub repeat : ℕ → Reading → Place → ℕ → Env → Answer
repeat zero f c i e = if at_end c i then found i e else endless
repeat (suc fuel) f c i e = elim (at_end c i) [
  | true ↦ found i e
  | false ↦ either (f c i e) (λ j d. if j == i then endless else repeat fuel f c j e) (found i e)
]

unfoldable pub one_node : (Node → Bool) → Reading → Reading
one_node test k c i e = elim (here c i) [
  | none ↦ nothing
  | some n ↦ elim (test n) [ true ↦ k c (suc i) e | false ↦ nothing ]
]

unfoldable pub reads : Pattern → Reading
unfolding repeat one_node some_in
reads done c i e = found i e
reads (cap t p k) c i e =
    either (reads p c i e) (λ j d. reads k c j (bind t (slice c i j) d)) nothing
reads (anything k) c i e = one_node any_node (reads k) c i e
reads (token_match types k) c i e = one_node (of_type types) (reads k) c i e
reads (regex_match t full k) c i e = one_node (full_match t full) (reads k) c i e
reads (opt p k) c i e = either (reads p c i e) (λ j d. reads k c j d) (reads k c i e)
reads (rep p k) c i e =
    either (repeat (length (children c.parent)) (reads p) c i e) (λ j d. reads k c j e) nothing
reads (negation p k) c i e = elim (at_end c i) [
  | true ↦ nothing
  | false ↦ either (reads p c i e) (λ j d. nothing) (reads k c (suc i) e)
]
reads (choice b p q k) c i e =
    either (reads p c i e) (λ j d. reads k c j d)
      (either (reads q c i e) (λ j d. reads k c j d) nothing)
reads (inside types k) c i e = elim (elem (node_type c.parent) types) [
  | true ↦ reads k c i e
  | false ↦ nothing
]
reads (inside_star types k) c i e = elim (some_in types (node_type c.parent ∷ c.above)) [
  | true ↦ reads k c i e
  | false ↦ nothing
]
reads (first k) c i e = elim (i == 0) [ true ↦ reads k c i e | false ↦ nothing ]
reads last c i e = if at_end c i then found i e else nothing
reads (children_of p q k) c i e =
    either (reads p c i e)
      (λ j d. elim (here c i) [
        | none ↦ stray
        | some x ↦ either (reads q (descend c x) 0 d) (λ l b. reads k c j b) nothing
      ])
      nothing
reads (pred p k) c i e = either (reads p c i e) (λ j d. reads k c i e) nothing
reads (neg_pred p k) c i e = either (reads p c i e) (λ j d. nothing) (reads k c i e)
reads (action f p k) c i e =
    either (reads p c i e)
      (λ j d. elim (f (slice c i j)) [ true ↦ reads k c j d | false ↦ nothing ]) nothing

-- No capture at any depth, under an action included.
abbrev pub NoCaptures : Pattern → Type 0
NoCaptures done = Unit
NoCaptures (cap _ _ _) = ⊥
NoCaptures (anything k) = NoCaptures k
NoCaptures (token_match _ k) = NoCaptures k
NoCaptures (regex_match _ _ k) = NoCaptures k
NoCaptures (opt p k) = NoCaptures p × NoCaptures k
NoCaptures (rep p k) = NoCaptures p × NoCaptures k
NoCaptures (negation p k) = NoCaptures p × NoCaptures k
NoCaptures (choice _ p q k) = NoCaptures p × NoCaptures q × NoCaptures k
NoCaptures (inside _ k) = NoCaptures k
NoCaptures (inside_star _ k) = NoCaptures k
NoCaptures (first k) = NoCaptures k
NoCaptures last = Unit
NoCaptures (children_of p q k) = NoCaptures p × NoCaptures q × NoCaptures k
NoCaptures (pred p k) = NoCaptures p × NoCaptures k
NoCaptures (neg_pred p k) = NoCaptures p × NoCaptures k
NoCaptures (action _ p k) = NoCaptures p × NoCaptures k

-- Where no frame guards an operand, it has no captures: what the constructors try to ensure.
abbrev pub IsGuarded : Pattern → Type 0
IsGuarded done = Unit
IsGuarded (cap _ p k) = IsGuarded p × IsGuarded k
IsGuarded (anything k) = IsGuarded k
IsGuarded (token_match _ k) = IsGuarded k
IsGuarded (regex_match _ _ k) = IsGuarded k
IsGuarded (opt p k) = IsGuarded p × IsGuarded k
IsGuarded (rep p k) = NoCaptures p × IsGuarded p × IsGuarded k
IsGuarded (negation p k) = NoCaptures p × IsGuarded p × IsGuarded k
IsGuarded (choice true p q k) = IsGuarded p × IsGuarded q × IsGuarded k
IsGuarded (choice false p q k) = NoCaptures p × IsGuarded p × IsGuarded q × IsGuarded k
IsGuarded (inside _ k) = IsGuarded k
IsGuarded (inside_star _ k) = IsGuarded k
IsGuarded (first k) = IsGuarded k
IsGuarded last = Unit
IsGuarded (children_of p q k) = IsGuarded p × IsGuarded q × IsGuarded k
IsGuarded (pred p k) = NoCaptures p × IsGuarded p × IsGuarded k
IsGuarded (neg_pred p k) = NoCaptures p × IsGuarded p × IsGuarded k
IsGuarded (action _ p k) = IsGuarded p × IsGuarded k

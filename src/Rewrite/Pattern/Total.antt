-- ===== src/Rewrite/Pattern/Total.antt =====
-- Which patterns always return: an iteration whose operand takes a node each time it matches ends,
-- and a pattern with children whose own part takes a node does not read past the end.
use trieste.Prelude.{
  ℕ, zero, suc, ◌+◌, ◌≤◌, ◌<◌, ◌≡◌, refl, sym, subst, Bool, true, false, Bool-cases, Option-cases,
  inl, inr, ◌&&◌, ◌||◌, none, some, List, [], ◌∷◌, length, get_elem?, get_elem?-lt, leb, ◌==◌,
  arith, le→leb,
}
use trieste.Ast.{Node, children}
use trieste.Rewrite.Frames.{Match, reset}
use trieste.Rewrite.Pattern.{
  Pattern, done, cap, anything, token_match, regex_match, opt, rep, negation, choice, inside,
  inside_star, first, last, children_of, pred, neg_pred, action, Place, here, at_end, slice,
  descend, any_node, of_type, full_match, match, Outcome, fault, diverge, matched, failed,
}
use trieste.Rewrite.Pattern.Spec.{
  Env, Answer, found, nothing, stray, endless, either, Reading, repeat, one_node, reads, IsGuarded,
}
use trieste.Rewrite.Pattern.Refines.{Agrees, match-reset, no_captures}

-- A match of the pattern takes a node, whatever it is matched against.
abbrev pub moves : Pattern → Bool
moves done = false
moves (cap _ p k) = moves p || moves k
moves (anything k) = true
moves (token_match _ k) = true
moves (regex_match _ _ k) = true
moves (opt _ k) = moves k
moves (rep _ k) = moves k
moves (negation _ k) = true
moves (choice _ p q k) = (moves p && moves q) || moves k
moves (inside _ k) = moves k
moves (inside_star _ k) = moves k
moves (first k) = moves k
moves last = false
moves (children_of p _ k) = moves p || moves k
moves (pred _ k) = moves k
moves (neg_pred _ k) = moves k
moves (action _ p k) = moves p || moves k

abbrev pub IsTotal : Pattern → Type 0
IsTotal done = Unit
IsTotal (cap _ p k) = IsTotal p × IsTotal k
IsTotal (anything k) = IsTotal k
IsTotal (token_match _ k) = IsTotal k
IsTotal (regex_match _ _ k) = IsTotal k
IsTotal (opt p k) = IsTotal p × IsTotal k
IsTotal (rep p k) = (moves p ≡ true) × IsTotal p × IsTotal k
IsTotal (negation p k) = IsTotal p × IsTotal k
IsTotal (choice _ p q k) = IsTotal p × IsTotal q × IsTotal k
IsTotal (inside _ k) = IsTotal k
IsTotal (inside_star _ k) = IsTotal k
IsTotal (first k) = IsTotal k
IsTotal last = Unit
IsTotal (children_of p q k) = (moves p ≡ true) × IsTotal p × IsTotal q × IsTotal k
IsTotal (pred p k) = IsTotal p × IsTotal k
IsTotal (neg_pred p k) = IsTotal p × IsTotal k
IsTotal (action _ p k) = IsTotal p × IsTotal k

-- A match from `i` to `j`, which moves if `b`, and not past the end.
abbrev pub Moved : Bool → Place → ℕ → ℕ → Type 0
Moved b c i j = (i ≤ j) × (i < j → j ≤ length (children c.parent)) × (b ≡ true → i < j)

abbrev pub Ok : Bool → Place → ℕ → Answer → Type 0
Ok b c i (found j d) = Moved b c i j
Ok b c i nothing = Unit
Ok b c i stray = ⊥
Ok b c i endless = ⊥

Ok-either :
    (b b' : Bool) (c : Place) (i : ℕ) (a : Answer) (f : ℕ → Env → Answer) (g : Answer)
    → Ok b c i a
    → ((j : ℕ) (d : Env) → Moved b c i j → Ok b' c i (f j d))
    → Ok b' c i g
    → Ok b' c i (either a f g)
Ok-either b b' c i (found j d) f g h k l = k j d h
Ok-either b b' c i nothing f g h k l = l
Ok-either b b' c i stray f g h k l = elim h [ ]
Ok-either b b' c i endless f g h k l = elim h [ ]

-- What follows a match from where it stopped.
Ok-after :
    (a b : Bool) (c : Place) (i j : ℕ) (x : Answer) → Moved a c i j → Ok b c j x → Ok (a || b) c i x
Ok-after a b c i j (found k d) h g = (omega arith, past, ground arith)
  where
    past : i < k → k ≤ length (children c.parent)
    past p = elim (Bool-cases (leb k j)) [
      | inl e ↦ let q : k ≤ j = ground arith in let r = h.1 (omega arith) in omega arith
      | inr e ↦ g.1 (ground arith)
    ]
Ok-after a b c i j nothing h g = tt
Ok-after a b c i j stray h g = elim g [ ]
Ok-after a b c i j endless h g = elim g [ ]

Ok-weaken :
    (a b : Bool) (c : Place) (i : ℕ) (x : Answer) → (b ≡ true → a ≡ true) → Ok a c i x → Ok b c i x
Ok-weaken a b c i (found j d) f h = (h.0, h.1, λ e. h.2 (f e))
Ok-weaken a b c i nothing f h = tt
Ok-weaken a b c i stray f h = elim h [ ]
Ok-weaken a b c i endless f h = elim h [ ]

Ok-bool :
    (b t : Bool) (c : Place) (i : ℕ) (a : Answer)
    → Ok b c i a
    → Ok b c i (elim t [ true ↦ a | false ↦ nothing ])
Ok-bool b true c i a h = h
Ok-bool b false c i a h = tt

Ok-stay : (c : Place) (i : ℕ) (e : Env) → Ok false c i (found i e)
Ok-stay c i e = (omega arith, λ p. absurd (omega arith), λ q. absurd (cc))

Ok-one_node :
    (test : Node → Bool) (k : Reading) (b : Bool) (c : Place) (i : ℕ) (e : Env)
    → Ok b c (suc i) (k c (suc i) e)
    → Ok true c i (one_node test k c i e)
unfolding one_node
Ok-one_node test k b c i e h = elim (Option-cases (here c i)) [
  | inl p ↦ rw (p, one_node) tt
  | inr (x, p) ↦
      rw (p, one_node)
        (Ok-bool true (test x) c i _ (
          Ok-after true b c i (suc i) (k c (suc i) e)
            (omega arith, λ _. get_elem?-lt (children c.parent) i p, λ _. omega arith) h))
]

Ok-repeat :
    (fuel : ℕ) (f : Reading) (c : Place) (i : ℕ) (e : Env)
    → ((j : ℕ) → Ok true c j (f c j e))
    → length (children c.parent) ≤ i + fuel
    → Ok false c i (repeat fuel f c i e)
unfolding repeat
Ok-repeat zero f c i e h k =
    rw (le→leb (length (children c.parent)) i (omega arith), repeat) (Ok-stay c i e)
Ok-repeat (suc fuel) f c i e h k = elim (Bool-cases (at_end c i)) [
  | inl p ↦ rw (p, repeat) (Ok-stay c i e)
  | inr p ↦
      rw (p, repeat)
        (Ok-either true false c i (f c i e) _ (found i e) (h i)
          (λ j d v. rw (differ i j (v.2 refl)) (
            Ok-weaken true false c i _ (λ _. refl)
              (Ok-after true false c i j (repeat fuel f c j e) v
                (Ok-repeat fuel f c j e h (next j (v.2 refl))))))
          (Ok-stay c i e))
]
  where
    next : (j : ℕ) → i < j → length (children c.parent) ≤ j + fuel
    next j v = omega arith

    differ : (i j : ℕ) → i < j → (j == i) ≡ false
    differ i j v = ground arith

-- Where a step may or may not have moved, what follows still has to.
drop_first : (a b : Bool) (c : Place) (i : ℕ) (x : Answer) → Ok (a || b) c i x → Ok b c i x
drop_first a b c i x h = Ok-weaken (a || b) b c i x (λ e. ground arith) h

step : (c : Place) (i : ℕ) → at_end c i ≡ false → Moved true c i (suc i)
step c i h = (omega arith, λ _. ground arith, λ _. omega arith)

get_elem?-none : {A : Type 0} (xs : List A) (i : ℕ) → get_elem? xs i ≡ none → length xs ≤ i
get_elem?-none [] i h = omega arith
get_elem?-none (x ∷ xs) zero h = absurd (clash h)
  where
    clash : some x ≡ none → ⊥
    clash e = cc
get_elem?-none (x ∷ xs) (suc i) h = omega (arith, get_elem?-none xs i h)

inside_children :
    (c : Place) (i j : ℕ) → here c i ≡ none → i < j → j ≤ length (children c.parent) → ⊥
inside_children c i j h p q = omega (arith, get_elem?-none (children c.parent) i h)

-- An answer about another place, followed by one about this place.
Ok-elsewhere :
    (a b : Bool) (d c : Place) (l i : ℕ) (x : Answer) (f : ℕ → Env → Answer)
    → Ok a d l x
    → ((j : ℕ) (e : Env) → Ok b c i (f j e))
    → Ok b c i (either x f nothing)
Ok-elsewhere a b d c l i (found j e) f h k = k j e
Ok-elsewhere a b d c l i nothing f h k = tt
Ok-elsewhere a b d c l i stray f h k = elim h [ ]
Ok-elsewhere a b d c l i endless f h k = elim h [ ]

-- A pattern whose iterations and parents of children move returns on every input: it finds a match
-- that goes forward and, if it moved, not past the end, or it fails.
pub reads-Ok :
    (p : Pattern) → IsTotal p → (c : Place) (i : ℕ) (e : Env) → Ok (moves p) c i (reads p c i e)
unfolding reads
reads-Ok done h c i e = Ok-stay c i e
reads-Ok (cap t p k) h c i e =
    Ok-either (moves p) _ c i (reads p c i e) _ nothing (reads-Ok p h.0 c i e)
      (λ j d v. Ok-after (moves p) (moves k) c i j _ v (reads-Ok k h.1 c j _)) tt
reads-Ok (anything k) h c i e =
    Ok-one_node any_node (reads k) (moves k) c i e (reads-Ok k h c (suc i) e)
reads-Ok (token_match ts k) h c i e =
    Ok-one_node (of_type ts) (reads k) (moves k) c i e (reads-Ok k h c (suc i) e)
reads-Ok (regex_match t r k) h c i e =
    Ok-one_node (full_match t r) (reads k) (moves k) c i e (reads-Ok k h c (suc i) e)
reads-Ok (opt p k) h c i e =
    Ok-either (moves p) (moves k) c i (reads p c i e) _ _ (reads-Ok p h.0 c i e)
      (λ j d v.
        drop_first (moves p) (moves k) c i _
          (Ok-after (moves p) (moves k) c i j _ v (reads-Ok k h.1 c j d)))
      (reads-Ok k h.1 c i e)
reads-Ok (rep p k) h c i e =
    Ok-either false (moves k) c i (repeat (length (children c.parent)) (reads p) c i e) _ nothing
      (Ok-repeat (length (children c.parent)) (reads p) c i e
        (λ j. Ok-weaken (moves p) true c j _ (λ _. h.0) (reads-Ok p h.1 c j e)) (omega arith))
      (λ j d v. Ok-after false (moves k) c i j _ v (reads-Ok k h.2 c j e)) tt
reads-Ok (negation p k) h c i e = elim (Bool-cases (at_end c i)) [
  | inl x ↦ rw (x, reads) tt
  | inr x ↦
      rw (x, reads)
        (Ok-either (moves p) true c i (reads p c i e) _ _ (reads-Ok p h.0 c i e) (λ j d v. tt)
          (Ok-after true (moves k) c i (suc i) _ (step c i x) (reads-Ok k h.1 c (suc i) e)))
]
reads-Ok (choice b p q k) h c i e =
    Ok-either (moves p) _ c i (reads p c i e) _ _ (reads-Ok p h.0 c i e)
      (λ j d v.
        Ok-weaken (moves p || moves k) _ c i _ (λ x. ground arith)
          (Ok-after (moves p) (moves k) c i j _ v (reads-Ok k h.2 c j d)))
      (Ok-either (moves q) _ c i (reads q c i e) _ nothing (reads-Ok q h.1 c i e)
        (λ j d v.
          Ok-weaken (moves q || moves k) _ c i _ (λ x. ground arith)
            (Ok-after (moves q) (moves k) c i j _ v (reads-Ok k h.2 c j d)))
        tt)
reads-Ok (inside ts k) h c i e = Ok-bool (moves k) _ c i _ (reads-Ok k h c i e)
reads-Ok (inside_star ts k) h c i e = Ok-bool (moves k) _ c i _ (reads-Ok k h c i e)
reads-Ok (first k) h c i e = Ok-bool (moves k) _ c i _ (reads-Ok k h c i e)
reads-Ok last h c i e = elim (Bool-cases (at_end c i)) [
  | inl x ↦ rw x (Ok-stay c i e)
  | inr x ↦ rw x tt
]
reads-Ok (children_of p q k) h c i e =
    Ok-either (moves p) _ c i (reads p c i e) _ nothing (reads-Ok p h.1 c i e)
      (λ j d v. elim (Option-cases (here c i)) [
        | inl x ↦ absurd (inside_children c i j x (v.2 h.0) (v.1 (v.2 h.0)))
        | inr (n, x) ↦ rw x (
            Ok-elsewhere (moves q) _ (descend c n) c 0 i (reads q (descend c n) 0 d) _
              (reads-Ok q h.2 (descend c n) 0 d)
              (λ l b. Ok-after (moves p) (moves k) c i j _ v (reads-Ok k h.3 c j b)))
      ])
      tt
reads-Ok (pred p k) h c i e =
    Ok-either (moves p) (moves k) c i (reads p c i e) _ nothing (reads-Ok p h.0 c i e)
      (λ j d v. reads-Ok k h.1 c i e) tt
reads-Ok (neg_pred p k) h c i e =
    Ok-either (moves p) (moves k) c i (reads p c i e) (λ j d. nothing) _ (reads-Ok p h.0 c i e)
      (λ j d v. tt) (reads-Ok k h.1 c i e)
reads-Ok (action f p k) h c i e =
    Ok-either (moves p) _ c i (reads p c i e) _ nothing (reads-Ok p h.0 c i e)
      (λ j d v.
        Ok-bool _ (f (slice c i j)) c i _
          (Ok-after (moves p) (moves k) c i j _ v (reads-Ok k h.1 c j d)))
      tt

abbrev pub Lands : Bool → Place → ℕ → Outcome → Type 0
Lands b c i (matched j n) = Moved b c i j
Lands b c i (failed n) = Unit
Lands b c i fault = ⊥
Lands b c i diverge = ⊥

Lands-Agrees :
    (b : Bool) (c : Place) (i : ℕ) (m : Match) (o : Outcome) (a : Answer)
    → Agrees m o a
    → Ok b c i a
    → Lands b c i o
Lands-Agrees b c i m (matched j n) (found k d) h g = subst (Moved b c i) (sym h.0) g
Lands-Agrees b c i m (failed n) nothing h g = tt
Lands-Agrees b c i m fault stray h g = g
Lands-Agrees b c i m diverge endless h g = g
Lands-Agrees b c i m o a h g = absurd h

-- A guarded pattern, tried after `reset`, whose iterations and whose parents of children take a node
-- whenever they match, returns on every input: it fails, or it matches forward, and if it moved, not
-- past the end of the children, and it did move if the pattern always does. It never reads past the
-- end and its loops end.
pub match-Lands :
    (p : Pattern) (c : Place) (i : ℕ) (m : Match)
    → IsGuarded p
    → IsTotal p
    → Lands (moves p) c i (match p c i (reset m))
match-Lands p c i m g h =
    Lands-Agrees (moves p) c i (reset m) (match p c i (reset m)) (reads p c i no_captures)
      (match-reset p c i m g) (reads-Ok p h c i no_captures)

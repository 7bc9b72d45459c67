-- ===== src/Rewrite/Pattern/Chain.antt =====
-- `set_continuation`, and what a chain of two patterns does.
use trieste.Prelude.{
  ℕ, suc, Bool, true, false, none, some, ◌∷◌, length, elem, ◌==◌, ◌≡◌, refl, ap, Option, sym, subst,
}
use trieste.Ast.{Node, node_type, children}
use trieste.Rewrite.Frames.{Match, set, add_frame, return_to_frame}
use trieste.Rewrite.Pattern.{
  Pattern, done, cap, anything, token_match, regex_match, opt, rep, negation, choice, inside,
  inside_star, first, last, children_of, pred, neg_pred, action, Place, here, at_end, slice,
  descend, some_in, Outcome, matched, failed, fault, diverge, on, Matcher, rep_loop, test_node,
  match, any_node, of_type, full_match,
}

abbrev pub or_throw : Option Pattern → (Pattern → Pattern) → Option Pattern
or_throw none f = none
or_throw (some p) f = some (f p)

-- `p->set_continuation(next)`; `none` is the error thrown after `End`.
unfoldable pub set_continuation : Pattern → Pattern → Option Pattern
set_continuation done q = some q
set_continuation (cap t p k) q = or_throw (set_continuation k q) (cap t p)
set_continuation (anything k) q = or_throw (set_continuation k q) anything
set_continuation (token_match ts k) q = or_throw (set_continuation k q) (token_match ts)
set_continuation (regex_match t r k) q = or_throw (set_continuation k q) (regex_match t r)
set_continuation (opt p k) q = or_throw (set_continuation k q) (opt p)
set_continuation (rep p k) q = or_throw (set_continuation k q) (rep p)
set_continuation (negation p k) q = or_throw (set_continuation k q) (negation p)
set_continuation (choice b o p k) q = or_throw (set_continuation k q) (choice b o p)
set_continuation (inside ts k) q = or_throw (set_continuation k q) (inside ts)
set_continuation (inside_star ts k) q = or_throw (set_continuation k q) (inside_star ts)
set_continuation (first k) q = or_throw (set_continuation k q) first
set_continuation last q = none
set_continuation (children_of o p k) q = or_throw (set_continuation k q) (children_of o p)
set_continuation (pred p k) q = or_throw (set_continuation k q) (pred p)
set_continuation (neg_pred p k) q = or_throw (set_continuation k q) (neg_pred p)
set_continuation (action f p k) q = or_throw (set_continuation k q) (action f p)

-- To run `p`, and on a match to run the continuation from where `p` stopped.
abbrev pub then_run : Outcome → Matcher → Place → Outcome
then_run o k c = on o (λ j n. k c j n) (λ n. failed n)

-- A chain where each branch of a step is followed by the same continuation.
chain_on :
    (o : Outcome) (f f' : ℕ → Match → Outcome) (g g' : Match → Outcome) (k : Matcher) (c : Place)
    → ((j : ℕ) (n : Match) → f' j n ≡ then_run (f j n) k c)
    → ((n : Match) → g' n ≡ then_run (g n) k c)
    → on o f' g' ≡ then_run (on o f g) k c
chain_on (matched i n) f f' g g' k c h e = h i n
chain_on (failed n) f f' g g' k c h e = e n
chain_on fault f f' g g' k c h e = refl
chain_on diverge f f' g g' k c h e = refl

chain_cases :
    (b : Bool) (o o' q q' : Outcome) (k : Matcher) (c : Place)
    → o' ≡ then_run o k c
    → q' ≡ then_run q k c
    → elim b [ true ↦ o' | false ↦ q' ] ≡ then_run (elim b [ true ↦ o | false ↦ q ]) k c
chain_cases true o o' q q' k c h e = h
chain_cases false o o' q q' k c h e = e

chain_node :
    (test : Node → Bool) (f f' k : Matcher) (c : Place) (i : ℕ) (m : Match)
    → f' c (suc i) m ≡ then_run (f c (suc i) m) k c
    → test_node test f' c i m ≡ then_run (test_node test f c i m) k c
unfolding test_node
chain_node test f f' k c i m h =
    elim (here c i)
      as (λ o.
        elim o [
          | none ↦ failed m
          | some n ↦ elim (test n) [ true ↦ f' c (suc i) m | false ↦ failed m ]
        ]
        ≡ then_run
            (elim o [
              | none ↦ failed m
              | some n ↦ elim (test n) [ true ↦ f c (suc i) m | false ↦ failed m ]
            ])
            k c) [ none ↦ refl | some n ↦ chain_cases (test n) _ _ (failed m) _ k c h refl ]

some_eq {ℓ} : {A : Type ℓ} {x y : A} → some x ≡ some y → x ≡ y
some_eq e = cc

-- What holds of each chain that is put together holds of the chain that `or_throw` hands back.
pub or_throw-elim :
    (P : Pattern → Type 0) (o : Option Pattern) (f : Pattern → Pattern) (r : Pattern)
    → or_throw o f ≡ some r
    → ((k : Pattern) → o ≡ some k → P (f k))
    → P r
or_throw-elim P none f r e h = absurd (none_ne_some e)
  where
    none_ne_some : none ≡ some r → ⊥
    none_ne_some p = cc
or_throw-elim P (some p) f r e h = subst P (some_eq e) (h p refl)

-- `r` is `p` followed by `q`, seen from one place.
abbrev Chains : Pattern → Pattern → Place → ℕ → Match → Pattern → Type 0
Chains p q c i m r = match r c i m ≡ then_run (match p c i m) (match q) c

-- A chain built by `set_continuation` runs its first pattern, and on a match goes on with the second
-- from where that one stopped; it fails, faults or diverges where the first pattern does.
pub match-set_continuation :
    (p q r : Pattern) (c : Place) (i : ℕ) (m : Match)
    → set_continuation p q ≡ some r
    → match r c i m ≡ then_run (match p c i m) (match q) c
unfolding match set_continuation
match-set_continuation done q r c i m h = ap (λ z. match z c i m) (sym (some_eq h))
match-set_continuation (cap t p k) q r c i m h =
    or_throw-elim (Chains (cap t p k) q c i m) _ (cap t p) r h (λ l e.
      chain_on (match p c i m) _ _ _ _ (match q) c
        (λ j n. match-set_continuation k q l c j (set t (slice c i j) n) e) (λ n. refl))
match-set_continuation (anything k) q r c i m h =
    or_throw-elim (Chains (anything k) q c i m) _ anything r h (λ l e.
      chain_node any_node (match k) (match l) (match q) c i m
        (match-set_continuation k q l c (suc i) m e))
match-set_continuation (token_match ts k) q r c i m h =
    or_throw-elim (Chains (token_match ts k) q c i m) _ (token_match ts) r h (λ l e.
      chain_node (of_type ts) (match k) (match l) (match q) c i m
        (match-set_continuation k q l c (suc i) m e))
match-set_continuation (regex_match t f k) q r c i m h =
    or_throw-elim (Chains (regex_match t f k) q c i m) _ (regex_match t f) r h (λ l e.
      chain_node (full_match t f) (match k) (match l) (match q) c i m
        (match-set_continuation k q l c (suc i) m e))
match-set_continuation (opt p k) q r c i m h =
    or_throw-elim (Chains (opt p k) q c i m) _ (opt p) r h (λ l e.
      chain_on (match p c i (add_frame m)) _ _ _ _ (match q) c
        (λ j n. match-set_continuation k q l c j n e)
        (λ n. match-set_continuation k q l c i (return_to_frame m.index n) e))
match-set_continuation (rep p k) q r c i m h =
    or_throw-elim (Chains (rep p k) q c i m) _ (rep p) r h (λ l e.
      chain_on (rep_loop (length (children c.parent)) (match p) c i m) _ _ _ _ (match q) c
        (λ j n. match-set_continuation k q l c j n e) (λ n. refl))
match-set_continuation (negation p k) q r c i m h =
    or_throw-elim (Chains (negation p k) q c i m) _ (negation p) r h (λ l e.
      chain_cases (at_end c i) (failed m) _ _ _ (match q) c refl (
        chain_on (match p c i m) _ _ _ _ (match q) c (λ j n. refl)
          (λ n. match-set_continuation k q l c (suc i) n e)))
match-set_continuation (choice true p o k) q r c i m h =
    or_throw-elim (Chains (choice true p o k) q c i m) _ (choice true p o) r h (λ l e.
      chain_on (match p c i (add_frame m)) _ _ _ _ (match q) c
        (λ j n. match-set_continuation k q l c j n e)
        (λ n.
          chain_on (match o c i (return_to_frame m.index n)) _ _ _ _ (match q) c
            (λ j n. match-set_continuation k q l c j n e) (λ n. refl)))
match-set_continuation (choice false p o k) q r c i m h =
    or_throw-elim (Chains (choice false p o k) q c i m) _ (choice false p o) r h (λ l e.
      chain_on (match p c i m) _ _ _ _ (match q) c (λ j n. match-set_continuation k q l c j n e)
        (λ n.
          chain_on (match o c i n) _ _ _ _ (match q) c (λ j n. match-set_continuation k q l c j n e)
            (λ n. refl)))
match-set_continuation (inside ts k) q r c i m h =
    or_throw-elim (Chains (inside ts k) q c i m) _ (inside ts) r h (λ l e.
      chain_cases (elem (node_type c.parent) ts) _ _ (failed m) _ (match q) c
        (match-set_continuation k q l c i m e) refl)
match-set_continuation (inside_star ts k) q r c i m h =
    or_throw-elim (Chains (inside_star ts k) q c i m) _ (inside_star ts) r h (λ l e.
      chain_cases (some_in ts (node_type c.parent ∷ c.above)) _ _ (failed m) _ (match q) c
        (match-set_continuation k q l c i m e) refl)
match-set_continuation (first k) q r c i m h =
    or_throw-elim (Chains (first k) q c i m) _ first r h (λ l e.
      chain_cases (i == 0) _ _ (failed m) _ (match q) c (match-set_continuation k q l c i m e) refl)
match-set_continuation last q r c i m h = cc
match-set_continuation (children_of p o k) q r c i m h =
    or_throw-elim (Chains (children_of p o k) q c i m) _ (children_of p o) r h (λ l e.
      chain_on (match p c i m) _ _ _ _ (match q) c
        (λ j n.
          elim (here c i)
            as (λ x.
              elim x [
                | none ↦ fault
                | some x ↦ on (match o (descend c x) 0 n) (λ _ n. match l c j n) (λ n. failed n)
              ]
              ≡ then_run
                  (elim x [
                    | none ↦ fault
                    | some x ↦ on (match o (descend c x) 0 n) (λ _ n. match k c j n) (λ n. failed n)
                  ])
                  (match q) c) [
                    | none ↦ refl
                    | some x ↦
                        chain_on (match o (descend c x) 0 n) _ _ _ _ (match q) c
                          (λ _ n. match-set_continuation k q l c j n e) (λ n. refl)
                  ])
        (λ n. refl))
match-set_continuation (pred p k) q r c i m h =
    or_throw-elim (Chains (pred p k) q c i m) _ (pred p) r h (λ l e.
      chain_on (match p c i m) _ _ _ _ (match q) c (λ j n. match-set_continuation k q l c i n e)
        (λ n. refl))
match-set_continuation (neg_pred p k) q r c i m h =
    or_throw-elim (Chains (neg_pred p k) q c i m) _ (neg_pred p) r h (λ l e.
      chain_on (match p c i m) _ _ _ _ (match q) c (λ j n. refl)
        (λ n. match-set_continuation k q l c i n e))
match-set_continuation (action f p k) q r c i m h =
    or_throw-elim (Chains (action f p k) q c i m) _ (action f p) r h (λ l e.
      chain_on (match p c i m) _ _ _ _ (match q) c
        (λ j n.
          chain_cases (f (slice c i j)) _ _ (failed n) _ (match q) c
            (match-set_continuation k q l c j n e) refl)
        (λ n. refl))

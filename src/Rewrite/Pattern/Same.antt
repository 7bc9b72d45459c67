-- ===== src/Rewrite/Pattern/Same.antt =====
-- A pattern with no captures leaves every capture as it was, whether it matches or not.
use trieste.Prelude.{
  ℕ, zero, suc, Bool, true, false, none, some, length, ◌==◌, if◌then◌else◌, ◌≡◌, refl, ◌∙◌,
}
use trieste.Ast.{Token, Node, children}
use trieste.Rewrite.Frames.{Match, lookup, add_frame, return_to_frame}
use trieste.Rewrite.Frames.Laws.{
  Extends, Extends-refl, Extends-trans, Extends-add_frame, Extends-return, lookup-return,
  lookup-add_frame,
}
use trieste.Rewrite.Pattern.{
  Pattern, done, cap, anything, token_match, regex_match, opt, rep, negation, choice, inside,
  inside_star, first, last, children_of, pred, neg_pred, action, Place, here, at_end, descend,
  Outcome, matched, failed, fault, diverge, on, Matcher, rep_loop, test_node, match, any_node,
  of_type, full_match,
}
use trieste.Rewrite.Pattern.Spec.{NoCaptures}

-- The final state of a run, if it has one, satisfies `P`.
abbrev pub Post : (Match → Type 0) → Outcome → Type 0
Post P (matched i n) = P n
Post P (failed n) = P n
Post P fault = Unit
Post P diverge = Unit

pub Post-on :
    (P Q : Match → Type 0) (o : Outcome) (f : ℕ → Match → Outcome) (g : Match → Outcome)
    → Post P o
    → ((i : ℕ) (n : Match) → P n → Post Q (f i n))
    → ((n : Match) → P n → Post Q (g n))
    → Post Q (on o f g)
Post-on P Q (matched i n) f g h s k = s i n h
Post-on P Q (failed n) f g h s k = k n h
Post-on P Q fault f g h s k = tt
Post-on P Q diverge f g h s k = tt

pub Post-bool :
    (P : Match → Type 0) (b : Bool) (o : Outcome) (n : Match)
    → P n
    → Post P o
    → Post P (elim b [ true ↦ o | false ↦ failed n ])
Post-bool P true o n h s = s
Post-bool P false o n h s = h

Post-cases :
    (P : Match → Type 0) (b : Bool) (o q : Outcome)
    → Post P o
    → Post P q
    → Post P (elim b [ true ↦ o | false ↦ q ])
Post-cases P true o q h s = h
Post-cases P false o q h s = s

-- `n` shows the captures that `m` shows, and has its frames below.
pub record Keeps (m n : Match) : Type 0 where
  pub extends : Extends m n
  pub same : (t : Token) → lookup n t ≡ lookup m t

pub Keeps-refl : (m : Match) → Keeps m m
Keeps-refl m = record { extends = Extends-refl m; same = λ t. refl }

pub Keeps-trans : {m n o : Match} → Keeps m n → Keeps n o → Keeps m o
Keeps-trans p q = record {
  extends = Extends-trans p.extends q.extends;
  same = λ t. q.same t ∙ p.same t;
}

Keeps-add_frame : (m : Match) → Keeps m (add_frame m)
Keeps-add_frame m = record { extends = Extends-add_frame m; same = lookup-add_frame m }

Keeps-return : (m n : Match) → Keeps (add_frame m) n → Keeps m (return_to_frame m.index n)
Keeps-return m n h = record {
  extends = Extends-return m n h.extends;
  same = λ t. lookup-return m n t h.extends;
}

Post-trans : {m n : Match} (o : Outcome) → Keeps m n → Post (Keeps n) o → Post (Keeps m) o
Post-trans (matched i o) p q = Keeps-trans p q
Post-trans (failed o) p q = Keeps-trans p q
Post-trans fault p q = tt
Post-trans diverge p q = tt

-- One step, then what follows it from the state that the step ends in.
Keeps-on :
    {m s : Match} (o : Outcome) (f : ℕ → Match → Outcome) (g : Match → Outcome)
    → Keeps m s
    → Post (Keeps s) o
    → ((i : ℕ) (n : Match) → Post (Keeps n) (f i n))
    → ((n : Match) → Post (Keeps n) (g n))
    → Post (Keeps m) (on o f g)
Keeps-on {m} {s} o f g e h a b =
    Post-on (Keeps s) (Keeps m) o f g h (λ i n k. Post-trans (f i n) (Keeps-trans e k) (a i n))
      (λ n k. Post-trans (g n) (Keeps-trans e k) (b n))

Keeps-test_node :
    (test : Node → Bool) (k : Matcher) (c : Place) (i : ℕ) (m : Match)
    → Post (Keeps m) (k c (suc i) m)
    → Post (Keeps m) (test_node test k c i m)
unfolding test_node
Keeps-test_node test k c i m h =
    elim (here c i)
      as (λ o. Post (Keeps m) (elim o [
        | none ↦ failed m
        | some n ↦ elim (test n) [ true ↦ k c (suc i) m | false ↦ failed m ]
      ])) [ none ↦ Keeps-refl m | some n ↦ Post-bool (Keeps m) (test n) _ m (Keeps-refl m) h ]

Post-if :
    (P : Match → Type 0) (b : Bool) (o q : Outcome)
    → Post P o
    → Post P q
    → Post P (if b then o else q)
Post-if P true o q h k = h
Post-if P false o q h k = k

pub Keeps-rep_loop :
    (fuel : ℕ) (f : Matcher) (c : Place) (i : ℕ) (m : Match)
    → ((i : ℕ) (m : Match) → Post (Keeps m) (f c i m))
    → Post (Keeps m) (rep_loop fuel f c i m)
unfolding rep_loop
Keeps-rep_loop zero f c i m h = Post-if (Keeps m) (at_end c i) _ _ (Keeps-refl m) tt
Keeps-rep_loop (suc fuel) f c i m h = Post-cases (Keeps m) (at_end c i) _ _ (Keeps-refl m) (
    Keeps-on (f c i m) _ _ (Keeps-refl m) (h i m)
      (λ j n. Post-if (Keeps n) (j == i) _ _ tt (Keeps-rep_loop fuel f c j n h))
      (λ n. Keeps-refl n))

pub match-Keeps :
    (p : Pattern) → NoCaptures p → (c : Place) (i : ℕ) (m : Match) → Post (Keeps m) (match p c i m)
unfolding match
match-Keeps done h c i m = Keeps-refl m
match-Keeps (cap t p k) h c i m = absurd h
match-Keeps (anything k) h c i m =
    Keeps-test_node any_node (match k) c i m (match-Keeps k h c (suc i) m)
match-Keeps (token_match ts k) h c i m =
    Keeps-test_node (of_type ts) (match k) c i m (match-Keeps k h c (suc i) m)
match-Keeps (regex_match t r k) h c i m =
    Keeps-test_node (full_match t r) (match k) c i m (match-Keeps k h c (suc i) m)
match-Keeps (opt p k) h c i m =
    Post-on (Keeps (add_frame m)) (Keeps m) (match p c i (add_frame m)) _ _
      (match-Keeps p h.0 c i (add_frame m))
      (λ j n e. Post-trans _ (Keeps-trans (Keeps-add_frame m) e) (match-Keeps k h.1 c j n))
      (λ n e. Post-trans _ (Keeps-return m n e) (match-Keeps k h.1 c i _))
match-Keeps (rep p k) h c i m =
    let len = length (children c.parent) in
    Keeps-on (rep_loop len (match p) c i m) _ (λ n. failed n) (Keeps-refl m)
      (Keeps-rep_loop len (match p) c i m (λ j n. match-Keeps p h.0 c j n))
      (λ j n. match-Keeps k h.1 c j n) (λ n. Keeps-refl n)
match-Keeps (negation p k) h c i m = Post-cases (Keeps m) (at_end c i) _ _ (Keeps-refl m) (
    Keeps-on (match p c i m) _ _ (Keeps-refl m) (match-Keeps p h.0 c i m) (λ j n. Keeps-refl n)
      (λ n. match-Keeps k h.1 c (suc i) n))
match-Keeps (choice true p q k) h c i m =
    Post-on (Keeps (add_frame m)) (Keeps m) (match p c i (add_frame m)) _ _
      (match-Keeps p h.0 c i (add_frame m))
      (λ j n e. Post-trans _ (Keeps-trans (Keeps-add_frame m) e) (match-Keeps k h.2 c j n))
      (λ n e.
        Keeps-on _ _ _ (Keeps-return m n e) (match-Keeps q h.1 c i _)
          (λ j o. match-Keeps k h.2 c j o) (λ o. Keeps-refl o))
match-Keeps (choice false p q k) h c i m =
    Keeps-on (match p c i m) _ _ (Keeps-refl m) (match-Keeps p h.0 c i m)
      (λ j n. match-Keeps k h.2 c j n)
      (λ n.
        Keeps-on _ _ _ (Keeps-refl n) (match-Keeps q h.1 c i n) (λ j o. match-Keeps k h.2 c j o)
          (λ o. Keeps-refl o))
match-Keeps (inside ts k) h c i m = Post-bool (Keeps m) _ _ m (Keeps-refl m) (match-Keeps k h c i m)
match-Keeps (inside_star ts k) h c i m =
    Post-bool (Keeps m) _ _ m (Keeps-refl m) (match-Keeps k h c i m)
match-Keeps (first k) h c i m = Post-bool (Keeps m) _ _ m (Keeps-refl m) (match-Keeps k h c i m)
match-Keeps last h c i m = Post-if (Keeps m) (at_end c i) _ _ (Keeps-refl m) (Keeps-refl m)
match-Keeps (children_of p q k) h c i m =
    Keeps-on (match p c i m) _ _ (Keeps-refl m) (match-Keeps p h.0 c i m)
      (λ j n.
        elim (here c i)
          as (λ o. Post (Keeps n) (elim o [
            | none ↦ fault
            | some x ↦ on (match q (descend c x) 0 n) (λ l o. match k c j o) (λ o. failed o)
          ])) [
            | none ↦ tt
            | some x ↦
                Keeps-on _ _ _ (Keeps-refl n) (match-Keeps q h.1 (descend c x) 0 n)
                  (λ l o. match-Keeps k h.2 c j o) (λ o. Keeps-refl o)
          ])
      (λ n. Keeps-refl n)
match-Keeps (pred p k) h c i m =
    Keeps-on (match p c i m) _ _ (Keeps-refl m) (match-Keeps p h.0 c i m)
      (λ j n. match-Keeps k h.1 c i n) (λ n. Keeps-refl n)
match-Keeps (neg_pred p k) h c i m =
    Keeps-on (match p c i m) _ _ (Keeps-refl m) (match-Keeps p h.0 c i m) (λ j n. Keeps-refl n)
      (λ n. match-Keeps k h.1 c i n)
match-Keeps (action f p k) h c i m =
    Keeps-on (match p c i m) _ _ (Keeps-refl m) (match-Keeps p h.0 c i m)
      (λ j n. Post-bool (Keeps n) _ _ n (Keeps-refl n) (match-Keeps k h.1 c j n))
      (λ n. Keeps-refl n)

-- ===== src/Rewrite/Pattern/Refines.antt =====
-- `match` on frames agrees with the reading of a pattern.
use trieste.Prelude.{
  ℕ, zero, suc, Bool, true, false, none, some, ◌∷◌, length, elem, ◌==◌, if◌then◌else◌, ◌≡◌, refl,
  ap, ◌∙◌, subst,
}
use trieste.Ast.{Token, Node, node_type, children}
use trieste.Rewrite.Frames.{Match, lookup, set, add_frame, reset}
use trieste.Rewrite.Frames.Laws.{
  Extends, Extends-refl, Extends-trans, Extends-set, Extends-add_frame, Extends-return,
  lookup-return, lookup-add_frame, lookup-set, lookup-reset,
}
use trieste.Rewrite.Pattern.{
  Pattern, done, cap, anything, token_match, regex_match, opt, rep, negation, choice, inside,
  inside_star, first, last, children_of, pred, neg_pred, action, Place, here, at_end, slice,
  descend, some_in, Outcome, matched, failed, fault, diverge, on, Matcher, rep_loop, test_node,
  match, any_node, of_type, full_match,
}
use trieste.Rewrite.Pattern.Spec.{
  Env, bind, Answer, found, nothing, stray, endless, either, Reading, repeat, one_node, reads,
  IsGuarded,
}
use trieste.Rewrite.Pattern.Same.{Post, Keeps, match-Keeps, Keeps-rep_loop}

abbrev pub Shows : Match → Env → Type 0
Shows m e = (t : Token) → lookup m t ≡ e t

-- The same answer, with captures that show the map, over untouched frames.
abbrev pub Agrees : Match → Outcome → Answer → Type 0
Agrees m (matched i n) (found j e) = (i ≡ j) × Extends m n × Shows n e
Agrees m (failed n) nothing = Extends m n
Agrees m fault stray = Unit
Agrees m diverge endless = Unit
Agrees m _ _ = ⊥

Agrees-trans : {m n : Match} (o : Outcome) (a : Answer) → Extends m n → Agrees n o a → Agrees m o a
Agrees-trans (matched i o) (found j e) p q = (q.0, Extends-trans p q.1, q.2)
Agrees-trans (failed o) nothing p q = Extends-trans p q
Agrees-trans fault stray p q = tt
Agrees-trans diverge endless p q = tt
Agrees-trans o a p q = absurd q

module _ {s : Match} (m : Match) (P : Match → Type 0) where
  -- One step, then what follows it: `P` is what else is known of the state after the step.
  Agrees-on_Post :
      (o : Outcome) (a : Answer) (f : ℕ → Match → Outcome) (g : Match → Outcome)
      (f' : ℕ → Env → Answer) (g' : Answer)
      → Agrees s o a
      → Post P o
      → ((i : ℕ) (n : Match) (e : Env) → Extends s n → P n → Shows n e → Agrees m (f i n) (f' i e))
      → ((n : Match) → Extends s n → P n → Agrees m (g n) g')
      → Agrees m (on o f g) (either a f' g')
  Agrees-on_Post (matched i n) (found j e) f g f' g' (p, x, w) h a b =
      subst (λ l. Agrees m (f i n) (f' l e)) p (a i n e x h w)
  Agrees-on_Post (failed n) nothing f g f' g' x h a b = b n x h
  Agrees-on_Post fault stray f g f' g' x h a b = tt
  Agrees-on_Post diverge endless f g f' g' x h a b = tt
  Agrees-on_Post o a f g f' g' x h y b = absurd x

Post-unit : (o : Outcome) → Post (λ _. Unit) o
Post-unit (matched i n) = tt
Post-unit (failed n) = tt
Post-unit fault = tt
Post-unit diverge = tt

-- The same where nothing else is known, and the step starts in a state above `m`.
Agrees-on :
    {m s : Match} (o : Outcome) (a : Answer) (f : ℕ → Match → Outcome) (g : Match → Outcome)
    (f' : ℕ → Env → Answer) (g' : Answer)
    → Extends m s
    → Agrees s o a
    → ((i : ℕ) (n : Match) (e : Env) → Shows n e → Agrees n (f i n) (f' i e))
    → ((n : Match) → Extends s n → Agrees m (g n) g')
    → Agrees m (on o f g) (either a f' g')
Agrees-on {m} o a f g f' g' x p b d =
    Agrees-on_Post m (λ _. Unit) o a f g f' g' p (Post-unit o)
      (λ i n e y _ w. Agrees-trans (f i n) (f' i e) (Extends-trans x y) (b i n e w))
      (λ n y _. d n y)

Agrees-bool :
    (m : Match) (b : Bool) (o : Outcome) (a : Answer)
    → Agrees m o a
    → Agrees m (elim b [ true ↦ o | false ↦ failed m ]) (elim b [ true ↦ a | false ↦ nothing ])
Agrees-bool m true o a h = h
Agrees-bool m false o a h = Extends-refl m

Agrees-cases :
    (m : Match) (b : Bool) (o q : Outcome) (a d : Answer)
    → Agrees m o a
    → Agrees m q d
    → Agrees m (elim b [ true ↦ o | false ↦ q ]) (elim b [ true ↦ a | false ↦ d ])
Agrees-cases m true o q a d h k = h
Agrees-cases m false o q a d h k = k

Agrees-if :
    (m : Match) (b : Bool) (o q : Outcome) (a d : Answer)
    → Agrees m o a
    → Agrees m q d
    → Agrees m (if b then o else q) (if b then a else d)
Agrees-if m true o q a d h k = h
Agrees-if m false o q a d h k = k

Agrees-test_node :
    (m : Match) (test : Node → Bool) (k : Matcher) (l : Reading) (c : Place) (i : ℕ) (e : Env)
    → Agrees m (k c (suc i) m) (l c (suc i) e)
    → Agrees m (test_node test k c i m) (one_node test l c i e)
unfolding test_node one_node
Agrees-test_node m test k l c i e h =
    elim (here c i)
      as (λ o.
        Agrees m
          (elim o [
            | none ↦ failed m
            | some n ↦ elim (test n) [ true ↦ k c (suc i) m | false ↦ failed m ]
          ])
          (elim o [
            | none ↦ nothing
            | some n ↦ elim (test n) [ true ↦ l c (suc i) e | false ↦ nothing ]
          ])) [ none ↦ Extends-refl m | some n ↦ Agrees-bool m (test n) _ _ h ]

Shows-keep : {m n : Match} {e : Env} → Keeps m n → Shows m e → Shows n e
Shows-keep k w = λ t. k.same t ∙ w t

Agrees-rep_loop :
    (fuel : ℕ) (f : Matcher) (l : Reading) (c : Place) (i : ℕ) (m : Match) (e : Env)
    → ((i : ℕ) (m : Match) → Post (Keeps m) (f c i m))
    → ((i : ℕ) (m : Match) → Shows m e → Agrees m (f c i m) (l c i e))
    → Shows m e
    → Agrees m (rep_loop fuel f c i m) (repeat fuel l c i e)
unfolding rep_loop repeat
Agrees-rep_loop zero f l c i m e h k w =
    Agrees-if m (at_end c i) _ _ (found i e) _ (refl, Extends-refl m, w) tt
Agrees-rep_loop (suc fuel) f l c i m e h k w =
    Agrees-cases m (at_end c i) _ _ (found i e) _ (refl, Extends-refl m, w)
      (Agrees-on_Post m (Keeps m) (f c i m) (l c i e) _ _ _ _ (k i m w) (h i m)
        (λ j n d x p _. Agrees-trans _ _ x (
          Agrees-if n (j == i) diverge _ endless _ tt
            (Agrees-rep_loop fuel f l c j n e h k (Shows-keep p w))))
        (λ n x p. (refl, x, Shows-keep p w)))

-- On a guarded pattern `match` gives the answer of the reading, and its frames show the map.
match-Agrees :
    (p : Pattern)
    → IsGuarded p
    → (c : Place) (i : ℕ) (m : Match) (e : Env) → Shows m e
    → Agrees m (match p c i m) (reads p c i e)
unfolding match reads
match-Agrees done h c i m e w = (refl, Extends-refl m, w)
match-Agrees (cap t p k) h c i m e w =
    Agrees-on (match p c i m) (reads p c i e) _ _ _ _ (Extends-refl m)
      (match-Agrees p h.0 c i m e w)
      (λ j n d v.
        let r = slice c i j in
        Agrees-trans _ _ (Extends-set t r n) (
          match-Agrees k h.1 c j (set t r n) (bind t r d)
            (λ u. lookup-set t u r n ∙ ap (λ o. if t == u then some r else o) (v u))))
      (λ n x. x)
match-Agrees (anything k) h c i m e w =
    Agrees-test_node m any_node (match k) (reads k) c i e (match-Agrees k h c (suc i) m e w)
match-Agrees (token_match ts k) h c i m e w =
    Agrees-test_node m (of_type ts) (match k) (reads k) c i e (match-Agrees k h c (suc i) m e w)
match-Agrees (regex_match t r k) h c i m e w =
    Agrees-test_node m (full_match t r) (match k) (reads k) c i e (match-Agrees k h c (suc i) m e w)
match-Agrees (opt p k) h c i m e w =
    Agrees-on_Post m (λ _. Unit) (match p c i (add_frame m)) (reads p c i e) _ _ _ _
      (match-Agrees p h.0 c i (add_frame m) e (λ t. lookup-add_frame m t ∙ w t))
      (Post-unit (match p c i (add_frame m)))
      (λ j n d x _ v.
        Agrees-trans _ _ (Extends-trans (Extends-add_frame m) x) (match-Agrees k h.1 c j n d v))
      (λ n x _.
        Agrees-trans _ _ (Extends-return m n x)
          (match-Agrees k h.1 c i _ e (λ t. lookup-return m n t x ∙ w t)))
match-Agrees (rep p k) h c i m e w =
    let len = length (children c.parent) in
    Agrees-on_Post m (Keeps m) (rep_loop len (match p) c i m) (repeat len (reads p) c i e) _ _ _ _
      (Agrees-rep_loop len (match p) (reads p) c i m e (λ j n. match-Keeps p h.0 c j n)
        (λ j n v. match-Agrees p h.1 c j n e v) w)
      (Keeps-rep_loop len (match p) c i m (λ j n. match-Keeps p h.0 c j n))
      (λ j n d x y _. Agrees-trans _ _ x (match-Agrees k h.2 c j n e (Shows-keep y w))) (λ n x _. x)
match-Agrees (negation p k) h c i m e w =
    Agrees-cases m (at_end c i) _ _ nothing _ (Extends-refl m) (
      Agrees-on_Post m (Keeps m) (match p c i m) (reads p c i e) _ _ _ _
        (match-Agrees p h.1 c i m e w) (match-Keeps p h.0 c i m) (λ j n d x _ _. x)
        (λ n x y. Agrees-trans _ _ x (match-Agrees k h.2 c (suc i) n e (Shows-keep y w))))
match-Agrees (choice true p q k) h c i m e w =
    Agrees-on_Post m (λ _. Unit) (match p c i (add_frame m)) (reads p c i e) _ _ _ _
      (match-Agrees p h.0 c i (add_frame m) e (λ t. lookup-add_frame m t ∙ w t))
      (Post-unit (match p c i (add_frame m)))
      (λ j n d x _ v.
        Agrees-trans _ _ (Extends-trans (Extends-add_frame m) x) (match-Agrees k h.2 c j n d v))
      (λ n x _.
        Agrees-on _ (reads q c i e) _ _ _ _ (Extends-return m n x)
          (match-Agrees q h.1 c i _ e (λ t. lookup-return m n t x ∙ w t))
          (λ j o d v. match-Agrees k h.2 c j o d v) (λ o y. Extends-trans (Extends-return m n x) y))
match-Agrees (choice false p q k) h c i m e w =
    Agrees-on_Post m (Keeps m) (match p c i m) (reads p c i e) _ _ _ _
      (match-Agrees p h.1 c i m e w) (match-Keeps p h.0 c i m)
      (λ j n d x _ v. Agrees-trans _ _ x (match-Agrees k h.3 c j n d v))
      (λ n x y.
        Agrees-on _ (reads q c i e) _ _ _ _ x (match-Agrees q h.2 c i n e (Shows-keep y w))
          (λ j o d v. match-Agrees k h.3 c j o d v) (λ o z. Extends-trans x z))
match-Agrees (inside ts k) h c i m e w =
    Agrees-bool m (elem (node_type c.parent) ts) _ _ (match-Agrees k h c i m e w)
match-Agrees (inside_star ts k) h c i m e w =
    Agrees-bool m (some_in ts (node_type c.parent ∷ c.above)) _ _ (match-Agrees k h c i m e w)
match-Agrees (first k) h c i m e w = Agrees-bool m (i == 0) _ _ (match-Agrees k h c i m e w)
match-Agrees last h c i m e w =
    Agrees-if m (at_end c i) _ _ (found i e) _ (refl, Extends-refl m, w) (Extends-refl m)
match-Agrees (children_of p q k) h c i m e w =
    Agrees-on (match p c i m) (reads p c i e) _ _ _ _ (Extends-refl m)
      (match-Agrees p h.0 c i m e w)
      (λ j n d v.
        elim (here c i)
          as (λ o.
            Agrees n
              (elim o [
                | none ↦ fault
                | some x ↦ on (match q (descend c x) 0 n) (λ l o. match k c j o) (λ o. failed o)
              ])
              (elim o [
                | none ↦ stray
                | some x ↦ either (reads q (descend c x) 0 d) (λ l b. reads k c j b) nothing
              ])) [
                | none ↦ tt
                | some x ↦
                    Agrees-on (match q (descend c x) 0 n) (reads q (descend c x) 0 d) _ _ _ _
                      (Extends-refl n) (match-Agrees q h.1 (descend c x) 0 n d v)
                      (λ l o b z. match-Agrees k h.2 c j o b z) (λ o z. z)
              ])
      (λ n x. x)
match-Agrees (pred p k) h c i m e w =
    Agrees-on_Post m (Keeps m) (match p c i m) (reads p c i e) _ _ _ _
      (match-Agrees p h.1 c i m e w) (match-Keeps p h.0 c i m)
      (λ j n d x y _. Agrees-trans _ _ x (match-Agrees k h.2 c i n e (Shows-keep y w))) (λ n x _. x)
match-Agrees (neg_pred p k) h c i m e w =
    Agrees-on_Post m (Keeps m) (match p c i m) (reads p c i e) _ _ _ _
      (match-Agrees p h.1 c i m e w) (match-Keeps p h.0 c i m) (λ j n d x _ _. x)
      (λ n x y. Agrees-trans _ _ x (match-Agrees k h.2 c i n e (Shows-keep y w)))
match-Agrees (action f p k) h c i m e w =
    Agrees-on (match p c i m) (reads p c i e) _ _ _ _ (Extends-refl m)
      (match-Agrees p h.0 c i m e w)
      (λ j n d v. Agrees-bool n (f (slice c i j)) _ _ (match-Agrees k h.1 c j n d v)) (λ n x. x)

abbrev pub no_captures : Env
no_captures t = none

-- Whatever an earlier rule left in the frames, a guarded pattern tried after `reset` gives the answer
-- of its reading from no captures, and its frames then show exactly the captures of the reading.
pub match-reset :
    (p : Pattern) (c : Place) (i : ℕ) (m : Match)
    → IsGuarded p
    → Agrees (reset m) (match p c i (reset m)) (reads p c i no_captures)
match-reset p c i m h = match-Agrees p h c i (reset m) no_captures (lookup-reset m)

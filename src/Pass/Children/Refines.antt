-- ===== src/Pass/Children/Refines.antt =====
-- `match_children` over the compiled rules rewrites as the plain reading of all rules does.
use trieste.Prelude.{
  ℕ, zero, suc, ◌-◌, ◌<◌, Bool, true, false, none, some, List, [], ◌∷◌, All, length, get_elem?,
  get_elem?-lt, if◌then◌else◌, ◌≡◌, ◌≢◌, refl, sym, ap, ◌∙◌, fun_ext, Bool-cases, Option-cases, inl,
  inr, arith,
}
use trieste.Ast.{Token, Node, to_list, from_list, node_type, add_all_flags, range_contains_error}
use trieste.DefaultMap.{DefaultMap, get}
use trieste.Rewrite.Frames.{Match, reset, init}
use trieste.Rewrite.Pattern.{Place, here, Outcome, matched, failed, fault, diverge, match, slice}
use trieste.Rewrite.Pattern.Spec.{Answer, found, nothing, stray, endless, reads, IsGuarded}
use trieste.Rewrite.Pattern.Refines.{Agrees, match-reset, no_captures}
use trieste.Rewrite.Operators.{any_first}
use trieste.Rewrite.Operators.Admits.{Admits, parent_ok, starts_ok, first_in}
use trieste.Rewrite.Operators.Single.{Ends, IsSound}
use trieste.Pass.RuleMap.{compile_rules, get-compile_rules_empty, applies}
use trieste.Pass.Select.{try_list, or_else, try-compile_rules, All-compile_rules}
use trieste.Pass.Children.{
  Rule, fast_of, Verdict, passed, replaced, stuck, judge, concluded, attempt, unless_passed,
  try_rules, Parent, place, Run, finished, next_index, changed, Change, children_loop,
  match_children, on_verdict,
}
use trieste.Pass.Children.Spec.{
  read_verdict, verdict, settled, or_passed, first_verdict, rewrite_loop, rewrite_children,
}

concluded-read :
    (r : Rule) (c : Place) (i : ℕ) (m n : Match) (o : Outcome) (a : Answer)
    → Agrees n o a
    → (concluded r c i m o).0 ≡ read_verdict r c i a
concluded-read r c i m n (matched j k) (found l e) h = λ x.
    if range_contains_error (slice c i (h.0 x))
    then passed
    else judge (r.effect (fun_ext h.2 x)) c i (h.0 x)
concluded-read r c i m n (failed k) nothing h = refl
concluded-read r c i m n fault stray h = refl
concluded-read r c i m n diverge endless h = refl
concluded-read r c i m n o a h = absurd h

attempt-verdict :
    (r : Rule) (c : Place) (i : ℕ) (m : Match)
    → IsGuarded r.built.pattern
    → (attempt r c i m).0 ≡ verdict r c i
unfolding attempt verdict
attempt-verdict r c i m h =
    concluded-read r c i m (reset m) (match r.built.pattern c i (reset m)) _
      (match-reset r.built.pattern c i m h)

-- What the frames hold when a rule is tried makes no difference to the verdict.
try_rules-first :
    (rs : List Rule) (c : Place) (i : ℕ) (m : Match)
    → All (λ r. IsGuarded r.built.pattern) rs
    → (try_rules rs c i m).0 ≡ first_verdict rs c i
unfolding try_rules try_list
try_rules-first [] c i m h = refl
try_rules-first (r ∷ rs) c i m h =
    go (attempt r c i m) (verdict r c i) (attempt-verdict r c i m h.0)
      (λ n. try_rules-first rs c i n h.1)
  where
    go :
        (t : Verdict × Match) (v : Verdict)
        → t.0 ≡ v
        → ((n : Match) → (try_rules rs c i n).0 ≡ first_verdict rs c i)
        → (unless_passed t (try_rules rs c i)).0
          ≡ or_passed (or_else (settled v) (try_list (λ r. settled (verdict r c i)) rs))
    go (passed, n) v e k = rw (sym e) (k n)
    go (replaced ch, n) v e k = rw (sym e)
    go (stuck, n) v e k = rw (sym e)

-- A rule whose captures are undone on failure, whose quick test is sound, and whose pattern always
-- returns.
pub record IsGood (r : Rule) : Type 0 where
  pub guarded : IsGuarded r.built.pattern
  pub sound : IsSound r.built
  pub returns : (c : Place) (i : ℕ) → verdict r c i ≢ stuck

Admits-applies :
    (r : Rule) (c : Place) (i j : ℕ) (x : Node)
    → here c i ≡ some x
    → Admits (fast_of r) c i j
    → applies fast_of r (node_type c.parent) (node_type x) ≡ true
unfolding parent_ok starts_ok first_in any_first
Admits-applies r c i j x e h = ground (arith, h.0, h.1)

-- A rule that is filed elsewhere passes.
not-applies_passed :
    (r : Rule) (c : Place) (i : ℕ) (x : Node)
    → IsGood r
    → here c i ≡ some x
    → applies fast_of r (node_type c.parent) (node_type x) ≡ false
    → settled (verdict r c i) ≡ none
unfolding verdict
not-applies_passed r c i x g e h =
    go (match r.built.pattern c i (reset init)) (reads r.built.pattern c i no_captures)
      (g.sound c i (reset init)) (match-reset r.built.pattern c i init g.guarded) (g.returns c i)
  where
    go :
        (o : Outcome) (a : Answer)
        → Ends (Admits (fast_of r) c i) o
        → Agrees (reset init) o a
        → read_verdict r c i a ≢ stuck
        → settled (read_verdict r c i a) ≡ none
    go (matched j n) (found k d) s w q = absurd (clash (Admits-applies r c i j x e s))
      where
        clash : applies fast_of r (node_type c.parent) (node_type x) ≡ true → ⊥
        clash t = cc
    go (failed n) nothing s w q = refl
    go fault stray s w q = absurd (q refl)
    go diverge endless s w q = absurd (q refl)
    go o a s w q = absurd w

to_list-from_list : (cs : List Node) → to_list (from_list cs) ≡ cs
to_list-from_list [] = refl
to_list-from_list (c ∷ cs) = ap (λ v. c ∷ v) (to_list-from_list cs)

All-map {ℓ κ μ} :
    {A : Type ℓ} {P : A → Type κ} {Q : A → Type μ}
    → ((a : A) → P a → Q a)
    → (xs : List A) → All P xs
    → All Q xs
All-map f [] h = tt
All-map f (x ∷ xs) h = (f x h.0, All-map f xs h.1)

module _ (rs : List Rule) (m : DefaultMap (DefaultMap (List Rule))) (good : All IsGood rs) where
  -- The verdict of the filed rules at a node is the verdict of all rules.
  filed-first :
      (p : Parent) (cs : List Node) (i : ℕ) (x : Node) (n : Match)
      → get_elem? cs i ≡ some x
      → (try_rules (get (get (compile_rules fast_of rs m) p.type) (node_type x)) (place p cs) i n).0
        ≡ first_verdict rs (place p cs) i
  filed-first p cs i x n e =
      try_rules-first _ (place p cs) i n (
        All-compile_rules fast_of (λ r. IsGuarded r.built.pattern) rs m p.type (node_type x)
          (All-map (λ r g. g.guarded) rs good))
      ∙ ap or_passed (
          try-compile_rules fast_of (λ r. settled (verdict r (place p cs) i)) rs m p.type
            (node_type x)
            (All-map (λ r g. not-applies_passed r (place p cs) i x g (rw (to_list-from_list cs) e))
              rs good))

  children_loop-rewrites :
      (fuel : ℕ) (once : Bool) (p : Parent) (cs : List Node) (i changes : ℕ) (n : Match)
      → (children_loop fuel (get (get (compile_rules fast_of rs m) p.type)) once p cs i changes n).0
        ≡ rewrite_loop fuel rs once p cs i changes
  unfolding children_loop rewrite_loop
  children_loop-rewrites zero once p cs i changes n = refl
  children_loop-rewrites (suc fuel) once p cs i changes n = elim (Option-cases (get_elem? cs i)) [
    | inl e ↦ rw (e, children_loop, rewrite_loop)
    | inr (x, e) ↦
        rw (e, children_loop, rewrite_loop)
          (on_verdict-eq (try_rules (select (node_type x)) (place p cs) i n)
            (first_verdict rs (place p cs) i) _ _ _ _ _ _ (filed-first p cs i x n e)
            (λ k. children_loop-rewrites fuel once p cs (suc i) changes k)
            (λ ch k.
              children_loop-rewrites fuel once (record p { flags = add_all_flags ch.nodes p.flags })
                (changed cs i ch) (next_index once i ch) (suc changes) k)
            (λ k. refl))
  ]
    where
      select : Token → List Rule
      select = get (get (compile_rules fast_of rs m) p.type)

      on_verdict-eq :
          (t : Verdict × Match) (v : Verdict) (f : Match → Run × Match)
          (g : Change → Match → Run × Match) (h : Match → Run × Match) (f' : Run)
          (g' : Change → Run) (h' : Run)
          → t.0 ≡ v
          → ((k : Match) → (f k).0 ≡ f')
          → ((ch : Change) (k : Match) → (g ch k).0 ≡ g' ch)
          → ((k : Match) → (h k).0 ≡ h')
          → (on_verdict t f g h).0 ≡ elim v [ passed ↦ f' | stuck ↦ h' | replaced ch ↦ g' ch ]
      on_verdict-eq (passed, k) v f g h f' g' h' e a b d = rw (sym e) (a k)
      on_verdict-eq (replaced ch, k) v f g h f' g' h' e a b d = rw (sym e) (b ch k)
      on_verdict-eq (stuck, k) v f g h f' g' h' e a b d = rw (sym e) (d k)

  idle-passed :
      (p : Parent) (cs : List Node) (i : ℕ) (x : Node)
      → get_elem? cs i ≡ some x
      → ((t : Token) → get (get (compile_rules fast_of rs m) p.type) t ≡ [])
      → first_verdict rs (place p cs) i ≡ passed
  unfolding try_rules
  idle-passed p cs i x e h =
      sym (filed-first p cs i x init e)
      ∙ ap (λ l. (try_rules l (place p cs) i init).0) (h (node_type x))

  -- Where nothing is filed under the parent, all rules pass at each node.
  rewrite_loop_idle :
      (fuel : ℕ) (once : Bool) (p : Parent) (cs : List Node) (i changes : ℕ)
      → ((t : Token) → get (get (compile_rules fast_of rs m) p.type) t ≡ [])
      → length cs - i < fuel
      → rewrite_loop fuel rs once p cs i changes ≡ finished cs p.flags changes
  unfolding rewrite_loop
  rewrite_loop_idle zero once p cs i changes h k = absurd (omega arith)
  rewrite_loop_idle (suc fuel) once p cs i changes h k = elim (Option-cases (get_elem? cs i)) [
    | inl e ↦ rw (e, rewrite_loop)
    | inr (x, e) ↦
        rw (e, rewrite_loop)
          (rw (idle-passed p cs i x e h) (
            rewrite_loop_idle fuel once p cs (suc i) changes h
              (omega (arith, get_elem?-lt cs i e))))
  ]

  -- With good rules, compiled into a map that may have held anything, and more rounds than there are
  -- children, `match_children` changes the children as a pass does that tries at each node all rules
  -- in order, by the plain reading of their patterns: the same children, flags and count of changes,
  -- and the same end of the run.
  pub match_children-rewrites :
      (fuel : ℕ) (once : Bool) (p : Parent) (cs : List Node) (n : Match)
      → length cs < fuel
      → (match_children fuel (compile_rules fast_of rs m) once p cs n).0
        ≡ rewrite_children fuel rs once p cs
  unfolding match_children rewrite_children
  match_children-rewrites fuel once p cs n h =
      elim (Bool-cases (get (compile_rules fast_of rs m) p.type).empty) [
        | inl e ↦
            rw (e, match_children)
              (sym (
                rewrite_loop_idle fuel once p cs 0 0 (get-compile_rules_empty fast_of rs m p.type e)
                  (omega arith)))
        | inr e ↦ rw (e, match_children) (children_loop-rewrites fuel once p cs 0 0 n)
      ]

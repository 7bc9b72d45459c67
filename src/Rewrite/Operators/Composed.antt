-- ===== src/Rewrite/Operators/Composed.antt =====
-- Each operator keeps the promise of the quick tests that it combines.
use trieste.Prelude.{
  ℕ, zero, suc, Bool, true, false, not, ◌&&◌, Option, none, some, List, ◌++◌, elem, ◌==◌, ◌≡◌, refl,
  sym, subst, arith, Bool-cases, inl, inr, length, ◌⊎◌,
}
use trieste.Ast.{Token, Node, node_type, children}
use trieste.Rewrite.Frames.{Match, Range, add_frame, return_to_frame}
use trieste.Rewrite.Pattern.{
  Pattern, done, token_match, rep, choice, pred, neg_pred, Place, here, at_end, slice, descend,
  matched, failed, fault, diverge, on, rep_loop, test_node, match,
}
use trieste.Rewrite.Pattern.Chain.{set_continuation, match-set_continuation}
use trieste.Rewrite.Operators.{
  FastPattern, is_empty, match_choice, match_seq, match_opt, match_pred, Built, act, named,
  optional, repeated, sequence, alternative, with_children, has_captures, custom_rep, Custom,
  throws, given, null, repeated_as, without_captures, chained, only_tokens,
}
use trieste.Rewrite.Operators.Admits.{
  Admits, parent_ok, starts_ok, Admits-seq, Admits-choice_left, Admits-choice_right, Admits-opt,
  Admits-opt_none, IsOptional, elem-append,
}
use trieste.Rewrite.Operators.Single.{
  Ends, Ends-on, Ends-any, Ends-map, some_eq, Ends-cases, Ends-if, IsSound, match_any-IsSound, stay,
}

module _ (b : Built) (sound : IsSound b) where
  pub act-IsSound : (f : Range → Bool) → IsSound (act f b)
  unfolding act match
  act-IsSound f c i m =
      Ends-on (Admits b.fast c i) _ (match b.pattern c i m) _ _ (sound c i m)
        (λ j n h. Ends-cases _ (f (slice c i j)) _ _ (λ _. h) (λ _. tt)) (λ n. tt)

  pub named-IsSound : (t : Token) → IsSound (named t b)
  unfolding named match
  named-IsSound t c i m =
      Ends-on (Admits b.fast c i) _ (match b.pattern c i m) _ _ (sound c i m) (λ j n h. h) (λ n. tt)

  pub with_children-IsSound : (d : Built) → IsSound (with_children b d)
  unfolding with_children match
  with_children-IsSound d c i m =
      Ends-on (Admits b.fast c i) _ (match b.pattern c i m) _ _ (sound c i m)
        (λ j n h.
          elim (here c i)
            as (λ o. Ends (Admits b.fast c i) (elim o [
              | none ↦ fault
              | some x ↦ on (match d.pattern (descend c x) 0 n) (λ l o. matched j o) (λ o. failed o)
            ])) [
              | none ↦ tt
              | some x ↦
                  Ends-on (λ _. Unit) _ (match d.pattern (descend c x) 0 n) _ _
                    (Ends-any _ _ (λ _. tt)) (λ l o _. h) (λ o. tt)
            ])
        (λ n. tt)

  pub optional-IsSound : IsOptional b.fast → IsSound (optional b)
  unfolding optional match
  optional-IsSound s c i m =
      Ends-on (Admits b.fast c i) _ (match b.pattern c i (add_frame m)) _ _
        (sound c i (add_frame m)) (λ j n h. Admits-opt b.fast c i j s h.1)
        (λ n. Admits-opt_none b.fast c i s)

  -- A first round that moves shows a first node that `b` may begin with, wherever the loop ends.
  moved :
      (c : Place) (i j k : ℕ)
      → starts_ok b.fast c i j ≡ true
      → (j == i) ≡ false
      → starts_ok b.fast c i k ≡ true
  unfolding starts_ok
  moved c i j k h e = ground arith

  rep_loop-Admits :
      (fuel : ℕ) (c : Place) (i : ℕ) (m : Match)
      → IsOptional b.fast
      → Ends (Admits (match_opt b.fast) c i) (rep_loop fuel (match b.pattern) c i m)
  unfolding rep_loop
  rep_loop-Admits zero c i m s =
      Ends-if _ (at_end c i) _ _ (λ _. Admits-opt_none b.fast c i s) (λ _. tt)
  rep_loop-Admits (suc fuel) c i m s =
      Ends-cases _ (at_end c i) _ _ (λ _. Admits-opt_none b.fast c i s)
        (λ _.
          Ends-on (Admits b.fast c i) _ (match b.pattern c i m) _ _ (sound c i m)
            (λ j n h.
              Ends-if _ (j == i) diverge _ (λ _. tt)
                (λ e.
                  Ends-any _ (rep_loop fuel (match b.pattern) c j n)
                    (λ k. Admits-opt b.fast c i k s (moved c i j k h.1 e))))
            (λ n. Admits-opt_none b.fast c i s))

  rep-IsSound :
      IsOptional b.fast → IsSound (record { pattern = rep b.pattern done; fast = match_opt b.fast })
  unfolding match
  rep-IsSound s c i m =
      Ends-on (Admits (match_opt b.fast) c i) _
        (rep_loop (length (children c.parent)) (match b.pattern) c i m) _ _
        (rep_loop-Admits (length (children c.parent)) c i m s) (λ j n h. h) (λ n. tt)

pub pred-IsSound : (p : Pattern) → IsSound (record { pattern = pred p done; fast = match_pred })
unfolding match parent_ok
pred-IsSound p c i m =
    Ends-on (λ _. Unit) _ (match p c i m) _ _ (Ends-any _ _ (λ _. tt))
      (λ j n _. stay match_pred c i refl refl) (λ n. tt)

pub neg_pred-IsSound :
    (p : Pattern) → IsSound (record { pattern = neg_pred p done; fast = match_pred })
unfolding match parent_ok
neg_pred-IsSound p c i m =
    Ends-on (λ _. Unit) _ (match p c i m) _ _ (Ends-any _ _ (λ _. tt)) (λ j n _. tt)
      (λ n. stay match_pred c i refl refl)

choice-IsSound :
    (b d : Built) (left : Bool)
    → IsSound b
    → IsSound d
    → IsSound (record {
      pattern = choice left b.pattern d.pattern done;
      fast = match_choice b.fast d.fast;
    })
unfolding match
choice-IsSound b d true hb hd c i m =
    Ends-on (Admits b.fast c i) _ (match b.pattern c i (add_frame m)) _ _ (hb c i (add_frame m))
      (λ j n h. Admits-choice_left b.fast d.fast c i j h)
      (λ n.
        Ends-on (Admits d.fast c i) _ (match d.pattern c i (return_to_frame m.index n)) _ _
          (hd c i _) (λ j o h. Admits-choice_right b.fast d.fast c i j h) (λ o. tt))
choice-IsSound b d false hb hd c i m =
    Ends-on (Admits b.fast c i) _ (match b.pattern c i m) _ _ (hb c i m)
      (λ j n h. Admits-choice_left b.fast d.fast c i j h)
      (λ n.
        Ends-on (Admits d.fast c i) _ (match d.pattern c i n) _ _ (hd c i n)
          (λ j o h. Admits-choice_right b.fast d.fast c i j h) (λ o. tt))

-- The two token tests of an alternative, merged into one.
merged-IsSound :
    (ts us : List Token) (f g : FastPattern)
    → IsSound (record { pattern = token_match ts done; fast = f })
    → IsSound (record { pattern = token_match us done; fast = g })
    → IsSound (record { pattern = token_match (ts ++ us) done; fast = match_choice f g })
unfolding match test_node
merged-IsSound ts us f g hf hg c i m = go (here c i) (hf c i m) (hg c i m)
  where
    go :
        (o : Option Node)
        → Ends (Admits f c i) (elim o [
          | none ↦ failed m
          | some n ↦ elim (elem (node_type n) ts) [ true ↦ matched (suc i) m | false ↦ failed m ]
        ])
        → Ends (Admits g c i) (elim o [
          | none ↦ failed m
          | some n ↦ elim (elem (node_type n) us) [ true ↦ matched (suc i) m | false ↦ failed m ]
        ])
        → Ends (Admits (match_choice f g) c i) (elim o [
          | none ↦ failed m
          | some n ↦ elim (elem (node_type n) (ts ++ us)) [
            | true ↦ matched (suc i) m
            | false ↦ failed m
          ]
        ])
    go none p q = tt
    go (some n) p q =
        Ends-cases _ (elem (node_type n) (ts ++ us)) _ _
          (λ e. elim (Bool-cases (elem (node_type n) ts)) [
            | inl a ↦ Admits-choice_left f g c i (suc i) (rw a at p)
            | inr a ↦ Admits-choice_right f g c i (suc i) (rw (other a e) at q)
          ])
          (λ e. tt)
      where
        other :
            elem (node_type n) ts ≡ false
            → elem (node_type n) (ts ++ us) ≡ true
            → elem (node_type n) us ≡ true
        other a e = ground (arith, elem-append (node_type n) ts us)

only_tokens_lem :
    (p : Pattern) → (is_empty (only_tokens p) ≡ true) ⊎ (p ≡ token_match (only_tokens p) done)
unfolding only_tokens
only_tokens_lem (token_match ts done) = inr refl
only_tokens_lem _ = inl refl

pub alternative-IsSound : (b d : Built) → IsSound b → IsSound d → IsSound (alternative b d)
unfolding alternative
alternative-IsSound b d hb hd = go (only_tokens_lem b.pattern) (only_tokens_lem d.pattern)
  where
    left : Bool
    left = has_captures b.pattern

    kept : IsSound (record {
      pattern = choice left b.pattern d.pattern done;
      fast = match_choice b.fast d.fast;
    })
    kept = choice-IsSound b d left hb hd

    as_tokens :
        (e : Built)
        → e.pattern ≡ token_match (only_tokens e.pattern) done
        → IsSound e
        → IsSound (record { pattern = token_match (only_tokens e.pattern) done; fast = e.fast })
    as_tokens e q h c i m = subst (λ p. Ends (Admits e.fast c i) (match p c i m)) q (h c i m)

    go :
        (is_empty (only_tokens b.pattern) ≡ true)
          ⊎ (b.pattern ≡ token_match (only_tokens b.pattern) done)
        → (is_empty (only_tokens d.pattern) ≡ true)
          ⊎ (d.pattern ≡ token_match (only_tokens d.pattern) done)
        → IsSound (alternative b d)
    go (inl x) y = rw x kept
    go (inr x) (inl y) = elim (Bool-cases (is_empty (only_tokens b.pattern))) [
      | inl e ↦ rw e kept
      | inr e ↦ rw (e, y) kept
    ]
    go (inr x) (inr y) =
        elim (Bool-cases
          (not (is_empty (only_tokens b.pattern)) && not (is_empty (only_tokens d.pattern)))) [
            | inl e ↦ rw e (
                merged-IsSound (only_tokens b.pattern) (only_tokens d.pattern) b.fast d.fast
                  (as_tokens b x hb) (as_tokens d y hd))
            | inr e ↦ rw e kept
          ]

pub sequence-IsSound : (b d r : Built) → IsSound b → IsSound d → sequence b d ≡ some r → IsSound r
unfolding sequence chained
sequence-IsSound b d r hb hd e = go (set_continuation b.pattern d.pattern) refl e
  where
    go :
        (o : Option Pattern)
        → set_continuation b.pattern d.pattern ≡ o
        → chained o (match_seq b.fast d.fast) ≡ some r
        → IsSound r
    go none p q = absurd (cc)
    go (some z) p q = subst IsSound (some_eq q) (λ c i m.
        rw (match-set_continuation b.pattern d.pattern z c i m p) (
          Ends-on (Admits b.fast c i) _ (match b.pattern c i m) _ _ (hb c i m)
            (λ j n h.
              Ends-map (λ k x. Admits-seq b.fast d.fast c i j k h x) (match d.pattern c j n)
                (hd c j n))
            (λ n. tt)))

pub without_captures-some : (p : Pattern) (b r : Built) → without_captures p b ≡ some r → r ≡ b
unfolding without_captures
without_captures-some p b r e = ground arith

pub repeated-IsSound :
    (b r : Built) → IsOptional b.fast → IsSound b → repeated b ≡ some r → IsSound r
unfolding repeated repeated_as
repeated-IsSound b r s h e = go (custom_rep b.pattern) e
  where
    go : (x : Custom) → repeated_as x b ≡ some r → IsSound r
    go throws q = absurd (cc)
    go (given p) q = subst IsSound (some_eq q) (match_any-IsSound p)
    go null q = subst IsSound (sym (without_captures-some b.pattern _ r q)) (rep-IsSound b h s)

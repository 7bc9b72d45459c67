-- ===== src/RegexEngine/Soundness.antt =====
-- A walk through the states of an expression (include/trieste/regex_engine.h) to `accept_state` first
-- reads what the expression matches; with the construction, the language of the automaton.
use trieste.Prelude.{
  ℕ, zero, suc, ◌+◌, ◌<◌, ◌≡◌, refl, sym, Bool, true, false, not, Option, none, some, List, arith,
  ◌⊎◌, inl, inr, subst,
}
use trieste.RegexEngine.{
  zero_or_one, zero_or_more, one_or_more, StateDef, split_label, capture_open, capture_close,
  accept_state, max_captures,
}
use trieste.RegexEngine.Syntax.{
  Regex, empty, lit, cat, alt, rep, grp, Flags, gate, Matches, match_empty, match_pass, match_read,
  match_cat, match_left, match_right, match_zero, match_once, match_done, match_more, match_plus,
  match_group,
}
use trieste.RegexEngine.Slots.{label_at, slot_at}
use trieste.RegexEngine.Wired.{
  Wired, wire_empty, wire_lit, wire_cat, wire_alt, wire_opt, wire_star, wire_plus, wire_grp,
}
use trieste.RegexEngine.Walks.{
  branch, pass, read, Walk, stop, go, Walk-wider, Walk-from, gate-split, gate-capture_open,
  gate-capture_close,
}

same_some : {a b : ℕ} {o : Option ℕ} → o ≡ some a → o ≡ some b → a ≡ b
same_some h g = cc

module _ (flags : ℕ → Flags) (reads : ℕ → ℕ → Bool) (ss : List StateDef) where
  abbrev pub Way : ℕ → ℕ → ℕ → ℕ → Type 0
  Way n s p q = Walk flags reads ss n s p accept_state q

  -- What a walk from the start of an expression splits into.
  pub record Split (r : Regex) (n p e q : ℕ) : Type 0 where
    pub middle : ℕ
    pub matched : Matches flags reads r p middle
    pub rest : Way n e middle q

  too_short : {i p q : ℕ} {A : Type 0} → 0 < i → Way zero i p q → A
  too_short h (stop e g) = absurd (omega (arith, e, h))

  moved : {n s t p p' q : ℕ} → s ≡ t → p ≡ p' → Way n s p q → Way n t p' q
  moved {n} {s} {t} {p} {p'} {q} e g w =
      Walk-from flags reads ss g (subst (λ (x : ℕ). Way n x p q) e w)

  -- A walk from a `Split` goes on along one of its links.
  forked :
      {n i p q s e : ℕ} (l : Bool)
      → 0 < i
      → label_at ss i ≡ some split_label
      → slot_at ss i l ≡ some s
      → slot_at ss i (not l) ≡ some e
      → Way (suc n) i p q
      → Way n s p q ⊎ Way n e p q
  forked l h label n z (stop e g) = absurd (omega (arith, e, h))
  forked true h label n z (go (branch _ m e) w) = inl (moved (same_some m n) (sym e) w)
  forked false h label n z (go (branch _ m e) w) = inr (moved (same_some m z) (sym e) w)
  forked true h label n z (go (pass _ _ m e) w) = inr (moved (same_some m z) (sym e) w)
  forked false h label n z (go (pass _ _ m e) w) = inl (moved (same_some m n) (sym e) w)
  forked {p = p} l h label n z (go (read k g _ _ _) w) = absurd (closed_gate g (same_some k label))
    where
      closed_gate : {c : ℕ} → gate (flags p) c ≡ none → c ≡ split_label → ⊥
      closed_gate {c} h e = cc (h, e, gate-split flags reads ss (flags p))

  wider : (r : Regex) {n p e q : ℕ} → Split r n p e q → Split r (suc n) p e q
  wider r x = record {
    middle = x.middle;
    matched = x.matched;
    rest = Walk-wider flags reads ss x.rest;
  }

  -- From a state that is passed without reading, with one link.
  passed :
      (c : ℕ) {n i p q s : ℕ}
      → 0 < i
      → label_at ss i ≡ some c
      → gate (flags p) c ≡ some true
      → slot_at ss i false ≡ some s
      → slot_at ss i true ≡ none
      → Way (suc n) i p q
      → Way n s p q
  passed c h label g n z (stop e k) = absurd (omega (arith, e, h))
  passed c h label g n z (go (branch _ m e) w) = absurd (none-some z m)
    where
      none-some : {a : ℕ} {o : Option ℕ} → o ≡ none → o ≡ some a → ⊥
      none-some a b = cc
  passed c h label g n z (go (pass _ _ m e) w) = moved (same_some m n) (sym e) w
  passed c {p = p} h label g n z (go (read k gate_none _ _ _) w) =
      absurd (closed_gate gate_none (same_some k label))
    where
      closed_gate : {d : ℕ} → gate (flags p) d ≡ none → d ≡ c → ⊥
      closed_gate {d} x e = cc

  literal_lem :
      (c : ℕ) {n i p e q : ℕ}
      → 0 < i
      → label_at ss i ≡ some c
      → slot_at ss i false ≡ some e
      → slot_at ss i true ≡ none
      → Way (suc n) i p q
      → Split (lit c) n p e q
  literal_lem c h label n z (stop e k) = absurd (omega (arith, e, h))
  literal_lem c h label n z (go (branch _ m e) w) = absurd (none-some z m)
    where
      none-some : {a : ℕ} {o : Option ℕ} → o ≡ none → o ≡ some a → ⊥
      none-some a b = cc
  literal_lem c {p = p} h label n z (go (pass k g m e) w) = record {
    middle = p;
    matched = match_pass (rw (same_some k label) at g) refl;
    rest = moved (same_some m n) (sym e) w;
  }
  literal_lem c {p = p} h label n z (go (read k g r m e) w) = record {
    middle = suc p;
    matched = match_read (rw (same_some k label) at g) (rw (same_some k label) at r) refl;
    rest = moved (same_some m n) e w;
  }

  -- The rounds of a loop, each of which takes an edge.
  star_lem :
      (n : ℕ) (l : Bool) (a : Regex) {i s e p q : ℕ}
      → 0 < i
      → label_at ss i ≡ some split_label
      → slot_at ss i l ≡ some s
      → slot_at ss i (not l) ≡ some e
      → ((k m r : ℕ) → Way k s m r → Split a k m i r)
      → Way n i p q
      → Split (rep zero_or_more l a) n p e q
  star_lem zero l a h label n z body w = too_short h w
  star_lem (suc k) l a {i} {s} {e} {p} {q} h label n z body w = elim (forked l h label n z w) [
    | inl x ↦
        let y = body k p q x in
        let more = star_lem k l a h label n z body y.rest in
        record {
          middle = more.middle;
          matched = match_more y.matched more.matched;
          rest = Walk-wider flags reads ss more.rest;
        }
    | inr x ↦ record { middle = p; matched = match_done refl; rest = Walk-wider flags reads ss x }
  ]

  -- The closing state of a group is passed.
  closed_group :
      (k : ℕ)
      → k < max_captures
      → (n : ℕ) {j e p q : ℕ} → 0 < j
      → label_at ss j ≡ some (capture_close + k)
      → slot_at ss j false ≡ some e
      → slot_at ss j true ≡ none
      → Way n j p q
      → Way (suc n) e p q
  closed_group k small zero j h m z w = too_short j w
  closed_group k small (suc n) {p = p} j h m z w = Walk-wider flags reads ss (
      Walk-wider flags reads ss (
        passed (capture_close + k) j h (gate-capture_close flags reads ss (flags p) k small) m z w))

  pub sound : (r : Regex) (n : ℕ) {s p e q : ℕ} → Wired ss r s e → Way n s p q → Split r n p e q
  sound empty n {s} {p} (wire_empty h) w = record {
    middle = p;
    matched = match_empty refl;
    rest = moved h refl w;
  }
  sound (lit c) zero (wire_lit i h m z) w = too_short i w
  sound (lit c) (suc n) (wire_lit i h m z) w = wider (lit c) (literal_lem c i h m z w)
  sound (cat a b) n (wire_cat wa wb) w =
      let x = sound a n wa w in
      let y = sound b n wb x.rest in
      record { middle = y.middle; matched = match_cat x.matched y.matched; rest = y.rest }
  sound (alt a b) zero (wire_alt i h m z wa wb) w = too_short i w
  sound (alt a b) (suc n) (wire_alt i h m z wa wb) w = elim (forked false i h m z w) [
    | inl v ↦
        let x = sound a n wa v in
        record {
          middle = x.middle;
          matched = match_left x.matched;
          rest = Walk-wider flags reads ss x.rest;
        }
    | inr v ↦
        let x = sound b n wb v in
        record {
          middle = x.middle;
          matched = match_right x.matched;
          rest = Walk-wider flags reads ss x.rest;
        }
  ]
  sound (rep zero_or_one l a) zero (wire_opt _ i h m z wa) w = too_short i w
  sound (rep zero_or_one l a) (suc n) {p = p} (wire_opt _ i h m z wa) w =
      elim (forked l i h m z w) [
        | inl v ↦
            let x = sound a n wa v in
            record {
              middle = x.middle;
              matched = match_once x.matched;
              rest = Walk-wider flags reads ss x.rest;
            }
        | inr v ↦ record {
          middle = p;
          matched = match_zero refl;
          rest = Walk-wider flags reads ss v;
        }
      ]
  sound (rep zero_or_more l a) n (wire_star _ i h m z wa) w =
      star_lem n l a i h m z (λ k x y v. sound a k wa v) w
  sound (rep one_or_more l a) n (wire_plus _ i h m z wa) w =
      let x = sound a n wa w in
      let y = star_lem n l a i h m z (λ k u v t. sound a k wa t) x.rest in
      record { middle = y.middle; matched = match_plus x.matched y.matched; rest = y.rest }
  sound (grp k a) zero (wire_grp _ small i j ho on zo hc nc zc wa) w = too_short i w
  sound (grp k a) (suc n) {p = p} (wire_grp _ small i j ho on zo hc nc zc wa) w =
      let v =
        passed (capture_open + k) i ho (gate-capture_open flags reads ss (flags p) k small) on zo
          w in
      let x = sound a n wa v in
      record {
        middle = x.middle;
        matched = match_group x.matched;
        rest = closed_group k small n j hc nc zc x.rest;
      }

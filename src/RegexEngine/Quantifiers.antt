-- ===== src/RegexEngine/Quantifiers.antt =====
-- The quantifiers and the groups of `postfix_to_nfa` (include/trieste/regex_engine.h), each on the
-- fragment at the top of the stack.
use trieste.Prelude.{
  ℕ, suc, ◌<◌, ◌≡◌, refl, ap, Bool, true, false, not, none, some, List, [], ◌∷◌, ◌++◌, length,
  arith, inr, length-append, ◌∙◌,
}
use trieste.RegexEngine.{
  zero_or_one, zero_or_more, one_or_more, StateDef, Slot, slot, Frag, frag, state_of, patch_states,
  split_label,
}
use trieste.RegexEngine.Syntax.{Regex, rep}
use trieste.RegexEngine.Slots.{
  label_at, slot_at, side, has, Within, Within-append, Within-wider, has-outside, has-append,
  label_at-patch_states, slot_at-patch_states, label_at-old, slot_at-old, label_at-new, slot_at-new,
}
use trieste.RegexEngine.Wired.{Wired, wire_opt, wire_star, wire_plus, Agrees, IsFrag}
use trieste.RegexEngine.Fragments.{kept, set_to, narrow, has_self, or_false}

-- The new state of a quantifier.
abbrev pub splitting : Bool → ℕ → StateDef
splitting true start = state_of split_label none (some start)
splitting false start = state_of split_label (some start) none

side_into : (l : Bool) (start : ℕ) → side (splitting l start) l ≡ some start
side_into true start = refl
side_into false start = refl

label_splitting : (l : Bool) (start : ℕ) → (splitting l start).label ≡ split_label
label_splitting true start = refl
label_splitting false start = refl

has-not : (i : ℕ) (l : Bool) → has i l (slot i (not l) ∷ []) ≡ false
has-not i true = ground arith
has-not i false = ground arith

pub has_apart : (i j : ℕ) (b c : Bool) → i < j → has i b (slot j c ∷ []) ≡ false
has_apart i j b c h = ground arith

module _ (ss : List StateDef) (a : Regex) (lo : ℕ) (f : Frag) (l : Bool)
    (p : IsFrag ss a lo (length ss) f) where
  abbrev n : ℕ
  n = length ss

  abbrev x : StateDef
  x = splitting l f.start

  -- The states with the new one, before and after the operand is linked to it.
  abbrev wide : List StateDef
  wide = ss ++ x ∷ []

  abbrev looped : List StateDef
  looped = patch_states f.dangling n wide

  abbrev open_slot : List Slot
  open_slot = slot n (not l) ∷ []

  size_wide : length wide ≡ suc n
  size_wide = omega (arith, length-append ss (x ∷ []))

  pub IsFrag-opt : IsFrag wide (rep zero_or_one l a) lo (suc n) (frag n (f.dangling ++ open_slot))
  IsFrag-opt = record {
    positive = p.positive;
    ordered = omega (arith, p.ordered);
    inside =
        Within-append lo (suc n) f.dangling open_slot
          (Within-wider lo n lo (suc n) f.dangling (omega arith) (omega arith) p.inside)
          ((p.ordered, omega arith), tt);
    wired = λ now e ag.
        wire_opt l (omega (arith, p.positive, p.ordered))
          (ag.labels n p.ordered (omega arith)
            ∙ (label_at-new ss x ∙ ap some (label_splitting l f.start)))
          (kept wide now lo (suc n) e n l (f.dangling ++ open_slot) ag p.ordered (omega arith) (
              rw
                (
                  has-append f.dangling open_slot n l,
                  has-outside lo n f.dangling n l p.inside (inr (omega arith)),
                )
                (has-not n l))
            ∙ (slot_at-new ss x l ∙ side_into l f.start))
          (set_to wide now lo (suc n) e n (not l) (f.dangling ++ open_slot) ag p.ordered
            (omega arith)
            (rw
              (
                has-append f.dangling open_slot n (not l),
                has-outside lo n f.dangling n (not l) p.inside (inr (omega arith)),
              )
              (has_self n (not l))))
          (p.wired now e (
            narrow ss wide now lo (suc n) lo n e e (f.dangling ++ open_slot) f.dangling ag
              (omega arith) (omega arith) (λ i q k. label_at-old ss (x ∷ []) i k)
              (λ i c q k.
                rw
                  (
                    slot_at-old ss (x ∷ []) i c k,
                    has-append f.dangling open_slot i c,
                    has_apart i n c (not l) k,
                    or_false (has i c f.dangling),
                  )
                  refl)));
  }

  -- What the loops of `*` and `+` have in common.
  record IsLoop (now : List StateDef) (e : ℕ) : Type 0 where
    labelled : label_at now n ≡ some split_label
    into : slot_at now n l ≡ some f.start
    out : slot_at now n (not l) ≡ some e
    body : Wired now a f.start n

  loop_lem : (now : List StateDef) (e : ℕ) → Agrees looped now lo (suc n) open_slot e → IsLoop now e
  loop_lem now e ag = record {
    labelled =
        ag.labels n p.ordered (omega arith)
        ∙ (label_at-patch_states f.dangling n wide n
            ∙ (label_at-new ss x ∙ ap some (label_splitting l f.start)));
    into =
        kept looped now lo (suc n) e n l open_slot ag p.ordered (omega arith) (has-not n l)
        ∙ (slot_at-patch_states f.dangling n wide n l (omega (arith, size_wide))
            ∙ rw (has-outside lo n f.dangling n l p.inside (inr (omega arith)))
                (slot_at-new ss x l ∙ side_into l f.start));
    out =
        set_to looped now lo (suc n) e n (not l) open_slot ag p.ordered (omega arith)
          (has_self n (not l));
    body = p.wired now n (
        narrow ss looped now lo (suc n) lo n e n open_slot f.dangling ag (omega arith) (omega arith)
          (λ i q k. label_at-patch_states f.dangling n wide i ∙ label_at-old ss (x ∷ []) i k)
          (λ i c q k.
            rw
              (
                has_apart i n c (not l) k,
                slot_at-patch_states f.dangling n wide i c (omega (arith, size_wide)),
                slot_at-old ss (x ∷ []) i c k,
              )
              refl));
  }

  inside_loop : Within lo (suc n) open_slot
  inside_loop = ((p.ordered, omega arith), tt)

  pub IsFrag-star : IsFrag looped (rep zero_or_more l a) lo (suc n) (frag n open_slot)
  IsFrag-star = record {
    positive = p.positive;
    ordered = omega (arith, p.ordered);
    inside = inside_loop;
    wired = λ now e ag.
        let g = loop_lem now e ag in
        wire_star l (omega (arith, p.positive, p.ordered)) g.labelled g.into g.out g.body;
  }

  pub IsFrag-plus : IsFrag looped (rep one_or_more l a) lo (suc n) (frag f.start open_slot)
  IsFrag-plus = record {
    positive = p.positive;
    ordered = omega (arith, p.ordered);
    inside = inside_loop;
    wired = λ now e ag.
        let g = loop_lem now e ag in
        wire_plus l (omega (arith, p.positive, p.ordered)) g.labelled g.into g.out g.body;
  }

-- ===== src/RegexEngine/Groups.antt =====
-- The capture groups of `postfix_to_nfa` (include/trieste/regex_engine.h), on the fragment at the
-- top of the stack.
use trieste.Prelude.{
  ℕ, suc, ◌+◌, ◌≤◌, ◌<◌, ◌≡◌, refl, Bool, true, false, none, some, List, [], ◌∷◌, ◌++◌, length,
  arith, inr, length-append, ◌∙◌,
}
use trieste.RegexEngine.{
  StateDef, Slot, slot, Frag, frag, state_of, patch_states, capture_open, capture_close,
  max_captures,
}
use trieste.RegexEngine.Syntax.{Regex, grp}
use trieste.RegexEngine.Slots.{
  label_at, slot_at, side, has, has-outside, length-patch_states, label_at-patch_states,
  slot_at-patch_states, label_at-old, slot_at-old, label_at-new, slot_at-new,
}
use trieste.RegexEngine.Wired.{wire_grp, IsFrag}
use trieste.RegexEngine.Fragments.{kept, set_to, narrow, has_self, has_other}
use trieste.RegexEngine.Quantifiers.{has_apart}

has_before : (i j : ℕ) (b c : Bool) → j < i → has i b (slot j c ∷ []) ≡ false
has_before i j b c h = ground arith

module _ (ss : List StateDef) (a : Regex) (lo k : ℕ) (f : Frag) (p : IsFrag ss a lo (length ss) f)
    (small : k < max_captures) where
  abbrev n : ℕ
  n = length ss

  abbrev close : StateDef
  close = state_of (capture_close + k) none none

  abbrev wide : List StateDef
  wide = ss ++ close ∷ []

  abbrev linked : List StateDef
  linked = patch_states f.dangling n wide

  abbrev opening : StateDef
  opening = state_of (capture_open + k) (some f.start) none

  abbrev whole : List StateDef
  whole = linked ++ opening ∷ []

  abbrev d : List Slot
  d = slot n false ∷ []

  size_wide : length wide ≡ suc n
  size_wide = omega (arith, length-append ss (close ∷ []))

  pub size_linked : length linked ≡ suc n
  size_linked = length-patch_states f.dangling n wide ∙ size_wide

  close_label : label_at whole n ≡ some (capture_close + k)
  close_label =
      label_at-old linked (opening ∷ []) n (omega (arith, size_linked))
      ∙ (label_at-patch_states f.dangling n wide n ∙ label_at-new ss close)

  close_slot : (b : Bool) → slot_at whole n b ≡ side close b
  close_slot b =
      slot_at-old linked (opening ∷ []) n b (omega (arith, size_linked))
      ∙ (slot_at-patch_states f.dangling n wide n b (omega (arith, size_wide))
          ∙ rw (has-outside lo n f.dangling n b p.inside (inr (omega arith)))
              (slot_at-new ss close b))

  open_label : label_at whole (suc n) ≡ some (capture_open + k)
  open_label = rw size_linked at (label_at-new linked opening)

  open_slot : (b : Bool) → slot_at whole (suc n) b ≡ side opening b
  open_slot b = rw size_linked at (slot_at-new linked opening b)

  pub IsFrag-grp : IsFrag whole (grp k a) lo (suc (suc n)) (frag (suc n) d)
  IsFrag-grp = record {
    positive = p.positive;
    ordered = omega (arith, p.ordered);
    inside = ((p.ordered, omega arith), tt);
    wired = λ now e ag.
        let lo_n : lo ≤ n = p.ordered in
        wire_grp k small (omega arith) (omega (arith, p.positive))
          (ag.labels (suc n) (omega arith) (omega arith) ∙ open_label)
          (kept whole now lo (suc (suc n)) e (suc n) false d ag (omega arith) (omega arith)
              (has_before (suc n) n false false (omega arith))
            ∙ open_slot false)
          (kept whole now lo (suc (suc n)) e (suc n) true d ag (omega arith) (omega arith)
              (has_before (suc n) n true false (omega arith))
            ∙ open_slot true)
          (ag.labels n lo_n (omega arith) ∙ close_label)
          (set_to whole now lo (suc (suc n)) e n false d ag lo_n (omega arith) (has_self n false))
          (kept whole now lo (suc (suc n)) e n true d ag lo_n (omega arith) (has_other n true)
            ∙ close_slot true)
          (p.wired now n (
            narrow ss whole now lo (suc (suc n)) lo n e n d f.dangling ag (omega arith)
              (omega arith)
              (λ i q h.
                label_at-old linked (opening ∷ []) i (omega (arith, size_linked))
                ∙ (label_at-patch_states f.dangling n wide i ∙ label_at-old ss (close ∷ []) i h))
              (λ i c q h.
                rw
                  (
                    has_apart i n c false h,
                    slot_at-old linked (opening ∷ []) i c (omega (arith, size_linked)),
                    slot_at-patch_states f.dangling n wide i c (omega (arith, size_wide)),
                    slot_at-old ss (close ∷ []) i c h,
                  )
                  refl)));
  }

-- ===== src/RegexEngine/Fragments.antt =====
-- The cases of the loop of `postfix_to_nfa` (include/trieste/regex_engine.h), each on the fragments
-- at the top of the stack.
use trieste.Prelude.{
  ℕ, suc, ◌≤◌, ◌<◌, ◌≡◌, refl, Bool, true, false, ◌||◌, not, none, some, List, [], ◌∷◌, ◌++◌,
  length, if◌then◌else◌, arith, inl, inr, ◌∙◌,
}
use trieste.RegexEngine.{StateDef, Slot, slot, Frag, frag, state_of, patch_states, split_label}
use trieste.RegexEngine.Syntax.{Regex, lit, cat, alt}
use trieste.RegexEngine.Slots.{
  label_at, slot_at, has, Within-append, Within-wider, has-outside, has-append,
  label_at-patch_states, slot_at-patch_states, label_at-old, slot_at-old, label_at-new, slot_at-new,
}
use trieste.RegexEngine.Wired.{wire_lit, wire_cat, wire_alt, Agrees, IsFrag}

-- The link at a slot that does not dangle.
pub kept :
    (ss now : List StateDef) (lo hi e i : ℕ) (b : Bool) (d : List Slot)
    → Agrees ss now lo hi d e
    → lo ≤ i
    → i < hi
    → has i b d ≡ false
    → slot_at now i b ≡ slot_at ss i b
kept ss now lo hi e i b d ag l h n = ag.slots i b l h ∙ rw n refl

-- The link at a slot that does.
pub set_to :
    (ss now : List StateDef) (lo hi e i : ℕ) (b : Bool) (d : List Slot)
    → Agrees ss now lo hi d e
    → lo ≤ i
    → i < hi
    → has i b d ≡ true
    → slot_at now i b ≡ some e
set_to ss now lo hi e i b d ag l h n = ag.slots i b l h ∙ rw n refl

pub has_self : (i : ℕ) (b : Bool) → has i b (slot i b ∷ []) ≡ true
has_self i true = ground arith
has_self i false = ground arith

pub has_other : (i : ℕ) (b : Bool) → has i b (slot i (not b) ∷ []) ≡ false
has_other i true = ground arith
has_other i false = ground arith

pub IsFrag-lit :
    (ss : List StateDef) (c : ℕ)
    → 0 < length ss
    → IsFrag
        (ss ++ state_of c none none ∷ [])
        (lit c)
        (length ss)
        (suc (length ss))
        (frag (length ss) (slot (length ss) false ∷ []))
IsFrag-lit ss c h = record {
  positive = h;
  ordered = omega arith;
  inside = ((omega arith, omega arith), tt);
  wired = λ now e ag.
      wire_lit h (ag.labels n (omega arith) (omega arith) ∙ label_at-new ss x)
        (set_to (ss ++ x ∷ []) now n (suc n) e n false d ag (omega arith) (omega arith)
          (has_self n false))
        (kept (ss ++ x ∷ []) now n (suc n) e n true d ag (omega arith) (omega arith)
            (has_other n true)
          ∙ slot_at-new ss x true);
}
  where
    n : ℕ
    n = length ss

    x : StateDef
    x = state_of c none none

    d : List Slot
    d = slot (length ss) false ∷ []

-- What links the operand of a fragment, when the rest of it is linked.
pub narrow :
    (ss ts now : List StateDef) (lo hi lo' hi' e t : ℕ) (d d' : List Slot)
    → Agrees ts now lo hi d e
    → lo ≤ lo'
    → hi' ≤ hi
    → ((i : ℕ) → lo' ≤ i → i < hi' → label_at ts i ≡ label_at ss i)
    → ((i : ℕ) (b : Bool)
        → lo' ≤ i
        → i < hi'
        → (if has i b d then some e else slot_at ts i b)
          ≡ (if has i b d' then some t else slot_at ss i b))
    → Agrees ss now lo' hi' d' t
narrow ss ts now lo hi lo' hi' e t d d' ag l h labels slots = record {
  labels = λ i p q. ag.labels i (omega arith) (omega arith) ∙ labels i p q;
  slots = λ i b p q. ag.slots i b (omega arith) (omega arith) ∙ slots i b p q;
}

pub IsFrag-cat :
    (ss : List StateDef) (a b : Regex) (lo m hi : ℕ) (f g : Frag)
    → hi ≤ length ss
    → IsFrag ss a lo m f
    → IsFrag ss b m hi g
    → IsFrag (patch_states f.dangling g.start ss) (cat a b) lo hi (frag f.start g.dangling)
IsFrag-cat ss a b lo m hi f g h p q = record {
  positive = p.positive;
  ordered = omega (arith, p.ordered, q.ordered);
  inside = Within-wider m hi lo hi g.dangling p.ordered (omega arith) q.inside;
  wired = λ now e ag.
      wire_cat
        (p.wired now g.start (
          narrow ss ts now lo hi lo m e g.start g.dangling f.dangling ag (omega arith) q.ordered
            (λ i l k. label_at-patch_states f.dangling g.start ss i)
            (λ i c l k.
              rw (has-outside m hi g.dangling i c q.inside (inl k))
                (slot_at-patch_states f.dangling g.start ss i c (omega (arith, q.ordered))))))
        (q.wired now e (
          narrow ss ts now lo hi m hi e e g.dangling g.dangling ag p.ordered (omega arith)
            (λ i l k. label_at-patch_states f.dangling g.start ss i)
            (λ i c l k.
              rw
                (
                  slot_at-patch_states f.dangling g.start ss i c (omega arith),
                  has-outside lo m f.dangling i c p.inside (inr l),
                )
                refl)));
}
  where
    ts : List StateDef
    ts = patch_states f.dangling g.start ss

pub or_false : (c : Bool) → (c || false) ≡ c
or_false true = refl
or_false false = refl

pub IsFrag-alt :
    (ss : List StateDef) (a b : Regex) (lo m : ℕ) (f g : Frag)
    → IsFrag ss a lo m f
    → IsFrag ss b m (length ss) g
    → IsFrag
        (ss ++ state_of split_label (some f.start) (some g.start) ∷ [])
        (alt a b)
        lo
        (suc (length ss))
        (frag (length ss) (f.dangling ++ g.dangling))
IsFrag-alt ss a b lo m f g p q = record {
  positive = p.positive;
  ordered = omega (arith, p.ordered, q.ordered);
  inside =
      Within-append lo (suc n) f.dangling g.dangling
        (Within-wider lo m lo (suc n) f.dangling (omega arith) (omega (arith, q.ordered)) p.inside)
        (Within-wider m n lo (suc n) g.dangling p.ordered (omega arith) q.inside);
  wired = λ now e ag.
      wire_alt (omega (arith, p.positive, p.ordered, q.ordered))
        (ag.labels n lo_n (omega arith) ∙ label_at-new ss x)
        (kept ts now lo (suc n) e n false d ag lo_n (omega arith) (none_here false)
          ∙ slot_at-new ss x false)
        (kept ts now lo (suc n) e n true d ag lo_n (omega arith) (none_here true)
          ∙ slot_at-new ss x true)
        (p.wired now e (
          narrow ss ts now lo (suc n) lo m e e d f.dangling ag (omega arith)
            (omega (arith, q.ordered))
            (λ i l k. label_at-old ss (x ∷ []) i (omega (arith, q.ordered)))
            (λ i c l k.
              rw
                (
                  slot_at-old ss (x ∷ []) i c (omega (arith, q.ordered)),
                  has-append f.dangling g.dangling i c,
                  has-outside m n g.dangling i c q.inside (inl k),
                  or_false (has i c f.dangling),
                )
                refl)))
        (q.wired now e (
          narrow ss ts now lo (suc n) m n e e d g.dangling ag p.ordered (omega arith)
            (λ i l k. label_at-old ss (x ∷ []) i k)
            (λ i c l k.
              rw
                (
                  slot_at-old ss (x ∷ []) i c k,
                  has-append f.dangling g.dangling i c,
                  has-outside lo m f.dangling i c p.inside (inr l),
                )
                refl)));
}
  where
    n : ℕ
    n = length ss

    x : StateDef
    x = state_of split_label (some f.start) (some g.start)

    ts : List StateDef
    ts = ss ++ x ∷ []

    d : List Slot
    d = f.dangling ++ g.dangling

    lo_n : lo ≤ n
    lo_n = omega (arith, p.ordered, q.ordered)

    none_here : (c : Bool) → has n c d ≡ false
    none_here c =
        rw
          (
            has-append f.dangling g.dangling n c,
            has-outside lo m f.dangling n c p.inside (inr q.ordered),
          )
          (has-outside m n g.dangling n c q.inside (inr (omega arith)))

-- ===== src/RegexEngine/Wired.antt =====
-- How the states of include/trieste/regex_engine.h are linked for a regular expression, and that
-- each case of `postfix_to_nfa` links them so.
use trieste.Prelude.{
  ℕ, ◌+◌, ◌≤◌, ◌<◌, ◌≡◌, refl, Bool, true, false, not, none, some, List, ◌++◌, length,
  if◌then◌else◌, arith, inl, ◌∙◌,
}
use trieste.RegexEngine.{
  zero_or_one, zero_or_more, one_or_more, StateDef, Slot, Frag, patch_states, split_label,
  capture_open, capture_close, max_captures,
}
use trieste.RegexEngine.Syntax.{Regex, empty, lit, cat, alt, rep, grp}
use trieste.RegexEngine.Slots.{
  label_at, slot_at, has, Within, has-outside, label_at-patch_states, slot_at-patch_states,
  label_at-old, slot_at-old,
}

-- The states that an expression occupies, from its start to the state `e` that follows it.
pub data Wired (ss : List StateDef) : Regex → ℕ → ℕ → Type 0 where
  wire_empty : {s e : ℕ} → s ≡ e → Wired ss empty s e
  wire_lit :
      {c i e : ℕ}
      → 0 < i
      → label_at ss i ≡ some c
      → slot_at ss i false ≡ some e
      → slot_at ss i true ≡ none
      → Wired ss (lit c) i e
  wire_cat : {a b : Regex} {s m e : ℕ} → Wired ss a s m → Wired ss b m e → Wired ss (cat a b) s e
  wire_alt :
      {a b : Regex} {i s t e : ℕ}
      → 0 < i
      → label_at ss i ≡ some split_label
      → slot_at ss i false ≡ some s
      → slot_at ss i true ≡ some t
      → Wired ss a s e
      → Wired ss b t e
      → Wired ss (alt a b) i e
  wire_opt :
      {a : Regex} (l : Bool) {i s e : ℕ}
      → 0 < i
      → label_at ss i ≡ some split_label
      → slot_at ss i l ≡ some s
      → slot_at ss i (not l) ≡ some e
      → Wired ss a s e
      → Wired ss (rep zero_or_one l a) i e
  wire_star :
      {a : Regex} (l : Bool) {i s e : ℕ}
      → 0 < i
      → label_at ss i ≡ some split_label
      → slot_at ss i l ≡ some s
      → slot_at ss i (not l) ≡ some e
      → Wired ss a s i
      → Wired ss (rep zero_or_more l a) i e
  wire_plus :
      {a : Regex} (l : Bool) {i s e : ℕ}
      → 0 < i
      → label_at ss i ≡ some split_label
      → slot_at ss i l ≡ some s
      → slot_at ss i (not l) ≡ some e
      → Wired ss a s i
      → Wired ss (rep one_or_more l a) s e
  wire_grp :
      {a : Regex} (k : ℕ) {i s j e : ℕ}
      → k < max_captures
      → 0 < i
      → 0 < j
      → label_at ss i ≡ some (capture_open + k)
      → slot_at ss i false ≡ some s
      → slot_at ss i true ≡ none
      → label_at ss j ≡ some (capture_close + k)
      → slot_at ss j false ≡ some e
      → slot_at ss j true ≡ none
      → Wired ss a s j
      → Wired ss (grp k a) i e

-- On the states from `lo` to `hi`, `now` is `ss` with `e` in the dangling slots.
pub record Agrees (ss now : List StateDef) (lo hi : ℕ) (d : List Slot) (e : ℕ) : Type 0 where
  pub labels : (i : ℕ) → lo ≤ i → i < hi → label_at now i ≡ label_at ss i
  pub slots :
      (i : ℕ) (b : Bool)
      → lo ≤ i
      → i < hi
      → slot_at now i b ≡ (if has i b d then some e else slot_at ss i b)

-- A fragment of the states from `lo` to `hi`, which will be wired for the expression once its
-- dangling slots are set, wherever they are set to.
pub record IsFrag (ss : List StateDef) (r : Regex) (lo hi : ℕ) (f : Frag) : Type 0 where
  pub positive : 0 < lo
  pub ordered : lo ≤ hi
  pub inside : Within lo hi f.dangling
  pub wired :
      (now : List StateDef) (e : ℕ) → Agrees ss now lo hi f.dangling e → Wired now r f.start e

-- Nothing changed below `hi`.
pub record Keeps (ss now : List StateDef) (hi : ℕ) : Type 0 where
  pub labels : (i : ℕ) → i < hi → label_at now i ≡ label_at ss i
  pub slots : (i : ℕ) (b : Bool) → i < hi → slot_at now i b ≡ slot_at ss i b

pub Keeps-append : (ss ts : List StateDef) (hi : ℕ) → hi ≤ length ss → Keeps ss (ss ++ ts) hi
Keeps-append ss ts hi h = record {
  labels = λ i l. label_at-old ss ts i (omega arith);
  slots = λ i b l. slot_at-old ss ts i b (omega arith);
}

pub Keeps-patch_states :
    (ss : List StateDef) (lo hi t : ℕ) (d : List Slot)
    → Within lo hi d
    → lo ≤ length ss
    → Keeps ss (patch_states d t ss) lo
Keeps-patch_states ss lo hi t d w h = record {
  labels = λ i l. label_at-patch_states d t ss i;
  slots = λ i b l.
      rw (slot_at-patch_states d t ss i b (omega arith), has-outside lo hi d i b w (inl l)) refl;
}

pub Keeps-trans :
    (ss ts us : List StateDef) (hi : ℕ) → Keeps ss ts hi → Keeps ts us hi → Keeps ss us hi
Keeps-trans ss ts us hi p q = record {
  labels = λ i l. q.labels i l ∙ p.labels i l;
  slots = λ i b l. q.slots i b l ∙ p.slots i b l;
}

pub Keeps-lower : (ss ts : List StateDef) (hi lo : ℕ) → Keeps ss ts hi → lo ≤ hi → Keeps ss ts lo
Keeps-lower ss ts hi lo p h = record {
  labels = λ i l. p.labels i (omega arith);
  slots = λ i b l. p.slots i b (omega arith);
}

pub Agrees-Keeps :
    (ss ts now : List StateDef) (lo hi e : ℕ) (d : List Slot)
    → Keeps ss ts hi
    → Agrees ts now lo hi d e
    → Agrees ss now lo hi d e
Agrees-Keeps ss ts now lo hi e d k ag = record {
  labels = λ i l h. ag.labels i l h ∙ k.labels i h;
  slots = λ i b l h. ag.slots i b l h ∙ rw (k.slots i b h) refl;
}

pub IsFrag-Keeps :
    (ss ts : List StateDef) (r : Regex) (lo hi : ℕ) (f : Frag)
    → Keeps ss ts hi
    → IsFrag ss r lo hi f
    → IsFrag ts r lo hi f
IsFrag-Keeps ss ts r lo hi f k p = record {
  positive = p.positive;
  ordered = p.ordered;
  inside = p.inside;
  wired = λ now e ag. p.wired now e (Agrees-Keeps ss ts now lo hi e f.dangling k ag);
}

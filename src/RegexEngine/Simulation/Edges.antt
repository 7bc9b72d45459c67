-- ===== src/RegexEngine/Simulation/Edges.antt =====
-- The links that the search of include/trieste/regex_engine.h follows are the edges of the automaton
-- that read nothing.
use trieste.Prelude.{
  ℕ, zero, suc, ◌≡◌, refl, Bool, true, false, ◌||◌, Option, none, some, List, [], ◌∷◌, get_elem?,
  elem, ◌==◌, ==_iff, ==_refl, if◌then◌else◌, arith, ◌⊎◌, inl, inr, ◌↔◌, Bool-cases,
}
use trieste.RegexEngine.{
  StateDef, split_label, word_boundary, start_anchor, end_anchor, is_capture_open, is_capture_close,
}
use trieste.RegexEngine.Syntax.{Flags, gate}
use trieste.RegexEngine.Slots.{label_at, slot_at, side}
use trieste.RegexEngine.Closure.{outcome}
use trieste.RegexEngine.Closure.Correct.{pending}

pub label_at-state :
    (ss : List StateDef) (i : ℕ) (x : StateDef)
    → get_elem? ss i ≡ some x
    → label_at ss i ≡ some x.label
label_at-state [] i x h = cc
label_at-state (y ∷ ss) zero x h = cc
label_at-state (y ∷ ss) (suc i) x h = label_at-state ss i x h

pub slot_at-state :
    (ss : List StateDef) (i : ℕ) (x : StateDef) (b : Bool)
    → get_elem? ss i ≡ some x
    → slot_at ss i b ≡ side x b
slot_at-state [] i x b h = cc
slot_at-state (y ∷ ss) zero x b h = let e = some_inj h in rw e refl
  where
    some_inj : {p q : StateDef} → some p ≡ some q → p ≡ q
    some_inj k = cc
slot_at-state (y ∷ ss) (suc i) x b h = slot_at-state ss i x b h

pub state_at :
    (ss : List StateDef) (i c : ℕ)
    → label_at ss i ≡ some c
    → (x : StateDef) × (get_elem? ss i ≡ some x) × (x.label ≡ c)
state_at [] i c h = absurd (cc)
state_at (y ∷ ss) zero c h = (y, refl, cc)
state_at (y ∷ ss) (suc i) c h = state_at ss i c h

pending_one : (t : ℕ) (o : Option ℕ) → pending t (o ∷ []) ≡ true → o ≡ some t
pending_one t none h = absurd (cc)
pending_one t (some s) h = let e : s ≡ t = ground arith in rw e refl

pending_two : (t : ℕ) (o q : Option ℕ) → pending t (o ∷ q ∷ []) ≡ true → (q ≡ some t) ⊎ (o ≡ some t)
pending_two t none q h = inl (pending_one t q h)
pending_two t (some s) q h = elim (Bool-cases (t == s)) [
  | inl e ↦ let z : s ≡ t = ground arith in inr (rw z refl)
  | inr e ↦ inl (pending_one t q (rw e at h))
]

one_pending : (t : ℕ) (o : Option ℕ) → o ≡ some t → pending t (o ∷ []) ≡ true
one_pending t o h = rw h (rw (==_refl t) refl)

two_pending_last : (t : ℕ) (o q : Option ℕ) → q ≡ some t → pending t (o ∷ q ∷ []) ≡ true
two_pending_last t none q h = one_pending t q h
two_pending_last t (some s) q h = or_true (t == s) (one_pending t q h)
  where
    or_true : (b : Bool) {c : Bool} → c ≡ true → (b || c) ≡ true
    or_true b k = ground arith

two_pending_first : (t : ℕ) (o q : Option ℕ) → o ≡ some t → pending t (o ∷ q ∷ []) ≡ true
two_pending_first t o q h = rw h (rw (==_refl t) refl)

-- What the search does with a state, from the gate of its label.
abbrev by_gate : ℕ → StateDef → Option Bool → List ℕ × List (Option ℕ)
by_gate i x none = (i ∷ [], [])
by_gate i x (some true) = ([], x.next ∷ [])
by_gate i x (some false) = ([], [])

outcome-gate :
    (f : Flags) (i : ℕ) (x : StateDef)
    → (x.label == split_label) ≡ false
    → outcome f i x ≡ by_gate i x (gate f x.label)
unfolding outcome gate
outcome-gate f i x a = elim (Bool-cases (is_capture_open x.label || is_capture_close x.label)) [
  | inl b ↦ rw (a, b, outcome, gate) refl
  | inr b ↦ elim (Bool-cases (x.label == word_boundary)) [
    | inl c ↦ rw (a, b, c, outcome, gate) (flagged f.boundary_match)
    | inr c ↦ elim (Bool-cases (x.label == start_anchor)) [
      | inl d ↦ rw (a, b, c, d, outcome, gate) (flagged f.at_start)
      | inr d ↦ elim (Bool-cases (x.label == end_anchor)) [
        | inl k ↦ rw (a, b, c, d, k, outcome, gate) (flagged f.at_end)
        | inr k ↦ rw (a, b, c, d, k, outcome, gate) refl
      ]
    ]
  ]
]
  where
    flagged : (q : Bool) → (if q then ([], x.next ∷ []) else ([], [])) ≡ by_gate i x (some q)
    flagged true = refl
    flagged false = refl

outcome-split :
    (f : Flags) (i : ℕ) (x : StateDef)
    → (x.label == split_label) ≡ true
    → outcome f i x ≡ ([], x.next ∷ x.next_alt ∷ [])
unfolding outcome
outcome-split f i x a = rw (a, outcome) refl

gate-split : (f : Flags) (c : ℕ) → (c == split_label) ≡ true → gate f c ≡ some true
unfolding gate
gate-split f c a = rw (a, gate) refl

pending_by :
    (i t : ℕ) (x : StateDef) (o : Option Bool)
    → pending t (by_gate i x o).1 ≡ true
    → (o ≡ some true) × (x.next ≡ some t)
pending_by i t x none h = absurd (cc)
pending_by i t x (some true) h = (refl, pending_one t x.next h)
pending_by i t x (some false) h = absurd (cc)

found_by : (i : ℕ) (x : StateDef) (o : Option Bool) → (elem i (by_gate i x o).0 ≡ true) ↔ (o ≡ none)
found_by i x none = (λ _. refl, λ _. rw (==_refl i) refl)
found_by i x (some true) = (λ h. cc, λ h. cc)
found_by i x (some false) = (λ h. cc, λ h. cc)

-- How a link that the search pushes comes about.
pub outcome-pending :
    (f : Flags) (i t : ℕ) (x : StateDef)
    → pending t (outcome f i x).1 ≡ true
    → ((x.label ≡ split_label) × (x.next_alt ≡ some t))
      ⊎ ((gate f x.label ≡ some true) × (x.next ≡ some t))
outcome-pending f i t x h = elim (Bool-cases (x.label == split_label)) [
  | inl a ↦ elim (pending_two t x.next x.next_alt (rw (outcome-split f i x a) at h)) [
    | inl e ↦ inl ((==_iff x.label split_label).0 a, e)
    | inr e ↦ inr (gate-split f x.label a, e)
  ]
  | inr a ↦ inr (pending_by i t x (gate f x.label) (rw (outcome-gate f i x a) at h))
]

pub split-pending :
    (f : Flags) (i t : ℕ) (x : StateDef)
    → x.label ≡ split_label
    → x.next_alt ≡ some t
    → pending t (outcome f i x).1 ≡ true
split-pending f i t x a h =
    rw (outcome-split f i x ((==_iff x.label split_label).1 a))
      (two_pending_last t x.next x.next_alt h)

pub gate-pending :
    (f : Flags) (i t : ℕ) (x : StateDef)
    → gate f x.label ≡ some true
    → x.next ≡ some t
    → pending t (outcome f i x).1 ≡ true
gate-pending f i t x g h = elim (Bool-cases (x.label == split_label)) [
  | inl a ↦ rw (outcome-split f i x a) (two_pending_first t x.next x.next_alt h)
  | inr a ↦ rw (outcome-gate f i x a, g) (one_pending t x.next h)
]

-- The states that are found are those whose labels read.
pub outcome-found :
    (f : Flags) (i : ℕ) (x : StateDef) → (elem i (outcome f i x).0 ≡ true) ↔ (gate f x.label ≡ none)
outcome-found f i x = elim (Bool-cases (x.label == split_label)) [
  | inl a ↦ rw (outcome-split f i x a, gate-split f x.label a) (λ h. cc, λ h. cc)
  | inr a ↦ rw (outcome-gate f i x a) (found_by i x (gate f x.label))
]

-- ===== src/RegexEngine/Simulation/Conditions.antt =====
-- The flags that the engine of include/trieste/regex_engine.h passes on: without conditional states
-- they do not matter.
use trieste.Prelude.{
  ℕ, zero, suc, ◌<◌, ◌≡◌, refl, sym, ◌∙◌, Bool, true, false, ◌||◌, none, some, List, [], ◌∷◌,
  length, get_elem?, elem, ◌==◌, arith, inl, inr, ◌↔◌, Bool-cases,
}
use trieste.RegexEngine.{StateDef, word_boundary, start_anchor, end_anchor}
use trieste.RegexEngine.Syntax.{Flags}
use trieste.RegexEngine.Closure.{outcome}
use trieste.RegexEngine.Closure.Correct.{Leads, here, on}
use trieste.RegexEngine.Cache.{detect_conditional_states, flags_of}
use trieste.RegexEngine.Simulation.{Engine}
use trieste.RegexEngine.Simulation.Sets.{IsReady, Enters, entered_from, closure_of-Enters}

unconditional :
    (ss : List StateDef) (i : ℕ) (x : StateDef)
    → detect_conditional_states ss ≡ false
    → get_elem? ss i ≡ some x
    → ((x.label == word_boundary) ≡ false)
      × ((x.label == start_anchor) ≡ false)
      × ((x.label == end_anchor) ≡ false)
unfolding detect_conditional_states
unconditional [] i x d h = absurd (none-some h)
  where
    none-some : none ≡ some x → ⊥
    none-some e = cc
unconditional (y ∷ ss) zero x d h =
    let same : y ≡ x = some_inj h in
    rw (sym same) (
      none_of (y.label == word_boundary) (y.label == start_anchor) (y.label == end_anchor)
        (detect_conditional_states ss) d)
  where
    some_inj : {a b : StateDef} → some a ≡ some b → a ≡ b
    some_inj e = cc

    none_of :
        (a b c r : Bool) → (a || b || c || r) ≡ false → (a ≡ false) × (b ≡ false) × (c ≡ false)
    none_of a b c r e = ground arith
unconditional (y ∷ ss) (suc i) x d h =
    unconditional ss i x
      (rest (y.label == word_boundary) (y.label == start_anchor) (y.label == end_anchor)
        (detect_conditional_states ss) d)
      h
  where
    rest : (a b c r : Bool) → (a || b || c || r) ≡ false → r ≡ false
    rest a b c r e = ground arith

-- Without conditional states the flags do not matter.
outcome-flags :
    (f g : Flags) (ss : List StateDef) (i : ℕ) (x : StateDef)
    → detect_conditional_states ss ≡ false
    → get_elem? ss i ≡ some x
    → outcome f i x ≡ outcome g i x
unfolding outcome
outcome-flags f g ss i x d h =
    let (b, s, e) = unconditional ss i x d h in rw (b, s, e, outcome) refl

Leads-flags :
    (f g : Flags) (ss : List StateDef) (v u : ℕ)
    → detect_conditional_states ss ≡ false
    → Leads f ss v u
    → Leads g ss v u
Leads-flags f g ss v u d (here e) = here e
Leads-flags f g ss v u d (on {t = t} l w) = on (Leads-flags f g ss v t d l) record {
  state = w.state;
  at = w.at;
  linked = rw (outcome-flags g f ss t w.state d w.at) w.linked;
  valid = w.valid;
}

Enters-flags :
    (f g : Flags) (ss : List StateDef) (v u : ℕ)
    → detect_conditional_states ss ≡ false
    → Enters f ss v u
    → Enters g ss v u
Enters-flags f g ss v u d x = record {
  led = Leads-flags f g ss v u d x.led;
  reader = record {
    state = (x.reader).state;
    at = (x.reader).at;
    found = rw (outcome-flags g f ss u (x.reader).state d (x.reader).at) (x.reader).found;
  };
}

-- The flags that the engine passes on are those of the position, unless no state asks for them.
pub entered_from-Enters :
    (e : Engine) (v u : ℕ) (f g : Flags)
    → IsReady e
    → v < length e.owned_states
    → (e.has_conditionals ≡ true → f ≡ g)
    → (elem u (entered_from e v f) ≡ true) ↔ Enters g e.owned_states v u
entered_from-Enters e v u f g r h same = elim (Bool-cases e.has_conditionals) [
  | inl c ↦ rw (c, same c) (closure_of-Enters g e.owned_states v u h)
  | inr c ↦
      let d : detect_conditional_states e.owned_states ≡ false = sym r.detected ∙ c in
      let x = closure_of-Enters (flags_of 0) e.owned_states v u h in
      rw c (
        λ m. Enters-flags (flags_of 0) g e.owned_states v u d (x.0 m),
        λ m. x.1 (Enters-flags g (flags_of 0) e.owned_states v u d m),
      )
]

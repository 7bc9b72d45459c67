-- ===== src/RegexEngine/Links.antt =====
-- Every pointer that `postfix_to_nfa` (include/trieste/regex_engine.h) leaves in a state is null or a
-- state's, also where the construction fails on the way.
pub mod Safe
use trieste.Prelude.{
  ℕ, zero, suc, ◌+◌, ◌*◌, ◌≤◌, ◌<◌, ◌≡◌, refl, Bool, true, false, not, Option, none, some, List, [],
  ◌∷◌, ◌++◌, All, length, get_elem?, leb, ltb, if◌then◌else◌, arith, inl, inr, Bool-cases,
  length-append,
}
use trieste.RegexEngine.{
  ErrorCode, QuantifierKind, zero_or_one, zero_or_more, one_or_more, Token, catenation, alternation,
  quantifier, group, literal, classify, StateDef, Slot, Frag, Builder, Round, state_of, assign,
  set_slot, patch_states, accept_state, split_label, match_label, capture_open, capture_close,
  set_error, create_state, patch, catenate, alternate, split_into, quantified, build_quantifier,
  unless_error, closed, wrap_group, round, finish, rounds, carry_on, postfix_to_nfa, nfa_of,
  max_states, error_internal_error, error_repeat_op, error_pattern_too_large, frag, slot,
  empty_builder,
}
use trieste.RegexEngine.Slots.{length-set_slot, length-patch_states}

abbrev pub IsLink : ℕ → Option ℕ → Type 0
IsLink n none = Unit {0}
IsLink n (some v) = v < n

abbrev pub AreLinks : ℕ → StateDef → Type 0
AreLinks n s = IsLink n s.next × IsLink n s.next_alt

abbrev pub Linked : ℕ → List StateDef → Type 0
Linked n = All (AreLinks n)

IsLink-wider : (n m : ℕ) (o : Option ℕ) → n ≤ m → IsLink n o → IsLink m o
IsLink-wider n m none h l = tt
IsLink-wider n m (some v) h l = omega arith

pub Linked-wider : (n m : ℕ) (ss : List StateDef) → n ≤ m → Linked n ss → Linked m ss
Linked-wider n m [] h l = tt
Linked-wider n m (s ∷ ss) h l = (
  (IsLink-wider n m s.next h (l.0).0, IsLink-wider n m s.next_alt h (l.0).1),
  Linked-wider n m ss h l.1,
)

Linked-append :
    (n : ℕ) (ss : List StateDef) (s : StateDef)
    → Linked n ss
    → AreLinks n s
    → Linked n (ss ++ s ∷ [])
Linked-append n [] s l h = (h, tt)
Linked-append n (x ∷ ss) s l h = (l.0, Linked-append n ss s l.1 h)

Linked-set_slot :
    (n i : ℕ) (b : Bool) (t : ℕ) (ss : List StateDef)
    → t < n
    → Linked n ss
    → Linked n (set_slot i b t ss)
unfolding set_slot
Linked-set_slot n i b t [] h l = tt
Linked-set_slot n zero true t (s ∷ ss) h l = (((l.0).0, h), l.1)
Linked-set_slot n zero false t (s ∷ ss) h l = ((h, (l.0).1), l.1)
Linked-set_slot n (suc i) b t (s ∷ ss) h l = (l.0, Linked-set_slot n i b t ss h l.1)

Linked-patch_states :
    (n : ℕ) (ts : List Slot) (t : ℕ) (ss : List StateDef)
    → t < n
    → Linked n ss
    → Linked n (patch_states ts t ss)
unfolding patch_states
Linked-patch_states n [] t ss h l = l
Linked-patch_states n (x ∷ ts) t ss h l =
    Linked-patch_states n ts t (set_slot x.state x.alt t ss) h
      (Linked-set_slot n x.state x.alt t ss h l)

-- The states of a builder point at its own states, and there is an `accept_state`.
pub record IsLinked (b : Builder) : Type 0 where
  pub links : Linked (length b.owned_states) b.owned_states
  pub accept : 0 < length b.owned_states

abbrev pub Starts : ℕ → List Frag → Type 0
Starts n = All (λ (f : Frag). f.start < n)

pub Starts-wider : (n m : ℕ) (fs : List Frag) → n ≤ m → Starts n fs → Starts m fs
Starts-wider n m [] h l = tt
Starts-wider n m (f ∷ fs) h l = (omega (arith, l.0), Starts-wider n m fs h l.1)

abbrev pub size : Builder → ℕ
size b = length b.owned_states

-- A new state, or `accept_state` where there was no room.
pub record Made (b : Builder) (r : Builder × ℕ) : Type 0 where
  pub linked : IsLinked r.0
  pub made : r.1 < size r.0
  pub grown : size b ≤ size r.0

pub create_state-Made :
    (label : ℕ) (next next_alt : Option ℕ) (b : Builder)
    → IsLinked b
    → IsLink (size b) next
    → IsLink (size b) next_alt
    → Made b (create_state label next next_alt b)
unfolding create_state set_error
create_state-Made label next next_alt b v h g =
    elim (Bool-cases (leb b.capacity (length b.owned_states))) [
      | inl e ↦
          rw (e, create_state, set_error)
            record {
              linked = record { links = v.links; accept = v.accept };
              made = v.accept;
              grown = omega arith;
            }
      | inr e ↦
          rw (e, create_state)
            record {
              linked = record {
                links =
                    Linked-wider (size b) (length (b.owned_states ++ x ∷ []))
                      (b.owned_states ++ x ∷ []) (omega (arith, more))
                      (Linked-append (size b) b.owned_states x v.links (h, g));
                accept = omega (arith, more);
              };
              made = omega (arith, more);
              grown = omega (arith, more);
            }
    ]
  where
    x : StateDef
    x = state_of label next next_alt

    more : length (b.owned_states ++ x ∷ []) ≡ suc (size b)
    more = omega (arith, length-append b.owned_states (x ∷ []))

pub size-patch : (ts : List Slot) (t : ℕ) (b : Builder) → size (patch ts t b) ≡ size b
unfolding patch
size-patch ts t b = length-patch_states ts t b.owned_states

pub patch-IsLinked :
    (ts : List Slot) (t : ℕ) (b : Builder) → IsLinked b → t < size b → IsLinked (patch ts t b)
unfolding patch
patch-IsLinked ts t b v h = record {
  links =
      rw (length-patch_states ts t b.owned_states)
        (Linked-patch_states (size b) ts t b.owned_states h v.links);
  accept = omega (arith, length-patch_states ts t b.owned_states, v.accept);
}

pub set_error-IsLinked : (e : ErrorCode) (b : Builder) → IsLinked b → IsLinked (set_error e b)
unfolding set_error
set_error-IsLinked e b v = record { links = v.links; accept = v.accept }

-- ===== src/RegexEngine/Links/Safe.antt =====
-- The rounds of `postfix_to_nfa` (include/trieste/regex_engine.h) on automata without dangling
-- pointers.
use trieste.Prelude.{
  ℕ, ◌+◌, ◌*◌, ◌<◌, ◌≡◌, Bool, true, false, not, Option, none, some, List, [], ◌∷◌, length, leb,
  ltb, arith, inl, inr, Bool-cases,
}
use trieste.RegexEngine.{
  ErrorCode, QuantifierKind, zero_or_one, zero_or_more, one_or_more, Token, catenation, alternation,
  quantifier, group, literal, classify, Frag, Builder, Round, accept_state, split_label,
  match_label, capture_open, capture_close, set_error, create_state, patch, catenate, alternate,
  split_into, quantified, build_quantifier, unless_error, closed, wrap_group, round, finish, rounds,
  carry_on, postfix_to_nfa, nfa_of, max_states, error_internal_error, error_repeat_op,
  error_pattern_too_large, frag, slot, empty_builder,
}
use trieste.RegexEngine.Links.{
  IsLinked, Starts, Starts-wider, size, Made, create_state-Made, size-patch, patch-IsLinked,
  set_error-IsLinked,
}

abbrev StartsIn : ℕ → Option (List Frag) → Type 0
StartsIn n none = Unit
StartsIn n (some fs) = Starts n fs

record AfterRound (r : Round) : Type 0 where
  linked : IsLinked r.0
  starts : StartsIn (size r.0) r.1

after_catenate :
    (fs : List Frag) (b : Builder) → IsLinked b → Starts (size b) fs → AfterRound (catenate fs b)
unfolding catenate
after_catenate [] b v h = record {
  linked = set_error-IsLinked error_internal_error b v;
  starts = tt;
}
after_catenate (_ ∷ []) b v h = record {
  linked = set_error-IsLinked error_internal_error b v;
  starts = tt;
}
after_catenate (right ∷ left ∷ stack) b v h = record {
  linked = patch-IsLinked left.dangling right.start b v h.0;
  starts =
      Starts-wider (size b) (size (patch left.dangling right.start b))
        (frag left.start right.dangling ∷ stack)
        (omega (arith, size-patch left.dangling right.start b)) h.1;
}

after_alternate :
    (fs : List Frag) (b : Builder) → IsLinked b → Starts (size b) fs → AfterRound (alternate fs b)
unfolding alternate
after_alternate [] b v h = record {
  linked = set_error-IsLinked error_internal_error b v;
  starts = tt;
}
after_alternate (_ ∷ []) b v h = record {
  linked = set_error-IsLinked error_internal_error b v;
  starts = tt;
}
after_alternate (right ∷ left ∷ stack) b v h =
    let m = create_state-Made split_label (some left.start) (some right.start) b v (h.1).0 h.0 in
    record {
      linked = m.linked;
      starts = (
        m.made,
        Starts-wider (size b)
            (size (create_state split_label (some left.start) (some right.start) b).0) stack m.grown
            (h.1).1,
      );
    }

split_into-Made :
    (l : Bool) (start : ℕ) (b : Builder)
    → IsLinked b
    → start < size b
    → Made b (split_into l start b)
unfolding split_into
split_into-Made true start b v h = create_state-Made split_label none (some start) b v tt h
split_into-Made false start b v h = create_state-Made split_label (some start) none b v h tt

record AfterQuantifier (r : Builder × List Frag) : Type 0 where
  linked : IsLinked r.0
  starts : Starts (size r.0) r.1

after_quantified :
    (kind : QuantifierKind) (l : Bool) (f : Frag) (stack : List Frag) (b : Builder)
    (r : Builder × ℕ)
    → Made b r
    → f.start < size b
    → Starts (size b) stack
    → AfterQuantifier (quantified kind l f stack r)
unfolding quantified
after_quantified zero_or_one l f stack b (b', state) m h g = record {
  linked = m.linked;
  starts = (m.made, Starts-wider (size b) (size b') stack m.grown g);
}
after_quantified zero_or_more l f stack b (b', state) m h g = record {
  linked = patch-IsLinked f.dangling state b' m.linked m.made;
  starts =
      Starts-wider (size b') (size (patch f.dangling state b'))
        (frag state (slot state (not l) ∷ []) ∷ stack)
        (omega (arith, size-patch f.dangling state b'))
        (m.made, Starts-wider (size b) (size b') stack m.grown g);
}
after_quantified one_or_more l f stack b (b', state) m h g = record {
  linked = patch-IsLinked f.dangling state b' m.linked m.made;
  starts =
      Starts-wider (size b') (size (patch f.dangling state b'))
        (frag f.start (slot state (not l) ∷ []) ∷ stack)
        (omega (arith, size-patch f.dangling state b'))
        (omega (arith, m.grown, h), Starts-wider (size b) (size b') stack m.grown g);
}

after_unless :
    (r : Builder × List Frag) (o : Option ErrorCode)
    → AfterQuantifier r
    → AfterRound (unless_error r o)
after_unless (b, fs) none q = record { linked = q.linked; starts = q.starts }
after_unless (b, fs) (some e) q = record { linked = q.linked; starts = tt }

after_quantifier :
    (fs : List Frag) (kind : QuantifierKind) (l : Bool) (b : Builder)
    → IsLinked b
    → Starts (size b) fs
    → AfterQuantifier (build_quantifier fs kind l b)
unfolding build_quantifier
after_quantifier [] kind l b v h = record {
  linked = set_error-IsLinked error_repeat_op b v;
  starts = tt;
}
after_quantifier (f ∷ stack) kind l b v h =
    after_quantified kind l f stack b (split_into l f.start b) (split_into-Made l f.start b v h.0)
      h.0 h.1

after_closed :
    (k : ℕ) (f : Frag) (stack : List Frag) (b : Builder) (r : Builder × ℕ)
    → Made b r
    → f.start < size b
    → Starts (size b) stack
    → AfterRound (closed k f stack r)
unfolding closed
after_closed k f stack b (b', close) m h g =
    let same = size-patch f.dangling close b' in
    let o =
      create_state-Made (capture_open + k) (some f.start) none (patch f.dangling close b')
        (patch-IsLinked f.dangling close b' m.linked m.made) (omega (arith, m.grown, same, h)) tt in
    record {
      linked = o.linked;
      starts = (
        o.made,
        Starts-wider (size b)
            (size
              (create_state (capture_open + k) (some f.start) none (patch f.dangling close b')).0)
            stack (omega (arith, m.grown, o.grown, same)) g,
      );
    }

after_group :
    (k : ℕ) (fs : List Frag) (b : Builder)
    → IsLinked b
    → Starts (size b) fs
    → AfterRound (wrap_group k fs b)
unfolding wrap_group
after_group k [] b v h = record {
  linked = set_error-IsLinked error_internal_error b v;
  starts = tt;
}
after_group k (f ∷ stack) b v h =
    after_closed k f stack b (create_state (capture_close + k) none none b)
      (create_state-Made (capture_close + k) none none b v tt tt) h.0 h.1

after_literal :
    (c : ℕ) (fs : List Frag) (b : Builder)
    → IsLinked b
    → Starts (size b) fs
    → AfterRound (round (literal c) fs b)
unfolding round
after_literal c fs b v h =
    let m = create_state-Made c none none b v tt tt in
    record {
      linked = m.linked;
      starts = (m.made, Starts-wider (size b) (size (create_state c none none b).0) fs m.grown h);
    }

after_round :
    (t : Token) (fs : List Frag) (b : Builder)
    → IsLinked b
    → Starts (size b) fs
    → AfterRound (round t fs b)
unfolding round
after_round catenation fs b v h = after_catenate fs b v h
after_round alternation fs b v h = after_alternate fs b v h
after_round (quantifier kind l) fs b v h =
    after_unless (build_quantifier fs kind l b) ((build_quantifier fs kind l b).0).error_code
      (after_quantifier fs kind l b v h)
after_round (group k) fs b v h = after_group k fs b v h
after_round (literal c) fs b v h = after_literal c fs b v h

-- An automaton without a dangling pointer.
pub record IsSafe (nfa : Builder × ℕ) : Type 0 where
  pub linked : IsLinked nfa.0
  pub start : nfa.1 < length (nfa.0).owned_states

IsSafe-error : (e : ErrorCode) (b : Builder) → IsLinked b → IsSafe (set_error e b, accept_state)
unfolding set_error
IsSafe-error e b v = record { linked = set_error-IsLinked e b v; start = v.accept }

IsSafe-finish :
    (fs : List Frag) (b : Builder) → IsLinked b → Starts (size b) fs → IsSafe (finish fs b)
unfolding finish
IsSafe-finish [] b v h = IsSafe-error error_internal_error b v
IsSafe-finish (f ∷ []) b v h = record {
  linked = patch-IsLinked f.dangling accept_state b v v.accept;
  start = omega (arith, size-patch f.dangling accept_state b, h.0);
}
IsSafe-finish (_ ∷ _ ∷ _) b v h = IsSafe-error error_internal_error b v

IsSafe-on :
    (labels : List ℕ) (r : Round)
    → ((fs : List Frag) (b : Builder)
        → IsLinked b
        → Starts (size b) fs
        → IsSafe (rounds labels fs b))
    → AfterRound r
    → IsSafe (carry_on (rounds labels) r)
IsSafe-on labels (b, none) ih a = record { linked = a.linked; start = (a.linked).accept }
IsSafe-on labels (b, some fs) ih a = ih fs b a.linked a.starts

IsSafe-rounds :
    (labels : List ℕ) (fs : List Frag) (b : Builder)
    → IsLinked b
    → Starts (size b) fs
    → IsSafe (rounds labels fs b)
unfolding rounds
IsSafe-rounds [] fs b v h = IsSafe-finish fs b v h
IsSafe-rounds (c ∷ labels) fs b v h =
    IsSafe-on labels (round (classify c) fs b) (λ gs d w k. IsSafe-rounds labels gs d w k)
      (after_round (classify c) fs b v h)

IsSafe-nfa : (postfix : List ℕ) (b : Builder) → IsLinked b → IsSafe (postfix_to_nfa postfix b)
unfolding postfix_to_nfa
IsSafe-nfa [] b v = record { linked = v; start = v.accept }
IsSafe-nfa (c ∷ labels) b v = elim (Bool-cases (ltb max_states (length (c ∷ labels)))) [
  | inl h ↦ rw (h, postfix_to_nfa) (IsSafe-error error_pattern_too_large b v)
  | inr h ↦ rw (h, postfix_to_nfa) (IsSafe-rounds (c ∷ labels) [] b v tt)
]

abbrev roomy : ℕ → Builder
roomy n = record { owned_states = []; capacity = n + 1; error_code = none }

accept_alone : (n : ℕ) → IsLinked (create_state match_label none none (roomy n)).0
unfolding create_state
accept_alone n = rw (some_room n) record { links = ((tt, tt), tt); accept = omega arith }
  where
    some_room : (m : ℕ) → leb (m + 1) 0 ≡ false
    some_room m = ground arith

-- Whatever the postfix expression is, well formed or not, the constructor leaves no dangling
-- pointer: each link of each state is null or leads to one of the states, and so does the start.
pub nfa_of-IsSafe : (postfix : List ℕ) → IsSafe (nfa_of postfix)
unfolding nfa_of
nfa_of-IsSafe postfix =
    IsSafe-nfa postfix (create_state match_label none none (empty_builder postfix)).0
      (accept_alone (2 * length postfix))

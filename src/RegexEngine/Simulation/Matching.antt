-- ===== src/RegexEngine/Simulation/Matching.antt =====
-- `find_prefix` and `match` of include/trieste/regex_engine.h against the reading of the postfix
-- expression that the engine was built from.
use trieste.Prelude.{
  ℕ, ◌+◌, ◌<◌, ◌≡◌, refl, ap, ◌∙◌, subst, Bool, true, false, ◌&&◌, Option, none, some, List, length,
  arith, ◌↔◌,
}
use trieste.RuneClass.{RuneClass}
use trieste.RegexEngine.{ErrorCode, StateDef, Builder, accept_state, nfa_of}
use trieste.RegexEngine.Syntax.{Regex, Flags, Matches, denoted}
use trieste.RegexEngine.Links.{Linked}
use trieste.RegexEngine.Links.Safe.{IsSafe, nfa_of-IsSafe}
use trieste.RegexEngine.Rounds.{IsAccept}
use trieste.RegexEngine.Wired.{Wired}
use trieste.RegexEngine.Walks.{stop}
use trieste.RegexEngine.Language.{Wired-Matches, IsNfa-of}
use trieste.RegexEngine.Cache.{detect_conditional_states, ClosureCache, precompute_epsilon_closures}
use trieste.RegexEngine.Simulation.{
  Engine, with_cache, engine_from, engine_of, is_match, Text, starts_word, flags_before, better,
  start_list, from_start, find_prefix,
}
use trieste.RegexEngine.Simulation.Sets.{Enters, IsReady}
use trieste.RegexEngine.Simulation.Steps.{start_list-Enters}
use trieste.RegexEngine.Simulation.Alive.{Alive, begin, later, Alive-walk, Walk-Alive}
use trieste.RegexEngine.Simulation.Prefix.{
  flags_of_text, reads_of_text, bytes_before, Holds, IsRest, Best, Longest, prefix_loop-Longest,
}

-- The constructor's engine, by whether it set an error.
with_cache-IsReady :
    (ss : List StateDef) (start : ℕ) (hc : Bool) (classes : List RuneClass) (o : Option ErrorCode)
    (c : Option ClosureCache)
    → precompute_epsilon_closures hc ss ≡ c
    → hc ≡ detect_conditional_states ss
    → Linked (length ss) ss
    → start < length ss
    → (with_cache ss start hc classes o c).error_code ≡ none
    → IsReady (with_cache ss start hc classes o c)
with_cache-IsReady ss start hc classes (some x) c p d l s h = absurd (cc)
with_cache-IsReady ss start hc classes none none p d l s h = absurd (cc)
with_cache-IsReady ss start hc classes none (some cache) p d l s h = record {
  cached = p;
  detected = d;
  linked = l;
  start = s;
}

with_cache-fields :
    (ss : List StateDef) (start : ℕ) (hc : Bool) (classes : List RuneClass) (o : Option ErrorCode)
    (c : Option ClosureCache)
    → ((with_cache ss start hc classes o c).owned_states ≡ ss)
      × ((with_cache ss start hc classes o c).start_state ≡ start)
      × ((with_cache ss start hc classes o c).rune_classes ≡ classes)
with_cache-fields ss start hc classes (some x) c = (refl, refl, refl)
with_cache-fields ss start hc classes none none = (refl, refl, refl)
with_cache-fields ss start hc classes none (some cache) = (refl, refl, refl)

module _ (postfix : List ℕ) (classes : List RuneClass) where
  abbrev e : Engine
  e = engine_of postfix classes

  abbrev nfa : Builder × ℕ
  nfa = nfa_of postfix

  engine_from-IsReady :
      (b : Builder × ℕ)
      → IsSafe b
      → (engine_from classes b).error_code ≡ none
      → IsReady (engine_from classes b)
  engine_from-IsReady (b, start) safe h =
      with_cache-IsReady b.owned_states start (detect_conditional_states b.owned_states) classes
        b.error_code
        (precompute_epsilon_closures (detect_conditional_states b.owned_states) b.owned_states) refl
        refl (safe.linked).links safe.start h

  pub engine_of-IsReady : e.error_code ≡ none → IsReady e
  unfolding engine_of
  engine_of-IsReady h = engine_from-IsReady (nfa_of postfix) (nfa_of-IsSafe postfix) h

  pub engine_of-fields :
      (e.owned_states ≡ (nfa.0).owned_states) × (e.start_state ≡ nfa.1) × (e.rune_classes ≡ classes)
  unfolding engine_of
  engine_of-fields =
      with_cache-fields (nfa.0).owned_states nfa.1 (detect_conditional_states (nfa.0).owned_states)
        classes (nfa.0).error_code
        (precompute_epsilon_closures (detect_conditional_states (nfa.0).owned_states)
          (nfa.0).owned_states)

module _ (e : Engine) (ready : IsReady e) (text : Text) (at_start prev : Bool) where
  abbrev flags : ℕ → Flags
  flags = flags_of_text prev at_start text

  abbrev reads : ℕ → ℕ → Bool
  reads = reads_of_text e.rune_classes text

  abbrev bytes : ℕ → ℕ
  bytes = bytes_before text

  whole_IsRest : IsRest flags reads bytes e ready 0 0 prev at_start text
  whole_IsRest = record {
    flagged = λ k. let z : 0 + k ≡ k = omega arith in rw z refl;
    reading = λ c k. let z : 0 + k ≡ k = omega arith in rw z refl;
    counted = λ k. let z : 0 + k ≡ k = omega arith in rw z (omega arith);
  }

  start_flags : (b : Bool) → b ≡ true → flags_before b prev at_start text ≡ flags 0
  unfolding flags_of_text
  start_flags b h = rw h refl

  abbrev first : List ℕ
  first = start_list e (flags_before e.has_conditionals prev at_start text)

  begun :
      (u : ℕ)
      → Alive flags reads e.owned_states e.start_state 0 u
      → Enters (flags 0) e.owned_states e.start_state u
  begun u (begin z x) = x
  begun u (later z a at r l k) = absurd (omega (arith, z))

  first-Holds : Holds flags reads bytes e ready 0 first
  first-Holds u =
      let x =
        start_list-Enters e ready (flags_before e.has_conditionals prev at_start text) (flags 0) u
          (start_flags e.has_conditionals) in
      (λ m. begin refl (x.0 m), λ a. x.1 (begun u a))

  first-Best :
      (m : Bool)
      → (m ≡ true) ↔ Alive flags reads e.owned_states e.start_state 0 accept_state
      → Best flags reads bytes e ready 0 (better m 0 none)
  unfolding bytes_before
  first-Best true h = (0, omega arith, refl, h.0 refl, λ k l g a. absurd (omega arith))
  first-Best false h = λ q l a.
      let same : q ≡ 0 = omega arith in
      cc (
        h.1
          (subst (λ (j : ℕ). Alive flags reads e.owned_states e.start_state j accept_state) same a))

  pub from_start-Longest :
      Longest flags reads bytes e ready
        (from_start e (e.has_conditionals && starts_word text) text first)
  from_start-Longest =
      prefix_loop-Longest flags reads bytes e ready text first 0 0 (better (is_match first) 0 none)
        prev at_start (e.has_conditionals && starts_word text) whole_IsRest refl first-Holds
        (first-Best (is_match first) (first-Holds accept_state))

  -- What is under way at the end of a match.
  Alive-Matches :
      (r : Regex) (q : ℕ)
      → IsAccept e.owned_states
      → Wired e.owned_states r e.start_state accept_state
      → Matches flags reads r 0 q ↔ Alive flags reads e.owned_states e.start_state q accept_state
  Alive-Matches r q z w =
      let x = Wired-Matches flags reads e.owned_states z r e.start_state 0 q w in
      (
        λ m.
            let y = x.0 m in
            Walk-Alive flags reads e.owned_states e.start_state z y.bound e.start_state 0 q
              (λ u k. begin refl k) y.walk,
        λ a. x.1 (
            Alive-walk flags reads e.owned_states e.start_state q accept_state accept_state q a
              record { bound = 0; walk = stop refl refl }),
      )

-- A result is the end, in bytes, of the longest stretch from the start that the expression matches,
-- and `none` where it matches none.
abbrev pub LongestMatch : (ℕ → Flags) → (ℕ → ℕ → Bool) → (ℕ → ℕ) → Regex → Option ℕ → Type 0
LongestMatch flags reads bytes r none = (q : ℕ) → ¬ Matches flags reads r 0 q
LongestMatch flags reads bytes r (some b) =
    (q : ℕ) × (b ≡ bytes q)
    × Matches flags reads r 0 q
    × ((k : ℕ) → q < k → ¬ Matches flags reads r 0 k)

Longest-LongestMatch :
    (e : Engine) (ready : IsReady e) (text : Text) (at_start prev : Bool) (r : Regex) (o : Option ℕ)
    → IsAccept e.owned_states
    → Wired e.owned_states r e.start_state accept_state
    → Longest
        (flags_of_text prev at_start text)
        (reads_of_text e.rune_classes text)
        (bytes_before text)
        e
        ready
        o
    → LongestMatch
        (flags_of_text prev at_start text)
        (reads_of_text e.rune_classes text)
        (bytes_before text)
        r
        o
Longest-LongestMatch e ready text at_start prev r none z w h =
    λ q m. h q ((Alive-Matches e ready text at_start prev r q z w).0 m)
Longest-LongestMatch e ready text at_start prev r (some b) z w (q, l, a, top) = (
  q,
  l,
  (Alive-Matches e ready text at_start prev r q z w).1 a,
  λ k g m. top k g ((Alive-Matches e ready text at_start prev r k z w).0 m),
)

pub unfailed :
    (e : Engine) (text : Text) (at_start prev : Bool)
    → e.error_code ≡ none
    → find_prefix e text at_start prev
      ≡ from_start e
          (e.has_conditionals && starts_word text)
          text
          (start_list e (flags_before e.has_conditionals prev at_start text))
unfolding find_prefix
unfailed e text at_start prev h = rw h refl

pub engine_of-Wired :
    (postfix : List ℕ) (classes : List RuneClass) (r : Regex)
    → denoted postfix ≡ some r
    → IsAccept (engine_of postfix classes).owned_states
      × Wired
          (engine_of postfix classes).owned_states
          r
          (engine_of postfix classes).start_state
          accept_state
engine_of-Wired postfix classes r h =
    let x = IsNfa-of postfix r h in
    let (states, start, _) = engine_of-fields postfix classes in
    let same : (engine_of postfix classes).owned_states ≡ x.states =
      states ∙ ap (λ (b : Builder). b.owned_states) x.result in
    rw (same, start) (x.accepting, x.wired)

-- For every well-formed postfix expression from which the constructor builds an engine without an
-- error, and every text, decoded: `find_prefix` returns the end in bytes of the longest prefix that
-- the expression denoted by the postfix matches, and `npos` exactly when it matches no prefix, not
-- even the empty one. The anchors and the word boundaries see the real positions, those of the text
-- in front of `prev` included.
pub find_prefix-Longest :
    (postfix : List ℕ) (classes : List RuneClass) (r : Regex) (text : Text) (at_start prev : Bool)
    → denoted postfix ≡ some r
    → (engine_of postfix classes).error_code ≡ none
    → LongestMatch
        (flags_of_text prev at_start text)
        (reads_of_text classes text)
        (bytes_before text)
        r
        (find_prefix (engine_of postfix classes) text at_start prev)
find_prefix-Longest postfix classes r text at_start prev h g =
    let e = engine_of postfix classes in
    let ready = engine_of-IsReady postfix classes g in
    let (z, w) = engine_of-Wired postfix classes r h in
    let longest = from_start-Longest e ready text at_start prev in
    let (_, _, same) = engine_of-fields postfix classes in
    subst
      (λ (c : List RuneClass).
        LongestMatch (flags_of_text prev at_start text) (reads_of_text c text) (bytes_before text) r
          (find_prefix (engine_of postfix classes) text at_start prev))
      same
      (rw (unfailed e text at_start prev g) (
        Longest-LongestMatch e ready text at_start prev r
          (from_start e (e.has_conditionals && starts_word text) text
            (start_list e (flags_before e.has_conditionals prev at_start text)))
          z w longest))

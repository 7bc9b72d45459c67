-- ===== src/RegexEngine/Construction.antt =====
-- `postfix_to_nfa` of include/trieste/regex_engine.h, called as the constructor does: what it builds
-- for every postfix expression.
use trieste.Prelude.{
  ℕ, ◌+◌, ◌*◌, ◌≤◌, ◌≡◌, refl, Bool, true, false, Option, none, some, List, [], ◌∷◌, length, ltb,
  leb, arith, ◌≢◌, inl, inr, Bool-cases,
}
use trieste.RegexEngine.{
  classify, StateDef, Frag, Builder, Round, state_of, match_label, accept_state, patch_states,
  round, finish, rounds, carry_on, postfix_to_nfa, nfa_of, set_error, patch, max_states,
  create_state,
}
use trieste.RegexEngine.Syntax.{Regex, read_token, read_tokens, read_on, only, denoted}
use trieste.RegexEngine.Slots.{
  length-patch_states, label_at-patch_states, slot_at-patch_states, slot_at,
}
use trieste.RegexEngine.Wired.{Wired, wire_empty, Keeps-patch_states}
use trieste.RegexEngine.Rounds.{
  Stacked, bottom, IsAccept, IsAccept-Keeps, on_top, builder_with, Step,
}
use trieste.RegexEngine.Unary.{IsToken, step_lem}

-- An automaton for an expression: no error, room for all its states, and the states linked from
-- its start to `accept_state`.
pub record IsNfa (limit : ℕ) (r : Regex) (nfa : Builder × ℕ) : Type 0 where
  pub states : List StateDef
  pub result : nfa.0 ≡ builder_with states limit
  pub accepting : IsAccept states
  pub fits : length states ≤ limit
  pub wired : Wired states r nfa.1 accept_state

-- An error, and `accept_state` as the start.
abbrev pub Failed : Builder × ℕ → Type 0
Failed nfa = ((nfa.0).error_code ≢ none) × (nfa.1 ≡ accept_state)

abbrev pub Constructed : ℕ → Option Regex → Builder × ℕ → Type 0
Constructed limit none nfa = Failed nfa
Constructed limit (some r) nfa = IsNfa limit r nfa

finish_lem :
    (ss : List StateDef) (limit : ℕ) (fs : List Frag) (rs : List Regex)
    → length ss ≤ limit
    → Stacked ss (length ss) fs rs
    → Constructed limit (only rs) (finish fs (builder_with ss limit))
unfolding finish patch set_error
finish_lem ss limit _ _ h (bottom p z) = (λ e. cc, refl)
finish_lem ss limit _ _ h (on_top lo f _ r _ p (bottom q z)) = record {
  states = patch_states f.dangling accept_state ss;
  result = refl;
  accepting =
      IsAccept-Keeps ss (patch_states f.dangling accept_state ss) lo q
        (Keeps-patch_states ss lo (length ss) accept_state f.dangling p.inside p.ordered) z;
  fits = omega (arith, length-patch_states f.dangling accept_state ss);
  wired = p.wired (patch_states f.dangling accept_state ss) accept_state record {
    labels = λ i l k. label_at-patch_states f.dangling accept_state ss i;
    slots = λ i b l k. slot_at-patch_states f.dangling accept_state ss i b k;
  };
}
finish_lem ss limit _ _ h (on_top lo f _ r _ p (on_top _ _ _ _ _ q st)) = (λ e. cc, refl)

-- What the rest of the loop makes of a round.
carried :
    (labels : List ℕ) (ss : List StateDef) (limit : ℕ) (o : Option (List Regex)) (r : Round)
    → ((states : List StateDef) (fs : List Frag) (rs : List Regex)
        → length states ≤ length ss + 2
        → Stacked states (length states) fs rs
        → Constructed limit (read_tokens labels rs) (rounds labels fs (builder_with states limit)))
    → Step ss limit r o
    → Constructed limit (read_on (read_tokens labels) o) (carry_on (rounds labels) r)
carried labels ss limit none (b, none) ih h = (h.1, refl)
carried labels ss limit none (b, some fs) ih h = absurd (cc)
carried labels ss limit (some rs) r ih w = rw w.result (ih w.states w.stack rs w.grown w.stacked)

classify-IsToken : (label : ℕ) → IsToken (classify label)
unfolding classify
classify-IsToken label = ground arith

rounds_lem :
    (labels : List ℕ) (ss : List StateDef) (limit : ℕ) (fs : List Frag) (rs : List Regex)
    → length ss + 2 * length labels ≤ limit
    → Stacked ss (length ss) fs rs
    → Constructed limit (read_tokens labels rs) (rounds labels fs (builder_with ss limit))
unfolding rounds read_tokens
rounds_lem [] ss limit fs rs room st = finish_lem ss limit fs rs (omega arith) st
rounds_lem (c ∷ labels) ss limit fs rs room st =
    carried labels ss limit (read_token (classify c) rs)
      (round (classify c) fs (builder_with ss limit))
      (λ states fs' rs' g st'. rounds_lem labels states limit fs' rs' (omega (arith, g, room)) st')
      (step_lem ss limit (classify c) fs rs (classify-IsToken c) (omega arith) st)

-- The state that `accept_state` names, alone.
abbrev accept_alone : List StateDef
accept_alone = state_of match_label none none ∷ []

abbrev pub limit_of : List ℕ → ℕ
limit_of postfix = 2 * length postfix + 1

accept_alone-IsAccept : IsAccept accept_alone
accept_alone-IsAccept = record { labelled = refl; dead = nowhere }
  where
    nowhere : (b : Bool) → slot_at accept_alone accept_state b ≡ none
    nowhere true = refl
    nowhere false = refl

first_state :
    (postfix : List ℕ)
    → nfa_of postfix ≡ postfix_to_nfa postfix (builder_with accept_alone (limit_of postfix))
unfolding nfa_of create_state
first_state postfix = rw (some_room (2 * length postfix)) refl
  where
    some_room : (n : ℕ) → leb (n + 1) 0 ≡ false
    some_room n = ground arith

-- `postfix_to_nfa`, with the room that the constructor reserves, builds an automaton exactly when
-- the postfix expression has no more than `MaxStates` runes and can be read as one regular
-- expression. Then it sets no error, the states fit in the room, and they are linked, from the start
-- to `accept_state`, as that expression demands. Otherwise it sets an error, and the start is
-- `accept_state`. The table of closures, which the constructor makes next, can still set an error.
pub nfa_of-Constructed :
    (postfix : List ℕ) → Constructed (limit_of postfix) (denoted postfix) (nfa_of postfix)
unfolding postfix_to_nfa denoted
nfa_of-Constructed [] = rw (first_state []) record {
  states = accept_alone;
  result = refl;
  accepting = accept_alone-IsAccept;
  fits = omega arith;
  wired = wire_empty refl;
}
nfa_of-Constructed (c ∷ labels) =
    rw (first_state (c ∷ labels), postfix_to_nfa, denoted)
      (elim (Bool-cases (ltb max_states (length (c ∷ labels)))) [
        | inl h ↦ rw (h, set_error) ((λ e. cc), refl)
        | inr h ↦ rw h (
            rounds_lem (c ∷ labels) accept_alone (limit_of (c ∷ labels)) [] [] (omega arith)
              (bottom (omega arith) accept_alone-IsAccept))
      ])

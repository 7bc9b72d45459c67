-- ===== src/RegexEngine.antt =====
-- include/trieste/regex_engine.h, `RegexEngine`: the labels, the states and Thompson's construction
-- of the automaton from a postfix expression (`postfix_to_nfa`).
pub mod Syntax
pub mod Slots
pub mod Wired
pub mod Fragments
pub mod Quantifiers
pub mod Groups
pub mod Rounds
pub mod Unary
pub mod Construction
pub mod Walks
pub mod Soundness
pub mod Language
pub mod Printed
pub mod Closure
pub mod Cache
pub mod Links
pub mod Simulation
mod Samples
use trieste.Prelude.{
  ℕ, zero, suc, ◌+◌, ◌-◌, ◌*◌, Bool, true, false, ◌&&◌, ◌||◌, not, Option, none, some, List, [],
  ◌∷◌, ◌++◌, length, ltb, leb, ◌==◌, if◌then◌else◌,
}

pub data ErrorCode : Type 0 where
  error_bad_escape error_missing_bracket error_missing_paren error_unexpected_paren : ErrorCode
  error_trailing_backslash error_repeat_size error_repeat_op error_bad_char_class : ErrorCode
  error_bad_char_range error_pattern_too_large error_nesting_too_deep : ErrorCode
  error_too_many_captures error_strict_syntax error_strict_group error_internal_error : ErrorCode

-- The sentinels, which stand outside the code points.
abbrev pub catenation_label : ℕ
catenation_label = 0xafff00

abbrev pub alternation_label : ℕ
alternation_label = 0xafff01

abbrev pub split_label : ℕ
split_label = 0xafff05

abbrev pub word_boundary : ℕ
word_boundary = 0xafff06

abbrev pub start_anchor : ℕ
start_anchor = 0xafff0a

abbrev pub end_anchor : ℕ
end_anchor = 0xafff0b

abbrev pub match_label : ℕ
match_label = 0xafffff

abbrev pub capture_open : ℕ
capture_open = 0xaffe00

abbrev pub capture_close : ℕ
capture_close = 0xaffd00

abbrev pub capture_group : ℕ
capture_group = 0xaffc00

abbrev pub max_captures : ℕ
max_captures = 64

abbrev pub max_states : ℕ
max_states = 100000

abbrev pub is_capture_open : ℕ → Bool
is_capture_open label = leb capture_open label && ltb label (capture_open + max_captures)

abbrev pub is_capture_close : ℕ → Bool
is_capture_close label = leb capture_close label && ltb label (capture_close + max_captures)

pub data QuantifierKind : Type 0 where
  zero_or_one zero_or_more one_or_more : QuantifierKind

-- What the cases of the `switch` of `postfix_to_nfa` tell apart.
pub data Token : Type 0 where
  catenation alternation : Token
  quantifier : QuantifierKind → Bool → Token
  group : ℕ → Token
  literal : ℕ → Token

unfoldable pub classify : ℕ → Token
classify label =
    if label == catenation_label
    then catenation
    else if label == alternation_label
    then alternation
    else if label == 0xafff02
    then quantifier zero_or_one false
    else if label == 0xafff07
    then quantifier zero_or_one true
    else if label == 0xafff03
    then quantifier zero_or_more false
    else if label == 0xafff08
    then quantifier zero_or_more true
    else if label == 0xafff04
    then quantifier one_or_more false
    else if label == 0xafff09
    then quantifier one_or_more true
    else if leb capture_group label && ltb label (capture_group + max_captures)
    then group (label - capture_group)
    else literal label

-- A pointer to a state is its index in `owned_states_`, which is also its `closure_index`, and a
-- null pointer is `none`.
pub record StateDef : Type 0 where
  pub label : ℕ
  pub next : Option ℕ
  pub next_alt : Option ℕ

-- A pointer to the `next` of a state, or with `alt` to its `next_alt`.
pub record Slot : Type 0 where
  pub state : ℕ
  pub alt : Bool

pub record Frag : Type 0 where
  pub start : ℕ
  pub dangling : List Slot

pub record Builder : Type 0 where
  pub owned_states : List StateDef
  pub capacity : ℕ
  pub error_code : Option ErrorCode

-- The first state that the constructor creates.
abbrev pub accept_state : ℕ
accept_state = 0

-- The first error is kept.
abbrev pub first_error : ErrorCode → Option ErrorCode → Option ErrorCode
first_error code none = some code
first_error code (some e) = some e

unfoldable pub set_error : ErrorCode → Builder → Builder
set_error code b = record b { error_code = first_error code b.error_code }

abbrev pub state_of : ℕ → Option ℕ → Option ℕ → StateDef
state_of label next next_alt = record { label = label; next = next; next_alt = next_alt }

unfoldable pub create_state : ℕ → Option ℕ → Option ℕ → Builder → Builder × ℕ
unfolding set_error
create_state label next next_alt b =
    if leb b.capacity (length b.owned_states)
    then (set_error error_internal_error b, accept_state)
    else (
      record b { owned_states = b.owned_states ++ state_of label next next_alt ∷ [] },
      length b.owned_states,
    )

-- `*entry = target` of one entry.
abbrev pub assign : Bool → ℕ → StateDef → StateDef
assign false target s = record s { next = some target }
assign true target s = record s { next_alt = some target }

unfoldable pub set_slot : ℕ → Bool → ℕ → List StateDef → List StateDef
set_slot i alt target [] = []
set_slot zero alt target (s ∷ ss) = assign alt target s ∷ ss
set_slot (suc i) alt target (s ∷ ss) = s ∷ set_slot i alt target ss

unfoldable pub patch_states : List Slot → ℕ → List StateDef → List StateDef
patch_states [] target ss = ss
patch_states (t ∷ ts) target ss = patch_states ts target (set_slot t.state t.alt target ss)

unfoldable pub patch : List Slot → ℕ → Builder → Builder
patch targets target b = record b { owned_states = patch_states targets target b.owned_states }

abbrev pub frag : ℕ → List Slot → Frag
frag start dangling = record { start = start; dangling = dangling }

abbrev pub slot : ℕ → Bool → Slot
slot state alt = record { state = state; alt = alt }

-- A result of one round: the early `return accept_state_` is `none`. The top of the stack is the
-- head of the list.
abbrev pub Round : Type 0
Round = Builder × Option (List Frag)

abbrev pub goes_on : List Frag → Builder → Round
goes_on stack b = (b, some stack)

abbrev pub gives_up : ErrorCode → Builder → Round
gives_up code b = (set_error code b, none)

unfoldable pub catenate : List Frag → Builder → Round
unfolding set_error patch
catenate (right ∷ left ∷ stack) b =
    goes_on (frag left.start right.dangling ∷ stack) (patch left.dangling right.start b)
catenate (_ ∷ []) b = gives_up error_internal_error b
catenate [] b = gives_up error_internal_error b

abbrev pub alternated : Frag → Frag → List Frag → Builder × ℕ → Round
alternated left right stack (b, state) =
    goes_on (frag state (left.dangling ++ right.dangling) ∷ stack) b

unfoldable pub alternate : List Frag → Builder → Round
unfolding set_error create_state
alternate (right ∷ left ∷ stack) b =
    alternated left right stack (create_state split_label (some left.start) (some right.start) b)
alternate (_ ∷ []) b = gives_up error_internal_error b
alternate [] b = gives_up error_internal_error b

-- The `Split` of a quantifier, with the branch into the operand in `next`, or in `next_alt` when
-- the quantifier is lazy. The other branch is the dangling slot.
unfoldable pub split_into : Bool → ℕ → Builder → Builder × ℕ
unfolding create_state
split_into true start b = create_state split_label none (some start) b
split_into false start b = create_state split_label (some start) none b

unfoldable pub quantified :
    QuantifierKind → Bool → Frag → List Frag → Builder × ℕ → Builder × List Frag
unfolding patch
quantified zero_or_one lazy operand stack (b, state) =
    (b, frag state (operand.dangling ++ slot state (not lazy) ∷ []) ∷ stack)
quantified zero_or_more lazy operand stack (b, state) =
    (patch operand.dangling state b, frag state (slot state (not lazy) ∷ []) ∷ stack)
quantified one_or_more lazy operand stack (b, state) =
    (patch operand.dangling state b, frag operand.start (slot state (not lazy) ∷ []) ∷ stack)

unfoldable pub build_quantifier : List Frag → QuantifierKind → Bool → Builder → Builder × List Frag
unfolding set_error split_into quantified
build_quantifier [] kind lazy b = (set_error error_repeat_op b, [])
build_quantifier (operand ∷ stack) kind lazy b =
    quantified kind lazy operand stack (split_into lazy operand.start b)

-- `if (!ok()) return accept_state_`.
abbrev pub unless_error : Builder × List Frag → Option ErrorCode → Round
unless_error (b, stack) none = (b, some stack)
unless_error (b, stack) (some e) = (b, none)

abbrev pub when_ok : Builder × List Frag → Round
when_ok r = unless_error r (r.0).error_code

abbrev pub opened : ℕ → List Frag → Builder × ℕ → Round
opened close stack (b, state) = goes_on (frag state (slot close false ∷ []) ∷ stack) b

unfoldable pub closed : ℕ → Frag → List Frag → Builder × ℕ → Round
unfolding patch create_state
closed idx operand stack (b, close) =
    opened close stack
      (create_state (capture_open + idx) (some operand.start) none (patch operand.dangling close b))

unfoldable pub wrap_group : ℕ → List Frag → Builder → Round
unfolding set_error create_state closed
wrap_group idx [] b = gives_up error_internal_error b
wrap_group idx (operand ∷ stack) b =
    closed idx operand stack (create_state (capture_close + idx) none none b)

abbrev pub lone : List Frag → Builder × ℕ → Round
lone stack (b, state) = goes_on (frag state (slot state false ∷ []) ∷ stack) b

-- The body of the loop of `postfix_to_nfa`.
unfoldable pub round : Token → List Frag → Builder → Round
unfolding catenate alternate build_quantifier wrap_group create_state
round catenation stack b = catenate stack b
round alternation stack b = alternate stack b
round (quantifier kind lazy) stack b = when_ok (build_quantifier stack kind lazy b)
round (group idx) stack b = wrap_group idx stack b
round (literal label) stack b = lone stack (create_state label none none b)

-- What follows the loop.
unfoldable pub finish : List Frag → Builder → Builder × ℕ
unfolding set_error patch
finish (f ∷ []) b = (patch f.dangling accept_state b, f.start)
finish [] b = (set_error error_internal_error b, accept_state)
finish (_ ∷ _ ∷ _) b = (set_error error_internal_error b, accept_state)

abbrev pub carry_on : (List Frag → Builder → Builder × ℕ) → Round → Builder × ℕ
carry_on rest (b, none) = (b, accept_state)
carry_on rest (b, some stack) = rest stack b

unfoldable pub rounds : List ℕ → List Frag → Builder → Builder × ℕ
unfolding round finish classify
rounds [] stack b = finish stack b
rounds (label ∷ labels) stack b = carry_on (rounds labels) (round (classify label) stack b)

unfoldable pub postfix_to_nfa : List ℕ → Builder → Builder × ℕ
unfolding set_error rounds
postfix_to_nfa [] b = (b, accept_state)
postfix_to_nfa (label ∷ labels) b =
    if ltb max_states (length (label ∷ labels))
    then (set_error error_pattern_too_large b, accept_state)
    else rounds (label ∷ labels) [] b

-- The states that the constructor of `RegexEngine` builds from a postfix expression, and the state
-- it starts from.
abbrev pub empty_builder : List ℕ → Builder
empty_builder postfix = record {
  owned_states = [];
  capacity = 2 * length postfix + 1;
  error_code = none;
}

-- The constructor up to the automaton and its start. What it does after that, where the table of
-- closures can set an error, is `Simulation.engine_of`.
unfoldable pub nfa_of : List ℕ → Builder × ℕ
unfolding create_state postfix_to_nfa
nfa_of postfix =
    postfix_to_nfa postfix (create_state match_label none none (empty_builder postfix)).0

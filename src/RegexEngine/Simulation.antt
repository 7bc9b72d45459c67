-- ===== src/RegexEngine/Simulation.antt =====
-- include/trieste/regex_engine.h, the matching of a text (`add_state`, `start_list`, `step`,
-- `find_prefix_noncapturing_with_context`): the set of active states, one rune after the other.
pub mod Accepts
pub mod Sets
pub mod Conditions
pub mod Steps
pub mod Edges
pub mod Alive
pub mod Prefix
pub mod Decoded
pub mod Matching
pub mod Capturing
pub mod Search
pub mod FirstChar
pub mod Whole
use trieste.Prelude.{
  ℕ, zero, suc, ◌+◌, ◌-◌, Bool, true, false, ◌&&◌, ◌||◌, not, Option, none, some, List, [], ◌∷◌,
  ◌++◌, length, drop, get_elem?, elem, ltb, leb, ◌==◌, if◌then◌else◌,
}
use trieste.RuneClass.{RuneClass, contains, set_bit}
use trieste.RuneClass.Bitmap.{bit_in}
use trieste.Utf8.{utf8_to_rune}
use trieste.RegexEngine.{
  ErrorCode, error_pattern_too_large, StateDef, Builder, accept_state, first_error, nfa_of,
}
use trieste.RegexEngine.Syntax.{Flags}
use trieste.RegexEngine.Closure.{marked, mark, unmarked}
use trieste.RegexEngine.Cache.{
  detect_conditional_states, ClosureCache, cache_of, precompute_epsilon_closures,
  epsilon_closure_cached, trivial_closure,
}

-- The fields of `RegexEngine` that matching reads.
pub record Engine : Type 0 where
  pub error_code : Option ErrorCode
  pub start_state : ℕ
  pub owned_states : List StateDef
  pub has_conditionals : Bool
  pub cache : ClosureCache
  pub rune_classes : List RuneClass

-- What `precompute_epsilon_closures` leaves: it does nothing after an error.
abbrev pub with_cache :
    List StateDef → ℕ → Bool → List RuneClass → Option ErrorCode → Option ClosureCache → Engine
with_cache ss start hc classes (some e) cache = record {
  error_code = some e;
  start_state = start;
  owned_states = ss;
  has_conditionals = hc;
  cache = cache_of [] [];
  rune_classes = classes;
}
with_cache ss start hc classes none none = record {
  error_code = some error_pattern_too_large;
  start_state = start;
  owned_states = ss;
  has_conditionals = hc;
  cache = cache_of [] [];
  rune_classes = classes;
}
with_cache ss start hc classes none (some cache) = record {
  error_code = none;
  start_state = start;
  owned_states = ss;
  has_conditionals = hc;
  cache = cache;
  rune_classes = classes;
}

abbrev pub engine_from : List RuneClass → Builder × ℕ → Engine
engine_from classes (b, start) =
    let hc = detect_conditional_states b.owned_states in
    with_cache b.owned_states start hc classes b.error_code
      (precompute_epsilon_closures hc b.owned_states)

-- The constructor, after `regexp_to_postfix_runes`.
unfoldable pub engine_of : List ℕ → List RuneClass → Engine
unfolding nfa_of detect_conditional_states precompute_epsilon_closures
engine_of postfix classes = engine_from classes (nfa_of postfix)

abbrev pub rune_class_base : ℕ
rune_class_base = 0xbf0000

abbrev pub is_class_ref : ℕ → Bool
is_class_ref label = leb rune_class_base label && leb label 0xbfffff

abbrev pub class_words : Option RuneClass → ℕ × ℕ
class_words none = (0, 0)
class_words (some c) = (c.low, c.high)

-- The source indexes the vector without a test. Here a class that is not there contains nothing.
abbrev pub class_contains : Option RuneClass → ℕ → Bool
class_contains none rune = false
class_contains (some c) rune = contains c rune

-- `ascii_accept` of a state with this label, as `finalize_states` sets it.
unfoldable pub ascii_accept : List RuneClass → ℕ → ℕ × ℕ
unfolding set_bit
ascii_accept classes label =
    if is_class_ref label
    then class_words (get_elem? classes (label - rune_class_base))
    else if ltb label 128
    then set_bit label (0, 0)
    else (0, 0)

-- The test of `step` on a state and the rune that is read.
unfoldable pub accepts : List RuneClass → ℕ → ℕ → Bool
unfolding ascii_accept contains
accepts classes label rune =
    if ltb rune 128
    then bit_in (ascii_accept classes label) rune
    else if is_class_ref label
    then class_contains (get_elem? classes (label - rune_class_base)) rune
    else label == rune

-- A list of states under way, with the states that are in it already.
pub record Active : Type 0 where
  pub states : List ℕ
  pub visited : List Bool

-- `if (!already_visited(…)) states.push_back(…)`.
unfoldable pub push_new : ℕ → Active → Active
push_new t a =
    if marked a.visited t
    then a
    else record { states = a.states ++ t ∷ []; visited = mark a.visited t }

unfoldable pub push_all : List ℕ → Active → Active
unfolding push_new
push_all [] a = a
push_all (t ∷ ts) a = push_all ts (push_new t a)

unfoldable pub add_state : Engine → Option ℕ → Flags → Active → Active
unfolding push_new push_all trivial_closure epsilon_closure_cached
add_state e none f a = a
add_state e (some s) f a =
    if trivial_closure e.has_conditionals e.owned_states s
    then push_new s a
    else push_all (epsilon_closure_cached e.has_conditionals e.cache s f) a

abbrev pub nothing_active : Engine → Active
nothing_active e = record { states = []; visited = unmarked e.owned_states }

unfoldable pub start_list : Engine → Flags → List ℕ
unfolding add_state
start_list e f = (add_state e (some e.start_state) f (nothing_active e)).states

-- One round of the loop of `step`, on the state at an index.
abbrev pub advance : Engine → ℕ → Flags → Active → Option StateDef → Active
advance e rune f a none = a
advance e rune f a (some s) =
    if accepts e.rune_classes s.label rune then add_state e s.next f a else a

unfoldable pub step_from : Engine → ℕ → Flags → List ℕ → Active → Active
unfolding accepts add_state
step_from e rune f [] a = a
step_from e rune f (s ∷ current) a =
    step_from e rune f current (advance e rune f a (get_elem? e.owned_states s))

unfoldable pub step : Engine → ℕ → Flags → List ℕ → List ℕ
unfolding step_from
step e rune f current = (step_from e rune f current (nothing_active e)).states

abbrev pub is_match : List ℕ → Bool
is_match states = elem accept_state states

abbrev pub is_word_char : ℕ → Bool
is_word_char r =
    leb 0x30 r && ltb r 0x3a || leb 0x41 r && ltb r 0x5b || leb 0x61 r && ltb r 0x7b || r == 0x5f

-- The text as `decode_rune` gives it: each rune with the bytes it takes.
abbrev pub Text : Type 0
Text = List (ℕ × ℕ)

abbrev pub starts_word : Text → Bool
starts_word [] = false
starts_word ((r, n) ∷ text) = is_word_char r

abbrev pub is_over : Text → Bool
is_over [] = true
is_over (_ ∷ _) = false

abbrev pub differ : Bool → Bool → Bool
differ true b = not b
differ false b = b

-- The flags before the rest of a text, all false where there are no conditional states.
abbrev pub flags_before : Bool → Bool → Bool → Text → Flags
flags_before hc prev_is_word at_start rest = record {
  boundary_match = hc && differ prev_is_word (hc && starts_word rest);
  at_start = hc && at_start;
  at_end = hc && is_over rest;
}

abbrev pub better : Bool → ℕ → Option ℕ → Option ℕ
better true pos best = some pos
better false pos best = best

-- The loop, where `next_is_word` is of the rune that is read next, and `pos` counts bytes.
unfoldable pub prefix_loop : Engine → List ℕ → ℕ → Option ℕ → Bool → Text → Option ℕ
unfolding step
prefix_loop e current pos best next_is_word [] = best
prefix_loop e [] pos best next_is_word ((rune, n) ∷ rest) = best
prefix_loop e (s ∷ current) pos best next_is_word ((rune, n) ∷ rest) =
    let next =
      step e rune (flags_before e.has_conditionals next_is_word false rest) (s ∷ current) in
    prefix_loop e next (pos + n) (better (is_match next) (pos + n) best)
      (e.has_conditionals && starts_word rest) rest

abbrev pub from_start : Engine → Bool → Text → List ℕ → Option ℕ
from_start e next_is_word text current =
    prefix_loop e current 0 (better (is_match current) 0 none) next_is_word text

-- `npos` is `none`.
abbrev pub unless_failed : Option ErrorCode → Option ℕ → Option ℕ
unless_failed (some e) result = none
unless_failed none result = result

unfoldable pub find_prefix : Engine → Text → Bool → Bool → Option ℕ
unfolding start_list prefix_loop
find_prefix e text at_start prev_is_word = unless_failed e.error_code (
    from_start e (e.has_conditionals && starts_word text) text
      (start_list e (flags_before e.has_conditionals prev_is_word at_start text)))

abbrev pub sized : Option (ℕ × List ℕ) → ℕ × ℕ
sized none = (0, 0)
sized (some (rune, consumed)) = (rune, length consumed)

unfoldable pub decode_rune : ℕ → List ℕ → ℕ × ℕ
unfolding utf8_to_rune
decode_rune byte bytes =
    if ltb byte 128 then (byte, 1) else sized (utf8_to_rune (byte ∷ bytes) false)

-- The runes that the loops decode one after the other. Each takes a byte at least, so the number of
-- bytes is fuel enough.
unfoldable pub decoded_from : ℕ → List ℕ → Text
unfolding decode_rune
decoded_from fuel [] = []
decoded_from zero (byte ∷ bytes) = []
decoded_from (suc fuel) (byte ∷ bytes) =
    decode_rune byte bytes ∷ decoded_from fuel (drop (decode_rune byte bytes).1 (byte ∷ bytes))

abbrev pub decoded : List ℕ → Text
decoded utf8_str = decoded_from (length utf8_str) utf8_str

abbrev pub is_size : ℕ → Option ℕ → Bool
is_size n none = false
is_size n (some m) = m == n

-- `match`: the longest prefix is the whole text.
unfoldable pub matches : Engine → List ℕ → Bool
unfolding find_prefix decoded_from
matches e utf8_str = is_size (length utf8_str) (find_prefix e (decoded utf8_str) true false)

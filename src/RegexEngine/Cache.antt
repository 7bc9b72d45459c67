-- ===== src/RegexEngine/Cache.antt =====
-- include/trieste/regex_engine.h, the table of the closures of every state
-- (`precompute_epsilon_closures`, `epsilon_closure_cached`).
pub mod Spans
use trieste.Prelude.{
  ℕ, zero, suc, ◌+◌, ◌-◌, ◌*◌, ◌≤◌, ◌<◌, ◌≡◌, refl, ap, sym, ◌∙◌, Bool, true, false, ◌||◌, not,
  ◌&&◌, Option, none, some, List, [], ◌∷◌, ◌++◌, map, length, get_elem?, take, drop, ◌==◌, ltb,
  if◌then◌else◌, bit_and, bit_or, arith,
}
use trieste.RegexEngine.{StateDef, word_boundary, start_anchor, end_anchor}
use trieste.RegexEngine.Syntax.{Flags}
use trieste.RegexEngine.Closure.{epsilon_closure}

abbrev pub flags_of : ℕ → Flags
flags_of n = record {
  boundary_match = not (bit_and n 1 == 0);
  at_start = not (bit_and n 2 == 0);
  at_end = not (bit_and n 4 == 0);
}

unfoldable pub closure_flags : Flags → ℕ
closure_flags f =
    bit_or (bit_or (if f.boundary_match then 1 else 0) (if f.at_start then 2 else 0))
      (if f.at_end then 4 else 0)

unfoldable pub detect_conditional_states : List StateDef → Bool
detect_conditional_states [] = false
detect_conditional_states (s ∷ ss) =
    s.label == word_boundary
    || s.label == start_anchor
    || s.label == end_anchor
    || detect_conditional_states ss

abbrev pub combos : Bool → List ℕ
combos true = 0 ∷ 1 ∷ 2 ∷ 3 ∷ 4 ∷ 5 ∷ 6 ∷ 7 ∷ []
combos false = 0 ∷ []

abbrev pub or_empty : Option (List ℕ) → List ℕ
or_empty none = []
or_empty (some out) = out

-- `builder.closure` after `compute_epsilon_closure`, whose search always ends.
unfoldable pub closure_of : Flags → List StateDef → ℕ → List ℕ
closure_of f ss s = or_empty (epsilon_closure f ss s)

-- The closures of one state, and of the `count` states from `s` on, in the order of their slots.
unfoldable pub closures_at : Bool → List StateDef → ℕ → List (List ℕ)
unfolding closure_of
closures_at has_conditionals ss s =
    map (λ (n : ℕ). closure_of (flags_of n) ss s) (combos has_conditionals)

unfoldable pub closures_from : Bool → List StateDef → ℕ → ℕ → List (List ℕ)
unfolding closures_at
closures_from has_conditionals ss s zero = []
closures_from has_conditionals ss s (suc count) =
    closures_at has_conditionals ss s ++ closures_from has_conditionals ss (suc s) count

pub record ClosureCache : Type 0 where
  pub flat : List ℕ
  pub offsets : List ℕ

abbrev pub cache_of : List ℕ → List ℕ → ClosureCache
cache_of flat offsets = record { flat = flat; offsets = offsets }

abbrev pub max_closure_cache_entries : ℕ
max_closure_cache_entries = 1000000

-- The loop over the slots, whose offsets are set in order; `none` is `ErrorPatternTooLarge`.
unfoldable pub fill : List (List ℕ) → List ℕ → List ℕ → Option ClosureCache
fill [] flat offsets = some (cache_of flat (offsets ++ length flat ∷ []))
fill (c ∷ cs) flat offsets =
    let rest = fill cs (flat ++ c) (offsets ++ length flat ∷ []) in
    (if ltb max_closure_cache_entries (length (flat ++ c)) then none else rest)

unfoldable pub precompute_epsilon_closures : Bool → List StateDef → Option ClosureCache
unfolding fill closures_from
precompute_epsilon_closures has_conditionals ss =
    fill (closures_from has_conditionals ss 0 (length ss)) [] []

abbrev pub or_zero : Option ℕ → ℕ
or_zero none = 0
or_zero (some n) = n

-- The entries between two neighbouring offsets.
unfoldable pub span : ClosureCache → ℕ → List ℕ
span cache slot =
    let begin = or_zero (get_elem? cache.offsets slot) in
    let end = or_zero (get_elem? cache.offsets (suc slot)) in
    take (end - begin) (drop begin cache.flat)

unfoldable pub epsilon_closure_cached : Bool → ClosureCache → ℕ → Flags → List ℕ
unfolding span closure_flags
epsilon_closure_cached has_conditionals cache s f =
    span cache (if has_conditionals then bit_or (s * 8) (closure_flags f) else s)

-- `trivial_closure`: the closure is the state alone, whatever the flags.
abbrev pub is_alone : ℕ → List ℕ → Bool
is_alone s [] = false
is_alone s (t ∷ []) = t == s
is_alone s (_ ∷ _ ∷ _) = false

abbrev pub all_alone : ℕ → List (List ℕ) → Bool
all_alone s [] = true
all_alone s (c ∷ cs) = is_alone s c && all_alone s cs

unfoldable pub trivial_closure : Bool → List StateDef → ℕ → Bool
unfolding closures_at
trivial_closure has_conditionals ss s = all_alone s (closures_at has_conditionals ss s)

-- ===== src/RegexEngine/Closure.antt =====
-- include/trieste/regex_engine.h, `compute_epsilon_closure`: the states that a state leads to without
-- reading, by a search with a stack.
pub mod Search
pub mod Correct
use trieste.Prelude.{
  ℕ, zero, suc, ◌+◌, ◌*◌, Bool, true, false, ◌||◌, Option, none, some, List, [], ◌∷◌, ◌++◌, map,
  length, get_elem?, ◌==◌, if◌then◌else◌,
}
use trieste.RegexEngine.{
  StateDef, split_label, word_boundary, start_anchor, end_anchor, is_capture_open, is_capture_close,
}
use trieste.RegexEngine.Syntax.{Flags}

-- `seen` says of each state whether its entry in `seen_epoch` is the current epoch.
pub record ClosureBuilder : Type 0 where
  pub closure : List ℕ
  pub stack : List (Option ℕ)
  pub seen : List Bool

abbrev pub marked : List Bool → ℕ → Bool
marked [] i = false
marked (b ∷ bs) zero = b
marked (b ∷ bs) (suc i) = marked bs i

abbrev pub mark : List Bool → ℕ → List Bool
mark [] i = []
mark (b ∷ bs) zero = true ∷ bs
mark (b ∷ bs) (suc i) = b ∷ mark bs i

-- What a state not seen before adds to the closure, and what it pushes, the top of the stack first.
unfoldable pub outcome : Flags → ℕ → StateDef → List ℕ × List (Option ℕ)
outcome f i s =
    if s.label == split_label
    then ([], s.next ∷ s.next_alt ∷ [])
    else if is_capture_open s.label || is_capture_close s.label
    then ([], s.next ∷ [])
    else if s.label == word_boundary
    then (if f.boundary_match then ([], s.next ∷ []) else ([], []))
    else if s.label == start_anchor
    then (if f.at_start then ([], s.next ∷ []) else ([], []))
    else if s.label == end_anchor
    then (if f.at_end then ([], s.next ∷ []) else ([], []))
    else (i ∷ [], [])

abbrev pub entered :
    List ℕ → List Bool → ℕ → List (Option ℕ) → List ℕ × List (Option ℕ) → ClosureBuilder
entered closure seen i rest (found, pushes) = record {
  closure = closure ++ found;
  stack = pushes ++ rest;
  seen = mark seen i;
}

abbrev pub dropped : List ℕ → List Bool → List (Option ℕ) → ClosureBuilder
dropped closure seen rest = record { closure = closure; stack = rest; seen = seen }

-- The state at an index, where a pointer that is no state's is never followed.
abbrev pub visit_state :
    Flags → List ℕ → List Bool → ℕ → List (Option ℕ) → Option StateDef → ClosureBuilder
visit_state f closure seen i rest none = dropped closure seen rest
visit_state f closure seen i rest (some s) =
    if marked seen i then dropped closure seen rest else entered closure seen i rest (outcome f i s)

-- The body of the loop, with the top of the stack taken off.
unfoldable pub visit :
    Flags → List StateDef → Option ℕ → List (Option ℕ) → List ℕ → List Bool → ClosureBuilder
unfolding outcome
visit f ss none rest closure seen = dropped closure seen rest
visit f ss (some i) rest closure seen = visit_state f closure seen i rest (get_elem? ss i)

abbrev pub resume {ℓ} :
    {A : Type ℓ} → (List (Option ℕ) → List ℕ → List Bool → A) → ClosureBuilder → A
resume loop b = loop b.stack b.closure b.seen

-- `none` when the fuel runs out.
unfoldable pub closure_loop :
    Flags → List StateDef → ℕ → List (Option ℕ) → List ℕ → List Bool → Option (List ℕ)
unfolding visit
closure_loop f ss fuel [] closure seen = some closure
closure_loop f ss zero (o ∷ rest) closure seen = none
closure_loop f ss (suc fuel) (o ∷ rest) closure seen =
    resume (closure_loop f ss fuel) (visit f ss o rest closure seen)

abbrev pub unmarked : List StateDef → List Bool
unmarked = map (λ _. false)

-- A round takes one entry off the stack, and pushes two at most, for a state not seen before.
abbrev pub closure_fuel : List StateDef → ℕ
closure_fuel ss = 2 * length ss + 1

unfoldable pub epsilon_closure : Flags → List StateDef → ℕ → Option (List ℕ)
unfolding closure_loop
epsilon_closure f ss s = closure_loop f ss (closure_fuel ss) (some s ∷ []) [] (unmarked ss)

-- ===== src/RegexEngine/Simulation/Capturing/Ends.antt =====
-- The traversal of `add_state_capturing` (include/trieste/regex_engine.h) ends within its fuel.
use trieste.Prelude.{
  ℕ, zero, suc, ◌+◌, ◌*◌, ◌≤◌, ◌<◌, ◌≡◌, refl, ◌∙◌, Option, none, some, List, [], ◌∷◌, ◌++◌, length,
  get_elem?, arith, inl, inr, Bool-cases, get_elem?-lt, length-append, ap, Bool,
}
use trieste.RegexEngine.{StateDef}
use trieste.RegexEngine.Syntax.{Flags}
use trieste.RegexEngine.Closure.{marked, mark, closure_fuel}
use trieste.RegexEngine.Closure.Search.{length-mark, unseen, unseen-mark, unseen-le-length}
use trieste.RegexEngine.Simulation.{Engine}
use trieste.RegexEngine.Simulation.Capturing.{
  CaptureFrame, Threads, Pending, with_frame, capture, traverse, traverse_state, take_pending,
  capture_loop, add_state_capturing, allocate_frame, set_entry, entry_of, frame_or_empty,
}

-- Two pointers at most are pushed, and no state is visited but the one at hand.
record IsSmall (visited : List Bool) (r : Pending × Threads) : Type 0 where
  few : length r.0 ≤ 2
  same : r.1.visited ≡ visited

with_frame-IsSmall :
    (next : Option ℕ) (a : Threads) (o : Option (ℕ × List CaptureFrame))
    → IsSmall a.visited (with_frame next a o)
with_frame-IsSmall next a none = record { few = omega arith; same = refl }
with_frame-IsSmall next a (some (frame, frames)) = record { few = omega arith; same = refl }

traverse-IsSmall :
    (slots pos : ℕ) (f : Flags) (i frame : ℕ) (a : Threads) (s : StateDef)
    → IsSmall a.visited (traverse slots pos f i frame a s)
unfolding traverse capture
traverse-IsSmall slots pos f i frame a s =
    let captured = with_frame-IsSmall s.next a (
      allocate_frame slots
        (set_entry (entry_of s.label) pos (frame_or_empty (get_elem? a.frames frame))) a.frames) in
    record { few = ground (arith, captured.few); same = ground (arith, captured.same) }

-- What is left to be done at most.
abbrev work : Pending × Threads → ℕ
work r = 2 * unseen r.1.visited + length r.0

record Goes (a : Threads) (r : Pending × Threads) : Type 0 where
  size : length r.1.visited ≡ length a.visited
  less : work r ≤ 2 * unseen a.visited

traverse_state-Goes :
    (slots pos : ℕ) (f : Flags) (i frame : ℕ) (a : Threads) (o : Option StateDef)
    → ((s : StateDef) → o ≡ some s → i < length a.visited)
    → Goes a (traverse_state slots pos f i frame a o)
traverse_state-Goes slots pos f i frame a none h = record { size = refl; less = omega arith }
traverse_state-Goes slots pos f i frame a (some s) h = elim (Bool-cases (marked a.visited i)) [
  | inl m ↦ rw m record { size = refl; less = omega arith }
  | inr m ↦
      let x = traverse-IsSmall slots pos f i frame (record a { visited = mark a.visited i }) s in
      rw m record {
        size = ap length x.same ∙ length-mark a.visited i;
        less = omega (arith, ap unseen x.same, x.few, unseen-mark a.visited i (h s refl) m);
      }
]

take_pending-Goes :
    (e : Engine) (slots pos : ℕ) (f : Flags) (x : Option ℕ × ℕ) (a : Threads)
    → length a.visited ≡ length e.owned_states
    → Goes a (take_pending e slots pos f x a)
unfolding take_pending
take_pending-Goes e slots pos f (none, frame) a h = record { size = refl; less = omega arith }
take_pending-Goes e slots pos f (some i, frame) a h =
    traverse_state-Goes slots pos f i frame a (get_elem? e.owned_states i)
      (λ s g. omega (arith, h, get_elem?-lt e.owned_states i g))

capture_loop-enough :
    (e : Engine) (slots pos : ℕ) (f : Flags) (fuel n : ℕ) (stack : Pending) (a : Threads)
    → length a.visited ≡ length e.owned_states
    → 2 * unseen a.visited + length stack ≤ fuel
    → fuel ≤ n
    → capture_loop n e slots pos f stack a ≡ capture_loop fuel e slots pos f stack a
unfolding capture_loop
capture_loop-enough e slots pos f zero zero stack a h l m = refl
capture_loop-enough e slots pos f zero (suc n) [] a h l m = refl
capture_loop-enough e slots pos f zero (suc n) (x ∷ stack) a h l m = absurd (omega arith)
capture_loop-enough e slots pos f (suc fuel) zero stack a h l m = absurd (omega arith)
capture_loop-enough e slots pos f (suc fuel) (suc n) [] a h l m = refl
capture_loop-enough e slots pos f (suc fuel) (suc n) (x ∷ stack) a h l m =
    let r = take_pending e slots pos f x a in
    let g = take_pending-Goes e slots pos f x a h in
    capture_loop-enough e slots pos f fuel n (r.0 ++ stack) r.1 (g.size ∙ h)
      (omega (arith, g.less, l, length-append r.0 stack)) (omega (arith, m))

-- The fuel of `add_state_capturing` is enough for its traversal, from whatever state and whatever was
-- visited before: with any greater fuel it leaves the same threads, flags and frames. The condition
-- is that there is a flag for each state.
pub add_state_capturing-enough :
    (e : Engine) (slots pos : ℕ) (f : Flags) (state : Option ℕ) (frame n : ℕ) (a : Threads)
    → length a.visited ≡ length e.owned_states
    → closure_fuel e.owned_states ≤ n
    → capture_loop n e slots pos f ((state, frame) ∷ []) a
      ≡ add_state_capturing e slots pos f state frame a
unfolding add_state_capturing
add_state_capturing-enough e slots pos f state frame n a h m =
    capture_loop-enough e slots pos f (closure_fuel e.owned_states) n ((state, frame) ∷ []) a h
      (omega (arith, unseen-le-length a.visited, h)) m

-- ===== src/RegexEngine/Closure/Search.antt =====
-- The search of `compute_epsilon_closure` (include/trieste/regex_engine.h) ends, whatever the states
-- and their links are.
use trieste.Prelude.{
  ℕ, zero, suc, ◌+◌, ◌*◌, ◌≤◌, ◌<◌, ◌≡◌, refl, ap, ◌∙◌, Bool, true, false, Option, none, some, List,
  [], ◌∷◌, length, get_elem?, ◌==◌, if◌then◌else◌, arith, ◌⊎◌, inl, inr, length-append, Bool-cases,
  Option-cases, get_elem?-lt,
}
use trieste.RegexEngine.{StateDef}
use trieste.RegexEngine.Syntax.{Flags}
use trieste.RegexEngine.Closure.{
  ClosureBuilder, marked, mark, outcome, entered, dropped, visit, closure_loop, unmarked,
  closure_fuel, epsilon_closure,
}

pub length-mark : (bs : List Bool) (i : ℕ) → length (mark bs i) ≡ length bs
length-mark [] i = refl
length-mark (b ∷ bs) zero = refl
length-mark (b ∷ bs) (suc i) = ap suc (length-mark bs i)

pub marked-mark :
    (bs : List Bool) (i j : ℕ)
    → i < length bs
    → marked (mark bs i) j ≡ (if j == i then true else marked bs j)
marked-mark [] i j h = absurd (omega arith)
marked-mark (b ∷ bs) zero zero h = refl
marked-mark (b ∷ bs) zero (suc j) h = ground arith
marked-mark (b ∷ bs) (suc i) zero h = ground arith
marked-mark (b ∷ bs) (suc i) (suc j) h = ground (arith, marked-mark bs i j)

pub unseen : List Bool → ℕ
unseen [] = 0
unseen (true ∷ bs) = unseen bs
unseen (false ∷ bs) = suc (unseen bs)

pub unseen-mark :
    (bs : List Bool) (i : ℕ)
    → i < length bs
    → marked bs i ≡ false
    → suc (unseen (mark bs i)) ≡ unseen bs
unfolding unseen
unseen-mark [] i h m = absurd (omega arith)
unseen-mark (b ∷ bs) zero h m = rw m refl
unseen-mark (true ∷ bs) (suc i) h m = unseen-mark bs i (omega arith) m
unseen-mark (false ∷ bs) (suc i) h m = ap suc (unseen-mark bs i (omega arith) m)

pub unseen-le-length : (bs : List Bool) → unseen bs ≤ length bs
unfolding unseen
unseen-le-length [] = omega arith
unseen-le-length (true ∷ bs) = omega (arith, unseen-le-length bs)
unseen-le-length (false ∷ bs) = omega (arith, unseen-le-length bs)

unseen-unmarked : (ss : List StateDef) → unseen (unmarked ss) ≡ length ss
unfolding unseen
unseen-unmarked [] = refl
unseen-unmarked (s ∷ ss) = ap suc (unseen-unmarked ss)

pub length-unmarked : (ss : List StateDef) → length (unmarked ss) ≡ length ss
length-unmarked [] = refl
length-unmarked (s ∷ ss) = ap suc (length-unmarked ss)

outcome-small : (f : Flags) (i : ℕ) (s : StateDef) → length (outcome f i s).1 ≤ 2
unfolding outcome
outcome-small f i s = ground arith

-- What a round may do with the pointer it takes off the stack.
pub visit-cases :
    (f : Flags) (ss : List StateDef) (o : Option ℕ) (rest : List (Option ℕ)) (out : List ℕ)
    (seen : List Bool)
    → ((visit f ss o rest out seen ≡ dropped out seen rest)
        × ((i : ℕ) (s : StateDef) → o ≡ some i → get_elem? ss i ≡ some s → marked seen i ≡ true))
      ⊎ ((i : ℕ) × (s : StateDef) × (o ≡ some i)
          × (get_elem? ss i ≡ some s)
          × (marked seen i ≡ false)
          × (visit f ss o rest out seen ≡ entered out seen i rest (outcome f i s)))
unfolding visit
visit-cases f ss none rest out seen = inl (refl, λ i s e g. absurd (cc))
visit-cases f ss (some j) rest out seen = elim (Option-cases (get_elem? ss j)) [
  | inl h ↦ inl (rw (h, visit) refl, λ i s e g. absurd (cc))
  | inr (s, h) ↦ elim (Bool-cases (marked seen j)) [
    | inl m ↦ inl (rw (h, m, visit) refl, λ i t e g. cc)
    | inr m ↦ inr (j, s, refl, h, m, rw (h, m, visit) refl)
  ]
]

-- The rounds that are left at most.
abbrev work : ClosureBuilder → ℕ
work b = 2 * unseen b.seen + length b.stack

pub length-visit :
    (f : Flags) (ss : List StateDef) (o : Option ℕ) (rest : List (Option ℕ)) (out : List ℕ)
    (seen : List Bool)
    → length (visit f ss o rest out seen).seen ≡ length seen
length-visit f ss o rest out seen = elim (visit-cases f ss o rest out seen) [
  | inl (e, _) ↦ rw e refl
  | inr (i, s, _, _, _, e) ↦ rw e (length-mark seen i)
]

work-visit :
    (f : Flags) (ss : List StateDef) (o : Option ℕ) (rest : List (Option ℕ)) (out : List ℕ)
    (seen : List Bool)
    → length seen ≡ length ss
    → work (visit f ss o rest out seen) ≤ 2 * unseen seen + length rest
work-visit f ss o rest out seen h = elim (visit-cases f ss o rest out seen) [
  | inl (e, _) ↦ rw e (omega arith)
  | inr (i, s, _, g, m, e) ↦ rw e (
      omega (
        arith,
        unseen-mark seen i (omega (arith, get_elem?-lt ss i g)) m,
        length-append (outcome f i s).1 rest,
        outcome-small f i s,
      ))
]

closure_loop-ends :
    (f : Flags) (ss : List StateDef) (fuel : ℕ) (stack : List (Option ℕ)) (out : List ℕ)
    (seen : List Bool)
    → length seen ≡ length ss
    → 2 * unseen seen + length stack ≤ fuel
    → (found : List ℕ) × (closure_loop f ss fuel stack out seen ≡ some found)
unfolding closure_loop
closure_loop-ends f ss zero [] out seen n h = (out, refl)
closure_loop-ends f ss (suc fuel) [] out seen n h = (out, refl)
closure_loop-ends f ss zero (o ∷ rest) out seen n h = absurd (omega arith)
closure_loop-ends f ss (suc fuel) (o ∷ rest) out seen n h =
    let b = visit f ss o rest out seen in
    closure_loop-ends f ss fuel b.stack b.closure b.seen (length-visit f ss o rest out seen ∙ n)
      (omega (arith, work-visit f ss o rest out seen n, h))

pub epsilon_closure-ends :
    (f : Flags) (ss : List StateDef) (s : ℕ) → (out : List ℕ) × (epsilon_closure f ss s ≡ some out)
unfolding epsilon_closure
epsilon_closure-ends f ss s =
    closure_loop-ends f ss (closure_fuel ss) (some s ∷ []) [] (unmarked ss) (length-unmarked ss)
      (omega (arith, unseen-unmarked ss))

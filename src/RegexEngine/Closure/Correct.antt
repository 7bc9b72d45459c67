-- ===== src/RegexEngine/Closure/Correct.antt =====
-- The search of `compute_epsilon_closure` (include/trieste/regex_engine.h) finds exactly the states
-- that are reached without reading and that read.
use trieste.Prelude.{
  ℕ, zero, suc, ◌<◌, ◌≡◌, refl, sym, subst, ◌∙◌, Bool, true, false, ◌||◌, Option, none, some, List,
  [], ◌∷◌, ◌++◌, length, get_elem?, elem, ◌==◌, ==_iff, if◌then◌else◌, arith, inl, inr, ◌↔◌,
  Bool-cases, get_elem?-lt,
}
use trieste.RegexEngine.{StateDef}
use trieste.RegexEngine.Syntax.{Flags}
use trieste.RegexEngine.Closure.{
  ClosureBuilder, marked, mark, outcome, visit, closure_loop, unmarked, closure_fuel,
  epsilon_closure,
}
use trieste.RegexEngine.Closure.Search.{
  length-mark, marked-mark, length-unmarked, visit-cases, epsilon_closure-ends,
}

-- Whether a state is among some pointers.
abbrev pub pending : ℕ → List (Option ℕ) → Bool
pending t [] = false
pending t (none ∷ os) = pending t os
pending t (some s ∷ os) = t == s || pending t os

pending-append :
    (t : ℕ) (xs ys : List (Option ℕ)) → pending t (xs ++ ys) ≡ (pending t xs || pending t ys)
pending-append t [] ys = refl
pending-append t (none ∷ xs) ys = pending-append t xs ys
pending-append t (some s ∷ xs) ys = ground (arith, pending-append t xs ys)

pub elem-append : (t : ℕ) (xs ys : List ℕ) → elem t (xs ++ ys) ≡ (elem t xs || elem t ys)
elem-append t [] ys = refl
elem-append t (x ∷ xs) ys = ground (arith, elem-append t xs ys)

pub get_elem?-some {ℓ} :
    {A : Type ℓ} (xs : List A) (i : ℕ) → i < length xs → (x : A) × (get_elem? xs i ≡ some x)
get_elem?-some [] i h = absurd (omega arith)
get_elem?-some (x ∷ xs) zero h = (x, refl)
get_elem?-some (x ∷ xs) (suc i) h = get_elem?-some xs i (omega arith)

or_nil : (b : Bool) → (b || false) ≡ true → b ≡ true
or_nil b h = ground arith

some_inj {ℓ} : {A : Type ℓ} {a b : A} → some a ≡ some b → a ≡ b
some_inj h = cc

unmarked_nothing : (ss : List StateDef) (i : ℕ) → marked (unmarked ss) i ≡ true → ⊥
unmarked_nothing [] i m = cc
unmarked_nothing (x ∷ ss) zero m = cc
unmarked_nothing (x ∷ ss) (suc i) m = unmarked_nothing ss i m

module _ (f : Flags) (ss : List StateDef) where
  -- A link that is followed without reading.
  pub record Follows (i t : ℕ) : Type 0 where
    pub state : StateDef
    pub at : get_elem? ss i ≡ some state
    pub linked : pending t (outcome f i state).1 ≡ true
    pub valid : t < length ss

  pub data Leads (s : ℕ) : ℕ → Type 0 where
    here : {t : ℕ} → s ≡ t → Leads s t
    on : {t u : ℕ} → Leads s t → Follows t u → Leads s u

  -- A state that is not passed without reading.
  pub record Reader (i : ℕ) : Type 0 where
    pub state : StateDef
    pub at : get_elem? ss i ≡ some state
    pub found : elem i (outcome f i state).0 ≡ true

  outcome_self : (i : ℕ) (s : StateDef) (t : ℕ) → elem t (outcome f i s).0 ≡ true → t ≡ i
  unfolding outcome
  outcome_self i s t h = ground arith

  same_state : (i : ℕ) {a b : StateDef} → get_elem? ss i ≡ some a → get_elem? ss i ≡ some b → a ≡ b
  same_state i h g = cc

  module _ (s : ℕ) where
    record Inv (stack : List (Option ℕ)) (out : List ℕ) (seen : List Bool) : Type 0 where
      size : length seen ≡ length ss
      source : (marked seen s || pending s stack) ≡ true
      ahead : (t : ℕ) → pending t stack ≡ true → t < length ss → Leads s t
      sound : (t : ℕ) → elem t out ≡ true → Leads s t × Reader t
      closed :
          (i t : ℕ) → marked seen i ≡ true → Follows i t → (marked seen t || pending t stack) ≡ true
      kept : (i : ℕ) → marked seen i ≡ true → Reader i → elem i out ≡ true

    -- A pointer that is dropped was seen, or is no state's.
    popped :
        (o : Option ℕ) (rest : List (Option ℕ)) (seen : List Bool)
        → ((i : ℕ) (x : StateDef) → o ≡ some i → get_elem? ss i ≡ some x → marked seen i ≡ true)
        → (t : ℕ) → t < length ss
        → (marked seen t || pending t (o ∷ rest)) ≡ true
        → (marked seen t || pending t rest) ≡ true
    popped none rest seen h t l p = p
    popped (some i) rest seen h t l p = elim (Bool-cases (t == i)) [
      | inl e ↦
          let (x, g) = get_elem?-some ss t l in
          let same = (==_iff t i).0 e in rw (h t x (rw same refl) g) refl
      | inr e ↦ rw e at p
    ]

    Inv-dropped :
        (o : Option ℕ) (rest : List (Option ℕ)) (out : List ℕ) (seen : List Bool)
        → s < length ss
        → ((i : ℕ) (x : StateDef) → o ≡ some i → get_elem? ss i ≡ some x → marked seen i ≡ true)
        → Inv (o ∷ rest) out seen
        → Inv rest out seen
    Inv-dropped o rest out seen l h v = record {
      size = v.size;
      source = popped o rest seen h s l v.source;
      ahead = λ t p. v.ahead t (later o t p);
      sound = v.sound;
      closed = λ i t m e. popped o rest seen h t e.valid (v.closed i t m e);
      kept = v.kept;
    }
      where
        later : (q : Option ℕ) (t : ℕ) → pending t rest ≡ true → pending t (q ∷ rest) ≡ true
        later none t p = p
        later (some i) t p = ground arith

    module _ (i : ℕ) (x : StateDef) (rest : List (Option ℕ)) (out : List ℕ) (seen : List Bool)
        (at : get_elem? ss i ≡ some x) (v : Inv (some i ∷ rest) out seen) where
      abbrev found : List ℕ
      found = (outcome f i x).0

      abbrev pushes : List (Option ℕ)
      pushes = (outcome f i x).1

      marks : (t : ℕ) → marked (mark seen i) t ≡ (if t == i then true else marked seen t)
      marks t = marked-mark seen i t (omega (arith, get_elem?-lt ss i at, v.size))

      lead : Leads s i
      lead = v.ahead i (ground arith) (get_elem?-lt ss i at)

      pushed_lead : (t : ℕ) → pending t (pushes ++ rest) ≡ true → t < length ss → Leads s t
      pushed_lead t p l = elim (Bool-cases (pending t pushes)) [
        | inl h ↦ on lead record { state = x; at = at; linked = h; valid = l }
        | inr h ↦ v.ahead t (ground (arith, pending-append t pushes rest)) l
      ]

      found_sound : (t : ℕ) → elem t (out ++ found) ≡ true → Leads s t × Reader t
      found_sound t p = elim (Bool-cases (elem t out)) [
        | inl h ↦ v.sound t h
        | inr h ↦
            let here_found : elem t found ≡ true = ground (arith, elem-append t out found) in
            let same = outcome_self i x t here_found in
            rw same (lead, record { state = x; at = at; found = rw same at here_found })
      ]

      followed : (t : ℕ) (e : Follows i t) → pending t pushes ≡ true
      followed t e = rw (same_state i e.at at) at e.linked

      still_closed :
          (j t : ℕ)
          → marked (mark seen i) j ≡ true
          → Follows j t
          → (marked (mark seen i) t || pending t (pushes ++ rest)) ≡ true
      still_closed j t m e = elim (Bool-cases (j == i)) [
        | inl h ↦
            let same = (==_iff j i).0 h in
            let linked = followed t (rw same at e) in ground (arith, pending-append t pushes rest)
        | inr h ↦
            let before : marked seen j ≡ true = ground (arith, marks j) in
            let old = v.closed j t before e in ground (arith, pending-append t pushes rest, marks t)
      ]

      still_kept : (j : ℕ) → marked (mark seen i) j ≡ true → Reader j → elem j (out ++ found) ≡ true
      still_kept j m r = elim (Bool-cases (j == i)) [
        | inl h ↦
            let same = (==_iff j i).0 h in
            let r' = rw same at r in
            let now : elem i found ≡ true = rw (same_state i r'.at at) at r'.found in
            rw same (ground (arith, elem-append i out found))
        | inr h ↦
            let before : marked seen j ≡ true = ground (arith, marks j) in
            ground (arith, elem-append j out found, v.kept j before r)
      ]

      Inv-entered : Inv (pushes ++ rest) (out ++ found) (mark seen i)
      Inv-entered = record {
        size = length-mark seen i ∙ v.size;
        source = ground (arith, marks s, pending-append s pushes rest, v.source);
        ahead = pushed_lead;
        sound = found_sound;
        closed = still_closed;
        kept = still_kept;
      }

    abbrev InvAt : ClosureBuilder → Type 0
    InvAt b = Inv b.stack b.closure b.seen

    Inv-visit :
        (o : Option ℕ) (rest : List (Option ℕ)) (out : List ℕ) (seen : List Bool)
        → s < length ss
        → Inv (o ∷ rest) out seen
        → InvAt (visit f ss o rest out seen)
    Inv-visit o rest out seen l v = elim (visit-cases f ss o rest out seen) [
      | inl (e, h) ↦ rw e (Inv-dropped o rest out seen l h v)
      | inr (i, x, same, at, m, e) ↦ rw e (
          Inv-entered i x rest out seen at
            (subst (λ (q : Option ℕ). Inv (q ∷ rest) out seen) same v))
    ]

    -- When the stack is empty all that is led to was seen.
    all_seen :
        (out : List ℕ) (seen : List Bool) (t : ℕ)
        → Inv [] out seen
        → Leads s t
        → marked seen t ≡ true
    all_seen out seen t v (here e) = rw e at (or_nil (marked seen s) v.source)
    all_seen out seen t v (on {t = i} p e) =
        or_nil (marked seen t) (v.closed i t (all_seen out seen i v p) e)

    abbrev pub Found : List ℕ → Type 0
    Found out = (t : ℕ) → (elem t out ≡ true) ↔ (Leads s t × Reader t)

    all-Found : (out : List ℕ) (seen : List Bool) → Inv [] out seen → Found out
    all-Found out seen v t = (v.sound t, λ p. v.kept t (all_seen out seen t v p.0) p.1)

    closure_loop-Found :
        (fuel : ℕ) (stack : List (Option ℕ)) (out : List ℕ) (seen : List Bool) (found : List ℕ)
        → s < length ss
        → Inv stack out seen
        → closure_loop f ss fuel stack out seen ≡ some found
        → Found found
    unfolding closure_loop
    closure_loop-Found zero [] out seen found l v h = rw (some_inj h) at (all-Found out seen v)
    closure_loop-Found (suc fuel) [] out seen found l v h =
        rw (some_inj h) at (all-Found out seen v)
    closure_loop-Found zero (o ∷ rest) out seen found l v h = absurd (cc)
    closure_loop-Found (suc fuel) (o ∷ rest) out seen found l v h =
        let b = visit f ss o rest out seen in
        closure_loop-Found fuel b.stack b.closure b.seen found l (Inv-visit o rest out seen l v) h

    start-Inv : s < length ss → Inv (some s ∷ []) [] (unmarked ss)
    start-Inv l = record {
      size = length-unmarked ss;
      source = ground arith;
      ahead = λ t p k. here (sym (only_start t p));
      sound = λ t p. absurd (cc);
      closed = λ i t m e. absurd (unmarked_nothing ss i m);
      kept = λ i m r. absurd (unmarked_nothing ss i m);
    }
      where
        only_start : (t : ℕ) → pending t (some s ∷ []) ≡ true → t ≡ s
        only_start t p = ground arith

-- The search from a state of the automaton ends within its fuel, with exactly the states that are
-- reached from it by links that are followed without reading at a position like `f`, and that are
-- not passed without reading themselves.
pub epsilon_closure-Found :
    (f : Flags) (ss : List StateDef) (s : ℕ)
    → s < length ss
    → (out : List ℕ) × (epsilon_closure f ss s ≡ some out) × Found f ss s out
unfolding epsilon_closure
epsilon_closure-Found f ss s l =
    let (out, ends) = epsilon_closure-ends f ss s in
    (
      out,
      ends,
      closure_loop-Found f ss s (closure_fuel ss) (some s ∷ []) [] (unmarked ss) out l
          (start-Inv f ss s l) ends,
    )

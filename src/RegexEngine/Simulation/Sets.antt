-- ===== src/RegexEngine/Simulation/Sets.antt =====
-- The lists of active states of include/trieste/regex_engine.h as sets: what `add_state` adds.
use trieste.Prelude.{
  ℕ, zero, suc, ◌<◌, ◌≡◌, refl, sym, ◌∙◌, Bool, true, false, ◌||◌, ◌&&◌, some, List, [], ◌∷◌, All,
  length, get_elem?, elem, ◌==◌, arith, inl, inr, ◌↔◌, Bool-cases, get_elem?-lt,
}
use trieste.RegexEngine.{StateDef}
use trieste.RegexEngine.Syntax.{Flags}
use trieste.RegexEngine.Links.{Linked}
use trieste.RegexEngine.Closure.{marked}
use trieste.RegexEngine.Closure.Search.{length-mark, marked-mark}
use trieste.RegexEngine.Closure.Correct.{elem-append, Leads, Reader, epsilon_closure-Found}
use trieste.RegexEngine.Cache.{
  detect_conditional_states, flags_of, closure_flags, closure_of, closures_at, is_alone, all_alone,
  trivial_closure, precompute_epsilon_closures,
}
use trieste.RegexEngine.Cache.Spans.{seen_flags, combos-flags, epsilon_closure_cached_lem}
use trieste.RegexEngine.Simulation.{Engine, Active, push_new, push_all, add_state}

-- The list holds each state that is marked, once.
pub record Synced (n : ℕ) (a : Active) : Type 0 where
  pub size : length a.visited ≡ n
  pub same : (t : ℕ) → marked a.visited t ≡ elem t a.states

-- What a list of states adds to another.
pub record Added (n : ℕ) (ts : List ℕ) (a b : Active) : Type 0 where
  pub synced : Synced n b
  pub added : (u : ℕ) → elem u b.states ≡ (elem u a.states || elem u ts)

push_new-Added : (n t : ℕ) (a : Active) → t < n → Synced n a → Added n (t ∷ []) a (push_new t a)
unfolding push_new
push_new-Added n t a h s = elim (Bool-cases (marked a.visited t)) [
  | inl m ↦
      rw (m, push_new)
        record { synced = s; added = λ u. old u (elem u a.states) (here_already u m) }
  | inr m ↦
      rw (m, push_new)
        record {
          synced = record {
            size = length-mark a.visited t ∙ s.size;
            same = λ u. ground (
              arith,
              marked-mark a.visited t u (omega (arith, s.size)),
              elem-append u a.states (t ∷ []),
              s.same u,
            );
          };
          added = λ u. elem-append u a.states (t ∷ []);
        }
]
  where
    here_already : (u : ℕ) → marked a.visited t ≡ true → (u == t) ≡ true → elem u a.states ≡ true
    here_already u m e = let same : u ≡ t = ground arith in rw same (sym (s.same t) ∙ m)

    old : (u : ℕ) (b : Bool) → ((u == t) ≡ true → b ≡ true) → b ≡ (b || (u == t || false))
    old u b k = ground arith

pub push_all-Added :
    (n : ℕ) (ts : List ℕ) (a : Active)
    → All (λ (t : ℕ). t < n) ts
    → Synced n a
    → Added n ts a (push_all ts a)
unfolding push_all
push_all-Added n [] a h s = record { synced = s; added = λ u. or_nil (elem u a.states) }
  where
    or_nil : (b : Bool) → b ≡ (b || false)
    or_nil b = ground arith
push_all-Added n (t ∷ ts) a h s =
    let x = push_new-Added n t a h.0 s in
    let y = push_all-Added n ts (push_new t a) h.1 x.synced in
    record { synced = y.synced; added = λ u. ground (arith, x.added u, y.added u) }

-- The states that are entered from a state at a position like `f`.
pub record Enters (f : Flags) (ss : List StateDef) (v u : ℕ) : Type 0 where
  pub led : Leads f ss v u
  pub reader : Reader f ss u

pub closure_of-Enters :
    (f : Flags) (ss : List StateDef) (v u : ℕ)
    → v < length ss
    → (elem u (closure_of f ss v) ≡ true) ↔ Enters f ss v u
unfolding closure_of
closure_of-Enters f ss v u h =
    let (out, ends, found) = epsilon_closure-Found f ss v h in
    rw ends (
      λ m. let p = (found u).0 m in record { led = p.0; reader = p.1 },
      λ p. (found u).1 (p.led, p.reader),
    )

All-below : (n : ℕ) (ts : List ℕ) → ((u : ℕ) → elem u ts ≡ true → u < n) → All (λ (t : ℕ). t < n) ts
All-below n [] h = tt
All-below n (t ∷ ts) h = (h t (ground arith), All-below n ts (λ u m. h u (ground arith)))

closure_of-below :
    (f : Flags) (ss : List StateDef) (v : ℕ)
    → v < length ss
    → All (λ (t : ℕ). t < length ss) (closure_of f ss v)
closure_of-below f ss v h =
    All-below (length ss) (closure_of f ss v)
      (λ u m. get_elem?-lt ss u (((closure_of-Enters f ss v u h).0 m).reader).at)

alone_at :
    (s : ℕ) (cs : List (List ℕ)) (k : ℕ) (c : List ℕ)
    → all_alone s cs ≡ true
    → get_elem? cs k ≡ some c
    → c ≡ s ∷ []
alone_at s [] k c h g = absurd (cc)
alone_at s (d ∷ cs) zero c h g =
    alone s c (rw (same g) at (first (is_alone s d) (all_alone s cs) h))
  where
    same : some d ≡ some c → d ≡ c
    same e = cc

    first : (a b : Bool) → (a && b) ≡ true → a ≡ true
    first a b e = ground arith

    alone : (t : ℕ) (l : List ℕ) → is_alone t l ≡ true → l ≡ t ∷ []
    alone t [] e = absurd (cc)
    alone t (x ∷ []) e = let z : x ≡ t = ground arith in rw z refl
    alone t (_ ∷ _ ∷ _) e = absurd (cc)
alone_at s (d ∷ cs) (suc k) c h g = alone_at s cs k c (ground arith) g

-- A trivial state is the whole of its closure.
trivial_closure-alone :
    (hc : Bool) (ss : List StateDef) (v : ℕ) (f : Flags)
    → trivial_closure hc ss v ≡ true
    → closure_of (seen_flags hc f) ss v ≡ v ∷ []
unfolding trivial_closure closures_at
trivial_closure-alone true ss v f h =
    alone_at v (closures_at true ss v) (closure_flags f) (closure_of f ss v) h
      (combos-flags f.boundary_match f.at_start f.at_end (λ (g : Flags). closure_of g ss v))
trivial_closure-alone false ss v f h =
    alone_at v (closures_at false ss v) 0 (closure_of (flags_of 0) ss v) h refl

-- What the constructor establishes when it sets no error.
pub record IsReady (e : Engine) : Type 0 where
  pub cached : precompute_epsilon_closures e.has_conditionals e.owned_states ≡ some e.cache
  pub detected : e.has_conditionals ≡ detect_conditional_states e.owned_states
  pub linked : Linked (length e.owned_states) e.owned_states
  pub start : e.start_state < length e.owned_states

abbrev pub entered_from : Engine → ℕ → Flags → List ℕ
entered_from e v f = closure_of (seen_flags e.has_conditionals f) e.owned_states v

pub add_state-Added :
    (e : Engine) (v : ℕ) (f : Flags) (a : Active)
    → IsReady e
    → v < length e.owned_states
    → Synced (length e.owned_states) a
    → Added (length e.owned_states) (entered_from e v f) a (add_state e (some v) f a)
unfolding add_state
add_state-Added e v f a r h s =
    elim (Bool-cases (trivial_closure e.has_conditionals e.owned_states v)) [
      | inl t ↦
          rw (t, add_state, trivial_closure-alone e.has_conditionals e.owned_states v f t)
            (push_new-Added (length e.owned_states) v a h s)
      | inr t ↦
          rw
            (
              t,
              add_state,
              epsilon_closure_cached_lem e.has_conditionals e.owned_states e.cache v f r.cached h,
            )
            (push_all-Added (length e.owned_states) (entered_from e v f) a
              (closure_of-below (seen_flags e.has_conditionals f) e.owned_states v h) s)
    ]

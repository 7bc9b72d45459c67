-- ===== src/RegexEngine/Simulation/Steps.antt =====
-- One round of the matching of include/trieste/regex_engine.h (`start_list`, `step`) on sets of
-- states.
use trieste.Prelude.{
  ℕ, zero, suc, ◌<◌, ◌≡◌, refl, sym, ◌∙◌, subst, Bool, true, false, ◌||◌, Option, none, some, List,
  [], ◌∷◌, length, get_elem?, elem, ◌==◌, ==_iff, ==_refl, arith, ◌⊎◌, inl, inr, ◌↔◌, Bool-cases,
  Option-cases,
}
use trieste.RegexEngine.{StateDef}
use trieste.RegexEngine.Syntax.{Flags}
use trieste.RegexEngine.Links.{Linked, AreLinks, IsLink}
use trieste.RegexEngine.Closure.{marked, unmarked}
use trieste.RegexEngine.Closure.Search.{length-unmarked}
use trieste.RegexEngine.Simulation.{
  Engine, Active, accepts, add_state, nothing_active, start_list, advance, step_from, step,
}
use trieste.RegexEngine.Simulation.Sets.{Synced, Enters, IsReady, entered_from, add_state-Added}
use trieste.RegexEngine.Simulation.Conditions.{entered_from-Enters}

pub linked_at :
    (n : ℕ) (ss : List StateDef) (i v : ℕ) (x : StateDef)
    → Linked n ss
    → get_elem? ss i ≡ some x
    → x.next ≡ some v
    → v < n
linked_at n [] i v x l h g = absurd (none-some h)
  where
    none-some : none ≡ some x → ⊥
    none-some e = cc
linked_at n (y ∷ ss) zero v x l h g = subst (IsLink n) g (subst (AreLinks n) (some_inj h) l.0).0
  where
    some_inj : {a b : StateDef} → some a ≡ some b → a ≡ b
    some_inj e = cc
linked_at n (y ∷ ss) (suc i) v x l h g = linked_at n ss i v x l.1 h g

unmarked_none : (ss : List StateDef) (t : ℕ) → marked (unmarked ss) t ≡ false
unmarked_none [] t = refl
unmarked_none (x ∷ ss) zero = refl
unmarked_none (x ∷ ss) (suc t) = unmarked_none ss t

module _ (e : Engine) (r : IsReady e) where
  abbrev n : ℕ
  n = length e.owned_states

  nothing-Synced : Synced n (nothing_active e)
  nothing-Synced = record {
    size = length-unmarked e.owned_states;
    same = unmarked_none e.owned_states;
  }

  -- The list of the start holds what is entered from the start.
  pub start_list-Enters :
      (f g : Flags) (u : ℕ)
      → (e.has_conditionals ≡ true → f ≡ g)
      → (elem u (start_list e f) ≡ true) ↔ Enters g e.owned_states e.start_state u
  unfolding start_list
  start_list-Enters f g u same =
      let x = add_state-Added e e.start_state f (nothing_active e) r r.start nothing-Synced in
      rw (x.added u) (entered_from-Enters e e.start_state u f g r r.start same)

  -- The rune is read in one state, and another is entered.
  pub record Moves (g : Flags) (rune s u : ℕ) : Type 0 where
    pub state : StateDef
    pub target : ℕ
    pub at : get_elem? e.owned_states s ≡ some state
    pub accepted : accepts e.rune_classes state.label rune ≡ true
    pub link : state.next ≡ some target
    pub enters : Enters g e.owned_states target u

  module _ (f g : Flags) (same : e.has_conditionals ≡ true → f ≡ g) (rune : ℕ) where
    record Advanced (s : ℕ) (a b : Active) : Type 0 where
      synced : Synced n b
      into : (u : ℕ) → elem u b.states ≡ true → (elem u a.states ≡ true) ⊎ Moves g rune s u
      old : (u : ℕ) → elem u a.states ≡ true → elem u b.states ≡ true
      new : (u : ℕ) → Moves g rune s u → elem u b.states ≡ true

    unchanged :
        (s : ℕ) (a : Active) → Synced n a → ((u : ℕ) → Moves g rune s u → ⊥) → Advanced s a a
    unchanged s a y no_move = record {
      synced = y;
      into = λ u m. inl m;
      old = λ u m. m;
      new = λ u m. absurd (no_move u m);
    }

    added_to :
        (s v : ℕ) (x : StateDef) (a : Active)
        → Synced n a
        → get_elem? e.owned_states s ≡ some x
        → accepts e.rune_classes x.label rune ≡ true
        → x.next ≡ some v
        → Advanced s a (add_state e (some v) f a)
    added_to s v x a y at h l =
        let below = linked_at n e.owned_states s v x r.linked at l in
        let z = add_state-Added e v f a r below y in
        record {
          synced = z.synced;
          into = λ u m.
              which u (elem u a.states) (elem u (entered_from e v f)) refl refl
                (sym (z.added u) ∙ m) below;
          old = λ u m. z.added u ∙ rw m refl;
          new = λ u m.
              z.added u
              ∙ last (elem u a.states)
                  ((entered_from-Enters e v u f g r below same).1 (to_here u m));
        }
      where
        which :
            (u : ℕ) (b c : Bool)
            → elem u a.states ≡ b
            → elem u (entered_from e v f) ≡ c
            → (b || c) ≡ true
            → v < n
            → (elem u a.states ≡ true) ⊎ Moves g rune s u
        which u true c p q k below = inl p
        which u false c p q k below = inr record {
          state = x;
          target = v;
          at = at;
          accepted = h;
          link = l;
          enters = (entered_from-Enters e v u f g r below same).0 (q ∙ k);
        }

        last : (b : Bool) {c : Bool} → c ≡ true → (b || c) ≡ true
        last b k = ground arith

        to_here : (u : ℕ) → Moves g rune s u → Enters g e.owned_states v u
        to_here u m =
            subst (λ (t : ℕ). Enters g e.owned_states t u) (same_target m.at at m.link l) m.enters
          where
            same_target :
                {o : Option StateDef} {p q : StateDef} {t w : ℕ}
                → o ≡ some p
                → o ≡ some q
                → p.next ≡ some t
                → q.next ≡ some w
                → t ≡ w
            same_target a b c d = cc

    no_moves :
        (s : ℕ)
        → ((x : StateDef) (v : ℕ)
            → get_elem? e.owned_states s ≡ some x
            → accepts e.rune_classes x.label rune ≡ true
            → x.next ≡ some v
            → ⊥)
        → (u : ℕ) → Moves g rune s u
        → ⊥
    no_moves s h u m = h m.state m.target m.at m.accepted m.link

    add_state-none : (a : Active) → add_state e none f a ≡ a
    unfolding add_state
    add_state-none a = refl

    advance-some :
        (s : ℕ) (a : Active) (x : StateDef)
        → Synced n a
        → get_elem? e.owned_states s ≡ some x
        → Advanced s a (advance e rune f a (some x))
    advance-some s a x y at = elim (Bool-cases (accepts e.rune_classes x.label rune)) [
      | inr h ↦ rw h (
          unchanged s a y (
            no_moves s (λ z v p q k. refused h (
              subst (λ (w : StateDef). accepts e.rune_classes w.label rune ≡ true) (same_state p at)
                q))))
      | inl h ↦ elim (Option-cases x.next) [
        | inl z ↦ rw h (nowhere z)
        | inr (v, z) ↦ rw h (
            subst (λ (o : Option ℕ). Advanced s a (add_state e o f a)) (sym z)
              (added_to s v x a y at h z))
      ]
    ]
      where
        refused : {b : Bool} → b ≡ false → b ≡ true → ⊥
        refused p q = cc

        same_state : {o : Option StateDef} {p q : StateDef} → o ≡ some p → o ≡ some q → p ≡ q
        same_state p q = cc

        no_link : {p q : StateDef} {v : ℕ} → p ≡ q → p.next ≡ some v → q.next ≡ none → ⊥
        no_link p q k = cc

        nowhere : x.next ≡ none → Advanced s a (add_state e x.next f a)
        nowhere z =
            subst (λ (o : Option ℕ). Advanced s a (add_state e o f a)) (sym z)
              (subst (λ (b : Active). Advanced s a b) (sym (add_state-none a))
                (unchanged s a y (no_moves s (λ p v q _ k. no_link (same_state q at) k z))))

    advance-Advanced :
        (s : ℕ) (a : Active)
        → Synced n a
        → Advanced s a (advance e rune f a (get_elem? e.owned_states s))
    advance-Advanced s a y = elim (Option-cases (get_elem? e.owned_states s)) [
      | inl h ↦ rw h (unchanged s a y (no_moves s (λ x v p _ _. none-some h p)))
      | inr (x, h) ↦ rw h (advance-some s a x y h)
    ]
      where
        none-some : {o : Option StateDef} {x : StateDef} → o ≡ none → o ≡ some x → ⊥
        none-some p q = cc

    -- What the loop of `step` over a list of states adds.
    pub record Stepped (current : List ℕ) (a b : Active) : Type 0 where
      pub synced : Synced n b
      pub into :
          (u : ℕ)
          → elem u b.states ≡ true
          → (elem u a.states ≡ true) ⊎ ((s : ℕ) × (elem s current ≡ true) × Moves g rune s u)
      pub old : (u : ℕ) → elem u a.states ≡ true → elem u b.states ≡ true
      pub new : (s u : ℕ) → elem s current ≡ true → Moves g rune s u → elem u b.states ≡ true

    step_from-Stepped :
        (current : List ℕ) (a : Active)
        → Synced n a
        → Stepped current a (step_from e rune f current a)
    unfolding step_from
    step_from-Stepped [] a y = record {
      synced = y;
      into = λ u m. inl m;
      old = λ u m. m;
      new = λ s u m. absurd (cc);
    }
    step_from-Stepped (s ∷ current) a y =
        let b = advance e rune f a (get_elem? e.owned_states s) in
        let x = advance-Advanced s a y in
        let z = step_from-Stepped current b x.synced in
        record {
          synced = z.synced;
          into = λ u m. first u b x (z.into u m);
          old = λ u m. z.old u (x.old u m);
          new = λ t u m k. elim (Bool-cases (t == s)) [
            | inl h ↦ z.old u (x.new u (subst (λ (w : ℕ). Moves g rune w u) ((==_iff t s).0 h) k))
            | inr h ↦ z.new t u (later (t == s) (elem t current) h m) k
          ];
        }
      where
        later : (p q : Bool) → p ≡ false → (p || q) ≡ true → q ≡ true
        later p q h m = ground arith

        front : (t : ℕ) (q : Bool) → ((t == t) || q) ≡ true
        front t q = rw (==_refl t) refl

        back : (p q : Bool) → q ≡ true → (p || q) ≡ true
        back p q h = ground arith

        first :
            (u : ℕ) (b : Active)
            → Advanced s a b
            → (elem u b.states ≡ true) ⊎ ((t : ℕ) × (elem t current ≡ true) × Moves g rune t u)
            → (elem u a.states ≡ true)
              ⊎ ((t : ℕ) × (elem t (s ∷ current) ≡ true) × Moves g rune t u)
        first u b x (inr (t, m, k)) = inr (t, back (t == s) (elem t current) m, k)
        first u b x (inl m) = elim (x.into u m) [
          | inl h ↦ inl h
          | inr k ↦ inr (s, front s (elem s current), k)
        ]

    -- One rune on: the states entered from a state of the list that reads it.
    pub step-Moves :
        (current : List ℕ) (u : ℕ)
        → (elem u (step e rune f current) ≡ true)
          ↔ ((s : ℕ) × (elem s current ≡ true) × Moves g rune s u)
    unfolding step
    step-Moves current u =
        let z = step_from-Stepped current (nothing_active e) nothing-Synced in
        (λ m. drop_left (z.into u m), λ (s, m, k). z.new s u m k)
      where
        drop_left : {A : Type 0} → (false ≡ true) ⊎ A → A
        drop_left (inl h) = absurd (cc)
        drop_left (inr x) = x

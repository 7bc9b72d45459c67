-- ===== src/RegexEngine/Simulation/Alive.antt =====
-- The states under way at each position of a text (include/trieste/regex_engine.h), and that they are
-- those to which a walk through the automaton leads.
use trieste.Prelude.{
  ℕ, suc, ◌<◌, ◌≡◌, refl, sym, ap, ◌∙◌, subst, Bool, true, false, Option, none, some, List, length,
  get_elem?, arith, inl, inr, get_elem?-lt,
}
use trieste.RegexEngine.{StateDef, split_label, accept_state, match_label}
use trieste.RegexEngine.Syntax.{Flags, gate}
use trieste.RegexEngine.Slots.{label_at, slot_at, side}
use trieste.RegexEngine.Rounds.{IsAccept}
use trieste.RegexEngine.Walks.{
  Edge, branch, pass, read, Walk, stop, go, Walk-from, Reaches, Reaches-by,
}
use trieste.RegexEngine.Closure.Correct.{Follows, Leads, here, on, Reader}
use trieste.RegexEngine.Simulation.Sets.{Enters}
use trieste.RegexEngine.Simulation.Edges.{
  label_at-state, slot_at-state, state_at, outcome-pending, split-pending, gate-pending,
  outcome-found,
}

leads_first :
    (f : Flags) (ss : List StateDef) (s t u : ℕ)
    → Follows f ss s t
    → Leads f ss t u
    → Leads f ss s u
leads_first f ss s t u w (here e) = on (here refl) (subst (λ (x : ℕ). Follows f ss s x) e w)
leads_first f ss s t u w (on {t = m} l k) = on (leads_first f ss s t m w l) k

module _ (flags : ℕ → Flags) (reads : ℕ → ℕ → Bool) (ss : List StateDef) (start : ℕ) where
  -- The states under way before the rune at a position.
  pub data Alive : ℕ → ℕ → Type 0 where
    begin : {p u : ℕ} → p ≡ 0 → Enters (flags p) ss start u → Alive p u
    later :
        {p q s u v : ℕ} {x : StateDef}
        → q ≡ suc p
        → Alive p s
        → get_elem? ss s ≡ some x
        → reads x.label p ≡ true
        → x.next ≡ some v
        → Enters (flags q) ss v u
        → Alive q u

  -- A link followed without reading is an edge at the position.
  Follows-walk :
      (p i t w r : ℕ)
      → Follows (flags p) ss i t
      → Reaches flags reads ss t p w r
      → Reaches flags reads ss i p w r
  Follows-walk p i t w r k x = elim (outcome-pending (flags p) i t k.state k.linked) [
    | inl (a, b) ↦
        Reaches-by flags reads ss
          (branch (label_at-state ss i k.state k.at ∙ ap some a)
            (slot_at-state ss i k.state true k.at ∙ b) refl)
          x
    | inr (a, b) ↦
        Reaches-by flags reads ss
          (pass (label_at-state ss i k.state k.at) a (slot_at-state ss i k.state false k.at ∙ b)
            refl)
          x
  ]

  leads_walk :
      (p v u w r : ℕ)
      → Leads (flags p) ss v u
      → Reaches flags reads ss u p w r
      → Reaches flags reads ss v p w r
  leads_walk p v u w r (here e) x = rw e x
  leads_walk p v u w r (on {t = t} l k) x = leads_walk p v t w r l (Follows-walk p t u w r k x)

  Reader-gate :
      (f : Flags) (i : ℕ) (x : StateDef)
      → get_elem? ss i ≡ some x
      → Reader f ss i
      → gate f x.label ≡ none
  Reader-gate f i x at r =
      subst (λ (z : StateDef). gate f z.label ≡ none) (same r.at at)
        ((outcome-found f i r.state).0 r.found)
    where
      same : {o : Option StateDef} {y z : StateDef} → o ≡ some y → o ≡ some z → y ≡ z
      same a b = cc

  pub Alive-Reader : (p u : ℕ) → Alive p u → Reader (flags p) ss u
  Alive-Reader p u (begin e h) = h.reader
  Alive-Reader q u (later e a at h l k) = k.reader

  pub Alive-walk :
      (p u w r : ℕ)
      → Alive p u
      → Reaches flags reads ss u p w r
      → Reaches flags reads ss start 0 w r
  Alive-walk p u w r (begin e h) x =
      subst (λ (k : ℕ). Reaches flags reads ss start k w r) e (leads_walk p start u w r h.led x)
  Alive-walk q u w r (later {p} {s = s} {v = v} {x = x} e a at h l k) y = Alive-walk p s w r a (
      Reaches-by flags reads ss
        (read (label_at-state ss s x at) (Reader-gate (flags p) s x at (Alive-Reader p s a)) h
          (slot_at-state ss s x false at ∙ l) e)
        (leads_walk q v u w r k.led y))

  -- Conversely, a walk to `accept_state` leaves it under way.
  module _ (z : IsAccept ss) where
    accept_valid : 0 < length ss
    accept_valid =
        let (x, at, e) = state_at ss accept_state match_label z.labelled in
        get_elem?-lt ss accept_state at

    label_valid : (i c : ℕ) → label_at ss i ≡ some c → i < length ss
    label_valid i c h = let (x, at, e) = state_at ss i c h in get_elem?-lt ss i at

    Edge-valid : (i p t q : ℕ) → Edge flags reads ss i p t q → i < length ss
    Edge-valid i p t q (branch h m e) = label_valid i split_label h
    Edge-valid i p t q (pass {c = c} h g m e) = label_valid i c h
    Edge-valid i p t q (read {c = c} h g r m e) = label_valid i c h

    Walk-valid : (n t p q : ℕ) → Walk flags reads ss n t p accept_state q → t < length ss
    Walk-valid n t p q (stop e h) = omega (arith, accept_valid, e)
    Walk-valid n t p q (go {t = u} {q = r} x w) = Edge-valid t p u r x

    match_gate : (f : Flags) → gate f match_label ≡ none
    unfolding gate
    match_gate f = refl

    accept-Reader : (f : Flags) → Reader f ss accept_state
    accept-Reader f =
        let (x, at, e) = state_at ss accept_state match_label z.labelled in
        record {
          state = x;
          at = at;
          found = (outcome-found f accept_state x).1 (ap (gate f) e ∙ match_gate f);
        }

    -- Whatever is entered from a state is under way.
    abbrev Entry : ℕ → ℕ → Type 0
    Entry p s = (u : ℕ) → Enters (flags p) ss s u → Alive p u

    Entry-next : (p s t : ℕ) → Entry p s → Follows (flags p) ss s t → Entry p t
    Entry-next p s t h k u x =
        h u record { led = leads_first (flags p) ss s t u k x.led; reader = x.reader }

    link_of :
        (i t : ℕ) (x : StateDef) (b : Bool)
        → get_elem? ss i ≡ some x
        → slot_at ss i b ≡ some t
        → side x b ≡ some t
    link_of i t x b at h = sym (slot_at-state ss i x b at) ∙ h

    pub Walk-Alive :
        (n s p q : ℕ) → Entry p s → Walk flags reads ss n s p accept_state q → Alive q accept_state
    Walk-Alive n s p q h (stop e k) =
        subst (λ (j : ℕ). Alive j accept_state) k
          (h accept_state record { led = here e; reader = accept-Reader (flags p) })
    Walk-Alive (suc n) s p q h (go (branch {t = t} {q = r} a b e) w) =
        let (x, at, c) = state_at ss s split_label a in
        Walk-Alive n t p q
          (Entry-next p s t h record {
            state = x;
            at = at;
            linked = split-pending (flags p) s t x c (link_of s t x true at b);
            valid = Walk-valid n t r q w;
          })
          (Walk-from flags reads ss (sym e) w)
    Walk-Alive (suc n) s p q h (go (pass {t = t} {q = r} {c = c} a g b e) w) =
        let (x, at, l) = state_at ss s c a in
        Walk-Alive n t p q
          (Entry-next p s t h record {
            state = x;
            at = at;
            linked =
                gate-pending (flags p) s t x (ap (gate (flags p)) l ∙ g) (link_of s t x false at b);
            valid = Walk-valid n t r q w;
          })
          (Walk-from flags reads ss (sym e) w)
    Walk-Alive (suc n) s p q h (go (read {t = t} {q = r} {c = c} a g k b e) w) =
        let (x, at, l) = state_at ss s c a in
        let reader : Reader (flags p) ss s = record {
          state = x;
          at = at;
          found = (outcome-found (flags p) s x).1 (ap (gate (flags p)) l ∙ g);
        } in
        let now = h s record { led = here refl; reader = reader } in
        Walk-Alive n t r q
          (λ u y. later e now at (ap (λ (j : ℕ). reads j p) l ∙ k) (link_of s t x false at b) y) w

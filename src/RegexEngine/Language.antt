-- ===== src/RegexEngine/Language.antt =====
-- The language of the automaton that the constructor of `RegexEngine`
-- (include/trieste/regex_engine.h) builds.
use trieste.Prelude.{ℕ, ◌≡◌, refl, Bool, true, false, Option, none, some, List, ◌↔◌, subst}
use trieste.RegexEngine.{StateDef, accept_state, nfa_of}
use trieste.RegexEngine.Syntax.{Regex, Flags, Matches, denoted}
use trieste.RegexEngine.Wired.{Wired}
use trieste.RegexEngine.Rounds.{IsAccept}
use trieste.RegexEngine.Construction.{IsNfa, Constructed, limit_of, nfa_of-Constructed}
use trieste.RegexEngine.Walks.{branch, pass, read, Walk, stop, go, Reaches, walk_of}
use trieste.RegexEngine.Soundness.{sound}

none-some : {a : ℕ} {o : Option ℕ} → o ≡ none → o ≡ some a → ⊥
none-some a b = cc

module _ (flags : ℕ → Flags) (reads : ℕ → ℕ → Bool) (ss : List StateDef) (z : IsAccept ss) where
  stuck : {n p q : ℕ} → Walk flags reads ss n accept_state p accept_state q → p ≡ q
  stuck (stop e g) = g
  stuck (go (branch _ m e) w) = absurd (none-some (z.dead true) m)
  stuck (go (pass _ _ m e) w) = absurd (none-some (z.dead false) m)
  stuck (go (read _ _ _ m e) w) = absurd (none-some (z.dead false) m)

  pub Wired-Matches :
      (r : Regex) (s p q : ℕ)
      → Wired ss r s accept_state
      → Matches flags reads r p q ↔ Reaches flags reads ss s p accept_state q
  Wired-Matches r s p q w = (
    λ m. walk_of flags reads ss r w m record { bound = 0; walk = stop refl refl },
    λ x.
        let y = sound flags reads ss r x.bound w x.walk in
        subst (λ (k : ℕ). Matches flags reads r p k) (stuck y.rest) y.matched,
  )

pub IsNfa-of :
    (postfix : List ℕ) (r : Regex)
    → denoted postfix ≡ some r
    → IsNfa (limit_of postfix) r (nfa_of postfix)
IsNfa-of postfix r h =
    subst (λ (o : Option Regex). Constructed (limit_of postfix) o (nfa_of postfix)) h
      (nfa_of-Constructed postfix)

-- For a postfix expression that denotes a regular expression: the expression matches the stretch
-- from `p` to `q` exactly when a walk through the automaton that the constructor builds leads from
-- its start at `p` to `accept_state` at `q`, in any text and whatever the labels read.
pub nfa_of-Matches :
    (flags : ℕ → Flags) (reads : ℕ → ℕ → Bool) (postfix : List ℕ) (r : Regex) (p q : ℕ)
    → denoted postfix ≡ some r
    → Matches flags reads r p q
      ↔ Reaches flags reads ((nfa_of postfix).0).owned_states (nfa_of postfix).1 p accept_state q
nfa_of-Matches flags reads postfix r p q h =
    let x = IsNfa-of postfix r h in
    rw x.result (Wired-Matches flags reads x.states x.accepting r (nfa_of postfix).1 p q x.wired)

-- ===== src/RegexEngine/Unary.antt =====
-- The rounds of `postfix_to_nfa` (include/trieste/regex_engine.h) for the quantifiers and the groups,
-- and a round for any token.
use trieste.Prelude.{
  ℕ, suc, ◌+◌, ◌≤◌, ◌<◌, refl, Bool, false, not, none, some, List, [], ◌∷◌, ◌++◌, length, arith,
  ◌∙◌,
}
use trieste.RegexEngine.{
  QuantifierKind, zero_or_one, zero_or_more, one_or_more, Token, catenation, alternation,
  quantifier, group, literal, StateDef, slot, Frag, frag, state_of, patch_states, capture_open,
  capture_close, max_captures, round, build_quantifier, quantified, wrap_group, closed, set_error,
  patch,
}
use trieste.RegexEngine.Syntax.{Regex, rep, grp, read_token}
use trieste.RegexEngine.Slots.{length-patch_states}
use trieste.RegexEngine.Wired.{IsFrag, Keeps, Keeps-append, Keeps-patch_states, Keeps-trans}
use trieste.RegexEngine.Quantifiers.{splitting, IsFrag-opt, IsFrag-star, IsFrag-plus}
use trieste.RegexEngine.Groups.{IsFrag-grp, size_linked}
use trieste.RegexEngine.Rounds.{
  Stacked, bottom, on_top, builder_with, create_state-room, split_into-room, Step, size_new, pushed,
  Step-catenation, Step-alternation, Step-literal,
}

-- One state added, and the slots of a fragment set.
Keeps-linked :
    (ss : List StateDef) (x : StateDef) (r : Regex) (lo t : ℕ) (f : Frag)
    → IsFrag ss r lo (length ss) f
    → Keeps ss (patch_states f.dangling t (ss ++ x ∷ [])) lo
Keeps-linked ss x r lo t f p =
    Keeps-trans ss (ss ++ x ∷ []) (patch_states f.dangling t (ss ++ x ∷ [])) lo
      (Keeps-append ss (x ∷ []) lo p.ordered)
      (Keeps-patch_states (ss ++ x ∷ []) lo (length ss) t f.dangling p.inside
        (omega (arith, p.ordered, size_new ss x)))

Step-quantifier :
    (ss : List StateDef) (limit : ℕ) (kind : QuantifierKind) (l : Bool) (fs : List Frag)
    (rs : List Regex)
    → length ss + 2 ≤ limit
    → Stacked ss (length ss) fs rs
    → Step ss limit
        (round (quantifier kind l) fs (builder_with ss limit))
        (read_token (quantifier kind l) rs)
unfolding round build_quantifier quantified read_token set_error patch
Step-quantifier ss limit kind l _ _ room (bottom h z) = (refl, λ e. cc)
Step-quantifier ss limit zero_or_one l _ _ room (on_top lo f fs a rs p st) = record {
  states = ss ++ splitting l f.start ∷ [];
  stack = frag (length ss) (f.dangling ++ slot (length ss) (not l) ∷ []) ∷ fs;
  result = rw (split_into-room l f.start ss limit (omega arith)) refl;
  grown = omega (arith, size_new ss (splitting l f.start));
  stacked =
      pushed ss (ss ++ splitting l f.start ∷ []) lo (suc (length ss))
        (frag (length ss) (f.dangling ++ slot (length ss) (not l) ∷ [])) fs (rep zero_or_one l a) rs
        (size_new ss (splitting l f.start))
        (Keeps-append ss (splitting l f.start ∷ []) lo p.ordered) (IsFrag-opt ss a lo f l p) st;
}
Step-quantifier ss limit zero_or_more l _ _ room (on_top lo f fs a rs p st) = record {
  states = patch_states f.dangling (length ss) (ss ++ splitting l f.start ∷ []);
  stack = frag (length ss) (slot (length ss) (not l) ∷ []) ∷ fs;
  result = rw (split_into-room l f.start ss limit (omega arith)) refl;
  grown = omega (
    arith,
    size_new ss (splitting l f.start),
    length-patch_states f.dangling (length ss) (ss ++ splitting l f.start ∷ []),
  );
  stacked =
      pushed ss (patch_states f.dangling (length ss) (ss ++ splitting l f.start ∷ [])) lo
        (suc (length ss)) (frag (length ss) (slot (length ss) (not l) ∷ [])) fs
        (rep zero_or_more l a) rs
        (length-patch_states f.dangling (length ss) (ss ++ splitting l f.start ∷ [])
          ∙ size_new ss (splitting l f.start))
        (Keeps-linked ss (splitting l f.start) a lo (length ss) f p) (IsFrag-star ss a lo f l p) st;
}
Step-quantifier ss limit one_or_more l _ _ room (on_top lo f fs a rs p st) = record {
  states = patch_states f.dangling (length ss) (ss ++ splitting l f.start ∷ []);
  stack = frag f.start (slot (length ss) (not l) ∷ []) ∷ fs;
  result = rw (split_into-room l f.start ss limit (omega arith)) refl;
  grown = omega (
    arith,
    size_new ss (splitting l f.start),
    length-patch_states f.dangling (length ss) (ss ++ splitting l f.start ∷ []),
  );
  stacked =
      pushed ss (patch_states f.dangling (length ss) (ss ++ splitting l f.start ∷ [])) lo
        (suc (length ss)) (frag f.start (slot (length ss) (not l) ∷ [])) fs (rep one_or_more l a) rs
        (length-patch_states f.dangling (length ss) (ss ++ splitting l f.start ∷ [])
          ∙ size_new ss (splitting l f.start))
        (Keeps-linked ss (splitting l f.start) a lo (length ss) f p) (IsFrag-plus ss a lo f l p) st;
}

Step-group :
    (ss : List StateDef) (limit k : ℕ) (fs : List Frag) (rs : List Regex)
    → k < max_captures
    → length ss + 2 ≤ limit
    → Stacked ss (length ss) fs rs
    → Step ss limit (round (group k) fs (builder_with ss limit)) (read_token (group k) rs)
unfolding round wrap_group closed read_token set_error patch
Step-group ss limit k _ _ small room (bottom h z) = (refl, λ e. cc)
Step-group ss limit k _ _ small room (on_top lo f fs a rs p st) = record {
  states = linked ++ opening ∷ [];
  stack = frag (suc (length ss)) (slot (length ss) false ∷ []) ∷ fs;
  result =
      rw
        (
          create_state-room (capture_close + k) none none ss limit (omega arith),
          create_state-room (capture_open + k) (some f.start) none linked limit
              (omega (arith, size_linked ss a lo k f p small)),
          size_linked ss a lo k f p small,
        )
        refl;
  grown = omega (arith, size_linked ss a lo k f p small, size_new linked opening);
  stacked =
      pushed ss (linked ++ opening ∷ []) lo (suc (suc (length ss)))
        (frag (suc (length ss)) (slot (length ss) false ∷ [])) fs (grp k a) rs
        (omega (arith, size_linked ss a lo k f p small, size_new linked opening))
        (Keeps-trans ss linked (linked ++ opening ∷ []) lo
          (Keeps-linked ss (state_of (capture_close + k) none none) a lo (length ss) f p)
          (Keeps-append linked (opening ∷ []) lo
            (omega (arith, size_linked ss a lo k f p small, p.ordered))))
        (IsFrag-grp ss a lo k f p small) st;
}
  where
    linked : List StateDef
    linked = patch_states f.dangling (length ss) (ss ++ state_of (capture_close + k) none none ∷ [])

    opening : StateDef
    opening = state_of (capture_open + k) (some f.start) none

-- The index of a group is below the number of captures.
abbrev pub IsToken : Token → Type 0
IsToken (group k) = k < max_captures
IsToken catenation = Unit
IsToken alternation = Unit
IsToken (quantifier kind l) = Unit
IsToken (literal c) = Unit

pub step_lem :
    (ss : List StateDef) (limit : ℕ) (t : Token) (fs : List Frag) (rs : List Regex)
    → IsToken t
    → length ss + 2 ≤ limit
    → Stacked ss (length ss) fs rs
    → Step ss limit (round t fs (builder_with ss limit)) (read_token t rs)
step_lem ss limit catenation fs rs small room st = Step-catenation ss limit fs rs st
step_lem ss limit alternation fs rs small room st = Step-alternation ss limit fs rs room st
step_lem ss limit (quantifier kind l) fs rs small room st =
    Step-quantifier ss limit kind l fs rs room st
step_lem ss limit (group k) fs rs small room st = Step-group ss limit k fs rs small room st
step_lem ss limit (literal c) fs rs small room st = Step-literal ss limit c fs rs room st

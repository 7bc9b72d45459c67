-- ===== src/RegexEngine/Rounds.antt =====
-- One round of the loop of `postfix_to_nfa` (include/trieste/regex_engine.h) beside the reading of
-- its token: both go on, with a fragment for each operand, or both give up.
use trieste.Prelude.{
  ℕ, suc, ◌+◌, ◌≤◌, ◌<◌, ◌≡◌, refl, Bool, true, false, Option, none, some, List, [], ◌∷◌, ◌++◌,
  length, leb, arith, length-append, ◌∙◌, ◌≢◌,
}
use trieste.RegexEngine.{
  catenation, alternation, literal, StateDef, slot, Frag, frag, Builder, Round, state_of,
  patch_states, split_label, accept_state, match_label, round, catenate, alternate, split_into,
  create_state, set_error, patch,
}
use trieste.RegexEngine.Syntax.{Regex, lit, cat, alt, read_token}
use trieste.RegexEngine.Slots.{label_at, slot_at, length-patch_states}
use trieste.RegexEngine.Wired.{
  IsFrag, Keeps, Keeps-append, Keeps-patch_states, Keeps-lower, IsFrag-Keeps,
}
use trieste.RegexEngine.Fragments.{IsFrag-lit, IsFrag-cat, IsFrag-alt}
use trieste.RegexEngine.Quantifiers.{splitting}

-- The first state is `accept_state`, and has no links.
pub record IsAccept (ss : List StateDef) : Type 0 where
  pub labelled : label_at ss accept_state ≡ some match_label
  pub dead : (b : Bool) → slot_at ss accept_state b ≡ none

pub IsAccept-Keeps :
    (ss ts : List StateDef) (hi : ℕ) → 0 < hi → Keeps ss ts hi → IsAccept ss → IsAccept ts
IsAccept-Keeps ss ts hi h k z = record {
  labelled = k.labels accept_state h ∙ z.labelled;
  dead = λ b. k.slots accept_state b h ∙ z.dead b;
}

-- A stack of fragments for a list of expressions, one range of states after the other.
pub data Stacked (ss : List StateDef) : ℕ → List Frag → List Regex → Type 0 where
  bottom : {hi : ℕ} → 0 < hi → IsAccept ss → Stacked ss hi [] []
  on_top :
      {hi : ℕ} (lo : ℕ) (f : Frag) (fs : List Frag) (r : Regex) (rs : List Regex)
      → IsFrag ss r lo hi f
      → Stacked ss lo fs rs
      → Stacked ss hi (f ∷ fs) (r ∷ rs)

Stacked-positive :
    (ss : List StateDef) (hi : ℕ) (fs : List Frag) (rs : List Regex) → Stacked ss hi fs rs → 0 < hi
Stacked-positive ss hi _ _ (bottom h z) = h
Stacked-positive ss hi _ _ (on_top lo f fs r rs p st) = omega (arith, p.positive, p.ordered)

Stacked-Keeps :
    (ss ts : List StateDef) (hi : ℕ) (fs : List Frag) (rs : List Regex)
    → Keeps ss ts hi
    → Stacked ss hi fs rs
    → Stacked ts hi fs rs
Stacked-Keeps ss ts hi _ _ k (bottom h z) = bottom h (IsAccept-Keeps ss ts hi h k z)
Stacked-Keeps ss ts hi _ _ k (on_top lo f fs r rs p st) =
    on_top lo f fs r rs (IsFrag-Keeps ss ts r lo hi f k p)
      (Stacked-Keeps ss ts lo fs rs (Keeps-lower ss ts hi lo k p.ordered) st)

abbrev pub builder_with : List StateDef → ℕ → Builder
builder_with ss limit = record { owned_states = ss; capacity = limit; error_code = none }

pub create_state-room :
    (label : ℕ) (next next_alt : Option ℕ) (ss : List StateDef) (limit : ℕ)
    → length ss < limit
    → create_state label next next_alt (builder_with ss limit)
      ≡ (builder_with (ss ++ state_of label next next_alt ∷ []) limit, length ss)
unfolding create_state
create_state-room label next next_alt ss limit h = rw (full limit (length ss) h) refl
  where
    full : (c n : ℕ) → n < c → leb c n ≡ false
    full c n l = ground arith

pub split_into-room :
    (l : Bool) (start : ℕ) (ss : List StateDef) (limit : ℕ)
    → length ss < limit
    → split_into l start (builder_with ss limit)
      ≡ (builder_with (ss ++ splitting l start ∷ []) limit, length ss)
unfolding split_into
split_into-room true start ss limit h = create_state-room split_label none (some start) ss limit h
split_into-room false start ss limit h = create_state-room split_label (some start) none ss limit h

-- The round went on, with fragments for `rs`.
pub record WentOn (ss : List StateDef) (limit : ℕ) (rs : List Regex) (r : Round) : Type 0 where
  pub states : List StateDef
  pub stack : List Frag
  pub result : r ≡ (builder_with states limit, some stack)
  pub grown : length states ≤ length ss + 2
  pub stacked : Stacked states (length states) stack rs

-- The round gave up, with an error.
abbrev pub GaveUp : Round → Type 0
GaveUp r = (r.1 ≡ none) × ((r.0).error_code ≢ none)

abbrev pub Step : List StateDef → ℕ → Round → Option (List Regex) → Type 0
Step ss limit r none = GaveUp r
Step ss limit r (some rs) = WentOn ss limit rs r

pub size_new : (ss : List StateDef) (s : StateDef) → length (ss ++ s ∷ []) ≡ suc (length ss)
size_new ss s = omega (arith, length-append ss (s ∷ []))

-- A fragment on the states so far and one more, on top of a stack that they leave alone.
pub pushed :
    (ss ts : List StateDef) (lo hi : ℕ) (f : Frag) (fs : List Frag) (r : Regex) (rs : List Regex)
    → length ts ≡ hi
    → Keeps ss ts lo
    → IsFrag ts r lo hi f
    → Stacked ss lo fs rs
    → Stacked ts (length ts) (f ∷ fs) (r ∷ rs)
pushed ss ts lo hi f fs r rs e k p st =
    rw e (on_top lo f fs r rs p (Stacked-Keeps ss ts lo fs rs k st))

pub Step-catenation :
    (ss : List StateDef) (limit : ℕ) (fs : List Frag) (rs : List Regex)
    → Stacked ss (length ss) fs rs
    → Step ss limit (round catenation fs (builder_with ss limit)) (read_token catenation rs)
unfolding round catenate read_token patch set_error
Step-catenation ss limit _ _ (bottom h z) = (refl, λ e. cc)
Step-catenation ss limit _ _ (on_top lo f _ r _ p (bottom h z)) = (refl, λ e. cc)
Step-catenation ss limit _ _ (on_top m g _ b _ q (on_top lo f fs a rs p st)) = record {
  states = patch_states f.dangling g.start ss;
  stack = frag f.start g.dangling ∷ fs;
  result = refl;
  grown = omega (arith, length-patch_states f.dangling g.start ss);
  stacked =
      pushed ss (patch_states f.dangling g.start ss) lo (length ss) (frag f.start g.dangling) fs
        (cat a b) rs (length-patch_states f.dangling g.start ss)
        (Keeps-patch_states ss lo m g.start f.dangling p.inside
          (omega (arith, p.ordered, q.ordered)))
        (IsFrag-cat ss a b lo m (length ss) f g (omega arith) p q) st;
}

pub Step-alternation :
    (ss : List StateDef) (limit : ℕ) (fs : List Frag) (rs : List Regex)
    → length ss + 2 ≤ limit
    → Stacked ss (length ss) fs rs
    → Step ss limit (round alternation fs (builder_with ss limit)) (read_token alternation rs)
unfolding round alternate read_token set_error
Step-alternation ss limit _ _ room (bottom h z) = (refl, λ e. cc)
Step-alternation ss limit _ _ room (on_top lo f _ r _ p (bottom h z)) = (refl, λ e. cc)
Step-alternation ss limit _ _ room (on_top m g _ b _ q (on_top lo f fs a rs p st)) = record {
  states = ss ++ state_of split_label (some f.start) (some g.start) ∷ [];
  stack = frag (length ss) (f.dangling ++ g.dangling) ∷ fs;
  result =
      rw (create_state-room split_label (some f.start) (some g.start) ss limit (omega arith)) refl;
  grown = omega (arith, size_new ss (state_of split_label (some f.start) (some g.start)));
  stacked =
      pushed ss (ss ++ state_of split_label (some f.start) (some g.start) ∷ []) lo (suc (length ss))
        (frag (length ss) (f.dangling ++ g.dangling)) fs (alt a b) rs
        (size_new ss (state_of split_label (some f.start) (some g.start)))
        (Keeps-append ss (state_of split_label (some f.start) (some g.start) ∷ []) lo
          (omega (arith, p.ordered, q.ordered)))
        (IsFrag-alt ss a b lo m f g p q) st;
}

pub Step-literal :
    (ss : List StateDef) (limit c : ℕ) (fs : List Frag) (rs : List Regex)
    → length ss + 2 ≤ limit
    → Stacked ss (length ss) fs rs
    → Step ss limit (round (literal c) fs (builder_with ss limit)) (read_token (literal c) rs)
unfolding round read_token
Step-literal ss limit c fs rs room st = record {
  states = ss ++ state_of c none none ∷ [];
  stack = frag (length ss) (slot (length ss) false ∷ []) ∷ fs;
  result = rw (create_state-room c none none ss limit (omega arith)) refl;
  grown = omega (arith, size_new ss (state_of c none none));
  stacked =
      pushed ss (ss ++ state_of c none none ∷ []) (length ss) (suc (length ss))
        (frag (length ss) (slot (length ss) false ∷ [])) fs (lit c) rs
        (size_new ss (state_of c none none))
        (Keeps-append ss (state_of c none none ∷ []) (length ss) (omega arith))
        (IsFrag-lit ss c (Stacked-positive ss (length ss) fs rs st)) st;
}

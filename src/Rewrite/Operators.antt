-- ===== src/Rewrite/Operators.antt =====
-- The class `Pattern` of rewrite.h: a `PatternDef` with its `FastPattern`, and the operators.
pub mod Admits
pub mod Single
pub mod Composed
pub mod Sound
pub mod Guarded
pub mod Checked
use trieste.Prelude.{
  ℕ, Bool, true, false, not, ◌&&◌, ◌||◌, Option, none, some, List, [], ◌∷◌, ◌++◌, elem,
  if◌then◌else◌,
}
use trieste.Source.{Location}
use trieste.Ast.{Token}
use trieste.Rewrite.Frames.{Range}
use trieste.Rewrite.Pattern.{
  Pattern, done, cap, anything, token_match, regex_match, opt, rep, negation, choice, inside,
  inside_star, first, last, children_of, pred, neg_pred, action,
}
use trieste.Rewrite.Pattern.Chain.{set_continuation}

-- Sets of tokens are lists, read by membership and by emptiness only.
pub record FastPattern : Type 0 where
  pub starts : List Token
  pub parents : List Token
  pub pass_through : Bool

abbrev pub is_empty : List Token → Bool
is_empty [] = true
is_empty (t ∷ ts) = false

-- `std::set::insert`, of one token and of a range.
pub insert : Token → List Token → List Token
insert t ts = if elem t ts then ts else t ∷ ts

unfoldable pub union : List Token → List Token → List Token
unfolding insert
union ts [] = ts
union ts (u ∷ us) = union (insert u ts) us

abbrev pub to_set : List Token → List Token
to_set ts = union [] ts

unfoldable pub any_first : FastPattern → Bool
any_first f = is_empty f.starts && not f.pass_through

abbrev pub match_any : FastPattern
match_any = record { starts = []; parents = []; pass_through = false }

abbrev pub match_pred : FastPattern
match_pred = record { starts = []; parents = []; pass_through = true }

abbrev pub match_token : List Token → FastPattern
match_token ts = record { starts = to_set ts; parents = []; pass_through = false }

abbrev pub match_parent : List Token → FastPattern
match_parent ts = record { starts = []; parents = to_set ts; pass_through = true }

unfoldable pub match_choice : FastPattern → FastPattern → FastPattern
unfolding any_first union
match_choice l r =
    let both = not (any_first r) && not (any_first l) in
    record {
      starts = if both then union l.starts r.starts else [];
      parents =
          if not (is_empty r.parents) && not (is_empty l.parents)
          then union l.parents r.parents
          else [];
      pass_through = if both then l.pass_through || r.pass_through else false;
    }

-- `erase` of what the other set lacks.
pub intersect : List Token → List Token → List Token
intersect [] us = []
intersect (t ∷ ts) us = if elem t us then t ∷ intersect ts us else intersect ts us

unfoldable pub match_seq : FastPattern → FastPattern → FastPattern
unfolding any_first union intersect
match_seq l r = record {
  starts = if l.pass_through then if any_first r then [] else union l.starts r.starts else l.starts;
  parents =
      if is_empty l.parents
      then r.parents
      else if is_empty r.parents
      then l.parents
      else intersect l.parents r.parents;
  pass_through = if l.pass_through then if any_first r then false else r.pass_through else false;
}

unfoldable pub match_opt : FastPattern → FastPattern
unfolding any_first
match_opt f =
    if any_first f then f else record { starts = f.starts; parents = []; pass_through = true }

-- `has_captures`, with `has_captures_local` of each class; `Action` does not define that.
unfoldable pub has_captures : Pattern → Bool
has_captures done = false
has_captures (cap _ _ _) = true
has_captures (anything k) = has_captures k
has_captures (token_match _ k) = has_captures k
has_captures (regex_match _ _ k) = has_captures k
has_captures (opt p k) = has_captures p || has_captures k
has_captures (rep _ k) = has_captures k
has_captures (negation _ k) = has_captures k
has_captures (choice _ p q k) = (has_captures p || has_captures q) || has_captures k
has_captures (inside _ k) = has_captures k
has_captures (inside_star _ k) = has_captures k
has_captures (first k) = has_captures k
has_captures last = false
has_captures (children_of p q k) = (has_captures p || has_captures q) || has_captures k
has_captures (pred _ k) = has_captures k
has_captures (neg_pred _ k) = has_captures k
has_captures (action _ _ k) = has_captures k

-- `custom_rep`: an error, or a pattern, or the null pointer.
pub data Custom : Type 0 where
  throws : Custom
  given : Pattern → Custom
  null : Custom

unfoldable pub custom_rep : Pattern → Custom
custom_rep (rep p done) = given (rep p done)
custom_rep (inside ts done) = given (inside_star ts done)
custom_rep (inside_star _ _) = throws
custom_rep (first _) = throws
custom_rep last = throws
custom_rep (pred _ _) = throws
custom_rep (neg_pred _ _) = throws
custom_rep _ = null

unfoldable pub only_tokens : Pattern → List Token
only_tokens (token_match ts done) = ts
only_tokens _ = []

-- The class `Pattern`.
pub record Built : Type 0 where
  pub pattern : Pattern
  pub fast : FastPattern

abbrev built : Pattern → FastPattern → Built
built p f = record { pattern = p; fast = f }

-- The constructors of `Rep`, `Not`, `Pred` and `NegPred` throw on an operand with captures.
unfoldable pub without_captures : Pattern → Built → Option Built
unfolding has_captures
without_captures p b = if has_captures p then none else some b

unfoldable pub act : (Range → Bool) → Built → Built
act f b = built (action f b.pattern done) b.fast

unfoldable pub named : Token → Built → Built
named t b = built (cap t b.pattern done) b.fast

unfoldable pub optional : Built → Built
unfolding match_opt
optional b = built (opt b.pattern done) (match_opt b.fast)

unfoldable pub ahead : Built → Option Built
unfolding without_captures
ahead b = without_captures b.pattern (built (pred b.pattern done) match_pred)

unfoldable pub not_ahead : Built → Option Built
unfolding without_captures
not_ahead b = without_captures b.pattern (built (neg_pred b.pattern done) match_pred)

repeated_as : Custom → Built → Option Built
repeated_as throws b = none
repeated_as (given p) b = some (built p match_any)
repeated_as null b = without_captures b.pattern (built (rep b.pattern done) (match_opt b.fast))

unfoldable pub repeated : Built → Option Built
unfolding repeated_as custom_rep without_captures match_opt
repeated b = repeated_as (custom_rep b.pattern) b

unfoldable pub negated : Built → Option Built
unfolding without_captures
negated b = without_captures b.pattern (built (negation b.pattern done) match_any)

chained : Option Pattern → FastPattern → Option Built
chained none f = none
chained (some p) f = some (built p f)

unfoldable pub sequence : Built → Built → Option Built
unfolding chained set_continuation match_seq
sequence b d = chained (set_continuation b.pattern d.pattern) (match_seq b.fast d.fast)

unfoldable pub alternative : Built → Built → Built
unfolding only_tokens has_captures match_choice
alternative b d =
    let ts = only_tokens b.pattern in
    let us = only_tokens d.pattern in
    built
      (if not (is_empty ts) && not (is_empty us)
        then token_match (ts ++ us) done
        else choice (has_captures b.pattern) b.pattern d.pattern done)
      (match_choice b.fast d.fast)

unfoldable pub with_children : Built → Built → Built
with_children b d = built (children_of b.pattern d.pattern done) b.fast

abbrev pub any : Built
any = built (anything done) match_any

abbrev pub start : Built
start = built (first done) match_pred

abbrev pub finish : Built
finish = built last match_pred

abbrev pub tokens : List Token → Built
tokens ts = built (token_match ts done) (match_token ts)

abbrev pub token_text : Token → (Location → Bool) → Built
token_text t full = built (regex_match t full done) (match_token (t ∷ []))

abbrev pub in_any : List Token → Built
in_any ts = built (inside ts done) (match_parent ts)

-- What a rule's pattern is written as, and the operators applied as C++ applies them.
pub data Written : Type 0 where
  w_any w_start w_end : Written
  w_tokens : Token → List Token → Written
  w_text : Token → (Location → Bool) → Written
  w_in : Token → List Token → Written
  w_act : (Range → Bool) → Written → Written
  w_named : Token → Written → Written
  w_opt w_pred w_neg_pred w_rep w_not : Written → Written
  w_seq w_alt w_children : Written → Written → Written

infixl 5 ◌>>=◌
abbrev pub ◌>>=◌ {ℓ κ} : {A : Type ℓ} {B : Type κ} → Option A → (A → Option B) → Option B
none >>= f = none
some a >>= f = f a

unfoldable pub build : Written → Option Built
build w_any = some any
build w_start = some start
build w_end = some finish
build (w_tokens t ts) = some (tokens (t ∷ ts))
build (w_text t full) = some (token_text t full)
build (w_in t ts) = some (in_any (t ∷ ts))
build (w_act f x) = do b ← build x; some (act f b)
build (w_named t x) = do b ← build x; some (named t b)
build (w_opt x) = do b ← build x; some (optional b)
build (w_pred x) = do b ← build x; ahead b
build (w_neg_pred x) = do b ← build x; not_ahead b
build (w_rep x) = do b ← build x; repeated b
build (w_not x) = do b ← build x; negated b
build (w_seq x y) = do b ← build x; d ← build y; sequence b d
build (w_alt x y) = do b ← build x; d ← build y; some (alternative b d)
build (w_children x y) = do b ← build x; d ← build y; some (with_children b d)

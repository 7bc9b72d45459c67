-- ===== src/Rewrite/Samples.antt =====
-- Concrete patterns and runs.
use trieste.Prelude.{ℕ, ◌≡◌, refl, subst, true, false, Option, none, some, [], ◌∷◌}
use mathlib.Core.Option
use trieste.Source.{no_location}
use trieste.Ast.{Token, Node, node, nil, cons, no_flags}
use trieste.Rewrite.Frames.{Match, Range, find, set, init, lookup, reset}
use trieste.Rewrite.Frames.Laws.{lookup-set}
use trieste.Rewrite.Pattern.{
  Pattern, done, cap, token_match, opt, anything, choice, action, inside, Place, match, matched,
  Outcome,
}
use trieste.Rewrite.Pattern.Spec.{IsGuarded, reads}
use trieste.Rewrite.Pattern.Refines.{Agrees, match-reset, no_captures}
use trieste.Rewrite.Pattern.Chain.{set_continuation, match-set_continuation, then_run}
use trieste.Rewrite.Pattern.Total.{Lands, match-Lands}
use trieste.Rewrite.Operators.{
  any_first, union, named, optional, sequence, act, alternative, Written, w_tokens, w_named, w_opt,
  w_seq, w_alt, w_act, w_in, w_any, build, Built,
}
use trieste.Rewrite.Operators.Single.{IsSound, some_eq}
use trieste.Rewrite.Operators.Sound.{IsSafe, build-IsSound}
use trieste.Rewrite.Operators.Admits.{IsOptional}
use trieste.Rewrite.Operators.Checked.{build-IsGuarded}

abbrev leaf : Token → Node
leaf t = node t no_location no_flags nil

-- A node of type 30 with children of types 20, 21 and 22.
abbrev spot : Place
spot = record {
  parent = node 30 no_location no_flags (cons (leaf 20) (cons (leaf 21) (cons (leaf 22) nil)));
  above = 0 ∷ [];
}

-- T(20)[20] * ~T(22)[22]
abbrev pair : Pattern
pair = cap 20 (token_match (20 ∷ []) done) (opt (cap 22 (token_match (22 ∷ []) done) done) done)

abbrev left_over : Match
left_over = record {
  index = 3;
  size = 16;
  captures = λ _. record { valid = true; captured = (20, []) ∷ [] };
}

lookup-set_example : lookup (set 20 (leaf 20 ∷ []) init) 21 ≡ lookup init 21
lookup-set_example = lookup-set 20 21 (leaf 20 ∷ []) init

match-reset_example :
    Agrees (reset left_over) (match pair spot 0 (reset left_over)) (reads pair spot 0 no_captures)
match-reset_example = match-reset pair spot 0 left_over (tt, ((tt, tt), tt))

match-Lands_example : Lands true spot 0 (match pair spot 0 (reset left_over))
match-Lands_example = match-Lands pair spot 0 left_over (tt, ((tt, tt), tt)) (tt, ((tt, tt), tt))

match-set_continuation_example :
    match (anything (token_match (21 ∷ []) done)) spot 0 init
    ≡ then_run (match (anything done) spot 0 init) (match (token_match (21 ∷ []) done)) spot
unfolding set_continuation
match-set_continuation_example =
    match-set_continuation (anything done) (token_match (21 ∷ []) done)
      (anything (token_match (21 ∷ []) done)) spot 0 init refl

abbrev written : Written
written = w_seq (w_named 20 (w_tokens 20 [])) (w_opt (w_named 22 (w_tokens 22 [])))

abbrev pair_built : Built
pair_built = record {
  pattern = pair;
  fast = record { starts = 20 ∷ []; parents = []; pass_through = false };
}

build-written : build written ≡ some pair_built
unfolding build named optional sequence
build-written = refl

written-IsSafe : IsSafe written
unfolding build named any_first union
written-IsSafe = (tt, (tt, λ b e. subst (λ (z : Built). IsOptional z.fast) (some_eq e) (λ q. cc)))

build-IsSound_example : IsSound pair_built
build-IsSound_example = build-IsSound written pair_built written-IsSafe build-written

build-IsGuarded_example : IsGuarded pair
build-IsGuarded_example = build-IsGuarded written pair_built (tt, tt) build-written

-- ~(In(40) * Any) * T(21): its quick test wants the parent 40, and it matches under 30.
abbrev unsafe : Written
unsafe = w_seq (w_opt (w_seq (w_in 40 []) w_any)) (w_tokens 21 [])

abbrev after_opt : Pattern
after_opt = opt (inside (40 ∷ []) (anything done)) (token_match (21 ∷ []) done)

unsafe_built :
    build unsafe
    ≡ some (record {
      pattern = after_opt;
      fast = record { starts = []; parents = 40 ∷ []; pass_through = false };
    })
unfolding build optional sequence
unsafe_built = refl

abbrev ends_at : Outcome → Option ℕ
ends_at (matched j n) = some j
ends_at _ = none

unsafe_matches : ends_at (match after_opt spot 1 init) ≡ some 2
unfolding match
unsafe_matches = refl

-- (T(21)[20] * T(99))(f) / T(21): the capture of the failed alternative is still there.
abbrev hidden : Written
hidden =
    w_alt (w_act (λ r. true) (w_seq (w_named 20 (w_tokens 21 [])) (w_tokens 99 [])))
      (w_tokens 21 [])

abbrev hidden_choice : Pattern
hidden_choice =
    choice false
      (action (λ r. true) (cap 20 (token_match (21 ∷ []) done) (token_match (99 ∷ []) done)) done)
      (token_match (21 ∷ []) done) done

hidden_built : Option.map (λ (b : Built). b.pattern) (build hidden) ≡ some hidden_choice
unfolding build act named sequence alternative
hidden_built = refl

abbrev shown : Outcome → Option Range
shown (matched j n) = lookup n 20
shown _ = none

hidden_shows : shown (match hidden_choice spot 1 init) ≡ some (leaf 21 ∷ [])
unfolding match set lookup find init
hidden_shows = refl

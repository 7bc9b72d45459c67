-- ===== src/Pass/Good.antt =====
-- The rules that a pass is written with are good.
use trieste.Prelude.{ℕ, ◌≡◌, ◌≢◌, Bool, Option, none, some, List, Bool-cases, inl, inr}
use trieste.Ast.{Node, range_contains_error}
use trieste.Rewrite.Pattern.{Place, slice}
use trieste.Rewrite.Pattern.Spec.{Answer, found, nothing, stray, endless}
use trieste.Rewrite.Pattern.Refines.{no_captures}
use trieste.Rewrite.Pattern.Total.{IsTotal, moves, Ok, reads-Ok}
use trieste.Rewrite.Operators.{Written, build}
use trieste.Rewrite.Operators.Sound.{IsSafe, build-IsSound}
use trieste.Rewrite.Operators.Checked.{ActsOnPlain, build-IsGuarded}
use trieste.Pass.Children.{Rule, stuck, judge, replacement, as_verdict}
use trieste.Pass.Children.Spec.{read_verdict, verdict}
use trieste.Pass.Children.Refines.{IsGood}

judge-ne-stuck : (o : Option Node) (c : Place) (i j : ℕ) → judge o c i j ≢ stuck
unfolding judge
judge-ne-stuck o c i j = go (replacement o _)
  where
    go : (x : Option (Bool × List Node)) → as_verdict j x ≢ stuck
    go none e = cc
    go (some (again, ns)) e = cc

read_verdict-ne-stuck :
    (r : Rule) (b : Bool) (c : Place) (i : ℕ) (a : Answer)
    → Ok b c i a
    → read_verdict r c i a ≢ stuck
read_verdict-ne-stuck r b c i (found j e) h =
    elim (Bool-cases (range_contains_error (slice c i j))) [
      | inl x ↦ rw x (λ y. cc)
      | inr x ↦ rw x (judge-ne-stuck (r.effect e) c i j)
    ]
read_verdict-ne-stuck r b c i nothing h = λ y. cc
read_verdict-ne-stuck r b c i stray h = absurd h
read_verdict-ne-stuck r b c i endless h = absurd h

-- A rule is good if its pattern is built by the operators, with no capture under an action, from
-- operands that the quick test can make optional, and if two kinds of operands take a node each time
-- that they match, as `moves` reads it off the pattern: those of the iterations, and the parents of
-- `<<`. Good means that the pattern is guarded, that its quick test turns down no match, and that no
-- try of the rule gets stuck.
pub build-IsGood :
    (x : Written) (r : Rule)
    → build x ≡ some r.built
    → ActsOnPlain x
    → IsSafe x
    → IsTotal r.built.pattern
    → IsGood r
unfolding verdict
build-IsGood x r e a s t = record {
  guarded = build-IsGuarded x r.built a e;
  sound = build-IsSound x r.built s e;
  returns = λ c i.
      read_verdict-ne-stuck r (moves r.built.pattern) c i _
        (reads-Ok r.built.pattern t c i no_captures);
}

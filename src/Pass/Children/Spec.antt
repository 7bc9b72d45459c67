-- ===== src/Pass/Children/Spec.antt =====
-- Rewriting with no frames, no map and no quick test: at each node the first rule of the pass, in
-- order, whose pattern reads a match there and whose effect changes something.
use trieste.Prelude.{ℕ, zero, suc, Bool, Option, none, some, List, get_elem?, if◌then◌else◌}
use trieste.Ast.{Node, range_contains_error, add_all_flags}
use trieste.Rewrite.Pattern.{Place, slice}
use trieste.Rewrite.Pattern.Spec.{Answer, found, nothing, stray, endless, reads}
use trieste.Rewrite.Pattern.Refines.{no_captures}
use trieste.Pass.Select.{try_list}
use trieste.Pass.Children.{
  Rule, Verdict, passed, replaced, stuck, judge, Parent, place, Run, finished, broken, starved,
  next_index, changed,
}

abbrev pub read_verdict : Rule → Place → ℕ → Answer → Verdict
read_verdict r c i (found j e) =
    if range_contains_error (slice c i j) then passed else judge (r.effect e) c i j
read_verdict r c i nothing = passed
read_verdict r c i stray = stuck
read_verdict r c i endless = stuck

unfoldable pub verdict : Rule → Place → ℕ → Verdict
verdict r c i = read_verdict r c i (reads r.built.pattern c i no_captures)

abbrev pub settled : Verdict → Option Verdict
settled passed = none
settled (replaced ch) = some (replaced ch)
settled stuck = some stuck

abbrev pub or_passed : Option Verdict → Verdict
or_passed none = passed
or_passed (some v) = v

abbrev pub first_verdict : List Rule → Place → ℕ → Verdict
first_verdict rs c i = or_passed (try_list (λ r. settled (verdict r c i)) rs)

unfoldable pub rewrite_loop : ℕ → List Rule → Bool → Parent → List Node → ℕ → ℕ → Run
rewrite_loop zero rs once p cs i changes = starved
rewrite_loop (suc fuel) rs once p cs i changes = elim (get_elem? cs i) [
  | none ↦ finished cs p.flags changes
  | some x ↦ elim (first_verdict rs (place p cs) i) [
    | passed ↦ rewrite_loop fuel rs once p cs (suc i) changes
    | stuck ↦ broken
    | replaced ch ↦
        rewrite_loop fuel rs once (record p { flags = add_all_flags ch.nodes p.flags })
          (changed cs i ch) (next_index once i ch) (suc changes)
  ]
]

unfoldable pub rewrite_children : ℕ → List Rule → Bool → Parent → List Node → Run
unfolding rewrite_loop
rewrite_children fuel rs once p cs = rewrite_loop fuel rs once p cs 0 0

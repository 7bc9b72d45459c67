-- ===== src/Pass/Samples.antt =====
-- A concrete pass and its runs.
use trieste.Prelude.{
  ℕ, ◌≡◌, refl, true, false, Option, none, some, List, [], ◌∷◌, if◌then◌else◌, arith, elem,
}
use trieste.Source.{no_location}
use trieste.Ast.{
  Token, Node, node, nil, no_flags, range_contains_error, set_location, add_all_flags,
  range_location,
}
use trieste.Rewrite.Pattern.Spec.{reads}
use trieste.DefaultMap.{DefaultMap, create, get, clear}
use trieste.Rewrite.Frames.{init}
use trieste.Rewrite.Pattern.{done, token_match}
use trieste.Rewrite.Operators.{w_tokens, build, union, Built}
use trieste.Pass.RuleMap.{
  compile_rules, applies, get-compile_rules, all_filed, get-compile_rules_empty,
}
use trieste.Pass.Select.{try_list, try-compile_rules}
use trieste.Pass.Children.{Rule, fast_of, Parent, finished, match_children, judge, next_index}
use trieste.Pass.Children.Spec.{rewrite_children, verdict}
use trieste.Pass.Children.Refines.{IsGood, match_children-rewrites}
use trieste.Pass.Good.{build-IsGood}

abbrev leaf : Token → Node
leaf t = node t no_location no_flags nil

abbrev of_20 : Built
of_20 = record {
  pattern = token_match (20 ∷ []) done;
  fast = record { starts = 20 ∷ []; parents = []; pass_through = false };
}

-- T(20) >> a node of type 21.
abbrev rename : Rule
rename = record { built = of_20; effect = λ e. some (leaf 21) }

build-of_20 : build (w_tokens 20 []) ≡ some of_20
unfolding build union
build-of_20 = refl

build-IsGood_example : IsGood rename
build-IsGood_example = build-IsGood (w_tokens 20 []) rename build-of_20 tt tt tt

abbrev old_map : DefaultMap (DefaultMap (List Rule))
old_map = create (create (rename ∷ []))

abbrev block : Parent
block = record { type = 30; at = no_location; flags = no_flags; above = 0 ∷ [] }

abbrev kids : List Node
kids = leaf 22 ∷ leaf 20 ∷ []

match_children-rewrites_example :
    (match_children 9 (compile_rules fast_of (rename ∷ []) old_map) false block kids init).0
    ≡ rewrite_children 9 (rename ∷ []) false block kids
match_children-rewrites_example =
    match_children-rewrites (rename ∷ []) old_map
      (build-IsGood (w_tokens 20 []) rename build-of_20 tt tt tt, tt) 9 false block kids init
      (omega arith)

renamed :
    rewrite_children 9 (rename ∷ []) false block kids ≡ finished (leaf 22 ∷ leaf 21 ∷ []) no_flags 1
unfolding rewrite_children verdict try_list reads range_contains_error judge next_index set_location
    add_all_flags range_location
renamed = refl

get-compile_rules_example :
    get (get (compile_rules fast_of (rename ∷ []) old_map) 30) 20
    ≡ all_filed fast_of (rename ∷ []) 30 20
get-compile_rules_example = get-compile_rules fast_of (rename ∷ []) old_map 30 20

-- A result for rules whose starts have 20, tried at the first token 20.
abbrev by_20 : Rule → Option ℕ
by_20 r = if elem 20 (fast_of r).starts then some 1 else none

by_20_passes : applies fast_of rename 30 20 ≡ false → by_20 rename ≡ none
by_20_passes e = cc

try-compile_rules_example :
    try_list by_20 (get (get (compile_rules fast_of (rename ∷ []) old_map) 30) 20)
    ≡ try_list by_20 (rename ∷ [])
try-compile_rules_example =
    try-compile_rules fast_of by_20 (rename ∷ []) old_map 30 20 (by_20_passes, tt)

empty_example : (get (compile_rules fast_of [] old_map) 30).empty ≡ true
unfolding compile_rules get clear
empty_example = refl

get-compile_rules_empty_example : get (get (compile_rules fast_of [] old_map) 30) 20 ≡ []
get-compile_rules_empty_example = get-compile_rules_empty fast_of [] old_map 30 empty_example 20

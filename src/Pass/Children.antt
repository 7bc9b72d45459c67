-- ===== src/Pass/Children.antt =====
-- `match_children` and `replace`: one pass over the children of a node.
pub mod Spec
pub mod Refines
use trieste.Prelude.{
  ℕ, zero, suc, ◌+◌, Bool, true, false, ◌||◌, Option, none, some, List, [], ◌∷◌, ◌++◌, map, length,
  get_elem?, ◌==◌, if◌then◌else◌,
}
use trieste.Source.{Location}
use trieste.Ast.{
  Token, Flags, Node, node, node_type, location, children, from_list, set_location, add_all_flags,
  erase, insert, range_contains_error, range_location, seq, no_change, reapply,
}
use trieste.DefaultMap.{DefaultMap, get}
use trieste.Rewrite.Frames.{Range, Match, lookup, reset}
use trieste.Rewrite.Pattern.{Place, Outcome, matched, failed, fault, diverge, match, slice}
use trieste.Rewrite.Operators.{Built, FastPattern}

-- `PatternEffect<Node>`. An effect reads its captures by token; `none` is the null node.
pub record Rule : Type 0 where
  pub built : Built
  pub effect : (Token → Option Range) → Option Node

abbrev pub fast_of : Rule → FastPattern
fast_of r = r.built.fast

-- The nodes of [start, stop) become `nodes`; `again` is REAPPLY.
pub record Change : Type 0 where
  pub stop : ℕ
  pub again : Bool
  pub nodes : List Node

-- `passed` is a rule that does not match or returns NoChange. `stuck` is a pattern that reads past
-- the end or never returns.
pub data Verdict : Type 0 where
  passed : Verdict
  replaced : Change → Verdict
  stuck : Verdict

-- What `replace` puts in, if anything changes.
unfoldable pub replacement : Option Node → Location → Option (Bool × List Node)
replacement none loc = some (false, [])
replacement (some n) loc =
    if node_type n == no_change
    then none
    else if node_type n == seq || node_type n == reapply
    then some (node_type n == reapply, map (set_location loc) (children n))
    else some (false, set_location loc n ∷ [])

abbrev pub as_verdict : ℕ → Option (Bool × List Node) → Verdict
as_verdict j none = passed
as_verdict j (some (again, ns)) = replaced (record { stop = j; again = again; nodes = ns })

-- `(*start)->location()` and the rest of the range.
abbrev pub location_at : Option Node → List Node → Location → Location
location_at none ns d = d
location_at (some n) ns d = range_location (location n) ns

unfoldable pub judge : Option Node → Place → ℕ → ℕ → Verdict
unfolding replacement
judge o c i j =
    let start = get_elem? (children c.parent) i in
    as_verdict j (replacement o (location_at start (slice c (suc i) j) (location c.parent)))

-- One rule, tried at an index: `match.reset()`, the pattern, the test for errors, the effect.
abbrev pub concluded : Rule → Place → ℕ → Match → Outcome → Verdict × Match
concluded r c i m (matched j n) =
    (if range_contains_error (slice c i j) then passed else judge (r.effect (lookup n)) c i j, n)
concluded r c i m (failed n) = (passed, n)
concluded r c i m fault = (stuck, m)
concluded r c i m diverge = (stuck, m)

pub attempt : Rule → Place → ℕ → Match → Verdict × Match
attempt r c i m = concluded r c i m (match r.built.pattern c i (reset m))

abbrev pub unless_passed : Verdict × Match → (Match → Verdict × Match) → Verdict × Match
unless_passed (passed, m) f = f m
unless_passed (replaced ch, m) f = (replaced ch, m)
unless_passed (stuck, m) f = (stuck, m)

-- The loop over the rules for a first token.
pub try_rules : List Rule → Place → ℕ → Match → Verdict × Match
unfolding attempt
try_rules [] c i m = (passed, m)
try_rules (r ∷ rs) c i m = unless_passed (attempt r c i m) (try_rules rs c i)

-- The node whose children are rewritten, without those, and the types of the nodes above it.
pub record Parent : Type 0 where
  pub type : Token
  pub at : Location
  pub flags : Flags
  pub above : List Token

abbrev pub place : Parent → List Node → Place
place p cs = record { parent = node p.type p.at p.flags (from_list cs); above = p.above }

-- `broken` is a rule that was stuck; `starved` is the model's, when the rounds given run out.
pub data Run : Type 0 where
  finished : List Node → Flags → ℕ → Run
  broken : Run
  starved : Run

-- Where the iterator goes after a change.
unfoldable pub next_index : Bool → ℕ → Change → ℕ
next_index once i ch = if ch.again then i else if once then i + length ch.nodes else 0

abbrev pub changed : List Node → ℕ → Change → List Node
changed cs i ch = insert i ch.nodes (erase i ch.stop cs)

abbrev pub on_verdict {ℓ} :
    {A : Type ℓ} → Verdict × Match → (Match → A) → (Change → Match → A) → (Match → A) → A
on_verdict (passed, n) f g h = f n
on_verdict (replaced ch, n) f g h = g ch n
on_verdict (stuck, n) f g h = h n

pub children_loop :
    ℕ → (Token → List Rule) → Bool → Parent → List Node → ℕ → ℕ → Match → Run × Match
children_loop zero select once p cs i changes m = (starved, m)
children_loop (suc fuel) select once p cs i changes m = elim (get_elem? cs i) [
  | none ↦ (finished cs p.flags changes, m)
  | some x ↦
      on_verdict (try_rules (select (node_type x)) (place p cs) i m)
        (λ n. children_loop fuel select once p cs (suc i) changes n)
        (λ ch n.
          children_loop fuel select once (record p { flags = add_all_flags ch.nodes p.flags })
            (changed cs i ch) (next_index once i ch) (suc changes) n)
        (λ n. (broken, n))
]

-- `match_children`: nothing is done where the map of the parent was never modified.
pub match_children :
    ℕ → DefaultMap (DefaultMap (List Rule)) → Bool → Parent → List Node → Match → Run × Match
unfolding children_loop
match_children fuel rule_map once p cs m =
    let rules = get rule_map p.type in
    elim rules.empty [
      | true ↦ (finished cs p.flags 0, m)
      | false ↦ children_loop fuel (get rules) once p cs 0 0 m
    ]

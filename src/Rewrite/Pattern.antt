-- ===== src/Rewrite/Pattern.antt =====
-- The classes below `PatternDef`, with `match`, `set_continuation`, `has_captures`, `only_tokens`.

pub mod Spec
pub mod Same
pub mod Chain
pub mod Total
pub mod Refines
use trieste.Prelude.{
  ℕ, zero, suc, ◌-◌, Bool, true, false, ◌||◌, Option, none, some, List, [], ◌∷◌, length, get_elem?,
  take, drop, elem, leb, ◌==◌, if◌then◌else◌,
}
use trieste.Source.{Location}
use trieste.Ast.{Token, Node, node_type, children, location}
use trieste.Rewrite.Frames.{Range, Match, set, add_frame, return_to_frame}

-- A pattern with its chain of continuations; `done` is the null continuation. What `regex_match`
-- holds is `TRegex::FullMatch` on the view of a location, at one regular expression. The first argument of `choice` is
-- the template argument `CapturesLeft`.
pub data Pattern : Type 0 where
  done : Pattern
  cap : Token → Pattern → Pattern → Pattern
  anything : Pattern → Pattern
  token_match : List Token → Pattern → Pattern
  regex_match : Token → (Location → Bool) → Pattern → Pattern
  opt : Pattern → Pattern → Pattern
  rep : Pattern → Pattern → Pattern
  negation : Pattern → Pattern → Pattern
  choice : Bool → Pattern → Pattern → Pattern → Pattern
  inside : List Token → Pattern → Pattern
  inside_star : List Token → Pattern → Pattern
  first : Pattern → Pattern
  last : Pattern
  children_of : Pattern → Pattern → Pattern → Pattern
  pred : Pattern → Pattern → Pattern
  neg_pred : Pattern → Pattern → Pattern
  action : (Range → Bool) → Pattern → Pattern → Pattern

-- `parent`, with the types of the nodes above it, nearest first. An iterator is an index.
pub record Place : Type 0 where
  pub parent : Node
  pub above : List Token

-- `true` with the iterator, or `false`. `fault` is an iterator read at the end; `diverge` is the loop
-- of `Rep` on a pattern that matches and does not move.
pub data Outcome : Type 0 where
  matched : ℕ → Match → Outcome
  failed : Match → Outcome
  fault : Outcome
  diverge : Outcome

abbrev pub on : Outcome → (ℕ → Match → Outcome) → (Match → Outcome) → Outcome
on (matched i m) f g = f i m
on (failed m) f g = g m
on fault f g = fault
on diverge f g = diverge

abbrev pub here : Place → ℕ → Option Node
here c i = get_elem? (children c.parent) i

-- `it == parent->end()`
abbrev pub at_end : Place → ℕ → Bool
at_end c i = leb (length (children c.parent)) i

-- the nodes of [i, j)
abbrev pub slice : Place → ℕ → ℕ → Range
slice c i j = take (j - i) (drop i (children c.parent))

abbrev pub descend : Place → Node → Place
descend c n = record { parent = n; above = node_type c.parent ∷ c.above }

-- The loop of `InsideStar`, over the node and the nodes above it.
unfoldable pub some_in : List Token → List Token → Bool
some_in types [] = false
some_in types (t ∷ ts) = elem t types || some_in types ts

abbrev pub Matcher : Type 0
Matcher = Place → ℕ → Match → Outcome

-- The loop of `Rep`. A round moves the iterator or the loop never ends, so as many rounds as there
-- are nodes left decide it.
unfoldable pub rep_loop : ℕ → Matcher → Place → ℕ → Match → Outcome
rep_loop zero f c i m = if at_end c i then matched i m else diverge
rep_loop (suc fuel) f c i m = elim (at_end c i) [
  | true ↦ matched i m
  | false ↦
      on (f c i m) (λ j n. if j == i then diverge else rep_loop fuel f c j n) (λ n. matched i n)
]

-- The tests of `Anything`, `TokenMatch` and `RegexMatch` on the node under the iterator.
abbrev pub any_node : Node → Bool
any_node n = true

abbrev pub of_type : List Token → Node → Bool
of_type types n = elem (node_type n) types

abbrev pub full_match : Token → (Location → Bool) → Node → Bool
full_match t full n = if node_type n == t then full (location n) else false

unfoldable pub test_node : (Node → Bool) → Matcher → Matcher
test_node test k c i m = elim (here c i) [
  | none ↦ failed m
  | some n ↦ elim (test n) [ true ↦ k c (suc i) m | false ↦ failed m ]
]

unfoldable pub match : Pattern → Matcher
unfolding rep_loop test_node some_in
match done c i m = matched i m
match (cap t p k) c i m =
    on (match p c i m) (λ j n. match k c j (set t (slice c i j) n)) (λ n. failed n)
match (anything k) c i m = test_node any_node (match k) c i m
match (token_match types k) c i m = test_node (of_type types) (match k) c i m
match (regex_match t full k) c i m = test_node (full_match t full) (match k) c i m
match (opt p k) c i m =
    on (match p c i (add_frame m)) (λ j n. match k c j n)
      (λ n. match k c i (return_to_frame m.index n))
match (rep p k) c i m =
    on (rep_loop (length (children c.parent)) (match p) c i m) (λ j n. match k c j n)
      (λ n. failed n)
match (negation p k) c i m = elim (at_end c i) [
  | true ↦ failed m
  | false ↦ on (match p c i m) (λ j n. failed n) (λ n. match k c (suc i) n)
]
match (choice true p q k) c i m =
    on (match p c i (add_frame m)) (λ j n. match k c j n)
      (λ n. on (match q c i (return_to_frame m.index n)) (λ j o. match k c j o) (λ o. failed o))
match (choice false p q k) c i m =
    on (match p c i m) (λ j n. match k c j n)
      (λ n. on (match q c i n) (λ j o. match k c j o) (λ o. failed o))
match (inside types k) c i m = elim (elem (node_type c.parent) types) [
  | true ↦ match k c i m
  | false ↦ failed m
]
match (inside_star types k) c i m = elim (some_in types (node_type c.parent ∷ c.above)) [
  | true ↦ match k c i m
  | false ↦ failed m
]
match (first k) c i m = elim (i == 0) [ true ↦ match k c i m | false ↦ failed m ]
match last c i m = if at_end c i then matched i m else failed m
match (children_of p q k) c i m =
    on (match p c i m)
      (λ j n. elim (here c i) [
        | none ↦ fault
        | some x ↦ on (match q (descend c x) 0 n) (λ l o. match k c j o) (λ o. failed o)
      ])
      (λ n. failed n)
match (pred p k) c i m = on (match p c i m) (λ j n. match k c i n) (λ n. failed n)
match (neg_pred p k) c i m = on (match p c i m) (λ j n. failed n) (λ n. match k c i n)
match (action f p k) c i m =
    on (match p c i m) (λ j n. elim (f (slice c i j)) [ true ↦ match k c j n | false ↦ failed n ])
      (λ n. failed n)

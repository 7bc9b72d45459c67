-- ===== src/Ast.antt =====
-- include/trieste/ast.h and token.h: tokens, nodes, and the operations on a node's children.
use trieste.Prelude.{
  ℕ, Bool, true, false, ◌||◌, Option, none, some, List, [], ◌∷◌, ◌++◌, take, drop, ◌==◌,
  if◌then◌else◌,
}
use trieste.Source.{Source, Location, merged}

-- A token is the address of its `TokenDef`; the number stands for it, in order of creation.
abbrev pub Token : Type 0
Token = ℕ

-- The tokens of token.h that a pass tells apart.
abbrev pub seq : Token
seq = 4

abbrev pub lift : Token
lift = 5

abbrev pub no_change : Token
no_change = 6

abbrev pub reapply : Token
reapply = 7

abbrev pub error : Token
error = 10

-- `Flags`
pub record Flags : Type 0 where
  pub contains_error : Bool
  pub contains_lift : Bool

abbrev pub no_flags : Flags
no_flags = record { contains_error = false; contains_lift = false }

-- `NodeDef` as a value: the parent is the node whose children it is among, and a symbol table is
-- not part of it.
mutual
  pub data Node : Type 0 where
    node : Token → Location → Flags → Nodes → Node

  pub data Nodes : Type 0 where
    nil : Nodes
    cons : Node → Nodes → Nodes

abbrev pub node_type : Node → Token
node_type (node t _ _ _) = t

abbrev pub location : Node → Location
location (node _ l _ _) = l

abbrev pub flags : Node → Flags
flags (node _ _ f _) = f

abbrev pub to_list : Nodes → List Node
to_list nil = []
to_list (cons x xs) = x ∷ to_list xs

abbrev pub from_list : List Node → Nodes
from_list [] = nil
from_list (x ∷ xs) = cons x (from_list xs)

abbrev pub children : Node → List Node
children (node _ _ _ cs) = to_list cs

relocate : Option Source → Location → Node → Nodes → Node
relocate (some s) loc n cs = n
relocate none loc (node t l f _) cs = node t loc f cs

-- `set_location`: a node that has a source keeps its location, and so does all below it.
unfoldable mutual
  unfolding relocate

  pub set_location : Location → Node → Node
  set_location loc (node t l f cs) = relocate l.source loc (node t l f cs) (set_locations loc cs)

  pub set_locations : Location → Nodes → Nodes
  set_locations loc nil = nil
  set_locations loc (cons n ns) = cons (set_location loc n) (set_locations loc ns)

-- One round of `add_flags`, at the parent of the node that is added.
unfoldable pub add_flags : Node → Flags → Flags
add_flags n p =
    if node_type n == error || (flags n).contains_error
    then record p { contains_error = true }
    else if node_type n == lift || (flags n).contains_lift
    then record p { contains_lift = true }
    else p

unfoldable pub add_all_flags : List Node → Flags → Flags
unfolding add_flags
add_all_flags [] p = p
add_all_flags (n ∷ ns) p = add_all_flags ns (add_flags n p)

-- `erase(first, last)` and `insert(pos, first, last)`, on the children, by index.
abbrev pub erase : ℕ → ℕ → List Node → List Node
erase i j cs = take i cs ++ drop j cs

abbrev pub insert : ℕ → List Node → List Node → List Node
insert i ns cs = take i cs ++ (ns ++ drop i cs)

-- `range_contains_error`
unfoldable pub range_contains_error : List Node → Bool
range_contains_error [] = false
range_contains_error (n ∷ ns) =
    (node_type n == error || (flags n).contains_error) || range_contains_error ns

-- The location of a range: that of its first node, merged with those of the others in order.
unfoldable pub range_location : Location → List Node → Location
range_location loc [] = loc
range_location loc (n ∷ ns) = range_location (merged loc (location n)) ns

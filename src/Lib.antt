-- ===== src/Lib.antt =====
-- Trieste, a library for rewriting trees: its passes try rules, each a pattern with an effect,
-- at the children of a node until none applies. Modelled here are the parts below, each with
-- the file it models.
--
-- Source: include/trieste/source.h. A `Source` is the record of `SourceDef`; `linecol_at` and
--   `linepos` are `linecol` and `linepos` of the source, `linecol`, `view` and `merged` are
--   `linecol`, `view` and `operator*` of `Location`. Texts are lists of bytes.
-- Ast: include/trieste/ast.h and include/trieste/token.h. A `Node` is a value, so a node has one
--   parent; the functions on children work by index. A token is a number, its order of creation.
-- Rewrite: include/trieste/rewrite.h. `Rewrite.Frames` is the class `Match`, the captures in
--   frames. `Rewrite.Pattern` has a constructor for each subclass of `PatternDef`, with the
--   continuation as its last argument, and `match`. `Rewrite.Pattern.Spec` is the reading of
--   patterns without frames. `Rewrite.Operators` is the class `Pattern`: the operators, which
--   build a pattern with its `FastPattern`.
-- DefaultMap: include/trieste/defaultmap.h. The table is a function of the index.
-- Pass: include/trieste/pass.h. `Pass.RuleMap` is `compile_rules`, `Pass.Children` is
--   `match_children` with `replace`. `Pass.Children.Spec` rewrites with all rules in order, with
--   no map and no frames.
-- Utf8: include/trieste/utf8.h. `Utf8` encodes and decodes one rune, `Utf8.Strings` has the
--   routines on strings and `Utf8.Files` the readers of files.
-- RuneClass: the struct `RuneClass` of include/trieste/regex_engine.h. `finalize`, `complement`,
--   `contains` and `dot` are its members, `rebuilt` is `rebuild_ascii_bitmap`.
-- RegexEngine: the class `RegexEngine` of include/trieste/regex_engine.h. `RegexEngine` is
--   `postfix_to_nfa` with the functions it calls, `Closure` is `compute_epsilon_closure`, `Cache`
--   the table of closures. `Simulation` is the constructor after that, and `match` with
--   `find_prefix` without captures; in it, `Capturing` is the matching with captures, `Search` is
--   `search` and `FirstChar` is `compute_first_char_info`. A pointer to a state is its index, and
--   `none` is null; the visited states are a list of flags, which stands for the epochs and the
--   bitset. The number of capturing groups is an argument. `Syntax` reads a postfix expression as a
--   regular expression and says what that matches.
-- Xoroshiro: include/trieste/xoroshiro.h, for every width and all parameters; `next` is the call
--   operator and `none` is `abort()`.
-- NodeWorker: include/trieste/nodeworker.h. `turn` is a round of the loop of `run`, with the calls
--   that `process` makes in it, for its node, as an argument; `none` is an exception of `state`, or
--   the assertion. A `process` that blocks another node than its own is not modelled.
--
-- A pass uses the map of rules, which uses the quick tests of the operators; `match_children`
-- runs `match` on frames. What the theorems of one part ask of another is proved there.
--
-- Fuel. `rep_loop` has as many rounds as there are nodes left: a round that does not move ends
-- in `diverge`. `match_children` takes rounds as an argument and ends in `starved` when they run
-- out; the source has no bound, since rules can rewrite for ever. The loops of utf8.h have the
-- number of bytes as fuel, and each turn takes one byte at least. `run` of `NodeWorker` makes at
-- most so many rounds as it is given: `process` may keep it going for ever. The search for a
-- closure has twice the number of states and one as fuel, and so has that of
-- `add_state_capturing`: they push two pointers at most for a state that was not seen, and take one
-- off the stack in each round. That is shown to be enough. The loop of `search` has the bytes and
-- one as fuel: a probe that advances takes a byte at least.
--
-- Regular expressions (`TRegex::FullMatch`) and effects are functions that the model takes as
-- arguments, with no hypothesis on them.
--
-- Not modelled: the passes over whole trees with their callbacks, the operators by which effects
-- build trees, symbol tables, well-formedness, the parser of modes, and in the regular expression
-- engine the reader of patterns and the statistics; reference counting; printing; drivers,
-- readers, writers and logging, which are input and output; the fuzzer; the JSON and YAML libraries;
-- unicode_data.h, which is generated.
pub mod Prelude
pub mod Source
pub mod Ast
pub mod Rewrite
pub mod DefaultMap
pub mod Pass
pub mod Utf8
pub mod RuneClass
pub mod RegexEngine
pub mod Xoroshiro
pub mod NodeWorker

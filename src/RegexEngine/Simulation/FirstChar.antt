-- ===== src/RegexEngine/Simulation/FirstChar.antt =====
-- `compute_first_char_info` of include/trieste/regex_engine.h: what the first rune of a match can be.
pub mod Noted
pub mod Sound
use trieste.Prelude.{
  ℕ, ◌-◌, Bool, true, false, ◌||◌, ◌&&◌, not, bit_or, Option, none, some, List, [], ◌∷◌, get_elem?,
  ltb, leb, ◌==◌, if◌then◌else◌,
}
use trieste.RuneClass.{RuneRange, RuneClass}
use trieste.RuneClass.Bitmap.{bit_in}
use trieste.RegexEngine.{ErrorCode, StateDef, accept_state, match_label}
use trieste.RegexEngine.Syntax.{Flags}
use trieste.RegexEngine.Cache.{flags_of, combos, epsilon_closure_cached}
use trieste.RegexEngine.Simulation.{Engine, rune_class_base, is_class_ref, ascii_accept}

-- `low` and `high` are the two words of `bitmap`.
pub record FirstCharInfo : Type 0 where
  pub low : ℕ
  pub high : ℕ
  pub can_match_empty : Bool
  pub can_match_nonascii : Bool

unfoldable pub test : FirstCharInfo → ℕ → Bool
test info byte = if ltb byte 128 then bit_in (info.low, info.high) byte else info.can_match_nonascii

abbrev pub minimal : FirstCharInfo
minimal = record { low = 0; high = 0; can_match_empty = false; can_match_nonascii = false }

abbrev pub maximal : FirstCharInfo
maximal = record {
  low = 0xffffffffffffffff;
  high = 0xffffffffffffffff;
  can_match_empty = true;
  can_match_nonascii = true;
}

unfoldable pub reaches_nonascii : List RuneRange → Bool
reaches_nonascii [] = false
reaches_nonascii (x ∷ xs) = leb 128 x.hi || reaches_nonascii xs

abbrev pub class_nonascii : Option RuneClass → Bool
class_nonascii none = false
class_nonascii (some c) = reaches_nonascii c.ranges

-- Whether a label sets `can_match_nonascii`.
unfoldable pub label_nonascii : List RuneClass → ℕ → Bool
unfolding reaches_nonascii
label_nonascii classes label =
    if is_class_ref label
    then class_nonascii (get_elem? classes (label - rune_class_base))
    else leb 128 label && not (label == match_label)

abbrev pub with_label : ℕ × ℕ → Bool → FirstCharInfo → FirstCharInfo
with_label (low, high) nonascii info = record {
  low = bit_or info.low low;
  high = bit_or info.high high;
  can_match_empty = info.can_match_empty;
  can_match_nonascii = info.can_match_nonascii || nonascii;
}

-- The body of the inner loop, for a state of the closure.
abbrev pub note_label : List RuneClass → Option StateDef → FirstCharInfo → FirstCharInfo
note_label classes none info = info
note_label classes (some s) info =
    with_label (ascii_accept classes s.label) (label_nonascii classes s.label) info

unfoldable pub note_state : Engine → ℕ → FirstCharInfo → FirstCharInfo
unfolding ascii_accept label_nonascii
note_state e s info =
    if s == accept_state
    then record info { can_match_empty = true }
    else note_label e.rune_classes (get_elem? e.owned_states s) info

unfoldable pub note_closure : Engine → List ℕ → FirstCharInfo → FirstCharInfo
unfolding note_state
note_closure e [] info = info
note_closure e (s ∷ closure) info = note_closure e closure (note_state e s info)

-- The flags of a round of the outer loop: without conditional states `at_start` is set.
abbrev pub combo_flags : Bool → ℕ → Flags
combo_flags true combo = flags_of combo
combo_flags false combo = record { boundary_match = false; at_start = true; at_end = false }

unfoldable pub note_combos : Engine → List ℕ → FirstCharInfo → FirstCharInfo
unfolding note_closure epsilon_closure_cached
note_combos e [] info = info
note_combos e (combo ∷ combos) info = note_combos e combos (
    note_closure e
      (epsilon_closure_cached e.has_conditionals e.cache e.start_state
        (combo_flags e.has_conditionals combo))
      info)

abbrev pub or_maximal : Option ErrorCode → FirstCharInfo → FirstCharInfo
or_maximal (some x) info = maximal
or_maximal none info = info

unfoldable pub compute_first_char_info : Engine → FirstCharInfo
unfolding note_combos
compute_first_char_info e =
    or_maximal e.error_code (note_combos e (combos e.has_conditionals) minimal)

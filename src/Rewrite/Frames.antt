-- ===== src/Rewrite/Frames.antt =====
-- The class `Match`: captures kept in frames, so that a failed alternative is undone at once.
pub mod Laws
use trieste.Prelude.{
  ℕ, zero, suc, ◌+◌, ◌*◌, Bool, true, false, Option, none, some, List, [], ◌∷◌, ltb, ◌==◌,
  if◌then◌else◌,
}
use trieste.Ast.{Token, Node}

abbrev pub Range : Type 0
Range = List Node

-- `std::map<Token, NodeRange>`
abbrev pub Captured : Type 0
Captured = List (Token × Range)

unfoldable pub find : Token → Captured → Option Range
find t [] = none
find t ((k, r) ∷ m) = if k == t then some r else find t m

pub assign : Token → Range → Captured → Captured
assign t r [] = (t, r) ∷ []
assign t r ((k, s) ∷ m) = if k == t then (k, r) ∷ m else (k, s) ∷ assign t r m

pub record Frame : Type 0 where
  pub valid : Bool
  pub captured : Captured

abbrev pub no_frame : Frame
no_frame = record { valid = false; captured = [] }

-- `captures` is a vector of `size` frames; a function here, read below `size` only.
pub record Match : Type 0 where
  pub index : ℕ
  pub size : ℕ
  pub captures : ℕ → Frame

unfoldable pub init : Match
init = record { index = 0; size = 16; captures = λ _. no_frame }

abbrev pub update : (ℕ → Frame) → ℕ → Frame → ℕ → Frame
update c i f j = if i == j then f else c j

-- One round of the loop of `operator[]`, at a frame.
frame_find : Frame → Token → Option Range
frame_find f t = if f.valid then find t f.captured else none

unfoldable pub or_else {ℓ} : {A : Type ℓ} → Option A → Option A → Option A
or_else (some a) o = some a
or_else none o = o

find_from : (ℕ → Frame) → ℕ → Token → Option Range
unfolding or_else frame_find
find_from c zero t = frame_find (c zero) t
find_from c (suc i) t = or_else (frame_find (c (suc i)) t) (find_from c i t)

-- `operator[]`; `none` is the empty range that it returns when no frame has the token.
unfoldable pub lookup : Match → Token → Option Range
unfolding find_from
lookup m t = find_from m.captures m.index t

unfoldable pub set : Token → Range → Match → Match
unfolding assign
set t r m =
    let f = m.captures m.index in
    let g : Frame = record {
      valid = true;
      captured = assign t r (if f.valid then f.captured else []);
    } in
    record m { captures = update m.captures m.index g }

-- `resize` keeps the frames below `size`, and fills the rest with invalid ones.
resized : ℕ → (ℕ → Frame) → ℕ → Frame
resized n c j = if ltb j n then c j else no_frame

unfoldable pub add_frame : Match → Match
unfolding resized
add_frame m =
    let i = m.index + 1 in
    if m.size == i
    then record { index = i; size = i * 2; captures = resized m.size m.captures }
    else record {
      index = i;
      size = m.size;
      captures = update m.captures i (record (m.captures i) { valid = false });
    }

unfoldable pub return_to_frame : ℕ → Match → Match
return_to_frame i m = record m { index = i }

unfoldable pub reset : Match → Match
reset m = record m {
  index = 0;
  captures = update m.captures 0 (record (m.captures 0) { valid = false });
}

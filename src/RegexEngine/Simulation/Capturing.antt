-- ===== src/RegexEngine/Simulation/Capturing.antt =====
-- The matching with captures of include/trieste/regex_engine.h (`find_prefix_with_context`,
-- `add_state_capturing`, the capture frames of `MatchContext`). A null pointer and `npos` are `none`.
pub mod Ends
use trieste.Prelude.{
  ℕ, zero, suc, ◌+◌, ◌-◌, ◌*◌, Bool, true, false, ◌||◌, Option, none, some, List, [], ◌∷◌, ◌++◌,
  length, get_elem?, ltb, ◌==◌, if◌then◌else◌,
}
use trieste.RegexEngine.{
  ErrorCode, StateDef, accept_state, split_label, word_boundary, start_anchor, end_anchor,
  capture_open, capture_close, is_capture_open, is_capture_close,
}
use trieste.RegexEngine.Syntax.{Flags}
use trieste.RegexEngine.Closure.{marked, mark, unmarked, closure_fuel}
use trieste.RegexEngine.Simulation.{Engine, accepts, Text, starts_word, flags_before, find_prefix}

-- The slots of a frame: the start and the end of each capture in turn.
abbrev pub CaptureFrame : Type 0
CaptureFrame = List (Option ℕ)

abbrev pub max_capture_frame_entries : ℕ
max_capture_frame_entries = 1000000

-- The index of a new frame, and the frames with it: `none` when the arena is full.
unfoldable pub allocate_frame :
    ℕ → CaptureFrame → List CaptureFrame → Option (ℕ × List CaptureFrame)
allocate_frame slots frame frames =
    if ltb max_capture_frame_entries (length frames * slots + slots)
    then none
    else some (length frames, frames ++ frame ∷ [])

abbrev pub unset : ℕ → CaptureFrame
unset zero = []
unset (suc slots) = none ∷ unset slots

abbrev pub frame_or_empty : Option CaptureFrame → CaptureFrame
frame_or_empty none = []
frame_or_empty (some frame) = frame

unfoldable pub set_entry : ℕ → ℕ → CaptureFrame → CaptureFrame
set_entry i pos [] = []
set_entry zero pos (x ∷ frame) = some pos ∷ frame
set_entry (suc i) pos (x ∷ frame) = x ∷ set_entry i pos frame

abbrev pub capture_index : ℕ → ℕ
capture_index label = if is_capture_open label then label - capture_open else label - capture_close

-- The slot that a label of a capture sets.
abbrev pub entry_of : ℕ → ℕ
entry_of label =
    if is_capture_open label then capture_index label * 2 else capture_index label * 2 + 1

-- A thread is a state with the index of its frame.
pub record Threads : Type 0 where
  pub threads : List (ℕ × ℕ)
  pub visited : List Bool
  pub frames : List CaptureFrame

abbrev pub Pending : Type 0
Pending = List (Option ℕ × ℕ)

-- A clone of the frame, with the slot set, goes on behind the label; a thread ends where the arena
-- is full.
abbrev pub with_frame : Option ℕ → Threads → Option (ℕ × List CaptureFrame) → Pending × Threads
with_frame next a none = ([], a)
with_frame next a (some (frame, frames)) = ((next, frame) ∷ [], record a { frames = frames })

unfoldable pub capture : ℕ → ℕ → StateDef → ℕ → Threads → Pending × Threads
unfolding allocate_frame set_entry
capture slots pos s frame a = with_frame s.next a (
    allocate_frame slots
      (set_entry (entry_of s.label) pos (frame_or_empty (get_elem? a.frames frame))) a.frames)

abbrev pub pass_if : Bool → Option ℕ → ℕ → Pending
pass_if true next frame = (next, frame) ∷ []
pass_if false next frame = []

-- A state not visited before: what it pushes, the top of the stack first, and what it leaves.
unfoldable pub traverse : ℕ → ℕ → Flags → ℕ → ℕ → Threads → StateDef → Pending × Threads
unfolding capture
traverse slots pos f i frame a s =
    if s.label == split_label
    then ((s.next, frame) ∷ (s.next_alt, frame) ∷ [], a)
    else if is_capture_open s.label || is_capture_close s.label
    then capture slots pos s frame a
    else if s.label == word_boundary
    then (pass_if f.boundary_match s.next frame, a)
    else if s.label == start_anchor
    then (pass_if f.at_start s.next frame, a)
    else if s.label == end_anchor
    then (pass_if f.at_end s.next frame, a)
    else ([], record a { threads = a.threads ++ (i, frame) ∷ [] })

abbrev pub traverse_state : ℕ → ℕ → Flags → ℕ → ℕ → Threads → Option StateDef → Pending × Threads
traverse_state slots pos f i frame a none = ([], a)
traverse_state slots pos f i frame a (some s) =
    if marked a.visited i
    then ([], a)
    else traverse slots pos f i frame (record a { visited = mark a.visited i }) s

-- The body of the loop, with the top of the stack taken off.
unfoldable pub take_pending : Engine → ℕ → ℕ → Flags → Option ℕ × ℕ → Threads → Pending × Threads
unfolding traverse
take_pending e slots pos f (none, frame) a = ([], a)
take_pending e slots pos f (some i, frame) a =
    traverse_state slots pos f i frame a (get_elem? e.owned_states i)

unfoldable pub capture_loop : ℕ → Engine → ℕ → ℕ → Flags → Pending → Threads → Threads
unfolding take_pending
capture_loop zero e slots pos f stack a = a
capture_loop (suc fuel) e slots pos f [] a = a
capture_loop (suc fuel) e slots pos f (x ∷ stack) a =
    let r = take_pending e slots pos f x a in capture_loop fuel e slots pos f (r.0 ++ stack) r.1

unfoldable pub add_state_capturing : Engine → ℕ → ℕ → Flags → Option ℕ → ℕ → Threads → Threads
unfolding capture_loop
add_state_capturing e slots pos f state frame a =
    capture_loop (closure_fuel e.owned_states) e slots pos f ((state, frame) ∷ []) a

-- No threads yet, in a new epoch.
abbrev pub no_threads : Engine → List CaptureFrame → Threads
no_threads e frames = record { threads = []; visited = unmarked e.owned_states; frames = frames }

abbrev pub advance_thread : Engine → ℕ → ℕ → ℕ → Flags → ℕ → Threads → Option StateDef → Threads
advance_thread e slots pos rune f frame a none = a
advance_thread e slots pos rune f frame a (some s) =
    if accepts e.rune_classes s.label rune
    then add_state_capturing e slots pos f s.next frame a
    else a

unfoldable pub advance_threads : Engine → ℕ → ℕ → ℕ → Flags → List (ℕ × ℕ) → Threads → Threads
unfolding accepts add_state_capturing
advance_threads e slots pos rune f [] a = a
advance_threads e slots pos rune f ((i, frame) ∷ current) a =
    advance_threads e slots pos rune f current
      (advance_thread e slots pos rune f frame a (get_elem? e.owned_states i))

-- `check_accept`: the position with the frame of the first thread in `accept_state`, or the best so
-- far.
unfoldable pub check_accept : List (ℕ × ℕ) → ℕ → Option (ℕ × ℕ) → Option (ℕ × ℕ)
check_accept [] pos best = best
check_accept ((i, frame) ∷ threads) pos best =
    let rest = check_accept threads pos best in
    (if i == accept_state then some (pos, frame) else rest)

-- The best match, with the frames.
abbrev pub BestMatch : Type 0
BestMatch = Option (ℕ × ℕ) × List CaptureFrame

-- The loop over the runes, where `next_is_word` is of the rune that is read next.
unfoldable pub capturing_loop :
    Engine → ℕ → ℕ → Bool → Text → List (ℕ × ℕ) → List CaptureFrame → Option (ℕ × ℕ) → BestMatch
unfolding advance_threads check_accept
capturing_loop e slots pos next_is_word [] threads frames best = (best, frames)
capturing_loop e slots pos next_is_word ((rune, n) ∷ rest) [] frames best = (best, frames)
capturing_loop e slots pos next_is_word ((rune, n) ∷ rest) (t ∷ threads) frames best =
    let next =
      advance_threads e slots (pos + n) rune (flags_before true next_is_word false rest)
        (t ∷ threads) (no_threads e frames) in
    capturing_loop e slots (pos + n) (starts_word rest) rest next.threads next.frames
      (check_accept next.threads (pos + n) best)

abbrev pub capturing_from : Engine → ℕ → Text → Threads → BestMatch
capturing_from e slots text first =
    capturing_loop e slots 0 (starts_word text) text first.threads first.frames
      (check_accept first.threads 0 none)

abbrev pub Captures : Type 0
Captures = List (Option ℕ × Option ℕ)

abbrev pub captures_of : CaptureFrame → Captures
captures_of [] = []
captures_of (start ∷ []) = []
captures_of (start ∷ end ∷ frame) = (start, end) ∷ captures_of frame

abbrev pub with_captures : BestMatch → Option (ℕ × Captures)
with_captures (none, frames) = none
with_captures (some (best, frame), frames) =
    some (best, captures_of (frame_or_empty (get_elem? frames frame)))

-- What follows the first frame, which a full arena does not give.
abbrev pub from_frame :
    Engine → ℕ → Text → Bool → Bool → Option (ℕ × List CaptureFrame) → Option (ℕ × Captures)
from_frame e slots text at_start prev_is_word none = none
from_frame e slots text at_start prev_is_word (some (frame, frames)) = with_captures (
    capturing_from e slots text (
      add_state_capturing e slots 0 (flags_before true prev_is_word at_start text)
        (some e.start_state) frame (no_threads e frames)))

abbrev pub uncaptured : Option ℕ → Option (ℕ × Captures)
uncaptured none = none
uncaptured (some len) = some (len, [])

abbrev pub has_failed : Option ErrorCode → Bool
has_failed none = false
has_failed (some x) = true

-- The length of the longest prefix with its captures.
unfoldable pub find_prefix_with_context : ℕ → Engine → Text → Bool → Bool → Option (ℕ × Captures)
unfolding find_prefix allocate_frame add_state_capturing capturing_loop check_accept
find_prefix_with_context num_captures e text at_start prev_is_word =
    if has_failed e.error_code || num_captures == 0
    then uncaptured (find_prefix e text at_start prev_is_word)
    else from_frame e (num_captures * 2) text at_start prev_is_word
        (allocate_frame (num_captures * 2) (unset (num_captures * 2)) [])

-- ===== src/NodeWorker.antt =====
-- include/trieste/nodeworker.h: a worklist of nodes that wait for one another. A node is a number.
pub mod Invariant
pub mod Runs
pub mod Rounds
mod Samples
use trieste.Prelude.{
  ℕ, zero, suc, ◌+◌, ◌-◌, min, Bool, true, false, ◌||◌, Option, none, some, List, [], ◌∷◌, ◌++◌,
  ◌==◌, ◌≡◌, if◌then◌else◌, elem,
}

pub data WorkerStatus : Type 0 where
  uninitialized : WorkerStatus
  active : WorkerStatus
  blocked : WorkerStatus
  resolved : WorkerStatus

-- `NodeWorkerState`. What a `Work` adds to it, and its `seed`, is the client's.
pub record NodeWorkerState : Type 0 where
  pub kind : WorkerStatus
  pub blocked_on_count : ℕ
  pub dependents : List ℕ

pub record NodeWorker : Type 0 where
  pub states : ℕ → Option NodeWorkerState
  pub worklist : List ℕ

abbrev pub kind_of : Option NodeWorkerState → WorkerStatus
kind_of none = uninitialized
kind_of (some s) = s.kind

abbrev pub is_status_resolved : WorkerStatus → Bool
is_status_resolved resolved = true
is_status_resolved _ = false

abbrev pub is_resolved : NodeWorker → ℕ → Bool
is_resolved w n = is_status_resolved (kind_of (w.states n))

abbrev pub put : ℕ → NodeWorkerState → NodeWorker → NodeWorker
put n s w = record w { states = λ m. if m == n then some s else w.states m }

abbrev pub with_kind : WorkerStatus → NodeWorkerState → NodeWorkerState
with_kind k s = record s { kind = k }

abbrev pub enqueue : ℕ → NodeWorker → NodeWorker
enqueue n w = record w { worklist = w.worklist ++ n ∷ [] }

-- `state(n)`, which throws on a node that was never added.
abbrev pub at {ℓ} : {A : Type ℓ} → Option NodeWorkerState → (NodeWorkerState → Option A) → Option A
at none f = none
at (some s) f = f s

abbrev pub activated : ℕ → NodeWorkerState → NodeWorker → NodeWorker
activated n s w = enqueue n (put n (with_kind active s) w)

abbrev pub added : ℕ → Option NodeWorkerState → NodeWorker → NodeWorker
added n none w =
    activated n (record { kind = uninitialized; blocked_on_count = 0; dependents = [] }) w
added n (some s) w = elim s.kind [
  | uninitialized ↦ activated n s w
  | active ↦ w
  | blocked ↦ w
  | resolved ↦ w
]

unfoldable pub add : ℕ → NodeWorker → NodeWorker
add n w = added n (w.states n) w

-- Insertion into a set.
abbrev pub insert : ℕ → List ℕ → List ℕ
insert a xs = if elem a xs then xs else a ∷ xs

abbrev pub waits_for : ℕ → ℕ → NodeWorker → Option (Bool × NodeWorker)
waits_for dependent origin w = at (w.states origin) (λ s.
    let v = put origin (record s { dependents = insert dependent s.dependents }) w in
    at (v.states dependent) (λ t. some (true, put dependent (with_kind blocked t) v)))

unfoldable pub block_on : ℕ → ℕ → NodeWorker → Option (Bool × NodeWorker)
unfolding add
block_on dependent origin w =
    let v = add origin w in
    (if is_resolved v origin then some (false, v) else waits_for dependent origin v)

abbrev pub counted_in : Bool → Option (ℕ × NodeWorker) → Option (ℕ × NodeWorker)
counted_in b none = none
counted_in true (some (count, w)) = some (suc count, w)
counted_in false (some (count, w)) = some (count, w)

-- The loop of `block_on_all` and of `block_on_any`: how many origins block, and the worker.
unfoldable pub block_each : ℕ → List ℕ → NodeWorker → Option (ℕ × NodeWorker)
block_each dependent [] w = some (0, w)
block_each dependent (origin ∷ origins) w = elim (block_on dependent origin w) [
  | none ↦ none
  | some (b, v) ↦ counted_in b (block_each dependent origins v)
]

abbrev pub waiting_count : ℕ → ℕ → ℕ
waiting_count count old = if old == 0 then count - 1 else min old (count - 1)

abbrev pub set_count : ℕ → NodeWorkerState → NodeWorkerState
set_count count s = record s { blocked_on_count = count }

abbrev pub all_counted : ℕ → ℕ × NodeWorker → Option (Bool × NodeWorker)
all_counted dependent (zero, w) = some (false, w)
all_counted dependent (suc count, w) =
    at (w.states dependent) (λ s.
      some (true, put dependent (set_count (waiting_count (suc count) s.blocked_on_count) s) w))

unfoldable pub block_on_all : ℕ → List ℕ → NodeWorker → Option (Bool × NodeWorker)
block_on_all dependent origins w = elim (block_each dependent origins w) [
  | none ↦ none
  | some r ↦ all_counted dependent r
]

abbrev pub any_counted : ℕ → ℕ × NodeWorker → Option (Bool × NodeWorker)
any_counted dependent (count, w) =
    at (w.states dependent)
      (λ s. some ((if count == 0 then false else true), put dependent (set_count 0 s) w))

unfoldable pub block_on_any : ℕ → List ℕ → NodeWorker → Option (Bool × NodeWorker)
block_on_any dependent origins w = elim (block_each dependent origins w) [
  | none ↦ none
  | some r ↦ any_counted dependent r
]

-- One round of the loop of `unblock_dependents`, by kind and count.
abbrev pub woken_as : WorkerStatus → ℕ → ℕ → NodeWorkerState → NodeWorker → NodeWorker
woken_as uninitialized count dependent s w = w
woken_as active count dependent s w = w
woken_as resolved count dependent s w = w
woken_as blocked zero dependent s w = activated dependent s w
woken_as blocked (suc count) dependent s w = put dependent (set_count count s) w

abbrev pub woken : ℕ → NodeWorkerState → NodeWorker → NodeWorker
woken dependent s w = woken_as s.kind s.blocked_on_count dependent s w

unfoldable pub wake : List ℕ → NodeWorker → Option NodeWorker
wake [] w = some w
wake (dependent ∷ waiting) w = elim (w.states dependent) [
  | none ↦ none
  | some s ↦ wake waiting (woken dependent s w)
]

abbrev pub cleared : NodeWorkerState → NodeWorkerState
cleared s = record s { dependents = [] }

-- `waiting` is the set in the state of `origin`, which the loop leaves as it is.
abbrev pub clear_waiting : ℕ → Option NodeWorker → Option NodeWorker
clear_waiting origin none = none
clear_waiting origin (some w) = at (w.states origin) (λ s. some (put origin (cleared s) w))

unfoldable pub unblock_dependents : ℕ → NodeWorker → Option NodeWorker
unblock_dependents origin w = at (w.states origin) (λ s. clear_waiting origin (wake s.dependents w))

-- What `process` may do to the worker, for the node that it is given: the usage overview has it block
-- the current node. A `process` that blocks another node than its own is not modelled.
pub data Call : Type 0 where
  adds : ℕ → Call
  blocks_on : ℕ → Call
  blocks_on_all : List ℕ → Call
  blocks_on_any : List ℕ → Call

abbrev pub worker_of : Option (Bool × NodeWorker) → Option NodeWorker
worker_of none = none
worker_of (some (b, w)) = some w

unfoldable pub perform : ℕ → Call → NodeWorker → Option NodeWorker
perform current (adds n) w = some (add n w)
perform current (blocks_on o) w = worker_of (block_on current o w)
perform current (blocks_on_all os) w = worker_of (block_on_all current os w)
perform current (blocks_on_any os) w = worker_of (block_on_any current os w)

unfoldable pub performs : ℕ → List Call → NodeWorker → Option NodeWorker
performs current [] w = some w
performs current (c ∷ cs) w = elim (perform current c w) [
  | none ↦ none
  | some v ↦ performs current cs v
]

abbrev pub concluded : ℕ → Bool → NodeWorker → Option NodeWorker
concluded current false w = some w
concluded current true w =
    at (w.states current) (λ s. unblock_dependents current (put current (with_kind resolved s) w))

abbrev pub processed : ℕ → List Call → Bool → WorkerStatus → NodeWorker → Option NodeWorker
processed current calls done resolved w = some w
processed current calls done active w = elim (performs current calls w) [
  | none ↦ none
  | some v ↦ concluded current done v
]
processed current calls done uninitialized w = none
processed current calls done blocked w = none

abbrev pub turn_on : List ℕ → List Call → Bool → NodeWorker → Option NodeWorker
turn_on [] calls done w = some w
turn_on (current ∷ rest) calls done w =
    at (w.states current) (λ s. processed current calls done s.kind (record w { worklist = rest }))

-- One round of the loop of `run`, where `process` makes these calls and returns `done`. `none` is
-- an exception of `state`, or the assertion.
unfoldable pub turn : List Call → Bool → NodeWorker → Option NodeWorker
turn calls done w = turn_on w.worklist calls done w

-- `run`, for at most so many rounds: what `process` does may keep it going for ever. A round with
-- an empty worklist changes nothing.
unfoldable pub run : ℕ → (NodeWorker → List Call × Bool) → NodeWorker → Option NodeWorker
run zero process w = some w
run (suc fuel) process w = elim (turn (process w).0 (process w).1 w) [
  | none ↦ none
  | some v ↦ run fuel process v
]

abbrev pub empty : NodeWorker
empty = record { states = λ n. none; worklist = [] }

-- The workers that a client meets: nodes are added, and rounds of `run` are made, whatever the
-- calls in them for the node of the round.
pub data IsReached : NodeWorker → Type 0 where
  created : IsReached empty
  added_node : (n : ℕ) (w : NodeWorker) → IsReached w → IsReached (add n w)
  turned :
      (calls : List Call) (done : Bool) (w v : NodeWorker)
      → IsReached w
      → turn calls done w ≡ some v
      → IsReached v

-- ===== src/NodeWorker/Samples.antt =====
-- A concrete run.
use trieste.Prelude.{ℕ, ◌≡◌, refl, true, false, Option, none, some, List, [], ◌∷◌}
use trieste.NodeWorker.{
  WorkerStatus, active, blocked, NodeWorker, kind_of, add, block_on, block_each, block_on_all, wake,
  unblock_dependents, perform, performs, turn, run, blocks_on_all, empty, IsReached, created,
  added_node,
}
use trieste.NodeWorker.Invariant.{IsValid}
use trieste.NodeWorker.Rounds.{turn-IsReached, run-IsReached}

turn-IsReached_example :
    IsValid (add 1 empty)
    × ((v : NodeWorker) × (turn (blocks_on_all (2 ∷ 3 ∷ []) ∷ []) false (add 1 empty) ≡ some v)
        × IsReached v)
turn-IsReached_example =
    turn-IsReached (blocks_on_all (2 ∷ 3 ∷ []) ∷ []) false (add 1 empty)
      (added_node 1 empty created)

run-IsReached_example :
    (v : NodeWorker) × (run 5 (λ w. (blocks_on_all [] ∷ [], true)) (add 1 empty) ≡ some v)
    × IsReached v
run-IsReached_example =
    run-IsReached 5 (λ w. (blocks_on_all [] ∷ [], true)) (add 1 empty) (added_node 1 empty created)

abbrev seen : Option NodeWorker → Option (List ℕ × WorkerStatus)
seen none = none
seen (some w) = some (w.worklist, kind_of (w.states 1))

abbrev next_turn : Option NodeWorker → Option NodeWorker
next_turn none = none
next_turn (some w) = turn [] true w

-- A node that blocks on the same origin twice is not woken when the origin is resolved: the count
-- is of origins and the dependents are a set.
origin_twice :
    seen (next_turn (turn (blocks_on_all (2 ∷ 2 ∷ []) ∷ []) false (add 1 empty)))
    ≡ some ([], blocked)
unfolding turn performs perform block_on_all block_each block_on add wake unblock_dependents
origin_twice = refl

-- With one mention of it, the node is woken.
origin_once :
    seen (next_turn (turn (blocks_on_all (2 ∷ []) ∷ []) false (add 1 empty)))
    ≡ some (1 ∷ [], active)
unfolding turn performs perform block_on_all block_each block_on add wake unblock_dependents
origin_once = refl

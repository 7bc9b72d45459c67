-- ===== src/NodeWorker/Rounds.antt =====
-- No round of `run` (include/trieste/nodeworker.h) throws or fails its assertion, whatever calls
-- `process` makes for its node.
use trieste.Prelude.{
  ℕ, zero, suc, ◌+◌, ◌≤◌, ◌<◌, ◌≡◌, refl, sym, ap, ◌∙◌, subst, Bool, true, Option, none, some, List,
  [], ◌∷◌, All, ==_refl, if◌then◌else◌, arith,
}
use trieste.NodeWorker.{
  WorkerStatus, uninitialized, active, blocked, resolved, NodeWorkerState, NodeWorker, kind_of, at,
  Call, performs, concluded, processed, turn_on, turn, run, IsReached, created, added_node, turned,
}
use trieste.NodeWorker.Invariant.{
  times, room, begun, is_known, deps_of, Known, IsValid, IsBusy, add-IsValid, Known-some,
}
use trieste.NodeWorker.Runs.{performs-IsBusy, concluded-IsValid}

room-pos : (k : WorkerStatus) → 0 < room k → k ≡ active
room-pos uninitialized h = absurd (omega arith)
room-pos active h = refl
room-pos blocked h = absurd (omega arith)
room-pos resolved h = absurd (omega arith)

active-Known :
    (o : Option NodeWorkerState)
    → kind_of o ≡ active
    → (is_known o ≡ true) × (begun (kind_of o) ≡ true)
active-Known none h = absurd (cc)
active-Known (some s) h = (refl, ap begun h)

-- The front of a worklist that fits is active, and is in it no more once it is taken off.
front-IsBusy :
    (c : ℕ) (rest : List ℕ) (w : NodeWorker)
    → ((n : ℕ) → times n (c ∷ rest) ≤ room (kind_of (w.states n)))
    → ((n : ℕ) → All (Known w) (deps_of (w.states n)))
    → (kind_of (w.states c) ≡ active) × IsBusy c (record w { worklist = rest })
front-IsBusy c rest w f g = (
  is_active,
  (
    (λ n. less n, g),
    gone,
    (active-Known (w.states c) is_active).0,
    (active-Known (w.states c) is_active).1,
  ),
)
  where
    first : 1 + times c rest ≤ room (kind_of (w.states c))
    first =
        subst (λ b. (if b then 1 else 0) + times c rest ≤ room (kind_of (w.states c))) (==_refl c)
          (f c)

    is_active : kind_of (w.states c) ≡ active
    is_active = room-pos (kind_of (w.states c)) (omega (arith, first))

    gone : times c rest ≡ 0
    gone = omega (arith, first, ap room is_active)

    less : (n : ℕ) → times n rest ≤ room (kind_of (w.states n))
    less n = omega (arith, f n)

processed-active :
    (c : ℕ) (calls : List Call) (done : Bool) (w v : NodeWorker)
    → performs c calls w ≡ some v
    → processed c calls done active w ≡ concluded c done v
processed-active c calls done w v h = rw (h, processed) refl

turn_on-IsValid :
    (ws : List ℕ) (calls : List Call) (done : Bool) (w : NodeWorker)
    → IsValid w
    → ((n : ℕ) → times n ws ≤ room (kind_of (w.states n)))
    → (v : NodeWorker) × (turn_on ws calls done w ≡ some v) × IsValid v
turn_on-IsValid [] calls done w valid f = (w, refl, valid)
turn_on-IsValid (c ∷ rest) calls done w (_, g) f =
    let (is_active, busy) = front-IsBusy c rest w f g in
    let (s, e) = Known-some w c (active-Known (w.states c) is_active).0 in
    let (v, e2, busy2) = performs-IsBusy c calls (record w { worklist = rest }) busy in
    let (u, e3, valid) = concluded-IsValid c done v busy2 in
    (
      u,
      ap (λ t. at t (λ s. processed c calls done s.kind (record w { worklist = rest }))) e
          ∙ ap (λ k. processed c calls done k (record w { worklist = rest }))
              (subst (λ t. kind_of t ≡ active) e is_active)
          ∙ processed-active c calls done (record w { worklist = rest }) v e2
          ∙ e3,
      valid,
    )

turn-IsValid :
    (calls : List Call) (done : Bool) (w : NodeWorker)
    → IsValid w
    → (v : NodeWorker) × (turn calls done w ≡ some v) × IsValid v
unfolding turn
turn-IsValid calls done w valid = turn_on-IsValid w.worklist calls done w valid valid.0

some_injective : (v u : NodeWorker) → some v ≡ some u → v ≡ u
some_injective v u e = ap get e
  where
    get : Option NodeWorker → NodeWorker
    get none = v
    get (some x) = x

reached-IsValid : (w : NodeWorker) → IsReached w → IsValid w
reached-IsValid w created = (λ n. omega arith, λ n. tt)
reached-IsValid w (added_node n u r) = (add-IsValid n u (reached-IsValid u r)).0
reached-IsValid w (turned calls done u v r e) =
    let (x, e2, valid) = turn-IsValid calls done u (reached-IsValid u r) in
    subst IsValid (some_injective x v (sym e2 ∙ e)) valid

-- In every worker that a client meets, a node in the worklist is active and stands in it once, and
-- every dependent is a node that was added; so the next round of `run`, whatever calls `process`
-- makes for its node, throws nothing, passes the assertion, and ends in such a worker.
pub turn-IsReached :
    (calls : List Call) (done : Bool) (w : NodeWorker)
    → IsReached w
    → IsValid w × ((v : NodeWorker) × (turn calls done w ≡ some v) × IsReached v)
turn-IsReached calls done w r =
    let valid = reached-IsValid w r in
    let (v, e, _) = turn-IsValid calls done w valid in (valid, (v, e, turned calls done w v r e))

-- However many rounds `run` makes, and whatever nodes `process` adds in them, and blocks the node on
-- that it is given, by any of the three functions, none throws or fails its assertion, and a client
-- meets the worker after them. A `process` that blocks another node than its own is not covered.
pub run-IsReached :
    (fuel : ℕ) (process : NodeWorker → List Call × Bool) (w : NodeWorker)
    → IsReached w
    → (v : NodeWorker) × (run fuel process w ≡ some v) × IsReached v
unfolding run
run-IsReached zero process w r = (w, refl, r)
run-IsReached (suc fuel) process w r =
    let (_, (v, e, r2)) = turn-IsReached (process w).0 (process w).1 w r in
    let (u, e2, r3) = run-IsReached fuel process v r2 in (u, rw (e, run) e2, r3)

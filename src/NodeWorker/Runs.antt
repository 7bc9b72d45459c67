-- ===== src/NodeWorker/Runs.antt =====
-- The calls of `process`, and the waking of the dependents, keep a worker valid.
use trieste.Prelude.{
  ℕ, zero, suc, ◌≤◌, ◌≡◌, refl, ap, ◌∙◌, subst, Bool, true, false, some, List, [], ◌∷◌, All,
  if◌then◌else◌, arith,
}
use trieste.NodeWorker.{
  WorkerStatus, uninitialized, active, blocked, resolved, NodeWorkerState, NodeWorker, kind_of, put,
  with_kind, add, counted_in, block_each, waiting_count, set_count, all_counted, block_on_all,
  any_counted, block_on_any, woken_as, woken, wake, cleared, unblock_dependents, Call, adds,
  blocks_on, blocks_on_all, blocks_on_any, worker_of, perform, performs, concluded,
}
use trieste.NodeWorker.Invariant.{
  times, room, begun, deps_of, Known, IsValid, IsBusy, All-weaken, put-Known, put-IsValid,
  activated-IsValid, add-IsBusy, Known-some, put-IsBusy, block_on-IsBusy,
}

block_each-IsBusy :
    (c : ℕ) (os : List ℕ) (w : NodeWorker)
    → IsBusy c w
    → (n : ℕ) × (v : NodeWorker) × (block_each c os w ≡ some (n, v)) × IsBusy c v
unfolding block_each
block_each-IsBusy c [] w busy = (0, w, refl, busy)
block_each-IsBusy c (o ∷ os) w busy =
    let (b, v, e, busy2) = block_on-IsBusy c o w busy in
    let (n, u, e2, busy3) = block_each-IsBusy c os v busy2 in
    ((if b then suc n else n), u, rw (e, block_each) (ap (counted_in b) e2 ∙ counts b n u), busy3)
  where
    counts :
        (b : Bool) (n : ℕ) (u : NodeWorker)
        → counted_in b (some (n, u)) ≡ some ((if b then suc n else n), u)
    counts true n u = refl
    counts false n u = refl

-- A new count leaves the worker as good as it was.
set_count-IsBusy :
    (c k : ℕ) (s : NodeWorkerState) (w : NodeWorker)
    → IsBusy c w
    → w.states c ≡ some s
    → IsBusy c (put c (set_count k s) w)
set_count-IsBusy c k s w busy e =
    let (valid, z, kc, b) = busy in
    put-IsBusy c c (set_count k s) w busy
      (subst (λ t. times c w.worklist ≤ room (kind_of t)) e (valid.0 c))
      (subst (λ t. All (Known w) (deps_of t)) e (valid.1 c))
      (λ q. subst (λ t. begun (kind_of t) ≡ true) e b)

block_on_all-each :
    (c n : ℕ) (os : List ℕ) (w v : NodeWorker)
    → block_each c os w ≡ some (n, v)
    → block_on_all c os w ≡ all_counted c (n, v)
unfolding block_on_all
block_on_all-each c n os w v h = rw (h, block_on_all) refl

block_on_any-each :
    (c n : ℕ) (os : List ℕ) (w v : NodeWorker)
    → block_each c os w ≡ some (n, v)
    → block_on_any c os w ≡ any_counted c (n, v)
unfolding block_on_any
block_on_any-each c n os w v h = rw (h, block_on_any) refl

perform-IsBusy :
    (c : ℕ) (call : Call) (w : NodeWorker)
    → IsBusy c w
    → (v : NodeWorker) × (perform c call w ≡ some v) × IsBusy c v
unfolding perform
perform-IsBusy c (adds n) w busy = (add n w, refl, add-IsBusy c n w busy)
perform-IsBusy c (blocks_on o) w busy =
    let (b, v, e, busy2) = block_on-IsBusy c o w busy in (v, rw e refl, busy2)
perform-IsBusy c (blocks_on_all os) w busy =
    let (n, v, e, busy2) = block_each-IsBusy c os w busy in
    let (u, e2, busy3) = counted n v busy2 in
    (u, ap worker_of (block_on_all-each c n os w v e) ∙ e2, busy3)
  where
    counted :
        (n : ℕ) (v : NodeWorker)
        → IsBusy c v
        → (u : NodeWorker) × (worker_of (all_counted c (n, v)) ≡ some u) × IsBusy c u
    counted zero v busy = (v, refl, busy)
    counted (suc n) v busy =
        let (s, e) = Known-some v c busy.2 in
        (
          put c (set_count (waiting_count (suc n) s.blocked_on_count) s) v,
          rw e refl,
          set_count-IsBusy c (waiting_count (suc n) s.blocked_on_count) s v busy e,
        )
perform-IsBusy c (blocks_on_any os) w busy =
    let (n, v, e, busy2) = block_each-IsBusy c os w busy in
    let (s, e2) = Known-some v c busy2.2 in
    (
      put c (set_count 0 s) v,
      ap worker_of (block_on_any-each c n os w v e) ∙ rw e2 refl,
      set_count-IsBusy c 0 s v busy2 e2,
    )

pub performs-IsBusy :
    (c : ℕ) (calls : List Call) (w : NodeWorker)
    → IsBusy c w
    → (v : NodeWorker) × (performs c calls w ≡ some v) × IsBusy c v
unfolding performs
performs-IsBusy c [] w busy = (w, refl, busy)
performs-IsBusy c (call ∷ calls) w busy =
    let (v, e, busy2) = perform-IsBusy c call w busy in
    let (u, e2, busy3) = performs-IsBusy c calls v busy2 in (u, rw (e, performs) e2, busy3)

-- Waking a known node: an active or a resolved one is passed over.
woken_as-IsValid :
    (k : WorkerStatus) (n d : ℕ) (s : NodeWorkerState) (w : NodeWorker)
    → IsValid w
    → times d w.worklist ≤ room k
    → times d w.worklist ≤ room s.kind
    → All (Known w) s.dependents
    → IsValid (woken_as k n d s w) × ((m : ℕ) → Known w m → Known (woken_as k n d s w) m)
woken_as-IsValid uninitialized n d s w v p q a = (v, λ m h. h)
woken_as-IsValid active n d s w v p q a = (v, λ m h. h)
woken_as-IsValid resolved n d s w v p q a = (v, λ m h. h)
woken_as-IsValid blocked zero d s w v p q a =
    (activated-IsValid d s w v (omega arith) a, put-Known d (with_kind active s) w)
woken_as-IsValid blocked (suc n) d s w v p q a =
    (put-IsValid d (set_count n s) w v q a, put-Known d (set_count n s) w)

woken-IsValid :
    (d : ℕ) (s : NodeWorkerState) (w : NodeWorker)
    → IsValid w
    → w.states d ≡ some s
    → IsValid (woken d s w) × ((n : ℕ) → Known w n → Known (woken d s w) n)
woken-IsValid d s w v e =
    let fits = subst (λ t. times d w.worklist ≤ room (kind_of t)) e (v.0 d) in
    woken_as-IsValid s.kind s.blocked_on_count d s w v fits fits
      (subst (λ t. All (Known w) (deps_of t)) e (v.1 d))

wake-IsValid :
    (ds : List ℕ) (w : NodeWorker)
    → IsValid w
    → All (Known w) ds
    → (v : NodeWorker) × (wake ds w ≡ some v) × IsValid v × ((n : ℕ) → Known w n → Known v n)
unfolding wake
wake-IsValid [] w valid ks = (w, refl, valid, λ n k. k)
wake-IsValid (d ∷ ds) w valid (k, ks) =
    let (s, e) = Known-some w d k in
    let (valid2, grows) = woken-IsValid d s w valid e in
    let (v, e2, valid3, grows2) =
      wake-IsValid ds (woken d s w) valid2
        (All-weaken (Known w) (Known (woken d s w)) ds grows ks) in
    (v, rw (e, wake) e2, valid3, λ n l. grows2 n (grows n l))

unblock_dependents-IsValid :
    (o : ℕ) (w : NodeWorker)
    → IsValid w
    → Known w o
    → (v : NodeWorker) × (unblock_dependents o w ≡ some v) × IsValid v
unfolding unblock_dependents
unblock_dependents-IsValid o w valid ko =
    let (s, e) = Known-some w o ko in
    let (v, e2, valid2, grows) =
      wake-IsValid s.dependents w valid (subst (λ t. All (Known w) (deps_of t)) e (valid.1 o)) in
    let (t, e3) = Known-some v o (grows o ko) in
    (
      put o (cleared t) v,
      rw (e, e2, e3) refl,
      put-IsValid o (cleared t) v valid2
          (subst (λ u. times o v.worklist ≤ room (kind_of u)) e3 (valid2.0 o)) tt,
    )

pub concluded-IsValid :
    (c : ℕ) (done : Bool) (w : NodeWorker)
    → IsBusy c w
    → (v : NodeWorker) × (concluded c done w ≡ some v) × IsValid v
concluded-IsValid c false w busy = (w, refl, busy.0)
concluded-IsValid c true w (valid, z, kc, b) =
    let (s, e) = Known-some w c kc in
    let over =
      put-IsValid c (with_kind resolved s) w valid (omega arith)
        (subst (λ t. All (Known w) (deps_of t)) e (valid.1 c)) in
    let (v, e2, valid2) =
      unblock_dependents-IsValid c (put c (with_kind resolved s) w) over
        (put-Known c (with_kind resolved s) w c kc) in
    (v, rw e e2, valid2)

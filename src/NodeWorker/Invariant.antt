-- ===== src/NodeWorker/Invariant.antt =====
-- A node in the worklist is active and stands in it once, and every node that waits is known; so
-- `run` never throws and its assertion holds.
use trieste.Prelude.{
  ℕ, ◌+◌, ◌≤◌, ◌≡◌, ◌⊎◌, refl, sym, ap, ◌∙◌, subst, Bool, true, false, Option, none, some, List, [],
  ◌∷◌, ◌++◌, All, ◌==◌, ==_iff, ==_refl, if◌then◌else◌, elem, Bool-cases, inl, inr, arith,
}
use trieste.NodeWorker.{
  WorkerStatus, uninitialized, active, blocked, resolved, NodeWorkerState, NodeWorker, kind_of,
  is_resolved, put, with_kind, activated, added, add, insert, waits_for, block_on,
}

abbrev pub times : ℕ → List ℕ → ℕ
times n [] = 0
times n (m ∷ ms) = (if n == m then 1 else 0) + times n ms

abbrev pub room : WorkerStatus → ℕ
room active = 1
room uninitialized = 0
room blocked = 0
room resolved = 0

abbrev pub begun : WorkerStatus → Bool
begun uninitialized = false
begun active = true
begun blocked = true
begun resolved = true

abbrev pub is_known : Option NodeWorkerState → Bool
is_known none = false
is_known (some s) = true

abbrev pub deps_of : Option NodeWorkerState → List ℕ
deps_of none = []
deps_of (some s) = s.dependents

abbrev pub Known : NodeWorker → ℕ → Type 0
Known w n = is_known (w.states n) ≡ true

abbrev pub IsValid : NodeWorker → Type 0
IsValid w =
    ((n : ℕ) → times n w.worklist ≤ room (kind_of (w.states n)))
    × ((n : ℕ) → All (Known w) (deps_of (w.states n)))

-- While a node is processed it is not in the worklist.
abbrev pub IsBusy : ℕ → NodeWorker → Type 0
IsBusy c w =
    IsValid w × (times c w.worklist ≡ 0) × (Known w c) × (begun (kind_of (w.states c)) ≡ true)

pub All-weaken : (P Q : ℕ → Type 0) (xs : List ℕ) → ((n : ℕ) → P n → Q n) → All P xs → All Q xs
All-weaken P Q [] f a = tt
All-weaken P Q (x ∷ xs) f (p, a) = (f x p, All-weaken P Q xs f a)

times-append :
    (n m : ℕ) (xs : List ℕ) → times n (xs ++ m ∷ []) ≡ times n xs + (if n == m then 1 else 0)
times-append n m [] = omega arith
times-append n m (x ∷ xs) = omega (arith, times-append n m xs)

pub put-Known :
    (n : ℕ) (s : NodeWorkerState) (w : NodeWorker) (d : ℕ) → Known w d → Known (put n s w) d
put-Known n s w d k = elim (Bool-cases (d == n)) [ inl h ↦ rw h refl | inr h ↦ rw h k ]

pub put-IsValid :
    (n : ℕ) (s : NodeWorkerState) (w : NodeWorker)
    → IsValid w
    → times n w.worklist ≤ room s.kind
    → All (Known w) s.dependents
    → IsValid (put n s w)
put-IsValid n s w (f, g) le a = (
  (λ m. elim (Bool-cases (m == n)) [
    | inl h ↦ rw h (subst (λ (t : ℕ). times t w.worklist ≤ room s.kind) (sym ((==_iff m n).0 h)) le)
    | inr h ↦ rw h (f m)
  ]),
  λ m. elim (Bool-cases (m == n)) [
    | inl h ↦ rw h (All-weaken _ _ s.dependents (put-Known n s w) a)
    | inr h ↦ rw h (All-weaken _ _ (deps_of (w.states m)) (put-Known n s w) (g m))
  ],
)

pub activated-IsValid :
    (n : ℕ) (s : NodeWorkerState) (w : NodeWorker)
    → IsValid w
    → times n w.worklist ≡ 0
    → All (Known w) s.dependents
    → IsValid (activated n s w)
activated-IsValid n s w (f, g) z a = (
  (λ m. elim (Bool-cases (m == n)) [
    | inl h ↦
        rw (times-append m n w.worklist, h)
          (omega (arith, ap (λ (t : ℕ). times t w.worklist) ((==_iff m n).0 h)))
    | inr h ↦ rw (times-append m n w.worklist, h) (omega (arith, f m))
  ]),
  λ m. elim (Bool-cases (m == n)) [
    | inl h ↦ rw h (All-weaken _ _ s.dependents (put-Known n (with_kind active s) w) a)
    | inr h ↦
        rw h (All-weaken _ _ (deps_of (w.states m)) (put-Known n (with_kind active s) w) (g m))
  ],
)

-- `add` changes nothing for a node that it has seen.
added-cases :
    (n : ℕ) (o : Option NodeWorkerState) (w : NodeWorker)
    → ((added n o w ≡ w) × (begun (kind_of o) ≡ true) × (is_known o ≡ true))
      ⊎ ((s : NodeWorkerState) × (added n o w ≡ activated n s w)
          × (kind_of o ≡ uninitialized)
          × (s.dependents ≡ deps_of o))
added-cases n none w =
    inr (record { kind = uninitialized; blocked_on_count = 0; dependents = [] }, refl, refl, refl)
added-cases n (some s) w = kinds s.kind refl
  where
    kinds :
        (k : WorkerStatus)
        → s.kind ≡ k
        → ((added n (some s) w ≡ w)
            × (begun (kind_of (some s)) ≡ true)
            × (is_known (some s) ≡ true))
          ⊎ ((t : NodeWorkerState) × (added n (some s) w ≡ activated n t w)
              × (kind_of (some s) ≡ uninitialized)
              × (t.dependents ≡ deps_of (some s)))
    kinds uninitialized e = inr (s, rw e refl, e, refl)
    kinds active e = inl (rw e refl, rw e refl, refl)
    kinds blocked e = inl (rw e refl, rw e refl, refl)
    kinds resolved e = inl (rw e refl, rw e refl, refl)

pub add-IsValid : (n : ℕ) (w : NodeWorker) → IsValid w → IsValid (add n w) × Known (add n w) n
unfolding add
add-IsValid n w v = elim (added-cases n (w.states n) w) [
  | inl (e, b, k) ↦ rw e (v, k)
  | inr (s, e, u, d) ↦ rw e (
    activated-IsValid n s w v
        (none_there (times n w.worklist) (subst (λ k. times n w.worklist ≤ room k) u (v.0 n)))
        (subst (All (Known w)) (sym d) (v.1 n)),
    rw (==_refl n) refl,
  )
]
  where
    none_there : (a : ℕ) → a ≤ 0 → a ≡ 0
    none_there a le = omega arith

pub add-IsBusy : (c n : ℕ) (w : NodeWorker) → IsBusy c w → IsBusy c (add n w)
unfolding add
add-IsBusy c n w (v, z, k, b) = ((add-IsValid n w v).0, kept.0, kept.1, kept.2)
  where
    never : kind_of (w.states c) ≡ uninitialized → ⊥
    never u = false_true (sym (ap begun u) ∙ b)
      where
        false_true : false ≡ true → ⊥
        false_true e = cc

    kept :
        (times c (add n w).worklist ≡ 0)
        × (Known (add n w) c)
        × (begun (kind_of ((add n w).states c)) ≡ true)
    kept = elim (added-cases n (w.states n) w) [
      | inl (e, _, _) ↦ rw e (z, k, b)
      | inr (s, e, u, d) ↦ rw e (elim (Bool-cases (c == n)) [
        | inl h ↦
            absurd
              (never (subst (λ t. kind_of (w.states t) ≡ uninitialized) (sym ((==_iff c n).0 h)) u))
        | inr h ↦ rw (times-append c n w.worklist, h) (omega arith, k, b)
      ])
    ]

pub Known-some :
    (w : NodeWorker) (n : ℕ) → Known w n → (s : NodeWorkerState) × (w.states n ≡ some s)
Known-some w n k = from (w.states n) k
  where
    from : (o : Option NodeWorkerState) → is_known o ≡ true → (s : NodeWorkerState) × (o ≡ some s)
    from none k = absurd (cc)
    from (some s) k = (s, refl)

insert-All : (P : ℕ → Type 0) (a : ℕ) (xs : List ℕ) → P a → All P xs → All P (insert a xs)
insert-All P a xs p ps = elim (Bool-cases (elem a xs)) [ inl h ↦ rw h ps | inr h ↦ rw h (p, ps) ]

pub put-IsBusy :
    (c n : ℕ) (s : NodeWorkerState) (w : NodeWorker)
    → IsBusy c w
    → times n w.worklist ≤ room s.kind
    → All (Known w) s.dependents
    → (c ≡ n → begun s.kind ≡ true)
    → IsBusy c (put n s w)
put-IsBusy c n s w (v, z, k, b) le a g = (
  put-IsValid n s w v le a,
  z,
  put-Known n s w c k,
  elim (Bool-cases (c == n)) [ inl h ↦ rw h (g ((==_iff c n).0 h)) | inr h ↦ rw h b ],
)

-- To block on a known origin.
waits_for-IsBusy :
    (c o : ℕ) (w : NodeWorker)
    → IsBusy c w
    → Known w o
    → (v : NodeWorker) × (waits_for c o w ≡ some (true, v)) × IsBusy c v
waits_for-IsBusy c o w busy ko =
    let (valid, z, kc, b) = busy in
    let (s, e) = Known-some w o ko in
    let s2 : NodeWorkerState = record s { dependents = insert c s.dependents } in
    let busy2 =
      put-IsBusy c o s2 w busy (subst (λ t. times o w.worklist ≤ room (kind_of t)) e (valid.0 o))
        (insert-All (Known w) c s.dependents kc
          (subst (λ t. All (Known w) (deps_of t)) e (valid.1 o)))
        (λ q.
          subst (λ t. begun (kind_of t) ≡ true) e
            (subst (λ t. begun (kind_of (w.states t)) ≡ true) q b)) in
    let (valid2, z2, kc2, b2) = busy2 in
    let (t, e2) = Known-some (put o s2 w) c kc2 in
    (
      put c (with_kind blocked t) (put o s2 w),
      rw (e, e2) refl,
      put-IsBusy c c (with_kind blocked t) (put o s2 w) busy2 (omega (arith, z2))
          (subst (λ u. All (Known (put o s2 w)) (deps_of u)) e2 (valid2.1 c)) (λ q. refl),
    )

pub block_on-IsBusy :
    (c o : ℕ) (w : NodeWorker)
    → IsBusy c w
    → (b : Bool) × (v : NodeWorker) × (block_on c o w ≡ some (b, v)) × IsBusy c v
unfolding block_on
block_on-IsBusy c o w busy =
    let busy2 = add-IsBusy c o w busy in
    elim (Bool-cases (is_resolved (add o w) o)) [
      | inl h ↦ (false, add o w, rw h refl, busy2)
      | inr h ↦
          let (v, e, busy3) = waits_for-IsBusy c o (add o w) busy2 (add-IsValid o w busy.0).1 in
          (true, v, rw h e, busy3)
    ]

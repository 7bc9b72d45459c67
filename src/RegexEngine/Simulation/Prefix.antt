-- ===== src/RegexEngine/Simulation/Prefix.antt =====
-- The matching loop of include/trieste/regex_engine.h (`find_prefix`): it keeps the states under way,
-- and the end of the longest match so far.
use trieste.Prelude.{
  ℕ, zero, suc, ◌+◌, ◌≤◌, ◌<◌, ◌≡◌, refl, sym, ap, ◌∙◌, subst, Bool, true, false, ◌&&◌, Option,
  none, some, List, [], ◌∷◌, get_elem?, elem, arith, inl, inr, ◌↔◌, Bool-cases, ltb, ◌==◌,
}
use trieste.RuneClass.{RuneClass}
use trieste.RegexEngine.{StateDef, accept_state}
use trieste.RegexEngine.Syntax.{Flags}
use trieste.RegexEngine.Simulation.{
  Engine, accepts, step, is_match, is_word_char, Text, starts_word, flags_before, better,
  prefix_loop,
}
use trieste.RegexEngine.Simulation.Sets.{Enters, IsReady}
use trieste.RegexEngine.Simulation.Steps.{step-Moves}
use trieste.RegexEngine.Simulation.Alive.{Alive, begin, later}

-- What each position of a text is like, with the rune before the text and whether it starts there.
unfoldable pub flags_of_text : Bool → Bool → Text → ℕ → Flags
flags_of_text prev_is_word at_start text zero = flags_before true prev_is_word at_start text
flags_of_text prev_is_word at_start [] (suc p) = flags_before true false false []
flags_of_text prev_is_word at_start ((r, n) ∷ text) (suc p) =
    flags_of_text (is_word_char r) false text p

-- Whether a label accepts the rune at a position.
unfoldable pub reads_of_text : List RuneClass → Text → ℕ → ℕ → Bool
reads_of_text classes [] c p = false
reads_of_text classes ((r, n) ∷ text) c zero = accepts classes c r
reads_of_text classes ((r, n) ∷ text) c (suc p) = reads_of_text classes text c p

-- The bytes before a position.
unfoldable pub bytes_before : Text → ℕ → ℕ
bytes_before text zero = 0
bytes_before [] (suc p) = 0
bytes_before ((r, n) ∷ text) (suc p) = n + bytes_before text p

module _ (flags : ℕ → Flags) (reads : ℕ → ℕ → Bool) (bytes : ℕ → ℕ) (e : Engine)
    (ready : IsReady e) where
  abbrev Under : ℕ → ℕ → Type 0
  Under p u = Alive flags reads e.owned_states e.start_state p u

  -- The list holds the states under way.
  abbrev pub Holds : ℕ → List ℕ → Type 0
  Holds p current = (u : ℕ) → (elem u current ≡ true) ↔ Under p u

  -- The rest of the text, after `p` runes and `pos` bytes.
  pub record IsRest (p pos : ℕ) (w at_start : Bool) (rest : Text) : Type 0 where
    pub flagged : (k : ℕ) → flags (p + k) ≡ flags_of_text w at_start rest k
    pub reading : (c k : ℕ) → reads c (p + k) ≡ reads_of_text e.rune_classes rest c k
    pub counted : (k : ℕ) → bytes (p + k) ≡ pos + bytes_before rest k

  IsRest-next :
      (p pos : ℕ) (w at_start : Bool) (r n : ℕ) (rest : Text)
      → IsRest p pos w at_start ((r, n) ∷ rest)
      → IsRest (suc p) (pos + n) (is_word_char r) false rest
  unfolding flags_of_text reads_of_text bytes_before
  IsRest-next p pos w at_start r n rest x = record {
    flagged = λ k. let s : suc p + k ≡ p + suc k = omega arith in rw s (x.flagged (suc k));
    reading = λ c k. let s : suc p + k ≡ p + suc k = omega arith in rw s (x.reading c (suc k));
    counted =
        λ k. let s : suc p + k ≡ p + suc k = omega arith in rw s (omega (arith, x.counted (suc k)));
  }

  -- The end of the longest match among the positions up to `p`.
  abbrev pub Best : ℕ → Option ℕ → Type 0
  Best p none = (q : ℕ) → q ≤ p → Under q accept_state → ⊥
  Best p (some b) =
      (q : ℕ) × (q ≤ p)
      × (b ≡ bytes q)
      × Under q accept_state
      × ((k : ℕ) → q < k → k ≤ p → Under k accept_state → ⊥)

  -- With no limit on the positions.
  abbrev pub Longest : Option ℕ → Type 0
  Longest none = (q : ℕ) → Under q accept_state → ⊥
  Longest (some b) =
      (q : ℕ) × (b ≡ bytes q) × Under q accept_state × ((k : ℕ) → q < k → Under k accept_state → ⊥)

  none_after : (p q u : ℕ) → p ≤ q → ((t : ℕ) → Under p t → ⊥) → Under q u → ⊥
  none_after p q u h dead (begin z x) =
      let same : p ≡ q = omega (arith, z) in dead u (rw same (begin z x))
  none_after p q u h dead (later {p = m} {s = s} z a at r l k) = elim (Bool-cases (ltb m p)) [
    | inl c ↦ let same : p ≡ q = ground arith in dead u (rw same (later z a at r l k))
    | inr c ↦ none_after p m s (ground arith) dead a
  ]

  Best-Longest : (p : ℕ) (o : Option ℕ) → Best p o → ((t : ℕ) → Under (suc p) t → ⊥) → Longest o
  Best-Longest p none b dead = λ q a. elim (Bool-cases (ltb p q)) [
    | inl h ↦ none_after (suc p) q accept_state (ground arith) dead a
    | inr h ↦ b q (ground arith) a
  ]
  Best-Longest p (some x) (q, l, e, a, top) dead = (
    q,
    e,
    a,
    λ k h c. elim (Bool-cases (ltb p k)) [
      | inl g ↦ none_after (suc p) k accept_state (ground arith) dead c
      | inr g ↦ top k h (ground arith) c
    ],
  )

  Best-better :
      (p : ℕ) (o : Option ℕ) (m : Bool) (b : ℕ)
      → b ≡ bytes (suc p)
      → (m ≡ true) ↔ Under (suc p) accept_state
      → Best p o
      → Best (suc p) (better m b o)
  Best-better p o true b e h x = (suc p, omega arith, e, h.0 refl, λ k l g a. absurd (omega arith))
  Best-better p none false b e h x = λ q l a. elim (Bool-cases (q == suc p)) [
    | inl c ↦
        let same : q ≡ suc p = ground arith in
        cc (h.1 (subst (λ (k : ℕ). Under k accept_state) same a))
    | inr c ↦ x q (ground arith) a
  ]
  Best-better p (some y) false b e h (q, l, z, a, top) = (
    q,
    omega arith,
    z,
    a,
    λ k g r c. elim (Bool-cases (k == suc p)) [
      | inl w ↦
          let same : k ≡ suc p = ground arith in
          cc (h.1 (subst (λ (j : ℕ). Under j accept_state) same c))
      | inr w ↦ top k g (ground arith) c
    ],
  )

  -- What is under way after one more rune was under way before it, and read it.
  record Read (p u : ℕ) : Type 0 where
    state : StateDef
    from : ℕ
    target : ℕ
    before : Under p from
    at : get_elem? e.owned_states from ≡ some state
    reading : reads state.label p ≡ true
    link : state.next ≡ some target
    enters : Enters (flags (suc p)) e.owned_states target u

  Read-back : (p u : ℕ) → Under (suc p) u → Read p u
  Read-back p u (begin z x) = absurd (omega (arith, z))
  Read-back p u (later {p = m} {s = s} {v = v} {x = y} z a at r l k) =
      let same : m ≡ p = omega (arith, z) in
      record {
        state = y;
        from = s;
        target = v;
        before = subst (λ (j : ℕ). Under j s) same a;
        at = at;
        reading = subst (λ (j : ℕ). reads y.label j ≡ true) same r;
        link = l;
        enters = k;
      }

  same_flags :
      (b : Bool) (w : Bool) (r n : ℕ) (rest : Text)
      → w ≡ (b && starts_word ((r, n) ∷ rest))
      → b ≡ true
      → flags_before b w false rest ≡ flags_before true (is_word_char r) false rest
  same_flags b w r n rest h g = let k : w ≡ is_word_char r = h ∙ rw g refl in rw (g, k) refl

  Holds-step :
      (p pos r n : ℕ) (w at_start next_is_word : Bool) (rest : Text) (current : List ℕ)
      → IsRest p pos w at_start ((r, n) ∷ rest)
      → next_is_word ≡ (e.has_conditionals && starts_word ((r, n) ∷ rest))
      → Holds p current
      → Holds (suc p) (step e r (flags_before e.has_conditionals next_is_word false rest) current)
  unfolding flags_of_text reads_of_text
  Holds-step p pos r n w at_start nw rest current x h hold u =
      let next = IsRest-next p pos w at_start r n rest x in
      let s : suc p + 0 ≡ suc p = omega arith in
      let z : p + 0 ≡ p = omega arith in
      let flagged : flags (suc p) ≡ flags_before true (is_word_char r) false rest =
        rw s at (next.flagged 0) in
      let reading : (c : ℕ) → reads c p ≡ accepts e.rune_classes c r =
        λ c. rw z at (x.reading c 0) in
      let moved =
        step-Moves e ready (flags_before e.has_conditionals nw false rest) (flags (suc p))
          (λ c. same_flags e.has_conditionals nw r n rest h c ∙ sym flagged) r current u in
      (
        λ m.
            let (t, k, y) = moved.0 m in
            later refl ((hold t).0 k) y.at (reading (y.state).label ∙ y.accepted) y.link y.enters,
        λ a.
            let b = Read-back p u a in
            moved.1 (
              b.from,
              (hold b.from).1 b.before,
              record {
                state = b.state;
                target = b.target;
                at = b.at;
                accepted = sym (reading (b.state).label) ∙ b.reading;
                link = b.link;
                enters = b.enters;
              },
            ),
      )

  pub prefix_loop-Longest :
      (text : Text) (current : List ℕ) (p pos : ℕ) (best : Option ℕ)
      (w at_start next_is_word : Bool)
      → IsRest p pos w at_start text
      → next_is_word ≡ (e.has_conditionals && starts_word text)
      → Holds p current
      → Best p best
      → Longest (prefix_loop e current pos best next_is_word text)
  unfolding prefix_loop reads_of_text bytes_before
  prefix_loop-Longest [] current p pos best w at_start nw x h hold b = Best-Longest p best b (λ t a.
      let y = Read-back p t a in
      let z : p + 0 ≡ p = omega arith in
      false_true (sym (x.reading (y.state).label 0) ∙ rw z y.reading))
    where
      false_true : false ≡ true → ⊥
      false_true k = cc
  prefix_loop-Longest ((r, n) ∷ rest) [] p pos best w at_start nw x h hold b =
      Best-Longest p best b
        (λ t a. let y = Read-back p t a in false_true ((hold y.from).1 y.before))
    where
      false_true : false ≡ true → ⊥
      false_true k = cc
  prefix_loop-Longest ((r, n) ∷ rest) (s ∷ current) p pos best w at_start nw x h hold b =
      let next = step e r (flags_before e.has_conditionals nw false rest) (s ∷ current) in
      let after = Holds-step p pos r n w at_start nw rest (s ∷ current) x h hold in
      let rested = IsRest-next p pos w at_start r n rest x in
      let z : suc p + 0 ≡ suc p = omega arith in
      let counted : pos + n ≡ bytes (suc p) = omega (arith, ap bytes z, rested.counted 0) in
      prefix_loop-Longest rest next (suc p) (pos + n) (better (is_match next) (pos + n) best)
        (is_word_char r) false (e.has_conditionals && starts_word rest) rested refl after
        (Best-better p best (is_match next) (pos + n) counted (after accept_state) b)

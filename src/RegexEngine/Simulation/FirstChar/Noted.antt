-- ===== src/RegexEngine/Simulation/FirstChar/Noted.antt =====
-- What `compute_first_char_info` of include/trieste/regex_engine.h keeps of each state of a closure.
use trieste.Prelude.{
  ℕ, ◌-◌, ◌≤◌, ◌<◌, ◌≡◌, refl, ◌∙◌, Bool, true, false, ◌||◌, ◌&&◌, not, Option, none, some, List,
  [], ◌∷◌, get_elem?, elem, ltb, leb, ◌==◌, if◌then◌else◌, arith, inl, inr, Bool-cases,
}
use trieste.RuneClass.{RuneRange, RuneClass, last_before, or_this, covered, search, contains}
use trieste.RuneClass.Bitmap.{bit_in, bit_in-bit_or}
use trieste.RegexEngine.{StateDef, accept_state, match_label}
use trieste.RegexEngine.Cache.{epsilon_closure_cached}
use trieste.RegexEngine.Simulation.{
  Engine, rune_class_base, is_class_ref, class_contains, ascii_accept, accepts,
}
use trieste.RegexEngine.Simulation.FirstChar.{
  FirstCharInfo, test, reaches_nonascii, class_nonascii, label_nonascii, with_label, note_label,
  note_state, note_closure, combo_flags, note_combos,
}

-- A later state takes nothing away.
record Grows (a b : FirstCharInfo) : Type 0 where
  tests : (r : ℕ) → test a r ≡ true → test b r ≡ true
  empty : a.can_match_empty ≡ true → b.can_match_empty ≡ true

Grows-trans : {a b c : FirstCharInfo} → Grows a b → Grows b c → Grows a c
Grows-trans x y = record {
  tests = λ r h. y.tests r (x.tests r h);
  empty = λ h. y.empty (x.empty h);
}

test-with_label :
    (low high : ℕ) (n : Bool) (info : FirstCharInfo) (r : ℕ)
    → test (with_label (low, high) n info) r
      ≡ (test info r || (if ltb r 128 then bit_in (low, high) r else n))
unfolding test
test-with_label low high n info r = elim (Bool-cases (ltb r 128)) [
  | inl h ↦ rw (h, test) (bit_in-bit_or info.low info.high low high r)
  | inr h ↦ rw (h, test) refl
]

nonascii_class :
    (r : ℕ) (xs : List RuneRange)
    → covered r (last_before r xs) ≡ true
    → 128 ≤ r
    → reaches_nonascii xs ≡ true
unfolding last_before reaches_nonascii
nonascii_class r [] g l = absurd (cc)
nonascii_class r (x ∷ xs) g l = elim (Bool-cases (ltb r x.lo)) [
  | inl h ↦ absurd (no_range (rw h at g))
  | inr h ↦ pick (last_before r xs) (nonascii_class r xs) (rw h at g)
]
  where
    no_range : false ≡ true → ⊥
    no_range e = cc

    pick :
        (o : Option RuneRange)
        → (covered r o ≡ true → 128 ≤ r → reaches_nonascii xs ≡ true)
        → covered r (or_this x o) ≡ true
        → (leb 128 x.hi || reaches_nonascii xs) ≡ true
    pick none rest e = ground arith
    pick (some y) rest e = ground (arith, rest e l)

nonascii_contains :
    (r : ℕ) (o : Option RuneClass)
    → class_contains o r ≡ true
    → ltb r 128 ≡ false
    → class_nonascii o ≡ true
unfolding contains search
nonascii_contains r none h l = absurd (cc)
nonascii_contains r (some c) h l = nonascii_class r c.ranges (rw (l, contains) at h) (ground arith)

-- What a label accepts, the information has from it.
accepts-noted :
    (classes : List RuneClass) (label r : ℕ)
    → accepts classes label r ≡ true
    → r < match_label
    → (if ltb r 128 then bit_in (ascii_accept classes label) r else label_nonascii classes label)
      ≡ true
unfolding accepts label_nonascii
accepts-noted classes label r h l = elim (Bool-cases (ltb r 128)) [
  | inl a ↦ rw a (rw a at h)
  | inr a ↦ rw a (other (rw a at h) a)
]
  where
    other :
        (if is_class_ref label
            then class_contains (get_elem? classes (label - rune_class_base)) r
            else label == r)
          ≡ true
        → ltb r 128 ≡ false
        → label_nonascii classes label ≡ true
    other k a = elim (Bool-cases (is_class_ref label)) [
      | inl b ↦
          rw (b, label_nonascii)
            (nonascii_contains r (get_elem? classes (label - rune_class_base)) (rw b at k) a)
      | inr b ↦ rw (b, label_nonascii) (literal (rw b at k) a)
    ]
      where
        literal :
            (label == r) ≡ true
            → ltb r 128 ≡ false
            → (leb 128 label && not (label == match_label)) ≡ true
        literal p q = ground arith

module _ (e : Engine) where
  -- What the information says of a state of a closure.
  pub record Shown (s : ℕ) (info : FirstCharInfo) : Type 0 where
    pub accepting : s ≡ accept_state → info.can_match_empty ≡ true
    pub reading :
        (r : ℕ) (x : StateDef)
        → (s == accept_state) ≡ false
        → get_elem? e.owned_states s ≡ some x
        → accepts e.rune_classes x.label r ≡ true
        → r < match_label
        → test info r ≡ true

  Shown-Grows : (s : ℕ) {a b : FirstCharInfo} → Grows a b → Shown s a → Shown s b
  Shown-Grows s g x = record {
    accepting = λ h. g.empty (x.accepting h);
    reading = λ r y h at k l. g.tests r (x.reading r y h at k l);
  }

  test-note_label :
      (s : StateDef) (info : FirstCharInfo) (r : ℕ)
      → test (note_label e.rune_classes (some s) info) r ≡ (
          test info r
          || (if ltb r 128
              then bit_in (ascii_accept e.rune_classes s.label) r
              else label_nonascii e.rune_classes s.label))
  test-note_label s info r =
      test-with_label (ascii_accept e.rune_classes s.label).0
        (ascii_accept e.rune_classes s.label).1 (label_nonascii e.rune_classes s.label) info r

  note_label-Grows :
      (o : Option StateDef) (info : FirstCharInfo) → Grows info (note_label e.rune_classes o info)
  note_label-Grows none info = record { tests = λ r h. h; empty = λ h. h }
  note_label-Grows (some s) info = record {
    tests = λ r h. test-note_label s info r ∙ rw h refl;
    empty = λ h. h;
  }

  note_state-Grows : (s : ℕ) (info : FirstCharInfo) → Grows info (note_state e s info)
  unfolding note_state test
  note_state-Grows s info = elim (Bool-cases (s == accept_state)) [
    | inl h ↦ rw (h, note_state) record { tests = λ r k. k; empty = λ k. refl }
    | inr h ↦ rw (h, note_state) (note_label-Grows (get_elem? e.owned_states s) info)
  ]

  note_state-Shown : (s : ℕ) (info : FirstCharInfo) → Shown s (note_state e s info)
  unfolding note_state
  note_state-Shown s info = record {
    accepting = λ h. let z : (s == accept_state) ≡ true = ground arith in rw z refl;
    reading = λ r x h at k l.
        rw (h, at)
          (test-note_label x info r
            ∙ or_right (test info r) (accepts-noted e.rune_classes x.label r k l));
  }
    where
      or_right : (a : Bool) {b : Bool} → b ≡ true → (a || b) ≡ true
      or_right a h = ground arith

  note_closure-Grows :
      (closure : List ℕ) (info : FirstCharInfo) → Grows info (note_closure e closure info)
  unfolding note_closure
  note_closure-Grows [] info = record { tests = λ r h. h; empty = λ h. h }
  note_closure-Grows (s ∷ closure) info =
      Grows-trans (note_state-Grows s info) (note_closure-Grows closure (note_state e s info))

  note_closure-Shown :
      (s : ℕ) (closure : List ℕ) (info : FirstCharInfo)
      → elem s closure ≡ true
      → Shown s (note_closure e closure info)
  unfolding note_closure
  note_closure-Shown s [] info h = absurd (cc)
  note_closure-Shown s (t ∷ closure) info h = elim (Bool-cases (s == t)) [
    | inl k ↦
        let same : s ≡ t = ground arith in
        Shown-Grows s (note_closure-Grows closure (note_state e t info))
          (rw same (note_state-Shown t info))
    | inr k ↦ note_closure-Shown s closure (note_state e t info) (ground arith)
  ]

  abbrev closure_for : ℕ → List ℕ
  closure_for combo =
      epsilon_closure_cached e.has_conditionals e.cache e.start_state
        (combo_flags e.has_conditionals combo)

  note_combos-Grows : (cs : List ℕ) (info : FirstCharInfo) → Grows info (note_combos e cs info)
  unfolding note_combos
  note_combos-Grows [] info = record { tests = λ r h. h; empty = λ h. h }
  note_combos-Grows (c ∷ cs) info =
      Grows-trans (note_closure-Grows (closure_for c) info)
        (note_combos-Grows cs (note_closure e (closure_for c) info))

  pub note_combos-Shown :
      (s c : ℕ) (cs : List ℕ) (info : FirstCharInfo)
      → elem c cs ≡ true
      → elem s (closure_for c) ≡ true
      → Shown s (note_combos e cs info)
  unfolding note_combos
  note_combos-Shown s c [] info h m = absurd (cc)
  note_combos-Shown s c (d ∷ cs) info h m = elim (Bool-cases (c == d)) [
    | inl k ↦
        let same : c ≡ d = ground arith in
        Shown-Grows s (note_combos-Grows cs (note_closure e (closure_for d) info))
          (note_closure-Shown s (closure_for d) info (rw same at m))
    | inr k ↦ note_combos-Shown s c cs (note_closure e (closure_for d) info) (ground arith) m
  ]

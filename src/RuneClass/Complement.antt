-- ===== src/RuneClass/Complement.antt =====
-- A finalized class has the members of its ranges, and `complement` the other scalar values.
use trieste.Prelude.{
  ℕ, ◌+◌, ◌-◌, ◌^◌, ◌%◌, ◌≤◌, ◌<◌, max, ◌≡◌, refl, ap, ◌∙◌, subst, Bool, true, false, ◌&&◌, ◌||◌,
  not, List, [], ◌∷◌, ◌++◌, All, ltb, leb, if◌then◌else◌, Bool-cases, inl, inr, arith,
}
use trieste.RuneClass.{
  RuneRange, RuneClass, contains, rebuilt, finalized, finalize, gaps, complement,
  add_gap_excluding_surrogates, dot,
}
use trieste.RuneClass.Ranges.{
  in_range, member, member_below, IsOrdered, IsCode, finalized-member, finalized-IsCode,
}
use trieste.RuneClass.Bitmap.{contains-rebuilt}

-- The code points that are not surrogates.
abbrev pub is_scalar : ℕ → Bool
is_scalar r = ltb r 0xd800 || leb 0xe000 r && leb r 0x10ffff

append_nil : (xs : List RuneRange) → xs ++ [] ≡ xs
append_nil [] = refl
append_nil (x ∷ xs) = ap (λ t. x ∷ t) (append_nil xs)

member-append :
    (r : ℕ) (xs ys : List RuneRange) → member r (xs ++ ys) ≡ (member r xs || member r ys)
member-append r [] ys = refl
member-append r (x ∷ xs) ys =
    ap (λ t. in_range r x || t) (member-append r xs ys)
    ∙ assoc (in_range r x) (member r xs) (member r ys)
  where
    assoc : (a b c : Bool) → (a || (b || c)) ≡ ((a || b) || c)
    assoc a b c = ground arith

IsOrdered-lower : (lo hi : ℕ) (xs : List RuneRange) → lo ≤ hi → IsOrdered hi xs → IsOrdered lo xs
IsOrdered-lower lo hi [] le o = tt
IsOrdered-lower lo hi (x ∷ xs) le (p, o) = (omega arith, o)

-- Where the ranges of a gap from `lo` on can start.
abbrev first_scalar : ℕ → ℕ
first_scalar lo = if ltb lo 0xd800 then lo else max 0xe000 lo

gap-member :
    (r lo hi : ℕ)
    → lo ≤ hi
    → hi < 1114112
    → member r (add_gap_excluding_surrogates lo hi) ≡ (is_scalar r && (leb lo r && leb r hi))
unfolding add_gap_excluding_surrogates
gap-member r lo hi le lt = elim (Bool-cases (ltb lo 0xd800)) [
  | inl h ↦ elim (Bool-cases (ltb hi 0xd800)) [
    | inl k ↦ rw (h, k) (ground arith)
    | inr k ↦ elim (Bool-cases (ltb 0xdfff hi)) [
      | inl l ↦ rw (h, k, l) (ground arith)
      | inr l ↦ rw (h, k, l) (ground arith)
    ]
  ]
  | inr h ↦ elim (Bool-cases (ltb lo 0xe000)) [
    | inl k ↦ rw (h, k) (ground arith)
    | inr k ↦ rw (h, k) (ground arith)
  ]
]

gap-IsOrdered :
    (lo hi : ℕ) (rest : List RuneRange)
    → lo ≤ hi
    → IsOrdered (first_scalar (hi + 1)) rest
    → IsOrdered (first_scalar lo) (add_gap_excluding_surrogates lo hi ++ rest)
unfolding add_gap_excluding_surrogates
gap-IsOrdered lo hi rest le o = elim (Bool-cases (ltb lo 0xd800)) [
  | inl h ↦ elim (Bool-cases (ltb hi 0xd800)) [
    | inl k ↦ rw (h, k) (omega arith, IsOrdered-lower (max lo (hi + 1)) _ rest (ground arith) o)
    | inr k ↦ elim (Bool-cases (ltb 0xdfff hi)) [
      | inl l ↦
          rw (h, k, l)
            (
              omega arith,
              (ground arith, IsOrdered-lower (max 0xe000 (hi + 1)) _ rest (ground arith) o),
            )
      | inr l ↦
          rw (h, k, l) (omega arith, IsOrdered-lower (max lo (0xd7ff + 1)) _ rest (ground arith) o)
    ]
  ]
  | inr h ↦ elim (Bool-cases (ltb lo 0xe000)) [
    | inl k ↦
        rw (h, k) (ground arith, IsOrdered-lower (max 0xe000 (hi + 1)) _ rest (ground arith) o)
    | inr k ↦ rw (h, k) (ground arith, IsOrdered-lower (max lo (hi + 1)) _ rest (ground arith) o)
  ]
]

past : (hi : ℕ) → hi < 1114112 → (hi + 1) % 2 ^ 32 ≡ hi + 1
past hi lt = omega arith

first_scalar-le : (a b : ℕ) → a ≤ b → first_scalar a ≤ first_scalar b
first_scalar-le a b le = ground arith

gaps-IsOrdered :
    (prev : ℕ) (xs : List RuneRange)
    → IsOrdered prev xs
    → All IsCode xs
    → IsOrdered (first_scalar prev) (gaps prev xs)
unfolding gaps
gaps-IsOrdered prev [] o cs = elim (Bool-cases (leb prev 0x10ffff)) [
  | inl h ↦ rw h (
      subst (IsOrdered (first_scalar prev))
        (append_nil (add_gap_excluding_surrogates prev 0x10ffff))
        (gap-IsOrdered prev 0x10ffff [] (ground arith) tt))
  | inr h ↦ rw h tt
]
gaps-IsOrdered prev (x ∷ xs) (p, o) (c, cs) =
    let rest =
      gaps-IsOrdered (x.hi + 1) xs (IsOrdered-lower _ (max x.lo (x.hi + 1)) xs (omega arith) o)
        cs in
    rw (past x.hi (omega arith)) (elim (Bool-cases (ltb prev x.lo)) [
      | inl h ↦ rw h (
          gap-IsOrdered prev (x.lo - 1) _ (ground arith) (
            IsOrdered-lower _ (first_scalar (x.hi + 1)) _
              (first_scalar-le (x.lo - 1 + 1) (x.hi + 1) (ground arith)) rest))
      | inr h ↦ rw h (
          IsOrdered-lower _ (first_scalar (x.hi + 1)) _
            (first_scalar-le prev (x.hi + 1) (omega arith)) rest)
    ])

gaps-member :
    (r prev : ℕ) (xs : List RuneRange)
    → IsOrdered prev xs
    → All IsCode xs
    → member r (gaps prev xs) ≡ (is_scalar r && (leb prev r && not (member r xs)))
unfolding gaps
gaps-member r prev [] o cs = elim (Bool-cases (leb prev 0x10ffff)) [
  | inl h ↦ rw h (gap-member r prev 0x10ffff (ground arith) (omega arith) ∙ ground arith)
  | inr h ↦ rw h (ground arith)
]
gaps-member r prev (x ∷ xs) (p, o) (c, cs) =
    let tail = IsOrdered-lower (x.hi + 1) (max x.lo (x.hi + 1)) xs (omega arith) o in
    rw (past x.hi (omega arith)) (
      member-append r (if ltb prev x.lo then add_gap_excluding_surrogates prev (x.lo - 1) else []) _
      ∙ ap
          (λ t.
            member r (if ltb prev x.lo then add_gap_excluding_surrogates prev (x.lo - 1) else [])
            || t)
          (gaps-member r (x.hi + 1) xs tail cs)
      ∙ ap (λ t. t || (is_scalar r && (leb (x.hi + 1) r && not (member r xs)))) front
      ∙ joined (member r xs) (λ lt. member_below r (x.hi + 1) xs tail lt))
  where
    front :
        member r (if ltb prev x.lo then add_gap_excluding_surrogates prev (x.lo - 1) else [])
        ≡ (is_scalar r && (leb prev r && ltb r x.lo))
    front = elim (Bool-cases (ltb prev x.lo)) [
      | inl h ↦ rw h (gap-member r prev (x.lo - 1) (ground arith) (omega arith) ∙ ground arith)
      | inr h ↦ rw h (ground arith)
    ]

    joined :
        (m : Bool)
        → (r < x.hi + 1 → m ≡ false)
        → ((is_scalar r && (leb prev r && ltb r x.lo))
            || (is_scalar r && (leb (x.hi + 1) r && not m)))
          ≡ (is_scalar r && (leb prev r && not (in_range r x || m)))
    joined true h = elim (Bool-cases (ltb r (x.hi + 1))) [
      | inl k ↦ absurd (cc (h (ground arith)))
      | inr k ↦ ground arith
    ]
    joined false h = ground arith

-- A finalized class contains the members of the ranges that were added and no others, and its
-- complement contains the scalar values that it does not contain; the ranges must not be empty
-- or leave the code points.
pub contains-complement :
    (r : ℕ) (c : RuneClass)
    → All IsCode c.ranges
    → (contains (finalize c) r ≡ member r c.ranges)
      × (contains (complement (finalize c)) r ≡ (is_scalar r && not (member r c.ranges)))
unfolding finalize complement rebuilt
contains-complement r c cs =
    let (o, m) = finalized-member r c.ranges cs in
    let codes = finalized-IsCode c.ranges cs in
    (
      contains-rebuilt r 0 (finalized c.ranges) o ∙ m,
      contains-rebuilt r 0 (gaps 0 (finalized c.ranges))
            (gaps-IsOrdered 0 (finalized c.ranges) o codes)
          ∙ gaps-member r 0 (finalized c.ranges) o codes
          ∙ at_zero (member r (finalized c.ranges))
          ∙ ap (λ t. is_scalar r && not t) m,
    )
  where
    at_zero : (b : Bool) → (is_scalar r && (leb 0 r && not b)) ≡ (is_scalar r && not b)
    at_zero b = ground arith

-- The dot contains the scalar values and nothing else.
pub contains-dot : (r : ℕ) → contains dot r ≡ is_scalar r
unfolding dot
contains-dot r = contains-rebuilt r 0 _ (omega arith, (omega arith, tt)) ∙ ground arith

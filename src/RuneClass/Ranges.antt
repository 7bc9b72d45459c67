-- ===== src/RuneClass/Ranges.antt =====
-- The search over ordered ranges, and what `finalize` makes of any ranges.
use trieste.Prelude.{
  ℕ, ◌+◌, ◌^◌, ◌%◌, ◌≤◌, ◌<◌, max, ◌≡◌, refl, ap, ◌∙◌, Bool, true, false, ◌&&◌, ◌||◌, Option, none,
  some, List, [], ◌∷◌, All, ltb, leb, Bool-cases, inl, inr, arith,
}
use trieste.RuneClass.{
  RuneRange, or_this, covered, last_before, search, before, insert, sort, merged_from, merged,
  finalized,
}

-- Whether a code point is in one of the ranges.
abbrev pub in_range : ℕ → RuneRange → Bool
in_range r x = leb x.lo r && leb r x.hi

abbrev pub member : ℕ → List RuneRange → Bool
member r [] = false
member r (x ∷ xs) = in_range r x || member r xs

-- Ranges from `lo` on that start in order, each behind the end of the one before.
abbrev pub IsOrdered : ℕ → List RuneRange → Type 0
IsOrdered lo [] = Unit {0}
IsOrdered lo (x ∷ xs) = (lo ≤ x.lo) × IsOrdered (max x.lo (x.hi + 1)) xs

pub member_below : (r lo : ℕ) (xs : List RuneRange) → IsOrdered lo xs → r < lo → member r xs ≡ false
member_below r lo [] o lt = refl
member_below r lo (x ∷ xs) (le, o) lt =
    rw (member_below r (max x.lo (x.hi + 1)) xs o (omega arith)) (ground arith)

last_before-below :
    (r lo : ℕ) (xs : List RuneRange) → IsOrdered lo xs → r < lo → last_before r xs ≡ none
unfolding last_before
last_before-below r lo [] o lt = refl
last_before-below r lo (x ∷ xs) (le, o) lt = rw (below) refl
  where
    below : ltb r x.lo ≡ true
    below = ground arith

covered-or_this :
    (r : ℕ) (x : RuneRange) (o : Option RuneRange)
    → in_range r x ≡ false
    → covered r (or_this x o) ≡ covered r o
covered-or_this r x none h = h
covered-or_this r x (some y) h = refl

-- Over ordered ranges, looking at the last range that starts at `r` or before is enough.
pub search-member : (r lo : ℕ) (xs : List RuneRange) → IsOrdered lo xs → search r xs ≡ member r xs
unfolding search last_before
search-member r lo [] o = refl
search-member r lo (x ∷ xs) (le, o) =
    let rest = search-member r (max x.lo (x.hi + 1)) xs o in
    elim (Bool-cases (ltb r x.lo)) [
      | inl h ↦ rw (h, member_below r (max x.lo (x.hi + 1)) xs o (ground arith)) (ground arith)
      | inr h ↦ elim (Bool-cases (ltb r (max x.lo (x.hi + 1)))) [
        | inl k ↦
            rw
              (
                h,
                last_before-below r (max x.lo (x.hi + 1)) xs o (ground arith),
                member_below r (max x.lo (x.hi + 1)) xs o (ground arith),
              )
              (or_false (in_range r x))
        | inr k ↦
            rw (h, outside (ground arith))
              (covered-or_this r x (last_before r xs) (outside (ground arith)) ∙ rest)
      ]
    ]
  where
    or_false : (b : Bool) → b ≡ (b || false)
    or_false true = refl
    or_false false = refl

    outside : x.hi < r → in_range r x ≡ false
    outside h = ground arith

-- Ranges that are not empty, of code points.
abbrev pub IsCode : RuneRange → Type 0
IsCode x = (x.lo ≤ x.hi) × (x.hi < 1114112)

or-exchange : (a b c : Bool) → (a || (b || c)) ≡ (b || (a || c))
or-exchange true true c = refl
or-exchange true false c = refl
or-exchange false true c = refl
or-exchange false false c = refl

insert-member :
    (r : ℕ) (x : RuneRange) (ys : List RuneRange) → member r (insert x ys) ≡ member r (x ∷ ys)
unfolding insert
insert-member r x [] = refl
insert-member r x (y ∷ ys) = elim (Bool-cases (before x y)) [
  | inl h ↦ rw h refl
  | inr h ↦ rw h (
      ap (λ t. in_range r y || t) (insert-member r x ys)
      ∙ or-exchange (in_range r y) (in_range r x) (member r ys))
]

sort-member : (r : ℕ) (xs : List RuneRange) → member r (sort xs) ≡ member r xs
unfolding sort
sort-member r [] = refl
sort-member r (x ∷ xs) =
    insert-member r x (sort xs) ∙ ap (λ t. in_range r x || t) (sort-member r xs)

insert-IsCode :
    (x : RuneRange) (ys : List RuneRange) → IsCode x → All IsCode ys → All IsCode (insert x ys)
unfolding insert
insert-IsCode x [] c cs = (c, tt)
insert-IsCode x (y ∷ ys) c (d, cs) = elim (Bool-cases (before x y)) [
  | inl h ↦ rw h (c, (d, cs))
  | inr h ↦ rw h (d, insert-IsCode x ys c cs)
]

sort-IsCode : (xs : List RuneRange) → All IsCode xs → All IsCode (sort xs)
unfolding sort
sort-IsCode [] cs = tt
sort-IsCode (x ∷ xs) (c, cs) = insert-IsCode x (sort xs) c (sort-IsCode xs cs)

-- Ranges that start in order.
abbrev Starts : ℕ → List RuneRange → Type 0
Starts lo [] = Unit {0}
Starts lo (x ∷ xs) = (lo ≤ x.lo) × Starts x.lo xs

Starts-lower : (lo hi : ℕ) (xs : List RuneRange) → lo ≤ hi → Starts hi xs → Starts lo xs
Starts-lower lo hi [] le s = tt
Starts-lower lo hi (x ∷ xs) le (p, s) = (omega arith, s)

insert-Starts :
    (lo : ℕ) (x : RuneRange) (ys : List RuneRange)
    → lo ≤ x.lo
    → Starts lo ys
    → Starts lo (insert x ys)
unfolding insert
insert-Starts lo x [] le s = (le, tt)
insert-Starts lo x (y ∷ ys) le (p, s) = elim (Bool-cases (before x y)) [
  | inl h ↦ rw h (le, (ground arith, s))
  | inr h ↦ rw h (p, insert-Starts y.lo x ys (ground arith) s)
]

sort-Starts : (xs : List RuneRange) → Starts 0 (sort xs)
unfolding sort
sort-Starts [] = tt
sort-Starts (x ∷ xs) = insert-Starts 0 x (sort xs) (omega arith) (sort-Starts xs)

-- Joining ranges that overlap or touch: the same members, in order.
join : RuneRange → RuneRange → RuneRange
join back x = record { lo = back.lo; hi = max back.hi x.hi }

in_range-join :
    (r : ℕ) (back x : RuneRange) (m : Bool)
    → IsCode back
    → back.lo ≤ x.lo
    → x.lo ≤ back.hi + 1
    → (in_range r (join back x) || m) ≡ (in_range r back || (in_range r x || m))
unfolding join
in_range-join r back x m c p q = ground arith

merged_from-member :
    (r : ℕ) (back : RuneRange) (xs : List RuneRange)
    → IsCode back
    → All IsCode xs
    → Starts back.lo xs
    → member r (merged_from back xs) ≡ member r (back ∷ xs)
unfolding merged_from join
merged_from-member r back [] c cs s = refl
merged_from-member r back (x ∷ xs) c (d, cs) (le, s) =
    elim (Bool-cases (leb x.lo ((back.hi + 1) % 2 ^ 32))) [
      | inl h ↦ rw h (
          merged_from-member r (join back x) xs (omega arith) cs (Starts-lower back.lo x.lo xs le s)
          ∙ in_range-join r back x (member r xs) c le (ground arith))
      | inr h ↦ rw h (ap (λ t. in_range r back || t) (merged_from-member r x xs d cs s))
    ]

merged_from-IsOrdered :
    (lo : ℕ) (back : RuneRange) (xs : List RuneRange)
    → IsCode back
    → All IsCode xs
    → lo ≤ back.lo
    → Starts back.lo xs
    → IsOrdered lo (merged_from back xs)
unfolding merged_from join
merged_from-IsOrdered lo back [] c cs le s = (le, tt)
merged_from-IsOrdered lo back (x ∷ xs) c (d, cs) le (p, s) =
    elim (Bool-cases (leb x.lo ((back.hi + 1) % 2 ^ 32))) [
      | inl h ↦ rw h (
          merged_from-IsOrdered lo (join back x) xs (omega arith) cs le
            (Starts-lower back.lo x.lo xs p s))
      | inr h ↦
          rw h (le, merged_from-IsOrdered (max back.lo (back.hi + 1)) x xs d cs (ground arith) s)
    ]

-- The ranges of a finalized class: the members of the ranges that were added, in order and
-- apart.
pub finalized-member :
    (r : ℕ) (xs : List RuneRange)
    → All IsCode xs
    → (IsOrdered 0 (finalized xs)) × (member r (finalized xs) ≡ member r xs)
finalized-member r [] cs = (tt, refl)
finalized-member r (x ∷ []) cs = ((omega arith, tt), refl)
finalized-member r (x ∷ y ∷ xs) cs =
    let sorted = sort-IsCode (x ∷ y ∷ xs) cs in
    let (o, m) = merged-member r (sort (x ∷ y ∷ xs)) sorted (sort-Starts (x ∷ y ∷ xs)) in
    (o, m ∙ sort-member r (x ∷ y ∷ xs))
  where
    merged-member :
        (r : ℕ) (ys : List RuneRange)
        → All IsCode ys
        → Starts 0 ys
        → (IsOrdered 0 (merged ys)) × (member r (merged ys) ≡ member r ys)
    merged-member r [] cs s = (tt, refl)
    merged-member r (y ∷ ys) (c, cs) (le, s) =
        (merged_from-IsOrdered 0 y ys c cs le s, merged_from-member r y ys c cs s)

merged_from-IsCode :
    (back : RuneRange) (xs : List RuneRange)
    → IsCode back
    → All IsCode xs
    → Starts back.lo xs
    → All IsCode (merged_from back xs)
unfolding merged_from join
merged_from-IsCode back [] c cs s = (c, tt)
merged_from-IsCode back (x ∷ xs) c (d, cs) (le, s) =
    elim (Bool-cases (leb x.lo ((back.hi + 1) % 2 ^ 32))) [
      | inl h ↦
          rw h (
            merged_from-IsCode (join back x) xs (omega arith) cs
              (Starts-lower back.lo x.lo xs le s))
      | inr h ↦ rw h (c, merged_from-IsCode x xs d cs s)
    ]

pub finalized-IsCode : (xs : List RuneRange) → All IsCode xs → All IsCode (finalized xs)
finalized-IsCode [] cs = tt
finalized-IsCode (x ∷ []) cs = cs
finalized-IsCode (x ∷ y ∷ xs) cs =
    merged-IsCode (sort (x ∷ y ∷ xs)) (sort-IsCode (x ∷ y ∷ xs) cs) (sort-Starts (x ∷ y ∷ xs))
  where
    merged-IsCode : (ys : List RuneRange) → All IsCode ys → Starts 0 ys → All IsCode (merged ys)
    merged-IsCode [] cs s = tt
    merged-IsCode (y ∷ ys) (c, cs) (le, s) = merged_from-IsCode y ys c cs s

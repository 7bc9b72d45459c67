-- ===== src/RuneClass/Bitmap.antt =====
-- The bitmap holds exactly the members below 128, and so `contains` is membership.
use trieste.Prelude.{
  ℕ, zero, suc, ◌+◌, ◌-◌, ◌*◌, ◌/◌, ◌^◌, ◌%◌, ◌≤◌, ◌<◌, max, bit_and, bit_or, ◌≡◌, ◌≢◌, refl, sym,
  ap, ◌∙◌, Bool, true, false, ◌&&◌, ◌||◌, List, [], ◌∷◌, ltb, leb, ◌==◌, if◌then◌else◌, Bool-cases,
  inl, inr, arith,
}
use trieste.Prelude.Bits.{and_0x3f, bit_and-halve, bit_and-zero, bit_or-halve}
use native.Mathlib.Nat.{pow-suc, div-div-eq-div-mul}
use trieste.RuneClass.{
  RuneRange, bit_of, contains, set_bit, set_bits, set_ranges, clamped_hi, rebuilt,
}
use trieste.RuneClass.Ranges.{in_range, member, IsOrdered, search-member}

bit : ℕ → ℕ → ℕ
bit w j = w / 2 ^ j % 2

bit-suc : (w j : ℕ) → bit w (suc j) ≡ bit (w / 2) j
unfolding bit
bit-suc w j =
    ap (λ (t : ℕ). t % 2)
      (ap (λ (t : ℕ). w / t) (two_first j) ∙ sym (div-div-eq-div-mul w 2 (2 ^ j)))
  where
    two_first : (j : ℕ) → 2 ^ suc j ≡ 2 * 2 ^ j
    two_first j = omega (arith, pow-suc 2 j)

bit-small : (w j : ℕ) → bit w j < 2
unfolding bit
bit-small w j = omega arith

bit-zero : (w : ℕ) → bit w 0 ≡ w % 2
unfolding bit
bit-zero w = omega arith

bit-bit_or : (a b j : ℕ) → bit (bit_or a b) j ≡ max (bit a j) (bit b j)
bit-bit_or a b zero =
    rw (bit-zero (bit_or a b), bit-zero a, bit-zero b) (omega (arith, bit_or-halve a b))
bit-bit_or a b (suc j) =
    rw (bit-suc (bit_or a b) j, bit-suc a j, bit-suc b j)
      (ap (λ (t : ℕ). bit t j) (omega (arith, bit_or-halve a b)) ∙ bit-bit_or (a / 2) (b / 2) j)

bit-pow : (k j : ℕ) → bit (2 ^ k) j ≡ (if k == j then 1 else 0)
bit-pow zero zero = bit-zero 1
bit-pow zero (suc j) = bit-suc 1 j ∙ none j ∙ ground arith
  where
    none : (j : ℕ) → bit 0 j ≡ 0
    none zero = bit-zero 0
    none (suc j) = bit-suc 0 j ∙ none j
bit-pow (suc k) zero = bit-zero (2 ^ suc k) ∙ ground (arith, pow-suc 2 k)
bit-pow (suc k) (suc j) =
    bit-suc (2 ^ suc k) j
    ∙ ap (λ (t : ℕ). bit t j) (omega (arith, pow-suc 2 k))
    ∙ bit-pow k j
    ∙ ground arith

bit_of-bit : (w r : ℕ) → bit_of w r ≡ bit w (r % 64)
unfolding bit
bit_of-bit w r = ap (λ (t : ℕ). bit_and (w / 2 ^ t) 1) (and_0x3f r) ∙ lowest (w / 2 ^ (r % 64))
  where
    lowest : (n : ℕ) → bit_and n 1 ≡ n % 2
    lowest n = omega (arith, bit_and-halve n 1, bit_and-zero (n / 2))

-- Whether the bit of a code point below 128 is set.
abbrev pub bit_in : ℕ × ℕ → ℕ → Bool
bit_in (low, high) r = (if r / 2 ^ 6 == 0 then bit_of low r else bit_of high r) == 1

set_in :
    (w q r : ℕ)
    → (bit_of (bit_or w (2 ^ bit_and q 63)) r == 1) ≡ (q % 64 == r % 64 || bit_of w r == 1)
set_in w q r =
    rw
      (
        bit_of-bit (bit_or w (2 ^ bit_and q 63)) r,
        bit_of-bit w r,
        and_0x3f q,
        bit-bit_or w (2 ^ (q % 64)) (r % 64),
        bit-pow (q % 64) (r % 64),
      )
      (ground (arith, bit-small w (r % 64)))

-- Setting one bit changes no other.
pub bit_in-set_bit :
    (words : ℕ × ℕ) (q r : ℕ)
    → q < 128
    → r < 128
    → bit_in (set_bit q words) r ≡ (q == r || bit_in words r)
unfolding set_bit
bit_in-set_bit (low, high) q r hq hr = elim (Bool-cases (q / 2 ^ 6 == 0)) [
  | inl h ↦ elim (Bool-cases (r / 2 ^ 6 == 0)) [
    | inl k ↦ rw (h, k, set_in low q r) (ap (λ t. t || bit_of low r == 1) (same (ground arith)))
    | inr k ↦ rw (h, k) (ap (λ t. t || bit_of high r == 1) (apart (ground arith)))
  ]
  | inr h ↦ elim (Bool-cases (r / 2 ^ 6 == 0)) [
    | inl k ↦ rw (h, k) (ap (λ t. t || bit_of low r == 1) (apart (ground arith)))
    | inr k ↦ rw (h, k, set_in high q r) (ap (λ t. t || bit_of high r == 1) (same (ground arith)))
  ]
]
  where
    same : q / 64 ≡ r / 64 → (q % 64 == r % 64) ≡ (q == r)
    same e = ground arith

    apart : q / 64 ≢ r / 64 → false ≡ (q == r)
    apart e = ground arith

bit_in-set_bits :
    (count q r : ℕ) (words : ℕ × ℕ)
    → q + count ≤ 128
    → r < 128
    → bit_in (set_bits count q words) r ≡ (leb q r && ltb r (q + count) || bit_in words r)
unfolding set_bits
bit_in-set_bits zero q r words hq hr = ap (λ t. t || bit_in words r) (empty q r)
  where
    empty : (q r : ℕ) → false ≡ (leb q r && ltb r (q + 0))
    empty q r = ground arith
bit_in-set_bits (suc count) q r words hq hr =
    bit_in-set_bits count (suc q) r (set_bit q words) (omega arith) hr
    ∙ ap (λ t. leb (suc q) r && ltb r (suc q + count) || t)
        (bit_in-set_bit words q r (omega arith) hr)
    ∙ widen (bit_in words r)
  where
    widen :
        (b : Bool)
        → (leb (suc q) r && ltb r (suc q + count) || (q == r || b))
          ≡ (leb q r && ltb r (q + suc count) || b)
    widen b = ground arith

-- A range, as `rebuild_ascii_bitmap` sets it, when it starts below 128 and when it does not.
bit_in-range :
    (x : RuneRange) (words : ℕ × ℕ) (r : ℕ)
    → r < 128
    → bit_in (if leb 128 x.lo then words else set_bits (suc (clamped_hi x.hi) - x.lo) x.lo words) r
      ≡ (in_range r x || bit_in words r)
bit_in-range x words r hr = elim (Bool-cases (leb 128 x.lo)) [
  | inl h ↦ rw h (ap (λ t. t || bit_in words r) (above (ground arith)))
  | inr h ↦ rw h (
      bit_in-set_bits (suc (clamped_hi x.hi) - x.lo) x.lo r words (ground arith) hr
      ∙ ap (λ t. t || bit_in words r) (inside (ground arith)))
]
  where
    above : 128 ≤ x.lo → false ≡ in_range r x
    above h = ground arith

    inside :
        x.lo < 128 → (leb x.lo r && ltb r (x.lo + (suc (clamped_hi x.hi) - x.lo))) ≡ in_range r x
    inside h = ground arith

bit_in-set_ranges :
    (xs : List RuneRange) (words : ℕ × ℕ) (r : ℕ)
    → r < 128
    → bit_in (set_ranges xs words) r ≡ (member r xs || bit_in words r)
unfolding set_ranges
bit_in-set_ranges [] words r hr = refl
bit_in-set_ranges (x ∷ xs) words r hr =
    bit_in-set_ranges xs
      (if leb 128 x.lo then words else set_bits (suc (clamped_hi x.hi) - x.lo) x.lo words) r hr
    ∙ ap (λ t. member r xs || t) (bit_in-range x words r hr)
    ∙ swap (member r xs) (in_range r x) (bit_in words r)
  where
    swap : (a b c : Bool) → (a || (b || c)) ≡ ((b || a) || c)
    swap a b c = ground arith

pub or_clear : (m : Bool) (r : ℕ) → (m || bit_in (0, 0) r) ≡ m
or_clear m r = rw (bit_of-bit 0 r, zeros (r % 64)) (ground arith)
  where
    zeros : (j : ℕ) → bit 0 j ≡ 0
    zeros zero = bit-zero 0
    zeros (suc j) = bit-suc 0 j ∙ zeros j

select :
    (b : Bool) (l h r : ℕ)
    → (bit_of (if b then l else h) r == 1) ≡ ((if b then bit_of l r else bit_of h r) == 1)
select true l h r = refl
select false l h r = refl

-- A class over ordered ranges contains their members and nothing else: the bitmap and the search
-- agree with the ranges.
pub contains-rebuilt :
    (r lo : ℕ) (xs : List RuneRange) → IsOrdered lo xs → contains (rebuilt xs) r ≡ member r xs
unfolding contains rebuilt
contains-rebuilt r lo xs o = elim (Bool-cases (ltb r 128)) [
  | inl h ↦ rw h (
      select (r / 2 ^ 6 == 0) _ _ r
      ∙ bit_in-set_ranges xs (0, 0) r (ground arith)
      ∙ or_clear (member r xs) r)
  | inr h ↦ rw h (search-member r lo xs o)
]

pub bit_in-bit_or :
    (low high low' high' r : ℕ)
    → bit_in (bit_or low low', bit_or high high') r
      ≡ (bit_in (low, high) r || bit_in (low', high') r)
bit_in-bit_or low high low' high' r = elim (Bool-cases (r / 2 ^ 6 == 0)) [
  | inl h ↦ rw h (both low low')
  | inr h ↦ rw h (both high high')
]
  where
    both : (a b : ℕ) → (bit_of (bit_or a b) r == 1) ≡ (bit_of a r == 1 || bit_of b r == 1)
    both a b =
        rw (bit_of-bit (bit_or a b) r, bit_of-bit a r, bit_of-bit b r, bit-bit_or a b (r % 64))
          (ground (arith, bit-small a (r % 64), bit-small b (r % 64)))

-- ===== src/RuneClass.antt =====
-- include/trieste/regex_engine.h, `RuneClass`: a set of code points as ranges, with a bitmap for
-- those below 128.
pub mod Bitmap
pub mod Ranges
pub mod Complement
mod Samples
use trieste.Prelude.{
  ℕ, zero, suc, ◌+◌, ◌-◌, ◌*◌, ◌/◌, ◌^◌, ◌%◌, max, bit_and, bit_or, Bool, true, false, ◌&&◌, ◌||◌,
  not, Option, none, some, List, [], ◌∷◌, ◌++◌, ltb, leb, ◌==◌, if◌then◌else◌,
}

-- A range with both ends in it.
pub record RuneRange : Type 0 where
  pub lo : ℕ
  pub hi : ℕ

-- `low` and `high` are the two words of `ascii_bitmap`.
pub record RuneClass : Type 0 where
  pub ranges : List RuneRange
  pub low : ℕ
  pub high : ℕ

-- `ascii_bitmap[r >> 6]`, the bit of `r & 63`.
abbrev pub bit_of : ℕ → ℕ → ℕ
bit_of word r = bit_and (word / 2 ^ bit_and r 63) 1

abbrev pub word_of : RuneClass → ℕ → ℕ
word_of c r = if r / 2 ^ 6 == 0 then c.low else c.high

-- The range before the one that `std::upper_bound` finds: the last of those at the front that
-- start at `r` or before.
abbrev pub or_this : RuneRange → Option RuneRange → Option RuneRange
or_this x none = some x
or_this x (some y) = some y

unfoldable pub last_before : ℕ → List RuneRange → Option RuneRange
last_before r [] = none
last_before r (x ∷ xs) =
    let rest = last_before r xs in (if ltb r x.lo then none else or_this x rest)

abbrev pub covered : ℕ → Option RuneRange → Bool
covered r none = false
covered r (some x) = leb x.lo r && leb r x.hi

unfoldable pub search : ℕ → List RuneRange → Bool
search r xs = covered r (last_before r xs)

unfoldable pub contains : RuneClass → ℕ → Bool
contains c r = if ltb r 128 then bit_of (word_of c r) r == 1 else search r c.ranges

-- One round of the inner loop of `rebuild_ascii_bitmap`.
unfoldable pub set_bit : ℕ → ℕ × ℕ → ℕ × ℕ
set_bit r (low, high) =
    if r / 2 ^ 6 == 0
    then (bit_or low (2 ^ bit_and r 63), high)
    else (low, bit_or high (2 ^ bit_and r 63))

-- `count` rounds from `r` on.
unfoldable pub set_bits : ℕ → ℕ → ℕ × ℕ → ℕ × ℕ
set_bits zero r words = words
set_bits (suc count) r words = set_bits count (suc r) (set_bit r words)

abbrev pub clamped_hi : ℕ → ℕ
clamped_hi hi = if ltb hi 128 then hi else 127

unfoldable pub set_ranges : List RuneRange → ℕ × ℕ → ℕ × ℕ
set_ranges [] words = words
set_ranges (x ∷ xs) words =
    set_ranges xs
      (if leb 128 x.lo then words else set_bits (suc (clamped_hi x.hi) - x.lo) x.lo words)

abbrev pub with_words : List RuneRange → ℕ × ℕ → RuneClass
with_words xs (low, high) = record { ranges = xs; low = low; high = high }

-- The class of these ranges, after `rebuild_ascii_bitmap`.
unfoldable pub rebuilt : List RuneRange → RuneClass
rebuilt xs = with_words xs (set_ranges xs (0, 0))

unfoldable pub add_range : ℕ → ℕ → RuneClass → RuneClass
add_range lo hi c = record {
  ranges = c.ranges ++ record { lo = lo; hi = hi } ∷ [];
  low = c.low;
  high = c.high;
}

unfoldable pub merge : RuneClass → RuneClass → RuneClass
merge c other = record { ranges = c.ranges ++ other.ranges; low = c.low; high = c.high }

-- The order of `std::pair`, and `std::sort`, as an insertion: equal ranges cannot be told apart.
abbrev pub before : RuneRange → RuneRange → Bool
before x y = ltb x.lo y.lo || x.lo == y.lo && leb x.hi y.hi

unfoldable pub insert : RuneRange → List RuneRange → List RuneRange
insert x [] = x ∷ []
insert x (y ∷ ys) = let rest = insert x ys in (if before x y then x ∷ y ∷ ys else y ∷ rest)

unfoldable pub sort : List RuneRange → List RuneRange
sort [] = []
sort (x ∷ xs) = insert x (sort xs)

-- The loop of `finalize`, where `back` is the last range of `merged`. The sum is of 32 bits.
unfoldable pub merged_from : RuneRange → List RuneRange → List RuneRange
merged_from back [] = back ∷ []
merged_from back (x ∷ xs) =
    let joined = merged_from (record { lo = back.lo; hi = max back.hi x.hi }) xs in
    let apart = merged_from x xs in
    (if leb x.lo ((back.hi + 1) % 2 ^ 32) then joined else back ∷ apart)

abbrev pub merged : List RuneRange → List RuneRange
merged [] = []
merged (x ∷ xs) = merged_from x xs

-- A single range, or none, is left as it is.
abbrev pub finalized : List RuneRange → List RuneRange
finalized [] = []
finalized (x ∷ []) = x ∷ []
finalized (x ∷ y ∷ xs) = merged (sort (x ∷ y ∷ xs))

unfoldable pub finalize : RuneClass → RuneClass
finalize c = rebuilt (finalized c.ranges)

-- What the gap pushes, in order.
unfoldable pub add_gap_excluding_surrogates : ℕ → ℕ → List RuneRange
add_gap_excluding_surrogates gap_lo gap_hi =
    if ltb gap_lo 0xd800
    then (if ltb gap_hi 0xd800
        then record { lo = gap_lo; hi = gap_hi } ∷ []
        else record { lo = gap_lo; hi = 0xd7ff }
          ∷ (if ltb 0xdfff gap_hi then record { lo = 0xe000; hi = gap_hi } ∷ [] else []))
    else if ltb gap_lo 0xe000
    then record { lo = 0xe000; hi = gap_hi } ∷ []
    else record { lo = gap_lo; hi = gap_hi } ∷ []

-- The loop of `complement` from a range on, with what follows the loop.
unfoldable pub gaps : ℕ → List RuneRange → List RuneRange
gaps prev [] = if leb prev 0x10ffff then add_gap_excluding_surrogates prev 0x10ffff else []
gaps prev (x ∷ xs) =
    (if ltb prev x.lo then add_gap_excluding_surrogates prev (x.lo - 1) else [])
    ++ gaps ((x.hi + 1) % 2 ^ 32) xs

unfoldable pub complement : RuneClass → RuneClass
complement c = rebuilt (gaps 0 c.ranges)

unfoldable pub dot : RuneClass
dot = rebuilt (record { lo = 0; hi = 0xd7ff } ∷ record { lo = 0xe000; hi = 0x10ffff } ∷ [])

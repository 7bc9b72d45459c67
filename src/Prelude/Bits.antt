-- ===== src/Prelude/Bits.antt =====
-- Masks and shifts as arithmetic, and the digit laws of the bit operations at every width.
use Prim.Native.Nat.{
  ℕ, zero, suc, ◌+◌, ◌*◌, ◌/◌, ◌%◌, ◌^◌, ◌≤◌, ◌<◌, min, max, bit_and, bit_or, bit_xor, differ,
  digits, bit_and-bitwise, bit_or-bitwise, bit_xor-bitwise,
}
use mathlib.Core.Path.{◌≡◌, refl, sym, ap, ◌∙◌}
use mathlib.Core.Bool.{Bool, true, ◌&&◌}
use native.Mathlib.Omega.{arith}
use native.Mathlib.Nat.{pow-suc}
use trieste.Prelude.Tests.{◌==◌}

-- Two functions agree on all numbers below `n`, checked by evaluation.
abbrev pub agree : ℕ → (ℕ → ℕ) → (ℕ → ℕ) → Bool
agree zero f g = true
agree (suc n) f g = f n == g n && agree n f g

pub agree→eq : (n : ℕ) (f g : ℕ → ℕ) → agree n f g ≡ true → (x : ℕ) → x < n → f x ≡ g x
agree→eq zero f g h x lt = absurd (omega arith)
agree→eq (suc n) f g h x lt = ground (arith, agree→eq n f g (ground arith) x)

pub and_0x80 : (b : ℕ) → b < 256 → bit_and b 0x80 ≡ b / 128 * 128
and_0x80 = agree→eq 256 _ _ refl

pub and_0xc0 : (b : ℕ) → b < 256 → bit_and b 0xc0 ≡ b / 64 * 64
and_0xc0 = agree→eq 256 _ _ refl

pub and_0xe0 : (b : ℕ) → b < 256 → bit_and b 0xe0 ≡ b / 32 * 32
and_0xe0 = agree→eq 256 _ _ refl

pub and_0xf0 : (b : ℕ) → b < 256 → bit_and b 0xf0 ≡ b / 16 * 16
and_0xf0 = agree→eq 256 _ _ refl

pub and_0xf8 : (b : ℕ) → b < 256 → bit_and b 0xf8 ≡ b / 8 * 8
and_0xf8 = agree→eq 256 _ _ refl

pub and_0x7f : (b : ℕ) → b < 256 → bit_and b 0x7f ≡ b % 128
and_0x7f = agree→eq 256 _ _ refl

pub and_0x1f : (b : ℕ) → b < 256 → bit_and b 0x1f ≡ b % 32
and_0x1f = agree→eq 256 _ _ refl

pub and_0x0f : (b : ℕ) → b < 256 → bit_and b 0x0f ≡ b % 16
and_0x0f = agree→eq 256 _ _ refl

pub and_0x07 : (b : ℕ) → b < 256 → bit_and b 0x07 ≡ b % 8
and_0x07 = agree→eq 256 _ _ refl

pub or_0x80 : (b : ℕ) → b < 64 → bit_or b 0x80 ≡ b + 128
or_0x80 = agree→eq 64 _ _ refl

pub or_0xc0 : (b : ℕ) → b < 32 → bit_or 0xc0 b ≡ b + 192
or_0xc0 = agree→eq 32 _ _ refl

pub or_0xe0 : (b : ℕ) → b < 16 → bit_or 0xe0 b ≡ b + 224
or_0xe0 = agree→eq 16 _ _ refl

pub or_0xf0 : (b : ℕ) → b < 8 → bit_or 0xf0 b ≡ b + 240
or_0xf0 = agree→eq 8 _ _ refl

pub or_0x00 : (b : ℕ) → b < 128 → bit_or 0 b ≡ b
or_0x00 = agree→eq 128 _ _ refl

-- The native operations recur with the first number as fuel; any two counts that cover it agree.
module _ (rest : ℕ → ℕ) (digit : ℕ → ℕ → ℕ) where
  none_left : (k b : ℕ) → digits rest digit k 0 b ≡ rest b
  none_left zero b = refl
  none_left (suc k) b = refl

  counts-agree : (a b k n : ℕ) → a ≤ k → a ≤ n → digits rest digit k a b ≡ digits rest digit n a b
  counts-agree zero b k n p q = none_left k b ∙ sym (none_left n b)
  counts-agree (suc a) b zero n p q = absurd (omega arith)
  counts-agree (suc a) b (suc k) zero p q = absurd (omega arith)
  counts-agree (suc a) b (suc k) (suc n) p q =
      ap (λ (t : ℕ). t * 2 + digit (suc a % 2) (b % 2))
        (counts-agree (suc a / 2) (b / 2) k n (omega arith) (omega arith))

  digits-halve :
      (a b : ℕ)
      → digits rest digit (suc a) (suc a) b
        ≡ digits rest digit (suc a / 2) (suc a / 2) (b / 2) * 2 + digit (suc a % 2) (b % 2)
  digits-halve a b =
      ap (λ (t : ℕ). t * 2 + digit (suc a % 2) (b % 2))
        (counts-agree (suc a / 2) (b / 2) a (suc a / 2) (omega arith) (omega arith))

pub bit_and-halve : (a b : ℕ) → bit_and a b ≡ bit_and (a / 2) (b / 2) * 2 + min (a % 2) (b % 2)
bit_and-halve zero b = simp bit_and-bitwise (omega arith)
bit_and-halve (suc a) b = simp bit_and-bitwise (digits-halve (λ y. 0) min a b)

pub bit_or-halve : (a b : ℕ) → bit_or a b ≡ bit_or (a / 2) (b / 2) * 2 + max (a % 2) (b % 2)
bit_or-halve zero b = simp bit_or-bitwise (omega arith)
bit_or-halve (suc a) b = simp bit_or-bitwise (digits-halve (λ y. y) max a b)

pub bit_xor-halve : (a b : ℕ) → bit_xor a b ≡ bit_xor (a / 2) (b / 2) * 2 + differ (a % 2) (b % 2)
bit_xor-halve zero b = simp bit_xor-bitwise (omega (arith, differ_zero (b % 2)))
  where
    differ_zero : (n : ℕ) → differ 0 n ≡ n
    differ_zero n = refl
bit_xor-halve (suc a) b = simp bit_xor-bitwise (digits-halve (λ y. y) differ a b)

pub bit_and-zero : (a : ℕ) → bit_and a 0 ≡ 0
bit_and-zero a = below a a (omega arith)
  where
    below : (k n : ℕ) → n ≤ k → bit_and n 0 ≡ 0
    below k zero le = refl
    below zero (suc n) le = absurd (omega arith)
    below (suc k) (suc n) le =
        omega (arith, bit_and-halve (suc n) 0, below k (suc n / 2) (omega arith))

-- Six binary places, as the encodings mask and shift them.
pub and_0x3f : (a : ℕ) → bit_and a 0x3f ≡ a % 64
and_0x3f a = omega (
  arith,
  bit_and-halve a 63,
  bit_and-halve (a / 2) 31,
  bit_and-halve (a / 2 / 2) 15,
  bit_and-halve (a / 2 / 2 / 2) 7,
  bit_and-halve (a / 2 / 2 / 2 / 2) 3,
  bit_and-halve (a / 2 / 2 / 2 / 2 / 2) 1,
  bit_and-zero (a / 2 / 2 / 2 / 2 / 2 / 2),
)

pub bit_or-zero : (a : ℕ) → bit_or a 0 ≡ a
bit_or-zero a = below a a (omega arith)
  where
    below : (k n : ℕ) → n ≤ k → bit_or n 0 ≡ n
    below k zero le = refl
    below zero (suc n) le = absurd (omega arith)
    below (suc k) (suc n) le =
        omega (arith, bit_or-halve (suc n) 0, below k (suc n / 2) (omega arith))

-- A number below `2 ^ k` fills the `k` places that a shift left frees.
pub bit_or-shift : (k a b : ℕ) → b < 2 ^ k → bit_or (a * 2 ^ k) b ≡ a * 2 ^ k + b
bit_or-shift zero a b lt = ground (arith, bit_or-zero a)
bit_or-shift (suc k) a b lt = ground (
  arith,
  pow-suc 2 k,
  bit_or-halve (a * 2 ^ suc k) b,
  twice,
  bit_or-shift k a (b / 2) (omega (arith, pow-suc 2 k)),
)
  where
    twice : a * 2 ^ suc k ≡ 2 * (a * 2 ^ k)
    twice = omega (arith, ap (λ (t : ℕ). a * t) (pow-suc 2 k))

differ≡zero : (a b : ℕ) → differ a b ≡ 0 → a ≡ b
differ≡zero zero b h = sym h
differ≡zero (suc a) zero h = h
differ≡zero (suc a) (suc b) h = ap suc (differ≡zero a b h)

zero-bit_xor : (b : ℕ) → bit_xor 0 b ≡ b
zero-bit_xor b = simp bit_xor-bitwise refl

-- The exclusive or of two numbers is zero only when they are equal.
pub bit_xor≡zero : (a b : ℕ) → bit_xor a b ≡ 0 → a ≡ b
bit_xor≡zero a b h = below a a b (omega arith) h
  where
    below : (k n m : ℕ) → n ≤ k → bit_xor n m ≡ 0 → n ≡ m
    below k zero m le h = omega (arith, zero-bit_xor m)
    below zero (suc n) m le h = absurd (omega arith)
    below (suc k) (suc n) m le h = omega (
      arith,
      bit_xor-halve (suc n) m,
      below k (suc n / 2) (m / 2) (omega arith) (omega (arith, bit_xor-halve (suc n) m)),
      differ≡zero (suc n % 2) (m % 2) (omega (arith, bit_xor-halve (suc n) m)),
    )

zero-bit_or : (b : ℕ) → bit_or 0 b ≡ b
zero-bit_or b = simp bit_or-bitwise refl

-- The or of two numbers is zero only when both are.
pub bit_or≡zero : (a b : ℕ) → bit_or a b ≡ 0 → (a ≡ 0) × (b ≡ 0)
bit_or≡zero a b h = below a a b (omega arith) h
  where
    below : (k n m : ℕ) → n ≤ k → bit_or n m ≡ 0 → (n ≡ 0) × (m ≡ 0)
    below k zero m le h = (refl, sym (zero-bit_or m) ∙ h)
    below zero (suc n) m le h = absurd (omega arith)
    below (suc k) (suc n) m le h =
        let (p, q) =
          below k (suc n / 2) (m / 2) (omega arith) (omega (arith, bit_or-halve (suc n) m)) in
        (omega (arith, bit_or-halve (suc n) m), omega (arith, bit_or-halve (suc n) m))

differ-lt : (a b : ℕ) → a < 2 → b < 2 → differ a b < 2
differ-lt zero b p q = q
differ-lt (suc a) zero p q = p
differ-lt (suc a) (suc b) p q = differ-lt a b (omega arith) (omega arith)

-- Both keep to the width of their operands.
pub bit_or-lt : (w a b : ℕ) → a < 2 ^ w → b < 2 ^ w → bit_or a b < 2 ^ w
bit_or-lt zero zero b p q = omega (arith, zero-bit_or b)
bit_or-lt zero (suc a) b p q = absurd (omega arith)
bit_or-lt (suc w) a b p q = omega (
  arith,
  pow-suc 2 w,
  bit_or-halve a b,
  bit_or-lt w (a / 2) (b / 2) (omega (arith, pow-suc 2 w)) (omega (arith, pow-suc 2 w)),
)

pub bit_xor-lt : (w a b : ℕ) → a < 2 ^ w → b < 2 ^ w → bit_xor a b < 2 ^ w
bit_xor-lt zero zero b p q = omega (arith, zero-bit_xor b)
bit_xor-lt zero (suc a) b p q = absurd (omega arith)
bit_xor-lt (suc w) a b p q = omega (
  arith,
  pow-suc 2 w,
  bit_xor-halve a b,
  differ-lt (a % 2) (b % 2) (omega arith) (omega arith),
  bit_xor-lt w (a / 2) (b / 2) (omega (arith, pow-suc 2 w)) (omega (arith, pow-suc 2 w)),
)

-- What the masks of a leading byte leave is small.
pub and_low-lt : (a : ℕ) → (bit_and a 0x1f < 32) × (bit_and a 0x0f < 16) × (bit_and a 0x07 < 8)
and_low-lt a = (
  omega (
    arith,
    bit_and-halve a 31,
    bit_and-halve (a / 2) 15,
    bit_and-halve (a / 2 / 2) 7,
    bit_and-halve (a / 2 / 2 / 2) 3,
    bit_and-halve (a / 2 / 2 / 2 / 2) 1,
    bit_and-zero (a / 2 / 2 / 2 / 2 / 2),
  ),
  omega (
    arith,
    bit_and-halve a 15,
    bit_and-halve (a / 2) 7,
    bit_and-halve (a / 2 / 2) 3,
    bit_and-halve (a / 2 / 2 / 2) 1,
    bit_and-zero (a / 2 / 2 / 2 / 2),
  ),
  omega (
    arith,
    bit_and-halve a 7,
    bit_and-halve (a / 2) 3,
    bit_and-halve (a / 2 / 2) 1,
    bit_and-zero (a / 2 / 2 / 2),
  ),
)

pub and_0x7f-lt : (a : ℕ) → bit_and a 0x7f < 128
and_0x7f-lt a = omega (arith, bit_and-halve a 0x7f, and_0x3f (a / 2))

-- ===== src/Xoroshiro.antt =====
-- include/trieste/xoroshiro.h: the random numbers of the fuzzer. `w` and `v` are STATE_BITS and
-- RESULT_BITS; `a`, `b` and `c` are the parameters of the template.
pub mod Nonzero
mod Samples
use trieste.Prelude.{
  ℕ, zero, suc, ◌+◌, ◌-◌, ◌*◌, ◌/◌, ◌%◌, ◌^◌, bit_or, bit_xor, Bool, ◌&&◌, Option, none, some, List,
  [], ◌∷◌, ◌==◌, if◌then◌else◌,
}

pub record Params : Type 0 where
  pub w : ℕ
  pub v : ℕ
  pub a : ℕ
  pub b : ℕ
  pub c : ℕ

pub record State : Type 0 where
  pub x : ℕ
  pub y : ℕ

-- The generators with 128, 64, 32 and 16 bits of state.
abbrev pub p128r64 : Params
p128r64 = record { w = 64; v = 64; a = 55; b = 14; c = 36 }

abbrev pub p128r32 : Params
p128r32 = record { w = 64; v = 32; a = 55; b = 14; c = 36 }

abbrev pub p64r32 : Params
p64r32 = record { w = 32; v = 32; a = 27; b = 7; c = 20 }

abbrev pub p64r16 : Params
p64r16 = record { w = 32; v = 16; a = 27; b = 7; c = 20 }

abbrev pub p32r16 : Params
p32r16 = record { w = 16; v = 16; a = 13; b = 5; c = 10 }

abbrev pub p32r8 : Params
p32r8 = record { w = 16; v = 8; a = 13; b = 5; c = 10 }

abbrev pub p16r8 : Params
p16r8 = record { w = 8; v = 8; a = 4; b = 7; c = 3 }

unfoldable pub rotl : ℕ → ℕ → ℕ → ℕ
rotl w x k = bit_or (x * 2 ^ k % 2 ^ w) (x / 2 ^ (w - k))

abbrev pub is_zero : State → Bool
is_zero s = s.x == 0 && s.y == 0

-- The state after a call, before the test.
unfoldable pub advanced : Params → State → State
advanced p s =
    let y = bit_xor s.y s.x in
    record {
      x = bit_xor (bit_xor (rotl p.w s.x p.a) y) (y * 2 ^ p.b % 2 ^ p.w);
      y = rotl p.w y p.c;
    }

abbrev pub checked : State → ℕ → Option (ℕ × State)
checked s r = if is_zero s then none else some (r, s)

-- `operator()`; `none` is `abort()`.
unfoldable pub next : Params → State → Option (ℕ × State)
next p s = checked (advanced p s) ((s.x + s.y) % 2 ^ p.w / 2 ^ (p.w - p.v))

abbrev pub state_of : Option (ℕ × State) → Option State
state_of none = none
state_of (some (r, s)) = some s

-- The constructor, and `set_state`, which does the same.
unfoldable pub set_state : Params → ℕ → ℕ → Option State
set_state p x y = if x == 0 && y == 0 then none else state_of (next p (record { x = x; y = y }))

abbrev pub then_draw : ℕ → Option (List ℕ) → Option (List ℕ)
then_draw r none = none
then_draw r (some rs) = some (r ∷ rs)

-- `n` calls, with what they return.
unfoldable pub draws : ℕ → Params → State → Option (List ℕ)
draws zero p s = some []
draws (suc n) p s = elim (next p s) [ none ↦ none | some (r, t) ↦ then_draw r (draws n p t) ]

-- ===== src/RegexEngine/Simulation/Decoded.antt =====
-- The runes that include/trieste/regex_engine.h decodes from a text: each takes some bytes, and
-- together they take all.
use trieste.Prelude.{
  ℕ, zero, suc, bit_and, ◌*◌, ◌+◌, ◌≤◌, ◌<◌, ◌≡◌, refl, Bool, true, false, ◌&&◌, ◌==◌, List, [],
  ◌∷◌, All, length, take, drop, ltb, arith, inl, inr, Bool-cases,
}
use trieste.Prelude.Bits.{and_0x3f, bit_or-shift, and_low-lt, and_0x7f-lt}
use trieste.Utf8.{
  utf8_to_rune, read_two, read_three, read_four, read_bytes, taken, shift_in, value_x,
}
use trieste.RegexEngine.Simulation.{Text, sized, decode_rune, decoded_from, decoded}
use trieste.RegexEngine.Simulation.Prefix.{bytes_before}

read_two-positive : (c : ℕ) (bs : List ℕ) → 0 < (read_two c bs).1
unfolding read_two
read_two-positive c [] = omega arith
read_two-positive c (d ∷ bs) = ground arith

read_three-positive : (c : ℕ) (bs : List ℕ) → 0 < (read_three c bs).1
unfolding read_three
read_three-positive c [] = omega arith
read_three-positive c (d ∷ []) = omega arith
read_three-positive c (d ∷ e ∷ bs) = ground arith

read_four-positive : (c : ℕ) (bs : List ℕ) → 0 < (read_four c bs).1
unfolding read_four
read_four-positive c [] = omega arith
read_four-positive c (d ∷ []) = omega arith
read_four-positive c (d ∷ e ∷ []) = omega arith
read_four-positive c (d ∷ e ∷ f ∷ bs) = ground arith

read_bytes-positive : (c : ℕ) (bs : List ℕ) → 0 < (read_bytes c bs).1
unfolding read_bytes
read_bytes-positive c bs =
    ground (arith, read_two-positive c bs, read_three-positive c bs, read_four-positive c bs)

sized-taken :
    (c : ℕ) (bs : List ℕ) (r : ℕ × ℕ)
    → 0 < r.1
    → (0 < (sized (taken (c ∷ bs) r)).1) × ((sized (taken (c ∷ bs) r)).1 ≤ length (c ∷ bs))
sized-taken c bs (v, zero) h = absurd (omega arith)
sized-taken c bs (v, suc n) h = (omega arith, omega (arith, length-take n bs))
  where
    length-take : (k : ℕ) (xs : List ℕ) → length (take k xs) ≤ length xs
    length-take zero xs = omega arith
    length-take (suc k) [] = omega arith
    length-take (suc k) (x ∷ xs) = omega (arith, length-take k xs)

no_escape : (b : Bool) → (b && false) ≡ true → ⊥
no_escape b k = ground arith

pub decode_rune-width :
    (c : ℕ) (bs : List ℕ) → (0 < (decode_rune c bs).1) × ((decode_rune c bs).1 ≤ length (c ∷ bs))
unfolding decode_rune utf8_to_rune
decode_rune-width c bs = elim (Bool-cases (ltb c 128)) [
  | inl h ↦ rw (h, decode_rune) (omega arith, omega arith)
  | inr h ↦ elim (Bool-cases (c == 92 && false)) [
    | inl g ↦ absurd (no_escape (c == 92) g)
    | inr g ↦
        rw (h, decode_rune, utf8_to_rune, g)
          (sized-taken c bs (read_bytes c bs) (read_bytes-positive c bs))
  ]
]

shift_in-lt : (n c k : ℕ) → n < k → shift_in n c < k * 64
shift_in-lt n c k h =
    let masked : bit_and c value_x < 64 = omega (arith, and_0x3f c) in
    omega (arith, bit_or-shift 6 n (bit_and c value_x) masked, masked, h)

read_two-lt : (c : ℕ) (bs : List ℕ) → (read_two c bs).0 < 0x200000
unfolding read_two
read_two-lt c [] = omega arith
read_two-lt c (d ∷ bs) =
    let two = shift_in-lt (bit_and c 0x1f) d 32 (and_low-lt c).0 in ground (arith, two)

read_three-lt : (c : ℕ) (bs : List ℕ) → (read_three c bs).0 < 0x200000
unfolding read_three
read_three-lt c [] = omega arith
read_three-lt c (d ∷ []) = omega arith
read_three-lt c (d ∷ e ∷ bs) =
    let two = shift_in-lt (bit_and c 0x0f) d 16 (and_low-lt c).1 in
    let three = shift_in-lt (shift_in (bit_and c 0x0f) d) e 1024 two in ground (arith, three)

read_four-lt : (c : ℕ) (bs : List ℕ) → (read_four c bs).0 < 0x200000
unfolding read_four
read_four-lt c [] = omega arith
read_four-lt c (d ∷ []) = omega arith
read_four-lt c (d ∷ e ∷ []) = omega arith
read_four-lt c (d ∷ e ∷ f ∷ bs) =
    let two = shift_in-lt (bit_and c 0x07) d 8 (and_low-lt c).2 in
    let three = shift_in-lt (shift_in (bit_and c 0x07) d) e 512 two in
    let four = shift_in-lt (shift_in (shift_in (bit_and c 0x07) d) e) f 32768 three in
    ground (arith, four)

read_bytes-lt : (c : ℕ) (bs : List ℕ) → (read_bytes c bs).0 < 0x200000
unfolding read_bytes
read_bytes-lt c bs =
    ground (arith, read_two-lt c bs, read_three-lt c bs, read_four-lt c bs, and_0x7f-lt c)

sized_lt :
    (c : ℕ) (bs : List ℕ) (r : ℕ × ℕ) → r.0 < 0x200000 → (sized (taken (c ∷ bs) r)).0 < 0x200000
sized_lt c bs (v, n) h = h

pub decode_rune-ascii : (c : ℕ) (bs : List ℕ) → ltb c 128 ≡ true → (decode_rune c bs).0 ≡ c
unfolding decode_rune
decode_rune-ascii c bs h = rw h refl

-- A rune that is decoded is no label.
pub decode_rune-lt : (c : ℕ) (bs : List ℕ) → (decode_rune c bs).0 < 0x200000
unfolding decode_rune utf8_to_rune
decode_rune-lt c bs = elim (Bool-cases (ltb c 128)) [
  | inl h ↦ rw (h, decode_rune) (ground arith)
  | inr h ↦ elim (Bool-cases (c == 92 && false)) [
    | inl g ↦ absurd (no_escape (c == 92) g)
    | inr g ↦
        rw (h, decode_rune, utf8_to_rune, g) (sized_lt c bs (read_bytes c bs) (read_bytes-lt c bs))
  ]
]

pub length-drop : (n : ℕ) (xs : List ℕ) → n ≤ length xs → length (drop n xs) + n ≡ length xs
length-drop zero xs h = omega arith
length-drop (suc n) [] h = absurd (omega arith)
length-drop (suc n) (x ∷ xs) h = omega (arith, length-drop n xs (omega arith))

abbrev pub Positive : Text → Type 0
Positive = All (λ (x : ℕ × ℕ). 0 < x.1)

decoded_from-Positive : (fuel : ℕ) (bs : List ℕ) → Positive (decoded_from fuel bs)
unfolding decoded_from
decoded_from-Positive fuel [] = tt
decoded_from-Positive zero (c ∷ bs) = tt
decoded_from-Positive (suc fuel) (c ∷ bs) =
    ((decode_rune-width c bs).0, decoded_from-Positive fuel (drop (decode_rune c bs).1 (c ∷ bs)))

pub decoded-Positive : (bs : List ℕ) → Positive (decoded bs)
decoded-Positive bs = decoded_from-Positive (length bs) bs

decoded_from-bytes :
    (fuel : ℕ) (bs : List ℕ)
    → length bs ≤ fuel
    → bytes_before (decoded_from fuel bs) (length (decoded_from fuel bs)) ≡ length bs
unfolding decoded_from bytes_before
decoded_from-bytes zero [] h = refl
decoded_from-bytes (suc fuel) [] h = refl
decoded_from-bytes zero (c ∷ bs) h = absurd (omega arith)
decoded_from-bytes (suc fuel) (c ∷ bs) h =
    let w = decode_rune-width c bs in
    let d = length-drop (decode_rune c bs).1 (c ∷ bs) w.1 in
    omega (
      arith,
      w.0,
      d,
      h,
      decoded_from-bytes fuel (drop (decode_rune c bs).1 (c ∷ bs)) (omega (arith, w.0, d, h)),
    )

-- The runes of a text take all its bytes.
pub decoded-bytes : (bs : List ℕ) → bytes_before (decoded bs) (length (decoded bs)) ≡ length bs
decoded-bytes bs = decoded_from-bytes (length bs) bs (omega arith)

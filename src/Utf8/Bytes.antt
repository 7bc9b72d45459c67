-- ===== src/Utf8/Bytes.antt =====
-- What the masks and shifts of the encoder and the decoder do to each byte.
use trieste.Prelude.{
  ℕ, suc, ◌+◌, ◌*◌, ◌/◌, ◌%◌, ◌^◌, ◌≤◌, ◌<◌, bit_and, bit_or, ◌≡◌, ◌⊎◌, refl, ap, ◌∙◌, true, false,
  List, [], ◌∷◌, ◌++◌, length, ltb, leb, ◌==◌, le→leb, Bool-cases, inl, inr, arith,
}
use trieste.Prelude.Bits.{
  and_0x80, and_0xc0, and_0xe0, and_0xf0, and_0xf8, and_0x7f, and_0x1f, and_0x0f, and_0x07, or_0x80,
  or_0xc0, or_0xe0, or_0xf0, or_0x00, and_0x3f, bit_or-shift,
}
use trieste.Utf8.{
  bad, shift_in, trailing, write_three, write_rune, continues, read_two, read_three, read_four,
  read_bytes,
}

==_is : (a b : ℕ) → a ≡ b → (a == b) ≡ true
==_is a b h = ground arith

==_not : (a b : ℕ) → a < b ⊎ b < a → (a == b) ≡ false
==_not a b h = ground arith

pub trailing-eq : (v : ℕ) → trailing v ≡ v % 64 + 128
trailing-eq v = ap (λ (t : ℕ). bit_or t 0x80) (and_0x3f v) ∙ or_0x80 (v % 64) (omega arith)

pub shift_in-eq : (n t : ℕ) → t < 64 → shift_in n (t + 128) ≡ n * 64 + t
shift_in-eq n t lt =
    ap (λ (u : ℕ). bit_or (n * 2 ^ 6) u) (and_0x3f (t + 128) ∙ omega arith) ∙ bit_or-shift 6 n t lt

pub continues_lem : (t : ℕ) → t < 64 → continues (t + 128) ≡ true
continues_lem t lt = ==_is _ _ (and_0xc0 (t + 128) (omega arith) ∙ omega arith)

-- What the four masks show of a leading byte.
lead1 : (b : ℕ) → b < 128 → (bit_and b 0x80 == 0) ≡ true
lead1 b lt = ==_is _ _ (and_0x80 b (omega arith) ∙ omega arith)

not_lead1 : (b : ℕ) → 128 ≤ b → b < 256 → (bit_and b 0x80 == 0) ≡ false
not_lead1 b le lt = ==_not _ _ (inr (omega (arith, and_0x80 b lt)))

lead2 : (b : ℕ) → b < 32 → (bit_and (b + 192) 0xe0 == 192) ≡ true
lead2 b lt = ==_is _ _ (and_0xe0 (b + 192) (omega arith) ∙ omega arith)

not_lead2 : (b : ℕ) → 224 ≤ b → b < 256 → (bit_and b 0xe0 == 192) ≡ false
not_lead2 b le lt = ==_not _ _ (inr (omega (arith, and_0xe0 b lt)))

lead3 : (b : ℕ) → b < 16 → (bit_and (b + 224) 0xf0 == 224) ≡ true
lead3 b lt = ==_is _ _ (and_0xf0 (b + 224) (omega arith) ∙ omega arith)

not_lead3 : (b : ℕ) → 240 ≤ b → b < 256 → (bit_and b 0xf0 == 224) ≡ false
not_lead3 b le lt = ==_not _ _ (inr (omega (arith, and_0xf0 b lt)))

lead4 : (b : ℕ) → b < 8 → (bit_and (b + 240) 0xf8 == 240) ≡ true
lead4 b lt = ==_is _ _ (and_0xf8 (b + 240) (omega arith) ∙ omega arith)

read_one-lead : (b : ℕ) (rest : List ℕ) → b < 128 → read_bytes b rest ≡ (b, 1)
unfolding read_bytes
read_one-lead b rest lt = rw (lead1 b lt, and_0x7f b (omega arith)) (λ i. (small i, 1))
  where
    small : b % 128 ≡ b
    small = omega arith

read_two-lead :
    (b t : ℕ) (rest : List ℕ)
    → b < 32
    → t < 64
    → read_bytes (b + 192) ((t + 128) ∷ rest) ≡ (b * 64 + t, 2)
unfolding read_bytes read_two
read_two-lead b t rest hb ht =
    rw
      (
        not_lead1 (b + 192) (omega arith) (omega arith),
        lead2 b hb,
        le→leb 1 (suc (length rest)) (omega arith),
        continues_lem t ht,
      )
      (λ i. (value i, 2))
  where
    value : shift_in (bit_and (b + 192) 0x1f) (t + 128) ≡ b * 64 + t
    value =
        ap (λ (n : ℕ). shift_in n (t + 128)) (and_0x1f (b + 192) (omega arith) ∙ omega arith)
        ∙ shift_in-eq b t ht

read_three-lead :
    (b t u : ℕ) (rest : List ℕ)
    → b < 16
    → t < 64
    → u < 64
    → read_bytes (b + 224) ((t + 128) ∷ (u + 128) ∷ rest) ≡ ((b * 64 + t) * 64 + u, 3)
unfolding read_bytes read_three
read_three-lead b t u rest hb ht hu =
    rw
      (
        not_lead1 (b + 224) (omega arith) (omega arith),
        not_lead2 (b + 224) (omega arith) (omega arith),
        lead3 b hb,
        le→leb 2 (suc (suc (length rest))) (omega arith),
        continues_lem t ht,
        continues_lem u hu,
      )
      (λ i. (value i, 3))
  where
    value : shift_in (shift_in (bit_and (b + 224) 0x0f) (t + 128)) (u + 128) ≡ (b * 64 + t) * 64 + u
    value =
        ap (λ (n : ℕ). shift_in (shift_in n (t + 128)) (u + 128))
          (and_0x0f (b + 224) (omega arith) ∙ omega arith)
        ∙ ap (λ (n : ℕ). shift_in n (u + 128)) (shift_in-eq b t ht)
        ∙ shift_in-eq (b * 64 + t) u hu

read_four-lead :
    (b t u w : ℕ) (rest : List ℕ)
    → b < 8
    → t < 64
    → u < 64
    → w < 64
    → read_bytes (b + 240) ((t + 128) ∷ (u + 128) ∷ (w + 128) ∷ rest)
      ≡ (((b * 64 + t) * 64 + u) * 64 + w, 4)
unfolding read_bytes read_four
read_four-lead b t u w rest hb ht hu hw =
    rw
      (
        not_lead1 (b + 240) (omega arith) (omega arith),
        not_lead2 (b + 240) (omega arith) (omega arith),
        not_lead3 (b + 240) (omega arith) (omega arith),
        lead4 b hb,
        le→leb 3 (suc (suc (suc (length rest)))) (omega arith),
        continues_lem t ht,
        continues_lem u hu,
        continues_lem w hw,
      )
      (λ i. (value i, 4))
  where
    value :
        shift_in (shift_in (shift_in (bit_and (b + 240) 0x07) (t + 128)) (u + 128)) (w + 128)
        ≡ ((b * 64 + t) * 64 + u) * 64 + w
    value =
        ap (λ (n : ℕ). shift_in (shift_in (shift_in n (t + 128)) (u + 128)) (w + 128))
          (and_0x07 (b + 240) (omega arith) ∙ omega arith)
        ∙ ap (λ (n : ℕ). shift_in (shift_in n (u + 128)) (w + 128)) (shift_in-eq b t ht)
        ∙ ap (λ (n : ℕ). shift_in n (w + 128)) (shift_in-eq (b * 64 + t) u hu)
        ∙ shift_in-eq ((b * 64 + t) * 64 + u) w hw

pub write_one-eq : (v : ℕ) → v < 128 → write_rune v ≡ v ∷ []
unfolding write_rune
write_one-eq v lt = rw (le→leb v 127 (omega arith), or_0x00 v lt) refl

not_leb : (a b : ℕ) → b < a → leb a b ≡ false
not_leb a b h = ground arith

write_two-eq : (v : ℕ) → 128 ≤ v → v < 2048 → write_rune v ≡ (v / 64 + 192) ∷ (v % 64 + 128) ∷ []
unfolding write_rune
write_two-eq v le lt =
    rw
      (
        not_leb v 127 (omega arith),
        le→leb v 2047 (omega arith),
        trailing-eq v,
        or_0xc0 (v / 64) (omega arith),
      )
      refl

write_three-eq :
    (v : ℕ)
    → v < 65536
    → write_three v ≡ (v / 64 / 64 + 224) ∷ (v / 64 % 64 + 128) ∷ (v % 64 + 128) ∷ []
unfolding write_three
write_three-eq v lt =
    rw (trailing-eq v, trailing-eq (v / 64), or_0xe0 (v / 64 / 64) (omega arith)) refl

pub write_rune-three : (v : ℕ) → 2048 ≤ v → v < 65536 → write_rune v ≡ write_three v
unfolding write_rune
write_rune-three v le lt =
    rw (not_leb v 127 (omega arith), not_leb v 2047 (omega arith), le→leb v 65535 (omega arith))
      refl

write_four-eq :
    (v : ℕ)
    → 65536 ≤ v
    → v < 1114112
    → write_rune v
      ≡ (v / 64 / 64 / 64 + 240)
        ∷ (v / 64 / 64 % 64 + 128)
        ∷ (v / 64 % 64 + 128)
        ∷ (v % 64 + 128)
        ∷ []
unfolding write_rune
write_four-eq v le lt =
    rw
      (
        not_leb v 127 (omega arith),
        not_leb v 2047 (omega arith),
        not_leb v 65535 (omega arith),
        le→leb v 1114111 (omega arith),
        trailing-eq v,
        trailing-eq (v / 64),
        trailing-eq (v / 64 / 64),
        or_0xf0 (v / 64 / 64 / 64) (omega arith),
      )
      refl

-- Anything above the last rune is written as the replacement character.
pub write_rune-bad : (v : ℕ) → 1114112 ≤ v → write_rune v ≡ write_rune bad
unfolding write_rune
write_rune-bad v le =
    rw
      (
        not_leb v 127 (omega arith),
        not_leb v 2047 (omega arith),
        not_leb v 65535 (omega arith),
        not_leb v 1114111 (omega arith),
      )
      refl

-- What the decoder reads off the bytes `s`, whatever follows them.
abbrev pub Reads : ℕ → List ℕ → Type 0
Reads v [] = ⊥
Reads v (c0 ∷ s) = (rest : List ℕ) → read_bytes c0 (s ++ rest) ≡ (v, suc (length s))

pub write_rune-Reads : (v : ℕ) → v < 1114112 → Reads v (write_rune v)
write_rune-Reads v lt = elim (Bool-cases (ltb v 128)) [
  | inl h ↦ one (ground arith)
  | inr h ↦ elim (Bool-cases (ltb v 2048)) [
    | inl k ↦ two (ground arith) (ground arith)
    | inr k ↦ elim (Bool-cases (ltb v 65536)) [
      | inl l ↦ three (ground arith) (ground arith)
      | inr l ↦ four (ground arith)
    ]
  ]
]
  where
    one : v < 128 → Reads v (write_rune v)
    one h = rw (write_one-eq v h) (λ rest. read_one-lead v rest h)

    join : (a : ℕ) → a / 64 * 64 + a % 64 ≡ a
    join a = omega arith

    two : 128 ≤ v → v < 2048 → Reads v (write_rune v)
    two h k = rw (write_two-eq v h k) (λ rest.
        read_two-lead (v / 64) (v % 64) rest (omega arith) (omega arith) ∙ λ i. (join v i, 2))

    three : 2048 ≤ v → v < 65536 → Reads v (write_rune v)
    three h k =
        rw (write_rune-three v h k, write_three-eq v k)
          (λ rest.
            read_three-lead (v / 64 / 64) (v / 64 % 64) (v % 64) rest (omega arith) (omega arith)
              (omega arith)
            ∙ λ i. (whole i, 3))
      where
        whole : (v / 64 / 64 * 64 + v / 64 % 64) * 64 + v % 64 ≡ v
        whole = omega arith

    four : 65536 ≤ v → Reads v (write_rune v)
    four h = rw (write_four-eq v h lt) (λ rest.
        read_four-lead (v / 64 / 64 / 64) (v / 64 / 64 % 64) (v / 64 % 64) (v % 64) rest
          (omega arith) (omega arith) (omega arith) (omega arith)
        ∙ λ i. (whole i, 4))
      where
        whole : ((v / 64 / 64 / 64 * 64 + v / 64 / 64 % 64) * 64 + v / 64 % 64) * 64 + v % 64 ≡ v
        whole = omega arith

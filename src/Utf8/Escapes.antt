-- ===== src/Utf8/Escapes.antt =====
-- `unescape_hexunicode` undoes `escape_unicode`.
use trieste.Prelude.{
  ℕ, zero, suc, ◌+◌, ◌*◌, ◌/◌, ◌%◌, ◌^◌, ◌≤◌, ◌<◌, ◌≡◌, ◌≢◌, refl, ap, ◌∙◌, subst, Bool, true,
  false, ◌&&◌, ◌||◌, some, List, [], ◌∷◌, ◌++◌, All, length, length-append, drop, ltb, leb, ◌==◌,
  le→leb, Bool-cases, inl, inr, arith,
}
use trieste.Utf8.{
  write_rune, hex_value, hex_run, hex_number, after_prefix, stoul16, is_space, read_escape,
  utf8_to_rune,
}
use trieste.Utf8.Strings.{
  write_runes, followed, hex_digit, hex_padded, escaped, escape_from, escape_unicode, unescape_from,
  unescape_hexunicode,
}
use trieste.Utf8.Bytes.{write_one-eq}
use trieste.Utf8.RoundTrip.{write_rune-Cons, drop-append, utf8_to_rune-write_rune}

hex_value-hex_digit : (d : ℕ) → d < 16 → hex_value (hex_digit d) ≡ some d
unfolding hex_value
hex_value-hex_digit d lt = ground arith

-- A digit is no white space, no sign, and not the `x` of a prefix.
hex_digit-plain :
    (d : ℕ)
    → d < 16
    → (is_space (hex_digit d) ≡ false)
      × ((hex_digit d == 45) ≡ false)
      × ((hex_digit d == 43) ≡ false)
      × ((hex_digit d == 120 || hex_digit d == 88) ≡ false)
hex_digit-plain d lt = (ground arith, ground arith, ground arith, ground arith)

abbrev digits : List ℕ → List ℕ
digits [] = []
digits (d ∷ ds) = hex_digit d ∷ digits ds

-- The value of a list of digits in base 16, after those that are worth `n`.
abbrev horner : ℕ → List ℕ → ℕ
horner n [] = n
horner n (d ∷ ds) = horner (n * 16 + d) ds

hex_run-digits : (n : ℕ) (ds : List ℕ) → All (λ d. d < 16) ds → hex_run n (digits ds) ≡ horner n ds
unfolding hex_run
hex_run-digits n [] lts = refl
hex_run-digits n (d ∷ ds) (lt, lts) =
    rw (hex_value-hex_digit d lt, hex_run) (hex_run-digits (n * 16 + d) ds lts)

hex_number-digits :
    (a : ℕ) (ds : List ℕ)
    → a < 16
    → All (λ d. d < 16) ds
    → hex_number (digits (a ∷ ds)) ≡ some (horner a ds)
unfolding hex_number
hex_number-digits a ds lt lts =
    rw (hex_value-hex_digit a lt, hex_number) (ap some (hex_run-digits a ds lts))

after_prefix-digits :
    (a b : ℕ) (ds : List ℕ) → b < 16 → after_prefix (digits (a ∷ b ∷ ds)) ≡ digits (a ∷ b ∷ ds)
unfolding after_prefix
after_prefix-digits a b ds lt =
    let (_, _, _, plain) = hex_digit-plain b lt in rw (plain, and_false (hex_digit a == 48)) refl
  where
    and_false : (b : Bool) → (b && false) ≡ false
    and_false true = refl
    and_false false = refl

stoul16-digits :
    (a b : ℕ) (ds : List ℕ)
    → a < 16
    → b < 16
    → All (λ d. d < 16) ds
    → stoul16 (digits (a ∷ b ∷ ds)) ≡ some (horner a (b ∷ ds) % 2 ^ 32)
unfolding stoul16
stoul16-digits a b ds ha hb hs =
    let (space, minus, plus, _) = hex_digit-plain a ha in
    rw (space, minus, plus, after_prefix-digits a b ds hb, hex_number-digits a (b ∷ ds) ha (hb, hs))
      refl

-- An escape of four digits is read back as its value, and takes its six characters.
read-hex4 :
    (v : ℕ) (rest : List ℕ)
    → v < 65536
    → utf8_to_rune (92 ∷ 117 ∷ hex_padded 4 v ++ rest) true ≡ some (v, 92 ∷ 117 ∷ hex_padded 4 v)
unfolding utf8_to_rune read_escape hex_padded
read-hex4 v rest lt =
    rw
      (
        and_false (leb 3 (suc (suc (suc (suc (suc (suc (length rest)))))))),
        le→leb 5 (suc (suc (suc (suc (suc (suc (length rest))))))) (omega arith),
        stoul16-digits (v / 16 / 16 / 16 % 16) (v / 16 / 16 % 16) (v / 16 % 16 ∷ v % 16 ∷ [])
            (omega arith) (omega arith) (omega arith, (omega arith, tt)),
      )
      (λ i. some (whole i, 92 ∷ 117 ∷ hex_padded 4 v))
  where
    and_false : (b : Bool) → (b && false) ≡ false
    and_false true = refl
    and_false false = refl

    whole :
        horner (v / 16 / 16 / 16 % 16) (v / 16 / 16 % 16 ∷ v / 16 % 16 ∷ v % 16 ∷ []) % 2 ^ 32 ≡ v
    whole = omega arith

-- The same for eight digits, ten characters.
read-hex8 :
    (v : ℕ) (rest : List ℕ)
    → v < 4294967296
    → utf8_to_rune (92 ∷ 85 ∷ hex_padded 8 v ++ rest) true ≡ some (v, 92 ∷ 85 ∷ hex_padded 8 v)
unfolding utf8_to_rune read_escape hex_padded
read-hex8 v rest lt =
    rw
      (
        and_false (leb 3 (suc (suc (suc (suc (suc (suc (suc (suc (suc (suc (length rest)))))))))))),
        and_false (leb 5 (suc (suc (suc (suc (suc (suc (suc (suc (suc (suc (length rest)))))))))))),
        le→leb 9 (suc (suc (suc (suc (suc (suc (suc (suc (suc (suc (length rest)))))))))))
            (omega arith),
        stoul16-digits (v / 16 / 16 / 16 / 16 / 16 / 16 / 16 % 16)
            (v / 16 / 16 / 16 / 16 / 16 / 16 % 16) low (omega arith) (omega arith)
            (
              omega arith,
              (omega arith, (omega arith, (omega arith, (omega arith, (omega arith, tt))))),
            ),
      )
      (λ i. some (whole i, 92 ∷ 85 ∷ hex_padded 8 v))
  where
    and_false : (b : Bool) → (b && false) ≡ false
    and_false true = refl
    and_false false = refl

    low : List ℕ
    low =
        v / 16 / 16 / 16 / 16 / 16 % 16
        ∷ v / 16 / 16 / 16 / 16 % 16
        ∷ v / 16 / 16 / 16 % 16
        ∷ v / 16 / 16 % 16
        ∷ v / 16 % 16
        ∷ v % 16
        ∷ []

    whole :
        horner
            (v / 16 / 16 / 16 / 16 / 16 / 16 / 16 % 16)
            (v / 16 / 16 / 16 / 16 / 16 / 16 % 16 ∷ low)
          % 2 ^ 32
        ≡ v
    whole = omega arith

-- One turn of the loop on the string `s`, whatever follows.
abbrev Unescapes : ℕ → List ℕ → Type 0
Unescapes v [] = ⊥
Unescapes v (c ∷ s) =
    (rest : List ℕ) (n : ℕ)
    → unescape_from (c ∷ (s ++ rest)) (suc n) ≡ followed (write_rune v) (unescape_from rest n)

unescape-rune :
    (v n : ℕ) (s rest : List ℕ)
    → utf8_to_rune (92 ∷ (s ++ rest)) true ≡ some (v, 92 ∷ s)
    → unescape_from (92 ∷ (s ++ rest)) (suc n) ≡ followed (write_rune v) (unescape_from rest n)
unfolding unescape_from
unescape-rune v n s rest h =
    rw (h, unescape_from)
      (ap (λ t. followed (write_rune v) (unescape_from t n)) (drop-append s rest))

unescape-plain : (v : ℕ) → v < 128 → (v == 92) ≡ false → Unescapes v (v ∷ [])
unfolding unescape_from
unescape-plain v lt h = λ rest n. rw (h, write_one-eq v lt, unescape_from) refl

-- A code point other than the backslash, escaped and read back by the loop.
escaped-Unescapes : (v : ℕ) → v < 1114112 → v ≢ 92 → Unescapes v (escaped v)
unfolding escaped hex_padded
escaped-Unescapes v lt ne = elim (Bool-cases (ltb 0x7fff v)) [
  | inl h ↦
      rw h (λ rest n. unescape-rune v n (85 ∷ hex_padded 8 v) rest (read-hex8 v rest (omega arith)))
  | inr h ↦ elim (Bool-cases (ltb 0x7f v)) [
    | inl k ↦
        rw (h, k)
          (λ rest n.
            unescape-rune v n (117 ∷ hex_padded 4 v) rest (read-hex4 v rest (ground arith)))
    | inr k ↦ rw (h, k) (unescape-plain v (ground arith) (ground arith))
  ]
]

escapes : List ℕ → List ℕ
escapes [] = []
escapes (v ∷ vs) = escaped v ++ escapes vs

escapes-unescape :
    (n : ℕ) (vs : List ℕ)
    → All (λ v. (v < 1114112) × (v ≢ 92)) vs
    → length (escapes vs) ≤ n
    → unescape_from (escapes vs) n ≡ some (write_runes vs)
unfolding unescape_from escapes write_runes
escapes-unescape n [] ok le = refl
escapes-unescape n (v ∷ vs) ((lt, ne), ok) le =
    start (escaped v) n (λ k. escapes-unescape k vs ok) (escaped-Unescapes v lt ne) le
  where
    start :
        (s : List ℕ) (k : ℕ)
        → ((k : ℕ) → length (escapes vs) ≤ k → unescape_from (escapes vs) k ≡ some (write_runes vs))
        → Unescapes v s
        → length (s ++ escapes vs) ≤ k
        → unescape_from (s ++ escapes vs) k ≡ some (write_rune v ++ write_runes vs)
    start [] k ih u le = absurd u
    start (c ∷ s) zero ih u le = absurd (omega arith)
    start (c ∷ s) (suc k) ih u le =
        u (escapes vs) k
        ∙ ap (followed (write_rune v)) (ih k (omega (arith, length-append s (escapes vs))))

escape-step :
    (v n c : ℕ) (s cs : List ℕ)
    → utf8_to_rune (c ∷ cs) false ≡ some (v, c ∷ s)
    → escape_from (c ∷ cs) (suc n) ≡ followed (escaped v) (escape_from (drop (length s) cs) n)
unfolding escape_from
escape-step v n c s cs h = rw (h, escape_from) refl

escape_from-write_runes :
    (n : ℕ) (vs : List ℕ)
    → All (λ v. (v < 1114112) × (v ≢ 92)) vs
    → length (write_runes vs) ≤ n
    → escape_from (write_runes vs) n ≡ some (escapes vs)
unfolding escape_from escapes write_runes
escape_from-write_runes n [] ok le = refl
escape_from-write_runes n (v ∷ vs) ((lt, ne), ok) le =
    let (c, s, e) = write_rune-Cons v lt in
    rw e (
      start c s n (λ k. escape_from-write_runes k vs ok)
        (subst (λ t. length (t ++ write_runes vs) ≤ n) e le)
        (subst (λ t. utf8_to_rune (t ++ write_runes vs) false ≡ some (v, t)) e
          (utf8_to_rune-write_rune v (write_runes vs) lt)))
  where
    start :
        (c : ℕ) (s : List ℕ) (k : ℕ)
        → ((k : ℕ)
            → length (write_runes vs) ≤ k
            → escape_from (write_runes vs) k ≡ some (escapes vs))
        → length (c ∷ (s ++ write_runes vs)) ≤ k
        → utf8_to_rune (c ∷ (s ++ write_runes vs)) false ≡ some (v, c ∷ s)
        → escape_from (c ∷ (s ++ write_runes vs)) k ≡ some (escaped v ++ escapes vs)
    start c s zero ih le h = absurd (omega arith)
    start c s (suc k) ih le h =
        escape-step v k c s (s ++ write_runes vs) h
        ∙ ap (λ rest. followed (escaped v) (escape_from rest k)) (drop-append s (write_runes vs))
        ∙ ap (followed (escaped v)) (ih k (omega (arith, length-append s (write_runes vs))))

-- Text in UTF-8 with no backslash among its code points is escaped, and unescaping gives it
-- back.
pub unescape_hexunicode-escape_unicode :
    (vs : List ℕ)
    → All (λ v. (v < 1114112) × (v ≢ 92)) vs
    → (text : List ℕ) × (escape_unicode (write_runes vs) ≡ some text)
      × (unescape_hexunicode text ≡ some (write_runes vs))
unfolding escape_unicode unescape_hexunicode
unescape_hexunicode-escape_unicode vs ok = (
  escapes vs,
  escape_from-write_runes (length (write_runes vs)) vs ok (omega arith),
  escapes-unescape (length (escapes vs)) vs ok (omega arith),
)

-- ===== src/Utf8/Readers.antt =====
-- What the readers of UTF-16 and UTF-32 give on well-formed text, and where a byte order mark
-- sends `read_to_end`.
use trieste.Prelude.{
  ℕ, zero, suc, ◌+◌, ◌*◌, ◌/◌, ◌%◌, ◌^◌, ◌<◌, bit_or, ◌≡◌, ◌⊎◌, refl, ap, ◌∙◌, Bool, true, false,
  ◌&&◌, Option, none, some, List, [], ◌∷◌, ◌++◌, All, length, leb, ◌==◌, le→leb, arith,
}
use trieste.Prelude.Bits.{bit_or-shift}
use trieste.Utf8.{write_rune}
use trieste.Utf8.Strings.{write_runes, followed}
use trieste.Utf8.Files.{
  word, double_word, read_utf16_be, read_utf16_le, read_utf32_be, read_utf32_le, read_to_end,
}

-- UTF-16 for the code points below 2^16, and UTF-32, as the standard defines them.
pub utf16_be : List ℕ → List ℕ
utf16_be [] = []
utf16_be (v ∷ vs) = v / 256 % 256 ∷ v % 256 ∷ utf16_be vs

pub utf16_le : List ℕ → List ℕ
utf16_le [] = []
utf16_le (v ∷ vs) = v % 256 ∷ v / 256 % 256 ∷ utf16_le vs

pub utf32_be : List ℕ → List ℕ
utf32_be [] = []
utf32_be (v ∷ vs) = v / 16777216 % 256 ∷ v / 65536 % 256 ∷ v / 256 % 256 ∷ v % 256 ∷ utf32_be vs

pub utf32_le : List ℕ → List ℕ
utf32_le [] = []
utf32_le (v ∷ vs) = v % 256 ∷ v / 256 % 256 ∷ v / 65536 % 256 ∷ v / 16777216 % 256 ∷ utf32_le vs

word-eq : (v : ℕ) → v < 65536 → word (v / 256 % 256) (v % 256) ≡ v
word-eq v lt = bit_or-shift 8 (v / 256 % 256) (v % 256) (omega arith) ∙ omega arith

double_word-eq :
    (v : ℕ)
    → v < 4294967296
    → double_word (v / 16777216 % 256) (v / 65536 % 256) (v / 256 % 256) (v % 256) ≡ v
double_word-eq v lt =
    ap (λ (t : ℕ). bit_or (bit_or t (v / 256 % 256 * 2 ^ 8)) (v % 256))
      (bit_or-shift 24 (v / 16777216 % 256) (v / 65536 % 256 * 2 ^ 16) (omega arith) ∙ high)
    ∙ ap (λ (t : ℕ). bit_or t (v % 256))
        (bit_or-shift 16 (v / 65536) (v / 256 % 256 * 2 ^ 8) (omega arith) ∙ middle)
    ∙ bit_or-shift 8 (v / 256) (v % 256) (omega arith)
    ∙ omega arith
  where
    high : v / 16777216 % 256 * 2 ^ 24 + v / 65536 % 256 * 2 ^ 16 ≡ v / 65536 * 2 ^ 16
    high = omega arith

    middle : v / 65536 * 2 ^ 16 + v / 256 % 256 * 2 ^ 8 ≡ v / 256 * 2 ^ 8
    middle = omega arith

pub read_utf16_be-utf16_be :
    (vs : List ℕ) → All (λ v. v < 65536) vs → read_utf16_be (utf16_be vs) ≡ write_runes vs
unfolding read_utf16_be utf16_be write_runes
read_utf16_be-utf16_be [] lts = refl
read_utf16_be-utf16_be (v ∷ vs) (lt, lts) =
    λ i. write_rune (word-eq v lt i) ++ read_utf16_be-utf16_be vs lts i

pub read_utf16_le-utf16_le :
    (vs : List ℕ) → All (λ v. v < 65536) vs → read_utf16_le (utf16_le vs) ≡ write_runes vs
unfolding read_utf16_le utf16_le write_runes
read_utf16_le-utf16_le [] lts = refl
read_utf16_le-utf16_le (v ∷ vs) (lt, lts) =
    λ i. write_rune (word-eq v lt i) ++ read_utf16_le-utf16_le vs lts i

pub read_utf32_be-utf32_be :
    (vs : List ℕ)
    → All (λ v. v < 4294967296) vs
    → read_utf32_be (utf32_be vs) ≡ some (write_runes vs)
unfolding read_utf32_be utf32_be write_runes
read_utf32_be-utf32_be [] lts = refl
read_utf32_be-utf32_be (v ∷ vs) (lt, lts) =
    λ i. followed (write_rune (double_word-eq v lt i)) (read_utf32_be-utf32_be vs lts i)

pub read_utf32_le-utf32_le :
    (vs : List ℕ)
    → All (λ v. v < 4294967296) vs
    → read_utf32_le (utf32_le vs) ≡ some (write_runes vs)
unfolding read_utf32_le utf32_le write_runes
read_utf32_le-utf32_le [] lts = refl
read_utf32_le-utf32_le (v ∷ vs) (lt, lts) =
    λ i. followed (write_rune (double_word-eq v lt i)) (read_utf32_le-utf32_le vs lts i)

-- A file that starts with the byte order mark of an encoding is read as text in it, with or
-- without detection. After the mark of UTF-8 the bytes are passed on; text of code points below
-- 2^16 in big-endian UTF-16, and text of numbers below 2^32 in either form of UTF-32, give the
-- UTF-8 of their code points; so does little-endian UTF-16 that does not begin with a zero.
pub read_to_end-marked :
    (autodetect : Bool) (text vs ws : List ℕ) (v : ℕ)
    → 0 < v
    → v < 65536
    → All (λ u. u < 65536) vs
    → All (λ u. u < 4294967296) ws
    → (read_to_end (0xef ∷ 0xbb ∷ 0xbf ∷ text) autodetect ≡ some text)
      × (read_to_end (0xfe ∷ 0xff ∷ utf16_be vs) autodetect ≡ some (write_runes vs))
      × (read_to_end (0x00 ∷ 0x00 ∷ 0xfe ∷ 0xff ∷ utf32_be ws) autodetect ≡ some (write_runes ws))
      × (read_to_end (0xff ∷ 0xfe ∷ 0x00 ∷ 0x00 ∷ utf32_le ws) autodetect ≡ some (write_runes ws))
      × (read_to_end (0xff ∷ 0xfe ∷ utf16_le (v ∷ vs)) autodetect ≡ some (write_runes (v ∷ vs)))
unfolding read_to_end utf16_le
read_to_end-marked autodetect text vs ws v pos lt lts wide = (
  rw (long (suc (length text))) refl,
  rw (long (length (utf16_be vs))) (ap some (read_utf16_be-utf16_be vs lts)),
  rw (long (suc (suc (length (utf32_be ws))))) (read_utf32_be-utf32_be ws wide),
  rw (long (suc (suc (length (utf32_le ws))))) (read_utf32_le-utf32_le ws wide),
  rw (long (suc (suc (length (utf16_le vs)))), no_mark (v % 256) (v / 256 % 256) (omega arith))
      (ap some (read_utf16_le-utf16_le (v ∷ vs) (lt, lts))),
)
  where
    long : (n : ℕ) → leb 2 (suc (suc n)) ≡ true
    long n = le→leb 2 (suc (suc n)) (omega arith)

    no_mark : (a b : ℕ) → 0 < a + b → (a == 0 && b == 0) ≡ false
    no_mark zero b h = ground arith
    no_mark (suc a) b h = ground arith

followed-some :
    (s : List ℕ) (o : Option (List ℕ))
    → (t : List ℕ) × (o ≡ some t)
    → (t : List ℕ) × (followed s o ≡ some t)
followed-some s o (t, e) = (s ++ t, ap (followed s) e)

-- Neither reader of UTF-32 reads outside a string whose size is a multiple of four.
pub read_utf32-in_range :
    (contents : List ℕ)
    → length contents % 4 ≡ 0
    → ((t : List ℕ) × (read_utf32_be contents ≡ some t))
      × ((t : List ℕ) × (read_utf32_le contents ≡ some t))
unfolding read_utf32_be read_utf32_le
read_utf32-in_range [] h = (([], refl), ([], refl))
read_utf32-in_range (a ∷ []) h = absurd (omega arith)
read_utf32-in_range (a ∷ b ∷ []) h = absurd (omega arith)
read_utf32-in_range (a ∷ b ∷ c ∷ []) h = absurd (omega arith)
read_utf32-in_range (a ∷ b ∷ c ∷ d ∷ rest) h =
    let (be, le) = read_utf32-in_range rest (omega arith) in
    (
      followed-some (write_rune (double_word a b c d)) _ be,
      followed-some (write_rune (double_word d c b a)) _ le,
    )

-- When the size is one or two above a multiple of four, both readers read behind the terminator.
pub read_utf32-out_of_range :
    (contents : List ℕ)
    → length contents % 4 ≡ 1 ⊎ length contents % 4 ≡ 2
    → (read_utf32_be contents ≡ none) × (read_utf32_le contents ≡ none)
unfolding read_utf32_be read_utf32_le
read_utf32-out_of_range [] h = absurd (ground arith)
read_utf32-out_of_range (a ∷ []) h = (refl, refl)
read_utf32-out_of_range (a ∷ b ∷ []) h = (refl, refl)
read_utf32-out_of_range (a ∷ b ∷ c ∷ []) h = absurd (ground arith)
read_utf32-out_of_range (a ∷ b ∷ c ∷ d ∷ rest) h =
    let (be, le) = read_utf32-out_of_range rest (ground arith) in
    (
      ap (followed (write_rune (double_word a b c d))) be,
      ap (followed (write_rune (double_word d c b a))) le,
    )

-- ===== src/Utf8/Files.antt =====
-- The rest of `include/trieste/utf8.h`: the guesses at an encoding, the readers of UTF-16 and
-- UTF-32, and `read_to_end` on the bytes of the file. `none` stands for the `std::out_of_range`
-- of `substr`, and for a read behind the terminator of the string.
use trieste.Prelude.{
  ℕ, zero, suc, ◌*◌, ◌%◌, ◌^◌, bit_or, Bool, false, ◌&&◌, not, Option, none, some, List, [], ◌∷◌,
  ◌++◌, length, ltb, leb, ◌==◌, if◌then◌else◌, elem,
}
use trieste.Utf8.{write_rune, bad}
use trieste.Utf8.Strings.{followed, utf8_to_runestring, sanitize_utf8}

pub data DetectResult : Type 0 where
  nothing : DetectResult
  big_endian : DetectResult
  little_endian : DetectResult

unfoldable pub detect_utf8 : List ℕ → Bool
detect_utf8 contents = elim (utf8_to_runestring contents false) [
  | none ↦ false
  | some runes ↦ not (elem bad runes)
]

abbrev pub word : ℕ → ℕ → ℕ
word b0 b1 = bit_or (b0 * 2 ^ 8) b1

abbrev pub double_word : ℕ → ℕ → ℕ → ℕ → ℕ
double_word b0 b1 b2 b3 = bit_or (bit_or (bit_or (b0 * 2 ^ 24) (b1 * 2 ^ 16)) (b2 * 2 ^ 8)) b3

abbrev pub common_big16 : List ℕ
common_big16 =
    0x002c ∷ 0x0022 ∷ 0x0028 ∷ 0x0029 ∷ 0x005b ∷ 0x005d ∷ 0x007b ∷ 0x007d ∷ 0x003a ∷ 0x003b ∷ 0x0020
    ∷ 0x000a ∷ []

abbrev pub common_little16 : List ℕ
common_little16 =
    0x2c00 ∷ 0x2200 ∷ 0x2800 ∷ 0x2900 ∷ 0x5b00 ∷ 0x5d00 ∷ 0x7b00 ∷ 0x7d00 ∷ 0x3a00 ∷ 0x3b00 ∷ 0x2000
    ∷ 0x0a00 ∷ []

abbrev pub common_big32 : List ℕ
common_big32 =
    0x0000002c ∷ 0x00000022 ∷ 0x00000028 ∷ 0x00000029 ∷ 0x0000005b ∷ 0x0000005d ∷ 0x0000007b
    ∷ 0x0000007d ∷ 0x0000003a ∷ 0x0000003b ∷ 0x00000020 ∷ 0x0000000a ∷ []

abbrev pub common_little32 : List ℕ
common_little32 =
    0x2c000000 ∷ 0x22000000 ∷ 0x28000000 ∷ 0x29000000 ∷ 0x5b000000 ∷ 0x5d000000 ∷ 0x7b000000
    ∷ 0x7d000000 ∷ 0x3a000000 ∷ 0x3b000000 ∷ 0x20000000 ∷ 0x0a000000 ∷ []

abbrev pub counted : List ℕ → ℕ → ℕ → ℕ
counted common value count = if elem value common then suc count else count

-- The comparison of the two counts at the end of both detectors.
abbrev pub more_of : ℕ → ℕ → DetectResult
more_of le_counts be_counts =
    if ltb be_counts le_counts
    then little_endian
    else if ltb le_counts be_counts
    then big_endian
    else nothing

unfoldable pub count16 : List ℕ → ℕ → ℕ → DetectResult
count16 [] le_counts be_counts = more_of le_counts be_counts
count16 (b0 ∷ []) le_counts be_counts = nothing
count16 (b0 ∷ b1 ∷ rest) le_counts be_counts =
    count16 rest (counted common_little16 (word b0 b1) le_counts)
      (counted common_big16 (word b0 b1) be_counts)

-- The last but one clause of the loop is not reached: the size is even.
unfoldable pub detect_utf16 : List ℕ → DetectResult
detect_utf16 contents = if length contents % 2 == 0 then count16 contents 0 0 else nothing

unfoldable pub count32 : List ℕ → ℕ → ℕ → DetectResult
count32 [] le_counts be_counts = more_of le_counts be_counts
count32 (b0 ∷ []) le_counts be_counts = nothing
count32 (b0 ∷ b1 ∷ []) le_counts be_counts = nothing
count32 (b0 ∷ b1 ∷ b2 ∷ []) le_counts be_counts = nothing
count32 (b0 ∷ b1 ∷ b2 ∷ b3 ∷ rest) le_counts be_counts =
    count32 rest (counted common_little32 (double_word b0 b1 b2 b3) le_counts)
      (counted common_big32 (double_word b0 b1 b2 b3) be_counts)

unfoldable pub detect_utf32 : List ℕ → DetectResult
detect_utf32 contents = if length contents % 4 == 0 then count32 contents 0 0 else nothing

-- `contents[contents.size()]` is the terminator, 0.
unfoldable pub read_utf16_be : List ℕ → List ℕ
read_utf16_be [] = []
read_utf16_be (b0 ∷ []) = write_rune (word b0 0)
read_utf16_be (b0 ∷ b1 ∷ rest) = write_rune (word b0 b1) ++ read_utf16_be rest

unfoldable pub read_utf16_le : List ℕ → List ℕ
read_utf16_le [] = []
read_utf16_le (b1 ∷ []) = write_rune (word 0 b1)
read_utf16_le (b1 ∷ b0 ∷ rest) = write_rune (word b0 b1) ++ read_utf16_le rest

unfoldable pub read_utf32_be : List ℕ → Option (List ℕ)
read_utf32_be [] = some []
read_utf32_be (b0 ∷ []) = none
read_utf32_be (b0 ∷ b1 ∷ []) = none
read_utf32_be (b0 ∷ b1 ∷ b2 ∷ []) = some (write_rune (double_word b0 b1 b2 0))
read_utf32_be (b0 ∷ b1 ∷ b2 ∷ b3 ∷ rest) =
    followed (write_rune (double_word b0 b1 b2 b3)) (read_utf32_be rest)

unfoldable pub read_utf32_le : List ℕ → Option (List ℕ)
read_utf32_le [] = some []
read_utf32_le (b3 ∷ []) = none
read_utf32_le (b3 ∷ b2 ∷ []) = none
read_utf32_le (b3 ∷ b2 ∷ b1 ∷ []) = some (write_rune (double_word 0 b1 b2 b3))
read_utf32_le (b3 ∷ b2 ∷ b1 ∷ b0 ∷ rest) =
    followed (write_rune (double_word b0 b1 b2 b3)) (read_utf32_le rest)

-- `std::string::substr(pos)`, which throws when the string is shorter.
abbrev pub substr : ℕ → List ℕ → Option (List ℕ)
substr zero s = some s
substr (suc pos) [] = none
substr (suc pos) (x ∷ s) = substr pos s

abbrev pub and_then : Option (List ℕ) → (List ℕ → Option (List ℕ)) → Option (List ℕ)
and_then none f = none
and_then (some s) f = f s

-- `bom[i]`: the byte of the contents, or the 0 that the array was filled with.
abbrev pub bom_at : List ℕ → ℕ → ℕ
bom_at [] i = 0
bom_at (x ∷ s) zero = x
bom_at (x ∷ s) (suc i) = bom_at s i

-- What follows the test of the byte order mark.
unfoldable pub read_detected : List ℕ → Option (List ℕ)
read_detected contents =
    if detect_utf8 contents then sanitize_utf8 contents else elim (detect_utf16 contents) [
      | big_endian ↦ some (read_utf16_be contents)
      | little_endian ↦ some (read_utf16_le contents)
      | nothing ↦ elim (detect_utf32 contents) [
        | big_endian ↦ read_utf32_be contents
        | little_endian ↦ read_utf32_le contents
        | nothing ↦ sanitize_utf8 contents
      ]
    ]

unfoldable pub read_unmarked : List ℕ → Bool → Option (List ℕ)
read_unmarked contents autodetect = if not autodetect then some contents else read_detected contents

unfoldable pub read_to_end : List ℕ → Bool → Option (List ℕ)
read_to_end contents autodetect =
    let b0 = bom_at contents 0 in
    let b1 = bom_at contents 1 in
    let b2 = bom_at contents 2 in
    let b3 = bom_at contents 3 in
    (if leb 2 (length contents)
      then (if b0 == 0xef && b1 == 0xbb && b2 == 0xbf
          then substr 3 contents
          else if b0 == 0xff && b1 == 0xfe
          then (if b2 == 0x00 && b3 == 0x00
              then and_then (substr 4 contents) read_utf32_le
              else and_then (substr 2 contents) (λ s. some (read_utf16_le s)))
          else if b0 == 0x00 && b1 == 0x00 && b2 == 0xfe && b3 == 0xff
          then and_then (substr 4 contents) read_utf32_be
          else if b0 == 0xfe && b1 == 0xff
          then and_then (substr 2 contents) (λ s. some (read_utf16_be s))
          else read_unmarked contents autodetect)
      else read_unmarked contents autodetect)

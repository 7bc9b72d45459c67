-- ===== src/Utf8/Samples.antt =====
-- Concrete runs of `include/trieste/utf8.h`.
use trieste.Prelude.{ℕ, ◌≡◌, refl, true, false, inl, none, some, List, [], ◌∷◌, ◌++◌, length, arith}
use trieste.Utf8.{write_rune, write_three, utf8_to_rune, size}
use trieste.Utf8.Strings.{
  write_runes, utf8_to_runestring, sanitize_utf8, escape_unicode, unescape_hexunicode,
}
use trieste.Utf8.Files.{read_to_end, read_utf32_be, read_utf32_le}
use trieste.Utf8.RoundTrip.{
  utf8_to_rune-write_rune, utf8_to_runestring-write_runes, sanitize_utf8-idempotent,
  length-write_rune,
}
use trieste.Utf8.Readers.{
  utf16_be, utf16_le, utf32_be, utf32_le, read_to_end-marked, read_utf32-in_range,
  read_utf32-out_of_range,
}
use trieste.Utf8.Escapes.{unescape_hexunicode-escape_unicode}

-- The euro sign, U+20AC, and the clef, U+1D11E.
abbrev signs : List ℕ
signs = 65 ∷ 0x20ac ∷ 0x1d11e ∷ []

utf8_to_rune-write_rune_example :
    utf8_to_rune (write_rune 0x20ac ++ 65 ∷ []) false ≡ some (0x20ac, write_rune 0x20ac)
utf8_to_rune-write_rune_example = utf8_to_rune-write_rune 0x20ac (65 ∷ []) (omega arith)

euro : write_rune 0x20ac ≡ 0xe2 ∷ 0x82 ∷ 0xac ∷ []
unfolding write_rune write_three
euro = refl

utf8_to_runestring-write_runes_example : utf8_to_runestring (write_runes signs) false ≡ some signs
utf8_to_runestring-write_runes_example =
    utf8_to_runestring-write_runes signs (omega arith, (omega arith, (omega arith, tt)))

sanitize_utf8-idempotent_example :
    (output : List ℕ) × (sanitize_utf8 (65 ∷ 0xff ∷ []) ≡ some output)
    × (sanitize_utf8 output ≡ some output)
sanitize_utf8-idempotent_example = sanitize_utf8-idempotent (65 ∷ 0xff ∷ [])

length-write_rune_example : length (write_rune 0x1d11e) ≡ size 0x1d11e
length-write_rune_example = length-write_rune 0x1d11e

read_to_end-marked_example :
    (read_to_end (0xef ∷ 0xbb ∷ 0xbf ∷ 65 ∷ []) true ≡ some (65 ∷ []))
    × (read_to_end (0xfe ∷ 0xff ∷ utf16_be (0x20ac ∷ [])) true ≡ some (write_runes (0x20ac ∷ [])))
    × (read_to_end (0x00 ∷ 0x00 ∷ 0xfe ∷ 0xff ∷ utf32_be signs) true ≡ some (write_runes signs))
    × (read_to_end (0xff ∷ 0xfe ∷ 0x00 ∷ 0x00 ∷ utf32_le signs) true ≡ some (write_runes signs))
    × (read_to_end (0xff ∷ 0xfe ∷ utf16_le (65 ∷ 0x20ac ∷ [])) true
        ≡ some (write_runes (65 ∷ 0x20ac ∷ [])))
read_to_end-marked_example =
    read_to_end-marked true (65 ∷ []) (0x20ac ∷ []) signs 65 (omega arith) (omega arith)
      (omega arith, tt) (omega arith, (omega arith, (omega arith, tt)))

-- Little-endian UTF-16 with the mark and no text: `substr(4)` throws.
empty_utf16_le : read_to_end (0xff ∷ 0xfe ∷ []) false ≡ none
unfolding read_to_end
empty_utf16_le = refl

abbrev left_over : List ℕ
left_over = 0 ∷ 0 ∷ 0x20 ∷ 0xac ∷ 65 ∷ []

read_utf32-in_range_example :
    ((t : List ℕ) × (read_utf32_be (0 ∷ 0 ∷ 0x20 ∷ 0xac ∷ []) ≡ some t))
    × ((t : List ℕ) × (read_utf32_le (0 ∷ 0 ∷ 0x20 ∷ 0xac ∷ []) ≡ some t))
read_utf32-in_range_example = read_utf32-in_range (0 ∷ 0 ∷ 0x20 ∷ 0xac ∷ []) refl

read_utf32-out_of_range_example :
    (read_utf32_be left_over ≡ none) × (read_utf32_le left_over ≡ none)
read_utf32-out_of_range_example = read_utf32-out_of_range left_over (inl refl)

unescape_hexunicode-escape_unicode_example :
    (text : List ℕ) × (escape_unicode (write_runes signs) ≡ some text)
    × (unescape_hexunicode text ≡ some (write_runes signs))
unescape_hexunicode-escape_unicode_example = unescape_hexunicode-escape_unicode signs (
  (omega arith, λ h. omega arith),
  ((omega arith, λ h. omega arith), ((omega arith, λ h. omega arith), tt)),
)

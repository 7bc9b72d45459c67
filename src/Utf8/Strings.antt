-- ===== src/Utf8/Strings.antt =====
-- The routines of `include/trieste/utf8.h` on whole strings. A `while (pos < input.size())` is
-- a recursion on the bytes left, with their number as fuel: each turn takes one byte at least.
use trieste.Prelude.{
  ℕ, zero, suc, ◌+◌, ◌/◌, ◌%◌, Bool, true, false, Option, none, some, List, [], ◌∷◌, ◌++◌, length,
  drop, ltb, ◌==◌, if◌then◌else◌,
}
use trieste.Utf8.{utf8_to_rune, write_rune}

-- `operator<<` on a `runestring`.
unfoldable pub write_runes : List ℕ → List ℕ
write_runes [] = []
write_runes (r ∷ runes) = write_rune r ++ write_runes runes

-- What one turn puts in front of what the later turns give.
abbrev pub followed : List ℕ → Option (List ℕ) → Option (List ℕ)
followed s none = none
followed s (some rest) = some (s ++ rest)

unfoldable pub runes_from : List ℕ → ℕ → Bool → Option (List ℕ)
runes_from [] fuel unescape = some []
runes_from (c ∷ cs) zero unescape = none
runes_from (c ∷ cs) (suc fuel) unescape = elim (utf8_to_rune (c ∷ cs) unescape) [
  | none ↦ none
  | some (value, s) ↦ followed (value ∷ []) (runes_from (drop (length s) (c ∷ cs)) fuel unescape)
]

unfoldable pub utf8_to_runestring : List ℕ → Bool → Option (List ℕ)
utf8_to_runestring input unescape_hexunicode = runes_from input (length input) unescape_hexunicode

unfoldable pub sanitize_utf8 : List ℕ → Option (List ℕ)
sanitize_utf8 input = elim (utf8_to_runestring input false) [
  | none ↦ none
  | some runes ↦ some (write_runes runes)
]

unfoldable pub unescape_from : List ℕ → ℕ → Option (List ℕ)
unescape_from [] fuel = some []
unescape_from (c ∷ cs) zero = none
unescape_from (c ∷ cs) (suc fuel) = elim (c == 92) [
  | true ↦ elim (utf8_to_rune (c ∷ cs) true) [
    | none ↦ none
    | some (r, s) ↦ followed (write_rune r) (unescape_from (drop (length s) (c ∷ cs)) fuel)
  ]
  | false ↦ followed (c ∷ []) (unescape_from cs fuel)
]

unfoldable pub unescape_hexunicode : List ℕ → Option (List ℕ)
unescape_hexunicode input = unescape_from input (length input)

-- `std::uppercase << std::setfill('0') << std::setw(width) << std::hex`, for a number of at
-- most `width` digits, as every call has it.
abbrev pub hex_digit : ℕ → ℕ
hex_digit d = if ltb d 10 then d + 48 else d + 55

unfoldable pub hex_padded : ℕ → ℕ → List ℕ
hex_padded zero value = []
hex_padded (suc width) value = hex_padded width (value / 16) ++ hex_digit (value % 16) ∷ []

unfoldable pub escaped : ℕ → List ℕ
escaped value =
    if ltb 0x7fff value
    then 92 ∷ 85 ∷ hex_padded 8 value
    else if ltb 0x7f value
    then 92 ∷ 117 ∷ hex_padded 4 value
    else value ∷ []

unfoldable pub escape_from : List ℕ → ℕ → Option (List ℕ)
escape_from [] fuel = some []
escape_from (c ∷ cs) zero = none
escape_from (c ∷ cs) (suc fuel) = elim (utf8_to_rune (c ∷ cs) false) [
  | none ↦ none
  | some (r, s) ↦ followed (escaped r) (escape_from (drop (length s) (c ∷ cs)) fuel)
]

unfoldable pub escape_unicode : List ℕ → Option (List ℕ)
escape_unicode input = escape_from input (length input)

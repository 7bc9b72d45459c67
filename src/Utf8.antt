-- ===== src/Utf8.antt =====
-- `include/trieste/utf8.h`: the encoder of one rune, the decoder with its escapes, and the
-- routines on whole strings. A `std::string` is its list of bytes, a `runestring` its list of
-- numbers below 2^32. `std::stoul` throws where `stoul16` is `none`.
pub mod Strings
pub mod Files
pub mod Bytes
pub mod RoundTrip
pub mod Readers
pub mod Escapes
mod Samples
use trieste.Prelude.{
  ℕ, zero, suc, ◌+◌, ◌-◌, ◌*◌, ◌/◌, ◌%◌, ◌^◌, bit_and, bit_or, Bool, true, false, ◌&&◌, ◌||◌, not,
  Option, none, some, List, [], ◌∷◌, ◌++◌, length, get_elem?, take, drop, ltb, leb, ◌==◌,
  if◌then◌else◌, elem,
}

abbrev pub mask_x : ℕ
mask_x = 0xc0

abbrev pub mask1 : ℕ
mask1 = 0x80

abbrev pub mask2 : ℕ
mask2 = 0xe0

abbrev pub mask3 : ℕ
mask3 = 0xf0

abbrev pub mask4 : ℕ
mask4 = 0xf8

abbrev pub mark_x : ℕ
mark_x = 0x80

abbrev pub mark1 : ℕ
mark1 = 0x00

abbrev pub mark2 : ℕ
mark2 = 0xc0

abbrev pub mark3 : ℕ
mark3 = 0xe0

abbrev pub mark4 : ℕ
mark4 = 0xf0

abbrev pub value_x : ℕ
value_x = 0x3f

abbrev pub value1 : ℕ
value1 = 0x7f

abbrev pub value2 : ℕ
value2 = 0x1f

abbrev pub value3 : ℕ
value3 = 0x0f

abbrev pub value4 : ℕ
value4 = 0x07

abbrev pub max1 : ℕ
max1 = 0x007f

abbrev pub max2 : ℕ
max2 = 0x07ff

abbrev pub max3 : ℕ
max3 = 0xffff

abbrev pub max4 : ℕ
max4 = 0x10ffff

abbrev pub bad : ℕ
bad = 0xfffd

-- `value >>= ShiftX` and `(value << ShiftX) | (c & ValueX)`.
abbrev pub shift_right : ℕ → ℕ
shift_right value = value / 2 ^ 6

abbrev pub shift_in : ℕ → ℕ → ℕ
shift_in value c = bit_or (value * 2 ^ 6) (bit_and c value_x)

abbrev pub trailing : ℕ → ℕ
trailing value = bit_or (bit_and value value_x) mark_x

-- The branch of three bytes, which the recursive call for a bad rune takes as well.
unfoldable pub write_three : ℕ → List ℕ
write_three value =
    bit_or mark3 (shift_right (shift_right value))
    ∷ trailing (shift_right value)
    ∷ trailing value
    ∷ []

unfoldable pub write_rune : ℕ → List ℕ
write_rune value =
    if leb value max1
    then bit_or mark1 value ∷ []
    else if leb value max2
    then bit_or mark2 (shift_right value) ∷ trailing value ∷ []
    else if leb value max3
    then write_three value
    else if leb value max4
    then bit_or mark4 (shift_right (shift_right (shift_right value)))
      ∷ trailing (shift_right (shift_right value))
      ∷ trailing (shift_right value)
      ∷ trailing value
      ∷ []
    else write_three bad

unfoldable pub size : ℕ → ℕ
size value =
    if leb value max1
    then 1
    else if leb value max2
    then 2
    else if leb value max3
    then 3
    else if leb value max4
    then 4
    else 3

-- `std::stoul(hex, nullptr, 16)`: white space, a sign, `0x`, then the longest run of digits;
-- it throws when there is no digit. The result is a `rune_t`, 32 bits.
unfoldable pub hex_value : ℕ → Option ℕ
hex_value c =
    if leb 48 c && leb c 57
    then some (c - 48)
    else if leb 65 c && leb c 70
    then some (c - 55)
    else if leb 97 c && leb c 102
    then some (c - 87)
    else none

abbrev pub is_space : ℕ → Bool
is_space c = c == 32 || leb 9 c && leb c 13

unfoldable pub hex_run : ℕ → List ℕ → ℕ
hex_run n [] = n
hex_run n (c ∷ cs) = elim (hex_value c) [ none ↦ n | some d ↦ hex_run (n * 16 + d) cs ]

unfoldable pub hex_number : List ℕ → Option ℕ
hex_number [] = none
hex_number (c ∷ cs) = elim (hex_value c) [ none ↦ none | some d ↦ some (hex_run d cs) ]

-- `0x` is a prefix only when a digit follows; otherwise the number is the 0.
unfoldable pub after_prefix : List ℕ → List ℕ
after_prefix [] = []
after_prefix (a ∷ []) = a ∷ []
after_prefix (a ∷ b ∷ cs) =
    if a == 48 && (b == 120 || b == 88)
    then elim (hex_number cs) [ none ↦ a ∷ b ∷ cs | some n ↦ cs ]
    else a ∷ b ∷ cs

abbrev pub negated : Option ℕ → Option ℕ
negated none = none
negated (some n) = some ((2 ^ 32 - n % 2 ^ 32) % 2 ^ 32)

abbrev pub narrowed : Option ℕ → Option ℕ
narrowed none = none
narrowed (some n) = some (n % 2 ^ 32)

unfoldable pub stoul16 : List ℕ → Option ℕ
stoul16 [] = none
stoul16 (c ∷ cs) =
    if is_space c
    then stoul16 cs
    else if c == 45
    then negated (hex_number (after_prefix cs))
    else if c == 43
    then narrowed (hex_number (after_prefix cs))
    else narrowed (hex_number (after_prefix (c ∷ cs)))

-- A rune with the bytes that it was read from.
abbrev pub read_as : Option ℕ → List ℕ → Option (ℕ × List ℕ)
read_as none s = none
read_as (some value) s = some (value, s)

abbrev pub second_is : ℕ → List ℕ → Bool
second_is c [] = false
second_is c (a ∷ []) = false
second_is c (a ∷ b ∷ s) = b == c

-- The escapes `\xHH`, `\uHHHH` and `\UHHHHHHHH`; the backslash itself where there is none.
unfoldable pub read_escape : List ℕ → Option (ℕ × List ℕ)
read_escape utf8 =
    if leb 3 (length utf8) && second_is 120 utf8
    then read_as (stoul16 (take 2 (drop 2 utf8))) (take 4 utf8)
    else if leb 5 (length utf8) && second_is 117 utf8
    then read_as (stoul16 (take 4 (drop 2 utf8))) (take 6 utf8)
    else if leb 9 (length utf8) && second_is 85 utf8
    then read_as (stoul16 (take 8 (drop 2 utf8))) (take 10 utf8)
    else some (92, take 1 utf8)

abbrev pub continues : ℕ → Bool
continues c = bit_and c mask_x == mark_x

-- The three branches on the leading byte, with the bytes that follow it.
unfoldable pub read_two : ℕ → List ℕ → ℕ × ℕ
read_two c0 (c1 ∷ rest) = if continues c1 then (shift_in (bit_and c0 value2) c1, 2) else (bad, 1)
read_two c0 [] = (bad, 1)

unfoldable pub read_three : ℕ → List ℕ → ℕ × ℕ
read_three c0 (c1 ∷ c2 ∷ rest) =
    if continues c1 && continues c2
    then (shift_in (shift_in (bit_and c0 value3) c1) c2, 3)
    else (bad, 1)
read_three c0 (c1 ∷ []) = (bad, 1)
read_three c0 [] = (bad, 1)

unfoldable pub read_four : ℕ → List ℕ → ℕ × ℕ
read_four c0 (c1 ∷ c2 ∷ c3 ∷ rest) =
    if continues c1 && continues c2 && continues c3
    then (shift_in (shift_in (shift_in (bit_and c0 value4) c1) c2) c3, 4)
    else (bad, 1)
read_four c0 (c1 ∷ c2 ∷ []) = (bad, 1)
read_four c0 (c1 ∷ []) = (bad, 1)
read_four c0 [] = (bad, 1)

-- A decoded rune and how many bytes it takes. A branch whose size test fails goes on to the
-- next mask, which a byte with the earlier mark never meets.
unfoldable pub read_bytes : ℕ → List ℕ → ℕ × ℕ
read_bytes c0 rest =
    if bit_and c0 mask1 == mark1
    then (bit_and c0 value1, 1)
    else if bit_and c0 mask2 == mark2 && leb 1 (length rest)
    then read_two c0 rest
    else if bit_and c0 mask3 == mark3 && leb 2 (length rest)
    then read_three c0 rest
    else if bit_and c0 mask4 == mark4 && leb 3 (length rest)
    then read_four c0 rest
    else (bad, 1)

abbrev pub taken : List ℕ → ℕ × ℕ → Option (ℕ × List ℕ)
taken utf8 (value, n) = some (value, take n utf8)

-- `none` is the exception of `std::stoul`; an empty view is read by no caller.
unfoldable pub utf8_to_rune : List ℕ → Bool → Option (ℕ × List ℕ)
utf8_to_rune [] unescape_unicode = none
utf8_to_rune (c0 ∷ rest) unescape_unicode =
    if c0 == 92 && unescape_unicode
    then read_escape (c0 ∷ rest)
    else taken (c0 ∷ rest) (read_bytes c0 rest)

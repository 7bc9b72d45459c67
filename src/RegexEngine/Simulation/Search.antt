-- ===== src/RegexEngine/Simulation/Search.antt =====
-- `search` of include/trieste/regex_engine.h: it tries `find_prefix_with_context` at each rune from
-- a byte on.
use trieste.Prelude.{
  ℕ, zero, suc, ◌+◌, ◌-◌, ◌≤◌, ◌<◌, ◌≡◌, refl, sym, ap, ◌∙◌, subst, Bool, true, false, ◌||◌, Option,
  none, some, List, [], ◌∷◌, length, drop, get_elem?, ltb, leb, ◌==◌, if◌then◌else◌, arith, inl,
  inr, Bool-cases,
}
use trieste.RuneClass.{RuneClass}
use trieste.RegexEngine.{ErrorCode}
use trieste.RegexEngine.Syntax.{Regex, denoted}
use trieste.RegexEngine.Simulation.{
  Engine, engine_of, is_word_char, find_prefix, decode_rune, decoded,
}
use trieste.RegexEngine.Simulation.Capturing.{
  Captures, find_prefix_with_context, uncaptured, has_failed,
}
use trieste.RegexEngine.Simulation.Prefix.{flags_of_text, reads_of_text, bytes_before}
use trieste.RegexEngine.Simulation.Decoded.{decode_rune-width, length-drop}
use trieste.RegexEngine.Simulation.Matching.{LongestMatch, find_prefix-Longest}

abbrev pub is_word_byte : Option ℕ → Bool
is_word_byte none = false
is_word_byte (some byte) = is_word_char byte

-- `prev_word`, by the byte in front of the probe.
abbrev pub prev_word : List ℕ → ℕ → Bool
prev_word utf8_str zero = false
prev_word utf8_str (suc p) = is_word_byte (get_elem? utf8_str p)

-- The call of `find_prefix_with_context`.
unfoldable pub find_at : ℕ → Engine → List ℕ → ℕ → Option (ℕ × Captures)
unfolding find_prefix_with_context
find_at num_captures e utf8_str probe =
    find_prefix_with_context num_captures e (decoded (drop probe utf8_str)) (probe == 0)
      (prev_word utf8_str probe)

abbrev pub width : List ℕ → ℕ
width [] = 0
width (byte ∷ bytes) = (decode_rune byte bytes).1

-- `end += probe`, where `npos` wraps around.
abbrev pub shifted_end : ℕ → Option ℕ → Option ℕ
shifted_end probe (some end) = some (end + probe)
shifted_end zero none = none
shifted_end (suc p) none = some p

-- The captures in the coordinates of the whole text.
abbrev pub shifted : ℕ → Captures → Captures
shifted probe [] = []
shifted probe ((none, end) ∷ captures) = (none, end) ∷ shifted probe captures
shifted probe ((some start, end) ∷ captures) =
    (some (start + probe), shifted_end probe end) ∷ shifted probe captures

-- The start and the length of a match with its captures.
abbrev pub SearchResult : Type 0
SearchResult = ℕ × ℕ × Captures

-- A match that was found, or else the result of the later probes.
abbrev pub or_later : ℕ → Option (ℕ × Captures) → Option SearchResult → Option SearchResult
or_later probe (some (len, captures)) later = some (probe, len, shifted probe captures)
or_later probe none later = later

-- The loop. A probe that advances takes a byte at least, so the bytes and one are fuel enough.
unfoldable pub search_loop : ℕ → ℕ → Engine → List ℕ → ℕ → Option SearchResult
unfolding find_at decode_rune
search_loop zero num_captures e utf8_str probe = none
search_loop (suc fuel) num_captures e utf8_str probe =
    let later = search_loop fuel num_captures e utf8_str (probe + width (drop probe utf8_str)) in
    if leb probe (length utf8_str)
    then or_later probe (find_at num_captures e utf8_str probe)
        (if ltb probe (length utf8_str) then later else none)
    else none

-- `search`, where `none` is a result that is not `found()`.
abbrev pub unless_invalid : Option ErrorCode → Option SearchResult → Option SearchResult
unless_invalid (some x) result = none
unless_invalid none result = result

unfoldable pub search : ℕ → Engine → List ℕ → ℕ → Option SearchResult
unfolding search_loop
search num_captures e utf8_str start_pos =
    unless_invalid e.error_code
      (search_loop (suc (length utf8_str)) num_captures e utf8_str start_pos)

-- The start of the rune that is `k` runes after `start`, and the end of the text from there on.
unfoldable pub rune_start : List ℕ → ℕ → ℕ → ℕ
unfolding decode_rune
rune_start utf8_str start zero = start
rune_start utf8_str start (suc k) =
    rune_start utf8_str start k + width (drop (rune_start utf8_str start k) utf8_str)

width-le : (bytes : List ℕ) → width bytes ≤ length bytes
width-le [] = omega arith
width-le (c ∷ bs) = (decode_rune-width c bs).1

width-positive : (bytes : List ℕ) → 0 < length bytes → 0 < width bytes
width-positive [] h = absurd (omega arith)
width-positive (c ∷ bs) h = (decode_rune-width c bs).0

module _ (utf8_str : List ℕ) (start : ℕ) (inside : start ≤ length utf8_str) where
  abbrev at_rune : ℕ → ℕ
  at_rune = rune_start utf8_str start

  rune_start-le : (k : ℕ) → at_rune k ≤ length utf8_str
  unfolding rune_start
  rune_start-le zero = inside
  rune_start-le (suc k) =
      let h = rune_start-le k in
      omega (arith, width-le (drop (at_rune k) utf8_str), length-drop (at_rune k) utf8_str h, h)

  rune_start-lt : (k : ℕ) → at_rune k < length utf8_str → at_rune k < at_rune (suc k)
  unfolding rune_start
  rune_start-lt k h =
      let d = length-drop (at_rune k) utf8_str (omega arith) in
      omega (arith, width-positive (drop (at_rune k) utf8_str) (omega (arith, d, h)))

  -- From the end of the text on, nothing is left to be tried.
  rune_start-end : (k j : ℕ) → at_rune k ≡ length utf8_str → at_rune (j + k) ≡ length utf8_str
  unfolding rune_start
  rune_start-end k zero h = let z : 0 + k ≡ k = omega arith in rw z h
  rune_start-end k (suc j) h =
      let z : suc j + k ≡ suc (j + k) = omega arith in
      let e = rune_start-end k j h in
      let d = length-drop (at_rune (j + k)) utf8_str (omega (arith, e)) in
      rw z (omega (arith, width-le (drop (at_rune (j + k)) utf8_str), d, e))

  module _ (num_captures : ℕ) (e : Engine) where
    abbrev Fails : ℕ → Type 0
    Fails k = find_at num_captures e utf8_str (at_rune k) ≡ none

    -- The result is that of the first rune at which a prefix is found.
    abbrev First : Option SearchResult → Type 0
    First none = (k : ℕ) → Fails k
    First (some (p, len, captures)) =
        (k : ℕ) × (p ≡ at_rune k)
        × ((inner : Captures) × (find_at num_captures e utf8_str p ≡ some (len, inner)))
        × ((j : ℕ) → j < k → Fails j)

    or_later-First :
        (k : ℕ) (o : Option (ℕ × Captures)) (later : Option SearchResult)
        → find_at num_captures e utf8_str (at_rune k) ≡ o
        → ((j : ℕ) → j < k → Fails j)
        → (o ≡ none → First later)
        → First (or_later (at_rune k) o later)
    or_later-First k (some (len, inner)) later h before rest = (k, refl, (inner, h), before)
    or_later-First k none later h before rest = rest refl

    Fails-suc : (k : ℕ) → ((j : ℕ) → j < k → Fails j) → Fails k → (j : ℕ) → j < suc k → Fails j
    Fails-suc k before h j l = elim (Bool-cases (ltb j k)) [
      | inl g ↦ before j (ground arith)
      | inr g ↦ let same : k ≡ j = ground arith in subst Fails same h
    ]

    Fails-all :
        (k : ℕ) → at_rune k ≡ length utf8_str → ((j : ℕ) → j < suc k → Fails j) → (j : ℕ) → Fails j
    Fails-all k over before j = elim (Bool-cases (ltb j (suc k))) [
      | inl g ↦ before j (ground arith)
      | inr g ↦
          let more : (j - k) + k ≡ j = ground arith in
          let at_end : at_rune j ≡ length utf8_str =
            subst (λ (i : ℕ). at_rune i ≡ length utf8_str) more (rune_start-end k (j - k) over) in
          let same : at_rune k ≡ at_rune j = over ∙ sym at_end in
          subst (λ (p : ℕ). find_at num_captures e utf8_str p ≡ none) same (before k (omega arith))
    ]

    search_loop-First :
        (fuel k : ℕ)
        → length utf8_str < at_rune k + fuel
        → ((j : ℕ) → j < k → Fails j)
        → First (search_loop fuel num_captures e utf8_str (at_rune k))
    unfolding search_loop rune_start
    search_loop-First zero k h before = absurd (omega (arith, rune_start-le k, h))
    search_loop-First (suc fuel) k h before =
        let le : leb (at_rune k) (length utf8_str) ≡ true = ground (arith, rune_start-le k) in
        rw le (
          or_later-First k (find_at num_captures e utf8_str (at_rune k))
            (if ltb (at_rune k) (length utf8_str)
              then search_loop fuel num_captures e utf8_str (at_rune (suc k))
              else none)
            refl before
            (λ f. elim (Bool-cases (ltb (at_rune k) (length utf8_str))) [
              | inl g ↦ rw g (
                  search_loop-First fuel (suc k) (omega (arith, h, rune_start-lt k (ground arith)))
                    (Fails-suc k before f))
              | inr g ↦ rw g (Fails-all k (ground (arith, rune_start-le k)) (Fails-suc k before f))
            ]))

-- What `find_prefix` says of an expression at a byte of a text: the flags at the byte are those of
-- the whole text.
abbrev pub LongestAt : List ℕ → List RuneClass → Regex → ℕ → Option ℕ → Type 0
LongestAt utf8_str classes r p =
    let rest = decoded (drop p utf8_str) in
    LongestMatch (flags_of_text (prev_word utf8_str p) (p == 0) rest) (reads_of_text classes rest)
      (bytes_before rest) r

abbrev pub length_of : Option (ℕ × Captures) → Option ℕ
length_of none = none
length_of (some (len, captures)) = some len

-- The start and the length of the longest match at the first rune at which there is one, and `none`
-- where there is no match at any rune.
abbrev pub LeftmostLongest : List ℕ → List RuneClass → Regex → ℕ → Option SearchResult → Type 0
LeftmostLongest utf8_str classes r start none =
    (k : ℕ) → LongestAt utf8_str classes r (rune_start utf8_str start k) none
LeftmostLongest utf8_str classes r start (some (p, len, captures)) =
    (k : ℕ) × (p ≡ rune_start utf8_str start k)
    × LongestAt utf8_str classes r p (some len)
    × ((j : ℕ) → j < k → LongestAt utf8_str classes r (rune_start utf8_str start j) none)

First-LeftmostLongest :
    (utf8_str : List ℕ) (start : ℕ) (inside : start ≤ length utf8_str) (n : ℕ) (e : Engine)
    (classes : List RuneClass) (r : Regex) (o : Option SearchResult)
    → ((p : ℕ) → LongestAt utf8_str classes r p (length_of (find_at n e utf8_str p)))
    → First utf8_str start inside n e o
    → LeftmostLongest utf8_str classes r start o
First-LeftmostLongest utf8_str start inside n e classes r none h x = λ k.
    subst (LongestAt utf8_str classes r (rune_start utf8_str start k)) (ap length_of (x k))
      (h (rune_start utf8_str start k))
First-LeftmostLongest utf8_str start inside n e classes r (some (p, len, captures)) h
      (k, same, (inner, found), before) =
    (
      k,
      same,
      subst (LongestAt utf8_str classes r p) (ap length_of found) (h p),
      λ j l.
          subst (LongestAt utf8_str classes r (rune_start utf8_str start j))
            (ap length_of (before j l)) (h (rune_start utf8_str start j)),
    )

search-loop :
    (n : ℕ) (e : Engine) (utf8_str : List ℕ) (start_pos : ℕ)
    → e.error_code ≡ none
    → search_loop (suc (length utf8_str)) n e utf8_str start_pos ≡ search n e utf8_str start_pos
unfolding search
search-loop n e utf8_str start_pos h = rw h refl

-- Without capturing groups the search calls the matching without captures.
length_of-find_at :
    (n : ℕ) (e : Engine) (utf8_str : List ℕ) (p : ℕ)
    → n ≡ 0
    → find_prefix e (decoded (drop p utf8_str)) (p == 0) (prev_word utf8_str p)
      ≡ length_of (find_at n e utf8_str p)
unfolding find_at find_prefix_with_context
length_of-find_at n e utf8_str p h =
    let plain : (has_failed e.error_code || n == 0) ≡ true = ground arith in
    rw plain (
      length_of-uncaptured
        (find_prefix e (decoded (drop p utf8_str)) (p == 0) (prev_word utf8_str p)))
  where
    length_of-uncaptured : (o : Option ℕ) → o ≡ length_of (uncaptured o)
    length_of-uncaptured none = refl
    length_of-uncaptured (some len) = refl

find_at-Longest :
    (n : ℕ) (postfix : List ℕ) (classes : List RuneClass) (r : Regex) (utf8_str : List ℕ) (p : ℕ)
    → denoted postfix ≡ some r
    → (engine_of postfix classes).error_code ≡ none
    → n ≡ 0
    → LongestAt utf8_str classes r p (length_of (find_at n (engine_of postfix classes) utf8_str p))
find_at-Longest n postfix classes r utf8_str p h g z =
    subst (LongestAt utf8_str classes r p)
      (length_of-find_at n (engine_of postfix classes) utf8_str p z)
      (find_prefix-Longest postfix classes r (decoded (drop p utf8_str)) (p == 0)
        (prev_word utf8_str p) h g)

-- `search` of an engine without capturing groups that was built without an error from a postfix
-- expression, from a byte on that is not behind the end of the text: it returns the first rune,
-- counted from that byte, at which the denoted expression matches, with the length in bytes of the
-- longest match there, and nothing exactly when the expression matches at no rune, the end of the
-- text included. The anchor of the start holds at the first byte of the text alone, and the boundary
-- of a word at a probe looks at the byte in front of it.
pub search-LeftmostLongest :
    (postfix : List ℕ) (classes : List RuneClass) (r : Regex) (num_captures : ℕ) (utf8_str : List ℕ)
    (start_pos : ℕ)
    → denoted postfix ≡ some r
    → (engine_of postfix classes).error_code ≡ none
    → num_captures ≡ 0
    → start_pos ≤ length utf8_str
    → LeftmostLongest utf8_str classes r start_pos
        (search num_captures (engine_of postfix classes) utf8_str start_pos)
unfolding rune_start
search-LeftmostLongest postfix classes r num_captures utf8_str start_pos h g z inside =
    let e = engine_of postfix classes in
    let enough : length utf8_str < start_pos + suc (length utf8_str) = omega arith in
    subst (LeftmostLongest utf8_str classes r start_pos)
      (search-loop num_captures e utf8_str start_pos g)
      (First-LeftmostLongest utf8_str start_pos inside num_captures e classes r
        (search_loop (suc (length utf8_str)) num_captures e utf8_str start_pos)
        (λ p. find_at-Longest num_captures postfix classes r utf8_str p h g z)
        (search_loop-First utf8_str start_pos inside num_captures e (suc (length utf8_str)) 0 enough
          (λ j l. absurd (omega (arith, l)))))

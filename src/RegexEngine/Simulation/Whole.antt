-- ===== src/RegexEngine/Simulation/Whole.antt =====
-- `match` of include/trieste/regex_engine.h, on the bytes of a text.
use trieste.Prelude.{
  ℕ, zero, suc, ◌≤◌, ◌<◌, ◌≡◌, ap, ◌∙◌, subst, true, false, Option, none, some, List, [], ◌∷◌,
  length, arith, inl, inr, ◌↔◌, Bool-cases, ltb, ==_iff,
}
use trieste.RuneClass.{RuneClass}
use trieste.RegexEngine.{zero_or_more}
use trieste.RegexEngine.Syntax.{
  Regex, rep, Flags, Matches, match_empty, match_pass, match_read, match_cat, match_left,
  match_right, match_zero, match_once, match_done, match_more, match_plus, match_group, denoted,
}
use trieste.RegexEngine.Simulation.{engine_of, Text, find_prefix, decoded, is_size, matches}
use trieste.RegexEngine.Simulation.Prefix.{flags_of_text, reads_of_text, bytes_before}
use trieste.RegexEngine.Simulation.Decoded.{Positive, decoded-Positive, decoded-bytes}
use trieste.RegexEngine.Simulation.Matching.{LongestMatch, find_prefix-Longest}

-- No match reads past the end of the text.
reads-lt :
    (classes : List RuneClass) (text : Text) (c p : ℕ)
    → reads_of_text classes text c p ≡ true
    → p < length text
unfolding reads_of_text
reads-lt classes [] c p h = absurd (cc)
reads-lt classes ((r, n) ∷ text) c zero h = omega arith
reads-lt classes ((r, n) ∷ text) c (suc p) h = omega (arith, reads-lt classes text c p h)

Matches-le :
    (flags : ℕ → Flags) (classes : List RuneClass) (text : Text) (r : Regex) (p q : ℕ)
    → p ≤ length text
    → Matches flags (reads_of_text classes text) r p q
    → q ≤ length text
Matches-le flags classes text _ p q h (match_empty e) = omega arith
Matches-le flags classes text _ p q h (match_pass g e) = omega arith
Matches-le flags classes text _ p q h (match_read {c = c} g k e) =
    omega (arith, reads-lt classes text c p k, e)
Matches-le flags classes text _ p q h (match_cat {a} {b} {m = m} x y) =
    Matches-le flags classes text b m q (Matches-le flags classes text a p m h x) y
Matches-le flags classes text _ p q h (match_left {a} x) = Matches-le flags classes text a p q h x
Matches-le flags classes text _ p q h (match_right {b = b} x) =
    Matches-le flags classes text b p q h x
Matches-le flags classes text _ p q h (match_zero e) = omega arith
Matches-le flags classes text _ p q h (match_once {a = a} x) =
    Matches-le flags classes text a p q h x
Matches-le flags classes text _ p q h (match_done e) = omega arith
Matches-le flags classes text _ p q h (match_more {l = l} {a} {m = m} x y) =
    Matches-le flags classes text (rep zero_or_more l a) m q
      (Matches-le flags classes text a p m h x) y
Matches-le flags classes text _ p q h (match_plus {l = l} {a} {m = m} x y) =
    Matches-le flags classes text (rep zero_or_more l a) m q
      (Matches-le flags classes text a p m h x) y
Matches-le flags classes text _ p q h (match_group {a = a} x) =
    Matches-le flags classes text a p q h x

bytes_before-lt :
    (text : Text) (q : ℕ)
    → Positive text
    → q < length text
    → bytes_before text q < bytes_before text (length text)
unfolding bytes_before
bytes_before-lt [] q p h = absurd (omega arith)
bytes_before-lt ((r, n) ∷ text) zero p h = omega (arith, p.0)
bytes_before-lt ((r, n) ∷ text) (suc q) p h =
    omega (arith, bytes_before-lt text q p.1 (omega arith))

is_size-LongestMatch :
    (flags : ℕ → Flags) (classes : List RuneClass) (text : Text) (r : Regex) (o : Option ℕ)
    → Positive text
    → LongestMatch flags (reads_of_text classes text) (bytes_before text) r o
    → (is_size (bytes_before text (length text)) o ≡ true)
      ↔ Matches flags (reads_of_text classes text) r 0 (length text)
is_size-LongestMatch flags classes text r none p x = (λ h. cc, λ m. absurd (x (length text) m))
is_size-LongestMatch flags classes text r (some b) p (q, e, m, top) =
    let le = Matches-le flags classes text r 0 q (omega arith) m in
    (
      λ h.
          let same : b ≡ bytes_before text (length text) = (==_iff b _).0 h in
          elim (Bool-cases (ltb q (length text))) [
            | inl l ↦
                let lt = bytes_before-lt text q p (ground arith) in
                absurd (omega (arith, lt, same, e))
            | inr l ↦
                let z : q ≡ length text = ground arith in
                subst (λ (k : ℕ). Matches flags (reads_of_text classes text) r 0 k) z m
          ],
      λ k. elim (Bool-cases (ltb q (length text))) [
        | inl l ↦ absurd (top (length text) (ground arith) k)
        | inr l ↦
            let z : q ≡ length text = ground arith in
            (==_iff b (bytes_before text (length text))).1 (e ∙ ap (bytes_before text) z)
      ],
    )

-- `match` on the bytes of a text accepts it exactly when the expression that the postfix denotes
-- matches the whole sequence of runes decoded from it, from the first to the last.
pub matches-Matches :
    (postfix : List ℕ) (classes : List RuneClass) (r : Regex) (utf8_str : List ℕ)
    → denoted postfix ≡ some r
    → (engine_of postfix classes).error_code ≡ none
    → (matches (engine_of postfix classes) utf8_str ≡ true)
      ↔ Matches
          (flags_of_text false true (decoded utf8_str))
          (reads_of_text classes (decoded utf8_str))
          r
          0
          (length (decoded utf8_str))
unfolding matches
matches-Matches postfix classes r utf8_str h g =
    subst
      (λ (n : ℕ).
        (is_size n (find_prefix (engine_of postfix classes) (decoded utf8_str) true false) ≡ true)
        ↔ Matches (flags_of_text false true (decoded utf8_str))
            (reads_of_text classes (decoded utf8_str)) r 0 (length (decoded utf8_str)))
      (decoded-bytes utf8_str)
      (is_size-LongestMatch (flags_of_text false true (decoded utf8_str)) classes (decoded utf8_str)
        r (find_prefix (engine_of postfix classes) (decoded utf8_str) true false)
        (decoded-Positive utf8_str)
        (find_prefix-Longest postfix classes r (decoded utf8_str) true false h g))

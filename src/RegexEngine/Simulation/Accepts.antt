-- ===== src/RegexEngine/Simulation/Accepts.antt =====
-- The fast path of `step` for the runes below 128 (include/trieste/regex_engine.h).
use trieste.Prelude.{
  ℕ, ◌-◌, ◌/◌, ◌^◌, ◌≡◌, refl, ◌∙◌, Bool, true, false, ◌||◌, Option, none, some, List, get_elem?,
  ltb, ◌==◌, if◌then◌else◌, arith, inl, inr, Bool-cases,
}
use trieste.RuneClass.{RuneClass, contains}
use trieste.RuneClass.Bitmap.{bit_in, bit_in-set_bit, or_clear}
use trieste.RegexEngine.Simulation.{
  rune_class_base, is_class_ref, class_words, class_contains, ascii_accept, accepts,
}

bit_in-empty : (rune : ℕ) → bit_in (0, 0) rune ≡ false
bit_in-empty rune = or_clear false rune

bit_in-class :
    (o : Option RuneClass) (rune : ℕ)
    → ltb rune 128 ≡ true
    → bit_in (class_words o) rune ≡ class_contains o rune
unfolding contains
bit_in-class none rune h = bit_in-empty rune
bit_in-class (some c) rune h = elim (Bool-cases (rune / 2 ^ 6 == 0)) [
  | inl k ↦ rw (h, k, contains) refl
  | inr k ↦ rw (h, k, contains) refl
]

literal_bit :
    (classes : List RuneClass) (label rune : ℕ)
    → is_class_ref label ≡ false
    → ltb rune 128 ≡ true
    → bit_in (ascii_accept classes label) rune ≡ (label == rune)
unfolding ascii_accept
literal_bit classes label rune h g = elim (Bool-cases (ltb label 128)) [
  | inl k ↦
      rw (h, k, ascii_accept)
        (bit_in-set_bit (0, 0) label rune (ground arith) (ground arith)
          ∙ rw (bit_in-empty rune) (or_false (label == rune)))
  | inr k ↦ rw (h, k, ascii_accept) (bit_in-empty rune ∙ apart label rune k g)
]
  where
    or_false : (b : Bool) → (b || false) ≡ b
    or_false b = ground arith

    apart : (a b : ℕ) → ltb a 128 ≡ false → ltb b 128 ≡ true → false ≡ (a == b)
    apart a b p q = ground arith

-- Whether a state accepts a rune does not depend on the path by which it is tested: with the
-- bitmaps for the runes below 128 or without, a class label accepts what its class contains, and
-- any other label the rune that it is.
pub accepts-eq :
    (classes : List RuneClass) (label rune : ℕ)
    → accepts classes label rune ≡ (
        if is_class_ref label
        then class_contains (get_elem? classes (label - rune_class_base)) rune
        else label == rune)
unfolding accepts ascii_accept
accepts-eq classes label rune = elim (Bool-cases (ltb rune 128)) [
  | inr h ↦ rw (h, accepts) refl
  | inl h ↦ elim (Bool-cases (is_class_ref label)) [
    | inl g ↦
        rw (h, g, accepts, ascii_accept)
          (bit_in-class (get_elem? classes (label - rune_class_base)) rune h)
    | inr g ↦ rw (h, accepts) (literal_bit classes label rune g h ∙ rw g refl)
  ]
]

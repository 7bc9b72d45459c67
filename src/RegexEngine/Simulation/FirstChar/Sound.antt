-- ===== src/RegexEngine/Simulation/FirstChar/Sound.antt =====
-- What `compute_first_char_info` of include/trieste/regex_engine.h promises of `find_prefix`.
use trieste.Prelude.{
  ℕ, zero, suc, ◌<◌, ◌≡◌, refl, sym, ◌∙◌, subst, Bool, true, false, ◌||◌, ◌&&◌, Option, none, some,
  List, [], ◌∷◌, get_elem?, elem, ltb, leb, ◌==◌, arith, inl, inr, Bool-cases,
}
use trieste.RuneClass.{RuneClass}
use trieste.RegexEngine.{StateDef, accept_state, match_label}
use trieste.RegexEngine.Syntax.{Regex, Flags, denoted}
use trieste.RegexEngine.Slots.{slot_at}
use trieste.RegexEngine.Rounds.{IsAccept}
use trieste.RegexEngine.Cache.{closure_flags, combos}
use trieste.RegexEngine.Cache.Spans.{flags_of_bits, epsilon_closure_cached_lem}
use trieste.RegexEngine.Simulation.{
  Engine, engine_of, Text, starts_word, flags_before, start_list, from_start, find_prefix,
  decode_rune, decoded_from, decoded,
}
use trieste.RegexEngine.Simulation.Sets.{Enters, IsReady}
use trieste.RegexEngine.Simulation.Conditions.{entered_from-Enters}
use trieste.RegexEngine.Simulation.Edges.{slot_at-state}
use trieste.RegexEngine.Simulation.Alive.{Alive, begin, later}
use trieste.RegexEngine.Simulation.Prefix.{flags_of_text, reads_of_text, bytes_before, Longest}
use trieste.RegexEngine.Simulation.Decoded.{decode_rune-lt, decode_rune-ascii}
use trieste.RegexEngine.Simulation.Matching.{
  from_start-Longest, unfailed, engine_of-IsReady, engine_of-Wired,
}
use trieste.RegexEngine.Simulation.FirstChar.{
  FirstCharInfo, test, minimal, combo_flags, note_combos, compute_first_char_info,
}
use trieste.RegexEngine.Simulation.FirstChar.Noted.{Shown, note_combos-Shown}

-- Some round of the outer loop has the flags of a position, as far as they are looked at.
combo_for :
    (hc : Bool) (g : Flags)
    → (c : ℕ) × (elem c (combos hc) ≡ true) × (hc ≡ true → combo_flags hc c ≡ g)
unfolding closure_flags
combo_for false g = (0, refl, λ h. absurd (cc))
combo_for true g = (
  closure_flags g,
  (bits g.boundary_match g.at_start g.at_end).0,
  λ h. (bits g.boundary_match g.at_start g.at_end).1,
)
  where
    bits :
        (b s e : Bool)
        → (elem (closure_flags (flags_of_bits b s e)) (combos true) ≡ true)
          × (combo_flags true (closure_flags (flags_of_bits b s e)) ≡ flags_of_bits b s e)
    bits true true true = (refl, refl)
    bits true true false = (refl, refl)
    bits true false true = (refl, refl)
    bits true false false = (refl, refl)
    bits false true true = (refl, refl)
    bits false true false = (refl, refl)
    bits false false true = (refl, refl)
    bits false false false = (refl, refl)

-- What is entered from the start has been noted.
entered-Shown :
    (e : Engine) (ready : IsReady e) (g : Flags) (s : ℕ)
    → Enters g e.owned_states e.start_state s
    → Shown e s (note_combos e (combos e.has_conditionals) minimal)
entered-Shown e ready g s x =
    let (c, in_combos, same) = combo_for e.has_conditionals g in
    let f = combo_flags e.has_conditionals c in
    note_combos-Shown e s c (combos e.has_conditionals) minimal in_combos (
      rw
        (epsilon_closure_cached_lem e.has_conditionals e.owned_states e.cache e.start_state f
          ready.cached ready.start)
        ((entered_from-Enters e e.start_state s f g ready ready.start same).1 x))

module _ (flags : ℕ → Flags) (reads : ℕ → ℕ → Bool) (ss : List StateDef) (start : ℕ) where
  -- The state that reads the first rune.
  record First : Type 0 where
    state : ℕ
    fields : StateDef
    target : ℕ
    entered : Enters (flags 0) ss start state
    at : get_elem? ss state ≡ some fields
    reading : reads fields.label 0 ≡ true
    link : fields.next ≡ some target

  at_front : (q u : ℕ) → q ≡ 0 → Alive flags reads ss start q u → Enters (flags 0) ss start u
  at_front q u e (begin z x) = subst (λ (k : ℕ). Enters (flags k) ss start u) z x
  at_front q u e (later z a at r l k) = absurd (omega (arith, e, z))

  first_of : (p q u : ℕ) → q ≡ suc p → Alive flags reads ss start q u → First
  first_of p q u e (begin z x) = absurd (omega (arith, e, z))
  first_of zero q u e (later {p = m} {s = s} {v = v} {x = x} z a at r l k) =
      let front : m ≡ 0 = omega (arith, e, z) in
      record {
        state = s;
        fields = x;
        target = v;
        entered = at_front m s front a;
        at = at;
        reading = subst (λ (j : ℕ). reads x.label j ≡ true) front r;
        link = l;
      }
  first_of (suc p) q u e (later {p = m} {s = s} z a at r l k) =
      first_of p m s (omega (arith, e, z)) a

-- Whether a match of the text is allowed for, an empty one, or one with the first rune.
abbrev admits : FirstCharInfo → Text → Bool
admits info [] = info.can_match_empty
admits info ((rune, n) ∷ rest) = info.can_match_empty || test info rune

-- The same of the bytes of a text, by its first byte.
abbrev pub may_match : FirstCharInfo → List ℕ → Bool
may_match info [] = info.can_match_empty
may_match info (byte ∷ bytes) = info.can_match_empty || test info byte

-- The first rune is not a character below 128 in an encoding of several bytes.
abbrev pub starts_short : List ℕ → Bool
starts_short [] = true
starts_short (byte ∷ bytes) = leb 128 (decode_rune byte bytes).0 || ltb byte 128

abbrev IsRune : Text → Type 0
IsRune [] = Unit
IsRune ((rune, n) ∷ rest) = rune < match_label

reads_first :
    (e : Engine) (text : Text) (s c : ℕ) (x : StateDef) (info : FirstCharInfo)
    → Shown e s info
    → (s == accept_state) ≡ false
    → get_elem? e.owned_states s ≡ some x
    → reads_of_text e.rune_classes text x.label 0 ≡ true
    → IsRune text
    → admits info text ≡ true
unfolding reads_of_text
reads_first e [] s c x info h n at r l = absurd (cc)
reads_first e ((rune, k) ∷ rest) s c x info h n at r l =
    or_right info.can_match_empty (h.reading rune x n at r l)
  where
    or_right : (a : Bool) {b : Bool} → b ≡ true → (a || b) ≡ true
    or_right a h = ground arith

empty_first :
    (info : FirstCharInfo) (text : Text) → info.can_match_empty ≡ true → admits info text ≡ true
empty_first info [] h = h
empty_first info (x ∷ rest) h = rw h refl

module _ (e : Engine) (ready : IsReady e) (z : IsAccept e.owned_states) (text : Text)
    (at_start prev : Bool) where
  abbrev info : FirstCharInfo
  info = note_combos e (combos e.has_conditionals) minimal

  First-admits :
      First
        (flags_of_text prev at_start text)
        (reads_of_text e.rune_classes text)
        e.owned_states
        e.start_state
      → IsRune text
      → admits info text ≡ true
  First-admits f l =
      reads_first e text f.state 0 f.fields info
        (entered-Shown e ready (flags_of_text prev at_start text 0) f.state f.entered)
        (not_accept f.state f.fields f.target f.at f.link) f.at f.reading l
    where
      not_accept :
          (s : ℕ) (x : StateDef) (v : ℕ)
          → get_elem? e.owned_states s ≡ some x
          → x.next ≡ some v
          → (s == accept_state) ≡ false
      not_accept s x v at k = elim (Bool-cases (s == accept_state)) [
        | inl h ↦
            let same : s ≡ accept_state = ground arith in
            let dead : slot_at e.owned_states s false ≡ none =
              subst (λ (i : ℕ). slot_at e.owned_states i false ≡ none) (sym same) (z.dead false) in
            let link = slot_at-state e.owned_states s x false at in absurd (cc)
        | inr h ↦ h
      ]

  Longest-admits :
      (o : Option ℕ) (b : ℕ)
      → o ≡ some b
      → Longest
          (flags_of_text prev at_start text)
          (reads_of_text e.rune_classes text)
          (bytes_before text)
          e
          ready
          o
      → IsRune text
      → admits info text ≡ true
  Longest-admits none b h x l = absurd (cc)
  Longest-admits (some c) b h (zero, _, a, top) l = empty_first info text (
      (entered-Shown e ready (flags_of_text prev at_start text 0) accept_state (
          at_front (flags_of_text prev at_start text) (reads_of_text e.rune_classes text)
            e.owned_states e.start_state 0 accept_state refl a)).accepting
        refl)
  Longest-admits (some c) b h (suc q, _, a, top) l =
      First-admits
        (first_of (flags_of_text prev at_start text) (reads_of_text e.rune_classes text)
          e.owned_states e.start_state q (suc q) accept_state refl a)
        l

noted-info :
    (e : Engine)
    → e.error_code ≡ none
    → note_combos e (combos e.has_conditionals) minimal ≡ compute_first_char_info e
unfolding compute_first_char_info
noted-info e h = rw h refl

-- The test of the first byte is the test of its rune.
admits-may_match :
    (info : FirstCharInfo) (utf8_str : List ℕ)
    → starts_short utf8_str ≡ true
    → admits info (decoded utf8_str) ≡ true
    → may_match info utf8_str ≡ true
unfolding decoded_from test
admits-may_match info [] s h = h
admits-may_match info (byte ∷ bytes) s h = elim (Bool-cases (ltb byte 128)) [
  | inl a ↦ rw a (rw (decode_rune-ascii byte bytes a, a) at h)
  | inr a ↦
      let large : ltb (decode_rune byte bytes).0 128 ≡ false = ground (arith, s, a) in
      rw a (rw large at h)
]

decoded-IsRune : (utf8_str : List ℕ) → IsRune (decoded utf8_str)
unfolding decoded_from
decoded-IsRune [] = tt
decoded-IsRune (byte ∷ bytes) = omega (arith, decode_rune-lt byte bytes)

-- The information on first characters lets no match escape: where `find_prefix` finds a prefix of
-- a text, the empty one or another, the information says that the expression can match the empty
-- text, or its test admits the first byte of the text. So a text that it turns down has no match.
-- The condition is that the first rune of the text is not a character below 128 that is encoded in
-- several bytes, which the decoder reads as well.
pub compute_first_char_info-may_match :
    (postfix : List ℕ) (classes : List RuneClass) (r : Regex) (utf8_str : List ℕ)
    (at_start prev : Bool) (len : ℕ)
    → denoted postfix ≡ some r
    → (engine_of postfix classes).error_code ≡ none
    → starts_short utf8_str ≡ true
    → find_prefix (engine_of postfix classes) (decoded utf8_str) at_start prev ≡ some len
    → may_match (compute_first_char_info (engine_of postfix classes)) utf8_str ≡ true
compute_first_char_info-may_match postfix classes r utf8_str at_start prev len h g short found =
    let e = engine_of postfix classes in
    let text = decoded utf8_str in
    let ready = engine_of-IsReady postfix classes g in
    let (z, w) = engine_of-Wired postfix classes r h in
    admits-may_match (compute_first_char_info e) utf8_str short (
      subst (λ (i : FirstCharInfo). admits i text ≡ true) (noted-info e g)
        (Longest-admits e ready z text at_start prev
          (from_start e (e.has_conditionals && starts_word text) text
            (start_list e (flags_before e.has_conditionals prev at_start text)))
          len (sym (unfailed e text at_start prev g) ∙ found)
          (from_start-Longest e ready text at_start prev) (decoded-IsRune utf8_str)))

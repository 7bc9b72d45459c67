-- ===== src/RegexEngine/Cache/Spans.antt =====
-- The table of closures of include/trieste/regex_engine.h gives back each closure at its slot.
use trieste.Prelude.{
  ℕ, zero, suc, ◌+◌, ◌-◌, ◌*◌, ◌/◌, ◌<◌, ◌≡◌, refl, ap, sym, ◌∙◌, Bool, true, false, none, some,
  List, [], ◌∷◌, ◌++◌, map, length, get_elem?, take, drop, ltb, if◌then◌else◌, bit_or, arith, inl,
  inr, Bool-cases, length-append,
}
use trieste.Prelude.Bits.{bit_or-halve, bit_or-zero}
use trieste.RegexEngine.{StateDef}
use trieste.RegexEngine.Syntax.{Flags}
use trieste.RegexEngine.Cache.{
  flags_of, closure_flags, combos, closure_of, closures_at, closures_from, ClosureCache, fill,
  precompute_epsilon_closures, span, epsilon_closure_cached, max_closure_cache_entries,
}

module _ {ℓ} {A : Type ℓ} where
  get_elem?-next : (xs ys : List A) (i : ℕ) → get_elem? (xs ++ ys) (length xs + i) ≡ get_elem? ys i
  get_elem?-next [] ys i = let e : 0 + i ≡ i = omega arith in rw e refl
  get_elem?-next (x ∷ xs) ys i =
      let e : suc (length xs) + i ≡ suc (length xs + i) = omega arith in
      rw e (get_elem?-next xs ys i)

  drop-length : (xs ys : List A) → drop (length xs) (xs ++ ys) ≡ ys
  drop-length [] ys = refl
  drop-length (x ∷ xs) ys = drop-length xs ys

  take-length : (xs ys : List A) → take (length xs) (xs ++ ys) ≡ xs
  take-length [] ys = refl
  take-length (x ∷ xs) ys = ap (λ (zs : List A). x ∷ zs) (take-length xs ys)

  assoc : (xs ys zs : List A) → (xs ++ ys) ++ zs ≡ xs ++ (ys ++ zs)
  assoc [] ys zs = refl
  assoc (x ∷ xs) ys zs = ap (λ (us : List A). x ∷ us) (assoc xs ys zs)

get_elem?-front :
    (xs ys : List (List ℕ)) (i : ℕ) (c : List ℕ)
    → get_elem? xs i ≡ some c
    → get_elem? (xs ++ ys) i ≡ some c
get_elem?-front [] ys i c h = absurd (none-some h)
  where
    none-some : none ≡ some c → ⊥
    none-some e = cc
get_elem?-front (x ∷ xs) ys zero c h = h
get_elem?-front (x ∷ xs) ys (suc i) c h = get_elem?-front xs ys i c h

-- What the loop has written stays, and the next offset is the number of entries so far.
record Extends (flat offsets : List ℕ) (r : ClosureCache) : Type 0 where
  more : List ℕ
  tail : List ℕ
  entries : r.flat ≡ flat ++ more
  starts : r.offsets ≡ offsets ++ length flat ∷ tail

some_inj : {a b : ClosureCache} → some a ≡ some b → a ≡ b
some_inj h = cc

nil_right : (xs : List ℕ) → xs ≡ xs ++ []
nil_right [] = refl
nil_right (x ∷ xs) = ap (λ (ys : List ℕ). x ∷ ys) (nil_right xs)

-- The slot was within the limit, and the loop went on.
went_on :
    (c : List ℕ) (cs : List (List ℕ)) (flat offsets : List ℕ) (r : ClosureCache)
    → fill (c ∷ cs) flat offsets ≡ some r
    → fill cs (flat ++ c) (offsets ++ length flat ∷ []) ≡ some r
unfolding fill
went_on c cs flat offsets r h =
    elim (Bool-cases (ltb max_closure_cache_entries (length (flat ++ c)))) [
      | inl e ↦ absurd (none-some (rw (e, fill) at h))
      | inr e ↦ rw (e, fill) at h
    ]
  where
    none-some : none ≡ some r → ⊥
    none-some k = cc

fill-Extends :
    (cs : List (List ℕ)) (flat offsets : List ℕ) (r : ClosureCache)
    → fill cs flat offsets ≡ some r
    → Extends flat offsets r
unfolding fill
fill-Extends [] flat offsets r h =
    rw (sym (some_inj h)) record { more = []; tail = []; entries = nil_right flat; starts = refl }
fill-Extends (c ∷ cs) flat offsets r h =
    let x =
      fill-Extends cs (flat ++ c) (offsets ++ length flat ∷ []) r (went_on c cs flat offsets r h) in
    record {
      more = c ++ x.more;
      tail = length (flat ++ c) ∷ x.tail;
      entries = x.entries ∙ assoc flat c x.more;
      starts = x.starts ∙ assoc offsets (length flat ∷ []) (length (flat ++ c) ∷ x.tail);
    }

-- A slot between two known offsets.
span_lem :
    (r : ClosureCache) (slot : ℕ) (flat c more : List ℕ)
    → get_elem? r.offsets slot ≡ some (length flat)
    → get_elem? r.offsets (suc slot) ≡ some (length (flat ++ c))
    → r.flat ≡ flat ++ (c ++ more)
    → span r slot ≡ c
unfolding span
span_lem r slot flat c more h g e =
    rw
      (
        h,
        g,
        span,
        e,
        drop-length flat (c ++ more),
        size (length flat) (length c) (length-append flat c),
      )
      (take-length c more)
  where
    size : (a b : ℕ) {t : ℕ} → t ≡ a + b → t - a ≡ b
    size a b k = omega (arith, k)

fill-span :
    (cs : List (List ℕ)) (k : ℕ) (c flat offsets : List ℕ) (r : ClosureCache)
    → get_elem? cs k ≡ some c
    → fill cs flat offsets ≡ some r
    → span r (length offsets + k) ≡ c
fill-span [] k c flat offsets r g h = absurd (none-some g)
  where
    none-some : none ≡ some c → ⊥
    none-some e = cc
fill-span (d ∷ cs) zero c flat offsets r g h =
    let x =
      fill-Extends cs (flat ++ d) (offsets ++ length flat ∷ []) r (went_on d cs flat offsets r h) in
    let tail : List ℕ = length flat ∷ length (flat ++ d) ∷ x.tail in
    let starts = x.starts ∙ assoc offsets (length flat ∷ []) (length (flat ++ d) ∷ x.tail) in
    let first = get_elem?-next offsets tail 0 in
    let second = get_elem?-next offsets tail 1 in
    span_lem r (length offsets + 0) flat d x.more
      (ap (λ (os : List ℕ). get_elem? os (length offsets + 0)) starts ∙ first)
      (ap (get_elem? r.offsets) (omega arith)
        ∙ (ap (λ (os : List ℕ). get_elem? os (length offsets + 1)) starts ∙ second))
      (x.entries ∙ assoc flat d x.more)
    ∙ same g
  where
    same : some d ≡ some c → d ≡ c
    same e = cc
fill-span (d ∷ cs) (suc k) c flat offsets r g h =
    ap (span r) (omega (arith, length-append offsets (length flat ∷ [])))
    ∙ fill-span cs k c (flat ++ d) (offsets ++ length flat ∷ []) r g (went_on d cs flat offsets r h)

-- The slots of a state that stands `j` places on.
closures_from-slot :
    (b : Bool) (ss : List StateDef) (s count j n : ℕ) (c : List ℕ)
    → j < count
    → get_elem? (closures_at b ss (s + j)) n ≡ some c
    → get_elem? (closures_from b ss s count) (j * length (combos b) + n) ≡ some c
unfolding closures_from closures_at
closures_from-slot b ss s zero j n c h g = absurd (omega arith)
closures_from-slot b ss s (suc count) zero n c h g =
    let e : 0 * length (combos b) + n ≡ n = omega arith in
    let z : s + 0 ≡ s = omega arith in
    rw e (get_elem?-front (closures_at b ss s) (closures_from b ss (suc s) count) n c (rw z at g))
closures_from-slot b ss s (suc count) (suc j) n c h g =
    let z : s + suc j ≡ suc s + j = omega arith in
    rw (shift (length (combos b)) j n (length (closures_at b ss s)) (width b s)) (
      get_elem?-next (closures_at b ss s) (closures_from b ss (suc s) count)
        (j * length (combos b) + n)
      ∙ closures_from-slot b ss (suc s) count j n c (omega arith) (rw z at g))
  where
    width : (d : Bool) (t : ℕ) → length (closures_at d ss t) ≡ length (combos d)
    width true t = refl
    width false t = refl

    shift : (w i m v : ℕ) → v ≡ w → suc i * w + m ≡ v + (i * w + m)
    shift w i m v e = omega (arith, e)

bit_or-eight : (s n : ℕ) → n < 8 → bit_or (s * 8) n ≡ s * 8 + n
bit_or-eight s n h =
    let z : n / 2 / 2 / 2 ≡ 0 = omega arith in
    omega (
      arith,
      ap (bit_or (s * 8 / 2 / 2 / 2)) z,
      bit_or-halve (s * 8) n,
      bit_or-halve (s * 8 / 2) (n / 2),
      bit_or-halve (s * 8 / 2 / 2) (n / 2 / 2),
      bit_or-zero (s * 8 / 2 / 2 / 2),
    )

abbrev pub flags_of_bits : Bool → Bool → Bool → Flags
flags_of_bits b s e = record { boundary_match = b; at_start = s; at_end = e }

-- The flags have a slot of their own, with the closure for them.
pub combos-flags :
    (b s e : Bool) (g : Flags → List ℕ)
    → get_elem?
        (map (λ (n : ℕ). g (flags_of n)) (combos true))
        (closure_flags (flags_of_bits b s e))
      ≡ some (g (flags_of_bits b s e))
unfolding closure_flags
combos-flags true true true g = refl
combos-flags true true false g = refl
combos-flags true false true g = refl
combos-flags true false false g = refl
combos-flags false true true g = refl
combos-flags false true false g = refl
combos-flags false false true g = refl
combos-flags false false false g = refl

closure_flags-lt : (b s e : Bool) → closure_flags (flags_of_bits b s e) < 8
unfolding closure_flags
closure_flags-lt true true true = omega arith
closure_flags-lt true true false = omega arith
closure_flags-lt true false true = omega arith
closure_flags-lt true false false = omega arith
closure_flags-lt false true true = omega arith
closure_flags-lt false true false = omega arith
closure_flags-lt false false true = omega arith
closure_flags-lt false false false = omega arith

abbrev pub seen_flags : Bool → Flags → Flags
seen_flags has_conditionals f = if has_conditionals then f else flags_of 0

filled :
    (cs : List (List ℕ)) (k : ℕ) (c : List ℕ) (r : ClosureCache)
    → get_elem? cs k ≡ some c
    → fill cs [] [] ≡ some r
    → span r k ≡ c
filled cs k c r g h = let z : 0 + k ≡ k = omega arith in rw z at (fill-span cs k c [] [] r g h)

-- When the table was made, it gives for every state the closure that a search from the state finds:
-- for these flags, where the automaton has conditional states, and for no flags, where it has none.
pub epsilon_closure_cached_lem :
    (has_conditionals : Bool) (ss : List StateDef) (cache : ClosureCache) (s : ℕ) (f : Flags)
    → precompute_epsilon_closures has_conditionals ss ≡ some cache
    → s < length ss
    → epsilon_closure_cached has_conditionals cache s f
      ≡ closure_of (seen_flags has_conditionals f) ss s
unfolding precompute_epsilon_closures epsilon_closure_cached closures_at
epsilon_closure_cached_lem true ss cache s f h l =
    let n = closure_flags f in
    let e = bit_or-eight s n (closure_flags-lt f.boundary_match f.at_start f.at_end) in
    let z : 0 + s ≡ s = omega arith in
    rw e (
      filled (closures_from true ss 0 (length ss)) (s * 8 + n) (closure_of f ss s) cache
        (closures_from-slot true ss 0 (length ss) s n (closure_of f ss s) l (
          rw z
            (combos-flags f.boundary_match f.at_start f.at_end (λ (g : Flags). closure_of g ss s))))
        h)
epsilon_closure_cached_lem false ss cache s f h l =
    let e : s * 1 + 0 ≡ s = omega arith in
    let z : 0 + s ≡ s = omega arith in
    filled (closures_from false ss 0 (length ss)) s (closure_of (flags_of 0) ss s) cache
      (rw e at (
        closures_from-slot false ss 0 (length ss) s 0 (closure_of (flags_of 0) ss s) l (rw z refl)))
      h

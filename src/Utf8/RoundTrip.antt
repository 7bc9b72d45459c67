-- ===== src/Utf8/RoundTrip.antt =====
-- The decoder undoes the encoder, rune by rune and over whole strings.
use trieste.Prelude.{
  length-append, All, subst, ℕ, zero, suc, ◌≤◌, ◌<◌, bit_and, ◌≡◌, refl, sym, ap, ◌∙◌, Bool, true,
  false, ◌&&◌, some, List, [], ◌∷◌, ◌++◌, length, length-append, All, take, drop, ltb, leb, ◌==◌,
  if◌then◌else◌, Bool-cases, inl, inr, arith,
}
use trieste.Utf8.{
  taken, mask1, mask2, mask3, mask4, mark1, mark2, mark3, mark4, value1, value2, value3, value4,
  max1, max2, max3, max4, bad, shift_in, write_three, write_rune, size, continues, read_two,
  read_three, read_four, read_bytes, utf8_to_rune,
}
use trieste.Utf8.Bytes.{Reads, write_rune-Reads, write_rune-bad}
use trieste.Utf8.Strings.{write_runes, followed, runes_from, utf8_to_runestring, sanitize_utf8}

take-append : (s rest : List ℕ) → take (length s) (s ++ rest) ≡ s
take-append [] rest = refl
take-append (x ∷ s) rest = ap (λ (t : List ℕ). x ∷ t) (take-append s rest)

Reads→utf8_to_rune :
    (v : ℕ) (s rest : List ℕ) → Reads v s → utf8_to_rune (s ++ rest) false ≡ some (v, s)
unfolding utf8_to_rune
Reads→utf8_to_rune v [] rest r = absurd r
Reads→utf8_to_rune v (c0 ∷ s) rest r =
    rw (and_false (c0 == 92), r rest) (λ i. some (v, c0 ∷ take-append s rest i))
  where
    and_false : (b : Bool) → (b && false) ≡ false
    and_false true = refl
    and_false false = refl

-- Every code point up to 0x10FFFF, once encoded, is decoded to itself, and the decoder takes
-- exactly its bytes, whatever follows.
pub utf8_to_rune-write_rune :
    (v : ℕ) (rest : List ℕ)
    → v < 1114112
    → utf8_to_rune (write_rune v ++ rest) false ≡ some (v, write_rune v)
utf8_to_rune-write_rune v rest lt = Reads→utf8_to_rune v (write_rune v) rest (write_rune-Reads v lt)

abbrev pub Cons : List ℕ → Type 0
Cons s = (c : ℕ) × (t : List ℕ) × (s ≡ c ∷ t)

Reads→Cons : (v : ℕ) (s : List ℕ) → Reads v s → Cons s
Reads→Cons v [] r = absurd r
Reads→Cons v (c ∷ t) r = (c, t, refl)

-- What the encoder writes is never empty.
pub write_rune-Cons : (v : ℕ) → v < 1114112 → Cons (write_rune v)
write_rune-Cons v lt = Reads→Cons v (write_rune v) (write_rune-Reads v lt)

pub drop-append : (s rest : List ℕ) → drop (length s) (s ++ rest) ≡ rest
drop-append [] rest = refl
drop-append (x ∷ s) rest = drop-append s rest

-- One turn of the loop.
runes_from-step :
    (v n c : ℕ) (s cs : List ℕ)
    → utf8_to_rune (c ∷ cs) false ≡ some (v, c ∷ s)
    → runes_from (c ∷ cs) (suc n) false
      ≡ followed (v ∷ []) (runes_from (drop (length s) cs) n false)
unfolding runes_from
runes_from-step v n c s cs h = rw (h, runes_from) refl

-- With fuel for every byte, the loop reads back all that the encoder wrote.
pub runes_from-write_runes :
    (n : ℕ) (vs : List ℕ)
    → All (λ v. v < 1114112) vs
    → length (write_runes vs) ≤ n
    → runes_from (write_runes vs) n false ≡ some vs
unfolding runes_from write_runes
runes_from-write_runes n [] lt le = refl
runes_from-write_runes n (v ∷ vs) (lt, lts) le =
    let (c, s, e) = write_rune-Cons v lt in
    rw e (
      start c s n (λ k. runes_from-write_runes k vs lts)
        (subst (λ t. length (t ++ write_runes vs) ≤ n) e le)
        (subst (λ t. utf8_to_rune (t ++ write_runes vs) false ≡ some (v, t)) e
          (utf8_to_rune-write_rune v (write_runes vs) lt)))
  where
    start :
        (c : ℕ) (s : List ℕ) (k : ℕ)
        → ((k : ℕ) → length (write_runes vs) ≤ k → runes_from (write_runes vs) k false ≡ some vs)
        → length (c ∷ (s ++ write_runes vs)) ≤ k
        → utf8_to_rune (c ∷ (s ++ write_runes vs)) false ≡ some (v, c ∷ s)
        → runes_from (c ∷ (s ++ write_runes vs)) k false ≡ some (v ∷ vs)
    start c s zero ih le h = absurd (omega arith)
    start c s (suc k) ih le h =
        runes_from-step v k c s (s ++ write_runes vs) h
        ∙ ap (λ rest. followed (v ∷ []) (runes_from rest k false)) (drop-append s (write_runes vs))
        ∙ ap (followed (v ∷ [])) (ih k (omega (arith, length-append s (write_runes vs))))

-- A string of code points up to 0x10FFFF, encoded and decoded, is itself.
pub utf8_to_runestring-write_runes :
    (vs : List ℕ) → All (λ v. v < 1114112) vs → utf8_to_runestring (write_runes vs) false ≡ some vs
unfolding utf8_to_runestring
utf8_to_runestring-write_runes vs lt =
    runes_from-write_runes (length (write_runes vs)) vs lt (omega arith)

Moves : ℕ × ℕ → Type 0
Moves (value, n) = 1 ≤ n

moves : (value n : ℕ) → 1 ≤ n → Moves (value, n)
unfolding Moves
moves value n le = le

bad_Moves : Moves (bad, 1)
bad_Moves = moves bad 1 (omega arith)

if_Moves : (b : Bool) (x y : ℕ × ℕ) → Moves x → Moves y → Moves (if b then x else y)
if_Moves true x y p q = p
if_Moves false x y p q = q

read_two-Moves : (c0 : ℕ) (rest : List ℕ) → Moves (read_two c0 rest)
unfolding read_two
read_two-Moves c0 [] = bad_Moves
read_two-Moves c0 (c1 ∷ rest) =
    if_Moves (continues c1) _ _ (moves (shift_in (bit_and c0 value2) c1) 2 (omega arith)) bad_Moves

read_three-Moves : (c0 : ℕ) (rest : List ℕ) → Moves (read_three c0 rest)
unfolding read_three
read_three-Moves c0 [] = bad_Moves
read_three-Moves c0 (c1 ∷ []) = bad_Moves
read_three-Moves c0 (c1 ∷ c2 ∷ rest) =
    if_Moves (continues c1 && continues c2) _ _
      (moves (shift_in (shift_in (bit_and c0 value3) c1) c2) 3 (omega arith)) bad_Moves

read_four-Moves : (c0 : ℕ) (rest : List ℕ) → Moves (read_four c0 rest)
unfolding read_four
read_four-Moves c0 [] = bad_Moves
read_four-Moves c0 (c1 ∷ []) = bad_Moves
read_four-Moves c0 (c1 ∷ c2 ∷ []) = bad_Moves
read_four-Moves c0 (c1 ∷ c2 ∷ c3 ∷ rest) =
    if_Moves (continues c1 && continues c2 && continues c3) _ _
      (moves (shift_in (shift_in (shift_in (bit_and c0 value4) c1) c2) c3) 4 (omega arith))
      bad_Moves

read_bytes-Moves : (c0 : ℕ) (rest : List ℕ) → Moves (read_bytes c0 rest)
unfolding read_bytes
read_bytes-Moves c0 rest =
    if_Moves (bit_and c0 mask1 == mark1) _ _ (moves (bit_and c0 value1) 1 (omega arith)) (
      if_Moves (bit_and c0 mask2 == mark2 && leb 1 (length rest)) _ _ (read_two-Moves c0 rest) (
        if_Moves (bit_and c0 mask3 == mark3 && leb 2 (length rest)) _ _ (read_three-Moves c0 rest) (
          if_Moves (bit_and c0 mask4 == mark4 && leb 3 (length rest)) _ _ (read_four-Moves c0 rest)
            bad_Moves)))

-- Without escapes the decoder always gives a rune and the bytes it took, at least one.
utf8_to_rune-steps :
    (c : ℕ) (cs : List ℕ) → (v : ℕ) × (s : List ℕ) × (utf8_to_rune (c ∷ cs) false ≡ some (v, c ∷ s))
unfolding utf8_to_rune Moves
utf8_to_rune-steps c cs = rw (and_false (c == 92)) (from (read_bytes c cs) (read_bytes-Moves c cs))
  where
    and_false : (b : Bool) → (b && false) ≡ false
    and_false true = refl
    and_false false = refl

    from : (p : ℕ × ℕ) → Moves p → (v : ℕ) × (s : List ℕ) × (taken (c ∷ cs) p ≡ some (v, c ∷ s))
    from (v, zero) m = absurd (omega arith)
    from (v, suc n) m = (v, take n cs, refl)

length-drop : (s : List ℕ) (n : ℕ) → length (drop n s) ≤ length s
length-drop s zero = omega arith
length-drop [] (suc n) = omega arith
length-drop (x ∷ s) (suc n) = omega (arith, length-drop s n)

runes_from-total :
    (n : ℕ) (input : List ℕ)
    → length input ≤ n
    → (vs : List ℕ) × (runes_from input n false ≡ some vs)
unfolding runes_from
runes_from-total n [] le = ([], refl)
runes_from-total zero (c ∷ cs) le = absurd (omega arith)
runes_from-total (suc n) (c ∷ cs) le =
    let (v, s, h) = utf8_to_rune-steps c cs in
    let (vs, k) =
      runes_from-total n (drop (length s) cs) (omega (arith, length-drop cs (length s))) in
    (v ∷ vs, runes_from-step v n c s cs h ∙ ap (followed (v ∷ [])) k)

-- The encoder writes U+FFFD for what is no code point.
abbrev clamp : ℕ → ℕ
clamp v = if ltb v 1114112 then v else bad

write_rune-clamp : (v : ℕ) → (clamp v < 1114112) × (write_rune v ≡ write_rune (clamp v))
write_rune-clamp v = elim (Bool-cases (ltb v 1114112)) [
  | inl h ↦ rw h (ground arith, refl)
  | inr h ↦ rw h (omega arith, write_rune-bad v (ground arith))
]

clamped : List ℕ → List ℕ
clamped [] = []
clamped (v ∷ vs) = clamp v ∷ clamped vs

write_runes-clamp :
    (vs : List ℕ)
    → All (λ v. v < 1114112) (clamped vs) × (write_runes vs ≡ write_runes (clamped vs))
unfolding write_runes clamped
write_runes-clamp [] = (tt, refl)
write_runes-clamp (v ∷ vs) =
    let (lt, e) = write_rune-clamp v in
    let (lts, es) = write_runes-clamp vs in ((lt, lts), λ i. e i ++ es i)

sanitize_utf8-eq :
    (input vs : List ℕ)
    → utf8_to_runestring input false ≡ some vs
    → sanitize_utf8 input ≡ some (write_runes vs)
unfolding sanitize_utf8
sanitize_utf8-eq input vs h = rw (h, sanitize_utf8) refl

-- Sanitising gives a string for every input, and a sanitised string is left as it is.
pub sanitize_utf8-idempotent :
    (input : List ℕ)
    → (output : List ℕ) × (sanitize_utf8 input ≡ some output) × (sanitize_utf8 output ≡ some output)
unfolding utf8_to_runestring
sanitize_utf8-idempotent input =
    let (vs, h) = runes_from-total (length input) input (omega arith) in
    let (lts, e) = write_runes-clamp vs in
    (
      write_runes vs,
      sanitize_utf8-eq input vs h,
      subst (λ s. sanitize_utf8 s ≡ some s) (sym e)
          (sanitize_utf8-eq _ _ (utf8_to_runestring-write_runes (clamped vs) lts)),
    )

if-length :
    (b : Bool) (s t : List ℕ) (m n : ℕ)
    → length s ≡ m
    → length t ≡ n
    → length (if b then s else t) ≡ (if b then m else n)
if-length true s t m n p q = p
if-length false s t m n p q = q

-- `rune::size` is the number of bytes that the encoder writes, for every number.
pub length-write_rune : (v : ℕ) → length (write_rune v) ≡ size v
unfolding write_rune size write_three
length-write_rune v = if-length (leb v max1) _ _ _ _ refl (
    if-length (leb v max2) _ _ _ _ refl
      (if-length (leb v max3) _ _ _ _ refl (if-length (leb v max4) _ _ _ _ refl refl)))

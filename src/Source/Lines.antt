-- ===== src/Source/Lines.antt =====
-- Positions and lines are two ways to say the same.
use trieste.Prelude.{
  ℕ, zero, suc, ◌+◌, ◌-◌, ◌≤◌, ◌<◌, ◌≡◌, refl, Option, none, some, List, [], ◌∷◌, length, ltb, ◌==◌,
  if◌then◌else◌, arith, Bool-cases, inl, inr, ltb→lt,
}
use trieste.Source.{
  Text, newline, newlines, find_lines, synthetic, lower_bound, line_start, line_end, linecol_at,
  linepos,
}

-- `ls` are positions of newlines, in order, in a text of `size` bytes whose current line starts at
-- `lo`.
abbrev pub AreLines : ℕ → List ℕ → ℕ → Type 0
AreLines lo [] size = lo ≤ size
AreLines lo (l ∷ ls) size = (lo ≤ l) × (l < size) × AreLines (l + 1) ls size

AreLines-lower :
    (lo lo' : ℕ) (ls : List ℕ) (size : ℕ) → lo ≤ lo' → AreLines lo' ls size → AreLines lo ls size
AreLines-lower lo lo' [] size h a = omega arith
AreLines-lower lo lo' (l ∷ ls) size h a = (omega arith, a.1, a.2)

newlines-AreLines :
    (pos size : ℕ) (t : Text) → size ≡ pos + length t → AreLines pos (newlines pos t) size
unfolding newlines
newlines-AreLines pos size [] e = omega arith
newlines-AreLines pos size (c ∷ cs) e =
    let rest = newlines-AreLines (pos + 1) size cs (omega arith) in
    elim (Bool-cases (c == newline)) [
      | inl q ↦ rw q (omega arith, omega arith, rest)
      | inr q ↦ rw q (AreLines-lower pos (pos + 1) (newlines (pos + 1) cs) _ (omega arith) rest)
    ]

-- The start of the line `n`, where the first one starts at `lo`.
line_from : ℕ → List ℕ → ℕ → ℕ
line_from lo ls zero = lo
line_from lo [] (suc n) = 0
line_from lo (l ∷ ls) (suc n) = line_from (l + 1) ls n

line_start-from : (ls : List ℕ) (n : ℕ) → line_start ls n ≡ line_from 0 ls n
unfolding line_start line_from
line_start-from ls zero = refl
line_start-from [] (suc n) = refl
line_start-from (l ∷ ls) (suc n) = go l ls n
  where
    go : (l : ℕ) (ls : List ℕ) (n : ℕ) → line_start (l ∷ ls) (suc n) ≡ line_from (l + 1) ls n
    go l ls zero = refl
    go l [] (suc n) = refl
    go l (k ∷ ls) (suc n) = go k ls n

lower_bound_line :
    (lo size pos : ℕ) (ls : List ℕ)
    → AreLines lo ls size
    → lo ≤ pos
    → pos ≤ size
    → (lower_bound ls pos ≤ length ls)
      × (line_from lo ls (lower_bound ls pos) ≤ pos)
      × (pos ≤ line_end ls (lower_bound ls pos) size)
unfolding lower_bound line_from line_end
lower_bound_line lo size pos [] a h k = omega arith
lower_bound_line lo size pos (l ∷ ls) a h k = elim (Bool-cases (ltb l pos)) [
  | inl e ↦ rw e (
      let (x, y, z) = lower_bound_line (l + 1) size pos ls a.2 (omega (arith, ltb→lt l pos e)) k in
      (omega arith, y, z))
  | inr e ↦ rw e (omega arith, h, ground arith)
]

line_from-ge :
    (lo size n : ℕ) (ls : List ℕ) → AreLines lo ls size → n ≤ length ls → lo ≤ line_from lo ls n
unfolding line_from
line_from-ge lo size zero ls a h = omega arith
line_from-ge lo size (suc n) [] a h = absurd (omega arith)
line_from-ge lo size (suc n) (l ∷ ls) a h =
    omega (arith, line_from-ge (l + 1) size n ls a.2 (omega arith))

lower_bound_unique :
    (lo size pos n : ℕ) (ls : List ℕ)
    → AreLines lo ls size
    → n ≤ length ls
    → line_from lo ls n ≤ pos
    → pos ≤ line_end ls n size
    → lower_bound ls pos ≡ n
unfolding lower_bound line_from line_end
lower_bound_unique lo size pos zero [] a h k m = refl
lower_bound_unique lo size pos (suc n) [] a h k m = absurd (omega arith)
lower_bound_unique lo size pos zero (l ∷ ls) a h k m = ground arith
lower_bound_unique lo size pos (suc n) (l ∷ ls) a h k m = ground (
  arith,
  line_from-ge (l + 1) size n ls a.2,
  lower_bound_unique (l + 1) size pos n ls a.2 (omega arith) k m,
)

line_from-le-end :
    (lo size n : ℕ) (ls : List ℕ)
    → AreLines lo ls size
    → n ≤ length ls
    → line_from lo ls n ≤ line_end ls n size
unfolding line_from line_end
line_from-le-end lo size zero [] a h = a
line_from-le-end lo size (suc n) [] a h = absurd (omega arith)
line_from-le-end lo size zero (l ∷ ls) a h = a.0
line_from-le-end lo size (suc n) (l ∷ ls) a h = line_from-le-end (l + 1) size n ls a.2 (omega arith)

-- What `linepos` says of a line that is there.
linepos_inverse :
    (ls : List ℕ) (size line start len : ℕ)
    → ◌≡◌ {A = Option (ℕ × ℕ)}
        (if ltb (length ls) line
          then none
          else some (line_start ls line, line_end ls line size - line_start ls line))
        (some (start, len))
    → (line ≤ length ls)
      × (start ≡ line_start ls line)
      × (len ≡ line_end ls line size - line_start ls line)
linepos_inverse ls size line start len h = ground arith

-- A position in a source, taken apart by `linecol`, is that many bytes into the line that `linepos`
-- gives for it, and not past the end of that line.
pub linepos-linecol :
    (id : ℕ) (contents origin : Text) (pos : ℕ)
    → pos ≤ length contents
    → (start len : ℕ) × (linepos
          (synthetic id contents origin)
          (linecol_at (synthetic id contents origin) pos).0
        ≡ some (start, len))
      × (start + (linecol_at (synthetic id contents origin) pos).1 ≡ pos)
      × ((linecol_at (synthetic id contents origin) pos).1 ≤ len)
unfolding linepos linecol_at synthetic find_lines
linepos-linecol id contents origin pos h =
    let ls = newlines 0 contents in
    let n = lower_bound ls pos in
    let (x, y, z) =
      lower_bound_line 0 (length contents) pos ls (newlines-AreLines 0 _ contents (omega arith))
        (omega arith) h in
    (
      line_start ls n,
      line_end ls n (length contents) - line_start ls n,
      ground arith,
      omega (arith, line_start-from ls n),
      omega (arith, line_start-from ls n),
    )

-- A column within a line, turned into a position by `linepos`, is taken back by `linecol`.
pub linecol-linepos :
    (id : ℕ) (contents origin : Text) (line col start len : ℕ)
    → linepos (synthetic id contents origin) line ≡ some (start, len)
    → col ≤ len
    → linecol_at (synthetic id contents origin) (start + col) ≡ (line, col)
unfolding linepos linecol_at synthetic find_lines
linecol-linepos id contents origin line col start len h k =
    let ls = newlines 0 contents in
    let lines = newlines-AreLines 0 (length contents) contents (omega arith) in
    let (x, y, z) = linepos_inverse ls (length contents) line start len h in
    let w = line_from-le-end 0 (length contents) line ls lines x in
    let u =
      lower_bound_unique 0 (length contents) (start + col) line ls lines x
        (omega (arith, line_start-from ls line)) (omega (arith, line_start-from ls line)) in
    rw u (pair_eq refl (omega arith))
  where
    pair_eq : {a b c d : ℕ} → a ≡ c → b ≡ d → ◌≡◌ {A = ℕ × ℕ} (a, b) (c, d)
    pair_eq p q = λ i. (p i, q i)

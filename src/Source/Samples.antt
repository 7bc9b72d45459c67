-- ===== src/Source/Samples.antt =====
-- A concrete source.
use trieste.Prelude.{ℕ, ◌+◌, ◌≤◌, ◌≡◌, refl, [], ◌∷◌, some, arith}
use trieste.Source.{
  Text, synthetic, find_lines, newlines, line_start, line_end, linecol_at, linepos,
}
use trieste.Source.Lines.{linepos-linecol, linecol-linepos}

-- "ab\ncd"
abbrev two_lines : Text
two_lines = 97 ∷ 98 ∷ 10 ∷ 99 ∷ 100 ∷ []

linepos-linecol_example :
    (start : ℕ) × (len : ℕ) × (linepos
        (synthetic 0 two_lines [])
        (linecol_at (synthetic 0 two_lines []) 4).0
      ≡ some (start, len))
    × (start + (linecol_at (synthetic 0 two_lines []) 4).1 ≡ 4)
    × ((linecol_at (synthetic 0 two_lines []) 4).1 ≤ len)
linepos-linecol_example = linepos-linecol 0 two_lines [] 4 (omega arith)

second_line : linepos (synthetic 0 two_lines []) 1 ≡ some (3, 2)
unfolding linepos synthetic find_lines newlines line_start line_end
second_line = refl

linecol-linepos_example : linecol_at (synthetic 0 two_lines []) (3 + 1) ≡ (1, 1)
linecol-linepos_example = linecol-linepos 0 two_lines [] 1 1 3 2 second_line (omega arith)

-- ===== src/Source.antt =====
-- include/trieste/source.h: the text of a source, its lines, and locations in it.
pub mod Lines
mod Samples
use trieste.Prelude.{
  ℕ, zero, suc, ◌+◌, ◌-◌, ◌≤◌, Bool, true, false, Option, none, some, List, [], ◌∷◌, length, take,
  drop, min, max, ltb, leb, ◌==◌, if◌then◌else◌,
}

abbrev pub Text : Type 0
Text = List ℕ

abbrev pub newline : ℕ
newline = 10

-- `id` stands for the address of the `SourceDef`, by which two sources are compared.
pub record Source : Type 0 where
  pub id : ℕ
  pub origin : Text
  pub contents : Text
  pub lines : List ℕ
  pub offset : ℕ

-- The loop of `find_lines`: the positions of the newlines, from `pos` on.
pub newlines : ℕ → Text → List ℕ
newlines pos [] = []
newlines pos (c ∷ cs) = if c == newline then pos ∷ newlines (pos + 1) cs else newlines (pos + 1) cs

unfoldable pub find_lines : Text → List ℕ
unfolding newlines
find_lines contents = newlines 0 contents

unfoldable pub synthetic : ℕ → Text → Text → Source
unfolding find_lines
synthetic id contents origin = record {
  id = id;
  origin = origin;
  contents = contents;
  lines = find_lines contents;
  offset = 0;
}

unfoldable pub synthetic_at_offset : ℕ → Text → Text → ℕ → Source
unfolding synthetic
synthetic_at_offset id contents origin offset = record (synthetic id contents origin) {
  offset = offset;
}

-- `std::lower_bound` over the sorted `lines`: how many of them lie below `pos`, and the last of those.
pub lower_bound : List ℕ → ℕ → ℕ
lower_bound [] pos = 0
lower_bound (l ∷ ls) pos = if ltb l pos then suc (lower_bound ls pos) else 0

-- `*(it - 1) + 1` where `it` is not the first line, else 0.
pub line_start : List ℕ → ℕ → ℕ
line_start ls zero = 0
line_start [] (suc n) = 0
line_start (l ∷ ls) (suc zero) = l + 1
line_start (l ∷ ls) (suc (suc n)) = line_start ls (suc n)

unfoldable pub linecol_at : Source → ℕ → ℕ × ℕ
unfolding lower_bound line_start
linecol_at s pos = let line = lower_bound s.lines pos in (line, pos - line_start s.lines line)

line_end : List ℕ → ℕ → ℕ → ℕ
line_end [] n size = size
line_end (l ∷ ls) zero size = l
line_end (l ∷ ls) (suc n) size = line_end ls n size

-- `none` is `{std::string::npos, 0}`, for a line past the last.
unfoldable pub linepos : Source → ℕ → Option (ℕ × ℕ)
unfolding line_start line_end
linepos s line =
    if ltb (length s.lines) line
    then none
    else let start = line_start s.lines line in
      some (start, line_end s.lines line (length s.contents) - start)

pub record Location : Type 0 where
  pub source : Option Source
  pub pos : ℕ
  pub len : ℕ

abbrev pub no_location : Location
no_location = record { source = none; pos = 0; len = 0 }

-- `substr(pos - offset, len)`; `none` is the exception of `substr` past the end, and `pos` below the
-- offset, where the difference wraps to a position that is past the end.
view_in : Source → ℕ → ℕ → Option Text
view_in s pos len =
    if ltb pos s.offset
    then none
    else if ltb (length s.contents) (pos - s.offset)
    then none
    else some (take len (drop (pos - s.offset) s.contents))

unfoldable pub view_of : Option Source → ℕ → ℕ → Option Text
unfolding view_in
view_of none pos len = some []
view_of (some s) pos len = view_in s pos len

unfoldable pub view : Location → Option Text
unfolding view_of
view l = view_of l.source l.pos l.len

linecol_of : Option Source → ℕ → ℕ × ℕ
linecol_of none pos = (0, 0)
linecol_of (some s) pos = if s.offset == 0 then linecol_at s pos else (0, pos)

unfoldable pub linecol : Location → ℕ × ℕ
unfolding linecol_of linecol_at
linecol l = linecol_of l.source l.pos

covering : Source → Location → Location → Location
covering s a b =
    let lo = min a.pos b.pos in
    let hi = max (a.pos + a.len) (b.pos + b.len) in
    record { source = some s; pos = lo; len = hi - lo }

merge : Option Source → Option Source → Location → Location → Location
unfolding covering
merge none t a b = b
merge (some s) none a b = a
merge (some s) (some t) a b = if s.id == t.id then covering s a b else a

-- `operator*`: the smallest location that covers both, in one source.
unfoldable pub merged : Location → Location → Location
unfolding merge
merged a b = merge a.source b.source a b

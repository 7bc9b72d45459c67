-- ===== src/RuneClass/Samples.antt =====
-- Concrete classes.
use trieste.Prelude.{◌≡◌, ◌&&◌, not, [], ◌∷◌, arith}
use trieste.RuneClass.{RuneClass, contains, rebuilt, finalize, complement, dot}
use trieste.RuneClass.Ranges.{member}
use trieste.RuneClass.Bitmap.{contains-rebuilt}
use trieste.RuneClass.Complement.{is_scalar, contains-complement, contains-dot}

-- [p-za-q], with the Greek letters.
abbrev letters : RuneClass
letters = record {
  ranges =
      record { lo = 112; hi = 122 }
      ∷ record { lo = 97; hi = 113 }
      ∷ record { lo = 0x391; hi = 0x3c9 }
      ∷ [];
  low = 0;
  high = 0;
}

contains-complement_example :
    (contains (finalize letters) 0x3b1 ≡ member 0x3b1 letters.ranges)
    × (contains (complement (finalize letters)) 0x3b1
        ≡ (is_scalar 0x3b1 && not (member 0x3b1 letters.ranges)))
contains-complement_example =
    contains-complement 0x3b1 letters
      ((omega arith, omega arith), ((omega arith, omega arith), ((omega arith, omega arith), tt)))

contains-dot_example : contains dot 0xd800 ≡ is_scalar 0xd800
contains-dot_example = contains-dot 0xd800

contains-rebuilt_example :
    contains (rebuilt (record { lo = 97; hi = 122 } ∷ [])) 98
    ≡ member 98 (record { lo = 97; hi = 122 } ∷ [])
contains-rebuilt_example =
    contains-rebuilt 98 0 (record { lo = 97; hi = 122 } ∷ []) (omega arith, tt)

-- ===== src/Rewrite/Frames/Laws.antt =====
-- What the operations of `Match` do to the captures that a rule can see.
use trieste.Prelude.{
  ℕ, zero, suc, ◌+◌, ◌≤◌, ◌<◌, ◌≡◌, refl, ◌∙◌, ap, true, false, none, some, [], ◌∷◌, arith, ◌==◌,
  ==_refl, if◌then◌else◌, Bool-cases, inl, inr,
}
use trieste.Ast.{Token}
use trieste.Rewrite.Frames.{
  Range, Captured, find, assign, Frame, Match, update, frame_find, or_else, find_from, lookup, set,
  add_frame, return_to_frame, reset, init,
}

find-assign :
    (t u : Token) (r : Range) (m : Captured)
    → find u (assign t r m) ≡ (if t == u then some r else find u m)
unfolding find assign
find-assign t u r [] = refl
find-assign t u r ((k, s) ∷ m) = ground (arith, find-assign t u r m)

-- The loop reads the frames up to its start and no others.
find_from-cong :
    (c d : ℕ → Frame) (i : ℕ) (t : Token)
    → ((j : ℕ) → j ≤ i → c j ≡ d j)
    → find_from c i t ≡ find_from d i t
unfolding find_from
find_from-cong c d zero t h = ap (λ f. frame_find f t) (h 0 (omega arith))
find_from-cong c d (suc i) t h = λ k.
    or_else (frame_find (h (suc i) (omega arith) k) t)
      (find_from-cong c d i t (λ j p. h j (omega arith)) k)

-- An invalid frame on top hides nothing.
find_from-invalid :
    (c : ℕ → Frame) (i : ℕ) (t : Token)
    → (c (suc i)).valid ≡ false
    → find_from c (suc i) t ≡ find_from c i t
unfolding find_from frame_find or_else
find_from-invalid c i t h = rw h

-- The frames below the current one are as they were, and the current one did not drop.
pub record Extends (m n : Match) : Type 0 where
  pub above : m.index ≤ n.index
  pub below : (j : ℕ) → j < m.index → n.captures j ≡ m.captures j

pub Extends-refl : (m : Match) → Extends m m
Extends-refl m = record { above = omega arith; below = λ j h. refl }

pub Extends-trans : {m n o : Match} → Extends m n → Extends n o → Extends m o
Extends-trans p q = record {
  above = omega arith;
  below = λ j h. q.below j (omega arith) ∙ p.below j h;
}

pub Extends-set : (t : Token) (r : Range) (m : Match) → Extends m (set t r m)
unfolding set
Extends-set t r m = record { above = omega arith; below = λ j h. ground arith }

-- A new frame leaves also the frame that was current.
pub add_frame-below :
    (m : Match) (j : ℕ) → j < m.index + 1 → (add_frame m).captures j ≡ m.captures j
unfolding add_frame
add_frame-below m j h = ground arith

pub index-add_frame : (m : Match) → (add_frame m).index ≡ m.index + 1
unfolding add_frame
index-add_frame m = ground arith

pub Extends-add_frame : (m : Match) → Extends m (add_frame m)
Extends-add_frame m = record {
  above = omega (arith, index-add_frame m);
  below = λ j h. add_frame-below m j (omega arith);
}

-- What extends a new frame extends the old state, and so does going back to it.
pub Extends-return : (m n : Match) → Extends (add_frame m) n → Extends m (return_to_frame m.index n)
unfolding return_to_frame
Extends-return m n e = record {
  above = omega arith;
  below = λ j h. e.below j (omega (arith, index-add_frame m)) ∙ add_frame-below m j (omega arith);
}

pub lookup-return :
    (m n : Match) (t : Token)
    → Extends (add_frame m) n
    → lookup (return_to_frame m.index n) t ≡ lookup m t
unfolding lookup return_to_frame
lookup-return m n t e =
    find_from-cong n.captures m.captures m.index t
      λ j h. e.below j (omega (arith, index-add_frame m)) ∙ add_frame-below m j (omega arith)

add_frame-invalid : (m : Match) → ((add_frame m).captures (suc m.index)).valid ≡ false
unfolding add_frame
add_frame-invalid m = ground arith

pub lookup-add_frame : (m : Match) (t : Token) → lookup (add_frame m) t ≡ lookup m t
unfolding lookup
lookup-add_frame m t =
    let c = (add_frame m).captures in
    let e : (add_frame m).index ≡ suc m.index = omega (arith, index-add_frame m) in
    rw e (
      find_from-invalid c m.index t (add_frame-invalid m)
      ∙ find_from-cong c m.captures m.index t (λ j h. add_frame-below m j (omega arith)))

-- The frame that `set` writes shows the new capture, and else what the old one showed.
frame_find-assign :
    (f : Frame) (t u : Token) (r : Range)
    → frame_find
        (record { valid = true; captured = assign t r (if f.valid then f.captured else []) })
        u
      ≡ (if t == u then some r else frame_find f u)
unfolding frame_find
frame_find-assign f t u r = elim (Bool-cases f.valid) [
  | inl e ↦ rw e (find-assign t u r f.captured)
  | inr e ↦ rw e (find-assign t u r [] ∙ unfold find in refl)
]

find_from-update :
    (c : ℕ → Frame) (i : ℕ) (f : Frame) (t u : Token) (r : Range)
    → ((v : Token) → frame_find f v ≡ (if t == v then some r else frame_find (c i) v))
    → find_from (update c i f) i u ≡ (if t == u then some r else find_from c i u)
unfolding find_from
find_from-update c zero f t u r h = h u
find_from-update c (suc i) f t u r h =
    rw (find_from-cong (update c (suc i) f) c i u (λ j p. ground arith), ==_refl)
      (unfold or_else in ground (arith, h u))

-- Just after a capture is set it is found under its token, and every other token shows what it
-- showed before, whatever frames are in use.
pub lookup-set :
    (t u : Token) (r : Range) (m : Match)
    → lookup (set t r m) u ≡ (if t == u then some r else lookup m u)
unfolding lookup set
lookup-set t u r m =
    find_from-update m.captures m.index _ t u r λ v. frame_find-assign (m.captures m.index) t v r

pub lookup-reset : (m : Match) (t : Token) → lookup (reset m) t ≡ none
unfolding lookup reset find_from frame_find
lookup-reset m t = refl

pub lookup-init : (t : Token) → lookup init t ≡ none
unfolding lookup init find_from frame_find
lookup-init t = refl

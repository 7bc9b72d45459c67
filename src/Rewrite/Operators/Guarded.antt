-- ===== src/Rewrite/Operators/Guarded.antt =====
-- What the throwing constructors ensure: with no captures under an action, every pattern that the
-- operators build is guarded.
use trieste.Prelude.{Bool, true, false, ◌||◌, ◌≡◌, refl, sym}
use trieste.Rewrite.Pattern.{
  Pattern, done, cap, anything, token_match, regex_match, opt, rep, negation, choice, inside,
  inside_star, first, last, children_of, pred, neg_pred, action,
}
use trieste.Rewrite.Pattern.Spec.{NoCaptures, IsGuarded}
use trieste.Rewrite.Operators.{has_captures}

-- The operands that must have no captures have none by `has_captures`, as the constructors check,
-- `CapturesLeft` is what `has_captures` says of the first alternative, and no action is over a
-- capture, which nothing checks.
abbrev pub IsChecked : Pattern → Type 0
IsChecked done = Unit
IsChecked (cap _ p k) = IsChecked p × IsChecked k
IsChecked (anything k) = IsChecked k
IsChecked (token_match _ k) = IsChecked k
IsChecked (regex_match _ _ k) = IsChecked k
IsChecked (opt p k) = IsChecked p × IsChecked k
IsChecked (rep p k) = (has_captures p ≡ false) × IsChecked p × IsChecked k
IsChecked (negation p k) = (has_captures p ≡ false) × IsChecked p × IsChecked k
IsChecked (choice b p q k) = (b ≡ has_captures p) × IsChecked p × IsChecked q × IsChecked k
IsChecked (inside _ k) = IsChecked k
IsChecked (inside_star _ k) = IsChecked k
IsChecked (first k) = IsChecked k
IsChecked last = Unit
IsChecked (children_of p q k) = IsChecked p × IsChecked q × IsChecked k
IsChecked (pred p k) = (has_captures p ≡ false) × IsChecked p × IsChecked k
IsChecked (neg_pred p k) = (has_captures p ≡ false) × IsChecked p × IsChecked k
IsChecked (action _ p k) = NoCaptures p × IsChecked k

or_false : (a b : Bool) → (a || b) ≡ false → (a ≡ false) × (b ≡ false)
or_false true b h = cc
or_false false b h = (refl, h)

-- Where no action hides a capture, `has_captures` finds them all.
has_captures-NoCaptures : (p : Pattern) → IsChecked p → has_captures p ≡ false → NoCaptures p
unfolding has_captures
has_captures-NoCaptures done c h = tt
has_captures-NoCaptures (cap t p k) c h = absurd (cc)
has_captures-NoCaptures (anything k) c h = has_captures-NoCaptures k c h
has_captures-NoCaptures (token_match ts k) c h = has_captures-NoCaptures k c h
has_captures-NoCaptures (regex_match t r k) c h = has_captures-NoCaptures k c h
has_captures-NoCaptures (opt p k) c h =
    let (x, y) = or_false (has_captures p) (has_captures k) h in
    (has_captures-NoCaptures p c.0 x, has_captures-NoCaptures k c.1 y)
has_captures-NoCaptures (rep p k) c h =
    (has_captures-NoCaptures p c.1 c.0, has_captures-NoCaptures k c.2 h)
has_captures-NoCaptures (negation p k) c h =
    (has_captures-NoCaptures p c.1 c.0, has_captures-NoCaptures k c.2 h)
has_captures-NoCaptures (choice b p q k) c h =
    let (x, y) = or_false (has_captures p || has_captures q) (has_captures k) h in
    let (v, w) = or_false (has_captures p) (has_captures q) x in
    (
      has_captures-NoCaptures p c.1 v,
      has_captures-NoCaptures q c.2 w,
      has_captures-NoCaptures k c.3 y,
    )
has_captures-NoCaptures (inside ts k) c h = has_captures-NoCaptures k c h
has_captures-NoCaptures (inside_star ts k) c h = has_captures-NoCaptures k c h
has_captures-NoCaptures (first k) c h = has_captures-NoCaptures k c h
has_captures-NoCaptures last c h = tt
has_captures-NoCaptures (children_of p q k) c h =
    let (x, y) = or_false (has_captures p || has_captures q) (has_captures k) h in
    let (v, w) = or_false (has_captures p) (has_captures q) x in
    (
      has_captures-NoCaptures p c.0 v,
      has_captures-NoCaptures q c.1 w,
      has_captures-NoCaptures k c.2 y,
    )
has_captures-NoCaptures (pred p k) c h =
    (has_captures-NoCaptures p c.1 c.0, has_captures-NoCaptures k c.2 h)
has_captures-NoCaptures (neg_pred p k) c h =
    (has_captures-NoCaptures p c.1 c.0, has_captures-NoCaptures k c.2 h)
has_captures-NoCaptures (action f p k) c h = (c.0, has_captures-NoCaptures k c.1 h)

NoCaptures-IsGuarded : (p : Pattern) → NoCaptures p → IsGuarded p
NoCaptures-IsGuarded done h = tt
NoCaptures-IsGuarded (cap t p k) h = absurd h
NoCaptures-IsGuarded (anything k) h = NoCaptures-IsGuarded k h
NoCaptures-IsGuarded (token_match ts k) h = NoCaptures-IsGuarded k h
NoCaptures-IsGuarded (regex_match t r k) h = NoCaptures-IsGuarded k h
NoCaptures-IsGuarded (opt p k) h = (NoCaptures-IsGuarded p h.0, NoCaptures-IsGuarded k h.1)
NoCaptures-IsGuarded (rep p k) h = (h.0, NoCaptures-IsGuarded p h.0, NoCaptures-IsGuarded k h.1)
NoCaptures-IsGuarded (negation p k) h =
    (h.0, NoCaptures-IsGuarded p h.0, NoCaptures-IsGuarded k h.1)
NoCaptures-IsGuarded (choice true p q k) h =
    (NoCaptures-IsGuarded p h.0, NoCaptures-IsGuarded q h.1, NoCaptures-IsGuarded k h.2)
NoCaptures-IsGuarded (choice false p q k) h =
    (h.0, NoCaptures-IsGuarded p h.0, NoCaptures-IsGuarded q h.1, NoCaptures-IsGuarded k h.2)
NoCaptures-IsGuarded (inside ts k) h = NoCaptures-IsGuarded k h
NoCaptures-IsGuarded (inside_star ts k) h = NoCaptures-IsGuarded k h
NoCaptures-IsGuarded (first k) h = NoCaptures-IsGuarded k h
NoCaptures-IsGuarded last h = tt
NoCaptures-IsGuarded (children_of p q k) h =
    (NoCaptures-IsGuarded p h.0, NoCaptures-IsGuarded q h.1, NoCaptures-IsGuarded k h.2)
NoCaptures-IsGuarded (pred p k) h = (h.0, NoCaptures-IsGuarded p h.0, NoCaptures-IsGuarded k h.1)
NoCaptures-IsGuarded (neg_pred p k) h =
    (h.0, NoCaptures-IsGuarded p h.0, NoCaptures-IsGuarded k h.1)
NoCaptures-IsGuarded (action f p k) h = (NoCaptures-IsGuarded p h.0, NoCaptures-IsGuarded k h.1)

pub IsChecked-IsGuarded : (p : Pattern) → IsChecked p → IsGuarded p
IsChecked-IsGuarded done c = tt
IsChecked-IsGuarded (cap t p k) c = (IsChecked-IsGuarded p c.0, IsChecked-IsGuarded k c.1)
IsChecked-IsGuarded (anything k) c = IsChecked-IsGuarded k c
IsChecked-IsGuarded (token_match ts k) c = IsChecked-IsGuarded k c
IsChecked-IsGuarded (regex_match t r k) c = IsChecked-IsGuarded k c
IsChecked-IsGuarded (opt p k) c = (IsChecked-IsGuarded p c.0, IsChecked-IsGuarded k c.1)
IsChecked-IsGuarded (rep p k) c =
    (has_captures-NoCaptures p c.1 c.0, IsChecked-IsGuarded p c.1, IsChecked-IsGuarded k c.2)
IsChecked-IsGuarded (negation p k) c =
    (has_captures-NoCaptures p c.1 c.0, IsChecked-IsGuarded p c.1, IsChecked-IsGuarded k c.2)
IsChecked-IsGuarded (choice true p q k) c =
    (IsChecked-IsGuarded p c.1, IsChecked-IsGuarded q c.2, IsChecked-IsGuarded k c.3)
IsChecked-IsGuarded (choice false p q k) c = (
  has_captures-NoCaptures p c.1 (sym c.0),
  IsChecked-IsGuarded p c.1,
  IsChecked-IsGuarded q c.2,
  IsChecked-IsGuarded k c.3,
)
IsChecked-IsGuarded (inside ts k) c = IsChecked-IsGuarded k c
IsChecked-IsGuarded (inside_star ts k) c = IsChecked-IsGuarded k c
IsChecked-IsGuarded (first k) c = IsChecked-IsGuarded k c
IsChecked-IsGuarded last c = tt
IsChecked-IsGuarded (children_of p q k) c =
    (IsChecked-IsGuarded p c.0, IsChecked-IsGuarded q c.1, IsChecked-IsGuarded k c.2)
IsChecked-IsGuarded (pred p k) c =
    (has_captures-NoCaptures p c.1 c.0, IsChecked-IsGuarded p c.1, IsChecked-IsGuarded k c.2)
IsChecked-IsGuarded (neg_pred p k) c =
    (has_captures-NoCaptures p c.1 c.0, IsChecked-IsGuarded p c.1, IsChecked-IsGuarded k c.2)
IsChecked-IsGuarded (action f p k) c = (NoCaptures-IsGuarded p c.0, IsChecked-IsGuarded k c.1)

-- ===== src/RegexEngine/Slots.antt =====
-- The states of include/trieste/regex_engine.h, read by label and by slot, and how `patch` and
-- `create_state` change them.
use trieste.Prelude.{
  ℕ, zero, suc, ◌≤◌, ◌<◌, ◌≡◌, refl, ap, ◌∙◌, Bool, true, false, ◌&&◌, ◌||◌, not, Option, none,
  some, List, [], ◌∷◌, ◌++◌, All, length, ◌==◌, if◌then◌else◌, arith, ◌⊎◌,
}
use trieste.RegexEngine.{StateDef, Slot, set_slot, patch_states}

abbrev pub label_at : List StateDef → ℕ → Option ℕ
label_at [] i = none
label_at (s ∷ ss) zero = some s.label
label_at (s ∷ ss) (suc i) = label_at ss i

abbrev pub side : StateDef → Bool → Option ℕ
side s false = s.next
side s true = s.next_alt

abbrev pub slot_at : List StateDef → ℕ → Bool → Option ℕ
slot_at [] i b = none
slot_at (s ∷ ss) zero b = side s b
slot_at (s ∷ ss) (suc i) b = slot_at ss i b

abbrev pub same : Bool → Bool → Bool
same true b = b
same false b = not b

abbrev pub has : ℕ → Bool → List Slot → Bool
has i b [] = false
has i b (t ∷ ts) = i == t.state && same b t.alt || has i b ts

pub length-set_slot :
    (i : ℕ) (b : Bool) (t : ℕ) (ss : List StateDef) → length (set_slot i b t ss) ≡ length ss
unfolding set_slot
length-set_slot i b t [] = refl
length-set_slot zero b t (s ∷ ss) = refl
length-set_slot (suc i) b t (s ∷ ss) = ap suc (length-set_slot i b t ss)

label_at-set_slot :
    (i : ℕ) (b : Bool) (t : ℕ) (ss : List StateDef) (j : ℕ)
    → label_at (set_slot i b t ss) j ≡ label_at ss j
unfolding set_slot
label_at-set_slot i b t [] j = refl
label_at-set_slot zero true t (s ∷ ss) zero = refl
label_at-set_slot zero false t (s ∷ ss) zero = refl
label_at-set_slot zero b t (s ∷ ss) (suc j) = refl
label_at-set_slot (suc i) b t (s ∷ ss) zero = refl
label_at-set_slot (suc i) b t (s ∷ ss) (suc j) = label_at-set_slot i b t ss j

slot_at-set_slot :
    (i : ℕ) (b : Bool) (t : ℕ) (ss : List StateDef) (j : ℕ) (c : Bool)
    → j < length ss
    → slot_at (set_slot i b t ss) j c ≡ (if j == i && same c b then some t else slot_at ss j c)
unfolding set_slot
slot_at-set_slot i b t [] j c h = absurd (omega arith)
slot_at-set_slot zero true t (s ∷ ss) zero true h = refl
slot_at-set_slot zero true t (s ∷ ss) zero false h = refl
slot_at-set_slot zero false t (s ∷ ss) zero true h = refl
slot_at-set_slot zero false t (s ∷ ss) zero false h = refl
slot_at-set_slot zero b t (s ∷ ss) (suc j) c h = ground arith
slot_at-set_slot (suc i) b t (s ∷ ss) zero c h = ground arith
slot_at-set_slot (suc i) b t (s ∷ ss) (suc j) c h = ground (arith, slot_at-set_slot i b t ss j c)

pub length-patch_states :
    (ts : List Slot) (t : ℕ) (ss : List StateDef) → length (patch_states ts t ss) ≡ length ss
unfolding patch_states
length-patch_states [] t ss = refl
length-patch_states (x ∷ ts) t ss =
    length-patch_states ts t (set_slot x.state x.alt t ss) ∙ length-set_slot x.state x.alt t ss

pub label_at-patch_states :
    (ts : List Slot) (t : ℕ) (ss : List StateDef) (j : ℕ)
    → label_at (patch_states ts t ss) j ≡ label_at ss j
unfolding patch_states
label_at-patch_states [] t ss j = refl
label_at-patch_states (x ∷ ts) t ss j =
    label_at-patch_states ts t (set_slot x.state x.alt t ss) j
    ∙ label_at-set_slot x.state x.alt t ss j

pub slot_at-patch_states :
    (ts : List Slot) (t : ℕ) (ss : List StateDef) (j : ℕ) (c : Bool)
    → j < length ss
    → slot_at (patch_states ts t ss) j c ≡ (if has j c ts then some t else slot_at ss j c)
unfolding patch_states
slot_at-patch_states [] t ss j c h = refl
slot_at-patch_states (x ∷ ts) t ss j c h = ground (
  arith,
  slot_at-patch_states ts t (set_slot x.state x.alt t ss) j c,
  slot_at-set_slot x.state x.alt t ss j c h,
  length-set_slot x.state x.alt t ss,
)

pub label_at-old :
    (ss ts : List StateDef) (j : ℕ) → j < length ss → label_at (ss ++ ts) j ≡ label_at ss j
label_at-old [] ts j h = absurd (omega arith)
label_at-old (s ∷ ss) ts zero h = refl
label_at-old (s ∷ ss) ts (suc j) h = label_at-old ss ts j (omega arith)

pub slot_at-old :
    (ss ts : List StateDef) (j : ℕ) (c : Bool)
    → j < length ss
    → slot_at (ss ++ ts) j c ≡ slot_at ss j c
slot_at-old [] ts j c h = absurd (omega arith)
slot_at-old (s ∷ ss) ts zero c h = refl
slot_at-old (s ∷ ss) ts (suc j) c h = slot_at-old ss ts j c (omega arith)

pub label_at-new :
    (ss : List StateDef) (s : StateDef) → label_at (ss ++ s ∷ []) (length ss) ≡ some s.label
label_at-new [] s = refl
label_at-new (x ∷ ss) s = label_at-new ss s

pub slot_at-new :
    (ss : List StateDef) (s : StateDef) (c : Bool) → slot_at (ss ++ s ∷ []) (length ss) c ≡ side s c
slot_at-new [] s c = refl
slot_at-new (x ∷ ss) s c = slot_at-new ss s c

-- All slots of a list belong to states of a range.
abbrev pub Within : ℕ → ℕ → List Slot → Type 0
Within lo hi = All (λ (t : Slot). (lo ≤ t.state) × (t.state < hi))

pub Within-append :
    (lo hi : ℕ) (xs ys : List Slot) → Within lo hi xs → Within lo hi ys → Within lo hi (xs ++ ys)
Within-append lo hi [] ys hx hy = hy
Within-append lo hi (x ∷ xs) ys hx hy = (hx.0, Within-append lo hi xs ys hx.1 hy)

pub Within-wider :
    (lo hi lo' hi' : ℕ) (xs : List Slot) → lo' ≤ lo → hi ≤ hi' → Within lo hi xs → Within lo' hi' xs
Within-wider lo hi lo' hi' [] l h w = tt
Within-wider lo hi lo' hi' (x ∷ xs) l h w =
    ((omega arith, omega arith), Within-wider lo hi lo' hi' xs l h w.1)

pub has-outside :
    (lo hi : ℕ) (xs : List Slot) (j : ℕ) (c : Bool)
    → Within lo hi xs
    → (j < lo) ⊎ (hi ≤ j)
    → has j c xs ≡ false
has-outside lo hi [] j c w h = refl
has-outside lo hi (x ∷ xs) j c w h = ground (arith, has-outside lo hi xs j c w.1 h)

pub has-append :
    (xs ys : List Slot) (j : ℕ) (c : Bool) → has j c (xs ++ ys) ≡ (has j c xs || has j c ys)
has-append [] ys j c = refl
has-append (x ∷ xs) ys j c = ground (arith, has-append xs ys j c)

-- ===== src/Xoroshiro/Nonzero.antt =====
-- The state is never zero, so that `abort()` in `operator()` is never reached.
use trieste.Prelude.{
  ℕ, zero, suc, ◌+◌, ◌-◌, ◌*◌, ◌/◌, ◌%◌, ◌^◌, ◌≤◌, ◌<◌, bit_xor, ◌≡◌, refl, sym, ap, ◌∙◌, true,
  false, ◌&&◌, some, List, [], ◌∷◌, length, ◌==◌, Bool-cases, inl, inr, arith,
}
use trieste.Prelude.Bits.{bit_or≡zero, bit_xor≡zero, bit_or-lt, bit_xor-lt}
use native.Mathlib.Nat.{
  one-le-pow, pow-suc, mod-lt, mod-eq_of_lt, mul-lt-mul_of_pos_right, div-le_self, lt-mul-div-succ,
  zero-mod,
}
use trieste.Xoroshiro.{
  Params, State, rotl, is_zero, advanced, checked, next, set_state, draws, then_draw,
}

-- Both words fit, and they are not both zero.
abbrev pub IsState : Params → State → Type 0
IsState p s = (s.x < 2 ^ p.w) × (s.y < 2 ^ p.w) × (is_zero s ≡ false)

-- The rotations are by less than the width.
abbrev pub IsParams : Params → Type 0
IsParams p = (p.a ≤ p.w) × (p.c ≤ p.w)

positive : (n : ℕ) → 0 < 2 ^ n
positive n = omega (arith, one-le-pow n 2 (omega arith))

zero_plus : (k : ℕ) → 0 + k ≡ k
zero_plus k = omega arith

powers_add : (m k : ℕ) → 2 ^ m * 2 ^ k ≡ 2 ^ (m + k)
powers_add zero k = omega (arith, ap (λ (t : ℕ). 2 ^ t) (zero_plus k))
powers_add (suc m) k = omega (
  arith,
  ap (λ (t : ℕ). t * 2 ^ k) (pow-suc 2 m),
  powers_add m k,
  pow-suc 2 (m + k),
  ap (λ (t : ℕ). 2 ^ t) (moved m k),
)
  where
    moved : (m k : ℕ) → suc m + k ≡ suc (m + k)
    moved m k = omega arith

powers : (w k : ℕ) → k ≤ w → 2 ^ (w - k) * 2 ^ k ≡ 2 ^ w
powers w k le = powers_add (w - k) k ∙ ap (λ (t : ℕ). 2 ^ t) (omega arith)

rotl-lt : (w x k : ℕ) → x < 2 ^ w → rotl w x k < 2 ^ w
unfolding rotl
rotl-lt w x k lt =
    bit_or-lt w _ _ (mod-lt (x * 2 ^ k) (positive w)) (omega (arith, div-le_self x (2 ^ (w - k))))

-- A rotation of a number is zero only when the number is.
rotl≡zero : (w x k : ℕ) → k ≤ w → x < 2 ^ w → rotl w x k ≡ 0 → x ≡ 0
unfolding rotl
rotl≡zero w x k le lt h =
    let (low, high) = bit_or≡zero (x * 2 ^ k % 2 ^ w) (x / 2 ^ (w - k)) h in
    let small : x < 2 ^ (w - k) =
      omega
        (arith, lt-mul-div-succ x (positive (w - k)), ap (λ (t : ℕ). 2 ^ (w - k) * (t + 1)) high) in
    let fits : x * 2 ^ k < 2 ^ w =
      omega (arith, powers w k le, mul-lt-mul_of_pos_right {k = 2 ^ k} small (positive k)) in
    only_zero x (sym (mod-eq_of_lt fits) ∙ low)
  where
    only_zero : (x : ℕ) → x * 2 ^ k ≡ 0 → x ≡ 0
    only_zero zero e = refl
    only_zero (suc x) e =
        absurd (omega (arith, mul-lt-mul_of_pos_right {k = 2 ^ k} (positive_suc x) (positive k)))
      where
        positive_suc : (n : ℕ) → 0 < suc n
        positive_suc n = omega arith

zero_iff : (s : State) → is_zero s ≡ true → (s.x ≡ 0) × (s.y ≡ 0)
zero_iff s h = (ground arith, ground arith)

-- The step keeps the words to their width and never makes both zero.
advanced-IsState : (p : Params) (s : State) → IsParams p → IsState p s → IsState p (advanced p s)
unfolding advanced
advanced-IsState p s (ha, hc) (hx, hy, nz) =
    let mixed = bit_xor-lt p.w s.y s.x hy hx in
    (
      bit_xor-lt p.w _ _ (bit_xor-lt p.w _ _ (rotl-lt p.w s.x p.a hx) mixed)
          (mod-lt (bit_xor s.y s.x * 2 ^ p.b) (positive p.w)),
      rotl-lt p.w (bit_xor s.y s.x) p.c mixed,
      elim (Bool-cases (is_zero (advanced p s))) [
        | inl h ↦
            let (ex, ey) = zero_iff (advanced p s) h in
            absurd (never ex (rotl≡zero p.w (bit_xor s.y s.x) p.c hc mixed ey))
        | inr h ↦ h
      ],
    )
  where
    none_left : 0 * 2 ^ p.b % 2 ^ p.w ≡ 0
    none_left = ap (λ (t : ℕ). t % 2 ^ p.w) (omega arith) ∙ zero-mod (2 ^ p.w)

    both : (x y : ℕ) → x ≡ 0 → y ≡ 0 → (x == 0 && y == 0) ≡ false → ⊥
    both x y p q h = ground arith

    never :
        bit_xor (bit_xor (rotl p.w s.x p.a) (bit_xor s.y s.x)) (bit_xor s.y s.x * 2 ^ p.b % 2 ^ p.w)
          ≡ 0
        → bit_xor s.y s.x ≡ 0
        → ⊥
    never ex e =
        let turned =
          bit_xor≡zero (rotl p.w s.x p.a) (bit_xor s.y s.x)
            (bit_xor≡zero _ _ ex ∙ ap (λ (t : ℕ). t * 2 ^ p.b % 2 ^ p.w) e ∙ none_left) in
        let x0 = rotl≡zero p.w s.x p.a ha hx (turned ∙ e) in
        let y0 = bit_xor≡zero s.y s.x e ∙ x0 in both (s.x) (s.y) x0 y0 nz

checked-eq : (s : State) (r : ℕ) → is_zero s ≡ false → checked s r ≡ some (r, s)
checked-eq s r h = rw (h, checked) refl

draws-IsState :
    (n : ℕ) (p : Params) (s : State)
    → IsParams p
    → IsState p s
    → (rs : List ℕ) × (draws n p s ≡ some rs) × (length rs ≡ n)
unfolding draws next
draws-IsState zero p s hp hs = ([], refl, refl)
draws-IsState (suc n) p s hp hs =
    let after = advanced-IsState p s hp hs in
    let (rs, e, l) = draws-IsState n p (advanced p s) hp after in
    let r = (s.x + s.y) % 2 ^ p.w / 2 ^ (p.w - p.v) in
    (r ∷ rs, rw (checked-eq (advanced p s) r after.2, draws, next) (ap (then_draw r) e), ap suc l)

-- A generator whose rotations are within its width, seeded with two words of that width that are
-- not both zero, can be called any number of times: `abort()` is not reached, neither in the
-- constructor nor in a call.
pub draws-set_state :
    (n : ℕ) (p : Params) (x y : ℕ)
    → IsParams p
    → x < 2 ^ p.w
    → y < 2 ^ p.w
    → (x == 0 && y == 0) ≡ false
    → (s : State) × (rs : List ℕ) × (set_state p x y ≡ some s)
      × (draws n p s ≡ some rs)
      × (length rs ≡ n)
unfolding set_state next
draws-set_state n p x y hp hx hy nz =
    let seed : State = record { x = x; y = y } in
    let after = advanced-IsState p seed hp (hx, hy, nz) in
    let (rs, e, l) = draws-IsState n p (advanced p seed) hp after in
    (
      advanced p seed,
      rs,
      rw (nz, checked-eq (advanced p seed) ((x + y) % 2 ^ p.w / 2 ^ (p.w - p.v)) after.2) refl,
      e,
      l,
    )

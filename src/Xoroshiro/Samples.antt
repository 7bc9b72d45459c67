-- ===== src/Xoroshiro/Samples.antt =====
-- A concrete generator.
use trieste.Prelude.{ℕ, ◌≡◌, refl, some, none, List, length, arith}
use trieste.Xoroshiro.{State, set_state, draws, p128r32, p16r8}
use trieste.Xoroshiro.Nonzero.{draws-set_state}

draws-set_state_example :
    (s : State) × (rs : List ℕ) × (set_state p128r32 5489 0 ≡ some s)
    × (draws 3 p128r32 s ≡ some rs)
    × (length rs ≡ 3)
draws-set_state_example =
    draws-set_state 3 p128r32 5489 0 (omega arith, omega arith) (omega arith) (omega arith) refl

-- The state 0 is refused.
zero_refused : set_state p16r8 0 0 ≡ none
unfolding set_state
zero_refused = refl

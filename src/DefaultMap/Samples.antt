-- ===== src/DefaultMap/Samples.antt =====
-- A concrete map.
use trieste.Prelude.{ℕ, ◌+◌, ◌≡◌}
use trieste.DefaultMap.{token_index, create, modify, modify_all, get}
use trieste.DefaultMap.Laws.{get-modify, get-modify_all}

-- The tokens 3 and 131 share an entry; 4 has another.
get-modify_example : get (modify 3 (λ (n : ℕ). n + 1) (create 7)) 131 ≡ 8
unfolding token_index get create
get-modify_example = get-modify 3 131 (λ (n : ℕ). n + 1) (create 7)

get-modify_all_example :
    get (modify_all (λ (n : ℕ). n + n) (modify 3 (λ (n : ℕ). n + 1) (create 7))) 3
    ≡ get (modify 3 (λ (n : ℕ). n + 1) (create 7)) 3
      + get (modify 3 (λ (n : ℕ). n + 1) (create 7)) 3
get-modify_all_example =
    get-modify_all (λ (n : ℕ). n + n) (modify 3 (λ (n : ℕ). n + 1) (create 7)) 3

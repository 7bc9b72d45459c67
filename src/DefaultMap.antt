-- ===== src/DefaultMap.antt =====
-- include/trieste/defaultmap.h: a map from tokens with a default that can still be modified.
pub mod Laws
mod Samples
use trieste.Prelude.{ℕ, zero, suc, ◌%◌, Bool, true, false, Option, none, some, ◌==◌, if◌then◌else◌}
use trieste.Ast.{Token}

-- `default_map_hash`: `default_map_id / sizeof(void*)`, which is the order of creation modulo the
-- size of the table.
abbrev pub table_size : ℕ
table_size = 128

unfoldable pub token_index : Token → ℕ
token_index t = t % table_size

-- An entry is `none` where the array points to `def`, which is what `is_index_default` asks.
pub record DefaultMap {ℓ} (T : Type ℓ) : Type ℓ where
  pub def : T
  pub map : ℕ → Option T
  pub empty : Bool

module _ {ℓ} {T : Type ℓ} where
  abbrev pub entry_or : Option T → T → T
  entry_or none d = d
  entry_or (some v) d = v

  unfoldable pub create : T → DefaultMap T
  create d = record { def = d; map = λ i. none; empty = true }

  abbrev pub on_entry : (T → T) → Option T → Option T
  on_entry f none = none
  on_entry f (some v) = some (f v)

  unfoldable pub modify_all : (T → T) → DefaultMap T → DefaultMap T
  modify_all f m = record { def = f m.def; map = λ i. on_entry f (m.map i); empty = false }

  -- `modify(t)`, with what the caller does to the value that it is handed.
  unfoldable pub modify : Token → (T → T) → DefaultMap T → DefaultMap T
  unfolding token_index
  modify t f m =
      let i = token_index t in
      record {
        def = m.def;
        map = λ j. if i == j then some (f (entry_or (m.map i) m.def)) else m.map j;
        empty = false;
      }

  unfoldable pub get : DefaultMap T → Token → T
  unfolding token_index
  get m t = entry_or (m.map (token_index t)) m.def

  -- `cleared` is what `def.clear()` leaves.
  unfoldable pub clear : T → DefaultMap T → DefaultMap T
  clear cleared m = record { def = cleared; map = λ i. none; empty = true }

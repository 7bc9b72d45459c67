-- ===== src/DefaultMap/Laws.antt =====
-- What `get` shows after each operation: the default where nothing more specific was modified.
use trieste.Prelude.{
  Bool, Option, none, some, ◌==◌, if◌then◌else◌, ◌≡◌, refl, ap, Bool-cases, inl, inr, ==_iff,
}
use trieste.Ast.{Token}
use trieste.DefaultMap.{
  DefaultMap, token_index, entry_or, create, on_entry, modify_all, modify, get, clear,
}

-- Two tokens that share an entry of the table.
abbrev pub same_entry : Token → Token → Bool
same_entry t u = token_index t == token_index u

module _ {ℓ} {T : Type ℓ} where
  pub get-create : (d : T) (t : Token) → get (create d) t ≡ d
  unfolding get create
  get-create d t = refl

  -- Modifying all values changes what `get` shows for every token, by the same function.
  pub get-modify_all :
      (f : T → T) (m : DefaultMap T) (t : Token) → get (modify_all f m) t ≡ f (get m t)
  unfolding get modify_all
  get-modify_all f m t = go (m.map (token_index t))
    where
      go : (o : Option T) → entry_or (on_entry f o) (f m.def) ≡ f (entry_or o m.def)
      go none = refl
      go (some v) = refl

  -- Modifying the value of a token changes what `get` shows for the tokens that share its entry of
  -- the table, and for no other.
  pub get-modify :
      (t u : Token) (f : T → T) (m : DefaultMap T)
      → get (modify t f m) u ≡ (if same_entry t u then f (get m u) else get m u)
  unfolding get modify
  get-modify t u f m = elim (Bool-cases (same_entry t u)) [
    | inl e ↦ rw e (ap (λ i. f (entry_or (m.map i) m.def)) ((==_iff _ _).0 e))
    | inr e ↦ rw e
  ]

  pub get-clear : (d : T) (m : DefaultMap T) (t : Token) → get (clear d m) t ≡ d
  unfolding get clear
  get-clear d m t = refl

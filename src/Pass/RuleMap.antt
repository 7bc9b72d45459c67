-- ===== src/Pass/RuleMap.antt =====
-- `compile_rules`, and what its map holds for a parent and a first token.
use trieste.Prelude.{
  Bool, true, false, ◌&&◌, ◌||◌, List, [], ◌∷◌, ◌++◌, elem, if◌then◌else◌, ◌≡◌, refl, sym, ap, ◌∙◌,
  subst, ◌⊎◌, Bool-cases, inl, inr, arith,
}
use mathlib.Core.List.{append-nil, append_assoc}
use trieste.Ast.{Token}
use trieste.DefaultMap.{DefaultMap, modify_all, modify, get, clear}
use trieste.DefaultMap.Laws.{get-modify_all, get-modify, get-clear, same_entry}
use trieste.Rewrite.Operators.{FastPattern, is_empty}

module _ {R : Type 0} (fast : R → FastPattern) where
  -- `rules.modify(start).push_back(rule)` for each start.
  add_starts : R → List Token → DefaultMap (List R) → DefaultMap (List R)
  add_starts r [] m = m
  add_starts r (t ∷ ts) m = add_starts r ts (modify t (λ v. v ++ r ∷ []) m)

  -- The lambda `add`.
  add : R → DefaultMap (List R) → DefaultMap (List R)
  unfolding add_starts
  add r m =
      if is_empty (fast r).starts || (fast r).pass_through
      then modify_all (λ v. v ++ r ∷ []) m
      else add_starts r (fast r).starts m

  add_parents : R → List Token → DefaultMap (DefaultMap (List R)) → DefaultMap (DefaultMap (List R))
  unfolding add
  add_parents r [] m = m
  add_parents r (t ∷ ts) m = add_parents r ts (modify t (add r) m)

  add_rule : R → DefaultMap (DefaultMap (List R)) → DefaultMap (DefaultMap (List R))
  unfolding add_parents
  add_rule r m =
      if is_empty (fast r).parents then modify_all (add r) m else add_parents r (fast r).parents m

  add_rules : List R → DefaultMap (DefaultMap (List R)) → DefaultMap (DefaultMap (List R))
  unfolding add_rule
  add_rules [] m = m
  add_rules (r ∷ rs) m = add_rules rs (add_rule r m)

  -- `clear` clears the inner default too.
  unfoldable pub compile_rules :
      List R → DefaultMap (DefaultMap (List R)) → DefaultMap (DefaultMap (List R))
  unfolding add_rules
  compile_rules rs m = add_rules rs (clear (clear [] m.def) m)

  -- How often a rule is filed for a first token, and for a parent and a first token: once, or once
  -- for each listed token that shares the entry of the table.
  abbrev pub start_copies : R → List Token → Token → List R
  start_copies r [] t = []
  start_copies r (s ∷ ss) t = (if same_entry s t then r ∷ [] else []) ++ start_copies r ss t

  unfoldable pub starts_filed : R → Token → List R
  starts_filed r t =
      if is_empty (fast r).starts || (fast r).pass_through
      then r ∷ []
      else start_copies r (fast r).starts t

  abbrev pub parent_copies : R → List Token → Token → Token → List R
  parent_copies r [] p t = []
  parent_copies r (s ∷ ss) p t =
      (if same_entry s p then starts_filed r t else []) ++ parent_copies r ss p t

  unfoldable pub filed : R → Token → Token → List R
  unfolding starts_filed
  filed r p t =
      if is_empty (fast r).parents then starts_filed r t else parent_copies r (fast r).parents p t

  unfoldable pub all_filed : List R → Token → Token → List R
  unfolding filed
  all_filed [] p t = []
  all_filed (r ∷ rs) p t = filed r p t ++ all_filed rs p t

  get-add_starts :
      (r : R) (ts : List Token) (m : DefaultMap (List R)) (u : Token)
      → get (add_starts r ts m) u ≡ get m u ++ start_copies r ts u
  unfolding add_starts
  get-add_starts r [] m u = sym (append-nil (get m u))
  get-add_starts r (t ∷ ts) m u =
      get-add_starts r ts (modify t (λ v. v ++ r ∷ []) m) u
      ∙ ap (λ v. v ++ start_copies r ts u) (get-modify t u (λ v. v ++ r ∷ []) m)
      ∙ spread (same_entry t u)
    where
      spread :
          (b : Bool)
          → (if b then get m u ++ r ∷ [] else get m u) ++ start_copies r ts u
            ≡ get m u ++ ((if b then r ∷ [] else []) ++ start_copies r ts u)
      spread true = append_assoc (get m u) (r ∷ []) (start_copies r ts u)
      spread false = refl

  get-add :
      (r : R) (m : DefaultMap (List R)) (u : Token) → get (add r m) u ≡ get m u ++ starts_filed r u
  unfolding add starts_filed
  get-add r m u = elim (Bool-cases (is_empty (fast r).starts || (fast r).pass_through)) [
    | inl e ↦ rw e (get-modify_all (λ v. v ++ r ∷ []) m u)
    | inr e ↦ rw e (get-add_starts r (fast r).starts m u)
  ]

  get-add_parents :
      (r : R) (ts : List Token) (m : DefaultMap (DefaultMap (List R))) (p u : Token)
      → get (get (add_parents r ts m) p) u ≡ get (get m p) u ++ parent_copies r ts p u
  unfolding add_parents
  get-add_parents r [] m p u = sym (append-nil (get (get m p) u))
  get-add_parents r (t ∷ ts) m p u =
      get-add_parents r ts (modify t (add r) m) p u
      ∙ ap (λ v. get v u ++ parent_copies r ts p u) (get-modify t p (add r) m)
      ∙ spread (same_entry t p)
    where
      spread :
          (b : Bool)
          → get (if b then add r (get m p) else get m p) u ++ parent_copies r ts p u
            ≡ get (get m p) u ++ ((if b then starts_filed r u else []) ++ parent_copies r ts p u)
      spread true =
          ap (λ v. v ++ parent_copies r ts p u) (get-add r (get m p) u)
          ∙ append_assoc (get (get m p) u) (starts_filed r u) (parent_copies r ts p u)
      spread false = refl

  get-add_rule :
      (r : R) (m : DefaultMap (DefaultMap (List R))) (p u : Token)
      → get (get (add_rule r m) p) u ≡ get (get m p) u ++ filed r p u
  unfolding add_rule filed
  get-add_rule r m p u = elim (Bool-cases (is_empty (fast r).parents)) [
    | inl e ↦ rw e (ap (λ v. get v u) (get-modify_all (add r) m p) ∙ get-add r (get m p) u)
    | inr e ↦ rw e (get-add_parents r (fast r).parents m p u)
  ]

  get-add_rules :
      (rs : List R) (m : DefaultMap (DefaultMap (List R))) (p u : Token)
      → get (get (add_rules rs m) p) u ≡ get (get m p) u ++ all_filed rs p u
  unfolding add_rules all_filed
  get-add_rules [] m p u = sym (append-nil (get (get m p) u))
  get-add_rules (r ∷ rs) m p u =
      get-add_rules rs (add_rule r m) p u
      ∙ ap (λ v. v ++ all_filed rs p u) (get-add_rule r m p u)
      ∙ append_assoc (get (get m p) u) (filed r p u) (all_filed rs p u)

  -- Whatever the map held before, after `compile_rules` the entry of a parent and a first token lists
  -- the rules in the order of the pass, each as often as its parents and its starts hit the entry.
  pub get-compile_rules :
      (rs : List R) (m : DefaultMap (DefaultMap (List R))) (p u : Token)
      → get (get (compile_rules rs m) p) u ≡ all_filed rs p u
  unfolding compile_rules
  get-compile_rules rs m p u =
      get-add_rules rs (clear (clear [] m.def) m) p u
      ∙ ap (λ v. v ++ all_filed rs p u)
          (ap (λ v. get v u) (get-clear (clear [] m.def) m p) ∙ get-clear [] m.def u)

  -- A map that says that it is empty has nothing filed.
  abbrev EmptyHolds : DefaultMap (List R) → Type 0
  EmptyHolds m = m.empty ≡ true → (t : Token) → get m t ≡ []

  not_empty : (m : DefaultMap (List R)) → m.empty ≡ false → EmptyHolds m
  not_empty m h e = cc

  empty-add_starts :
      (r : R) (ts : List Token) (m : DefaultMap (List R))
      → (is_empty ts ≡ false) ⊎ (m.empty ≡ false)
      → (add_starts r ts m).empty ≡ false
  unfolding add_starts modify
  empty-add_starts r [] m (inl h) = cc
  empty-add_starts r [] m (inr h) = h
  empty-add_starts r (t ∷ ts) m h = empty-add_starts r ts (modify t (λ v. v ++ r ∷ []) m) (inr refl)

  empty-add : (r : R) (m : DefaultMap (List R)) → (add r m).empty ≡ false
  unfolding add modify_all
  empty-add r m = elim (Bool-cases (is_empty (fast r).starts || (fast r).pass_through)) [
    | inl e ↦ rw e
    | inr e ↦ rw e (empty-add_starts r (fast r).starts m (inl (ground arith)))
  ]

  abbrev AllHold : DefaultMap (DefaultMap (List R)) → Type 0
  AllHold m = (p : Token) → EmptyHolds (get m p)

  AllHold-add_parents :
      (r : R) (ts : List Token) (m : DefaultMap (DefaultMap (List R)))
      → AllHold m
      → AllHold (add_parents r ts m)
  unfolding add_parents
  AllHold-add_parents r [] m h = h
  AllHold-add_parents r (t ∷ ts) m h =
      AllHold-add_parents r ts (modify t (add r) m)
        (λ p. subst EmptyHolds (sym (get-modify t p (add r) m)) (go p (same_entry t p)))
    where
      go : (p : Token) (b : Bool) → EmptyHolds (if b then add r (get m p) else get m p)
      go p true = not_empty (add r (get m p)) (empty-add r (get m p))
      go p false = h p

  AllHold-add_rules :
      (rs : List R) (m : DefaultMap (DefaultMap (List R))) → AllHold m → AllHold (add_rules rs m)
  unfolding add_rules add_rule
  AllHold-add_rules [] m h = h
  AllHold-add_rules (r ∷ rs) m h = AllHold-add_rules rs _ (step (is_empty (fast r).parents))
    where
      step :
          (b : Bool)
          → AllHold (if b then modify_all (add r) m else add_parents r (fast r).parents m)
      step true p =
          subst EmptyHolds (sym (get-modify_all (add r) m p))
            (not_empty (add r (get m p)) (empty-add r (get m p)))
      step false p = AllHold-add_parents r (fast r).parents m h p

  -- The early exit of `match_children` is right: under a parent whose map was never modified no
  -- rule is filed for any first token.
  pub get-compile_rules_empty :
      (rs : List R) (m : DefaultMap (DefaultMap (List R))) (p : Token)
      → (get (compile_rules rs m) p).empty ≡ true
      → (t : Token) → get (get (compile_rules rs m) p) t ≡ []
  unfolding compile_rules
  get-compile_rules_empty rs m p =
      AllHold-add_rules rs (clear (clear [] m.def) m)
        (λ q. subst EmptyHolds (sym (get-clear (clear [] m.def) m q)) (λ e t. get-clear [] m.def t))
        p

  -- The rule is for this parent and this first token, by the test that `compile_rules` files it by.
  abbrev pub applies : R → Token → Token → Bool
  applies r p u =
      (is_empty (fast r).parents || elem p (fast r).parents)
      && ((is_empty (fast r).starts || (fast r).pass_through) || elem u (fast r).starts)

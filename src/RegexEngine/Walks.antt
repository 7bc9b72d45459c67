-- ===== src/RegexEngine/Walks.antt =====
-- Walks through the states of include/trieste/regex_engine.h along a text, and that the walks
-- through the states of an expression read what the expression matches.
use trieste.Prelude.{
  ℕ, suc, ◌+◌, ◌<◌, ◌≡◌, refl, Bool, true, false, not, none, some, List, arith, subst,
}
use trieste.RegexEngine.{
  zero_or_one, zero_or_more, one_or_more, StateDef, split_label, capture_open, capture_close,
}
use trieste.RegexEngine.Syntax.{
  Regex, empty, lit, cat, alt, rep, grp, Flags, gate, Matches, match_empty, match_pass, match_read,
  match_cat, match_left, match_right, match_zero, match_once, match_done, match_more, match_plus,
  match_group,
}
use trieste.RegexEngine.Slots.{label_at, slot_at}
use trieste.RegexEngine.Wired.{
  Wired, wire_empty, wire_lit, wire_cat, wire_alt, wire_opt, wire_star, wire_plus, wire_grp,
}

module _ (flags : ℕ → Flags) (reads : ℕ → ℕ → Bool) (ss : List StateDef) where
  -- One edge, from a state at a position to a state at a position.
  pub data Edge : ℕ → ℕ → ℕ → ℕ → Type 0 where
    branch :
        {s p t q : ℕ}
        → label_at ss s ≡ some split_label
        → slot_at ss s true ≡ some t
        → p ≡ q
        → Edge s p t q
    pass :
        {s p t q c : ℕ}
        → label_at ss s ≡ some c
        → gate (flags p) c ≡ some true
        → slot_at ss s false ≡ some t
        → p ≡ q
        → Edge s p t q
    read :
        {s p t q c : ℕ}
        → label_at ss s ≡ some c
        → gate (flags p) c ≡ none
        → reads c p ≡ true
        → slot_at ss s false ≡ some t
        → q ≡ suc p
        → Edge s p t q

  pub data Walk : ℕ → ℕ → ℕ → ℕ → ℕ → Type 0 where
    stop : {n s p t q : ℕ} → s ≡ t → p ≡ q → Walk n s p t q
    go : {n s p t q u r : ℕ} → Edge s p t q → Walk n t q u r → Walk (suc n) s p u r

  pub Walk-wider : {n s p t q : ℕ} → Walk n s p t q → Walk (suc n) s p t q
  Walk-wider (stop e h) = stop e h
  Walk-wider (go x w) = go x (Walk-wider w)

  pub Walk-from : {n s p p' t q : ℕ} → p ≡ p' → Walk n s p t q → Walk n s p' t q
  Walk-from {n} {s} {p} {p'} {t} {q} e w = subst (λ (x : ℕ). Walk n s x t q) e w

  pub record Reaches (s p t q : ℕ) : Type 0 where
    pub bound : ℕ
    pub walk : Walk bound s p t q

  pub Reaches-by : {s p t q u r : ℕ} → Edge s p t q → Reaches t q u r → Reaches s p u r
  Reaches-by e w = record { bound = suc w.bound; walk = go e w.walk }

  pub gate-split : (f : Flags) → gate f split_label ≡ some true
  unfolding gate
  gate-split f = refl

  -- Either link of a `Split` can be followed.
  fork :
      (l : Bool) {i s p : ℕ}
      → label_at ss i ≡ some split_label
      → slot_at ss i l ≡ some s
      → Edge i p s p
  fork true h e = branch h e refl
  fork false {i} {s} {p} h e = pass h (gate-split (flags p)) e refl

  pub gate-capture_open : (f : Flags) (k : ℕ) → k < 64 → gate f (capture_open + k) ≡ some true
  unfolding gate
  gate-capture_open f k h = ground arith

  pub gate-capture_close : (f : Flags) (k : ℕ) → k < 64 → gate f (capture_close + k) ≡ some true
  unfolding gate
  gate-capture_close f k h = ground arith

  -- What an expression matches is read by a walk through its states, before any walk from its end.
  pub walk_of :
      (r : Regex) {s e p m t q : ℕ}
      → Wired ss r s e
      → Matches flags reads r p m
      → Reaches e m t q
      → Reaches s p t q
  walk_of empty {s} {e} {p} {m} {t} {q} (wire_empty h) (match_empty g) w = rw (h, g) w
  walk_of (lit c) (wire_lit _ h n z) (match_pass g e) w = Reaches-by (pass h g n e) w
  walk_of (lit c) (wire_lit _ h n z) (match_read g r e) w = Reaches-by (read h g r n e) w
  walk_of (cat a b) (wire_cat wa wb) (match_cat x y) w = walk_of a wa x (walk_of b wb y w)
  walk_of (alt a b) (wire_alt _ h n z wa wb) (match_left x) w =
      Reaches-by (fork false h n) (walk_of a wa x w)
  walk_of (alt a b) (wire_alt _ h n z wa wb) (match_right x) w =
      Reaches-by (fork true h z) (walk_of b wb x w)
  walk_of (rep zero_or_one l a) (wire_opt _ i h n z wa) (match_zero e) w =
      Reaches-by (fork (not l) h z) (rw e w)
  walk_of (rep zero_or_one l a) (wire_opt _ i h n z wa) (match_once x) w =
      Reaches-by (fork l h n) (walk_of a wa x w)
  walk_of (rep zero_or_more l a) (wire_star _ i h n z wa) (match_done e) w =
      Reaches-by (fork (not l) h z) (rw e w)
  walk_of (rep zero_or_more l a) (wire_star _ i h n z wa) (match_more x y) w =
      Reaches-by (fork l h n)
        (walk_of a wa x (walk_of (rep zero_or_more l a) (wire_star l i h n z wa) y w))
  walk_of (rep one_or_more l a) (wire_plus _ i h n z wa) (match_plus x y) w =
      walk_of a wa x (walk_of (rep zero_or_more l a) (wire_star l i h n z wa) y w)
  walk_of (grp k a) (wire_grp _ small i j ho on zo hc nc zc wa) (match_group {p = p} {q = m} x) w =
      Reaches-by (pass ho (gate-capture_open (flags p) k small) on refl)
        (walk_of a wa x (Reaches-by (pass hc (gate-capture_close (flags m) k small) nc refl) w))

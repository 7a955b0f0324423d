-- ===== src/Shortcuts/Dispatch.antt =====
-- Which shortcut a key press runs.
use antimoney.Prelude.{
  ◌≡◌, ap, inl, inr, true, false, ◌||◌, ◌==◌, String, some, List, [], ◌∷◌, ◌++◌, All, arith,
  Bool-cases,
}
use antimoney.Shortcuts.{Shortcut, KeyEvent, is_input, applies, handle_key_down}

module _ {ℓ} {Action : Type ℓ} (lower : String → String) (e : KeyEvent) where
  abbrev Passes : Shortcut Action → Type 0
  Passes s = applies lower e s ≡ false

  -- The shortcut is the first that applies: none that was registered before it does.
  pub record IsFirst (shortcuts : List (Shortcut Action)) (s : Shortcut Action) : Type ℓ where
    pub before : List (Shortcut Action)
    pub after : List (Shortcut Action)
    pub split : shortcuts ≡ before ++ (s ∷ after)
    pub passed : All Passes before
    pub fits : applies lower e s ≡ true

  -- A shortcut that runs is the first one that applies.
  handle_key_down-IsFirst :
      (shortcuts : List (Shortcut Action)) (s : Shortcut Action)
      → handle_key_down lower e shortcuts ≡ some s
      → IsFirst shortcuts s
  unfolding handle_key_down
  handle_key_down-IsFirst [] s h = cc
  handle_key_down-IsFirst (x ∷ xs) s h = elim (Bool-cases (applies lower e x)) [
    | inl fits ↦
        let same : x ≡ s = ground arith in
        record {
          before = [];
          after = xs;
          split = ap (λ y. y ∷ xs) same;
          passed = tt;
          fits = rw (← same) fits;
        }
    | inr passes ↦
        let rest = handle_key_down-IsFirst xs s (ground arith) in
        record {
          before = x ∷ rest.before;
          after = rest.after;
          split = ap (◌∷◌ x) rest.split;
          passed = (passes, rest.passed);
          fits = rest.fits;
        }
  ]

  -- Where every shortcut before it passes, the first one that applies runs, whatever follows.
  pub handle_key_down_of_first :
      (before after : List (Shortcut Action)) (s : Shortcut Action)
      → All Passes before
      → applies lower e s ≡ true
      → handle_key_down lower e (before ++ (s ∷ after)) ≡ some s
  unfolding handle_key_down
  handle_key_down_of_first [] after s h fits = rw fits
  handle_key_down_of_first (x ∷ before) after s h fits =
      rw h.0 (handle_key_down_of_first before after s h.1 fits)

  -- A shortcut that runs has its key pressed, up to case, and each modifier that it asks for;
  -- while an input has the focus, it is one for Escape.
  pub handle_key_down_guards :
      (shortcuts : List (Shortcut Action)) (s : Shortcut Action)
      → handle_key_down lower e shortcuts ≡ some s
      → ((lower s.key == lower e.key) ≡ true)
        × (s.ctrl ≡ true → (e.ctrl_key || e.meta_key) ≡ true)
        × (s.alt ≡ true → e.alt_key ≡ true)
        × (s.shift ≡ true → e.shift_key ≡ true)
        × (is_input e ≡ true → (s.key == "Escape") ≡ true)
  unfolding applies
  handle_key_down_guards shortcuts s h =
      let fits = (handle_key_down-IsFirst shortcuts s h).fits in
      (ground arith, λ c. ground arith, λ a. ground arith, λ c. ground arith, λ i. ground arith)

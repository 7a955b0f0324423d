-- ===== src/Picker/Range.antt =====
-- The highlighted index stays among the options.
use antimoney.Prelude.{
  ◌+◌, ◌≤◌, inl, inr, ◌⊎◌, Option, none, some, List, [], ◌∷◌, length, arith, Bool-cases,
  if◌then◌else◌,
}
use antimoney.Prelude.Int.{ℤ, pos, negsuc, ◌+ℤ◌, sub_ℕ, +ℤ_parts, pos_part, neg_part}
use antimoney.Types.{Account}
use antimoney.Register.Search.{Text}
use antimoney.Picker.{
  Key, arrow_down, arrow_up, enter, escape, other, State, option_at, is_no_text, choose, open_key,
  closed_key, min_ℤ, max_ℤ, filtered, handle_key_down,
}

-- The index is at least -1; where it is positive there is an option at it.
abbrev pub IsInRange : ℤ → List Account → Type 0
IsInRange i shown = (neg_part i ≤ 1) × ((pos_part i ≤ 0) ⊎ (pos_part i + 1 ≤ length shown))

down-IsInRange :
    (i : ℤ) (shown : List Account)
    → IsInRange i shown
    → IsInRange (min_ℤ (i +ℤ pos 1) (sub_ℕ (length shown) 1)) shown
down-IsInRange i shown h =
    (grind (arith, +ℤ_parts i (pos 1), h), grind (arith, +ℤ_parts i (pos 1), h))

up-IsInRange :
    (i : ℤ) (shown : List Account)
    → IsInRange i shown
    → IsInRange (max_ℤ (i +ℤ negsuc 0) (pos 0)) shown
up-IsInRange i shown h =
    (grind (arith, +ℤ_parts i (negsuc 0), h), grind (arith, +ℤ_parts i (negsuc 0), h))

module _ (lower : Text → Text) where
  cleared-IsInRange :
      (accounts : List Account) (q : Text) (i : ℤ)
      → IsInRange i (filtered lower accounts q)
      → IsInRange (if is_no_text q then i else pos 0) (filtered lower accounts [])
  cleared-IsInRange accounts [] i h = h
  cleared-IsInRange accounts (c ∷ q) i h = (omega arith, inl (omega arith))

  open_key-IsInRange :
      (accounts : List Account) (key : Key) (s : State)
      → IsInRange s.highlight (filtered lower accounts s.query)
      → let t = (open_key lower (filtered lower accounts s.query) key s).0 in
        IsInRange t.highlight (filtered lower accounts t.query)
  open_key-IsInRange accounts arrow_down s h =
      down-IsInRange s.highlight (filtered lower accounts s.query) h
  open_key-IsInRange accounts arrow_up s h =
      up-IsInRange s.highlight (filtered lower accounts s.query) h
  open_key-IsInRange accounts escape s h = cleared-IsInRange accounts s.query s.highlight h
  open_key-IsInRange accounts other s h = h
  open_key-IsInRange accounts enter s h =
      chosen (option_at s.highlight (filtered lower accounts s.query))
    where
      chosen :
          (o : Option Account)
          → IsInRange
              (choose lower o s).0.highlight
              (filtered lower accounts (choose lower o s).0.query)
      chosen none = h
      chosen (some a) = cleared-IsInRange accounts s.query s.highlight h

  closed_key-IsInRange :
      (shown : Text → List Account) (key : Key) (s : State)
      → IsInRange s.highlight (shown s.query)
      → let t = (closed_key lower key s).0 in IsInRange t.highlight (shown t.query)
  closed_key-IsInRange shown arrow_down s h = h
  closed_key-IsInRange shown arrow_up s h = h
  closed_key-IsInRange shown enter s h = h
  closed_key-IsInRange shown escape s h = h
  closed_key-IsInRange shown other s h = h

  -- Whatever key is pressed, a highlighted index in range stays so: it is at least -1, and where
  -- it is positive an option is shown at it, for the query that there is after the key.
  pub handle_key_down-IsInRange :
      (accounts : List Account) (key : Key) (s : State)
      → IsInRange s.highlight (filtered lower accounts s.query)
      → let t = (handle_key_down lower accounts key s).0 in
        IsInRange t.highlight (filtered lower accounts t.query)
  unfolding handle_key_down
  handle_key_down-IsInRange accounts key s h = elim (Bool-cases s.is_open) [
    | inl opened ↦ simp opened (open_key-IsInRange accounts key s h)
    | inr closed ↦ simp closed (closed_key-IsInRange (filtered lower accounts) key s h)
  ]

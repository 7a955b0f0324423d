-- ===== src/Picker/Laws.antt =====
-- What the picker can choose.
use antimoney.Prelude.{
  ℕ, zero, suc, ◌≡◌, refl, inl, inr, ◌⊎◌, Bool, true, false, String, some, List, [], ◌∷◌, filter,
  get_elem?, arith, Bool-cases, Option-cases,
}
use antimoney.Prelude.Int.{ℤ, pos, negsuc}
use antimoney.Types.{Account}
use antimoney.Register.Search.{Text}
use antimoney.Picker.{
  Key, arrow_down, arrow_up, enter, escape, other, State, option_at, is_no_text, matches, filtered,
  handle_key_down,
}

-- The account stands in the list.
abbrev pub IsIn : Account → List Account → Type 0
IsIn a [] = ⊥
IsIn a (x ∷ l) = (x ≡ a) ⊎ IsIn a l

IsIn-get_elem? : (l : List Account) (n : ℕ) (a : Account) → get_elem? l n ≡ some a → IsIn a l
IsIn-get_elem? [] n a h = cc
IsIn-get_elem? (x ∷ l) zero a h = inl (ground (arith, h))
IsIn-get_elem? (x ∷ l) (suc n) a h = inr (IsIn-get_elem? l n a h)

IsIn-option_at : (i : ℤ) (l : List Account) (a : Account) → option_at i l ≡ some a → IsIn a l
IsIn-option_at (pos n) l a h = IsIn-get_elem? l n a h
IsIn-option_at (negsuc n) l a h = cc

IsIn-filter :
    (p : Account → Bool) (a : Account) (l : List Account)
    → IsIn a (filter p l)
    → IsIn a l × (p a ≡ true)
IsIn-filter p a [] h = absurd h
IsIn-filter p a (x ∷ l) h = elim (Bool-cases (p x)) [
  | inl passes ↦ elim (rw passes at h) [
    | inl here ↦ (inl here, rw (← here) passes)
    | inr later ↦ let (there, good) = IsIn-filter p a l later in (inr there, good)
  ]
  | inr fails ↦ let (there, good) = IsIn-filter p a l (rw fails at h) in (inr there, good)
]

module _ (lower : Text → Text) where
  -- The key press reports an account only for Enter while the list is open: one of the accounts,
  -- which matches the query if there is one; and the list is closed with an empty query.
  handle_key_down-choice :
      (accounts : List Account) (key : Key) (s : State) (guid : String)
      → (handle_key_down lower accounts key s).1 ≡ some guid
      → (a : Account) × (a.guid ≡ guid)
        × IsIn a (filtered lower accounts s.query)
        × (option_at s.highlight (filtered lower accounts s.query) ≡ some a)
        × (key ≡ enter)
        × (s.is_open ≡ true)
        × ((handle_key_down lower accounts key s).0.is_open ≡ false)
        × ((handle_key_down lower accounts key s).0.query ≡ [])
  unfolding handle_key_down
  handle_key_down-choice accounts arrow_down s guid h = absurd (ground (arith, h))
  handle_key_down-choice accounts arrow_up s guid h = absurd (ground (arith, h))
  handle_key_down-choice accounts escape s guid h = absurd (ground (arith, h))
  handle_key_down-choice accounts other s guid h = absurd (ground (arith, h))
  handle_key_down-choice accounts enter s guid h =
      let shown = filtered lower accounts s.query in
      elim (Bool-cases s.is_open) [
        | inl opened ↦ elim (Option-cases (option_at s.highlight shown)) [
          | inl nothing ↦ absurd (ground (arith, h))
          | inr (a, at) ↦ (
            a,
            ground (arith, h),
            IsIn-option_at s.highlight shown a at,
            at,
            refl,
            opened,
            ground arith,
            ground arith,
          )
        ]
        | inr closed ↦ absurd (ground (arith, h))
      ]

  -- What is shown for a query are accounts that match it.
  pub filtered-matches :
      (accounts : List Account) (query : Text) (a : Account)
      → IsIn a (filtered lower accounts query)
      → IsIn a accounts × (is_no_text query ≡ false → matches lower query a ≡ true)
  unfolding filtered
  filtered-matches accounts [] a h = (h, λ e. cc)
  filtered-matches accounts (c ∷ query) a h =
      let (there, good) = IsIn-filter (matches lower (c ∷ query)) a accounts h in (there, λ e. good)

-- ===== src/Editor/Submit.antt =====
-- What the form sends.
use antimoney.Prelude.{
  ◌+◌, ◌*◌, ◌≤◌, ◌≡◌, ◌≢◌, ap, ◌∙◌, inl, inr, false, eq_iff, none, some, List, [], ◌∷◌, map, filter,
  length, ltb, All, arith, Bool-cases, Option-cases,
}
use antimoney.Prelude.Int.{ℤ, pos, negsuc, neg, abs, ◌-ℤ◌}
use antimoney.Types.{Amount, SplitRequest, CreateTransactionRequest}
use antimoney.Editor.{
  State, SplitInput, Numbers, is_filled, parse_split, parse_splits, lacks_account, handle_submit,
  round_cents,
}

-- A number of cents as an amount.
abbrev pub of_cents : ℤ → Amount
of_cents (pos k) = pos (k * 10)
of_cents (negsuc k) = negsuc (k * 10 + 9)

-- The cents that are sent are at most half a cent from the amount.
pub round_cents_close : (x : Amount) → abs (x -ℤ of_cents (round_cents x)) ≤ 5
unfolding round_cents ◌-ℤ◌ neg
round_cents_close x = ground arith

accounts_of_lacks :
    (xs : List SplitRequest) → lacks_account xs ≡ false → All (λ x. x.account_guid ≢ "") xs
unfolding lacks_account
accounts_of_lacks [] h = tt
accounts_of_lacks (x ∷ xs) h =
    (λ e. ground (arith, eq_iff x.account_guid "", h, e), accounts_of_lacks xs (ground (arith, h)))

module _ (n : Numbers) where
  map-parse_split :
      (xs : List SplitInput) (ys : List SplitRequest)
      → parse_splits n xs ≡ some ys
      → map (parse_split n) xs ≡ map some ys
  unfolding parse_splits
  map-parse_split [] ys h = ground (arith, h)
  map-parse_split (x ∷ xs) ys h = elim (Option-cases (parse_split n x)) [
    | inl bad ↦ absurd (ground (arith, h, bad))
    | inr (y, good) ↦ elim (Option-cases (parse_splits n xs)) [
      | inl bad ↦ absurd (ground (arith, h, good, bad))
      | inr (rest, e) ↦
          let whole : y ∷ rest ≡ ys = ground (arith, h, good, e) in
          rw (good, map-parse_split xs rest e) (ap (map some) whole)
    ]
  ]

  nonempty_of_filled :
      (l : List SplitInput) (xs : List SplitRequest)
      → map (parse_split n) l ≡ map some xs
      → ltb (length l) 1 ≡ false
      → xs ≢ []
  nonempty_of_filled [] xs parsed filled e = ground (arith, filled)
  nonempty_of_filled (x ∷ l) [] parsed filled e = cc
  nonempty_of_filled (x ∷ l) (y ∷ xs) parsed filled e = cc

  -- Whatever is sent is the reading of the filled splits, in their order, of which there is at
  -- least one and each of which has an account; and no error is shown.
  pub handle_submit_sends :
      (s : State) (p : CreateTransactionRequest)
      → (handle_submit n s).1 ≡ some p
      → (map (parse_split n) (filter (is_filled n) s.splits) ≡ map some p.splits)
        × All (λ x. x.account_guid ≢ "") p.splits
        × (p.splits ≢ [])
        × ((handle_submit n s).0.error ≡ none)
  unfolding handle_submit
  handle_submit_sends s p h = elim (Bool-cases (ltb (length (filter (is_filled n) s.splits)) 1)) [
    | inl empty ↦ absurd (ground (arith, h, empty))
    | inr filled ↦ elim (Option-cases (parse_splits n (filter (is_filled n) s.splits))) [
      | inl bad ↦ absurd (ground (arith, h, filled, bad))
      | inr (xs, e) ↦ elim (Bool-cases (lacks_account xs)) [
        | inl lacks ↦ absurd (ground (arith, h, filled, e, lacks))
        | inr has ↦
            let sent : xs ≡ p.splits = ground (arith, h, filled, e, has) in
            let parsed = map-parse_split (filter (is_filled n) s.splits) xs e in
            (
              parsed ∙ ap (map some) sent,
              rw (← sent) (accounts_of_lacks xs has),
              rw (← sent) (nonempty_of_filled (filter (is_filled n) s.splits) xs parsed filled),
              ground (arith, filled, e, has),
            )
      ]
    ]
  ]

  -- Where nothing is sent an error is shown and the splits stay as they are typed.
  pub handle_submit_refuses :
      (s : State)
      → (handle_submit n s).1 ≡ none
      → ((handle_submit n s).0.error ≢ none) × ((handle_submit n s).0.splits ≡ s.splits)
  unfolding handle_submit
  handle_submit_refuses s h = (λ e. ground (arith, h, e), ground arith)

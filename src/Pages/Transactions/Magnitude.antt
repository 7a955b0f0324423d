-- ===== src/Pages/Transactions/Magnitude.antt =====
-- frontend/src/pages/Transactions.tsx with backend/internal/services/transaction_service.go: the
-- total that the list shows for a transaction of the ledger.
use antimoney.Prelude.{
  ℕ, zero, suc, ◌*◌, ◌≡◌, sym, ap, ◌∙◌, subst, inl, inr, true, false, List, [], ◌∷◌, map, All,
  arith, Bool-cases, if◌then◌else◌,
}
use antimoney.Prelude.Int.{ℤ, pos, negsuc, neg, ◌+ℤ◌, ltb_ℤ, int_laws, add_assoc}
use antimoney.Types.{Amount, Split, Transaction}
use antimoney.Pages.Transactions.{split_amount, positive_total, tx_total}
use antimoney.Server.Numeric.{times}
use antimoney.Server.Numeric.Exact.{times-add, numerators, AreCents, sum_iff}
use antimoney.Server.Books.Balanced.{split_value, IsBalanced}

-- The quotient of hundredths has no error.
abbrev pub DividesCents : (ℤ → ℕ → Amount) → Type 0
DividesCents quotient = (k : ℤ) → quotient k 100 ≡ times k 10

abbrev pub InCents : List Split → Type 0
InCents = All (λ x. x.value_denom ≡ 100)

module _ (quotient : ℤ → ℕ → Amount) where
  -- The sum of the splits that take from an account.
  abbrev pub negative_sum : List Split → Amount
  negative_sum [] = pos 0
  negative_sum (x ∷ xs) =
      if ltb_ℤ x.value_num (pos 0)
      then split_amount quotient x +ℤ negative_sum xs
      else negative_sum xs

  abbrev positive_sum : List Split → Amount
  positive_sum [] = pos 0
  positive_sum (x ∷ xs) =
      if ltb_ℤ (pos 0) x.value_num
      then split_amount quotient x +ℤ positive_sum xs
      else positive_sum xs

  positive_total_lem :
      (s : Amount) (xs : List Split) → positive_total quotient s xs ≡ s +ℤ positive_sum xs
  unfolding positive_total
  positive_total_lem s [] = omega int_laws
  positive_total_lem s (x ∷ xs) = elim (Bool-cases (ltb_ℤ (pos 0) x.value_num)) [
    | inl given ↦ rw given (
        positive_total_lem (s +ℤ split_amount quotient x) xs
        ∙ add_assoc s (split_amount quotient x) (positive_sum xs))
    | inr other ↦ rw other (positive_total_lem s xs)
  ]

  abbrev given_first : ℤ → Amount → Amount → Amount
  given_first v a rest = if ltb_ℤ (pos 0) v then a +ℤ rest else rest

  abbrev taken_first : ℤ → Amount → Amount → Amount
  taken_first v a rest = if ltb_ℤ v (pos 0) then a +ℤ rest else rest

  given_pos : (k : ℕ) → ltb_ℤ (pos 0) (pos (suc k)) ≡ true
  given_pos k = ground arith

  taken_pos : (k : ℕ) → ltb_ℤ (pos (suc k)) (pos 0) ≡ false
  taken_pos k = ground arith

  given_neg : (k : ℕ) → ltb_ℤ (pos 0) (negsuc k) ≡ false
  given_neg k = ground arith

  taken_neg : (k : ℕ) → ltb_ℤ (negsuc k) (pos 0) ≡ true
  taken_neg k = ground arith

  swap_first : (t a b : Amount) → a +ℤ (t +ℤ b) ≡ t +ℤ (a +ℤ b)
  swap_first t a b = omega int_laws

  both_first :
      (v : ℤ) (a b : Amount)
      → given_first v (times v 10) a +ℤ taken_first v (times v 10) b ≡ times v 10 +ℤ (a +ℤ b)
  both_first (pos zero) a b = omega int_laws
  both_first (pos (suc k)) a b = rw (given_pos k, taken_pos k) (add_assoc (pos (suc k * 10)) a b)
  both_first (negsuc k) a b =
      rw (given_neg k, taken_neg k) (swap_first (neg (pos (suc k * 10))) a b)

  nothing : pos 0 +ℤ pos 0 ≡ pos 0
  nothing = omega int_laws

  sums-cents :
      (xs : List Split)
      → DividesCents quotient
      → InCents xs
      → positive_sum xs +ℤ negative_sum xs ≡ times (numerators (map split_value xs)) 10
  sums-cents [] exact h = nothing
  sums-cents (x ∷ xs) exact h =
      let amount : split_amount quotient x ≡ times x.value_num 10 =
        ap (quotient x.value_num) h.0 ∙ exact x.value_num in
      ap
        (λ a.
          given_first x.value_num a (positive_sum xs)
          +ℤ taken_first x.value_num a (negative_sum xs))
        amount
      ∙ both_first x.value_num (positive_sum xs) (negative_sum xs)
      ∙ ap (◌+ℤ◌ (times x.value_num 10)) (sums-cents xs exact h.1)
      ∙ sym (times-add x.value_num (numerators (map split_value xs)) 10)

  first_none : (c : Amount) → pos 0 +ℤ c ≡ c
  first_none c = omega int_laws

  cents_of : (xs : List Split) → InCents xs → AreCents (map split_value xs)
  cents_of [] h = tt
  cents_of (x ∷ xs) h = (h.0, cents_of xs h.1)

  opposite : (a b : Amount) → a +ℤ b ≡ pos 0 → a ≡ neg b
  opposite a b e = subst (λ z. a ≡ z +ℤ neg b) e (shift a b) ∙ none_before (neg b)
    where
      shift : (a b : Amount) → a ≡ a +ℤ b +ℤ neg b
      shift a b = omega int_laws

      none_before : (c : Amount) → pos 0 +ℤ c ≡ c
      none_before c = omega int_laws

  -- The total that the list shows for a transaction, which adds up its positive splits, is what its
  -- negative splits take away, so that either side may stand for the size of the transaction: this
  -- where the ledger keeps the transaction balanced and in hundredths, whose quotients are exact.
  pub tx_total-eq-taken :
      (t : Transaction)
      → DividesCents quotient
      → InCents t.splits
      → IsBalanced t.splits
      → tx_total quotient t ≡ neg (negative_sum t.splits)
  unfolding tx_total
  tx_total-eq-taken t exact h balanced =
      let even : numerators (map split_value t.splits) ≡ pos 0 =
        (sum_iff (map split_value t.splits) (cents_of t.splits h)).0 balanced.sums in
      positive_total_lem (pos 0) t.splits
      ∙ first_none (positive_sum t.splits)
      ∙ opposite (positive_sum t.splits) (negative_sum t.splits)
          (sums-cents t.splits exact h ∙ ap (λ k. times k 10) even)

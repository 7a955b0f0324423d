-- ===== src/Dashboard/Sums.antt =====
-- What the figures of the dashboard add up.
use antimoney.Prelude.{◌≡◌, refl, ap, ◌∙◌, Bool, true, false, List, [], ◌∷◌, if◌then◌else◌}
use antimoney.Prelude.Int.{pos, abs, ◌+ℤ◌, int_laws}
use antimoney.Types.{
  Amount, Account, AccountType, root, asset, bank, cash, liability, credit, income, expense, equity,
  is_liability,
}
use antimoney.Dashboard.{Sums, add_sum, sum_types, compute_dashboard}

-- The sum of a field over the accounts of some types.
abbrev pub sum_over : (AccountType → Bool) → (Account → Amount) → List Account → Amount
sum_over p f [] = pos 0
sum_over p f (a ∷ as') = if p a.account_type then f a +ℤ sum_over p f as' else sum_over p f as'

abbrev pub is_asset_type : AccountType → Bool
is_asset_type asset = true
is_asset_type bank = true
is_asset_type cash = true
is_asset_type _ = false

abbrev pub is_expense : AccountType → Bool
is_expense expense = true
is_expense _ = false

abbrev pub is_income : AccountType → Bool
is_income income = true
is_income _ = false

module _ (f : Account → Amount) where
  sum_types-assets :
      (l : List Account) (s : Sums)
      → sum_types f l s asset +ℤ sum_types f l s bank +ℤ sum_types f l s cash
        ≡ s asset +ℤ s bank +ℤ s cash +ℤ sum_over is_asset_type f l
  unfolding sum_types
  sum_types-assets [] s = omega int_laws
  sum_types-assets (a ∷ as') s =
      sum_types-assets as' (add_sum a.account_type (f a) s) ∙ by_type a.account_type
    where
      by_type :
          (ty : AccountType)
          → add_sum ty (f a) s asset
              +ℤ add_sum ty (f a) s bank
              +ℤ add_sum ty (f a) s cash
              +ℤ sum_over is_asset_type f as'
            ≡ s asset
              +ℤ s bank
              +ℤ s cash
              +ℤ (if is_asset_type ty
                  then f a +ℤ sum_over is_asset_type f as'
                  else sum_over is_asset_type f as')
      by_type asset = omega int_laws
      by_type bank = omega int_laws
      by_type cash = omega int_laws
      by_type root = refl
      by_type liability = refl
      by_type credit = refl
      by_type income = refl
      by_type expense = refl
      by_type equity = refl

  sum_types-liabilities :
      (l : List Account) (s : Sums)
      → sum_types f l s liability +ℤ sum_types f l s credit
        ≡ s liability +ℤ s credit +ℤ sum_over is_liability f l
  unfolding sum_types
  sum_types-liabilities [] s = omega int_laws
  sum_types-liabilities (a ∷ as') s =
      sum_types-liabilities as' (add_sum a.account_type (f a) s) ∙ by_type a.account_type
    where
      by_type :
          (ty : AccountType)
          → add_sum ty (f a) s liability +ℤ add_sum ty (f a) s credit +ℤ sum_over is_liability f as'
            ≡ s liability
              +ℤ s credit
              +ℤ (if is_liability ty
                  then f a +ℤ sum_over is_liability f as'
                  else sum_over is_liability f as')
      by_type liability = omega int_laws
      by_type credit = omega int_laws
      by_type asset = refl
      by_type bank = refl
      by_type cash = refl
      by_type root = refl
      by_type income = refl
      by_type expense = refl
      by_type equity = refl

  sum_types-expenses :
      (l : List Account) (s : Sums) → sum_types f l s expense ≡ s expense +ℤ sum_over is_expense f l
  unfolding sum_types
  sum_types-expenses [] s = omega int_laws
  sum_types-expenses (a ∷ as') s =
      sum_types-expenses as' (add_sum a.account_type (f a) s) ∙ by_type a.account_type
    where
      by_type :
          (ty : AccountType)
          → add_sum ty (f a) s expense +ℤ sum_over is_expense f as'
            ≡ s expense
              +ℤ (if is_expense ty
                  then f a +ℤ sum_over is_expense f as'
                  else sum_over is_expense f as')
      by_type expense = omega int_laws
      by_type asset = refl
      by_type bank = refl
      by_type cash = refl
      by_type root = refl
      by_type liability = refl
      by_type credit = refl
      by_type income = refl
      by_type equity = refl

add_none : (x : Amount) → pos 0 +ℤ pos 0 +ℤ x ≡ x
add_none x = omega int_laws

-- The assets and the expenses are the sums of the balances over the accounts of their types, and
-- the liabilities the size of the sum over theirs; the same for the reconciled balances.
pub compute_dashboard_sums :
    (accounts : List Account)
    → let d = compute_dashboard accounts in
      (d.assets ≡ sum_over is_asset_type (λ a. a.balance) accounts)
      × (d.liabilities ≡ abs (sum_over is_liability (λ a. a.balance) accounts))
      × (d.expenses ≡ sum_over is_expense (λ a. a.balance) accounts)
      × (d.r_assets ≡ sum_over is_asset_type (λ a. a.reconciled_balance) accounts)
      × (d.r_liabilities ≡ abs (sum_over is_liability (λ a. a.reconciled_balance) accounts))
      × (d.r_expenses ≡ sum_over is_expense (λ a. a.reconciled_balance) accounts)
unfolding compute_dashboard
compute_dashboard_sums accounts = (
  sum_types-assets balance accounts none_yet ∙ omega int_laws,
  ap abs (
      sum_types-liabilities balance accounts none_yet
      ∙ add_none (sum_over is_liability balance accounts)),
  sum_types-expenses balance accounts none_yet ∙ omega int_laws,
  sum_types-assets reconciled accounts none_yet ∙ omega int_laws,
  ap abs (
      sum_types-liabilities reconciled accounts none_yet
      ∙ add_none (sum_over is_liability reconciled accounts)),
  sum_types-expenses reconciled accounts none_yet ∙ omega int_laws,
)
  where
    balance : Account → Amount
    balance a = a.balance

    reconciled : Account → Amount
    reconciled a = a.reconciled_balance

    none_yet : Sums
    none_yet ty = pos 0

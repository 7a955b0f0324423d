-- ===== src/Dashboard.antt =====
-- frontend/src/pages/Dashboard.tsx: the figures of the dashboard (`computeDashboard`).
--
-- `sums` and `rSums` are functions of the account type. `Math.abs` gives a number of thousandths.
pub mod Sums
pub mod Top
pub mod Charts
pub mod Drawn
pub mod Range
pub mod Months
pub mod Page
pub mod NetWorth
pub mod Answers
mod Tests
mod PageTests
use antimoney.Prelude.{
  take, ℕ, zero, suc, ◌%◌, Ordering, compare, Bool, true, false, ◌&&◌, ◌||◌, String, Option, none,
  some, List, [], ◌∷◌, ◌++◌, length, get_elem?, ltb, if◌then◌else◌,
}
use antimoney.Prelude.Int.{pos, abs, ◌+ℤ◌}
use antimoney.Prelude.Sorting.{sort}
use antimoney.Types.{
  Amount, Account, AccountType, root, asset, bank, cash, liability, credit, income, expense, equity,
  account_type_color,
}

pub record TopAccount : Type 0 where
  pub guid : String
  pub name : String
  pub value : ℕ
  pub r_value : ℕ
  pub color : String
  pub account_type : AccountType

pub record Slice : Type 0 where
  pub name : String
  pub value : ℕ
  pub r_value : ℕ
  pub color : String

abbrev pub Sums : Type 0
Sums = AccountType → Amount

pub record DashboardData : Type 0 where
  pub assets : Amount
  pub liabilities : ℕ
  pub income : ℕ
  pub expenses : Amount
  pub r_assets : Amount
  pub r_liabilities : ℕ
  pub r_income : ℕ
  pub r_expenses : Amount
  pub top_accounts : List TopAccount
  pub expense_accounts : List Slice
  pub income_accounts : List Slice

abbrev pub expense_palette : List String
expense_palette =
    "#ec4899" ∷ "#f43f5e" ∷ "#f97316" ∷ "#eab308" ∷ "#a855f7" ∷ "#6366f1" ∷ "#14b8a6" ∷ "#06b6d4"
    ∷ "#84cc16" ∷ "#64748b" ∷ []

-- A place of the type, for `===` on types.
abbrev pub type_index : AccountType → ℕ
type_index root = 0
type_index asset = 1
type_index bank = 2
type_index cash = 3
type_index liability = 4
type_index credit = 5
type_index income = 6
type_index expense = 7
type_index equity = 8

abbrev pub same_type : AccountType → AccountType → Bool
same_type a b = elim (compare (type_index a) (type_index b)) [ Ordering.eq ↦ true | _ ↦ false ]

-- `a.account_type in sums`
abbrev pub is_summed : AccountType → Bool
is_summed root = false
is_summed equity = false
is_summed _ = true

abbrev pub add_sum : AccountType → Amount → Sums → Sums
add_sum ty x sums =
    if is_summed ty then (λ u. if same_type u ty then sums u +ℤ x else sums u) else sums

-- The loop's sums of one field.
unfoldable pub sum_types : (Account → Amount) → List Account → Sums → Sums
sum_types f [] sums = sums
sum_types f (a ∷ as') sums = sum_types f as' (add_sum a.account_type (f a) sums)

-- `a.placeholder || a.account_type === 'ROOT' || a.account_type === 'EQUITY'`
abbrev pub is_left_out : Account → Bool
is_left_out a = a.placeholder || same_type a.account_type root || same_type a.account_type equity

-- `Math.abs(x) > 0.005`
abbrev pub is_sizable : Amount → Bool
is_sizable x = ltb 5 (abs x)

abbrev pub top_account : Account → TopAccount
top_account a = record {
  guid = a.guid;
  name = a.name;
  value = abs a.balance;
  r_value = abs a.reconciled_balance;
  color = account_type_color a.account_type;
  account_type = a.account_type;
}

abbrev pub slice_of : Account → Slice
slice_of a = record {
  name = a.name;
  value = abs a.balance;
  r_value = abs a.reconciled_balance;
  color = "";
}

-- What the loop pushes.
unfoldable pub top_of : List Account → List TopAccount
top_of [] = []
top_of (a ∷ as') =
    let rest = top_of as' in
    if is_left_out a
    then rest
    else if is_sizable a.balance || is_sizable a.reconciled_balance
    then top_account a ∷ rest
    else rest

unfoldable pub slices_of : AccountType → List Account → List Slice
slices_of ty [] = []
slices_of ty (a ∷ as') =
    let rest = slices_of ty as' in
    if is_left_out a
    then rest
    else if same_type a.account_type ty && is_sizable a.balance
    then slice_of a ∷ rest
    else rest

-- `b.value - a.value`
abbrev pub by_value : TopAccount → TopAccount → Ordering
by_value a b = compare b.value a.value

abbrev pub slices_by_value : Slice → Slice → Ordering
slices_by_value a b = compare b.value a.value

abbrev colour_or_none : Option String → String
colour_or_none none = ""
colour_or_none (some c) = c

-- `EXPENSE_PALETTE[i % EXPENSE_PALETTE.length]`, from the index `i` on.
unfoldable pub paint : ℕ → List Slice → List Slice
paint i [] = []
paint i (x ∷ xs) =
    record x { color = colour_or_none (get_elem? expense_palette (i % length expense_palette)) }
    ∷ paint (suc i) xs

abbrev no_sums : Sums
no_sums ty = pos 0

unfoldable pub compute_dashboard : List Account → DashboardData
compute_dashboard accounts =
    let sums = sum_types (λ a. a.balance) accounts no_sums in
    let r_sums = sum_types (λ a. a.reconciled_balance) accounts no_sums in
    record {
      assets = sums asset +ℤ sums bank +ℤ sums cash;
      liabilities = abs (sums liability +ℤ sums credit);
      income = abs (sums income);
      expenses = sums expense;
      r_assets = r_sums asset +ℤ r_sums bank +ℤ r_sums cash;
      r_liabilities = abs (r_sums liability +ℤ r_sums credit);
      r_income = abs (r_sums income);
      r_expenses = r_sums expense;
      top_accounts = take 10 (sort by_value (top_of accounts));
      expense_accounts = paint 0 (sort slices_by_value (slices_of expense accounts));
      income_accounts = paint 0 (sort slices_by_value (slices_of income accounts));
    }

-- ===== src/Pages/Transactions.antt =====
-- frontend/src/pages/Transactions.tsx: the list of transactions that the server sends.
--
-- `time_of` is `new Date(…).getTime()`, a number of milliseconds after 1970.
pub mod Magnitude
mod Tests
use antimoney.Prelude.{
  ℕ, suc, ◌∷◌, ◌==◌, codes, take, if◌then◌else◌, Ordering, compare, Bool, true, false, String,
  Option, none, some, List, [],
}
use mathlib.Core.Option
use antimoney.Prelude.Sorting.{sort}
use antimoney.Prelude.Int.{ℤ, pos, ◌+ℤ◌, ltb_ℤ, leb_ℤ}
use antimoney.Types.{Amount, Split, Transaction}
use antimoney.Register.Search.{Text}
use antimoney.Register.Table.{row_class}

pub record State : Type 0 where
  pub transactions : List Transaction
  pub loading : Bool
  pub show_form : Bool
  pub edit_tx_guid : Option String
  pub duplicate_tx_guid : Option String

abbrev pub initial : State
initial = record {
  transactions = [];
  loading = true;
  show_form = false;
  edit_tx_guid = none;
  duplicate_tx_guid = none;
}

pub data Call : Type 0 where
  get_transactions : Call
  delete_transaction : String → Call

-- The button and the key N.
abbrev pub new_transaction : State → State
new_transaction s = record s { show_form = true }

abbrev pub edit_click : String → State → State
edit_click guid s = record s { edit_tx_guid = some guid }

abbrev pub duplicate_click : String → State → State
duplicate_click guid s = record s { duplicate_tx_guid = some guid }

-- The form that is shown: for a new transaction, an old one, or a copy.
unfoldable pub close_form : State → State
close_form s = record s { show_form = false; edit_tx_guid = none; duplicate_tx_guid = none }

-- `loadData` up to its call.
unfoldable pub load_start : State → State × Call
load_start s = (record s { loading = true }, get_transactions)

-- `handleDelete` up to its call, and after it; a failure is only logged.
abbrev pub delete_start : Bool → String → Option Call
delete_start true guid = some (delete_transaction guid)
delete_start false guid = none

unfoldable pub delete_done : Bool → State → State × Option Call
unfolding load_start
delete_done true s = let (t, call) = load_start s in (t, some call)
delete_done false s = (s, none)

-- `getRowClass`; all rows may be clicked.
abbrev pub transaction_class : Text → Text → List String
transaction_class today date = row_class today date true

-- `txn.custom_id || idx + 1`, where `digits` is a number in a text.
unfoldable pub row_number : (ℕ → Text) → ℕ → Transaction → Text
row_number digits index t = if t.custom_id == "" then digits (suc index) else codes t.custom_id

-- The colour of a split, and what its amount is called: the account's name, or the first eight
-- characters of its id.
unfoldable pub split_color : Split → String
split_color x = if leb_ℤ (pos 0) x.value_num then "var(--color-income)" else "var(--color-expense)"

abbrev name_or_guid : String → Option String → Text
name_or_guid guid none = take 8 (codes guid)
name_or_guid guid (some name) = if name == "" then take 8 (codes guid) else codes name

unfoldable pub split_name : Split → Text
split_name x = name_or_guid x.account_guid x.account_name

module _ (quotient : ℤ → ℕ → Amount) where
  -- `formatSplitCurrency`, before it is formatted
  abbrev pub split_amount : Split → Amount
  split_amount x = quotient x.value_num x.value_denom

  -- `getTxTotal`, before it is formatted
  unfoldable pub positive_total : Amount → List Split → Amount
  positive_total sum [] = sum
  positive_total sum (x ∷ xs) =
      positive_total (if ltb_ℤ (pos 0) x.value_num then sum +ℤ split_amount x else sum) xs

  unfoldable pub tx_total : Transaction → Amount
  tx_total t = positive_total (pos 0) t.splits

module _ (time_of : String → ℕ) where
  abbrev pub latest_first : Transaction → Transaction → Ordering
  latest_first a b = compare (time_of b.post_date) (time_of a.post_date)

  -- After the call of `loadData`; the server may answer with no list.
  unfoldable pub load_done : Option (Option (List Transaction)) → State → State
  load_done none s = record s { loading = false }
  load_done (some list) s = record s {
    transactions = sort latest_first (Option.get_or list []);
    loading = false;
  }

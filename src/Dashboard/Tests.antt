-- ===== src/Dashboard/Tests.antt =====
-- A small book on the dashboard.
use antimoney.Prelude.{◌≡◌, refl, false, String, none, List, [], ◌∷◌}
use antimoney.Prelude.Int.{pos, negsuc, ◌+ℤ◌}
use antimoney.Types.{Amount, Account, AccountType, bank, cash, credit, expense, equity}
use antimoney.Dashboard.{compute_dashboard, sum_types}

abbrev pub account : String → AccountType → Amount → Account
account guid ty balance = record {
  guid = guid;
  name = guid;
  account_type = ty;
  parent_guid = none;
  placeholder = false;
  description = "";
  plaid = none;
  version = 1;
  balance = balance;
  reconciled_balance = pos 0;
  last_reconciled = none;
}

abbrev pub book : List Account
book =
    account "checking" bank (pos 90000)
    ∷ account "card" credit (negsuc 29999)
    ∷ account "wallet" cash (pos 10000)
    ∷ account "food" expense (pos 5000)
    ∷ account "opening" equity (negsuc 74999)
    ∷ []

shows_assets : (compute_dashboard book).assets ≡ pos 100000
unfolding compute_dashboard sum_types ◌+ℤ◌
shows_assets = refl

shows_liabilities : (compute_dashboard book).liabilities ≡ 30000
unfolding compute_dashboard sum_types ◌+ℤ◌
shows_liabilities = refl

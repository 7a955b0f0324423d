-- ===== src/Pages/Transactions/Tests.antt =====
-- frontend/src/pages/Transactions.tsx: a transaction of two splits in the list.
use antimoney.Prelude.{◌≡◌, refl, String, none, [], ◌∷◌, map, arith}
use antimoney.Prelude.Int.{ℤ, pos, negsuc, neg, ◌+ℤ◌}
use antimoney.Types.{Split, Transaction}
use antimoney.Pages.Transactions.{tx_total, positive_total}
use antimoney.Pages.Transactions.Magnitude.{negative_sum, tx_total-eq-taken}
use antimoney.Server.Numeric.{times, sum, add_all, add, reduced, gcd}
use antimoney.Server.Books.Balanced.{split_value, IsBalanced}

abbrev split : String → ℤ → Split
split account value = record {
  guid = account;
  tx_guid = "lunch";
  account_guid = account;
  memo = "";
  value_num = value;
  value_denom = 100;
  quantity_num = value;
  quantity_denom = 100;
  reconcile_state = "n";
  account_name = none;
}

abbrev lunch : Transaction
lunch = record {
  guid = "lunch";
  custom_id = "";
  post_date = "2024-01-02";
  enter_date = "2024-01-02";
  description = "Lunch";
  version = 1;
  splits = split "food" (pos 1250) ∷ split "cash" (negsuc 1249) ∷ [];
}

shows_total : tx_total (λ k d. times k 10) lunch ≡ pos 12500
unfolding tx_total positive_total ◌+ℤ◌
shows_total = refl

lunch_sum : (sum (map split_value lunch.splits)).num ≡ pos 0
unfolding sum add_all add reduced gcd neg ◌+ℤ◌
lunch_sum = refl

lunch-IsBalanced : IsBalanced lunch.splits
lunch-IsBalanced = record {
  sums = lunch_sum;
  several = omega arith;
  filled = (λ e. absurd (ground (arith, e)), (λ e. absurd (cc), tt));
}

tx_total-eq-taken_example :
    tx_total (λ k d. times k 10) lunch ≡ neg (negative_sum (λ k d. times k 10) lunch.splits)
tx_total-eq-taken_example =
    tx_total-eq-taken (λ k d. times k 10) lunch (λ k. refl) (refl, (refl, tt)) lunch-IsBalanced

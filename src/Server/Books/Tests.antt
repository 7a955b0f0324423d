-- ===== src/Server/Books/Tests.antt =====
-- backend/internal/services/transaction_service.go: two transactions in a small book.
use antimoney.Prelude.{◌≡◌, refl, false, String, List, [], ◌∷◌, map, length}
use antimoney.Prelude.Int.{ℤ, pos, negsuc, neg, ◌+ℤ◌}
use antimoney.Types.{SplitRequest, CreateTransactionRequest}
use antimoney.Server.Numeric.{add, reduced, gcd, negated, add_all, sum}
use antimoney.Server.Books.{
  Store, Ids, valid_splits, auto_balance, imbalance_account, check_accounts, split_rows,
}
use antimoney.Server.Books.Requests.{
  set_states, create_transaction, batch_reconcile_splits, update_transaction,
  toggle_split_acknowledge,
}
use antimoney.Server.Books.Kept.{Event, created, updated, toggled, reconciled, run}
use antimoney.Server.Books.Marked.{mark, batch_reconcile_splits_lem}

abbrev pub store : Store
store = record {
  books = "book" ∷ [];
  accounts =
      (record { guid = "cash"; book_guid = "book"; name = "Cash"; placeholder = false })
      ∷ (record { guid = "food"; book_guid = "book"; name = "Food"; placeholder = false })
      ∷ [];
  transactions = [];
}

abbrev pub ids : Ids
ids = record { tx = "tx"; split = λ i. "split"; account = "imbalance" }

abbrev split : String → ℤ → SplitRequest
split account value = record {
  account_guid = account;
  memo = "";
  value_num = value;
  value_denom = 100;
  quantity_num = value;
  quantity_denom = 100;
}

abbrev request : ℤ → CreateTransactionRequest
request paid = record {
  custom_id = "";
  post_date = "2024-01-02";
  description = "Lunch";
  splits = split "cash" paid ∷ split "food" (pos 1250) ∷ [];
}

abbrev events : List Event
events =
    created ids "book" (request (negsuc 1249))
    ∷ created ids "book" (request (negsuc 999))
    ∷ updated ids "book" "tx" (request (negsuc 999))
    ∷ reconciled "book" ("split" ∷ [])
    ∷ toggled "book" "split" "n"
    ∷ []

-- the second is kept with a third split
keeps_two : map (λ t. length t.splits) (run (λ d. d) events store).transactions ≡ 3 ∷ 2 ∷ []
unfolding create_transaction valid_splits auto_balance imbalance_account check_accounts split_rows
    sum add_all add reduced negated neg ◌+ℤ◌ gcd batch_reconcile_splits update_transaction
    toggle_split_acknowledge
keeps_two = refl

abbrev booked : Store
booked = run (λ d. d) events store

batch_reconcile_splits_lem_example :
    batch_reconcile_splits "book" ("split" ∷ []) booked
    ≡ record booked { transactions = set_states "book" (mark ("split" ∷ [])) booked.transactions }
batch_reconcile_splits_lem_example = batch_reconcile_splits_lem "book" ("split" ∷ []) booked

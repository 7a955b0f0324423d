-- ===== src/Server/Books/Requests.antt =====
-- backend/internal/services/transaction_service.go: the requests that write to the ledger:
-- `CreateTransaction`, `UpdateTransaction`, `DeleteTransaction`, `ToggleSplitAcknowledge` and
-- `BatchReconcileSplits`.
use antimoney.Prelude.{
  ◌+◌, Bool, true, not, ◌&&◌, ◌==◌, String, List, [], ◌∷◌, map, filter, any, if◌then◌else◌,
}
use antimoney.Types.{Split, SplitRequest, CreateTransactionRequest}
use antimoney.Editor.{is_exactly_zero}
use antimoney.Server.Books.{
  TxRow, Store, Ids, Result, ok, failed, ◌>>=◌, unbalanced, not_found, invalid_state, valid_splits,
  request_sum, auto_balance, check_accounts, split_rows, enough,
}

abbrev pub new_tx : Ids → String → CreateTransactionRequest → List SplitRequest → TxRow
new_tx ids book req xs = record {
  guid = ids.tx;
  custom_id = req.custom_id;
  book_guid = book;
  post_date = req.post_date;
  description = req.description;
  version = 1;
  splits = split_rows ids ids.tx 0 xs;
}

abbrev pub inserted :
    Ids → String → CreateTransactionRequest → Store × List SplitRequest → Result (Store × TxRow)
inserted ids book req (s, xs) = enough xs >>= λ _. check_accounts book s.accounts xs >>= λ _.
    ok (record s { transactions = new_tx ids book req xs ∷ s.transactions }, new_tx ids book req xs)

-- `CreateTransaction`; `noon` is `normalizePostDate`.
unfoldable pub create_transaction :
    (String → String) → Ids → String → CreateTransactionRequest → Store → Result (Store × TxRow)
create_transaction noon ids book req s =
    valid_splits req.splits
    >>= auto_balance ids book s
    >>= inserted ids book (record req { post_date = noon req.post_date })

abbrev pub is_tx : String → String → TxRow → Bool
is_tx guid book t = t.guid == guid && t.book_guid == book

abbrev pub replaced : CreateTransactionRequest → List Split → TxRow → TxRow
replaced req splits t = record t {
  custom_id = req.custom_id;
  post_date = req.post_date;
  description = req.description;
  version = t.version + 1;
  splits = splits;
}

abbrev pub balanced_or_failed : List SplitRequest → Result Bool
balanced_or_failed xs = if is_exactly_zero (request_sum xs).num then ok true else failed unbalanced

abbrev pub replace_splits :
    Ids → String → String → CreateTransactionRequest → Store → List SplitRequest → Result Store
replace_splits ids book guid req s xs = balanced_or_failed xs >>= λ _. enough xs >>= λ _.
    check_accounts book s.accounts xs >>= λ _. ok (record s {
      transactions =
          map (λ t. if is_tx guid book t then replaced req (split_rows ids guid 0 xs) t else t)
            s.transactions;
    })

-- `UpdateTransaction`
unfoldable pub update_transaction :
    (String → String) → Ids → String → String → CreateTransactionRequest → Store → Result Store
update_transaction noon ids book guid req s =
    if any (is_tx guid book) s.transactions
    then (valid_splits req.splits
        >>= replace_splits ids book guid (record req { post_date = noon req.post_date }) s)
    else failed not_found

-- `DeleteTransaction`
unfoldable pub delete_transaction : String → String → Store → Result Store
delete_transaction book guid s =
    if any (is_tx guid book) s.transactions
    then ok (record s { transactions = filter (λ t. not (is_tx guid book t)) s.transactions })
    else failed not_found

-- The splits of a book with some reconcile states set.
abbrev pub set_states : String → (Split → Split) → List TxRow → List TxRow
set_states book f =
    map (λ t. if t.book_guid == book then record t { splits = map f t.splits } else t)

abbrev pub set_state : String → String → Split → Split
set_state guid state x = if x.guid == guid then record x { reconcile_state = state } else x

-- `ToggleSplitAcknowledge`
unfoldable pub toggle_split_acknowledge : String → String → String → Store → Result Store
toggle_split_acknowledge book guid state s =
    if not (state == "n") && not (state == "c")
    then failed invalid_state
    else if any (λ t. t.book_guid == book && any (λ x. x.guid == guid) t.splits) s.transactions
    then ok (record s { transactions = set_states book (set_state guid state) s.transactions })
    else failed not_found

-- `BatchReconcileSplits`: an id that is unknown or reconciled is skipped.
unfoldable pub batch_reconcile_splits : String → List String → Store → Store
batch_reconcile_splits book [] s = s
batch_reconcile_splits book (guid ∷ guids) s =
    batch_reconcile_splits book guids
      (record s { transactions = set_states book (set_state guid "y") s.transactions })

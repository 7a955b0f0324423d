-- ===== src/Server/Books/Kept.antt =====
-- backend/internal/services/transaction_service.go: the requests to the ledger, in any order.
use antimoney.Prelude.{String, List, [], ◌∷◌, map}
use antimoney.Types.{SplitRequest, CreateTransactionRequest}
use antimoney.Server.Numeric.{Numeric}
use antimoney.Server.Books.{TxRow, Store, Ids, Result, ok, failed, valid_splits, value_of}
use antimoney.Server.Books.Requests.{
  create_transaction, update_transaction, delete_transaction, toggle_split_acknowledge,
  batch_reconcile_splits,
}

-- A request to the server, with the book of the user who sends it.
pub data Event : Type 0 where
  created : Ids → String → CreateTransactionRequest → Event
  updated : Ids → String → String → CreateTransactionRequest → Event
  deleted : String → String → Event
  toggled : String → String → String → Event
  reconciled : String → List String → Event

-- A request that fails leaves the tables as they are.
abbrev pub after : Store → Result Store → Store
after s (ok r) = r
after s (failed e) = s

abbrev pub after_creation : Store → Result (Store × TxRow) → Store
after_creation s (ok r) = r.0
after_creation s (failed e) = s

abbrev pub step : (String → String) → Event → Store → Store
step noon (created ids book req) s = after_creation s (create_transaction noon ids book req s)
step noon (updated ids book guid req) s = after s (update_transaction noon ids book guid req s)
step noon (deleted book guid) s = after s (delete_transaction book guid s)
step noon (toggled book guid state) s = after s (toggle_split_acknowledge book guid state s)
step noon (reconciled book guids) s = batch_reconcile_splits book guids s

abbrev pub run : (String → String) → List Event → Store → Store
run noon [] s = s
run noon (e ∷ es) s = run noon es (step noon e s)

-- The splits that a request to create or to change brings.
abbrev splits_of : Event → List SplitRequest
splits_of (created ids book req) = req.splits
splits_of (updated ids book guid req) = req.splits
splits_of _ = []

abbrev accepted : Result (List SplitRequest) → List SplitRequest
accepted (ok xs) = xs
accepted (failed e) = []

-- The values that the server adds up for a request.
abbrev pub added : Event → List Numeric
added e = map value_of (accepted (valid_splits (splits_of e)))

-- ===== src/Convert/Script.antt =====
-- scripts/convert_csv.js: the script as a whole, from the lines of the two files to the import.
use antimoney.Prelude.{Option, none, some, List, map}
use antimoney.Register.Search.{Text}
use antimoney.Convert.{Host, rows}
use antimoney.Convert.Chart.{Account, ImportAccount, chart, import_account}
use antimoney.Convert.Journal.{ImportTx, journal, import_tx}

pub record Output : Type 0 where
  pub accounts : List ImportAccount
  pub transactions : List ImportTx

abbrev written : Host → List Text → Option (List Account) → Option Output
written host txs none = none
written host txs (some accounts) = some (record {
  accounts = map import_account accounts;
  transactions = map (import_tx host) (journal host (rows txs));
})

-- `run`: nothing is written where it throws.
unfoldable pub run : Host → List Text → List Text → Option Output
run host accounts txs = written host txs (chart host (rows accounts))

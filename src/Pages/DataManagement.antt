-- ===== src/Pages/DataManagement.antt =====
-- frontend/src/pages/DataManagement.tsx: export, import and reset of the book's data, and the
-- connection of banks.
--
-- A message is the list of its parts, before they are translated. A handler that waits for the
-- server is two functions, as in the page of a register. The Plaid Link widget is not modelled:
-- its two callbacks are functions here.
pub mod Bank
pub mod Invariant
use antimoney.Prelude.{
  ℕ, Bool, true, false, not, ◌||◌, ◌&&◌, String, Option, none, some, List, [], ◌∷◌, ◌++◌, filter,
  ltb, ◌==◌, if◌then◌else◌,
}
use antimoney.Message.{Part, key, key_or, counted, plain}
use antimoney.Types.{Account, PlaidItem, SyncSuggestion}

-- `{ type, text }`
pub data Note : Type 0 where
  success error : List Part → Note

pub record PlaidBankAccount : Type 0 where
  pub account_id : String
  pub name : String
  pub mask : String
  pub account_type : String

pub data Step : Type 0 where
  idle linking mapping done : Step

pub record Linked : Type 0 where
  pub guid : String
  pub institution : String

abbrev pub Mappings : Type 0
Mappings = List (String × String)

pub record State : Type 0 where
  pub accounts : List Account
  pub selected_account : String
  pub importing : Bool
  pub importing_csv : Bool
  pub importing_gnucash : Bool
  pub exporting : Bool
  pub resetting : Bool
  pub message : Option Note
  -- the files that the three inputs hold; "" is none
  pub file_input : String
  pub csv_input : String
  pub gnucash_input : String
  pub link_token : Option String
  pub plaid_connecting : Bool
  pub plaid_step : Step
  pub plaid_item : Option Linked
  pub plaid_bank_accounts : List PlaidBankAccount
  pub plaid_mappings : Mappings
  pub plaid_import_pending : Bool
  pub plaid_message : Option Note
  pub plaid_items : List PlaidItem
  pub syncing_item_guid : Option String
  pub dm_suggestions : Option (List SyncSuggestion)
  pub dm_institution : String

abbrev pub initial : State
initial = record {
  accounts = [];
  selected_account = "";
  importing = false;
  importing_csv = false;
  importing_gnucash = false;
  exporting = false;
  resetting = false;
  message = none;
  file_input = "";
  csv_input = "";
  gnucash_input = "";
  link_token = none;
  plaid_connecting = false;
  plaid_step = idle;
  plaid_item = none;
  plaid_bank_accounts = [];
  plaid_mappings = [];
  plaid_import_pending = false;
  plaid_message = none;
  plaid_items = [];
  syncing_item_guid = none;
  dm_suggestions = none;
  dm_institution = "";
}

pub data Call : Type 0 where
  export_data reset_data list_items : Call
  import_data import_gnucash : String → Call
  import_csv : String → String → Call
  get_link_token : String → Call
  exchange : String → Call
  link : String → Mappings → Bool → Call
  sync disconnect : String → Call

-- The end of a `fetch`: an answer that is `ok`, one that is not with the `error` of its body, if
-- any, and its status text, or a failure with its message.
pub data Reply : Type 0 where
  ok : ℕ → Reply
  refused : Option String → String → Reply
  failed : String → Reply

abbrev or_else : String → List Part → List Part
or_else s other = if s == "" then other else plain s ∷ []

abbrev body_error : Option String → List Part → List Part
body_error none other = other
body_error (some s) other = or_else s other

-- The text of the caught error: `err.message || other`.
abbrev failure : String → List Part → Reply → List Part
failure what other (ok count) = other
failure what other (refused body status) = body_error body (plain what ∷ plain status ∷ [])
failure what other (failed message) = or_else message other

-- The effect that loads the accounts for the list; the server sends no `children`.
abbrev first_guid : List Account → String → String
first_guid [] other = other
first_guid (a ∷ l) other = a.guid

unfoldable pub accounts_loaded : List Account → State → State
accounts_loaded all s =
    let list = filter (λ a. not a.placeholder) all in
    record s { accounts = list; selected_account = first_guid list s.selected_account }

abbrev pub select_account : String → State → State
select_account guid s = record s { selected_account = guid }

-- `handleExport`. The body's `error` is not read there.
unfoldable pub export_start : State → State × Call
export_start s = (record s { exporting = true; message = none }, export_data)

abbrev export_note : Reply → Note
export_note (ok count) = success (key_or "data.exportSuccess" "Export successful!" ∷ [])
export_note (refused body status) = error (plain "Export failed: " ∷ plain status ∷ [])
export_note (failed message) =
    error (or_else message (key_or "data.exportError" "Export failed" ∷ []))

unfoldable pub export_done : Reply → State → State
export_done reply s = record s { exporting = false; message = some (export_note reply) }

-- `handleFileChange`; the browser has put the file into the input.
unfoldable pub import_start : String → State → State × Option Call
import_start file s =
    if file == ""
    then (record s { file_input = file }, none)
    else (record s { file_input = file; importing = true; message = none }, some (import_data file))

unfoldable pub import_done : Reply → State → State
import_done (ok count) s = record s {
  importing = false;
  message = some (success (key_or "data.importSuccess" "Import successful!" ∷ []));
  file_input = "";
}
import_done reply s = record s {
  importing = false;
  message =
      some
        (error (failure "Import failed: " (key_or "data.importError" "Import failed" ∷ []) reply));
}

-- `handleCSVImportClick`: whether the dialog opens.
abbrev pub csv_click : State → Bool
csv_click s = not (s.selected_account == "")

-- `handleCSVFileChange`
unfoldable pub csv_start : String → State → State × Option Call
csv_start file s = if file == "" then (record s { csv_input = file }, none) else (
  record s { csv_input = file; importing_csv = true; message = none },
  some (import_csv file s.selected_account),
)

unfoldable pub csv_done : Reply → State → State
csv_done (ok count) s = record s {
  importing_csv = false;
  message = some (success (counted "data.importCsvSuccess" count ∷ []));
  csv_input = "";
}
csv_done reply s = record s {
  importing_csv = false;
  message = some (error (failure "Import failed: " (plain "CSV Import failed" ∷ []) reply));
}

-- `handleGnucashFileChange`
unfoldable pub gnucash_start : String → State → State × Option Call
gnucash_start file s = if file == "" then (record s { gnucash_input = file }, none) else (
  record s { gnucash_input = file; importing_gnucash = true; message = none },
  some (import_gnucash file),
)

unfoldable pub gnucash_done : Reply → State → State
gnucash_done (ok count) s = record s {
  importing_gnucash = false;
  message = some (success (key_or "data.importGnucashSuccess" "GnuCash import successful!" ∷ []));
  gnucash_input = "";
}
gnucash_done reply s = record s {
  importing_gnucash = false;
  message = some (error (failure "Import failed: " (plain "GnuCash import failed" ∷ []) reply));
}

-- `handleFactoryReset`; `confirmed` is the answer to the question.
unfoldable pub reset_start : Bool → State → State × Option Call
reset_start false s = (s, none)
reset_start true s = (record s { resetting = true; message = none }, some reset_data)

-- With a success the page is loaded again, a second later.
unfoldable pub reset_done : Reply → State → State × Bool
reset_done (ok count) s = (
  record s {
    resetting = false;
    message = some (success (plain "Account factory reset successful! Reloading..." ∷ []));
  },
  true,
)
reset_done reply s = (
  record s {
    resetting = false;
    message = some (error (failure "Reset failed: " (plain "Reset failed" ∷ []) reply));
  },
  false,
)

-- `disabled` of the buttons.
abbrev pub is_import_disabled : State → Bool
is_import_disabled s = s.importing || s.resetting

abbrev pub is_gnucash_disabled : State → Bool
is_gnucash_disabled s = s.importing_gnucash || s.resetting

abbrev pub is_csv_disabled : State → Bool
is_csv_disabled s = s.importing_csv || (s.selected_account == "")

abbrev pub is_reset_disabled : State → Bool
is_reset_disabled s = s.resetting || s.importing

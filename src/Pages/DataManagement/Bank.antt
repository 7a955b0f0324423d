-- ===== src/Pages/DataManagement/Bank.antt =====
-- frontend/src/pages/DataManagement.tsx: the banks that are connected.
pub mod Mapping
use antimoney.Prelude.{
  ℕ, Bool, true, false, not, ◌&&◌, String, Option, none, some, List, [], ◌∷◌, ◌++◌, filter, ltb,
  ◌==◌, if◌then◌else◌,
}
use antimoney.Types.{PlaidItem, SyncResult, SyncSuggestion}
use antimoney.Message.{key, counted, plain, more_suffix, sync_failure}
use antimoney.Pages.DataManagement.{
  Note, success, error, PlaidBankAccount, Step, idle, linking, mapping, done, Linked, Mappings,
  State, Call, list_items, get_link_token, exchange, link, sync, disconnect,
}

-- `loadPlaidItems` after its call; a failure leaves the list.
unfoldable pub items_done : Option (List PlaidItem) → State → State
items_done none s = s
items_done (some items) s = record s { plaid_items = items }

-- `handlePlaidSyncNow`; the button is disabled while an item is synchronised.
unfoldable pub sync_start : PlaidItem → State → State × Call
sync_start item s =
    (record s { syncing_item_guid = some item.guid; plaid_message = none }, sync item.guid)

-- After its call: the result, or the message of the error. With a result the list is loaded.
unfoldable pub sync_done : PlaidItem → String → Option SyncResult → State → State × Option Call
sync_done item message none s = (
  record s {
    syncing_item_guid = none;
    plaid_message = some (error (sync_failure message item.institution_name));
  },
  none,
)
sync_done item message (some result) s = (
  if ltb 0 result.count
      then record s {
        syncing_item_guid = none;
        plaid_message =
            some (success (counted "plaid.syncSuccess" result.count ∷ more_suffix result));
        dm_institution = item.institution_name;
        dm_suggestions = some result.suggestions;
      }
      else record s {
        syncing_item_guid = none;
        plaid_message = some (success (key "plaid.syncNone" ∷ more_suffix result));
      },
  some list_items,
)

-- `handlePlaidDisconnect`
abbrev pub disconnect_start : Bool → PlaidItem → Option Call
disconnect_start false item = none
disconnect_start true item = some (disconnect item.guid)

unfoldable pub disconnect_done : Bool → State → State × Option Call
disconnect_done true s =
    (record s { plaid_message = some (success (key "plaid.disconnected" ∷ [])) }, some list_items)
disconnect_done false s =
    (record s { plaid_message = some (error (key "plaid.genericError" ∷ [])) }, none)

-- `handleConnectBank`
unfoldable pub connect_start : String → State → State × Call
connect_start locale s =
    (record s { plaid_connecting = true; plaid_message = none }, get_link_token locale)

unfoldable pub connect_done : Option String → State → State
connect_done none s = record s {
  plaid_connecting = false;
  plaid_message = some (error (key "plaid.genericError" ∷ []));
}
connect_done (some token) s = record s {
  plaid_connecting = false;
  link_token = some token;
  plaid_step = linking;
}

abbrev is_linking : Step → Bool
is_linking linking = true
is_linking _ = false

abbrev has_token : Option String → Bool
has_token none = false
has_token (some token) = not (token == "")

-- The effect that opens the widget, once it is ready.
unfoldable pub opens_link : Bool → State → Bool
opens_link ready s = is_linking s.plaid_step && ready && has_token s.link_token

-- `onExit`
unfoldable pub on_exit : State → State
on_exit s = record s { plaid_step = if is_linking s.plaid_step then idle else s.plaid_step }

-- `onSuccess`
unfoldable pub on_success_start : String → State → State × Call
on_success_start token s =
    (record s { plaid_connecting = true; plaid_message = none }, exchange token)

unfoldable pub on_success_done : Option (Linked × List PlaidBankAccount) → State → State
on_success_done none s = record s {
  plaid_connecting = false;
  plaid_message = some (error (key "plaid.genericError" ∷ []));
  plaid_step = idle;
}
on_success_done (some (item, accounts)) s = record s {
  plaid_connecting = false;
  plaid_item = some item;
  plaid_bank_accounts = accounts;
  plaid_mappings = [];
  plaid_step = mapping;
}

-- `{ ...m, [id]: guid }`
abbrev pub set_mapping : String → String → Mappings → Mappings
set_mapping id guid [] = (id, guid) ∷ []
set_mapping id guid ((k, v) ∷ m) = if k == id then (k, guid) ∷ m else (k, v) ∷ set_mapping id guid m

unfoldable pub choose : String → String → State → State
choose id guid s = record s { plaid_mappings = set_mapping id guid s.plaid_mappings }

-- The mappings that `handleSubmitMappings` sends.
unfoldable pub chosen : Mappings → Mappings
chosen m = filter (λ e. not (e.1 == "")) m

abbrev pub import_pending_changed : Bool → State → State
import_pending_changed b s = record s { plaid_import_pending = b }

abbrev submit_for : Option Linked → State → State × Option Call
submit_for none s = (s, none)
submit_for (some item) s = (
  record s { plaid_connecting = true; plaid_message = none },
  some (link item.guid (chosen s.plaid_mappings) s.plaid_import_pending),
)

-- `handleSubmitMappings` up to its call.
unfoldable pub submit_start : State → State × Option Call
submit_start s = submit_for s.plaid_item s

-- And after it; `item` is the one that it began with.
unfoldable pub submit_done : Linked → Bool → State → State × Option Call
submit_done item true s = (
  record s {
    plaid_connecting = false;
    plaid_step = done;
    plaid_message =
        some (success (key "plaid.connected" ∷ plain ": " ∷ plain item.institution ∷ []));
  },
  some list_items,
)
submit_done item false s = (
  record s {
    plaid_connecting = false;
    plaid_message = some (error (key "plaid.genericError" ∷ []));
  },
  none,
)

-- What the import matcher calls back.
unfoldable pub matcher_closed : State → State
matcher_closed s = record s { dm_suggestions = none }

unfoldable pub matcher_imported : ℕ → State → State
matcher_imported count s = record s {
  dm_suggestions = none;
  plaid_message = some (success (counted "plaid.importSuccess" count ∷ []));
}

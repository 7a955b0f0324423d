-- ===== src/Register/Dialogs.antt =====
-- frontend/src/pages/AccountRegister.tsx: what the page shows besides the table, and what it
-- hands to the table.
use antimoney.Prelude.{
  ℕ, ◌==◌, Bool, true, false, not, ◌||◌, ◌&&◌, String, Option, none, some, List, [], ◌∷◌,
  if◌then◌else◌,
}
use antimoney.Types.{Account, PlaidAccountMeta, RegisterEntry}
use antimoney.Register.Search.{Text}
use antimoney.Register.Page.{State, is_searching, display_entries}
use mathlib.Core.Option

pub record Dialogs : Type 0 where
  pub show_form : Bool
  pub edit_tx_guid : Option String
  pub duplicate_tx_guid : Option String
  pub show_reconcile : Bool

abbrev pub initial : Dialogs
initial = record {
  show_form = false;
  edit_tx_guid = none;
  duplicate_tx_guid = none;
  show_reconcile = false;
}

-- The button and the key N.
abbrev pub new_transaction : Dialogs → Dialogs
new_transaction d = record d { show_form = true }

abbrev pub edit_transaction : String → Dialogs → Dialogs
edit_transaction guid d = record d { edit_tx_guid = some guid }

abbrev pub duplicate_transaction : String → Dialogs → Dialogs
duplicate_transaction guid d = record d { duplicate_tx_guid = some guid }

abbrev pub close_form : Dialogs → Dialogs
close_form d = record d { show_form = false; edit_tx_guid = none; duplicate_tx_guid = none }

abbrev pub show_reconcile : Bool → Dialogs → Dialogs
show_reconcile b d = record d { show_reconcile = b }

abbrev is_guid : Option String → Bool
is_guid none = false
is_guid (some s) = not (s == "")

-- Whether the form of a transaction is shown.
abbrev pub is_form_shown : Dialogs → Bool
is_form_shown d = d.show_form || is_guid d.edit_tx_guid || is_guid d.duplicate_tx_guid

-- What the page draws: a spinner, a missing account, or the account, and then the table unless
-- the search is under way or finds nothing.
pub data View : Type 0 where
  spinner not_found searching nothing_found : View
  table : List RegisterEntry → View

abbrev no_entries : List RegisterEntry → Bool
no_entries [] = true
no_entries (e ∷ es) = false

abbrev is_missing : Option (List RegisterEntry) → Bool
is_missing none = true
is_missing (some all) = false

abbrev pub view_of : Bool → State → List RegisterEntry → View
view_of true s shown =
    if s.search_loading && is_missing s.all_entries
    then searching
    else (if no_entries shown then nothing_found else table shown)
view_of false s shown = table shown

abbrev view_for : Option Account → Bool → State → List RegisterEntry → View
view_for none active s shown = not_found
view_for (some account) active s shown = view_of active s shown

unfoldable pub view : (Text → Text) → (ℕ → Text) → State → View
view lower to_fixed s =
    if s.loading
    then spinner
    else view_for s.account (is_searching s) s (display_entries lower to_fixed s)

-- The `hasBefore`, `hasAfter`, `loadingMore` and the presence of `onLoadMore` that the table gets.
pub record TableProps : Type 0 where
  pub has_before : Bool
  pub has_after : Bool
  pub loading_more : Bool
  pub loads : Bool

unfoldable pub table_props : State → TableProps
table_props s =
    if is_searching s
    then record { has_before = false; has_after = false; loading_more = false; loads = false }
    else record {
      has_before = s.has_before;
      has_after = s.has_after;
      loading_more = s.loading_more;
      loads = true;
    }

-- The button that synchronises: the item and the name of the bank.
abbrev pub sync_click : Account → PlaidAccountMeta → Option (String × String)
sync_click account meta =
    if is_guid meta.item_guid
    then Option.map (λ item. (item, Option.get_or meta.institution_name account.name))
        meta.item_guid
    else none

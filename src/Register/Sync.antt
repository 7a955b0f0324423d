-- ===== src/Register/Sync.antt =====
-- frontend/src/utils/plaidSync.ts, and the synchronisation with the bank of
-- frontend/src/pages/AccountRegister.tsx.
--
-- A time is a text as the server sends it. `day_in zone time` is what `toLocaleDateString` with
-- `en-CA` gives, a day of the form YYYY-MM-DD.
use antimoney.Prelude.{
  ℕ, Ordering, Bool, true, false, String, Option, none, some, List, [], ◌∷◌, ltb, ◌==◌,
  compare_text, if◌then◌else◌,
}
use mathlib.Core.Option
use antimoney.Message.{Part, key, filled, counted, more_suffix, sync_failure}
use antimoney.Types.{Account, PlaidAccountMeta, SyncResult, SyncSuggestion}

-- A missing text or an empty one.
abbrev present : Option String → Option String
present none = none
present (some s) = if s == "" then none else some s

abbrev is_before : Ordering → Bool
is_before Ordering.lt = true
is_before _ = false

abbrev day_is_past : String → Option String → Bool
day_is_past today none = true
day_is_past today (some day) = is_before (compare_text day today)

module _ (day_in : String → String → String) where
  abbrev due : String → String → Option String → Option String → Bool
  due now zone none synced = false
  due now zone (some item) synced =
      day_is_past (day_in zone now) (Option.map (day_in zone) (present synced))

  -- `shouldAutoSyncToday`
  unfoldable pub should_auto_sync_today : Option PlaidAccountMeta → String → String → Bool
  should_auto_sync_today none now zone = false
  should_auto_sync_today (some meta) now zone =
      due now zone (present meta.item_guid) meta.last_synced_at

pub record State : Type 0 where
  pub syncing : Bool
  pub sync_message : Option (List Part)
  pub import_suggestions : Option (List SyncSuggestion)
  pub import_institution : String

-- `triggerSync` up to its call: the item to synchronise.
unfoldable pub trigger_sync : String → String → State → State × String
trigger_sync item institution s = (
  record s {
    syncing = true;
    sync_message = some (filled "plaid.syncing" "{{institution}}" institution ∷ []);
  },
  item,
)

-- After its call: the message of the error, or the result. The flag tells whether a timer is
-- started that takes the message away.
unfoldable pub sync_done : String → String → Option SyncResult → State → State × Bool
sync_done institution message none s =
    (record s { syncing = false; sync_message = some (sync_failure message institution) }, false)
sync_done institution message (some result) s =
    if ltb 0 result.count
    then (
      record s {
        syncing = false;
        sync_message = some (counted "plaid.syncSuccess" result.count ∷ more_suffix result);
        import_suggestions = some result.suggestions;
        import_institution = institution;
      },
      false,
    )
    else (
      record s { syncing = false; sync_message = some (key "plaid.syncNone" ∷ more_suffix result) },
      true,
    )

abbrev pub message_timeout : State → State
message_timeout s = record s { sync_message = none }

unfoldable pub matcher_closed : State → State
matcher_closed s = record s { import_suggestions = none; sync_message = none }

-- The page then goes on with `handle_data_changed` of Register/Page, and a timer.
unfoldable pub matcher_imported : ℕ → State → State
matcher_imported count s = record s {
  import_suggestions = none;
  sync_message = some (counted "plaid.importSuccess" count ∷ []);
}

abbrev sync_item : Bool → PlaidAccountMeta → String → Option (String × String)
sync_item false meta name = none
sync_item true meta name =
    Option.map (λ item. (item, Option.get_or meta.institution_name name)) meta.item_guid

module _ (day_in : String → String → String) where
  -- The effect that follows a change of the account: the item and the name of the bank, where it
  -- synchronises. An account on the page has a name.
  unfoldable pub auto_sync : Option Account → String → String → Option (String × String)
  auto_sync none now zone = none
  auto_sync (some account) now zone = elim account.plaid [
    | none ↦ none
    | some meta ↦ sync_item (should_auto_sync_today day_in (some meta) now zone) meta account.name
  ]

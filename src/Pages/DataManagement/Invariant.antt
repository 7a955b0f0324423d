-- ===== src/Pages/DataManagement/Invariant.antt =====
-- What holds of the page of data whenever requests are under way.
use antimoney.Prelude.{
  ℕ, ◌+◌, ◌-◌, ◌≡◌, Bool, true, false, not, ◌&&◌, String, Option, none, some, List, [], ◌∷◌, arith,
  eqb,
}
use antimoney.Types.{Account, PlaidItem, SyncResult}
use antimoney.Pages.DataManagement.{
  Step, idle, linking, mapping, done, Linked, PlaidBankAccount, Reply, State, Call, initial,
  accounts_loaded, select_account, export_start, export_done, import_start, import_done, csv_start,
  csv_done, gnucash_start, gnucash_done, reset_start, reset_done,
}
use antimoney.Pages.DataManagement.Bank.{
  items_done, sync_start, sync_done, disconnect_done, connect_start, connect_done, on_exit,
  on_success_start, on_success_done, choose, import_pending_changed, submit_start, submit_done,
  matcher_closed, matcher_imported,
}

-- The numbers of requests under way, by what they are for.
pub record Waiting : Type 0 where
  pub exports : ℕ
  pub imports : ℕ
  pub csvs : ℕ
  pub gnucashes : ℕ
  pub resets : ℕ
  pub banks : ℕ
  pub syncs : ℕ

abbrev pub nothing : Waiting
nothing = record {
  exports = 0;
  imports = 0;
  csvs = 0;
  gnucashes = 0;
  resets = 0;
  banks = 0;
  syncs = 0;
}

pub record System : Type 0 where
  pub page : State
  pub waiting : Waiting

pub data Event : Type 0 where
  loaded : List Account → Event
  selected : String → Event
  export_asked : Event
  exported imported csv_imported gnucash_imported was_reset : Reply → Event
  import_asked csv_asked gnucash_asked : String → Event
  reset_asked : Bool → Event
  listed : Option (List PlaidItem) → Event
  sync_asked : PlaidItem → Event
  synced : PlaidItem → String → Option SyncResult → Event
  disconnected : Bool → Event
  connect_asked : String → Event
  connected : Option String → Event
  link_exited : Event
  link_succeeded : String → Event
  exchanged : Option (Linked × List PlaidBankAccount) → Event
  chose : String → String → Event
  pending_changed : Bool → Event
  submit_asked : Event
  submitted : Linked → Bool → Event
  closed : Event
  matched : ℕ → Event

abbrev sent : Option Call → ℕ
sent none = 0
sent (some call) = 1

unfoldable pub step : Event → System → System
step (loaded all) s = record s { page = accounts_loaded all s.page }
step (selected guid) s = record s { page = select_account guid s.page }
step export_asked s =
    let (page, call) = export_start s.page in
    record { page = page; waiting = record s.waiting { exports = s.waiting.exports + 1 } }
step (exported reply) s = record {
  page = export_done reply s.page;
  waiting = record s.waiting { exports = s.waiting.exports - 1 };
}
step (import_asked file) s =
    let (page, call) = import_start file s.page in
    record { page = page; waiting = record s.waiting { imports = s.waiting.imports + sent call } }
step (imported reply) s = record {
  page = import_done reply s.page;
  waiting = record s.waiting { imports = s.waiting.imports - 1 };
}
step (csv_asked file) s =
    let (page, call) = csv_start file s.page in
    record { page = page; waiting = record s.waiting { csvs = s.waiting.csvs + sent call } }
step (csv_imported reply) s = record {
  page = csv_done reply s.page;
  waiting = record s.waiting { csvs = s.waiting.csvs - 1 };
}
step (gnucash_asked file) s =
    let (page, call) = gnucash_start file s.page in
    record {
      page = page;
      waiting = record s.waiting { gnucashes = s.waiting.gnucashes + sent call };
    }
step (gnucash_imported reply) s = record {
  page = gnucash_done reply s.page;
  waiting = record s.waiting { gnucashes = s.waiting.gnucashes - 1 };
}
step (reset_asked confirmed) s =
    let (page, call) = reset_start confirmed s.page in
    record { page = page; waiting = record s.waiting { resets = s.waiting.resets + sent call } }
step (was_reset reply) s =
    let (page, reload) = reset_done reply s.page in
    record { page = page; waiting = record s.waiting { resets = s.waiting.resets - 1 } }
step (listed items) s = record s { page = items_done items s.page }
step (sync_asked item) s =
    let (page, call) = sync_start item s.page in
    record { page = page; waiting = record s.waiting { syncs = s.waiting.syncs + 1 } }
step (synced item message result) s =
    let (page, call) = sync_done item message result s.page in
    record { page = page; waiting = record s.waiting { syncs = s.waiting.syncs - 1 } }
step (disconnected ok) s = record s { page = (disconnect_done ok s.page).0 }
step (connect_asked locale) s =
    let (page, call) = connect_start locale s.page in
    record { page = page; waiting = record s.waiting { banks = s.waiting.banks + 1 } }
step (connected token) s = record {
  page = connect_done token s.page;
  waiting = record s.waiting { banks = s.waiting.banks - 1 };
}
step link_exited s = record s { page = on_exit s.page }
step (link_succeeded token) s =
    let (page, call) = on_success_start token s.page in
    record { page = page; waiting = record s.waiting { banks = s.waiting.banks + 1 } }
step (exchanged result) s = record {
  page = on_success_done result s.page;
  waiting = record s.waiting { banks = s.waiting.banks - 1 };
}
step (chose id guid) s = record s { page = choose id guid s.page }
step (pending_changed b) s = record s { page = import_pending_changed b s.page }
step submit_asked s =
    let (page, call) = submit_start s.page in
    record { page = page; waiting = record s.waiting { banks = s.waiting.banks + sent call } }
step (submitted item ok) s =
    let (page, call) = submit_done item ok s.page in
    record { page = page; waiting = record s.waiting { banks = s.waiting.banks - 1 } }
step closed s = record s { page = matcher_closed s.page }
step (matched count) s = record s { page = matcher_imported count s.page }

abbrev pub run : List Event → System → System
run [] s = s
run (e ∷ es) s = run es (step e s)

abbrev pub is_set {ℓ} : {A : Type ℓ} → Option A → Bool
is_set none = false
is_set (some a) = true

abbrev pub needs_item : Step → Bool
needs_item idle = false
needs_item linking = false
needs_item mapping = true
needs_item done = false

abbrev pub needs_token : Step → Bool
needs_token linking = true
needs_token idle = false
needs_token mapping = false
needs_token done = false

-- A flag that is set has a request under way.
abbrev pub Waits : Bool → ℕ → Type 0
Waits b n = (b && eqb n 0) ≡ false

pub record IsValid (s : System) : Type 0 where
  pub exporting : Waits s.page.exporting s.waiting.exports
  pub importing : Waits s.page.importing s.waiting.imports
  pub importing_csv : Waits s.page.importing_csv s.waiting.csvs
  pub importing_gnucash : Waits s.page.importing_gnucash s.waiting.gnucashes
  pub resetting : Waits s.page.resetting s.waiting.resets
  pub connecting : Waits s.page.plaid_connecting s.waiting.banks
  pub syncing : Waits (is_set s.page.syncing_item_guid) s.waiting.syncs
  pub item : (needs_item s.page.plaid_step && not (is_set s.page.plaid_item)) ≡ false
  pub token : (needs_token s.page.plaid_step && not (is_set s.page.link_token)) ≡ false

step-IsValid : (e : Event) (s : System) → IsValid s → IsValid (step e s)
unfolding step accounts_loaded export_start export_done import_start import_done csv_start csv_done
    gnucash_start gnucash_done reset_start reset_done items_done sync_start sync_done
    disconnect_done connect_start connect_done on_exit on_success_start on_success_done choose
    submit_start submit_done matcher_closed matcher_imported
step-IsValid e s valid = ground arith

run_lem : (events : List Event) (s : System) → IsValid s → IsValid (run events s)
run_lem [] s valid = valid
run_lem (e ∷ events) s valid = run_lem events (step e s) (step-IsValid e s valid)

-- The page before anything has happened.
abbrev pub start : System
start = record { page = initial; waiting = nothing }

start-IsValid : IsValid start
start-IsValid = ground arith

-- The page is never stuck: after any sequence of clicks, answers and callbacks from its first
-- state, each of the flags for an export, an import of each kind, a reset, the connection of a
-- bank and a synchronisation is set only while a request of its kind is under way; the accounts
-- of a bank are mapped only where the bank is known, and the widget is waited for only with a
-- token.
pub run-start-IsValid : (events : List Event) → IsValid (run events start)
run-start-IsValid events = run_lem events start start-IsValid

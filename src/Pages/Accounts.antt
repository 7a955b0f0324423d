-- ===== src/Pages/Accounts.antt =====
-- frontend/src/pages/Accounts.tsx: the page of the chart of accounts.
use antimoney.Prelude.{
  Bool, true, false, not, String, Option, none, some, List, [], ◌==◌, if◌then◌else◌,
}
use antimoney.Types.{Account}
use antimoney.Tree.{reconcile_guids}

pub record ReconcileData : Type 0 where
  pub name : String
  pub guids : List String

pub record State : Type 0 where
  pub accounts : List Account
  pub loading : Bool
  pub show_form : Bool
  pub editing_account : Option Account
  pub show_reconciled : Bool
  pub show_reconcile : Bool
  pub reconcile_data : Option ReconcileData
  pub filter_today : Bool

abbrev pub initial : State
initial = record {
  accounts = [];
  loading = true;
  show_form = false;
  editing_account = none;
  show_reconciled = false;
  show_reconcile = false;
  reconcile_data = none;
  filter_today = true;
}

pub data Call : Type 0 where
  -- with the day up to which the balances count
  get_accounts : Option String → Call
  delete_account : String → Call

-- `loadData` up to its call; `today` is the day that `new Date()` shows.
unfoldable pub load_start : String → State → State × Call
load_start today s =
    (record s { loading = true }, get_accounts (if s.filter_today then some today else none))

unfoldable pub load_done : Option (List Account) → State → State
load_done none s = record s { loading = false }
load_done (some accounts) s = record s { accounts = accounts; loading = false }

abbrev is_same : Bool → Bool → Bool
is_same true b = b
is_same false b = not b

-- The two buttons, and the effect that loads for the new choice.
unfoldable pub choose_period : Bool → String → State → State × Option Call
unfolding load_start
choose_period today_only today s =
    if is_same today_only s.filter_today
    then (s, none)
    else (let (t, call) = load_start today (record s { filter_today = today_only }) in
        (t, some call))

abbrev pub show_balances : Bool → State → State
show_balances reconciled s = record s { show_reconciled = reconciled }

unfoldable pub handle_new : State → State
handle_new s = record s { show_form = true }

unfoldable pub handle_edit : Account → State → State
handle_edit account s = record s { editing_account = some account; show_form = true }

-- `handleDelete` up to its call; `confirmed` is the answer to the question.
abbrev pub delete_start : Bool → Account → Option Call
delete_start true account = some (delete_account account.guid)
delete_start false account = none

-- And after it: a failure shows its message.
unfoldable pub delete_done : String → Option String → State → (State × Option Call) × Option String
unfolding load_start
delete_done today none s = let (t, call) = load_start today s in ((t, some call), none)
delete_done today (some message) s =
    ((s, none), some (if message == "" then "Failed to delete" else message))

unfoldable pub handle_reconcile : Account → State → State
handle_reconcile account s = record s {
  reconcile_data =
      some (record { name = account.name; guids = reconcile_guids s.accounts account.guid });
  show_reconcile = true;
}

unfoldable pub handle_close_form : State → State
handle_close_form s = record s { show_form = false; editing_account = none }

unfoldable pub close_reconcile : State → State
close_reconcile s = record s { show_reconcile = false }

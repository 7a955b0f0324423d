-- ===== src/Register/Page.antt =====
-- frontend/src/pages/AccountRegister.tsx: the state of the page of one account's register, and
-- its handlers. A handler that waits for the server is two functions: what it does up to the
-- call, with the call, and what it does with the answer (`none` where the call fails).
pub mod Merge
pub mod Patch
pub mod Invariant
pub mod Window
pub mod Complete
pub mod Queries
use antimoney.Prelude.{
  ℕ, Ordering, Bool, true, false, not, String, Option, none, some, List, [], ◌∷◌, ◌++◌, map, ◌==◌,
  ◌&&◌, contains, filter, if◌then◌else◌,
}
use mathlib.Core.Option
use antimoney.Prelude.Sorting.{sort}
use antimoney.Types.{Account, RegisterEntry, RegisterPage}
use antimoney.Register.Order.{compare_entries}
use antimoney.Register.Search.{Text, is_present, is_space, tokenize, filter_register_entries}

abbrev pub page_size : ℕ
page_size = 50

pub data Direction : Type 0 where
  before after : Direction

-- The `cursor_date` of a request: a date, or an offset where more is loaded.
pub data Cursor : Type 0 where
  date : String → Cursor
  offset : ℕ → Cursor

pub data Call : Type 0 where
  -- `getAccount`, `getAccountRegisterPaged(…, 'around', …)` and `getAccounts`, all at once
  load_around : String → Cursor → ℕ → Call
  load_page : String → Cursor → Direction → ℕ → Call
  load_register : String → Call
  delete_transaction : String → Call

pub record State : Type 0 where
  pub account : Option Account
  pub all_accounts : List Account
  pub entries : List RegisterEntry
  pub loading : Bool
  pub loading_more : Bool
  pub has_before : Bool
  pub has_after : Bool
  pub first_offset : Option ℕ
  pub last_offset : Option ℕ
  pub page_cursor : String
  pub search : Text
  pub debounced_search : Text
  pub all_entries : Option (List RegisterEntry)
  pub search_loading : Bool
  pub search_error : Bool

abbrev pub guids : List RegisterEntry → List String
guids = map (λ e. e.split_guid)

-- The entries that are not loaded yet.
abbrev pub unique_entries : List RegisterEntry → List RegisterEntry → List RegisterEntry
unique_entries prev new = filter (λ e. not (contains e.split_guid (guids prev))) new

abbrev pub join_entries : Direction → List RegisterEntry → List RegisterEntry → List RegisterEntry
join_entries before unique prev = unique ++ prev
join_entries after unique prev = prev ++ unique

-- The `patch` of `handleReconcileStateChanged`.
abbrev pub patch : String → String → RegisterEntry → RegisterEntry
patch guid state e = if e.split_guid == guid then record e { reconcile_state = state } else e

-- `loadInitialData`; `today` is the value of `getTodayStr()`.
unfoldable pub load_initial_start :
    Option String → String → Option String → State → State × Option Call
load_initial_start none today cursor s = (s, none)
load_initial_start (some id) today cursor s =
    let day = Option.get_or cursor today in
    (record s { loading = true; page_cursor = day }, some (load_around id (date day) page_size))

abbrev cursor_of : Direction → State → Option ℕ
cursor_of before s = s.first_offset
cursor_of after s = s.last_offset

abbrev pub request_more : String → Direction → Option ℕ → State → State × Option Call
request_more id dir none s = (s, none)
request_more id dir (some at) s =
    (record s { loading_more = true }, some (load_page id (offset at) dir page_size))

-- `loadMore` up to its call; `busy` is the `loadingMore` of the render that made the handler.
unfoldable pub load_more_start : Option String → Bool → Direction → State → State × Option Call
load_more_start none busy dir s = (s, none)
load_more_start (some id) true dir s = (s, none)
load_more_start (some id) false dir s = request_more id dir (cursor_of dir s) s

abbrev no_more : Direction → State → State
no_more before s = record s { has_before = false; loading_more = false }
no_more after s = record s { has_after = false; loading_more = false }

unfoldable pub handle_reconcile_state_changed : String → String → State → State
handle_reconcile_state_changed guid state s = record s {
  entries = map (patch guid state) s.entries;
  all_entries = Option.map (map (patch guid state)) s.all_entries;
}

unfoldable pub refresh_current_page : Option String → String → State → State × Option Call
unfolding load_initial_start
refresh_current_page id today s = load_initial_start id today (some s.page_cursor) s

unfoldable pub handle_data_changed : Option String → String → State → State × Option Call
unfolding refresh_current_page
handle_data_changed id today s = refresh_current_page id today (record s { all_entries = none })

-- `handleDeleteTransaction` after its call; a failure only alerts.
unfoldable pub delete_transaction_done : Option String → String → Bool → State → State × Option Call
unfolding handle_data_changed
delete_transaction_done id today true s = handle_data_changed id today s
delete_transaction_done id today false s = (s, none)

unfoldable pub clear_search : State → State
clear_search s = record s { search = []; debounced_search = []; search_error = false }

-- The timer of the search box.
unfoldable pub debounce_fired : Text → State → State
debounce_fired text s = record s { debounced_search = text }

-- The effect that follows a change of the account.
unfoldable pub account_changed : State → State
account_changed s = record s {
  search = [];
  debounced_search = [];
  all_entries = none;
  search_error = false;
}

-- `debouncedSearch.trim() !== ''`
unfoldable pub is_searching : State → Bool
is_searching s = is_present (filter (λ c. not (is_space c)) s.debounced_search)

-- The effect that fetches the whole register for a search.
unfoldable pub search_start : Option String → State → State × Option Call
unfolding is_searching
search_start none s = (s, none)
search_start (some id) s = elim s.all_entries [
  | some all ↦ (s, none)
  | none ↦
      if is_searching s
      then (record s { search_loading = true; search_error = false }, some (load_register id))
      else (s, none)
]

unfoldable pub display_entries : (Text → Text) → (ℕ → Text) → State → List RegisterEntry
unfolding is_searching
display_entries lower to_fixed s =
    if is_searching s
    then filter_register_entries lower to_fixed (Option.get_or s.all_entries []) s.debounced_search
    else s.entries

module _ (locale_compare : String → String → Ordering) where
  abbrev merge_unique : Direction → List RegisterEntry → List RegisterEntry → List RegisterEntry
  merge_unique dir prev [] = prev
  merge_unique dir prev (e ∷ unique) =
      sort (compare_entries locale_compare) (join_entries dir (e ∷ unique) prev)

  -- The updater that `loadMore` hands to `setEntries`.
  unfoldable pub merge_entries :
      Direction → List RegisterEntry → List RegisterEntry → List RegisterEntry
  merge_entries dir prev new = merge_unique dir prev (unique_entries prev new)

  unfoldable pub load_initial_done : Option (Account × RegisterPage × List Account) → State → State
  load_initial_done none s = record s { loading = false }
  load_initial_done (some (acc, page, all)) s = record s {
    account = some acc;
    all_accounts = all;
    entries = sort (compare_entries locale_compare) page.entries;
    has_before = page.has_before;
    has_after = page.has_after;
    first_offset = some page.first_offset;
    last_offset = some page.last_offset;
    loading = false;
  }

  abbrev take_page : Direction → RegisterPage → State → State
  take_page before page s = record s {
    entries = merge_entries before s.entries page.entries;
    has_before = page.has_before;
    first_offset = some page.first_offset;
    loading_more = false;
  }
  take_page after page s = record s {
    entries = merge_entries after s.entries page.entries;
    has_after = page.has_after;
    last_offset = some page.last_offset;
    loading_more = false;
  }

  abbrev take_entries : Direction → List RegisterEntry → RegisterPage → State → State
  take_entries dir [] page s = no_more dir s
  take_entries dir (e ∷ new) page s = take_page dir page s

  -- `loadMore` after its call, with the `finally`.
  unfoldable pub load_more_done : Direction → Option RegisterPage → State → State
  load_more_done dir none s = record s { loading_more = false }
  load_more_done dir (some page) s = take_entries dir page.entries page s

  -- The answer; the effect's clean-up has set `cancelled` where its inputs have changed since.
  unfoldable pub search_done : Bool → Option (List RegisterEntry) → State → State
  search_done true answer s = s
  search_done false none s = record s { search_error = true; search_loading = false }
  search_done false (some all) s = record s {
    all_entries = some (sort (compare_entries locale_compare) all);
    search_loading = false;
  }

-- ===== src/Register/Tests.antt =====
-- Runs of the register's operations, and its theorems at concrete inputs.
use mathlib.Core.List.{map-append, Perm}
use mathlib.Core.List.Perm
use antimoney.Prelude.{
  ℕ, ◌≡◌, refl, arith, ◌⊎◌, ◌==◌, ◌↔◌, ◌&&◌, true, false, String, none, some, List, [], ◌∷◌, map,
  All, leb, ◌+◌, codes, compare_text, if◌then◌else◌,
}
use antimoney.Prelude.Int.{pos, negsuc, neg}
use antimoney.Prelude.Sorting.{sort}
use antimoney.Prelude.TextOrder.{compare_text-IsConsistent}
use antimoney.Server.Paging.{around_page}
use antimoney.Types.{Account, PlaidAccountMeta, bank, credit, RegisterEntry, RegisterPage}
use antimoney.Register.Order.{compare_entries}
use antimoney.Register.Search.{
  Text, tokenize, entry_haystack, entry_matches_query, filter_register_entries, matches_tokens,
  includes, join, split, is_space,
}
use antimoney.Register.Search.Laws.{Splits}
use antimoney.Register.Search.Words.{IsInField, entry_matches_query_iff}
use antimoney.Register.Page.{
  before, after, State, guids, page_size, load_initial_done, patch, merge_entries, display_entries,
  handle_reconcile_state_changed,
}
use antimoney.Register.Page.Queries.{load_all, load_all-perm}
use antimoney.Register.Table.{
  focus_index, handle_scroll, final_balance, deposit_cell, row_class, load_more,
}
use antimoney.Register.Table.Focus.{IsFocus, IsLater, focus_index_lem}
use antimoney.Register.Page.Patch.{display_entries-state_changed}
use antimoney.Register.Page.Invariant.{
  Event, more_started, more_done, state_changed, search_answered, IsValid, run, run-IsValid,
}

abbrev row : String → String → String → RegisterEntry
row guid date id = record {
  transaction_guid = guid;
  custom_id = id;
  post_date = date;
  description = "Rent May";
  transfer_account = "Tangerine";
  transfer_account_guid = "t";
  deposit = none;
  withdrawal = some (pos 720770);
  balance = pos 0;
  split_memo = "";
  split_guid = guid;
  reconcile_state = "n";
}

abbrev rows : List RegisterEntry
rows = row "b" "2026-05-02" "2" ∷ row "c" "2026-05-03" "1" ∷ []

abbrev older : List RegisterEntry
older = row "a" "2026-05-01" "9" ∷ row "b" "2026-05-02" "2" ∷ []

abbrev page : RegisterPage
page = record {
  entries = older;
  has_before = true;
  has_after = true;
  first_offset = 3;
  last_offset = 5;
  total_count = 9;
}

-- Lower case for the letters of ASCII.
abbrev lower_char : ℕ → ℕ
lower_char c = if leb b'A' c && leb c b'Z' then c + 32 else c

abbrev lower : Text → Text
lower = map lower_char

abbrev to_fixed : ℕ → Text
to_fixed n = n ∷ []

lower-Splits : Splits lower
lower-Splits a b = map-append lower_char a (32 ∷ b)

register : Unit {0}
unfolding merge_entries compare_entries filter_register_entries entry_matches_query matches_tokens
    tokenize entry_haystack includes join split is_space display_entries run sort
register = tt

older_page : guids (merge_entries compare_text before rows older) ≡ "a" ∷ "b" ∷ "c" ∷ []
unfolding register
older_page = refl

search_may : guids (filter_register_entries lower to_fixed rows (codes "MAY tang")) ≡ "b" ∷ "c" ∷ []
unfolding register
search_may = refl

search_none : filter_register_entries lower to_fixed rows (codes " may june ") ≡ []
unfolding register
search_none = refl

entry_matches_query_iff_example :
    (entry_matches_query lower to_fixed
        (row "b" "2026-05-02" "2")
        (join (codes "MAY" ∷ codes "tang" ∷ []))
      ≡ true)
    ↔ All (IsInField lower to_fixed (row "b" "2026-05-02" "2")) (codes "MAY" ∷ codes "tang" ∷ [])
unfolding is_space
entry_matches_query_iff_example =
    entry_matches_query_iff lower to_fixed lower-Splits refl (row "b" "2026-05-02" "2")
      (codes "MAY" ∷ codes "tang" ∷ [])
      (
        ((λ e. cc), (refl, (refl, (refl, tt)))),
        (((λ e. cc), (refl, (refl, (refl, (refl, tt))))), tt),
      )

abbrev start : State
start = record {
  account = none;
  all_accounts = [];
  entries = [];
  loading = true;
  loading_more = false;
  has_before = false;
  has_after = false;
  first_offset = none;
  last_offset = none;
  page_cursor = "2026-05-01";
  search = [];
  debounced_search = codes "rent";
  all_entries = none;
  search_loading = false;
  search_error = false;
}

abbrev events : List Event
events =
    more_started (some "acc") false before
    ∷ more_done before (some page)
    ∷ state_changed "b" "c"
    ∷ search_answered false (some rows)
    ∷ []

run-IsValid_example : IsValid compare_text (run compare_text events start)
run-IsValid_example =
    run-IsValid compare_text compare_text-IsConsistent events start
      (tt, ((refl, (refl, tt)), (tt, ((refl, (refl, tt)), tt))))
      (record { window = (tt, tt); cache = tt })

display_entries-state_changed_example :
    display_entries lower to_fixed (handle_reconcile_state_changed "b" "c" start)
    ≡ map (patch "b" "c") (display_entries lower to_fixed start)
display_entries-state_changed_example = display_entries-state_changed lower to_fixed "b" "c" start

abbrev account : Account
account = record {
  guid = "acc";
  name = "Checking";
  account_type = bank;
  parent_guid = none;
  placeholder = false;
  description = "";
  plaid = none;
  version = 1;
  balance = pos 0;
  reconciled_balance = pos 0;
  last_reconciled = none;
}

abbrev every_row : List RegisterEntry
every_row = row "a" "2026-05-01" "9" ∷ rows

-- the place of a row
abbrev key : RegisterEntry → ℕ
key e = if e.split_guid == "a" then 1 else if e.split_guid == "b" then 2 else 3

load_all-perm_example :
    let first =
      load_initial_done compare_text
        (some (account, around_page every_row 1 page_size, account ∷ []))
        start in
    let older = load_all compare_text "acc" (λ i. every_row) 1 before first in
    let last = load_all compare_text "acc" (λ i. every_row) 1 after older in
    Perm last.entries every_row × (last.has_before ≡ false) × (last.has_after ≡ false)
load_all-perm_example =
    load_all-perm compare_text "acc" key (λ i. every_row) account (account ∷ []) 1 1 start
      (λ i. Perm.refl every_row) (λ i. omega arith) (refl, (refl, (refl, tt))) (omega arith)
      (omega arith) (omega arith)

focus_index_lem_example :
    IsFocus (codes "2026-05-03") rows (focus_index (codes "2026-05-03") rows)
    ⊎ (All (IsLater (codes "2026-05-03")) rows × (focus_index (codes "2026-05-03") rows ≡ 0))
unfolding compare_entries
focus_index_lem_example =
    focus_index_lem (codes "2026-05-03") compare_text (row "b" "2026-05-02" "2")
      (row "c" "2026-05-03" "1" ∷ []) (refl, (refl, tt)) ((refl, tt), (tt, tt))

table : Unit {0}
unfolding focus_index handle_scroll final_balance deposit_cell row_class neg
table = tt

focuses_before : focus_index (codes "2026-05-04") rows ≡ 1
unfolding table
focuses_before = refl

focuses_day : focus_index (codes "2026-05-03") rows ≡ 1
unfolding table
focuses_day = refl

scrolls_up :
    handle_scroll true true true false (record { top = 40; height = 900; shown = 300 })
    ≡ load_more before ∷ []
unfolding table
scrolls_up = refl

no_scroll : handle_scroll true true true true (record { top = 40; height = 900; shown = 300 }) ≡ []
unfolding table
no_scroll = refl

shows_debt : final_balance (some credit) (negsuc 4999) ≡ pos 5000
unfolding table
shows_debt = refl

class_of_today :
    row_class (codes "2026-05-03") (codes "2026-05-03") true ≡ "hoverable-row" ∷ "row-today" ∷ []
unfolding table
class_of_today = refl

-- The days of the times that the example has.
abbrev day_in : String → String → String
day_in zone time = if time == "2026-06-10T13:00:00Z" then "2026-06-10" else "2026-06-09"

abbrev meta : PlaidAccountMeta
meta = record { item_guid = none; last_synced_at = none; institution_name = some "Bank" }

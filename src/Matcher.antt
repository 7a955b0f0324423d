-- ===== src/Matcher.antt =====
-- frontend/src/components/ImportMatcher.tsx: the review of the transactions that a bank sync
-- suggests, before they are imported.
--
-- A handler that waits for the server is two functions: up to the call, with what it sends, and
-- from the answer, `none` where the call fails.
pub mod Laws
mod Tests
use antimoney.Prelude.{
  ℕ, Bool, true, false, not, ◌&&◌, ◌||◌, ◌==◌, String, Option, none, some, List, [], ◌∷◌, ◌++◌, map,
  filter, all, length, ltb, modify, if◌then◌else◌,
}
use mathlib.Core.Option
use antimoney.Types.{Account, SyncSuggestion}

pub record Row : Type 0 where
  pub suggestion : SyncSuggestion
  pub category_guid : String
  pub included : Bool

pub data Error : Type 0 where
  dismiss_error import_error : Error
  import_interrupted : ℕ → Error
  import_partial : (imported failed : ℕ) → Error

pub record State : Type 0 where
  pub rows : List Row
  pub accounts : List Account
  pub importing : Bool
  pub dismissing : Option String
  pub error : Option Error

-- One row of what `plaidImport` sends, and its answer.
pub record ImportRow : Type 0 where
  pub transaction_id : String
  pub category_account_guid : String

pub record ImportResult : Type 0 where
  pub imported : ℕ
  pub failed : Option (List String)
  pub error : Option String

-- The accounts come as trees.
mutual
  pub data Nested : Type 0 where
    nested : Account → Nests → Nested

  pub data Nests : Type 0 where
    nil : Nests
    cons : Nested → Nests → Nests

-- `flatten`
unfoldable mutual
  pub flatten_one : Nested → List Account
  flatten_one (nested a children) = a ∷ flatten children

  pub flatten : Nests → List Account
  flatten nil = []
  flatten (cons n ns) = flatten_one n ++ flatten ns

abbrev pub initial_row : SyncSuggestion → Row
initial_row s = record {
  suggestion = s;
  category_guid = Option.get_or s.suggested_category_guid "";
  included = true;
}

unfoldable pub initial : List SyncSuggestion → State
initial suggestions = record {
  rows = map initial_row suggestions;
  accounts = [];
  importing = false;
  dismissing = none;
  error = none;
}

unfoldable pub accounts_done : Nests → State → State
unfolding flatten
accounts_done ns s = record s { accounts = filter (λ a. not a.placeholder) (flatten ns) }

unfoldable pub dismiss_start : String → State → State × List String
dismiss_start id s = (record s { dismissing = some id; error = none }, id ∷ [])

abbrev pub is_other : String → Row → Bool
is_other id row = not (row.suggestion.transaction_id == id)

unfoldable pub dismiss_done : String → Bool → State → State
dismiss_done id true s = record s { rows = filter (is_other id) s.rows; dismissing = none }
dismiss_done id false s = record s { error = some dismiss_error; dismissing = none }

unfoldable pub set_category : ℕ → String → State → State
set_category idx guid s = record s {
  rows = modify idx (λ row. record row { category_guid = guid }) s.rows;
}

abbrev pub flip_row : Row → Row
flip_row row = record row { included = not row.included }

unfoldable pub toggle_included : ℕ → State → State
toggle_included idx s = record s { rows = modify idx flip_row s.rows }

abbrev pub included_rows : State → List Row
included_rows s = filter (λ row. row.included) s.rows

abbrev pub is_categorized : Row → Bool
is_categorized row = not (row.category_guid == "")

unfoldable pub all_categorized : State → Bool
all_categorized s = all is_categorized (included_rows s)

abbrev pub import_row : Row → ImportRow
import_row row = record {
  transaction_id = row.suggestion.transaction_id;
  category_account_guid = row.category_guid;
}

unfoldable pub confirm_start : State → State × Option (List ImportRow)
unfolding all_categorized
confirm_start s =
    if all_categorized s
    then (record s { importing = true; error = none }, some (map import_row (included_rows s)))
    else (s, none)

-- `if (result.error)`, and the test of `result.failed`
abbrev pub is_interrupted : ImportResult → Bool
is_interrupted r = elim r.error [ none ↦ false | some e ↦ not (e == "") ]

abbrev pub count_failed : ImportResult → ℕ
count_failed r = elim r.failed [ none ↦ 0 | some ids ↦ length ids ]

abbrev pub any_failed : ImportResult → Bool
any_failed r = ltb 0 (count_failed r)

-- The answer; the second part is the argument of `onImported`, where that is called.
unfoldable pub confirm_done : Option ImportResult → State → State × Option ℕ
confirm_done none s = (record s { error = some import_error; importing = false }, none)
confirm_done (some r) s =
    if is_interrupted r
    then (record s { error = some (import_interrupted r.imported); importing = false }, none)
    else if any_failed r
    then (
      record s { error = some (import_partial r.imported (count_failed r)); importing = false },
      none,
    )
    else (record s { importing = false }, some r.imported)

-- The buttons.
abbrev pub is_empty : List Row → Bool
is_empty [] = true
is_empty (_ ∷ _) = false

unfoldable pub can_confirm : State → Bool
unfolding all_categorized
can_confirm s = not (s.importing || not (all_categorized s) || is_empty (included_rows s))

abbrev dismisses : Option String → String → Bool
dismisses none id = false
dismisses (some other) id = other == id

unfoldable pub can_dismiss : String → State → Bool
can_dismiss id s = not (s.importing || dismisses s.dismissing id)

-- The categories that a row offers.
unfoldable pub category_options : Row → State → List Account
category_options row s = filter (λ a. not (a.guid == row.suggestion.bank_account_guid)) s.accounts

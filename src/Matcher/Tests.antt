-- ===== src/Matcher/Tests.antt =====
-- A review, and the theorems on it.
use antimoney.Prelude.{◌≡◌, refl, true, String, Option, none, some, List, [], ◌∷◌}
use antimoney.Prelude.Int.{pos}
use antimoney.Types.{SyncSuggestion}
use antimoney.Matcher.{
  State, ImportRow, ImportResult, initial, set_category, toggle_included, confirm_start,
  all_categorized, can_confirm,
}

abbrev suggestion : String → Option String → SyncSuggestion
suggestion id category = record {
  transaction_id = id;
  date = "2026-05-01";
  description = id;
  amount_num = pos 1234;
  amount_denom = 100;
  bank_account_guid = "bank";
  bank_account_name = "Checking";
  suggested_category_guid = category;
  suggested_category_name = none;
}

-- One suggestion has a category; the other gets none, and is left out of the import.
abbrev review : State
review = initial (suggestion "t1" (some "food") ∷ suggestion "t2" none ∷ [])

abbrev checked : State
checked = toggle_included 1 review

review_runs : Unit {0}
unfolding initial toggle_included set_category confirm_start all_categorized can_confirm
review_runs = tt

asks_for_category : (confirm_start review).1 ≡ none
unfolding review_runs
asks_for_category = refl

abbrev payload : List ImportRow
payload = record { transaction_id = "t1"; category_account_guid = "food" } ∷ []

sends_included : (confirm_start checked).1 ≡ some payload
unfolding review_runs
sends_included = refl

enabled : can_confirm checked ≡ true
unfolding review_runs
enabled = refl

abbrev partial : ImportResult
partial = record { imported = 1; failed = some ("t2" ∷ []); error = none }

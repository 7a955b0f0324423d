-- ===== src/Server/Books/SubmittedTests.antt =====
-- frontend/src/components/TransactionForm.tsx with transaction_service.go: a form of two rows.
use antimoney.Prelude.{
  ◌≡◌, ◌≢◌, refl, true, false, String, ℕ, Option, none, some, [], ◌∷◌, filter, eqb, if◌then◌else◌,
}
use antimoney.Prelude.Int.{pos, negsuc, neg, ◌+ℤ◌}
use antimoney.Types.{Amount, SplitRequest, CreateTransactionRequest}
use antimoney.Register.Search.{Text}
use antimoney.Editor.{
  Numbers, State, SplitInput, handle_submit, is_balanced, total, evaluate_math, sanitize,
  first_comma, to_fixed, round_cents, parse_splits, lacks_account,
}
use antimoney.Server.Books.{ok, failed, unbalanced, valid_splits, auto_balance}
use antimoney.Server.Books.Requests.{update_transaction}
use antimoney.Server.Books.Cents.{has_value}
use antimoney.Server.Books.Submitted.{IsTyped, handle_submit_accepted}
use antimoney.Server.Books.Tests.{store, ids}

-- A browser that knows two numbers, written 1 and 2: 0.02 and -0.02.
abbrev number_of : Text → Option Amount
number_of [] = none
number_of (c ∷ s) = if eqb c 49 then some (pos 20) else some (negsuc 19)

abbrev text_of : Amount → Text
text_of (pos k) = 49 ∷ []
text_of (negsuc k) = 50 ∷ []

abbrev numbers : Numbers
numbers = record {
  parse = number_of;
  show = text_of;
  quotient = λ a b. a;
  run = number_of;
  trim = λ s. s;
  noon = λ s. s;
}

abbrev row : String → ℕ → SplitInput
row guid c = record { account_guid = guid; amount = c ∷ []; memo = "" }

abbrev form : State
form = record {
  description = "";
  custom_id = "";
  post_date = "2024-01-02";
  splits = row "cash" 49 ∷ row "food" 50 ∷ [];
  initial_splits = [];
  accounts = [];
  error = none;
  loading = false;
}

abbrev request : String → Amount → SplitRequest
request guid value = record {
  account_guid = guid;
  memo = "";
  value_num = value;
  value_denom = 100;
  quantity_num = value;
  quantity_denom = 100;
}

abbrev payload : CreateTransactionRequest
payload = record {
  custom_id = "";
  post_date = "2024-01-02";
  description = "";
  splits = request "cash" (pos 2) ∷ request "food" (negsuc 1) ∷ [];
}

sends : (handle_submit numbers form).1 ≡ some payload
unfolding handle_submit evaluate_math sanitize first_comma to_fixed round_cents parse_splits
    lacks_account neg
sends = refl

balances : is_balanced numbers form ≡ true
unfolding is_balanced total first_comma ◌+ℤ◌
balances = refl

row-IsTyped_first : IsTyped numbers (row "cash" 49)
unfolding evaluate_math sanitize first_comma to_fixed neg
row-IsTyped_first = IsTyped.typed (pos 2) refl refl refl

row-IsTyped_second : IsTyped numbers (row "food" 50)
unfolding evaluate_math sanitize first_comma to_fixed neg
row-IsTyped_second = IsTyped.typed (negsuc 1) refl refl refl

handle_submit_accepted_example :
    (valid_splits payload.splits ≡ ok (filter has_value payload.splits))
    × (auto_balance ids "book" store (filter has_value payload.splits)
        ≡ ok (store, filter has_value payload.splits))
    × (update_transaction (λ d. d) ids "book" "tx" payload store ≢ failed unbalanced)
handle_submit_accepted_example =
    handle_submit_accepted numbers form payload (λ d. d) ids "book" "tx" store sends balances
      (row-IsTyped_first, (row-IsTyped_second, tt))

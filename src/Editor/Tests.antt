-- ===== src/Editor/Tests.antt =====
-- Runs of the form, and its theorems at concrete inputs, where the browser's numbers are those
-- of a small decimal notation: a sign and digits of thousandths.
use antimoney.Prelude.{
  ℕ, zero, suc, ◌≡◌, ◌≢◌, refl, ap, eqb, if◌then◌else◌, true, false, String, Option, none, some, [],
  ◌∷◌, map, filter, All, arith,
}
use antimoney.Prelude.Int.{pos, negsuc, neg}
use antimoney.Types.{
  Amount, Account, bank, Split, Transaction, SplitRequest, CreateTransactionRequest,
}
use antimoney.Register.Search.{Text}
use antimoney.Editor.{
  State, SplitInput, Numbers, read, total, initial, set_amount, set_amounts, loaded, load_done,
  projected_balance, handle_submit, is_filled, parse_split, parse_splits, lacks_account,
  evaluate_math, sanitize, first_comma, to_fixed, round_cents,
}
use antimoney.Editor.Balance.{AreLinked, set_amount-AreLinked}
use antimoney.Editor.Submit.{handle_submit_sends}
use antimoney.Editor.Projected.{ArePlain, projected_balance-load_done}

-- A number is printed in unary: a sign and one digit for each unit.
abbrev ones : ℕ → Text
ones zero = []
ones (suc k) = 49 ∷ ones k

abbrev printed : Amount → Text
printed (pos k) = 43 ∷ ones k
printed (negsuc k) = 45 ∷ ones k

abbrev count : Text → ℕ
count [] = 0
count (c ∷ s) = suc (count s)

abbrev parsed_text : Text → Option Amount
parsed_text [] = none
parsed_text (c ∷ s) =
    if eqb c 43 then some (pos (count s)) else if eqb c 45 then some (negsuc (count s)) else none

abbrev numbers : Numbers
numbers = record {
  parse = parsed_text;
  show = printed;
  quotient = λ a b. a;
  run = parsed_text;
  trim = λ s. s;
  noon = λ s. s;
}

first_comma-ones : (k : ℕ) → first_comma (ones k) ≡ ones k
unfolding first_comma
first_comma-ones zero = refl
first_comma-ones (suc k) = ap (◌∷◌ 49) (first_comma-ones k)

count-ones : (k : ℕ) → count (ones k) ≡ k
count-ones zero = refl
count-ones (suc k) = ap suc (count-ones k)

reads_shown : (x : Amount) → read numbers (printed x) ≡ some x
unfolding first_comma
reads_shown (pos k) = rw (first_comma-ones k, count-ones k) refl
reads_shown (negsuc k) = rw (first_comma-ones k, count-ones k) refl

abbrev form : State
form = initial "bank" "2026-05-01" false

typed_seven :
    (set_amount numbers 0 (printed (pos 7)) form).splits
    ≡ record { account_guid = "bank"; amount = printed (pos 7); memo = "" }
      ∷ record { account_guid = ""; amount = printed (negsuc 6); memo = "" }
      ∷ []
unfolding set_amount set_amounts initial neg first_comma
typed_seven = refl

set_amount-AreLinked_example :
    (total numbers (set_amount numbers 1 (printed (negsuc 4)) form).splits ≡ pos 0)
    × AreLinked numbers (set_amount numbers 1 (printed (negsuc 4)) form).splits
unfolding initial
set_amount-AreLinked_example =
    set_amount-AreLinked numbers 1 (printed (negsuc 4)) (negsuc 4) form reads_shown (omega arith)
      (refl, refl) (reads_shown (negsuc 4))

-- One filled split with an account, one with none, and one that is empty.
abbrev filled : String → SplitInput
filled guid = record { account_guid = guid; amount = printed (pos 20); memo = "" }

abbrev ready : State
ready = record form { splits = filled "bank" ∷ filled "food" ∷ [] }

abbrev request : String → SplitRequest
request guid = record {
  account_guid = guid;
  memo = "";
  value_num = pos 2;
  value_denom = 100;
  quantity_num = pos 2;
  quantity_denom = 100;
}

abbrev payload : CreateTransactionRequest
payload = record {
  custom_id = "";
  post_date = "2026-05-01";
  description = "";
  splits = request "bank" ∷ request "food" ∷ [];
}

sends : (handle_submit numbers ready).1 ≡ some payload
unfolding handle_submit initial evaluate_math sanitize first_comma to_fixed round_cents parse_splits
    lacks_account
sends = refl

handle_submit_sends_example :
    (map (parse_split numbers) (filter (is_filled numbers) ready.splits) ≡ map some payload.splits)
    × All (λ x. x.account_guid ≢ "") payload.splits
    × (payload.splits ≢ [])
    × ((handle_submit numbers ready).0.error ≡ none)
handle_submit_sends_example = handle_submit_sends numbers ready payload sends

abbrev unready : State
unready = record form { splits = filled "" ∷ [] }

refuses : (handle_submit numbers unready).1 ≡ none
unfolding handle_submit initial evaluate_math sanitize first_comma to_fixed round_cents parse_splits
    lacks_account
refuses = refl

abbrev split : String → Amount → Split
split guid v = record {
  guid = guid;
  tx_guid = "tx";
  account_guid = guid;
  memo = "";
  value_num = v;
  value_denom = 100;
  quantity_num = v;
  quantity_denom = 100;
  reconcile_state = "n";
  account_name = none;
}

abbrev transaction : Transaction
transaction = record {
  guid = "tx";
  custom_id = "";
  post_date = "2026-05-01";
  enter_date = "2026-05-01";
  description = "";
  version = 1;
  splits = split "bank" (pos 20) ∷ split "food" (negsuc 19) ∷ [];
}

abbrev checking : Account
checking = record {
  guid = "bank";
  name = "Checking";
  account_type = bank;
  parent_guid = none;
  placeholder = false;
  description = "";
  plaid = none;
  version = 1;
  balance = pos 500;
  reconciled_balance = pos 0;
  last_reconciled = none;
}

plain : ArePlain numbers transaction.splits
unfolding sanitize first_comma to_fixed neg
plain = (
  record { reads = refl; runs = refl; cents = refl },
  (record { reads = refl; runs = refl; cents = refl }, tt),
)

projected_balance-load_done_example :
    projected_balance numbers (load_done numbers true (λ s. s) (loaded transaction) form) checking
    ≡ pos 500
projected_balance-load_done_example =
    projected_balance-load_done numbers (λ s. s) transaction form checking plain (λ e. cc)

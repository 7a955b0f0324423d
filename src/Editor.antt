-- ===== src/Editor.antt =====
-- frontend/src/components/TransactionForm.tsx: the form of a transaction.
--
-- An amount is typed as a text, the list of its code points. JavaScript's numbers and their
-- texts are parameters (`Numbers`): `parseFloat`, `toString`, the quotient of two numbers and
-- the arithmetic that `new Function` evaluates, `none` for what is not a finite number. The
-- requests of the form are two functions: up to the call, and from the answer.
mod Amounts
pub mod Balance
pub mod Submit
pub mod Projected
mod Controls
mod Tests
unfoldable pub use Amounts.*
use antimoney.Prelude.{
  ℕ, zero, suc, Bool, true, false, not, ◌&&◌, ◌||◌, ◌==◌, String, Option, none, some, List, [], ◌∷◌,
  ◌++◌, map, filter, length, eqb, ltb, modify, erase_at, get_elem?, if◌then◌else◌,
}
use antimoney.Prelude.Int.{ℤ, pos, neg, ◌+ℤ◌, ◌-ℤ◌}
use antimoney.Types.{
  Amount, is_zero, Account, is_root, signed, Split, Transaction, SplitRequest,
  CreateTransactionRequest,
}
use antimoney.Register.Search.{Text}

pub record SplitInput : Type 0 where
  pub account_guid : String
  pub amount : Text
  pub memo : String

pub data Error : Type 0 where
  invalid_amount select_account create_error : Error
  message : String → Error

-- The answer to the request for a transaction.
pub data Answer : Type 0 where
  failed : String → Answer
  loaded : Transaction → Answer

pub record State : Type 0 where
  pub description : String
  pub custom_id : String
  pub post_date : String
  pub splits : List SplitInput
  pub initial_splits : List (String × Amount)
  pub accounts : List Account
  pub error : Option Error
  pub loading : Bool

abbrev pub empty_split : String → SplitInput
empty_split guid = record { account_guid = guid; amount = []; memo = "" }

-- The form at first: `waits` where a transaction is to be edited or duplicated.
unfoldable pub initial : String → String → Bool → State
initial default_account today waits = record {
  description = "";
  custom_id = "";
  post_date = today;
  splits = empty_split default_account ∷ empty_split "" ∷ [];
  initial_splits = [];
  accounts = [];
  error = none;
  loading = waits;
}

-- The accounts that can be chosen.
unfoldable pub accounts_done : List Account → State → State
accounts_done accounts s = record s {
  accounts = filter (λ a. not a.placeholder && not (is_root a.account_type)) accounts;
}

-- `initMap[k] = (initMap[k] || 0) + x`
unfoldable pub add_to : String → Amount → List (String × Amount) → List (String × Amount)
add_to k x [] = (k, x) ∷ []
add_to k x ((j, y) ∷ m) = if j == k then (j, y +ℤ x) ∷ m else (j, y) ∷ add_to k x m

-- `initialSplitsMap[k] || 0`
unfoldable pub original : String → List (String × Amount) → Amount
original k [] = pos 0
original k ((j, y) ∷ m) = if j == k then y else original k m

unfoldable pub add_split : State → State
add_split s = record s { splits = s.splits ++ (empty_split "" ∷ []) }

unfoldable pub remove_split : ℕ → State → State
remove_split index s = record s { splits = erase_at index s.splits }

unfoldable pub set_account : ℕ → String → State → State
set_account index guid s = record s {
  splits = modify index (λ x. record x { account_guid = guid }) s.splits;
}

unfoldable pub set_memo : ℕ → String → State → State
set_memo index memo s = record s { splits = modify index (λ x. record x { memo = memo }) s.splits }

abbrev pub with_amount : Text → SplitInput → SplitInput
with_amount value x = record x { amount = value }

-- `amount === ''`, and `value === '' || value === '-'`
abbrev pub is_blank : Text → Bool
is_blank [] = true
is_blank (_ ∷ _) = false

abbrev pub is_cleared : Text → Bool
is_cleared [] = true
is_cleared (c ∷ []) = eqb c 45
is_cleared (c ∷ d ∷ s) = false

unfoldable pub lacks_account : List SplitRequest → Bool
lacks_account [] = false
lacks_account (x ∷ xs) = x.account_guid == "" || lacks_account xs

module _ (n : Numbers) where
  -- `parseFloat(s.replace(',', '.'))`
  abbrev pub read : Text → Option Amount
  read s = n.parse (first_comma s)

  abbrev read_or_zero : Option Amount → Amount
  read_or_zero none = pos 0
  read_or_zero (some x) = x

  -- `parsedOld + parsedOther === 0`, where both are numbers.
  abbrev pub mirrors : Option Amount → Option Amount → Bool
  mirrors none o = false
  mirrors (some x) none = false
  mirrors (some x) (some y) = is_exactly_zero (x +ℤ y)

  -- The other amount, once this one has become `value`.
  abbrev pub mirrored : Option Amount → Text → Text → Text
  mirrored (some x) value other = n.show (neg x)
  mirrored none value other = if is_cleared value then [] else other

  abbrev pub follows : SplitInput → SplitInput → Bool
  follows this other = is_blank other.amount || mirrors (read this.amount) (read other.amount)

  abbrev pub other_amount : SplitInput → SplitInput → Text → SplitInput
  other_amount this other value =
      if follows this other
      then with_amount (mirrored (read value) value other.amount) other
      else other

  -- `updateSplit(index, 'amount', value)` on the splits.
  unfoldable pub set_amounts : ℕ → Text → List SplitInput → List SplitInput
  set_amounts zero value (a ∷ b ∷ []) = with_amount value a ∷ other_amount a b value ∷ []
  set_amounts (suc zero) value (a ∷ b ∷ []) = other_amount b a value ∷ with_amount value b ∷ []
  set_amounts index value splits = modify index (with_amount value) splits

  unfoldable pub set_amount : ℕ → Text → State → State
  set_amount index value s = record s { splits = set_amounts index value s.splits }

  -- `handleAmountBlur`
  abbrev blurred : ℕ → Option SplitInput → State → State
  blurred index none s = s
  blurred index (some x) s =
      if is_blank x.amount || same_text (evaluate_math n x.amount) x.amount
      then s
      else set_amount index (evaluate_math n x.amount) s

  unfoldable pub handle_amount_blur : ℕ → State → State
  handle_amount_blur index s = blurred index (get_elem? s.splits index) s

  -- `total` and `isBalanced`
  unfoldable pub total : List SplitInput → Amount
  total [] = pos 0
  total (x ∷ xs) = read_or_zero (read x.amount) +ℤ total xs

  unfoldable pub is_balanced : State → Bool
  is_balanced s = is_zero (total s.splits)

  -- `s.value_num / (s.value_denom || 1)`
  abbrev pub split_value : Split → Amount
  split_value x = n.quotient x.value_num (if eqb x.value_denom 0 then 1 else x.value_denom)

  unfoldable pub initial_map : List Split → List (String × Amount) → List (String × Amount)
  initial_map [] m = m
  initial_map (x ∷ xs) m =
      initial_map xs (if x.account_guid == "" then m else add_to x.account_guid (split_value x) m)

  abbrev pub input_of : Split → SplitInput
  input_of x = record {
    account_guid = x.account_guid;
    amount = n.show (split_value x);
    memo = x.memo;
  }

  -- The transaction has arrived, for an edit or for a duplicate; `day` is the date's part before
  -- the T.
  unfoldable pub load_done : Bool → (String → String) → Answer → State → State
  load_done edits day (failed why) s = record s { error = some (message why); loading = false }
  load_done edits day (loaded tx) s = record s {
    description = tx.description;
    custom_id = if edits then tx.custom_id else "";
    post_date = day tx.post_date;
    splits = map input_of tx.splits;
    initial_splits = if edits then initial_map tx.splits [] else [];
    loading = false;
  }

  -- The balance that the form projects for an account.
  abbrev pub amount_now : Text → Amount
  amount_now s = read_or_zero (read (evaluate_math n s))

  unfoldable pub total_for : String → List SplitInput → Amount
  total_for guid [] = pos 0
  total_for guid (x ∷ xs) =
      if x.account_guid == guid then amount_now x.amount +ℤ total_for guid xs else total_for guid xs

  unfoldable pub projected_balance : State → Account → Amount
  projected_balance s a =
      signed a.account_type
        (a.balance -ℤ original a.guid s.initial_splits +ℤ total_for a.guid s.splits)

  -- `handleSubmit`: `s.account_guid !== '' || s.amount.trim() !== ''`
  abbrev pub is_filled : SplitInput → Bool
  is_filled x = not (x.account_guid == "") || not (is_blank (n.trim x.amount))

  abbrev pub parsed : SplitInput → Option Amount → Option SplitRequest
  parsed x none = none
  parsed x (some v) = some (record {
    account_guid = x.account_guid;
    memo = x.memo;
    value_num = round_cents v;
    value_denom = 100;
    quantity_num = round_cents v;
    quantity_denom = 100;
  })

  abbrev pub parse_split : SplitInput → Option SplitRequest
  parse_split x = parsed x (read (evaluate_math n x.amount))

  -- The splits, unless one of them is `null`.
  abbrev both : Option SplitRequest → Option (List SplitRequest) → Option (List SplitRequest)
  both none rest = none
  both (some x) none = none
  both (some x) (some xs) = some (x ∷ xs)

  unfoldable pub parse_splits : List SplitInput → Option (List SplitRequest)
  parse_splits [] = some []
  parse_splits (x ∷ xs) = both (parse_split x) (parse_splits xs)

  abbrev pub payload_of : State → List SplitRequest → CreateTransactionRequest
  payload_of s splits = record {
    custom_id = s.custom_id;
    post_date = n.noon s.post_date;
    description = s.description;
    splits = splits;
  }

  abbrev submitted : State → Option (List SplitRequest) → State × Option CreateTransactionRequest
  submitted s none = (record s { error = some invalid_amount }, none)
  submitted s (some splits) =
      if lacks_account splits
      then (record s { error = some select_account }, none)
      else (record s { error = none; loading = true }, some (payload_of s splits))

  -- Up to the request, with what is sent, if anything is.
  unfoldable pub handle_submit : State → State × Option CreateTransactionRequest
  handle_submit s =
      let filled = filter is_filled s.splits in
      if ltb (length filled) 1
      then (record s { error = some invalid_amount }, none)
      else submitted s (parse_splits filled)

-- The answer: whether the form closes, and what it shows otherwise.
unfoldable pub submit_done : Option Error → State → State × Bool
submit_done none s = (record s { loading = false }, true)
submit_done (some e) s = (record s { error = some e; loading = false }, false)

-- ===== src/Server/Books.antt =====
-- backend/internal/services/transaction_service.go: how the server keeps the transactions of
-- its books: the tables, and what becomes of the splits of a request. Server/Books/Requests has
-- the requests.
--
-- The tables are lists of rows. The book of the signed-in user is an argument; the ids that the
-- server draws are given by `Ids`. An error of the database, which undoes everything, is left out.
pub mod Requests
pub mod Balanced
mod Written
mod Cents
pub mod Submitted
pub mod Kept
pub mod Marked
mod Tests
mod SubmittedTests
use antimoney.Prelude.{
  ℕ, zero, suc, ◌+◌, Bool, true, false, not, ◌&&◌, ◌||◌, ◌==◌, String, Option, none, some, List, [],
  ◌∷◌, ◌++◌, map, filter, find, any, length, contains, eqb, ltb, if◌then◌else◌,
}
use antimoney.Prelude.Int.{ℤ, pos}
use antimoney.Types.{Split, SplitRequest, CreateTransactionRequest}
use antimoney.Editor.{is_exactly_zero}
use antimoney.Server.Numeric.{Numeric, negated, sum}

pub record AccountRow : Type 0 where
  pub guid : String
  pub book_guid : String
  pub name : String
  pub placeholder : Bool

pub record TxRow : Type 0 where
  pub guid : String
  pub custom_id : String
  pub book_guid : String
  pub post_date : String
  pub description : String
  pub version : ℕ
  pub splits : List Split

-- The tables; of a book only whether it has a root account.
pub record Store : Type 0 where
  pub books : List String
  pub accounts : List AccountRow
  pub transactions : List TxRow

-- What the server draws: the ids of a transaction, of its splits and of an account.
pub record Ids : Type 0 where
  pub tx : String
  pub split : ℕ → String
  pub account : String

pub data Failure : Type 0 where
  invalid_split unbalanced too_few placeholder_account unknown_account no_root not_found : Failure
  invalid_state : Failure

pub data Result {ℓ} (A : Type ℓ) : Type ℓ where
  ok : A → Result A
  failed : Failure → Result A

infixl 20 ◌>>=◌
abbrev ◌>>=◌ {ℓ κ} : {A : Type ℓ} {B : Type κ} → Result A → (A → Result B) → Result B
ok a >>= f = f a
failed e >>= f = failed e

abbrev pub kept : SplitRequest → Result (List SplitRequest) → Result (List SplitRequest)
kept x rest = rest >>= λ xs. ok (x ∷ xs)

-- The splits without those whose value is zero, of which nothing is asked.
unfoldable pub valid_splits : List SplitRequest → Result (List SplitRequest)
valid_splits [] = ok []
valid_splits (x ∷ xs) =
    let rest = valid_splits xs in
    if is_exactly_zero x.value_num
    then rest
    else if eqb x.value_denom 0 || eqb x.quantity_denom 0
    then failed invalid_split
    else kept x rest

abbrev pub value_of : SplitRequest → Numeric
value_of x = record { num = x.value_num; denom = x.value_denom }

abbrev pub request_sum : List SplitRequest → Numeric
request_sum xs = sum (map value_of xs)

-- The account `Imbalance` of the book, which is added where there is none.
abbrev new_imbalance : Ids → String → AccountRow
new_imbalance ids book = record {
  guid = ids.account;
  book_guid = book;
  name = "Imbalance";
  placeholder = false;
}

abbrev pub imbalance_in : Ids → String → Store → Option AccountRow → Result (Store × String)
imbalance_in ids book s (some a) = ok (s, a.guid)
imbalance_in ids book s none =
    if contains book s.books
    then ok (record s { accounts = s.accounts ++ (new_imbalance ids book ∷ []) }, ids.account)
    else failed no_root

unfoldable pub imbalance_account : Ids → String → Store → Result (Store × String)
imbalance_account ids book s =
    imbalance_in ids book s (find (λ a. a.book_guid == book && a.name == "Imbalance") s.accounts)

abbrev pub balancing_split : String → Numeric → SplitRequest
balancing_split account x = record {
  account_guid = account;
  memo = "Auto-balancing split";
  value_num = x.num;
  value_denom = x.denom;
  quantity_num = x.num;
  quantity_denom = x.denom;
}

abbrev pub add_balancing :
    Numeric → List SplitRequest → Store × String → Result (Store × List SplitRequest)
add_balancing total xs (s, account) = ok (s, xs ++ (balancing_split account (negated total) ∷ []))

-- The splits with one more where they do not sum to zero.
unfoldable pub auto_balance :
    Ids → String → Store → List SplitRequest → Result (Store × List SplitRequest)
auto_balance ids book s xs =
    if is_exactly_zero (request_sum xs).num
    then ok (s, xs)
    else (imbalance_account ids book s >>= add_balancing (request_sum xs) xs)

abbrev pub account_check : Option AccountRow → Result Bool
account_check none = failed unknown_account
account_check (some a) = if a.placeholder then failed placeholder_account else ok true

-- Every split is in an account of the book that is no placeholder.
unfoldable pub check_accounts : String → List AccountRow → List SplitRequest → Result Bool
check_accounts book accounts [] = ok true
check_accounts book accounts (x ∷ xs) =
    account_check (find (λ a. a.guid == x.account_guid && a.book_guid == book) accounts) >>= λ _.
    check_accounts book accounts xs

-- The rows of the splits; a new one is not reconciled.
unfoldable pub split_rows : Ids → String → ℕ → List SplitRequest → List Split
split_rows ids tx i [] = []
split_rows ids tx i (x ∷ xs) =
    record {
      guid = ids.split i;
      tx_guid = tx;
      account_guid = x.account_guid;
      memo = x.memo;
      value_num = x.value_num;
      value_denom = x.value_denom;
      quantity_num = x.quantity_num;
      quantity_denom = x.quantity_denom;
      reconcile_state = "n";
      account_name = none;
    }
    ∷ split_rows ids tx (suc i) xs

-- `ErrTooFewSplits`
abbrev pub enough : List SplitRequest → Result Bool
enough xs = if ltb (length xs) 2 then failed too_few else ok true

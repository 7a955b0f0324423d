-- ===== src/Api.antt =====
-- frontend/src/api/client.ts: the requests of the client.
--
-- A path follows `/api`; the ids in it are not encoded, as in the source. The query of a request
-- is the list of its parameters, before `URLSearchParams` encodes it.
pub mod Banks
mod Tests
use antimoney.Prelude.{
  ℕ, Bool, String, Option, none, some, List, [], ◌∷◌, ◌++◌, map, codes, ◌==◌, if◌then◌else◌,
}
use antimoney.Prelude.Int.{ℤ, pos}
use antimoney.Types.{CreateTransactionRequest, SplitRequest}

abbrev pub Text : Type 0
Text = List ℕ

pub data Method : Type 0 where
  get post put patch delete : Method

-- What `JSON.stringify` is given: an object's fields stand in order.
mutual
  pub data Json : Type 0 where
    null : Json
    text : String → Json
    number : ℤ → Json
    bool : Bool → Json
    array : Items → Json
    object : Fields → Json

  pub data Items : Type 0 where
    end : Items
    item : Json → Items → Items

  pub data Fields : Type 0 where
    close : Fields
    field : String → Json → Fields → Fields

pub record Request : Type 0 where
  pub method : Method
  pub path : Text
  pub query : List (String × Text)
  pub body : Option Json

abbrev read : Text → Request
read path = record { method = get; path = path; query = []; body = none }

abbrev send : Method → Text → Json → Request
send method path body = record { method = method; path = path; query = []; body = some body }

abbrev bare : Method → Text → Request
bare method path = record { method = method; path = path; query = []; body = none }

-- `/kind/id` and `/kind/id/action`
abbrev under : String → String → Text
under kind id = codes kind ++ codes id

abbrev under_action : String → String → String → Text
under_action kind id action = codes kind ++ (codes id ++ codes action)

abbrev items {ℓ} : {A : Type ℓ} → (A → Json) → List A → Items
items f [] = end
items f (x ∷ xs) = item (f x) (items f xs)

abbrev texts : List String → Json
texts l = array (items text l)

abbrev optional : Option String → Json
optional none = null
optional (some s) = text s

-- A parameter that is left out where it is missing or empty.
abbrev param_if : String → Option String → List (String × Text)
param_if name none = []
param_if name (some s) = if s == "" then [] else (name, codes s) ∷ []

abbrev pub get_accounts : Option String → Option String → Request
get_accounts start end_day = record (read (codes "/accounts")) {
  query = param_if "start" start ++ param_if "end" end_day;
}

abbrev pub get_account : String → Request
get_account id = read (under "/accounts/" id)

abbrev pub get_account_register : String → Request
get_account_register id = read (under_action "/accounts/" id "/register")

-- `digits` is `String` of a number.
abbrev pub get_account_register_paged : (ℕ → Text) → String → Text → String → ℕ → Request
get_account_register_paged digits id cursor direction limit =
    record (read (under_action "/accounts/" id "/register")) {
      query =
          ("cursor_date", cursor) ∷ ("direction", codes direction) ∷ ("limit", digits limit) ∷ [];
    }

abbrev pub create_account : String → String → Option String → Bool → String → Request
create_account name ty parent placeholder description = send post (codes "/accounts") (
    object (
      field "name" (text name) (
        field "account_type" (text ty) (
          field "parent_guid" (optional parent) (
            field "placeholder" (bool placeholder)
              (field "description" (text description) close))))))

-- The fields that are to be changed, and the version that was read.
abbrev pub update_account : String → Fields → Request
update_account id changes = send put (under "/accounts/" id) (object changes)

abbrev pub delete_account : String → Request
delete_account id = bare delete (under "/accounts/" id)

abbrev pub get_transactions : (ℕ → Text) → ℕ → ℕ → Request
get_transactions digits limit offset = record (read (codes "/transactions")) {
  query = ("limit", digits limit) ∷ ("offset", digits offset) ∷ [];
}

abbrev pub get_transaction : String → Request
get_transaction id = read (under "/transactions/" id)

abbrev split_json : SplitRequest → Json
split_json x = object (
    field "account_guid" (text x.account_guid) (
      field "memo" (text x.memo) (
        field "value_num" (number x.value_num) (
          field "value_denom" (number (pos x.value_denom)) (
            field "quantity_num" (number x.quantity_num)
              (field "quantity_denom" (number (pos x.quantity_denom)) close))))))

abbrev transaction_json : CreateTransactionRequest → Json
transaction_json x = object (
    field "custom_id" (text x.custom_id) (
      field "post_date" (text x.post_date) (
        field "description" (text x.description)
          (field "splits" (array (items split_json x.splits)) close))))

abbrev pub create_transaction : CreateTransactionRequest → Request
create_transaction x = send post (codes "/transactions") (transaction_json x)

abbrev pub update_transaction : String → CreateTransactionRequest → Request
update_transaction id x = send put (under "/transactions/" id) (transaction_json x)

abbrev pub delete_transaction : String → Request
delete_transaction id = bare delete (under "/transactions/" id)

abbrev pub batch_reconcile_splits : List String → Request
batch_reconcile_splits guids =
    send post (codes "/transactions/splits/reconcile")
      (object (field "split_guids" (texts guids) close))

abbrev pub toggle_split_acknowledge : String → String → Request
toggle_split_acknowledge id state =
    send patch (under_action "/transactions/splits/" id "/toggle")
      (object (field "state" (text state) close))

abbrev pub get_reconciled_balance : String → Request
get_reconciled_balance id = read (under_action "/accounts/" id "/reconciled-balance")

abbrev pub reconcile_account_splits : String → List String → Request
reconcile_account_splits id guids =
    send post (under_action "/accounts/" id "/reconcile")
      (object (field "account_guids" (texts guids) close))

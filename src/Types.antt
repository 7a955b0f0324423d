-- ===== src/Types.antt =====
-- frontend/src/types/index.ts: the data that the client exchanges with the server.
--
-- A `number` that is an amount of money is an integer count of thousandths (`Amount`): amounts
-- are held in hundredths by the server, and the client compares them with 0.005. The rounding
-- errors of binary floating point are left out. Dates and ids are texts, as in the source.
use antimoney.Prelude.{ℕ, Bool, true, false, String, Option, List, [], ◌∷◌, ltb, if◌then◌else◌}
use antimoney.Prelude.Int.{ℤ, abs, neg}

abbrev pub Amount : Type 0
Amount = ℤ

-- `Math.abs(x) < 0.005`
abbrev pub is_zero : Amount → Bool
is_zero x = ltb (abs x) 5

pub data AccountType : Type 0 where
  root asset bank cash liability credit income expense equity : AccountType

abbrev pub user_account_types : List AccountType
user_account_types = asset ∷ bank ∷ cash ∷ credit ∷ liability ∷ []

-- `accountType === 'LIABILITY' || accountType === 'CREDIT'`
abbrev pub is_liability : AccountType → Bool
is_liability liability = true
is_liability credit = true
is_liability _ = false

-- `['LIABILITY', 'CREDIT', 'INCOME', 'EQUITY'].includes(accountType)`
abbrev pub is_credit_normal : AccountType → Bool
is_credit_normal liability = true
is_credit_normal credit = true
is_credit_normal income = true
is_credit_normal equity = true
is_credit_normal _ = false

-- A balance as an account of the type shows it.
abbrev pub signed : AccountType → Amount → Amount
signed ty x = if is_credit_normal ty then neg x else x

abbrev pub is_root : AccountType → Bool
is_root root = true
is_root _ = false

pub record PlaidAccountMeta : Type 0 where
  pub item_guid : Option String
  pub last_synced_at : Option String
  pub institution_name : Option String

-- `Account`, without the fields that `buildTree` adds. Of `metadata` the client reads `plaid`.
pub record Account : Type 0 where
  pub guid : String
  pub name : String
  pub account_type : AccountType
  pub parent_guid : Option String
  pub placeholder : Bool
  pub description : String
  pub plaid : Option PlaidAccountMeta
  pub version : ℕ
  pub balance : Amount
  pub reconciled_balance : Amount
  pub last_reconciled : Option String

pub record Split : Type 0 where
  pub guid : String
  pub tx_guid : String
  pub account_guid : String
  pub memo : String
  pub value_num : ℤ
  pub value_denom : ℕ
  pub quantity_num : ℤ
  pub quantity_denom : ℕ
  pub reconcile_state : String
  pub account_name : Option String

pub record Transaction : Type 0 where
  pub guid : String
  pub custom_id : String
  pub post_date : String
  pub enter_date : String
  pub description : String
  pub version : ℕ
  pub splits : List Split

pub record RegisterEntry : Type 0 where
  pub transaction_guid : String
  pub custom_id : String
  pub post_date : String
  pub description : String
  pub transfer_account : String
  pub transfer_account_guid : String
  pub deposit : Option Amount
  pub withdrawal : Option Amount
  pub balance : Amount
  pub split_memo : String
  pub split_guid : String
  pub reconcile_state : String

pub record RegisterPage : Type 0 where
  pub entries : List RegisterEntry
  pub has_before : Bool
  pub has_after : Bool
  pub first_offset : ℕ
  pub last_offset : ℕ
  pub total_count : ℕ

pub record SplitRequest : Type 0 where
  pub account_guid : String
  pub memo : String
  pub value_num : ℤ
  pub value_denom : ℕ
  pub quantity_num : ℤ
  pub quantity_denom : ℕ

pub record CreateTransactionRequest : Type 0 where
  pub custom_id : String
  pub post_date : String
  pub description : String
  pub splits : List SplitRequest

pub data SnapshotTrigger : Type 0 where
  manual scheduled active : SnapshotTrigger

pub record SnapshotConfig : Type 0 where
  pub id : String
  pub book_guid : String
  pub frequency_hours : ℕ
  pub ttl_hours : ℕ
  pub active_mode : Bool
  pub created_at : String
  pub updated_at : String

pub record SnapshotSummary : Type 0 where
  pub id : String
  pub book_guid : String
  pub label : String
  pub trigger : SnapshotTrigger
  pub created_at : String

pub record PlaidItem : Type 0 where
  pub guid : String
  pub institution_name : String
  pub last_synced_at : Option String
  pub import_pending : Bool

pub record SyncSuggestion : Type 0 where
  pub transaction_id : String
  pub date : String
  pub description : String
  pub amount_num : ℤ
  pub amount_denom : ℕ
  pub bank_account_guid : String
  pub bank_account_name : String
  pub suggested_category_guid : Option String
  pub suggested_category_name : Option String

pub record SyncResult : Type 0 where
  pub count : ℕ
  pub suggestions : List SyncSuggestion
  pub has_more : Bool
  pub in_progress : Bool

-- `ACCOUNT_TYPE_COLORS`
abbrev pub account_type_color : AccountType → String
account_type_color root = "#64748b"
account_type_color asset = "#22c55e"
account_type_color bank = "#3b82f6"
account_type_color cash = "#10b981"
account_type_color liability = "#ef4444"
account_type_color credit = "#f97316"
account_type_color income = "#8b5cf6"
account_type_color expense = "#ec4899"
account_type_color equity = "#06b6d4"

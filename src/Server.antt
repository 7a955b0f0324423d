-- ===== src/Server.antt =====
-- The part of the server that decides how the amount of a split is shown to the client:
-- backend/internal/services/transaction_service.go and backend/internal/models/models.go.
pub mod Numeric
pub mod Books
pub mod Paging
pub mod Snapshots
use antimoney.Prelude.{Bool, true, false, Option, none, some, if◌then◌else◌}
use antimoney.Prelude.Int.{pos, neg, leb_ℤ}
use antimoney.Types.{Amount, AccountType, asset, bank, cash, expense}

-- `IsDebitNormal`, on the account types that the client has.
abbrev pub is_debit_normal : AccountType → Bool
is_debit_normal asset = true
is_debit_normal bank = true
is_debit_normal cash = true
is_debit_normal expense = true
is_debit_normal _ = false

-- The branches for a debit-normal account and for another.
abbrev pub amounts_for : Bool → Amount → Option Amount × Option Amount
amounts_for true f = if leb_ℤ (pos 0) f then (some f, none) else (none, some (neg f))
amounts_for false f = if leb_ℤ f (pos 0) then (some (neg f), none) else (none, some f)

-- The deposit and the withdrawal of a register entry with the signed amount.
unfoldable pub register_amounts : AccountType → Amount → Option Amount × Option Amount
register_amounts ty f = amounts_for (is_debit_normal ty) f

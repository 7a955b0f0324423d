-- ===== src/Pages.antt =====
-- The pages besides the register and the dashboard: frontend/src/pages/Snapshots.tsx,
-- DataManagement.tsx, Accounts.tsx, LoginPage.tsx and Transactions.tsx.
pub mod Snapshots
pub mod DataManagement
pub mod Accounts
pub mod Login
pub mod Transactions
mod Tests
use antimoney.Prelude.{String, Option, none, some}

-- `{ type, text }`, the message that a page shows.
pub data Message : Type 0 where
  success : String → Message
  error : String → Message

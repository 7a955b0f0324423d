-- ===== src/Accounts.antt =====
-- The accounts outside the chart: the path above an account, and the form of an account.
pub mod Breadcrumbs
pub mod Form
mod Tests

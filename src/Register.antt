-- ===== src/Register.antt =====
-- The register of an account: its order, its search, the pages that are loaded, and the marks
-- of the rows.
pub mod Order
pub mod Search
pub mod Page
pub mod Table
pub mod Sync
pub mod Dialogs
mod Tests

-- ===== src/Lib.antt =====
-- Verification of the Antimoney web client: the logic of the React application in frontend/src,
-- a double-entry bookkeeping program. A component of React is modelled by a record of its
-- state and one function for each handler and effect; a handler that waits for the server is two
-- functions, up to the request and from the answer, so that events can come between them.
--
-- The parts, and where they are modelled:
-- - Types: frontend/src/types/index.ts, the data exchanged with the server. Account, Split,
--   Transaction, RegisterEntry, RegisterPage, SyncSuggestion and the other interfaces are records
--   with the source's fields in snake case. An amount is an integer number of thousandths.
-- - Register: frontend/src/utils/registerSort.ts (Register/Order), registerSearch.ts
--   (Register/Search) and pages/AccountRegister.tsx (Register/Page), which loads a register page
--   by page, merges, sorts, patches and searches its entries with these two; the table that shows
--   them, components/Register.tsx (Register/Table); and the synchronisation with the bank, with
--   utils/plaidSync.ts (Register/Sync), and what the page shows (Register/Dialogs).
--   Register/Page/Window, Complete and Queries put the page and the server of Server/Paging
--   together, each query with rows of its own.
-- - Server: what the client relies on in backend/internal/services: the column in which an
--   entry's amount stands, the pages of a register (Server/Paging, `GetAccountRegisterPaged`), the
--   table of snapshots (Server/Snapshots), and the ledger that its requests write to
--   (Server/Books, and Server/Books/Requests, transaction_service.go, with the fractions of
--   gnc/numeric.go in Server/Numeric, exact there and in 64-bit integers in
--   Server/Numeric/Words). Server/Books/Submitted puts the form of Editor and the ledger
--   together.
-- - Reconcile: frontend/src/components/ReconcileWizard.tsx, the reconciliation of an account and
--   of its descendants with a bank statement; Reconcile/Listing is about its start, and
--   Reconcile/Finish about all that is done in it.
-- - Tree: frontend/src/components/AccountTree.tsx, the chart of accounts with its totals, and
--   `handleReconcile` of pages/Accounts.tsx, which chooses the accounts for the wizard.
--   Tree/Links, Built, Stands and Partition relate the store of nodes to the tree that is read
--   from it.
-- - Pages: frontend/src/pages/Snapshots.tsx, DataManagement.tsx (with the banks in
--   Pages/DataManagement/Bank), Accounts.tsx, LoginPage.tsx and Transactions.tsx. Their messages
--   are those of Message. Pages/Snapshots/View puts that page and the table of the server together,
--   with several requests under way; the initial list and a restoration are left out there.
--   Pages/Transactions/Magnitude puts a row of the list and the ledger together.
-- - Editor: frontend/src/components/TransactionForm.tsx, the form of a transaction, with its keys
--   and buttons in Editor/Controls.
-- - Picker: frontend/src/components/AccountPicker.tsx, the combobox that the form uses.
-- - Matcher: frontend/src/components/ImportMatcher.tsx, the review of what a bank sync suggests.
-- - Dashboard: `computeDashboard` of frontend/src/pages/Dashboard.tsx, the figures of its charts
--   (Dashboard/Charts), the ranges of dates (Dashboard/Range) and the page (Dashboard/Page).
-- - Session: frontend/src/auth/AuthContext.tsx, `fetchJSON` of frontend/src/api/client.ts and the
--   view that frontend/src/App.tsx chooses: the signed-in user as events change it.
-- - Api: the requests of frontend/src/api/client.ts.
-- - Shortcuts: frontend/src/hooks/useShortcuts.ts, the registry of keyboard shortcuts.
-- - Accounts: frontend/src/components/AccountBreadcrumbs.tsx (Accounts/Breadcrumbs) and
--   AccountForm.tsx (Accounts/Form), with the list from which a parent is chosen.
-- - Dates: frontend/src/utils/date.ts, the keys that move a date in the form.
-- - I18n: frontend/src/i18n.ts, both dictionaries and the lookup of a text.
-- - Convert: scripts/convert_csv.js, which turns the CSV files of GnuCash into an import file: the
--   reading of a file (Convert, Convert/Columns, Convert/Lines), the accounts (Convert/Chart,
--   Convert/Parents), the transactions (Convert/Journal, Convert/Grouping) and the whole
--   (Convert/Script).
-- - Prelude: what they share: Boolean tests, array methods, keys, integers and a stable sort.
--
-- What the browser supplies is a parameter: `toLowerCase`, `toFixed`, `parseFloat`, `toString`,
-- the time of a date, the arithmetic of `new Function`. A theorem that relies on one of them
-- names what it relies on. The rounding of binary floating point is left out.
--
-- Fuel: `build_path` (Accounts/Breadcrumbs) stands for a `while` loop, and a fuel above the rank
-- of the account is enough where the parents are ranked. `read_forest` (Tree) bounds the depth of
-- the tree by one more than the number of accounts, the depth of any chain without a cycle.
--
-- Not modelled: what is drawn (JSX and styles), the clocks of timers (a timer's function is an
-- event), the widget of the bank connection, and the Go server but for the functions of Server;
-- of these, the failures of the database, and the limits of 64-bit integers but for the sums of
-- Server/Numeric/Words.
--
-- What `readline` reads, `Int64` of Go and the order of PostgreSQL's rows are parameters where a
-- theorem relies on them; a theorem assumes of them what is documented.
pub mod Prelude
pub mod Types
pub mod Register
pub mod Server
pub mod Reconcile
pub mod Tree
pub mod Session
pub mod Shortcuts
pub mod Matcher
pub mod Message
pub mod Pages
pub mod Picker
pub mod Accounts
pub mod Api
pub mod Convert
pub mod I18n
pub mod Editor
pub mod Dashboard
pub mod Dates

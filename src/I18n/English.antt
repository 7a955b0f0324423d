-- ===== src/I18n/English.antt =====
-- frontend/src/i18n.ts: the first half of the `en` dictionary.
use antimoney.Prelude.{String, List, [], ◌∷◌}

abbrev pub english_texts : List (String × String)
english_texts =
    ("nav.main", "Main")
    ∷ ("nav.dashboard", "Dashboard")
    ∷ ("nav.accounts", "Chart of Accounts")
    ∷ ("nav.transactions", "Transactions")
    ∷ ("nav.settings", "Settings")
    ∷ ("nav.currencies", "Currencies")
    ∷ ("nav.data", "Data Management")
    ∷ ("data.exportSuccess", "Export successful!")
    ∷ ("data.exportError", "Export failed")
    ∷ ("data.importSuccess", "Import successful!")
    ∷ ("data.importError", "Import failed")
    ∷ ("data.exportTitle", "Export Data")
    ∷ ("data.exportDesc", "Download your accounts and transactions as a JSON file.")
    ∷ ("data.exportBtn", "Export to JSON")
    ∷ ("data.importTitle", "Import Data")
    ∷ (
      "data.importDesc",
      "Import accounts and transactions from a JSON file. This will REPLACE your current book data.",
    )
    ∷ ("data.importBtn", "Import from JSON")
    ∷ ("data.importCsvTitle", "Import Transactions (CSV)")
    ∷ (
      "data.importCsvDesc",
      "Import transactions into a specific account. Format: Date, Description, Amount",
    )
    ∷ ("data.importCsvBtn", "Import CSV")
    ∷ ("data.selectTargetAccount", "-- Select Target Account --")
    ∷ ("data.importCsvSuccess", "Successfully imported {{count}} transactions!")
    ∷ ("data.importGnucashTitle", "Import Data (GnuCash)")
    ∷ (
      "data.importGnucashDesc",
      "Import accounts and transactions from a .gnucash file. This will REPLACE your current book data.",
    )
    ∷ ("data.importGnucashBtn", "Import from GnuCash")
    ∷ ("data.importGnucashSuccess", "GnuCash import successful!")
    ∷ ("dashboard.title", "Dashboard")
    ∷ ("dashboard.subtitle", "Financial overview")
    ∷ ("dashboard.assets", "Assets")
    ∷ ("dashboard.liabilities", "Liabilities")
    ∷ ("dashboard.income", "Income")
    ∷ ("dashboard.expenses", "Expenses")
    ∷ ("dashboard.netWorth", "Net Worth")
    ∷ ("dashboard.netWorthDesc", "Assets − Liabilities")
    ∷ ("dashboard.total", "Total")
    ∷ ("dashboard.reconciled", "Reconciled")
    ∷ ("dashboard.balanceOverview", "Balance Overview")
    ∷ ("dashboard.cashFlow", "Cash Flow")
    ∷ ("dashboard.moneyIn", "Money In")
    ∷ ("dashboard.moneyOut", "Money Out")
    ∷ ("dashboard.expenseBreakdown", "Expense Breakdown")
    ∷ ("dashboard.topAccounts", "Top Accounts")
    ∷ ("dashboard.noData", "No data yet")
    ∷ ("dashboard.allTime", "All Time")
    ∷ ("dashboard.thisMonth", "This Month")
    ∷ ("dashboard.lastMonth", "Last Month")
    ∷ ("dashboard.thisYear", "This Year")
    ∷ ("dashboard.lastYear", "Last Year")
    ∷ ("accounts.title", "Chart of Accounts")
    ∷ ("accounts.subtitle", "Hierarchical account structure")
    ∷ ("accounts.noAccounts", "No accounts found")
    ∷ ("accounts.notFound", "Account not found")
    ∷ ("accounts.newAccount", "+ New Account")
    ∷ ("accounts.editAccount", "Edit Account")
    ∷ ("accounts.deleteAccount", "Delete Account")
    ∷ ("accounts.confirmDelete", "Delete this account? This cannot be undone.")
    ∷ ("accounts.name", "Account Name")
    ∷ ("accounts.description", "Description")
    ∷ ("accounts.parentAccount", "Parent Account")
    ∷ ("accounts.topLevel", "(Top level)")
    ∷ ("accounts.accountType", "Account Type")
    ∷ ("accounts.placeholder", "Placeholder (folder only, no transactions)")
    ∷ ("accounts.save", "Save")
    ∷ ("accounts.create", "Create Account")
    ∷ ("accounts.cancel", "Cancel")
    ∷ ("accounts.nameRequired", "Account name is required")
    ∷ ("accounts.lastReconciled", "Last Reconciled")
    ∷ ("accounts.reconciledBalance", "Reconciled")
    ∷ ("accounts.reconcile", "Reconcile")
    ∷ ("accounts.confirmReconcile", "Reconcile all transactions in this account?")
    ∷ (
      "accounts.confirmReconcileChildren",
      "Reconcile all transactions in this account and its child accounts?",
    )
    ∷ ("register.date", "Date")
    ∷ ("register.today", "Today")
    ∷ ("register.num", "#")
    ∷ ("register.description", "Description")
    ∷ ("register.transfer", "Transfer")
    ∷ ("register.deposit", "Deposit")
    ∷ ("register.withdrawal", "Withdrawal")
    ∷ ("register.decrease", "Decrease")
    ∷ ("register.increase", "Increase")
    ∷ ("register.balance", "Balance")
    ∷ ("register.memo", "Memo")
    ∷ ("register.noEntries", "No transactions recorded in")
    ∷ ("register.reconcile", "R")
    ∷ ("register.reconcile.tooltip.n", "Not reconciled — click to acknowledge")
    ∷ ("register.reconcile.tooltip.c", "Acknowledged — click to clear")
    ∷ ("register.reconcile.tooltip.y", "Reconciled — click to un-reconcile")
    ∷ ("register.jump", "Jump to account")
    ∷ ("register.loadOlder", "Load older transactions")
    ∷ ("register.loadNewer", "Load newer transactions")
    ∷ ("register.searchPlaceholder", "Search transactions…")
    ∷ ("register.searchClear", "Clear search")
    ∷ ("register.searchResults", "{{count}} of {{total}} transactions match")
    ∷ ("register.searchNoMatch", "No transactions match")
    ∷ ("register.searchError", "Could not load transactions for search. Please try again.")
    ∷ ("reconcile.title", "Reconcile")
    ∷ (
      "reconcile.infoDesc", "Enter the statement date and ending balance from your bank statement.",
    )
    ∷ ("reconcile.statementDate", "Statement Date")
    ∷ ("reconcile.startingBalance", "Starting Balance")
    ∷ ("reconcile.endingBalance", "Ending Balance")
    ∷ ("reconcile.endingRequired", "Ending balance is required")
    ∷ ("reconcile.start", "Start Reconciling")
    ∷ ("reconcile.fundsIn", "Funds In")
    ∷ ("reconcile.fundsOut", "Funds Out")
    ∷ ("reconcile.amount", "Amount")
    ∷ ("reconcile.total", "Total")
    ∷ ("reconcile.reconciledBalance", "Reconciled Balance")
    ∷ ("reconcile.difference", "Difference")
    ∷ ("reconcile.finish", "Finish")
    ∷ ("reconcile.selectAll", "Select All")
    ∷ ("reconcile.deselectAll", "Deselect All")
    ∷ ("reconcile.button", "Reconcile")
    ∷ ("transactions.title", "Transactions")
    ∷ ("transactions.subtitle", "All book transactions")
    ∷ ("transactions.noTransactions", "No transactions found")
    ∷ ("transactions.delete", "Delete")
    ∷ ("transactions.confirmDelete", "Delete this transaction?")
    ∷ ("commodities.title", "Currencies & Commodities")
    ∷ ("commodities.subtitle", "All registered currencies")
    ∷ ("commodities.noCommodities", "No currencies found")
    ∷ ("commodities.namespace", "Type")
    ∷ ("commodities.mnemonic", "Symbol")
    ∷ ("commodities.fullname", "Name")
    ∷ ("commodities.fraction", "Fraction")
    ∷ ("commodities.newCurrency", "New Currency")
    ∷ ("commodities.fullnamePlaceholder", "e.g. US Dollar, Bitcoin")
    ∷ ("commodities.fractionInvalid", "Fraction must be a positive number")
    ∷ ("commodities.mnemonicRequired", "Symbol (mnemonic) is required")
    ∷ ("commodities.createError", "Failed to create currency (may already exist)")
    ∷ (
      "commodities.confirmDelete",
      "Delete this currency forever? (Only works if no accounts use it)",
    )
    ∷ []

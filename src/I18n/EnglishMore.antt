-- ===== src/I18n/EnglishMore.antt =====
-- frontend/src/i18n.ts: the second half of the `en` dictionary.
use antimoney.Prelude.{String, List, [], ◌∷◌}

abbrev pub english_more_texts : List (String × String)
english_more_texts =
    ("form.newTransaction", "New Transaction")
    ∷ ("form.editTransaction", "Edit Transaction")
    ∷ ("form.duplicateTransaction", "Duplicate Transaction")
    ∷ ("form.date", "Date")
    ∷ ("form.description", "Description")
    ∷ ("form.descriptionPlaceholder", "e.g. Groceries")
    ∷ ("form.splits", "Splits")
    ∷ (
      "form.splitsHelp",
      "Every transaction needs at least two splits: where money comes from (negative) and where it goes (positive). The total must balance to zero.",
    )
    ∷ ("form.selectAccount", "Select account...")
    ∷ ("form.value", "Value")
    ∷ ("form.memo", "Memo")
    ∷ ("form.addSplit", "+ Add split")
    ∷ ("form.removeSplit", "Remove split")
    ∷ ("form.balance", "Balance")
    ∷ ("form.balanced", "✓ Balanced")
    ∷ ("form.unbalanced", "⚠ Unbalanced")
    ∷ ("form.invalidAmount", "Invalid amount in one or more splits")
    ∷ ("form.selectAccountError", "Select an account for each split")
    ∷ ("form.noCurrency", "No currency found")
    ∷ ("form.creating", "Creating...")
    ∷ ("form.create", "Create Transaction")
    ∷ ("form.cancel", "Cancel")
    ∷ ("form.save", "Save")
    ∷ ("form.common.save", "Save")
    ∷ ("form.createError", "Error creating transaction")
    ∷ ("common.loading", "Loading...")
    ∷ ("common.save", "Save")
    ∷ ("common.saving", "Saving...")
    ∷ ("common.newTransaction", "+ New Transaction")
    ∷ ("common.duplicate", "Duplicate")
    ∷ ("common.actions", "Actions")
    ∷ ("type.ROOT", "Root")
    ∷ ("type.ASSET", "Asset")
    ∷ ("type.BANK", "Bank")
    ∷ ("type.CASH", "Cash")
    ∷ ("type.LIABILITY", "Liability")
    ∷ ("type.CREDIT", "Credit Card")
    ∷ ("type.INCOME", "Income")
    ∷ ("type.EXPENSE", "Expense")
    ∷ ("type.EQUITY", "Equity")
    ∷ ("nav.snapshots", "Snapshots")
    ∷ ("snapshots.title", "Snapshots")
    ∷ ("snapshots.subtitle", "Automatic and manual backups of your book data.")
    ∷ ("snapshots.scheduleTitle", "Snapshot Schedule")
    ∷ ("snapshots.scheduleDesc", "Configure automatic snapshots. Set frequency to 0 to disable.")
    ∷ ("snapshots.frequency", "Frequency (hours, 0 = disabled)")
    ∷ ("snapshots.ttl", "Keep for (hours, 0 = forever)")
    ∷ (
      "snapshots.activeMode",
      "Active snapshots — take a snapshot every 5 minutes while you are editing",
    )
    ∷ ("snapshots.saveConfig", "Save Schedule")
    ∷ ("snapshots.configSaved", "Schedule saved.")
    ∷ ("snapshots.configError", "Failed to save schedule.")
    ∷ ("snapshots.manualTitle", "Manual Snapshot")
    ∷ ("snapshots.manualDesc", "Capture the current state of your book right now.")
    ∷ ("snapshots.label", "Label (optional)")
    ∷ ("snapshots.labelPlaceholder", "e.g. Before year-end adjustments")
    ∷ ("snapshots.takeNow", "Take Snapshot Now")
    ∷ ("snapshots.taking", "Taking...")
    ∷ ("snapshots.snapshotTaken", "Snapshot taken.")
    ∷ ("snapshots.snapshotError", "Failed to take snapshot.")
    ∷ ("snapshots.listTitle", "Saved Snapshots")
    ∷ ("snapshots.noSnapshots", "No snapshots yet.")
    ∷ ("snapshots.colDate", "Date")
    ∷ ("snapshots.colLabel", "Label")
    ∷ ("snapshots.colSource", "Source")
    ∷ ("snapshots.colActions", "Actions")
    ∷ ("snapshots.restore", "Restore")
    ∷ (
      "snapshots.restoreConfirm",
      "Restore this snapshot? This will REPLACE all current data. This cannot be undone.",
    )
    ∷ ("snapshots.restoring", "Restoring...")
    ∷ ("snapshots.restoreSuccess", "Restore successful! Reloading...")
    ∷ ("snapshots.restoreError", "Restore failed.")
    ∷ ("snapshots.delete", "Delete")
    ∷ ("snapshots.deleteConfirm", "Delete this snapshot? This cannot be undone.")
    ∷ ("snapshots.deleteSuccess", "Snapshot deleted.")
    ∷ ("snapshots.deleteError", "Failed to delete snapshot.")
    ∷ ("snapshots.triggerManual", "Manual")
    ∷ ("snapshots.triggerScheduled", "Scheduled")
    ∷ ("snapshots.triggerActive", "Active")
    ∷ ("shortcuts.title", "Keyboard Shortcuts")
    ∷ ("shortcuts.newTx", "New transaction")
    ∷ ("shortcuts.close", "Close dialog")
    ∷ ("shortcuts.goHome", "Go to Dashboard")
    ∷ ("shortcuts.goAccounts", "Go to Accounts")
    ∷ ("shortcuts.goTransactions", "Go to Transactions")
    ∷ ("shortcuts.showHelp", "Show shortcuts")
    ∷ ("plaid.connectBank", "Connect Bank")
    ∷ ("plaid.connecting", "Connecting…")
    ∷ ("plaid.connected", "Connected")
    ∷ ("plaid.disconnect", "Disconnect")
    ∷ ("plaid.disconnectConfirm", "Disconnect bank? Imported transactions will be kept.")
    ∷ ("plaid.syncNow", "Sync now")
    ∷ ("plaid.syncing", "Syncing {{institution}}…")
    ∷ ("plaid.syncSuccess", "{{count}} transaction(s) ready to import.")
    ∷ ("plaid.bank", "Bank")
    ∷ ("plaid.genericError", "Something went wrong — please try again.")
    ∷ ("plaid.syncNone", "No new transactions.")
    ∷ ("plaid.syncError", "Couldn't sync {{institution}} — please try again.")
    ∷ ("plaid.mapAccounts", "Map bank accounts")
    ∷ ("plaid.importPending", "Import pending transactions")
    ∷ ("plaid.noMapping", "Skip")
    ∷ ("plaid.confirmImport", "Import {{count}} transaction(s)")
    ∷ ("plaid.categoryRequired", "Choose a category")
    ∷ ("plaid.importSuccess", "{{count}} transaction(s) imported.")
    ∷ ("plaid.importError", "Import failed — please try again.")
    ∷ ("plaid.importPartial", "{{imported}} imported, {{failed}} failed — review and retry.")
    ∷ ("plaid.importTitle", "Import transactions")
    ∷ ("plaid.syncMore", "More transactions available — sync again.")
    ∷ ("plaid.dismiss", "Dismiss")
    ∷ ("plaid.dismissHint", "Never import this transaction")
    ∷ ("plaid.dismissError", "Couldn't dismiss — please try again.")
    ∷ ("plaid.syncInProgress", "Another sync is in progress — results may be incomplete.")
    ∷ (
      "plaid.importInterrupted",
      "{{imported}} imported — interrupted; sync and retry for the rest.",
    )
    ∷ ("plaid.importing", "Importing…")
    ∷ ("plaid.save", "Save mappings")
    ∷ ("plaid.connectedBanks", "Connected banks")
    ∷ ("plaid.lastSynced", "Last synced: {{date}}")
    ∷ ("plaid.neverSynced", "Never synced")
    ∷ ("plaid.disconnected", "Bank disconnected.")
    ∷ (
      "plaid.reconnectNeeded",
      "Bank connection needs re-authorization. Please disconnect and reconnect.",
    )
    ∷ ("plaid.cancel", "Cancel")
    ∷ ("plaid.colDate", "Date")
    ∷ ("plaid.colDescription", "Description")
    ∷ ("plaid.colAmount", "Amount")
    ∷ ("plaid.colBankAccount", "Bank Account")
    ∷ ("plaid.colCategory", "Category")
    ∷ ("plaid.colInclude", "Include")
    ∷ []

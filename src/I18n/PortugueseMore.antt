-- ===== src/I18n/PortugueseMore.antt =====
-- frontend/src/i18n.ts: the second half of the `pt-BR` dictionary.
use antimoney.Prelude.{String, List, [], ◌∷◌}

abbrev pub portuguese_more_texts : List (String × String)
portuguese_more_texts =
    ("form.newTransaction", "Nova Transação")
    ∷ ("form.editTransaction", "Editar Transação")
    ∷ ("form.duplicateTransaction", "Duplicar Transação")
    ∷ ("form.date", "Data")
    ∷ ("form.description", "Descrição")
    ∷ ("form.descriptionPlaceholder", "Ex: Supermercado")
    ∷ ("form.splits", "Parcelas (Splits)")
    ∷ (
      "form.splitsHelp",
      "Toda transação precisa de pelo menos duas contas (origem [-] e destino [+]). O total deve somar zero.",
    )
    ∷ ("form.selectAccount", "Selecionar conta...")
    ∷ ("form.value", "Valor")
    ∷ ("form.memo", "Memo")
    ∷ ("form.addSplit", "+ Adicionar parcela")
    ∷ ("form.removeSplit", "Remover parcela")
    ∷ ("form.balance", "Balanço")
    ∷ ("form.balanced", "✓ Equilibrado")
    ∷ ("form.unbalanced", "⚠ Desequilibrado")
    ∷ ("form.invalidAmount", "Valor inválido em uma ou mais parcelas")
    ∷ ("form.selectAccountError", "Selecione uma conta para cada parcela")
    ∷ ("form.noCurrency", "Nenhuma moeda encontrada")
    ∷ ("form.creating", "Criando...")
    ∷ ("form.create", "Criar Transação")
    ∷ ("form.cancel", "Cancelar")
    ∷ ("form.createError", "Erro ao criar transação")
    ∷ ("common.loading", "Carregando...")
    ∷ ("common.save", "Salvar")
    ∷ ("common.saving", "Salvando...")
    ∷ ("common.newTransaction", "+ Nova Transação")
    ∷ ("common.duplicate", "Duplicar")
    ∷ ("common.actions", "Ações")
    ∷ ("type.ROOT", "Raiz")
    ∷ ("type.ASSET", "Ativo")
    ∷ ("type.BANK", "Banco")
    ∷ ("type.CASH", "Dinheiro")
    ∷ ("type.LIABILITY", "Passivo")
    ∷ ("type.CREDIT", "Cartão de Crédito")
    ∷ ("type.INCOME", "Receita")
    ∷ ("type.EXPENSE", "Despesa")
    ∷ ("type.EQUITY", "Patrimônio")
    ∷ ("nav.snapshots", "Snapshots")
    ∷ ("snapshots.title", "Snapshots")
    ∷ ("snapshots.subtitle", "Backups automáticos e manuais dos seus dados.")
    ∷ ("snapshots.scheduleTitle", "Agendamento de Snapshots")
    ∷ ("snapshots.scheduleDesc", "Configure snapshots automáticos. Frequência 0 desativa.")
    ∷ ("snapshots.frequency", "Frequência (horas, 0 = desativado)")
    ∷ ("snapshots.ttl", "Manter por (horas, 0 = sempre)")
    ∷ (
      "snapshots.activeMode",
      "Snapshots ativos — tirar snapshot a cada 5 minutos enquanto você está editando",
    )
    ∷ ("snapshots.saveConfig", "Salvar Agendamento")
    ∷ ("snapshots.configSaved", "Agendamento salvo.")
    ∷ ("snapshots.configError", "Falha ao salvar agendamento.")
    ∷ ("snapshots.manualTitle", "Snapshot Manual")
    ∷ ("snapshots.manualDesc", "Capturar o estado atual do seu livro agora.")
    ∷ ("snapshots.label", "Rótulo (opcional)")
    ∷ ("snapshots.labelPlaceholder", "Ex: Antes do fechamento anual")
    ∷ ("snapshots.takeNow", "Tirar Snapshot Agora")
    ∷ ("snapshots.taking", "Capturando...")
    ∷ ("snapshots.snapshotTaken", "Snapshot realizado.")
    ∷ ("snapshots.snapshotError", "Falha ao tirar snapshot.")
    ∷ ("snapshots.listTitle", "Snapshots Salvos")
    ∷ ("snapshots.noSnapshots", "Nenhum snapshot ainda.")
    ∷ ("snapshots.colDate", "Data")
    ∷ ("snapshots.colLabel", "Rótulo")
    ∷ ("snapshots.colSource", "Origem")
    ∷ ("snapshots.colActions", "Ações")
    ∷ ("snapshots.restore", "Restaurar")
    ∷ (
      "snapshots.restoreConfirm",
      "Restaurar este snapshot? Isso irá SUBSTITUIR todos os dados atuais. Não pode ser desfeito.",
    )
    ∷ ("snapshots.restoring", "Restaurando...")
    ∷ ("snapshots.restoreSuccess", "Restauração concluída! Recarregando...")
    ∷ ("snapshots.restoreError", "Falha na restauração.")
    ∷ ("snapshots.delete", "Excluir")
    ∷ ("snapshots.deleteConfirm", "Excluir este snapshot? Não pode ser desfeito.")
    ∷ ("snapshots.deleteSuccess", "Snapshot excluído.")
    ∷ ("snapshots.deleteError", "Falha ao excluir snapshot.")
    ∷ ("snapshots.triggerManual", "Manual")
    ∷ ("snapshots.triggerScheduled", "Agendado")
    ∷ ("snapshots.triggerActive", "Ativo")
    ∷ ("shortcuts.title", "Atalhos do Teclado")
    ∷ ("shortcuts.newTx", "Nova transação")
    ∷ ("shortcuts.close", "Fechar diálogo")
    ∷ ("shortcuts.goHome", "Ir para Dashboard")
    ∷ ("shortcuts.goAccounts", "Ir para Contas")
    ∷ ("shortcuts.goTransactions", "Ir para Transações")
    ∷ ("shortcuts.showHelp", "Mostrar atalhos")
    ∷ ("plaid.connectBank", "Conectar banco")
    ∷ ("plaid.connecting", "Conectando…")
    ∷ ("plaid.connected", "Conectado")
    ∷ ("plaid.disconnect", "Desconectar")
    ∷ ("plaid.disconnectConfirm", "Desconectar banco? As transações importadas serão mantidas.")
    ∷ ("plaid.syncNow", "Sincronizar agora")
    ∷ ("plaid.syncing", "Sincronizando {{institution}}…")
    ∷ ("plaid.syncSuccess", "{{count}} transação(ões) pronta(s) para importar.")
    ∷ ("plaid.bank", "Banco")
    ∷ ("plaid.genericError", "Algo deu errado — tente novamente.")
    ∷ ("plaid.syncNone", "Sem novas transações.")
    ∷ ("plaid.syncError", "Não foi possível sincronizar {{institution}} — tente novamente.")
    ∷ ("plaid.mapAccounts", "Mapear contas bancárias")
    ∷ ("plaid.importPending", "Importar transações pendentes")
    ∷ ("plaid.noMapping", "Pular")
    ∷ ("plaid.confirmImport", "Importar {{count}} transação(ões)")
    ∷ ("plaid.categoryRequired", "Escolha uma categoria")
    ∷ ("plaid.importSuccess", "{{count}} transação(ões) importada(s).")
    ∷ ("plaid.importError", "Importação falhou — tente novamente.")
    ∷ (
      "plaid.importPartial",
      "{{imported}} importada(s), {{failed}} falharam — revise e tente novamente.",
    )
    ∷ ("plaid.importTitle", "Importar transações")
    ∷ ("plaid.syncMore", "Há mais transações disponíveis — sincronize novamente.")
    ∷ ("plaid.dismiss", "Descartar")
    ∷ ("plaid.dismissHint", "Nunca importar esta transação")
    ∷ ("plaid.dismissError", "Não foi possível descartar — tente novamente.")
    ∷ (
      "plaid.syncInProgress",
      "Outra sincronização está em andamento — os resultados podem estar incompletos.",
    )
    ∷ (
      "plaid.importInterrupted",
      "{{imported}} importada(s) — interrompido; sincronize e tente novamente para o restante.",
    )
    ∷ ("plaid.importing", "Importando…")
    ∷ ("plaid.save", "Salvar mapeamentos")
    ∷ ("plaid.connectedBanks", "Bancos conectados")
    ∷ ("plaid.lastSynced", "Última sincronização: {{date}}")
    ∷ ("plaid.neverSynced", "Nunca sincronizado")
    ∷ ("plaid.disconnected", "Banco desconectado.")
    ∷ (
      "plaid.reconnectNeeded",
      "A conexão bancária precisa de reautorização. Desconecte e reconecte.",
    )
    ∷ ("plaid.cancel", "Cancelar")
    ∷ ("plaid.colDate", "Data")
    ∷ ("plaid.colDescription", "Descrição")
    ∷ ("plaid.colAmount", "Valor")
    ∷ ("plaid.colBankAccount", "Conta bancária")
    ∷ ("plaid.colCategory", "Categoria")
    ∷ ("plaid.colInclude", "Incluir")
    ∷ []

-- ===== src/I18n/Portuguese.antt =====
-- frontend/src/i18n.ts: the first half of the `pt-BR` dictionary.
use antimoney.Prelude.{String, List, [], ◌∷◌}

abbrev pub portuguese_texts : List (String × String)
portuguese_texts =
    ("nav.main", "Principal")
    ∷ ("nav.dashboard", "Dashboard")
    ∷ ("nav.accounts", "Plano de Contas")
    ∷ ("nav.transactions", "Transações")
    ∷ ("nav.settings", "Configurações")
    ∷ ("nav.currencies", "Moedas")
    ∷ ("nav.data", "Gerenciamento de Dados")
    ∷ ("data.exportSuccess", "Exportação concluída!")
    ∷ ("data.exportError", "Falha na exportação")
    ∷ ("data.importSuccess", "Importação concluída!")
    ∷ ("data.importError", "Falha na importação")
    ∷ ("data.exportTitle", "Exportar Dados")
    ∷ ("data.exportDesc", "Baixe suas contas e transações como um arquivo JSON.")
    ∷ ("data.exportBtn", "Exportar para JSON")
    ∷ ("data.importTitle", "Importar Dados")
    ∷ (
      "data.importDesc",
      "Importar contas e transações de um arquivo JSON. Isso irá SUBSTITUIR os dados atuais do seu livro.",
    )
    ∷ ("data.importBtn", "Importar de JSON")
    ∷ ("data.importCsvTitle", "Importar Transações (CSV)")
    ∷ (
      "data.importCsvDesc",
      "Importar transações para uma conta específica. Formato: Data, Descrição, Valor",
    )
    ∷ ("data.importCsvBtn", "Importar CSV")
    ∷ ("data.selectTargetAccount", "-- Selecionar Conta de Destino --")
    ∷ ("data.importCsvSuccess", "{{count}} transações importadas com sucesso!")
    ∷ ("data.importGnucashTitle", "Importar Dados (GnuCash)")
    ∷ (
      "data.importGnucashDesc",
      "Importar contas e transações de um arquivo .gnucash. Isso irá SUBSTITUIR os dados atuais do seu livro.",
    )
    ∷ ("data.importGnucashBtn", "Importar do GnuCash")
    ∷ ("data.importGnucashSuccess", "Importação do GnuCash concluída com sucesso!")
    ∷ ("dashboard.title", "Dashboard")
    ∷ ("dashboard.subtitle", "Visão geral das suas finanças")
    ∷ ("dashboard.assets", "Ativos")
    ∷ ("dashboard.liabilities", "Passivos")
    ∷ ("dashboard.income", "Receitas")
    ∷ ("dashboard.expenses", "Despesas")
    ∷ ("dashboard.netWorth", "Patrimônio Líquido")
    ∷ ("dashboard.netWorthDesc", "Ativos − Passivos")
    ∷ ("dashboard.total", "Total")
    ∷ ("dashboard.reconciled", "Reconciliado")
    ∷ ("dashboard.balanceOverview", "Visão de Saldos")
    ∷ ("dashboard.cashFlow", "Fluxo de Caixa")
    ∷ ("dashboard.moneyIn", "Entradas")
    ∷ ("dashboard.moneyOut", "Saídas")
    ∷ ("dashboard.expenseBreakdown", "Despesas por Categoria")
    ∷ ("dashboard.topAccounts", "Contas Principais")
    ∷ ("dashboard.noData", "Sem dados")
    ∷ ("dashboard.allTime", "Todo o Período")
    ∷ ("dashboard.thisMonth", "Este Mês")
    ∷ ("dashboard.lastMonth", "Mês Passado")
    ∷ ("dashboard.thisYear", "Este Ano")
    ∷ ("dashboard.lastYear", "Ano Passado")
    ∷ ("accounts.title", "Plano de Contas")
    ∷ ("accounts.subtitle", "Estrutura hierárquica de contas")
    ∷ ("accounts.noAccounts", "Nenhuma conta encontrada")
    ∷ ("accounts.notFound", "Conta não encontrada")
    ∷ ("accounts.newAccount", "+ Nova Conta")
    ∷ ("accounts.editAccount", "Editar Conta")
    ∷ ("accounts.deleteAccount", "Excluir Conta")
    ∷ ("accounts.confirmDelete", "Excluir esta conta? Não poderá ser desfeito.")
    ∷ ("accounts.name", "Nome da Conta")
    ∷ ("accounts.description", "Descrição")
    ∷ ("accounts.parentAccount", "Conta Pai")
    ∷ ("accounts.topLevel", "(Raiz)")
    ∷ ("accounts.accountType", "Tipo de Conta")
    ∷ ("accounts.placeholder", "Espaço reservado (apenas pasta, sem transações)")
    ∷ ("accounts.save", "Salvar")
    ∷ ("accounts.create", "Criar Conta")
    ∷ ("accounts.cancel", "Cancelar")
    ∷ ("accounts.nameRequired", "Nome da conta é obrigatório")
    ∷ ("accounts.lastReconciled", "Última Reconciliação")
    ∷ ("accounts.reconciledBalance", "Reconciliado")
    ∷ ("accounts.reconcile", "Reconciliar")
    ∷ ("accounts.confirmReconcile", "Reconciliar todas as transações desta conta?")
    ∷ (
      "accounts.confirmReconcileChildren",
      "Reconciliar todas as transações desta conta e das contas filhas?",
    )
    ∷ ("register.date", "Data")
    ∷ ("register.today", "Hoje")
    ∷ ("register.num", "#")
    ∷ ("register.description", "Descrição")
    ∷ ("register.transfer", "Transferência")
    ∷ ("register.deposit", "Depósito")
    ∷ ("register.withdrawal", "Retirada")
    ∷ ("register.decrease", "Diminuição")
    ∷ ("register.increase", "Aumento")
    ∷ ("register.balance", "Saldo")
    ∷ ("register.memo", "Memo")
    ∷ ("register.noEntries", "Nenhuma transação registrada em")
    ∷ ("register.reconcile", "R")
    ∷ ("register.reconcile.tooltip.n", "Não reconciliado — clique para reconhecer")
    ∷ ("register.reconcile.tooltip.c", "Reconhecido — clique para limpar")
    ∷ ("register.reconcile.tooltip.y", "Reconciliado — clique para desfazer")
    ∷ ("register.jump", "Ir para conta")
    ∷ ("register.loadOlder", "Carregar transações anteriores")
    ∷ ("register.loadNewer", "Carregar transações recentes")
    ∷ ("register.searchPlaceholder", "Buscar transações…")
    ∷ ("register.searchClear", "Limpar busca")
    ∷ ("register.searchResults", "{{count}} de {{total}} transações correspondem")
    ∷ ("register.searchNoMatch", "Nenhuma transação corresponde")
    ∷ (
      "register.searchError",
      "Não foi possível carregar as transações para busca. Tente novamente.",
    )
    ∷ ("reconcile.title", "Reconciliar")
    ∷ ("reconcile.infoDesc", "Informe a data do extrato e o saldo final do seu extrato bancário.")
    ∷ ("reconcile.statementDate", "Data do Extrato")
    ∷ ("reconcile.startingBalance", "Saldo Inicial")
    ∷ ("reconcile.endingBalance", "Saldo Final")
    ∷ ("reconcile.endingRequired", "Saldo final é obrigatório")
    ∷ ("reconcile.start", "Iniciar Reconciliação")
    ∷ ("reconcile.fundsIn", "Entradas")
    ∷ ("reconcile.fundsOut", "Saídas")
    ∷ ("reconcile.amount", "Valor")
    ∷ ("reconcile.total", "Total")
    ∷ ("reconcile.reconciledBalance", "Saldo Reconciliado")
    ∷ ("reconcile.difference", "Diferença")
    ∷ ("reconcile.finish", "Finalizar")
    ∷ ("reconcile.selectAll", "Selecionar Tudo")
    ∷ ("reconcile.deselectAll", "Limpar Seleção")
    ∷ ("reconcile.button", "Reconciliar")
    ∷ ("transactions.title", "Transações")
    ∷ ("transactions.subtitle", "Todas as transações do livro")
    ∷ ("transactions.noTransactions", "Nenhuma transação encontrada")
    ∷ ("transactions.delete", "Excluir")
    ∷ ("transactions.confirmDelete", "Excluir esta transação?")
    ∷ ("commodities.title", "Moedas e Ativos")
    ∷ ("commodities.subtitle", "Todas as moedas registradas")
    ∷ ("commodities.noCommodities", "Nenhuma moeda encontrada")
    ∷ ("commodities.namespace", "Tipo")
    ∷ ("commodities.mnemonic", "Símbolo")
    ∷ ("commodities.fullname", "Nome")
    ∷ ("commodities.fraction", "Fração")
    ∷ ("commodities.newCurrency", "Nova Moeda")
    ∷ ("commodities.fullnamePlaceholder", "Ex: Dólar Americano, Bitcoin")
    ∷ ("commodities.fractionInvalid", "Fração deve ser um número positivo")
    ∷ ("commodities.mnemonicRequired", "Símbolo (mneumônico) é obrigatório")
    ∷ ("commodities.createError", "Falha ao criar moeda (pode já existir)")
    ∷ ("commodities.confirmDelete", "Excluir esta moeda? (Apenas se nenhuma conta a usar)")
    ∷ []

-- ===== src/Server/Books/Written.antt =====
-- backend/internal/services/transaction_service.go: what `CreateTransaction` and
-- `UpdateTransaction` write is balanced.
use mathlib.Core.List.{map-append}
use antimoney.Prelude.{
  ◌≡◌, ◌≢◌, refl, sym, ap, ◌∙◌, subst, inl, inr, Bool, false, String, Option, none, some, List, [],
  ◌∷◌, ◌++◌, map, any, All-append, length, ltb, arith, Bool-cases, if◌then◌else◌,
}
use antimoney.Prelude.Int.{pos}
use antimoney.Types.{Split, SplitRequest, CreateTransactionRequest}
use antimoney.Editor.{is_exactly_zero}
use antimoney.Server.Numeric.{negated, sum, sum-balanced}
use antimoney.Server.Books.{
  AccountRow, TxRow, Store, Ids, Result, ok, ◌>>=◌, valid_splits, value_of, request_sum,
  imbalance_account, imbalance_in, balancing_split, auto_balance, check_accounts, split_rows,
  enough, add_balancing,
}
use antimoney.Server.Books.Requests.{
  create_transaction, is_tx, update_transaction, inserted, balanced_or_failed, replace_splits,
  new_tx, replaced,
}
use antimoney.Server.Books.Balanced.{
  IsBalanced, AreBalanced, bind_ok, is_exactly_zero_iff, zero_of_exactly, AreFilled,
  valid_splits-AreFilled, IsReady, neg_filled, split_rows-IsBalanced,
}

imbalance_in-transactions :
    (ids : Ids) (book : String) (s : Store) (o : Option AccountRow) (r : Store × String)
    → imbalance_in ids book s o ≡ ok r
    → r.0.transactions ≡ s.transactions
imbalance_in-transactions ids book s (some a) r h =
    let same : (s, a.guid) ≡ r = cc in ap (λ q. q.0.transactions) (sym same)
imbalance_in-transactions ids book s none r h = ground (arith, h)

map_balancing :
    (account : String) (xs : List SplitRequest)
    → (request_sum (xs ++ (balancing_split account (negated (request_sum xs)) ∷ []))).num ≡ pos 0
map_balancing account xs =
    ap (λ l. (sum l).num)
      (map-append value_of xs (balancing_split account (negated (request_sum xs)) ∷ []))
    ∙ sum-balanced (map value_of xs)

balanced-IsReady :
    (account : String) (xs : List SplitRequest)
    → AreFilled xs
    → (request_sum xs).num ≢ pos 0
    → IsReady (xs ++ (balancing_split account (negated (request_sum xs)) ∷ []))
unfolding negated
balanced-IsReady account xs filled uneven = record {
  sums = map_balancing account xs;
  filled =
      All-append (λ x. x.value_num ≢ pos 0) xs
        (balancing_split account (negated (request_sum xs)) ∷ []) filled
        (neg_filled (request_sum xs).num uneven, tt);
}

auto_balance-IsReady :
    (ids : Ids) (book : String) (s : Store) (xs : List SplitRequest) (r : Store × List SplitRequest)
    → AreFilled xs
    → auto_balance ids book s xs ≡ ok r
    → IsReady r.1 × (r.0.transactions ≡ s.transactions)
unfolding auto_balance imbalance_account
auto_balance-IsReady ids book s xs r filled h =
    elim (Bool-cases (is_exactly_zero (request_sum xs).num)) [
      | inl even ↦
          let same : (s, xs) ≡ r = ground (arith, h, even) in
          subst (λ q. IsReady q.1 × (q.0.transactions ≡ s.transactions)) same
            (record { sums = zero_of_exactly (request_sum xs).num even; filled = filled }, refl)
      | inr uneven ↦
          let ((t, account), found, joined) =
            bind_ok (imbalance_account ids book s) (add_balancing (request_sum xs) xs) r
              (ground (arith, h, uneven)) in
          let same : (t, xs ++ (balancing_split account (negated (request_sum xs)) ∷ [])) ≡ r =
            cc in
          subst (λ q. IsReady q.1 × (q.0.transactions ≡ s.transactions)) same
            (
              balanced-IsReady account xs filled (is_exactly_zero_iff (request_sum xs).num uneven),
              imbalance_in-transactions ids book s _ (t, account) found,
            )
    ]

enough_ok : (xs : List SplitRequest) (b : Bool) → enough xs ≡ ok b → ltb (length xs) 2 ≡ false
enough_ok xs b h = elim (Bool-cases (ltb (length xs) 2)) [
  | inl few ↦ absurd (ground (arith, h, few))
  | inr many ↦ many
]

inserted_ok :
    (ids : Ids) (book : String) (req : CreateTransactionRequest) (s : Store)
    (xs : List SplitRequest) (r : Store × TxRow)
    → inserted ids book req (s, xs) ≡ ok r
    → (ltb (length xs) 2 ≡ false)
      × ((
        record s { transactions = new_tx ids book req xs ∷ s.transactions },
        new_tx ids book req xs,
      )
          ≡ r)
inserted_ok ids book req s xs r h =
    let written = record s { transactions = new_tx ids book req xs ∷ s.transactions } in
    let stored : Bool → Result (Store × TxRow) = λ b. ok (written, new_tx ids book req xs) in
    let (b, many, checked) =
      bind_ok (enough xs) (λ _. check_accounts book s.accounts xs >>= stored) r h in
    let (c, posted, done) = bind_ok (check_accounts book s.accounts xs) stored r checked in
    let same : (written, new_tx ids book req xs) ≡ r = cc in (enough_ok xs b many, same)

-- Whatever is created is balanced, as everything is that was there.
pub create_transaction-AreBalanced :
    (noon : String → String) (ids : Ids) (book : String) (req : CreateTransactionRequest)
    (s : Store) (r : Store × TxRow)
    → create_transaction noon ids book req s ≡ ok r
    → AreBalanced s.transactions
    → AreBalanced r.0.transactions × IsBalanced r.1.splits
unfolding create_transaction
create_transaction-AreBalanced noon ids book req s r h before =
    let at_noon = record req { post_date = noon req.post_date } in
    let ((t, ys), evened, joined) =
      bind_ok (valid_splits req.splits >>= auto_balance ids book s) (inserted ids book at_noon) r
        h in
    let (xs, read, even) =
      bind_ok (valid_splits req.splits) (auto_balance ids book s) (t, ys) evened in
    let (ready, kept_rows) =
      auto_balance-IsReady ids book s xs (t, ys) (valid_splits-AreFilled req.splits xs read) even in
    let (many, same) = inserted_ok ids book at_noon t ys r joined in
    let balanced = split_rows-IsBalanced ids ids.tx ys ready many in
    subst (λ q. AreBalanced q.0.transactions × IsBalanced q.1.splits) same
      ((balanced, subst AreBalanced (sym kept_rows) before), balanced)

balanced_ok :
    (xs : List SplitRequest) (b : Bool)
    → balanced_or_failed xs ≡ ok b
    → (request_sum xs).num ≡ pos 0
balanced_ok xs b h = elim (Bool-cases (is_exactly_zero (request_sum xs).num)) [
  | inl even ↦ zero_of_exactly (request_sum xs).num even
  | inr uneven ↦ absurd (ground (arith, h, uneven))
]

replace_splits_ok :
    (ids : Ids) (book guid : String) (req : CreateTransactionRequest) (s : Store)
    (xs : List SplitRequest) (r : Store)
    → replace_splits ids book guid req s xs ≡ ok r
    → ((request_sum xs).num ≡ pos 0)
      × (ltb (length xs) 2 ≡ false)
      × (map
            (λ t. if is_tx guid book t then replaced req (split_rows ids guid 0 xs) t else t)
            s.transactions
          ≡ r.transactions)
replace_splits_ok ids book guid req s xs r h =
    let rows =
      map (λ t. if is_tx guid book t then replaced req (split_rows ids guid 0 xs) t else t)
        s.transactions in
    let stored = λ (b : Bool). ok (record s { transactions = rows }) in
    let posting = λ (b : Bool). check_accounts book s.accounts xs >>= stored in
    let (a, even, rest) = bind_ok (balanced_or_failed xs) (λ _. enough xs >>= posting) r h in
    let (b, many, checked) = bind_ok (enough xs) posting r rest in
    let (c, posted, done) = bind_ok (check_accounts book s.accounts xs) stored r checked in
    let same : record s { transactions = rows } ≡ r = cc in
    (balanced_ok xs a even, enough_ok xs b many, ap (λ q. q.transactions) same)

replaced-AreBalanced :
    (req : CreateTransactionRequest) (guid book : String) (rows : List Split) (l : List TxRow)
    → IsBalanced rows
    → AreBalanced l
    → AreBalanced (map (λ t. if is_tx guid book t then replaced req rows t else t) l)
replaced-AreBalanced req guid book rows [] b h = tt
replaced-AreBalanced req guid book rows (t ∷ l) b h = elim (Bool-cases (is_tx guid book t)) [
  | inl this ↦ rw this (b, replaced-AreBalanced req guid book rows l b h.1)
  | inr other ↦ rw other (h.0, replaced-AreBalanced req guid book rows l b h.1)
]

pub update_transaction-AreBalanced :
    (noon : String → String) (ids : Ids) (book guid : String) (req : CreateTransactionRequest)
    (s r : Store)
    → update_transaction noon ids book guid req s ≡ ok r
    → AreBalanced s.transactions
    → AreBalanced r.transactions
unfolding update_transaction
update_transaction-AreBalanced noon ids book guid req s r h before =
    elim (Bool-cases (any (is_tx guid book) s.transactions)) [
      | inl there ↦
          let at_noon = record req { post_date = noon req.post_date } in
          let (xs, read, joined) =
            bind_ok (valid_splits req.splits) (replace_splits ids book guid at_noon s) r
              (ground (arith, h, there)) in
          let (even, many, rows) = replace_splits_ok ids book guid at_noon s xs r joined in
          let ready : IsReady xs = record {
            sums = even;
            filled = valid_splits-AreFilled req.splits xs read;
          } in
          subst AreBalanced rows (
            replaced-AreBalanced at_noon guid book (split_rows ids guid 0 xs) s.transactions
              (split_rows-IsBalanced ids guid xs ready many) before)
      | inr missing ↦ absurd (ground (arith, h, missing))
    ]

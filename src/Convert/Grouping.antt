-- ===== src/Convert/Grouping.antt =====
-- scripts/convert_csv.js: the transactions that the loop makes are the runs of rows with one id.
use mathlib.Core.List.{append-nil, append_assoc}
use antimoney.Prelude.{
  ℕ, ◌+◌, ◌≡◌, refl, sym, ap, ◌∙◌, ◌⊎◌, inl, inr, true, false, Option, none, some, List, [], ◌∷◌,
  ◌++◌, map, All, length, length-append, filter, filter-append, ltb, get_elem?, arith, Bool-cases,
  if◌then◌else◌,
}
use antimoney.Types.{Amount}
use antimoney.Convert.{Host, or_empty}
use antimoney.Convert.Journal.{
  TxId, null, missing, text, Split, Tx, State, initial, is_truthy, same_id, txid, make_tx, flush_tx,
  begin_tx, amount_of, make_split, push_split, step, loop, journal,
}
use antimoney.Convert.Runs.{
  Row, Run, add_row, runs, same_id_eq, same_id_refl, length_zero, Bool-and_false, has_splits,
}

module _ (host : Host) where
  abbrev split_of_amount : TxId → ℕ → Row → Option Amount → List Split
  split_of_amount id n r none = []
  split_of_amount id n r (some amt) = make_split host id n r amt ∷ []

  -- The split of a row, if its amount is a number; `n` splits come before it.
  abbrev row_splits : TxId → ℕ → Row → List Split
  row_splits id n r = split_of_amount id n r (amount_of host (get_elem? r 12))

  abbrev pub splits_of : TxId → ℕ → List Row → List Split
  splits_of id n [] = []
  splits_of id n (r ∷ rs) = row_splits id n r ++ splits_of id (n + length (row_splits id n r)) rs

  -- The transaction of a run: what the first row says of it, and all the splits.
  abbrev pub tx_of : Run → Tx
  tx_of g =
      make_tx host (txid g.first) (or_empty (get_elem? g.first 0)) (get_elem? g.first 2)
        (get_elem? g.first 3) (splits_of (txid g.first) 0 (g.first ∷ g.rest))

  abbrev pending : State → List Split → Tx
  pending s splits = make_tx host s.current_tx_id s.last_dt s.last_num s.last_desc splits

  -- What becomes of a state whose rows to come are these runs.
  abbrev absorb : State → List Run → List Tx
  absorb s [] = pending s s.splits ∷ []
  absorb s (g ∷ gs) =
      if same_id (txid g.first) s.current_tx_id
      then pending s (s.splits ++ splits_of s.current_tx_id (length s.splits) (g.first ∷ g.rest))
        ∷ map tx_of gs
      else pending s s.splits ∷ map tx_of (g ∷ gs)

  with_row : State → Row → State
  with_row s r = record s { splits = s.splits ++ row_splits s.current_tx_id (length s.splits) r }

  push_split_lem :
      (r : Row) (s : State) → push_split host r (amount_of host (get_elem? r 12)) s ≡ with_row s r
  unfolding push_split with_row
  push_split_lem r s = at (amount_of host (get_elem? r 12))
    where
      at :
          (o : Option Amount)
          → push_split host r o s ≡ record s {
            splits = s.splits ++ split_of_amount s.current_tx_id (length s.splits) r o;
          }
      at none = rw (append-nil s.splits) refl
      at (some amt) = refl

  absorb-with_row :
      (s : State) (r : Row) (gs : List Run)
      → s.current_tx_id ≡ txid r
      → absorb (with_row s r) gs ≡ absorb s (add_row r gs)
  unfolding with_row
  absorb-with_row s r [] h =
      let same : same_id (txid r) s.current_tx_id ≡ true = rw h (same_id_refl (txid r)) in
      rw (same, append-nil (row_splits s.current_tx_id (length s.splits) r)) refl
  absorb-with_row s r (g ∷ gs) h =
      let same : same_id (txid r) s.current_tx_id ≡ true = rw h (same_id_refl (txid r)) in
      let row = row_splits s.current_tx_id (length s.splits) r in
      let more = splits_of s.current_tx_id (length s.splits + length row) (g.first ∷ g.rest) in
      elim (Bool-cases (same_id (txid g.first) (txid r))) [
        | inl joins ↦
            let joined : same_id (txid g.first) s.current_tx_id ≡ true = rw h joins in
            rw (joins, joined, same, length-append s.splits row)
              (ap (λ l. pending s l ∷ map tx_of gs) (append_assoc s.splits row more))
        | inr parts ↦
            let parted : same_id (txid g.first) s.current_tx_id ≡ false = rw h parts in
            rw (parts, parted, same, append-nil row) refl
      ]

  abbrev IsFlushable : State → Type 0
  IsFlushable s = (is_truthy s.current_tx_id ≡ true) ⊎ (s.splits ≡ [])

  filled :
      (s : State)
      → ltb 0 (length s.splits) ≡ true
      → IsFlushable s
      → is_truthy s.current_tx_id ≡ true
  filled s h (inl truthy) = truthy
  filled s h (inr empty) = absurd (ground (arith, h, ap length empty))

  flush_tx_lem :
      (s : State)
      → IsFlushable s
      → flush_tx host s
        ≡ record s { txs = s.txs ++ filter has_splits (pending s s.splits ∷ []); splits = [] }
  unfolding flush_tx
  flush_tx_lem s h = elim (Bool-cases (ltb 0 (length s.splits))) [
    | inl some_splits ↦ rw (filled s some_splits h, some_splits) refl
    | inr no_splits ↦
        rw (no_splits, Bool-and_false (is_truthy s.current_tx_id))
          (λ i. record s {
            txs = sym (append-nil s.txs) i;
            splits = length_zero s.splits no_splits i;
          })
  ]

  -- the first row of the next transaction
  fresh : List Tx → Row → State
  fresh txs r = record {
    current_tx_id = txid r;
    splits = [];
    last_dt = or_empty (get_elem? r 0);
    last_num = get_elem? r 2;
    last_desc = get_elem? r 3;
    txs = txs;
  }

  absorb-fresh :
      (txs : List Tx) (r : Row) (gs : List Run)
      → absorb (fresh txs r) (add_row r gs) ≡ map tx_of (add_row r gs)
  unfolding fresh
  absorb-fresh txs r [] = rw (same_id_refl (txid r)) refl
  absorb-fresh txs r (g ∷ gs) = elim (Bool-cases (same_id (txid g.first) (txid r))) [
    | inl joins ↦ rw (joins, same_id_refl (txid r)) refl
    | inr parts ↦ rw (parts, same_id_refl (txid r)) refl
  ]

  absorb-add_row :
      (s : State) (r : Row) (gs : List Run)
      → same_id (txid r) s.current_tx_id ≡ false
      → absorb s (add_row r gs) ≡ pending s s.splits ∷ map tx_of (add_row r gs)
  absorb-add_row s r [] other = rw other refl
  absorb-add_row s r (g ∷ gs) other = elim (Bool-cases (same_id (txid g.first) (txid r))) [
    | inl joins ↦ rw (joins, other) refl
    | inr parts ↦ rw (parts, other) refl
  ]

  flushed : State → List Tx
  flushed s = s.txs ++ filter has_splits (pending s s.splits ∷ [])

  flushed-append :
      (s : State) (l : List Tx)
      → flushed s ++ filter has_splits l ≡ s.txs ++ filter has_splits (pending s s.splits ∷ l)
  unfolding flushed
  flushed-append s l =
      append_assoc s.txs (filter has_splits (pending s s.splits ∷ [])) (filter has_splits l)
      ∙ ap (◌++◌ s.txs) (sym (filter-append has_splits (pending s s.splits ∷ []) l))

  step_same :
      (s : State) (r : Row) → same_id (txid r) s.current_tx_id ≡ true → step host s r ≡ with_row s r
  unfolding step begin_tx
  step_same s r same = rw same (push_split_lem r s)

  step_other :
      (s : State) (r : Row)
      → same_id (txid r) s.current_tx_id ≡ false
      → IsFlushable s
      → step host s r ≡ with_row (fresh (flushed s) r) r
  unfolding step begin_tx fresh flushed
  step_other s r other f = rw (other, flush_tx_lem s f) (push_split_lem r (fresh (flushed s) r))

  -- A row has an id that is not empty.
  abbrev pub HasId : Row → Type 0
  HasId r = is_truthy (txid r) ≡ true

  not_null : (i : TxId) → is_truthy i ≡ true → same_id i null ≡ false
  not_null null h = absurd (cc)
  not_null missing h = refl
  not_null (text t) h = refl

  absorb-initial :
      (rs : List Row)
      → All HasId rs
      → filter has_splits (absorb initial (runs rs)) ≡ filter has_splits (map tx_of (runs rs))
  unfolding initial
  absorb-initial [] h = refl
  absorb-initial (r ∷ rs) h =
      ap (filter has_splits) (absorb-add_row initial r (runs rs) (not_null (txid r) h.0))

  loop_lem :
      (rs : List Row) (s : State)
      → All HasId rs
      → IsFlushable s
      → (flush_tx host (loop host s rs)).txs ≡ s.txs ++ filter has_splits (absorb s (runs rs))
  unfolding loop with_row fresh
  loop_lem [] s h f = ap (λ t. t.txs) (flush_tx_lem s f)
  loop_lem (r ∷ rs) s h f = elim (Bool-cases (same_id (txid r) s.current_tx_id)) [
    | inl same ↦
        let current = sym (same_id_eq (txid r) s.current_tx_id same) in
        rw (step_same s r same) (
          loop_lem rs (with_row s r) h.1 (inl (rw current h.0))
          ∙ ap (λ l. s.txs ++ filter has_splits l) (absorb-with_row s r (runs rs) current))
    | inr other ↦
        let b = fresh (flushed s) r in
        rw (step_other s r other f) (
          loop_lem rs (with_row b r) h.1 (inl h.0)
          ∙ ap (λ l. flushed s ++ filter has_splits l)
              (absorb-with_row b r (runs rs) refl ∙ absorb-fresh (flushed s) r (runs rs))
          ∙ flushed-append s (map tx_of (add_row r (runs rs)))
          ∙ ap (λ l. s.txs ++ filter has_splits l) (sym (absorb-add_row s r (runs rs) other)))
  ]

  -- The loop makes one transaction for each run of rows with one id: where every row has an id, its
  -- transactions are those of the runs of rows, in their order, without the runs that have no
  -- amount; a transaction has the date, number and description of its first row and the splits of
  -- all its rows whose amount is a number, in their order.
  pub journal_lem :
      (rs : List Row) → All HasId rs → journal host rs ≡ filter has_splits (map tx_of (runs rs))
  unfolding journal initial
  journal_lem rs h = loop_lem rs initial h (inr refl) ∙ absorb-initial rs h

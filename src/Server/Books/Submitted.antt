-- ===== src/Server/Books/Submitted.antt =====
-- backend/internal/services/transaction_service.go with
-- frontend/src/components/TransactionForm.tsx: what the server makes of a balanced form.
use antimoney.Prelude.{
  ℕ, suc, ◌+◌, ◌*◌, ◌/◌, ◌<◌, ◌≡◌, ◌≢◌, refl, sym, ap, ◌∙◌, true, false, String, none, some, List,
  [], ◌∷◌, map, filter, All, arith, if◌then◌else◌,
}
use antimoney.Prelude.Int.{ℤ, pos, negsuc, abs, neg, pos_part, neg_part, int_laws}
use antimoney.Types.{is_zero, SplitRequest, CreateTransactionRequest}
use antimoney.Editor.{
  round_cents, SplitInput, State, Numbers, read, evaluate_math, total, is_balanced, is_filled,
  parse_split, parsed, handle_submit,
}
use antimoney.Editor.Submit.{handle_submit_sends}
use antimoney.Server.Numeric.{times, neg_pos}
use antimoney.Server.Numeric.Exact.{times-add, times_parts, eq_by_parts}
use antimoney.Server.Books.{Store, Ids, ok, failed, unbalanced, valid_splits, auto_balance}
use antimoney.Server.Books.Requests.{update_transaction}
use antimoney.Server.Books.Cents.{
  InCents, has_value, valid_splits-InCents, cents, even_of_cents, is_unbalanced,
  update_transaction-even,
}

module _ (n : Numbers) where
  -- An empty row, or one whose amount is a number of whole cents that its evaluation keeps.
  pub data IsTyped (x : SplitInput) : Type 0 where
    empty : is_filled n x ≡ false → read n x.amount ≡ none → IsTyped x
    typed :
        (c : ℤ)
        → is_filled n x ≡ true
        → read n x.amount ≡ some (times c 10)
        → read n (evaluate_math n x.amount) ≡ some (times c 10)
        → IsTyped x

  tens : (k : ℕ) → suc k * 10 ≡ suc (k * 10 + 9)
  tens k = omega arith

  tenth : (k : ℕ) → (k * 10 + 9 + 5) / 10 ≡ suc k
  tenth k = omega arith

  round_tens : (c : ℤ) → round_cents (times c 10) ≡ c
  unfolding round_cents
  round_tens (pos k) = ap pos (omega arith)
  round_tens (negsuc k) =
      ap round_cents (ap (λ m. neg (pos m)) (tens k) ∙ neg_pos (k * 10 + 9))
      ∙ ap (λ m. neg (pos m)) (tenth k)
      ∙ neg_pos k

  abbrev Reads : List SplitInput → List SplitRequest → Type 0
  Reads xs ys = map (parse_split n) (filter (is_filled n) xs) ≡ map some ys

  abbrev HasCents : List SplitInput → List SplitRequest → Type 0
  HasCents xs ys = (total n xs ≡ times (cents ys) 10) × All InCents ys

  Reads-rest :
      (x : SplitInput) (xs : List SplitInput) (ys : List SplitRequest)
      → is_filled n x ≡ false
      → Reads (x ∷ xs) ys
      → Reads xs ys
  Reads-rest x xs ys u e =
      sym (
        ap
          (λ b.
            map (parse_split n)
              (if b then x ∷ filter (is_filled n) xs else filter (is_filled n) xs))
          u)
      ∙ e

  Reads-first :
      (x : SplitInput) (xs : List SplitInput) (ys : List SplitRequest)
      → is_filled n x ≡ true
      → Reads (x ∷ xs) ys
      → (parse_split n x ∷ map (parse_split n) (filter (is_filled n) xs)) ≡ map some ys
  Reads-first x xs ys u e =
      sym (
        ap
          (λ b.
            map (parse_split n)
              (if b then x ∷ filter (is_filled n) xs else filter (is_filled n) xs))
          u)
      ∙ e

  abbrev request_of : SplitInput → ℤ → SplitRequest
  request_of x k = record {
    account_guid = x.account_guid;
    memo = x.memo;
    value_num = k;
    value_denom = 100;
    quantity_num = k;
    quantity_denom = 100;
  }

  cents_of_split :
      (x : SplitInput) (y : SplitRequest) (c : ℤ)
      → read n (evaluate_math n x.amount) ≡ some (times c 10)
      → parse_split n x ≡ some y
      → (y.value_num ≡ c) × InCents y
  cents_of_split x y c v e =
      let same : parsed n x (some (times c 10)) ≡ some y = sym (ap (parsed n x) v) ∙ e in
      let sent : request_of x (round_cents (times c 10)) ≡ y = cc in
      (
        sym (ap (λ q. q.value_num) sent) ∙ round_tens c,
        (sym (ap (λ q. q.value_denom) sent), sym (ap (λ q. q.quantity_denom) sent)),
      )

  total_first :
      (x : SplitInput) (xs : List SplitInput) (y : SplitRequest) (ys : List SplitRequest) (c : ℤ)
      → read n x.amount ≡ some (times c 10)
      → y.value_num ≡ c
      → total n xs ≡ times (cents ys) 10
      → total n (x ∷ xs) ≡ times (cents (y ∷ ys)) 10
  unfolding total
  total_first x xs y ys c r e h = rw (r, e, h) (sym (times-add c (cents ys) 10))

  total-none :
      (x : SplitInput) (xs : List SplitInput)
      → read n x.amount ≡ none
      → total n (x ∷ xs) ≡ total n xs
  unfolding total
  total-none x xs r = rw r (omega int_laws)

  total-cents :
      (xs : List SplitInput) (ys : List SplitRequest)
      → All IsTyped xs
      → Reads xs ys
      → HasCents xs ys
  total-cents [] [] h e = (unfold total in refl, tt)
  total-cents [] (y ∷ ys) h e = absurd (cc)
  total-cents (x ∷ xs) ys (empty u r, h) e =
      let (even, units) = total-cents xs ys h (Reads-rest x xs ys u e) in
      (total-none x xs r ∙ even, units)
  total-cents (x ∷ xs) [] (typed c u r v, h) e =
      let impossible = Reads-first x xs [] u e in absurd (cc)
  total-cents (x ∷ xs) (y ∷ ys) (typed c u r v, h) e =
      let parts = Reads-first x xs (y ∷ ys) u e in
      let first : parse_split n x ≡ some y = cc in
      let rest : map (parse_split n) (filter (is_filled n) xs) ≡ map some ys = cc in
      let (even, units) = total-cents xs ys h rest in
      let (value, unit) = cents_of_split x y c v first in
      (total_first x xs y ys c r value even, (unit, units))

  few_parts : (k : ℤ) → abs k < 5 → (pos_part k < 5) × (neg_part k < 5)
  few_parts k h = (omega (arith, h), omega (arith, h))

  zero_of_tens : (k : ℤ) → is_zero (times k 10) ≡ true → k ≡ pos 0
  zero_of_tens k h =
      let small : abs (times k 10) < 5 = ground (arith, h) in
      let (above, below) = few_parts (times k 10) small in
      eq_by_parts k (pos 0) (omega (arith, above, (times_parts k 10).0))
        (omega (arith, below, (times_parts k 10).1))

  -- A balanced form is taken as it is: where it sends a transaction, its total is zero on the
  -- screen, and every row is empty or has a number of whole cents that its evaluation keeps, the
  -- server keeps the splits that are not zero, in their order, adds no balancing split to them,
  -- and does not refuse them as unbalanced in an update.
  pub handle_submit_accepted :
      (s : State) (p : CreateTransactionRequest) (noon : String → String) (ids : Ids)
      (book guid : String) (store : Store)
      → (handle_submit n s).1 ≡ some p
      → is_balanced n s ≡ true
      → All IsTyped s.splits
      → (valid_splits p.splits ≡ ok (filter has_value p.splits))
        × (auto_balance ids book store (filter has_value p.splits)
            ≡ ok (store, filter has_value p.splits))
        × (update_transaction noon ids book guid p store ≢ failed unbalanced)
  unfolding is_balanced auto_balance
  handle_submit_accepted s p noon ids book guid store sent balanced rows =
      let ys = filter has_value p.splits in
      let (even, units) = total-cents s.splits p.splits rows (handle_submit_sends n s p sent).0 in
      let none_left : cents p.splits ≡ pos 0 =
        zero_of_tens (cents p.splits) (sym (ap is_zero even) ∙ balanced) in
      let zero_sum = even_of_cents p.splits units none_left in
      let kept = valid_splits-InCents p.splits units in
      (
        kept,
        rw zero_sum refl,
        λ refused. absurd (
            ground (
              arith,
              ap is_unbalanced refused,
              update_transaction-even noon ids book guid p store ys kept zero_sum,
            )),
      )

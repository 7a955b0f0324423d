-- ===== src/Reconcile/Totals.antt =====
-- The balance that the wizard compares with the statement.
use mathlib.Core.Path.{ap₂}
use antimoney.Prelude.{
  zero, suc, ◌≡◌, refl, ap, ◌∙◌, inl, inr, Bool, true, false, not, ◌&&◌, String, Option, none, some,
  List, [], ◌∷◌, filter, filter-filter, All, All-map, ◌≢◌, arith, Bool-cases, if◌then◌else◌,
}
use antimoney.Prelude.Int.{
  pos, negsuc, ◌+ℤ◌, ◌-ℤ◌, neg, int_laws, regroup, add-sub_assoc, neg-add, add-neg,
}
use antimoney.Types.{
  Amount, AccountType, RegisterEntry, is_credit_normal, root, asset, bank, cash, liability, credit,
  income, expense, equity,
}
use antimoney.Server.{register_amounts, amounts_for, is_debit_normal}
use antimoney.Reconcile.{
  State, credit_normal, is_some, entry_amount, first_amount, left_entries, right_entries,
  add_amounts, is_selected, left_total, right_total, internal_balance,
}

-- The entry shows the signed amount as the server shows it for an account of the type.
abbrev pub Shows : AccountType → Amount → RegisterEntry → Type 0
Shows ty raw e = (e.deposit, e.withdrawal) ≡ register_amounts ty raw

-- The sum of the signed amounts of the entries that pass the test.
abbrev pub sum_where :
    (RegisterEntry → Bool) → (RegisterEntry → Amount) → List RegisterEntry → Amount
sum_where p raw [] = pos 0
sum_where p raw (e ∷ es) = (if p e then raw e else pos 0) +ℤ sum_where p raw es

add_amounts-eq-sum :
    (p : RegisterEntry → Bool) (acc : Amount) (es : List RegisterEntry)
    → add_amounts acc (filter p es) ≡ acc +ℤ sum_where p entry_amount es
add_amounts-eq-sum p acc [] = omega int_laws
add_amounts-eq-sum p acc (e ∷ es) = elim (Bool-cases (p e)) [
  | inl taken ↦ rw taken (add_amounts-eq-sum p (acc +ℤ entry_amount e) es ∙ omega int_laws)
  | inr left_out ↦ rw left_out (add_amounts-eq-sum p acc es ∙ omega int_laws)
]

-- Which of the two amounts counts as funds in, and what an entry adds to the balance.
abbrev counts_in : Bool → Option Amount → Option Amount → Bool
counts_in credit_normal deposit withdrawal =
    if credit_normal then is_some withdrawal else is_some deposit

abbrev contribution : Bool → Option Amount → Option Amount → Amount
contribution cn deposit withdrawal =
    (if counts_in cn deposit withdrawal then first_amount deposit withdrawal else pos 0)
    -ℤ (if counts_in cn withdrawal deposit then first_amount deposit withdrawal else pos 0)

contribution_amounts :
    (cn : Bool) (raw : Amount)
    → contribution cn (amounts_for (not cn) raw).0 (amounts_for (not cn) raw).1 ≡ raw
unfolding neg ◌-ℤ◌
contribution_amounts true (pos zero) = refl
contribution_amounts true (pos (suc n)) = ground arith
contribution_amounts true (negsuc n) = ground arith
contribution_amounts false (pos zero) = refl
contribution_amounts false (pos (suc n)) = ground arith
contribution_amounts false (negsuc n) = ground arith

contribution_swapped :
    (raw : Amount)
    → contribution false (amounts_for false raw).0 (amounts_for false raw).1 ≡ neg raw
unfolding neg ◌-ℤ◌
contribution_swapped (pos zero) = refl
contribution_swapped (pos (suc n)) = ground arith
contribution_swapped (negsuc n) = ground arith

pick_selected :
    (l r chosen : Bool) (a x : Amount)
    → ((if l then a else pos 0) -ℤ (if r then a else pos 0)) ≡ x
    → ((if l && chosen then a else pos 0) -ℤ (if r && chosen then a else pos 0))
      ≡ (if chosen then x else pos 0)
pick_selected true true true a x h = h
pick_selected true false true a x h = h
pick_selected false true true a x h = h
pick_selected false false true a x h = h
pick_selected true true false a x h = omega int_laws
pick_selected true false false a x h = omega int_laws
pick_selected false true false a x h = omega int_laws
pick_selected false false false a x h = omega int_laws

abbrev comes_in : Bool → RegisterEntry → Bool
comes_in cn e = counts_in cn e.deposit e.withdrawal

abbrev goes_out : Bool → RegisterEntry → Bool
goes_out cn e = counts_in cn e.withdrawal e.deposit

module _ (cn : Bool) (chosen : List String) (value : RegisterEntry → Amount) where
  abbrev IsWorth : RegisterEntry → Type 0
  IsWorth e = contribution cn e.deposit e.withdrawal ≡ value e

  sums_apart :
      (es : List RegisterEntry)
      → All IsWorth es
      → sum_where (λ e. comes_in cn e && is_selected chosen e) entry_amount es
          -ℤ sum_where (λ e. goes_out cn e && is_selected chosen e) entry_amount es
        ≡ sum_where (is_selected chosen) value es
  sums_apart [] h = omega int_laws
  sums_apart (e ∷ es) h =
      regroup (if comes_in cn e && is_selected chosen e then entry_amount e else pos 0)
        (sum_where (λ e. comes_in cn e && is_selected chosen e) entry_amount es)
        (if goes_out cn e && is_selected chosen e then entry_amount e else pos 0)
        (sum_where (λ e. goes_out cn e && is_selected chosen e) entry_amount es)
      ∙ ap₂ ◌+ℤ◌
          (pick_selected (comes_in cn e) (goes_out cn e) (is_selected chosen e) (entry_amount e)
            (value e) h.0)
          (sums_apart es h.1)

left_entries-eq-filter :
    (ty : Option AccountType) (es : List RegisterEntry)
    → left_entries ty es ≡ filter (comes_in (credit_normal ty)) es
unfolding left_entries
left_entries-eq-filter ty es = elim (Bool-cases (credit_normal ty)) [ inl h ↦ rw h | inr h ↦ rw h ]

right_entries-eq-filter :
    (ty : Option AccountType) (es : List RegisterEntry)
    → right_entries ty es ≡ filter (goes_out (credit_normal ty)) es
unfolding right_entries
right_entries-eq-filter ty es = elim (Bool-cases (credit_normal ty)) [ inl h ↦ rw h | inr h ↦ rw h ]

left_total-eq-sum :
    (ty : Option AccountType) (s : State)
    → left_total ty s
      ≡ sum_where
          (λ e. comes_in (credit_normal ty) e && is_selected s.selected e)
          entry_amount
          s.entries
unfolding left_total
left_total-eq-sum ty s =
    rw (left_entries-eq-filter ty s.entries, filter-filter)
      (add_amounts-eq-sum (λ e. comes_in (credit_normal ty) e && is_selected s.selected e) (pos 0)
          s.entries
        ∙ omega int_laws)

right_total-eq-sum :
    (ty : Option AccountType) (s : State)
    → right_total ty s
      ≡ sum_where
          (λ e. goes_out (credit_normal ty) e && is_selected s.selected e)
          entry_amount
          s.entries
unfolding right_total
right_total-eq-sum ty s =
    rw (right_entries-eq-filter ty s.entries, filter-filter)
      (add_amounts-eq-sum (λ e. goes_out (credit_normal ty) e && is_selected s.selected e) (pos 0)
          s.entries
        ∙ omega int_laws)

-- What the wizard adds to the starting balance, where each entry is worth the given amount.
internal_balance-eq-sum :
    (ty : Option AccountType) (s : State) (value : RegisterEntry → Amount)
    → All (IsWorth (credit_normal ty) s.selected value) s.entries
    → internal_balance ty s
      ≡ s.starting_balance +ℤ sum_where (is_selected s.selected) value s.entries
unfolding internal_balance
internal_balance-eq-sum ty s value h =
    rw (left_total-eq-sum ty s, right_total-eq-sum ty s)
      (add-sub_assoc s.starting_balance
          (sum_where (λ e. comes_in (credit_normal ty) e && is_selected s.selected e) entry_amount
            s.entries)
          (sum_where (λ e. goes_out (credit_normal ty) e && is_selected s.selected e) entry_amount
            s.entries)
        ∙ ap (◌+ℤ◌ s.starting_balance) (sums_apart (credit_normal ty) s.selected value s.entries h))

-- The types on which the client and the server agree which side is which.
agreed : (ty : AccountType) → ty ≢ root → is_debit_normal ty ≡ not (is_credit_normal ty)
agreed root h = absurd (h refl)
agreed asset h = refl
agreed bank h = refl
agreed cash h = refl
agreed liability h = refl
agreed credit h = refl
agreed income h = refl
agreed expense h = refl
agreed equity h = refl

worth_of_Shows :
    (ty : AccountType) (raw : Amount) (e : RegisterEntry)
    → ty ≢ root
    → Shows ty raw e
    → contribution (is_credit_normal ty) e.deposit e.withdrawal ≡ raw
unfolding register_amounts
worth_of_Shows ty raw e h shows =
    ap (λ (p : Option Amount × Option Amount). contribution (is_credit_normal ty) p.0 p.1) shows
    ∙ ap (λ b. contribution (is_credit_normal ty) (amounts_for b raw).0 (amounts_for b raw).1)
        (agreed ty h)
    ∙ contribution_amounts (is_credit_normal ty) raw

-- For an account of a type other than the root, whose entries show the amounts of their splits as
-- the server does, the reconciled balance is the starting balance and the signed amounts of the
-- selected splits, whichever way the type turns deposits and withdrawals.
pub internal_balance_typed :
    (ty : AccountType) (raw : RegisterEntry → Amount) (s : State)
    → ty ≢ root
    → All (λ e. Shows ty (raw e) e) s.entries
    → internal_balance (some ty) s
      ≡ s.starting_balance +ℤ sum_where (is_selected s.selected) raw s.entries
internal_balance_typed ty raw s h shows = internal_balance-eq-sum (some ty) s raw (
    All-map (λ e. Shows ty (raw e) e) (IsWorth (is_credit_normal ty) s.selected raw) s.entries
      (λ e. worth_of_Shows ty (raw e) e h) shows)

untyped_worth :
    (ty : AccountType) (raw : Amount) (e : RegisterEntry)
    → is_debit_normal ty ≡ false
    → Shows ty raw e
    → contribution false e.deposit e.withdrawal ≡ neg raw
unfolding register_amounts
untyped_worth ty raw e h shows =
    ap (λ (p : Option Amount × Option Amount). contribution false p.0 p.1) shows
    ∙ ap (λ b. contribution false (amounts_for b raw).0 (amounts_for b raw).1) h
    ∙ contribution_swapped raw

neg_if : (b : Bool) (x : Amount) → (if b then neg x else pos 0) ≡ neg (if b then x else pos 0)
neg_if true x = refl
neg_if false x = omega int_laws

sum_where-neg :
    (p : RegisterEntry → Bool) (raw : RegisterEntry → Amount) (es : List RegisterEntry)
    → sum_where p (λ e. neg (raw e)) es ≡ neg (sum_where p raw es)
sum_where-neg p raw [] = omega int_laws
sum_where-neg p raw (e ∷ es) =
    ap₂ ◌+ℤ◌ (neg_if (p e) (raw e)) (sum_where-neg p raw es)
    ∙ neg-add (if p e then raw e else pos 0) (sum_where p raw es)

-- Opened without a type for a credit-normal account, whose entries show the amounts of their
-- splits as the server does, the wizard takes the selected amounts away from the starting balance
-- where it should add them.
pub internal_balance_untyped :
    (ty : AccountType) (raw : RegisterEntry → Amount) (s : State)
    → is_debit_normal ty ≡ false
    → All (λ e. Shows ty (raw e) e) s.entries
    → internal_balance none s
      ≡ s.starting_balance -ℤ sum_where (is_selected s.selected) raw s.entries
internal_balance_untyped ty raw s h shows =
    internal_balance-eq-sum none s (λ e. neg (raw e))
      (All-map (λ e. Shows ty (raw e) e) (IsWorth false s.selected (λ e. neg (raw e))) s.entries
        (λ e. untyped_worth ty (raw e) e h) shows)
    ∙ ap (◌+ℤ◌ s.starting_balance) (sum_where-neg (is_selected s.selected) raw s.entries)
    ∙ add-neg s.starting_balance (sum_where (is_selected s.selected) raw s.entries)

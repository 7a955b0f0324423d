-- ===== src/Reconcile.antt =====
-- frontend/src/components/ReconcileWizard.tsx: the reconciliation of an account with a bank
-- statement.
--
-- `new Date(s).getTime()` is the parameter `time`, with `none` for an invalid date; `parseFloat`
-- and `toFixed(2)` are parameters too. A set of split ids is the list of its members.
pub mod Totals
pub mod Entries
pub mod Listing
pub mod Selection
pub mod Finish
mod Tests
use antimoney.Prelude.{
  ℕ, Ordering, compare, Bool, true, false, not, ◌&&◌, ◌||◌, ◌==◌, String, Option, none, some, List,
  [], ◌∷◌, ◌++◌, map, filter, all, leb, eqb, contains, add, delete, codes, if◌then◌else◌,
}
use Prim.Native.String
use mathlib.Core.Option
use antimoney.Prelude.Int.{ℤ, pos, ◌+ℤ◌, ◌-ℤ◌, neg, abs}
use antimoney.Prelude.Sorting.{sort}
use antimoney.Types.{Amount, AccountType, RegisterEntry, is_credit_normal, is_zero}
use antimoney.Register.Search.{is_space}

pub data Step : Type 0 where
  info select : Step

pub data Error : Type 0 where
  ending_required load_failed reconcile_failed : Error

pub record State : Type 0 where
  pub step : Step
  pub statement_date : String
  pub ending_balance : String
  pub starting_balance : Amount
  pub entries : List RegisterEntry
  pub selected : List String
  pub loading : Bool
  pub error : Option Error

-- The account's type is optional: the wizard is also opened without one.
abbrev pub credit_normal : Option AccountType → Bool
credit_normal none = false
credit_normal (some ty) = is_credit_normal ty

abbrev pub display : Option AccountType → Amount → Amount
display ty x = if credit_normal ty then neg x else x

abbrev pub is_some : Option Amount → Bool
is_some none = false
is_some (some _) = true

-- `e.deposit || e.withdrawal || 0`
abbrev or_zero : Option Amount → Amount
or_zero none = pos 0
or_zero (some a) = a

abbrev pub first_amount : Option Amount → Option Amount → Amount
first_amount none w = or_zero w
first_amount (some a) w = if eqb (abs a) 0 then or_zero w else a

abbrev pub entry_amount : RegisterEntry → Amount
entry_amount e = first_amount e.deposit e.withdrawal

unfoldable pub left_entries : Option AccountType → List RegisterEntry → List RegisterEntry
left_entries ty es =
    if credit_normal ty
    then filter (λ e. is_some e.withdrawal) es
    else filter (λ e. is_some e.deposit) es

unfoldable pub right_entries : Option AccountType → List RegisterEntry → List RegisterEntry
right_entries ty es =
    if credit_normal ty
    then filter (λ e. is_some e.deposit) es
    else filter (λ e. is_some e.withdrawal) es

-- The `reduce` of the totals.
abbrev pub add_amounts : Amount → List RegisterEntry → Amount
add_amounts acc [] = acc
add_amounts acc (e ∷ es) = add_amounts (acc +ℤ entry_amount e) es

abbrev pub is_selected : List String → RegisterEntry → Bool
is_selected chosen e = contains e.split_guid chosen

unfoldable pub left_total : Option AccountType → State → Amount
unfolding left_entries
left_total ty s = add_amounts (pos 0) (filter (is_selected s.selected) (left_entries ty s.entries))

unfoldable pub right_total : Option AccountType → State → Amount
unfolding right_entries
right_total ty s =
    add_amounts (pos 0) (filter (is_selected s.selected) (right_entries ty s.entries))

unfoldable pub internal_balance : Option AccountType → State → Amount
internal_balance ty s = s.starting_balance +ℤ left_total ty s -ℤ right_total ty s

abbrev pub is_empty : List String → Bool
is_empty [] = true
is_empty (_ ∷ _) = false

module _ (parse_float : String → Option Amount) where
  -- `parseFloat(endingBalance) || 0`
  abbrev pub ending_num : State → Amount
  ending_num s = or_zero (parse_float s.ending_balance)

  unfoldable pub difference : Option AccountType → State → Amount
  difference ty s = ending_num s -ℤ display ty (internal_balance ty s)

  unfoldable pub is_balanced : Option AccountType → State → Bool
  is_balanced ty s = is_zero (difference ty s)

  -- `handleFinish` up to its call, with the split ids that it sends.
  unfoldable pub finish_start : Option AccountType → State → State × Option (List String)
  unfolding is_balanced
  finish_start ty s =
      if is_balanced ty s then (record s { loading = true }, some s.selected) else (s, none)

  -- The button of `handleFinish` is enabled.
  unfoldable pub can_finish : Option AccountType → State → Bool
  unfolding is_balanced
  can_finish ty s = is_balanced ty s && not s.loading && not (is_empty s.selected)

-- The answer to `handleFinish`; with success the wizard reports and closes, which is the `true`.
unfoldable pub finish_done : Bool → State → State × Bool
finish_done true s = (record s { loading = false }, true)
finish_done false s = (record s { loading = false; error = some reconcile_failed }, false)

unfoldable pub toggle_entry : String → State → State
toggle_entry guid s = record s {
  selected = if contains guid s.selected then delete guid s.selected else add guid s.selected;
}

-- `new Set(xs)`
abbrev pub to_set : List String → List String → List String
to_set acc [] = acc
to_set acc (x ∷ xs) = to_set (add x acc) xs

unfoldable pub select_all : State → State
select_all s = record s { selected = to_set [] (map (λ e. e.split_guid) s.entries) }

unfoldable pub deselect_all : State → State
deselect_all s = record s { selected = [] }

-- `preSelected`: the entries that are marked as cleared.
abbrev pub pre_selected : List String → List RegisterEntry → List String
pre_selected acc [] = acc
pre_selected acc (e ∷ es) =
    pre_selected (if e.reconcile_state == "c" then add e.split_guid acc else acc) es

abbrev pub is_blank : String → Bool
is_blank s = all is_space (codes s)

module _ (time : String → Option ℕ) where
  -- `new Date(a) <= new Date(b)`, false where either is invalid
  abbrev pub not_after : Option ℕ → Option ℕ → Bool
  not_after (some a) (some b) = leb a b
  not_after none _ = false
  not_after _ none = false

  -- The difference of two times; `NaN` counts as no difference.
  abbrev pub compare_times : Option ℕ → Option ℕ → Ordering
  compare_times (some a) (some b) = compare a b
  compare_times none _ = Ordering.eq
  compare_times _ none = Ordering.eq

  abbrev pub compare_dates : RegisterEntry → RegisterEntry → Ordering
  compare_dates a b = compare_times (time a.post_date) (time b.post_date)

  abbrev pub cutoff : String → Option ℕ
  cutoff date = time (String.◌++◌ date "T23:59:59Z")

  abbrev pub in_statement : Option ℕ → RegisterEntry → Bool
  in_statement limit e = not_after (time e.post_date) limit

  -- The loop with the `break`.
  unfoldable pub last_balance : Option ℕ → Amount → List RegisterEntry → Amount
  last_balance limit acc [] = acc
  last_balance limit acc (e ∷ es) =
      let rest = last_balance limit e.balance es in if in_statement limit e then rest else acc

  -- The suggestion for the ending balance, from the registers of all accounts.
  unfoldable pub suggest :
      (Amount → String) → Option AccountType → List RegisterEntry → State → State
  unfolding last_balance
  suggest to_fixed ty flat s = record s {
    ending_balance =
        to_fixed
          (display ty (last_balance (cutoff s.statement_date) (pos 0) (sort compare_dates flat)));
  }

  abbrev pub is_open : Option ℕ → RegisterEntry → Bool
  is_open limit e = not (e.reconcile_state == "y") && in_statement limit e

  -- `handleStartReconcile` up to its calls; the `true` says that it makes them.
  unfoldable pub start_reconcile : State → State × Bool
  start_reconcile s =
      if is_blank s.ending_balance
      then (record s { error = some ending_required }, false)
      else (record s { error = none; loading = true }, true)

  abbrev pub open_entries : Option ℕ → List RegisterEntry → List RegisterEntry
  open_entries limit flat = sort compare_dates (filter (is_open limit) flat)

  unfoldable pub start_done : Option (List RegisterEntry) → State → State
  start_done none s = record s { error = some load_failed; loading = false }
  start_done (some flat) s =
      let opened = open_entries (cutoff s.statement_date) flat in
      record s {
        entries = opened;
        selected = pre_selected [] opened;
        step = select;
        loading = false;
      }

-- The reconciled balances of the accounts have come.
abbrev pub add_balances : Amount → List Amount → Amount
add_balances acc [] = acc
add_balances acc (b ∷ bs) = add_balances (acc +ℤ b) bs

unfoldable pub balances_done : List Amount → State → State
balances_done balances s = record s { starting_balance = add_balances (pos 0) balances }

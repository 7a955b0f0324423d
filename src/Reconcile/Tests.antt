-- ===== src/Reconcile/Tests.antt =====
-- Runs of the wizard, and its theorems at concrete inputs.
use antimoney.Prelude.{
  ℕ, ◌≡◌, refl, ◌+◌, ◌*◌, ◌-◌, zero, suc, true, String, Option, none, some, List, [], ◌∷◌, map, All,
  codes, ◌≤◌, Distinct,
}
use antimoney.Prelude.Int.{pos, negsuc, neg, abs, ◌+ℤ◌, ◌-ℤ◌}
use antimoney.Prelude.Sorting.{sort}
use antimoney.Types.{Amount, RegisterEntry, credit}
use antimoney.Register.Search.{is_space}
use antimoney.Server.{register_amounts}
use antimoney.Reconcile.{
  Step, State, is_selected, internal_balance, left_total, right_total, is_balanced, difference,
  finish_start, start_done, toggle_entry, balances_done, start_reconcile, ending_num, display,
  last_balance,
}
use antimoney.Reconcile.Totals.{sum_where, internal_balance_typed, internal_balance_untyped}
use antimoney.Reconcile.Finish

-- The days of a text that begins with a date, as one number.
abbrev digits_of : ℕ → ℕ → List ℕ → ℕ
digits_of zero acc s = acc
digits_of (suc n) acc [] = acc
digits_of (suc n) acc (c ∷ s) = digits_of n (acc * 10 + c - 48) s

abbrev time : String → Option ℕ
time s = some (digits_of 10 0 (codes s))

-- A charge of 30.00 and a payment of 50.00 on a credit card, as the server shows them.
abbrev entry : String → String → Amount → String → RegisterEntry
entry guid date raw state =
    let (d, w) = register_amounts credit raw in
    record {
      transaction_guid = guid;
      custom_id = "";
      post_date = date;
      description = "";
      transfer_account = "";
      transfer_account_guid = "";
      deposit = d;
      withdrawal = w;
      balance = raw;
      split_memo = "";
      split_guid = guid;
      reconcile_state = state;
    }

abbrev card : List RegisterEntry
card =
    entry "pay" "2026-05-20T11:00:00Z" (pos 50000) "c"
    ∷ entry "buy" "2026-05-10T11:00:00Z" (negsuc 29999) "n"
    ∷ entry "old" "2026-04-10T11:00:00Z" (negsuc 9999) "y"
    ∷ entry "new" "2026-06-10T11:00:00Z" (negsuc 9999) "n"
    ∷ []

abbrev begun : State
begun = record {
  step = Step.info;
  statement_date = "2026-05-31";
  ending_balance = "80.00";
  starting_balance = negsuc 99999;
  entries = [];
  selected = [];
  loading = true;
  error = none;
}

abbrev started : State
started = record begun {
  entries =
      entry "buy" "2026-05-10T11:00:00Z" (negsuc 29999) "n"
      ∷ entry "pay" "2026-05-20T11:00:00Z" (pos 50000) "c"
      ∷ [];
  selected = "buy" ∷ "pay" ∷ [];
}

wizard : Unit {0}
unfolding start_done sort internal_balance left_total right_total is_balanced difference
    finish_start register_amounts ◌+ℤ◌ ◌-ℤ◌ neg last_balance
wizard = tt

listed : map (λ e. e.split_guid) (start_done time (some card) begun).entries ≡ "buy" ∷ "pay" ∷ []
unfolding wizard
listed = refl

pre_selects : (start_done time (some card) begun).selected ≡ "pay" ∷ []
unfolding wizard
pre_selects = refl

-- The card owes 100.00, then 80.00: with its type the wizard agrees, without it it does not.
balances :
    (internal_balance (some credit) started ≡ negsuc 79999)
    × (internal_balance none started ≡ negsuc 119999)
unfolding wizard
balances = (refl, refl)

abbrev raw_of : RegisterEntry → Amount
raw_of e = e.balance

internal_balance_typed_example :
    internal_balance (some credit) started
    ≡ started.starting_balance +ℤ sum_where (is_selected started.selected) raw_of started.entries
internal_balance_typed_example =
    internal_balance_typed credit raw_of started (cc) (refl, (refl, tt))

internal_balance_untyped_example :
    internal_balance none started
    ≡ started.starting_balance -ℤ sum_where (is_selected started.selected) raw_of started.entries
internal_balance_untyped_example =
    internal_balance_untyped credit raw_of started refl (refl, (refl, tt))

-- The start, a click on the charge, and the end: 80.00 are owed.
abbrev done_so_far : List Finish.Event
done_so_far =
    Finish.balances_came (negsuc 99999 ∷ [])
    ∷ Finish.start_asked
    ∷ Finish.started (some card)
    ∷ Finish.toggled "buy"
    ∷ []

abbrev parse_float : String → Option Amount
parse_float s = some (pos 80000)

abbrev to_fixed : Amount → String
to_fixed x = ""

finished : Unit {0}
unfolding wizard Finish.step toggle_entry balances_done start_reconcile is_space
finished = tt

finish_start_sends_example :
    let t = Finish.run time to_fixed (some credit) done_so_far begun in
    ("pay" ∷ "buy" ∷ [] ≡ t.selected)
    × Distinct ("pay" ∷ "buy" ∷ [])
    × Finish.AreListed t.entries ("pay" ∷ "buy" ∷ [])
    × All Finish.IsUnreconciled t.entries
    × (abs (ending_num parse_float t -ℤ display (some credit) (internal_balance (some credit) t))
        ≤ 4)
unfolding finished
finish_start_sends_example =
    Finish.finish_start_sends time to_fixed (some credit) parse_float done_so_far begun
      ("pay" ∷ "buy" ∷ []) refl refl (tt, (tt, (tt, (refl, tt)))) refl

-- ===== src/Picker/Tests.antt =====
-- Runs of the picker, and its theorems at concrete inputs.
use antimoney.Prelude.{inr, arith, ◌≡◌, refl, true, false, String, none, some, List, [], ◌∷◌, codes}
use antimoney.Prelude.Int.{pos, ◌+ℤ◌}
use antimoney.Types.{Account, bank}
use antimoney.Register.Search.{Text, includes}
use antimoney.Picker.{arrow_down, enter, State, filtered, handle_key_down}
use antimoney.Picker.Range.{IsInRange, handle_key_down-IsInRange}

abbrev account : String → Account
account name = record {
  guid = name;
  name = name;
  account_type = bank;
  parent_guid = none;
  placeholder = false;
  description = "";
  plaid = none;
  version = 1;
  balance = pos 0;
  reconciled_balance = pos 0;
  last_reconciled = none;
}

abbrev same : Text → Text
same s = s

abbrev accounts : List Account
accounts = account "checking" ∷ account "food" ∷ account "savings" ∷ []

abbrev typing : State
typing = record { query = codes "ing"; is_open = true; highlight = pos 1 }

picks_second_match : (handle_key_down same accounts enter typing).1 ≡ some "savings"
unfolding handle_key_down filtered includes
picks_second_match = refl

typing-IsInRange : IsInRange typing.highlight (filtered same accounts typing.query)
unfolding filtered includes
typing-IsInRange = (omega arith, inr (omega arith))

stops_at_last : (handle_key_down same accounts arrow_down typing).0.highlight ≡ pos 1
unfolding handle_key_down filtered includes ◌+ℤ◌
stops_at_last = refl

handle_key_down-IsInRange_example :
    let t = (handle_key_down same accounts arrow_down typing).0 in
    IsInRange t.highlight (filtered same accounts t.query)
handle_key_down-IsInRange_example =
    handle_key_down-IsInRange same accounts arrow_down typing typing-IsInRange

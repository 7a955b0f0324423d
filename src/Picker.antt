-- ===== src/Picker.antt =====
-- frontend/src/components/AccountPicker.tsx: the combobox that chooses an account.
--
-- `toLowerCase` is the parameter `lower`. The highlighted index can become -1, so it is an
-- integer. An option list that changes without the query leaves the index as it is.
pub mod Laws
pub mod Range
mod Tests
use antimoney.Prelude.{
  ℕ, zero, suc, Bool, true, false, not, ◌&&◌, ◌||◌, ◌==◌, String, Option, none, some, List, [], ◌∷◌,
  filter, find, length, get_elem?, codes, if◌then◌else◌,
}
use antimoney.Prelude.Int.{ℤ, pos, negsuc, ◌+ℤ◌, sub_ℕ, leb_ℤ}
use antimoney.Types.{
  Account, AccountType, root, asset, bank, cash, liability, credit, income, expense, equity,
}
use antimoney.Register.Search.{Text, includes}

pub data Key : Type 0 where
  arrow_down arrow_up enter escape other : Key

pub record State : Type 0 where
  pub query : Text
  pub is_open : Bool
  pub highlight : ℤ

abbrev pub type_name : AccountType → String
type_name root = "ROOT"
type_name asset = "ASSET"
type_name bank = "BANK"
type_name cash = "CASH"
type_name liability = "LIABILITY"
type_name credit = "CREDIT"
type_name income = "INCOME"
type_name expense = "EXPENSE"
type_name equity = "EQUITY"

-- `filtered[i]`
abbrev pub option_at : ℤ → List Account → Option Account
option_at (pos n) l = get_elem? l n
option_at (negsuc n) l = none

abbrev pub min_ℤ : ℤ → ℤ → ℤ
min_ℤ a b = if leb_ℤ a b then a else b

abbrev pub max_ℤ : ℤ → ℤ → ℤ
max_ℤ a b = if leb_ℤ a b then b else a

abbrev pub is_no_text : Text → Bool
is_no_text [] = true
is_no_text (_ ∷ _) = false

-- A click on the field, a click outside, and the choice of an option.
unfoldable pub open_list : State → State
open_list s = record s { is_open = true }

-- `setQuery('')`: the effect on `query` resets the highlight, if the query has changed.
abbrev pub clear_query : State → State
clear_query s = record s {
  query = [];
  highlight = if is_no_text s.query then s.highlight else pos 0;
}

unfoldable pub close_list : State → State
close_list s = clear_query (record s { is_open = false })

-- Typing, which changes the query.
unfoldable pub set_query : Text → State → State
set_query q s = record s { query = q; highlight = pos 0 }

-- `accounts.find(a => a.guid === value)`
unfoldable pub selected_account : List Account → String → Option Account
selected_account accounts value = find (λ a. a.guid == value) accounts

module _ (lower : Text → Text) where
  abbrev pub matches : Text → Account → Bool
  matches query a =
      includes (lower (codes a.name)) (lower query)
      || includes (lower (codes (type_name a.account_type))) (lower query)

  unfoldable pub filtered : List Account → Text → List Account
  filtered accounts query = if is_no_text query then accounts else filter (matches query) accounts

  abbrev pub choose : Option Account → State → State × Option String
  choose none s = (s, none)
  choose (some a) s = (clear_query (record s { is_open = false }), some a.guid)

  -- The keys while the list is open.
  abbrev pub open_key : List Account → Key → State → State × Option String
  open_key shown arrow_down s =
      (record s { highlight = min_ℤ (s.highlight +ℤ pos 1) (sub_ℕ (length shown) 1) }, none)
  open_key shown arrow_up s =
      (record s { highlight = max_ℤ (s.highlight +ℤ negsuc 0) (pos 0) }, none)
  open_key shown enter s = choose (option_at s.highlight shown) s
  open_key shown escape s = (clear_query (record s { is_open = false }), none)
  open_key shown other s = (s, none)

  -- The keys while it is closed.
  abbrev pub closed_key : Key → State → State × Option String
  closed_key arrow_down s = (record s { is_open = true }, none)
  closed_key enter s = (record s { is_open = true }, none)
  closed_key _ s = (s, none)

  -- `handleKeyDown`, with the argument of `onChange` where that is called.
  unfoldable pub handle_key_down : List Account → Key → State → State × Option String
  handle_key_down accounts key s =
      if s.is_open then open_key (filtered accounts s.query) key s else closed_key key s

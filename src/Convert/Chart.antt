-- ===== src/Convert/Chart.antt =====
-- scripts/convert_csv.js: the loop over the lines of accounts.csv, and the order of the accounts.
use mathlib.Core.Option
use antimoney.Prelude.{
  ℕ, ◌-◌, Bool, false, Ordering, compare, Option, none, some, List, [], ◌∷◌, length, take,
  get_elem?, codes, ltb, if◌then◌else◌,
}
use antimoney.Prelude.Sorting.{sort}
use antimoney.Register.Search.{Text}
use antimoney.Editor.{same_text}
use antimoney.Convert.{Host, uuid, split, join, or_empty, named}

pub record Account : Type 0 where
  pub guid : Text
  pub parent_guid : Option Text
  pub name : Option Text
  pub full_name : Text
  pub account_type : Option Text
  pub placeholder : Bool
  pub desc : Text

-- An account of the import file.
pub record ImportAccount : Type 0 where
  pub guid : Text
  pub name : Option Text
  pub account_type : Option Text
  pub parent_guid : Option Text
  pub placeholder : Bool
  pub description : Text

-- All pieces but the last one, where there is more than one.
unfoldable pub parent_name : Text → Option Text
parent_name full_name =
    let pts = split full_name in
    if ltb 1 (length pts) then some (join (take (length pts - 1) pts)) else none

-- `parentName ? uuid('acc-' + parentName) : null`
abbrev parent_guid : Host → Option Text → Option Text
parent_guid host none = none
parent_guid host (some []) = none
parent_guid host (some (c ∷ s)) = some (uuid host (named "acc-" (c ∷ s)))

-- `column === text`
abbrev pub is_text : Option Text → Text → Bool
is_text none t = false
is_text (some s) t = same_text s t

abbrev pub account_named : Host → List Text → Text → Account
account_named host cols full_name = record {
  guid = uuid host (named "acc-" full_name);
  parent_guid = parent_guid host (parent_name full_name);
  name = get_elem? cols 2;
  full_name = full_name;
  account_type = get_elem? cols 0;
  placeholder = is_text (get_elem? cols 11) (codes "T");
  desc = or_empty (get_elem? cols 4);
}

-- A row without a second column makes `fullName.split` throw.
unfoldable pub account_of : Host → List Text → Option Account
account_of host cols = Option.map (account_named host cols) (get_elem? cols 1)

abbrev cons_account : Option Account → Option (List Account) → Option (List Account)
cons_account none rest = none
cons_account (some a) none = none
cons_account (some a) (some l) = some (a ∷ l)

unfoldable pub accounts_of : Host → List (List Text) → Option (List Account)
accounts_of host [] = some []
accounts_of host (cols ∷ rest) = cons_account (account_of host cols) (accounts_of host rest)

abbrev pub depth : Account → ℕ
depth a = length (split a.full_name)

-- `a.fullName.split(':').length - b.fullName.split(':').length`
abbrev pub compare_depth : Account → Account → Ordering
compare_depth a b = compare (depth a) (depth b)

unfoldable pub chart : Host → List (List Text) → Option (List Account)
chart host rs = Option.map (sort compare_depth) (accounts_of host rs)

unfoldable pub import_account : Account → ImportAccount
import_account a = record {
  guid = a.guid;
  name = a.name;
  account_type = a.account_type;
  parent_guid = a.parent_guid;
  placeholder = a.placeholder;
  description = a.desc;
}

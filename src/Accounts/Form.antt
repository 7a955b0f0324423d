-- ===== src/Accounts/Form.antt =====
-- frontend/src/components/AccountForm.tsx: the form of an account, and the list from which its
-- parent is chosen.
--
-- A text is drawn before each account of that list, so it is a list of code points. `trim` is a
-- parameter. The loops of `buildTree` are those of AccountTree.tsx, without the totals.
pub mod Listed
use antimoney.Prelude.{
  ℕ, zero, suc, Bool, true, false, not, ◌||◌, ◌==◌, String, Option, none, some, List, [], ◌∷◌, ◌++◌,
  length, find, codes, if◌then◌else◌,
}
use antimoney.Types.{Account, AccountType, bank, is_root}
use antimoney.Register.Search.{Text}
use antimoney.Tree.{Forest, nil, cons, node, build_nodes, read_forest}

pub record FlatRow : Type 0 where
  pub account : Account
  pub depth : ℕ
  pub prefix : Text

-- Whether `visible` has an account.
abbrev pub any_visible : Forest → Bool
any_visible nil = false
any_visible (cons (node a b r children) ts) = not (is_root a.account_type) || any_visible ts

abbrev connector : ℕ → Bool → Text
connector zero last = []
connector (suc depth) last = if last then codes "└── " else codes "├── "

abbrev pub child_prefix : ℕ → Text → Bool → Text
child_prefix zero parent_prefix last = []
child_prefix (suc depth) parent_prefix last =
    parent_prefix ++ (if last then codes "    " else codes "│   ")

-- `flattenAccounts`: first the children of the roots, then the other accounts, each before its
-- own children.
unfoldable mutual
  pub root_rows : ℕ → Text → Forest → List FlatRow
  root_rows depth prefix nil = []
  root_rows depth prefix (cons (node a b r children) ts) =
      let rest = root_rows depth prefix ts in
      let below = root_rows depth prefix children ++ visible_rows depth prefix children in
      if is_root a.account_type then below ++ rest else rest

  pub visible_rows : ℕ → Text → Forest → List FlatRow
  visible_rows depth prefix nil = []
  visible_rows depth prefix (cons (node a b r children) ts) =
      let last = not (any_visible ts) in
      let under = child_prefix depth prefix last in
      let rest = visible_rows depth prefix ts in
      let below = root_rows (suc depth) under children ++ visible_rows (suc depth) under children in
      if is_root a.account_type
      then rest
      else record { account = a; depth = depth; prefix = prefix ++ connector depth last } ∷ below
        ++ rest

unfoldable pub flatten_accounts : ℕ → Text → Forest → List FlatRow
unfolding root_rows
flatten_accounts depth prefix f = root_rows depth prefix f ++ visible_rows depth prefix f

-- `flattenAccounts(buildTree(accounts))`
unfoldable pub flat_list : List Account → List FlatRow
unfolding flatten_accounts
flat_list accounts =
    let (m, roots) = build_nodes accounts in
    flatten_accounts 0 [] (read_forest (suc (length accounts)) m roots)

pub data Error : Type 0 where
  name_required : Error
  message : String → Error

pub record State : Type 0 where
  pub name : String
  pub description : String
  pub account_type : AccountType
  pub parent_guid : String
  pub placeholder : Bool
  pub error : Option Error
  pub loading : Bool

abbrev text_of : Option String → String
text_of none = ""
text_of (some s) = s

unfoldable pub initial : Option Account → State
initial none = record {
  name = "";
  description = "";
  account_type = bank;
  parent_guid = "";
  placeholder = false;
  error = none;
  loading = false;
}
initial (some a) = record {
  name = a.name;
  description = a.description;
  account_type = a.account_type;
  parent_guid = text_of a.parent_guid;
  placeholder = a.placeholder;
  error = none;
  loading = false;
}

-- What is sent; `update` holds the id and the version of the account that is edited.
pub record AccountRequest : Type 0 where
  pub update : Option (String × ℕ)
  pub name : String
  pub description : String
  pub placeholder : Bool
  pub account_type : AccountType
  pub parent_guid : Option String

-- `accounts.find(a => a.account_type === 'ROOT')?.guid || null`
abbrev root_guid : Option Account → Option String
root_guid none = none
root_guid (some a) = if a.guid == "" then none else some a.guid

-- `parentGuid || rootAccount?.guid || null`
abbrev pub chosen_parent : List Account → String → Option String
chosen_parent accounts parent =
    if parent == "" then root_guid (find (λ a. is_root a.account_type) accounts) else some parent

abbrev edited : Option Account → Option (String × ℕ)
edited none = none
edited (some a) = some (a.guid, a.version)

unfoldable pub handle_submit :
    (String → String) → List Account → Option Account → State → State × Option AccountRequest
handle_submit trim accounts editing s =
    if trim s.name == "" then (record s { error = some name_required }, none) else (
      record s { error = none; loading = true },
      some (record {
        update = edited editing;
        name = trim s.name;
        description = trim s.description;
        placeholder = s.placeholder;
        account_type = s.account_type;
        parent_guid = chosen_parent accounts s.parent_guid;
      }),
    )

-- The answer, and whether the form closes.
unfoldable pub submit_done : Option Error → State → State × Bool
submit_done none s = (record s { loading = false }, true)
submit_done (some e) s = (record s { error = some e; loading = false }, false)

-- The effect's listener: whether the form closes.
abbrev pub key_closes : String → Bool
key_closes key = key == "Escape"

-- ===== src/Tree.antt =====
-- frontend/src/components/AccountTree.tsx: the chart of accounts as a tree.
--
-- `buildTree` shares mutable nodes through a `Map`. The map is the store: the nodes in the order
-- in which their ids were first set, each with the ids of its children, so that a child list
-- refers to nodes and a later change of a node is seen through it. The tree that the recursive
-- functions walk is read off the store; `fuel` bounds its depth, and the nodes of a cycle of
-- parents hang under no root.
pub mod Totals
pub mod Find
pub mod Links
pub mod Built
pub mod Stands
pub mod Partition
mod Tests
use antimoney.Prelude.{
  ℕ, zero, suc, Bool, true, false, not, ◌==◌, String, Option, none, some, List, [], ◌∷◌, ◌++◌,
  length, ltb, if◌then◌else◌,
}
use antimoney.Prelude.Int.{pos, ◌+ℤ◌}
use antimoney.Types.{Amount, Account, AccountType, is_root, is_zero, signed}

pub record Node : Type 0 where
  pub account : Account
  pub children : List String

abbrev pub Store : Type 0
Store = List (String × Node)

unfoldable pub get : String → Store → Option Node
get k [] = none
get k ((j, n) ∷ m) = if j == k then some n else get k m

-- `map.set(k, n)`
unfoldable pub put : String → Node → Store → Store
put k n [] = (k, n) ∷ []
put k n ((j, o) ∷ m) = if j == k then (j, n) ∷ m else (j, o) ∷ put k n m

-- `map.has(k)`
abbrev pub is_node : Option Node → Bool
is_node none = false
is_node (some n) = true

abbrev pub has : String → Store → Bool
has k m = is_node (get k m)

-- `map.get(parent)!.children!.push(node)`
unfoldable pub add_child : String → String → Store → Store
add_child parent child [] = []
add_child parent child ((j, n) ∷ m) =
    if j == parent
    then (j, record n { children = n.children ++ (child ∷ []) }) ∷ m
    else (j, n) ∷ add_child parent child m

-- The first loop.
unfoldable pub set_nodes : List Account → Store → Store
set_nodes [] m = m
set_nodes (a ∷ as') m = set_nodes as' (put a.guid (record { account = a; children = [] }) m)

-- `a.parent_guid && map.has(a.parent_guid)`: the parent under which the account is hung.
abbrev pub parent_of : Store → Option String → Option String
parent_of m none = none
parent_of m (some p) = if p == "" then none else if has p m then some p else none

abbrev pub parent_in : Store → Account → Option String
parent_in m a = parent_of m a.parent_guid

abbrev pub link_under : Option String → Account → Store → List String → Store × List String
link_under none a m roots = (m, roots ++ (a.guid ∷ []))
link_under (some p) a m roots = (add_child p a.guid m, roots)

-- The second loop; both of its last branches push the node to the roots.
unfoldable pub link_nodes : List Account → Store → List String → Store × List String
link_nodes [] m roots = (m, roots)
link_nodes (a ∷ as') m roots =
    let (m', roots') = link_under (parent_in m a) a m roots in link_nodes as' m' roots'

-- A node with its aggregated balances and its children.
mutual
  pub data Tree : Type 0 where
    node : Account → Amount → Amount → Forest → Tree

  pub data Forest : Type 0 where
    nil : Forest
    cons : Tree → Forest → Forest

-- The ids of a node's children, and the forest with the node in front.
abbrev pub children_of : Option Node → List String
children_of none = []
children_of (some n) = n.children

abbrev pub with_node : Option Node → Forest → Forest → Forest
with_node none children rest = rest
with_node (some n) children rest =
    cons (node n.account n.account.balance n.account.reconciled_balance children) rest

unfoldable pub read_forest : ℕ → Store → List String → Forest
read_forest zero m ids = nil
read_forest (suc fuel) m [] = nil
read_forest (suc fuel) m (k ∷ ids) =
    with_node (get k m) (read_forest fuel m (children_of (get k m))) (read_forest (suc fuel) m ids)

-- `aggregate`: the node with its totals, and the totals that it returns.
unfoldable mutual
  pub aggregate : Tree → Tree × Amount × Amount
  aggregate (node a b r children) =
      let (children', bal, rec_bal) = aggregate_children a.balance a.reconciled_balance children in
      (node a bal rec_bal children', bal, rec_bal)

  pub aggregate_children : Amount → Amount → Forest → Forest × Amount × Amount
  aggregate_children bal rec_bal nil = (nil, bal, rec_bal)
  aggregate_children bal rec_bal (cons t ts) =
      let (t', b, r) = aggregate t in
      let (ts', bal', rec_bal') = aggregate_children (bal +ℤ b) (rec_bal +ℤ r) ts in
      (cons t' ts', bal', rec_bal')

-- `roots.forEach(aggregate)`
unfoldable pub aggregate_roots : Forest → Forest
aggregate_roots nil = nil
aggregate_roots (cons t ts) = cons (aggregate t).0 (aggregate_roots ts)

-- The store and the roots after both loops.
unfoldable pub build_nodes : List Account → Store × List String
unfolding set_nodes link_nodes put
build_nodes accounts = link_nodes accounts (set_nodes accounts []) []

unfoldable pub build_tree : List Account → Forest
unfolding build_nodes aggregate_roots read_forest
build_tree accounts =
    let (m, roots) = build_nodes accounts in
    aggregate_roots (read_forest (suc (length accounts)) m roots)

-- `collectGuids`
unfoldable mutual
  pub collect_guids : Tree → List String
  collect_guids (node a b r children) = a.guid ∷ collect_children children

  pub collect_children : Forest → List String
  collect_children nil = []
  collect_children (cons t ts) = collect_guids t ++ collect_children ts

-- The balance that a row shows, and whether it is greyed out.
abbrev pub display_balance : Bool → Tree → Amount
display_balance show_reconciled (node a b r children) = if show_reconciled then r else b

abbrev pub tree_account : Tree → Account
tree_account (node a b r children) = a

unfoldable pub final_balance : Bool → Tree → Amount
final_balance show_reconciled t =
    let shown = signed (tree_account t).account_type (display_balance show_reconciled t) in
    if is_zero shown then pos 0 else shown

-- `findInTree` of frontend/src/pages/Accounts.tsx.
abbrev pub is_found : Option Tree → Bool
is_found none = false
is_found (some t) = true

abbrev or_else : Option Tree → Option Tree → Option Tree
or_else none o = o
or_else (some t) o = some t

unfoldable mutual
  pub find_in_tree : String → Tree → Option Tree
  find_in_tree k (node a b r children) =
      if a.guid == k then some (node a b r children) else find_in_forest k children

  pub find_in_forest : String → Forest → Option Tree
  find_in_forest k nil = none
  find_in_forest k (cons t ts) = or_else (find_in_tree k t) (find_in_forest k ts)

-- `handleReconcile`: the accounts that the wizard is opened for.
abbrev guids_or : String → Option Tree → List String
guids_or k none = k ∷ []
guids_or k (some t) = collect_guids t

unfoldable pub reconcile_guids : List Account → String → List String
unfolding build_tree find_in_forest collect_guids
reconcile_guids accounts k = guids_or k (find_in_forest k (build_tree accounts))

-- `useState` of `expanded`, from what `localStorage` holds; and the click on the arrow, with the
-- text that it stores.
unfoldable pub initial_expanded : Option String → ℕ → Bool
initial_expanded none depth = ltb depth 2
initial_expanded (some saved) depth = saved == "true"

abbrev pub bool_text : Bool → String
bool_text true = "true"
bool_text false = "false"

unfoldable pub toggle_expanded : Bool → Bool × String
toggle_expanded expanded = (not expanded, bool_text (not expanded))

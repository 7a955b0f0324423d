-- ===== src/Tree/Tests.antt =====
-- A chart of accounts, and the theorems on it.
use antimoney.Prelude.{
  ℕ, ◌<◌, ◌==◌, ◌≡◌, refl, subst, arith, occurrences, if◌then◌else◌, false, String, Option, none,
  some, List, [], ◌∷◌, contains,
}
use antimoney.Prelude.Int.{pos, ◌+ℤ◌}
use antimoney.Types.{Amount, Account, AccountType, root, asset, bank, cash}
use antimoney.Tree.{
  Tree, Forest, build_tree, build_nodes, read_forest, reconcile_guids, get, put, set_nodes,
  add_child, link_nodes, aggregate_roots, aggregate, aggregate_children, find_in_forest,
  find_in_tree, collect_children, collect_guids, is_found, tree_account,
}
use antimoney.Tree.Totals.{HaveTotals, accounts_below, aggregate_roots-HaveTotals}
use antimoney.Tree.Built.{ids_of}
use antimoney.Tree.Partition.{IsAcyclic, build_tree-occurrences}
use antimoney.Tree.Find.{IsSubtree, find_in_forest_lem}

abbrev account : String → Option String → AccountType → Amount → Account
account guid parent ty balance = record {
  guid = guid;
  name = guid;
  account_type = ty;
  parent_guid = parent;
  placeholder = false;
  description = "";
  plaid = none;
  version = 1;
  balance = balance;
  reconciled_balance = pos 0;
  last_reconciled = none;
}

-- A child stands before its parent, and one account's parent is missing.
abbrev chart : List Account
chart =
    account "wallet" (some "assets") cash (pos 20)
    ∷ account "assets" (some "root") asset (pos 5)
    ∷ account "root" none root (pos 0)
    ∷ account "bank" (some "assets") bank (pos 300)
    ∷ account "lost" (some "nowhere") bank (pos 7)
    ∷ []

tree_runs : Unit {0}
unfolding build_nodes build_tree read_forest get put set_nodes add_child link_nodes aggregate_roots
    aggregate aggregate_children find_in_forest find_in_tree collect_children collect_guids
    reconcile_guids ◌+ℤ◌
tree_runs = tt

reconciles_descendants : reconcile_guids chart "assets" ≡ "assets" ∷ "wallet" ∷ "bank" ∷ []
unfolding tree_runs
reconciles_descendants = refl

lists_each_once :
    collect_children (build_tree chart) ≡ "root" ∷ "assets" ∷ "wallet" ∷ "bank" ∷ "lost" ∷ []
unfolding tree_runs
lists_each_once = refl

abbrev forest : Forest
forest = let (m, roots) = build_nodes chart in read_forest 6 m roots

aggregate_roots-HaveTotals_example :
    HaveTotals (aggregate_roots forest)
    × (accounts_below (aggregate_roots forest) ≡ accounts_below forest)
aggregate_roots-HaveTotals_example = aggregate_roots-HaveTotals forest

find_in_forest_lem_example :
    (is_found (find_in_forest "bank" (build_tree chart))
      ≡ contains "bank" (collect_children (build_tree chart)))
    × ((u : Tree)
        → find_in_forest "bank" (build_tree chart) ≡ some u
        → IsSubtree u (build_tree chart) × ((tree_account u).guid ≡ "bank"))
find_in_forest_lem_example = find_in_forest_lem "bank" (build_tree chart)

abbrev rank : String → ℕ
rank k = if k == "root" then 0 else if k == "assets" then 1 else 2

abbrev rank_of : Option String → ℕ
rank_of none = 0
rank_of (some k) = rank k

-- An account stands below its parent.
below : (o : Option String) (n : ℕ) → rank_of o < n → (p : String) → o ≡ some p → rank p < n
below o n lt p h = subst (λ x. rank_of x < n) h lt

chart-IsAcyclic : IsAcyclic chart rank
unfolding tree_runs
chart-IsAcyclic = record {
  distinct = (refl, (refl, (refl, (refl, (refl, tt)))));
  climbs = (
    below (some "assets") 2 (omega arith),
    (
      below (some "root") 1 (omega arith),
      (λ p h. cc, (below (some "assets") 2 (omega arith), (λ p h. cc, tt))),
    ),
  );
  bounded = omega arith;
}

build_tree-occurrences_example :
    occurrences "wallet" (collect_children (build_tree chart)) ≡ occurrences "wallet" (ids_of chart)
build_tree-occurrences_example = build_tree-occurrences chart rank "wallet" chart-IsAcyclic

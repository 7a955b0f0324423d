-- ===== src/Tree/Built.antt =====
-- The store and the roots that both loops of `buildTree` leave, in terms of the accounts alone.
use antimoney.Prelude.{
  ◌≡◌, refl, sym, ap, ◌∙◌, inl, inr, ◌&&◌, ◌||◌, ◌==◌, eq_iff, String, Option, none, some, List, [],
  ◌∷◌, map, arith, Bool-cases, contains, occurrences,
}
use antimoney.Types.{Account}
use antimoney.Tree.{
  children_of, Node, Store, get, put, has, set_nodes, parent_in, link_nodes, build_nodes,
}
use antimoney.Tree.Links.{
  account_of, count_where, get-put, hangs_nowhere, hangs_under, is_known, is_node_account,
  link_nodes-IsLinked,
}

-- The first loop, for accounts of different ids: a node without children for each.
set_nodes-children :
    (accounts : List Account) (m : Store) (i : String)
    → children_of (get i m) ≡ []
    → children_of (get i (set_nodes accounts m)) ≡ []
unfolding set_nodes
set_nodes-children [] m i h = h
set_nodes-children (a ∷ as') m i h =
    set_nodes-children as' (put a.guid (record { account = a; children = [] }) m) i
      (ground (arith, h, get-put i a.guid (record { account = a; children = [] }) m))

abbrev pub ids_of : List Account → List String
ids_of = map (λ a. a.guid)

pub has-set_nodes :
    (accounts : List Account) (m : Store) (i : String)
    → has i (set_nodes accounts m) ≡ (contains i (ids_of accounts) || has i m)
unfolding set_nodes
has-set_nodes [] m i = refl
has-set_nodes (a ∷ as') m i = ground (
  arith,
  eq_iff i a.guid,
  eq_iff a.guid i,
  has-set_nodes as' (put a.guid (record { account = a; children = [] }) m) i,
  get-put i a.guid (record { account = a; children = [] }) m,
)

-- The node of an id holds an account with that id.
abbrev pub HasId : String → Option Account → Type 0
HasId i none = Unit
HasId i (some a) = a.guid ≡ i

pub set_nodes-HasId :
    (accounts : List Account) (m : Store) (i : String)
    → HasId i (account_of (get i m))
    → HasId i (account_of (get i (set_nodes accounts m)))
unfolding set_nodes
set_nodes-HasId [] m i h = h
set_nodes-HasId (a ∷ as') m i h =
    let n : Node = record { account = a; children = [] } in
    set_nodes-HasId as' (put a.guid n m) i (elim (Bool-cases (a.guid == i)) [
      | inl here ↦ rw (get-put i a.guid n m, here) ((eq_iff a.guid i).0 here)
      | inr other ↦ rw (get-put i a.guid n m, other) h
    ])

-- What `build_nodes` leaves, in terms of the list alone.
abbrev pub parent_among : List Account → Account → Option String
parent_among accounts a = parent_in (set_nodes accounts []) a

pub record IsBuilt (accounts : List Account) (m : Store) (roots : List String) : Type 0 where
  pub ids : (i : String) → HasId i (account_of (get i m))
  pub known : (i : String) → has i m ≡ contains i (ids_of accounts)
  pub children :
      (i k : String)
      → occurrences k (children_of (get i m))
        ≡ count_where (λ a. k == a.guid && hangs_under i (parent_among accounts a)) accounts
  pub top :
      (k : String)
      → occurrences k roots
        ≡ count_where (λ a. k == a.guid && hangs_nowhere (parent_among accounts a)) accounts

pub build_nodes-IsBuilt :
    (accounts : List Account) → IsBuilt accounts (build_nodes accounts).0 (build_nodes accounts).1
unfolding build_nodes get
build_nodes-IsBuilt accounts =
    let m = set_nodes accounts [] in
    let linked = link_nodes-IsLinked accounts m [] in
    record {
      ids = λ i. rw (linked.account i) (set_nodes-HasId accounts [] i tt);
      known = λ i.
          is_node_account (get i (link_nodes accounts m []).0)
          ∙ ap is_known (linked.account i)
          ∙ sym (is_node_account (get i m))
          ∙ ground (arith, has-set_nodes accounts [] i);
      children = λ i k. ground (arith, linked.children i k, set_nodes-children accounts [] i refl);
      top = λ k. omega (arith, linked.top k);
    }

-- ===== src/Tree/Find.antt =====
-- The search for the account that is to be reconciled with its descendants.
use antimoney.Prelude.{
  ◌≡◌, refl, ◌⊎◌, inl, inr, ◌==◌, eq_iff, String, Option, none, some, arith, Bool-cases, contains,
  contains-append, subst,
}
use antimoney.Types.{Amount, Account}
use antimoney.Tree.{
  Tree, node, Forest, nil, cons, collect_guids, collect_children, find_in_tree, find_in_forest,
  tree_account, or_else, is_found,
}

or_else-eq-some :
    (o p : Option Tree) {u : Tree} → or_else o p ≡ some u → (o ≡ some u) ⊎ (p ≡ some u)
or_else-eq-some none p h = inr h
or_else-eq-some (some t) p h = inl h

-- The tree hangs in the forest, with its children: it is one of the forest's trees, or it hangs
-- below one.
pub data IsSubtree (u : Tree) : Forest → Type 0 where
  here : (ts : Forest) → IsSubtree u (cons u ts)
  below :
      (a : Account) (b r : Amount) (children ts : Forest)
      → IsSubtree u children
      → IsSubtree u (cons (node a b r children) ts)
  later : (t : Tree) (ts : Forest) → IsSubtree u ts → IsSubtree u (cons t ts)

-- What a search finds.
abbrev pub IsFound : String → Forest → Tree → Type 0
IsFound k ts u = IsSubtree u ts × ((tree_account u).guid ≡ k)

mutual
  unfolding find_in_tree

  find_in_tree-IsFound :
      (k : String) (t u : Tree) (ts : Forest) → find_in_tree k t ≡ some u → IsFound k (cons t ts) u
  find_in_tree-IsFound k (node a b r children) u ts h = elim (Bool-cases (a.guid == k)) [
    | inl this ↦
        let same : node a b r children ≡ u = ground (arith, h, this) in
        subst (IsFound k (cons (node a b r children) ts)) same (here ts, (eq_iff a.guid k).0 this)
    | inr deeper ↦
        let (hangs, named) = find_in_forest-IsFound k children u (ground arith) in
        (below a b r children ts hangs, named)
  ]

  find_in_forest-IsFound :
      (k : String) (ts : Forest) (u : Tree) → find_in_forest k ts ≡ some u → IsFound k ts u
  find_in_forest-IsFound k nil u h = absurd (cc)
  find_in_forest-IsFound k (cons t ts) u h =
      elim (or_else-eq-some (find_in_tree k t) (find_in_forest k ts) h) [
        | inl first ↦ find_in_tree-IsFound k t u ts first
        | inr rest ↦
            let (hangs, named) = find_in_forest-IsFound k ts u rest in (later t ts hangs, named)
      ]

mutual
  unfolding find_in_tree collect_guids

  is_found-tree :
      (k : String) (t : Tree) → is_found (find_in_tree k t) ≡ contains k (collect_guids t)
  is_found-tree k (node a b r children) =
      ground (arith, eq_iff a.guid k, eq_iff k a.guid, is_found-forest k children)

  is_found-forest :
      (k : String) (ts : Forest) → is_found (find_in_forest k ts) ≡ contains k (collect_children ts)
  is_found-forest k nil = refl
  is_found-forest k (cons t ts) = ground (
    arith,
    is_found-tree k t,
    is_found-forest k ts,
    contains-append k (collect_guids t) (collect_children ts),
  )

-- The search succeeds exactly for the ids of the accounts that are in the tree, and what it
-- finds is a node that hangs in the tree, with all its children, and has that id.
pub find_in_forest_lem :
    (k : String) (ts : Forest)
    → (is_found (find_in_forest k ts) ≡ contains k (collect_children ts))
      × ((u : Tree) → find_in_forest k ts ≡ some u → IsSubtree u ts × ((tree_account u).guid ≡ k))
find_in_forest_lem k ts = (is_found-forest k ts, λ u h. find_in_forest-IsFound k ts u h)

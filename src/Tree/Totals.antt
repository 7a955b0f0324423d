-- ===== src/Tree/Totals.antt =====
-- The aggregated balances and the collected ids of a tree.
use antimoney.Prelude.{◌≡◌, refl, sym, ap, ◌∙◌, String, List, [], ◌∷◌, ◌++◌, map}
use mathlib.Core.List.{map-append}
use mathlib.Core.Path.{ap₂}
use antimoney.Prelude.Int.{pos, ◌+ℤ◌, int_laws, add_assoc}
use antimoney.Types.{Amount, Account}
use antimoney.Tree.{
  Tree, node, Forest, nil, cons, aggregate, aggregate_children, aggregate_roots, collect_guids,
  collect_children,
}

-- The accounts of a tree, from the top.
abbrev mutual
  pub accounts_of : Tree → List Account
  accounts_of (node a b r children) = a ∷ accounts_below children

  pub accounts_below : Forest → List Account
  accounts_below nil = []
  accounts_below (cons t ts) = accounts_of t ++ accounts_below ts

abbrev pub sum_of : (Account → Amount) → List Account → Amount
sum_of f [] = pos 0
sum_of f (a ∷ l) = f a +ℤ sum_of f l

sum_of-append :
    (f : Account → Amount) (xs ys : List Account) → sum_of f (xs ++ ys) ≡ sum_of f xs +ℤ sum_of f ys
sum_of-append f [] ys = omega int_laws
sum_of-append f (x ∷ xs) ys =
    ap (◌+ℤ◌ (f x)) (sum_of-append f xs ys) ∙ sym (add_assoc (f x) (sum_of f xs) (sum_of f ys))

abbrev balance : Account → Amount
balance a = a.balance

abbrev reconciled : Account → Amount
reconciled a = a.reconciled_balance

-- Every node carries the sums over its subtree.
abbrev mutual
  pub HasTotals : Tree → Type 0
  HasTotals (node a b r children) =
      (b ≡ sum_of balance (accounts_of (node a b r children)))
      × (r ≡ sum_of reconciled (accounts_of (node a b r children)))
      × HaveTotals children

  pub HaveTotals : Forest → Type 0
  HaveTotals nil = Unit
  HaveTotals (cons t ts) = HasTotals t × HaveTotals ts

-- What `aggregate` has done, with the totals that it returns.
abbrev IsDone : Tree → Tree × Amount × Amount → Type 0
IsDone t (t', b, r) =
    HasTotals t'
    × (accounts_of t' ≡ accounts_of t)
    × (b ≡ sum_of balance (accounts_of t))
    × (r ≡ sum_of reconciled (accounts_of t))

abbrev AreDone : Amount → Amount → Forest → Forest × Amount × Amount → Type 0
AreDone bal rec_bal ts (ts', b, r) =
    HaveTotals ts'
    × (accounts_below ts' ≡ accounts_below ts)
    × (b ≡ bal +ℤ sum_of balance (accounts_below ts))
    × (r ≡ rec_bal +ℤ sum_of reconciled (accounts_below ts))

-- One more child in the running total.
step_total :
    (f : Account → Amount) (acc got rest : Amount) (t : Tree) (ts : Forest)
    → got ≡ sum_of f (accounts_of t)
    → rest ≡ acc +ℤ got +ℤ sum_of f (accounts_below ts)
    → rest ≡ acc +ℤ sum_of f (accounts_of t ++ accounts_below ts)
step_total f acc got rest t ts h k =
    k
    ∙ add_assoc acc got (sum_of f (accounts_below ts))
    ∙ ap (λ x. acc +ℤ (x +ℤ sum_of f (accounts_below ts))) h
    ∙ ap (◌+ℤ◌ acc) (sym (sum_of-append f (accounts_of t) (accounts_below ts)))

mutual
  unfolding aggregate

  aggregate-IsDone : (t : Tree) → IsDone t (aggregate t)
  aggregate-IsDone (node a b r children) =
      let done = aggregate_children-AreDone a.balance a.reconciled_balance children in
      (
        (
          done.2 ∙ ap (λ l. a.balance +ℤ sum_of balance l) (sym done.1),
          done.3 ∙ ap (λ l. a.reconciled_balance +ℤ sum_of reconciled l) (sym done.1),
          done.0,
        ),
        ap (◌∷◌ a) done.1,
        done.2,
        done.3,
      )

  aggregate_children-AreDone :
      (bal rec_bal : Amount) (ts : Forest)
      → AreDone bal rec_bal ts (aggregate_children bal rec_bal ts)
  aggregate_children-AreDone bal rec_bal nil = (tt, refl, omega int_laws, omega int_laws)
  aggregate_children-AreDone bal rec_bal (cons t ts) =
      let first = aggregate-IsDone t in
      let (t', b, r) = aggregate t in
      let rest = aggregate_children-AreDone (bal +ℤ b) (rec_bal +ℤ r) ts in
      (
        (first.0, rest.0),
        ap₂ ◌++◌ first.1 rest.1,
        step_total balance bal b _ t ts first.2 rest.2,
        step_total reconciled rec_bal r _ t ts first.3 rest.3,
      )

-- After the aggregation every node of the tree, at every depth, carries the sums of the balances
-- and of the reconciled balances over its subtree, and the accounts are where they were.
pub aggregate_roots-HaveTotals :
    (ts : Forest)
    → HaveTotals (aggregate_roots ts) × (accounts_below (aggregate_roots ts) ≡ accounts_below ts)
unfolding aggregate_roots
aggregate_roots-HaveTotals nil = (tt, refl)
aggregate_roots-HaveTotals (cons t ts) =
    let first = aggregate-IsDone t in
    let rest = aggregate_roots-HaveTotals ts in ((first.0, rest.0), ap₂ ◌++◌ first.1 rest.1)

abbrev guids_of : List Account → List String
guids_of = map (λ a. a.guid)

mutual
  unfolding collect_guids

  collect_guids-eq-map : (t : Tree) → collect_guids t ≡ guids_of (accounts_of t)
  collect_guids-eq-map (node a b r children) = ap (◌∷◌ a.guid) (collect_children-eq-map children)

  pub collect_children-eq-map : (ts : Forest) → collect_children ts ≡ guids_of (accounts_below ts)
  collect_children-eq-map nil = refl
  collect_children-eq-map (cons t ts) =
      ap₂ ◌++◌ (collect_guids-eq-map t) (collect_children-eq-map ts)
      ∙ sym (map-append (λ a. a.guid) (accounts_of t) (accounts_below ts))

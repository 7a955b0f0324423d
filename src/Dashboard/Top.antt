-- ===== src/Dashboard/Top.antt =====
-- Which accounts the dashboard lists.
use mathlib.Core.List.{Perm}
use antimoney.Prelude.{drop, take-drop, length-take-le, ◌≤◌, List, ◌++◌, arith, length}
use antimoney.Prelude.Sorting.{IsConsistent, IsSorted, sort, sort-perm, sort-IsSorted}
use antimoney.Types.{Account}
use antimoney.Dashboard.{TopAccount, by_value, top_of, compute_dashboard}

by_value-IsConsistent : IsConsistent by_value
by_value-IsConsistent = record {
  swap = λ x y. ground arith;
  trans = λ x y z h k. ground (arith, h, k);
}

-- The accounts that are listed, at most ten, are the first of all the accounts that count,
-- sorted by their value from the largest.
compute_dashboard_top :
    (accounts : List Account)
    → let d = compute_dashboard accounts in
      (length d.top_accounts ≤ 10)
      × ((rest : List TopAccount) × Perm (d.top_accounts ++ rest) (top_of accounts)
          × IsSorted by_value (d.top_accounts ++ rest))
unfolding compute_dashboard
compute_dashboard_top accounts =
    let sorted = sort by_value (top_of accounts) in
    (
      length-take-le 10 sorted,
      (
        drop 10 sorted,
        rw (take-drop 10 sorted) (sort-perm by_value (top_of accounts)),
        rw (take-drop 10 sorted) (sort-IsSorted by_value by_value-IsConsistent (top_of accounts)),
      ),
    )

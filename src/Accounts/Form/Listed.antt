-- ===== src/Accounts/Form/Listed.antt =====
-- Which accounts the form offers as a parent.
use antimoney.Prelude.{
  ℕ, suc, ◌+◌, ◌≡◌, Bool, not, ◌&&◌, List, [], ◌∷◌, ◌++◌, arith, if◌then◌else◌, inl, inr,
  Bool-cases,
}
use antimoney.Types.{Account, is_root}
use antimoney.Register.Search.{Text}
use antimoney.Tree.{Forest, nil, cons, node}
use antimoney.Tree.Totals.{accounts_below}
use antimoney.Accounts.Form.{
  FlatRow, root_rows, visible_rows, flatten_accounts, any_visible, child_prefix,
}

-- How many rows show an account of which `p` holds.
abbrev pub count_rows : (Account → Bool) → List FlatRow → ℕ
count_rows p [] = 0
count_rows p (x ∷ xs) = if p x.account then suc (count_rows p xs) else count_rows p xs

-- How many of the accounts are no root and have `p`.
abbrev pub count_visible : (Account → Bool) → List Account → ℕ
count_visible p [] = 0
count_visible p (a ∷ l) =
    if not (is_root a.account_type) && p a then suc (count_visible p l) else count_visible p l

module _ (p : Account → Bool) where
  count_rows-append :
      (xs ys : List FlatRow) → count_rows p (xs ++ ys) ≡ count_rows p xs + count_rows p ys
  count_rows-append [] ys = omega arith
  count_rows-append (x ∷ xs) ys = ground (arith, count_rows-append xs ys)

  count_visible-append :
      (xs ys : List Account) → count_visible p (xs ++ ys) ≡ count_visible p xs + count_visible p ys
  count_visible-append [] ys = omega arith
  count_visible-append (x ∷ xs) ys = ground (arith, count_visible-append xs ys)

  count_rows-below :
      (depth : ℕ) (prefix : Text) (f : Forest)
      → count_rows p (root_rows depth prefix f) + count_rows p (visible_rows depth prefix f)
        ≡ count_visible p (accounts_below f)
      → (rest : List FlatRow)
      → count_rows p ((root_rows depth prefix f ++ visible_rows depth prefix f) ++ rest)
        ≡ count_visible p (accounts_below f) + count_rows p rest
  count_rows-below depth prefix f h rest = omega (
    arith,
    count_rows-append (root_rows depth prefix f ++ visible_rows depth prefix f) rest,
    count_rows-append (root_rows depth prefix f) (visible_rows depth prefix f),
    h,
  )

  count_rows-parts :
      (depth : ℕ) (prefix : Text) (f : Forest)
      → count_rows p (root_rows depth prefix f) + count_rows p (visible_rows depth prefix f)
        ≡ count_visible p (accounts_below f)
  unfolding root_rows
  count_rows-parts depth prefix nil = omega arith
  count_rows-parts depth prefix (cons (node a b r children) ts) =
      let under = child_prefix depth prefix (not (any_visible ts)) in
      let same = count_rows-below depth prefix children (count_rows-parts depth prefix children) in
      let below =
        count_rows-below (suc depth) under children (count_rows-parts (suc depth) under children) in
      let rest = count_rows-parts depth prefix ts in
      let accounts = count_visible-append (accounts_below children) (accounts_below ts) in
      elim (Bool-cases (is_root a.account_type)) [
        | inl top ↦ rw top (omega (arith, same (root_rows depth prefix ts), rest, accounts))
        | inr seen ↦ elim (Bool-cases (p a)) [
          | inl passes ↦
              rw (seen, passes)
                (omega (arith, below (visible_rows depth prefix ts), rest, accounts))
          | inr fails ↦
              rw (seen, fails) (omega (arith, below (visible_rows depth prefix ts), rest, accounts))
        ]
      ]

  -- The list shows every account of the trees that is no root exactly as often as it stands
  -- there, and nothing else: for any test, as many rows pass it as accounts.
  flatten_accounts-count :
      (depth : ℕ) (prefix : Text) (f : Forest)
      → count_rows p (flatten_accounts depth prefix f) ≡ count_visible p (accounts_below f)
  unfolding flatten_accounts
  flatten_accounts-count depth prefix f = omega (
    arith,
    count_rows-append (root_rows depth prefix f) (visible_rows depth prefix f),
    count_rows-parts depth prefix f,
  )

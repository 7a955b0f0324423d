-- ===== src/Accounts/Tests.antt =====
-- Paths of accounts, and the theorems on them.
use antimoney.Prelude.{
  ℕ, ◌<◌, ◌≡◌, refl, ap, ◌∙◌, ◌==◌, eq_iff, Bool-cases, inl, inr, false, String, Option, none, some,
  List, [], ◌∷◌, arith, if◌then◌else◌, Option-cases, map,
}
use antimoney.Prelude.Int.{pos}
use antimoney.Types.{Account, AccountType, root, bank, asset}
use antimoney.Tree.{Forest, nil, cons, node}
use antimoney.Accounts.Form.{flatten_accounts, root_rows}
use antimoney.Accounts.Breadcrumbs.{
  step_up, climb, build_path, IsRanked, IsClimbed, build_path-IsClimbed, build_path_forever,
}

abbrev account : String → Option String → AccountType → Account
account guid parent ty = record {
  guid = guid;
  name = guid;
  account_type = ty;
  parent_guid = parent;
  placeholder = false;
  description = "";
  plaid = none;
  version = 1;
  balance = pos 0;
  reconciled_balance = pos 0;
  last_reconciled = none;
}

abbrev assets : Account
assets = account "assets" (some "root") asset

abbrev savings : Account
savings = account "savings" (some "assets") bank

abbrev chart : List Account
chart = account "root" none root ∷ assets ∷ savings ∷ []

shows_parents : build_path 5 chart savings ≡ some (assets ∷ savings ∷ [])
unfolding build_path climb step_up
shows_parents = refl

-- The accounts under `savings` stand below those under `assets`, and those below the others.
abbrev rank_under : Option String → ℕ
rank_under none = 0
rank_under (some p) = if p == "assets" then 2 else if p == "savings" then 3 else 1

abbrev rank : Account → ℕ
rank a = rank_under a.parent_guid

-- An account that goes on to a parent stands under `assets` or under `savings`.
step_up_at :
    (a p : Account) (k : String)
    → a.parent_guid ≡ some k
    → rank p < rank_under (some k)
    → rank p < rank a
step_up_at a p k up h = rw up h

chart-IsRanked : IsRanked chart rank
unfolding step_up
chart-IsRanked a p h = elim (Option-cases a.parent_guid) [
  | inl top ↦ absurd (ground (arith, h, top))
  | inr (k, up) ↦ elim (Bool-cases (k == "assets")) [
    | inl under_assets ↦
        let up' : a.parent_guid ≡ some "assets" =
          up ∙ ap some ((eq_iff k "assets").0 under_assets) in
        let there : some assets ≡ some p = rw up' at h in
        let this : assets ≡ p = ground (arith, there) in
        step_up_at a p "assets" up' (rw (← this) (omega arith))
    | inr other ↦ elim (Bool-cases (k == "savings")) [
      | inl under_savings ↦
          let up' : a.parent_guid ≡ some "savings" =
            up ∙ ap some ((eq_iff k "savings").0 under_savings) in
          let there : some savings ≡ some p = rw up' at h in
          let this : savings ≡ p = ground (arith, there) in
          step_up_at a p "savings" up' (rw (← this) (omega arith))
      | inr elsewhere ↦ absurd (
          ground (
            arith,
            h,
            up,
            eq_iff k "assets",
            eq_iff k "savings",
            eq_iff "assets" k,
            eq_iff "savings" k,
            eq_iff "root" k,
          ))
    ]
  ]
]

build_path-IsClimbed_example :
    (path : List Account) × (build_path 3 chart savings ≡ some path) × IsClimbed chart savings path
build_path-IsClimbed_example =
    build_path-IsClimbed chart rank savings 3 chart-IsRanked (omega arith)

abbrev loop : Account
loop = account "loop" (some "loop") bank

build_path_forever_example : build_path 100 (loop ∷ []) loop ≡ none
build_path_forever_example = build_path_forever 100 (loop ∷ []) loop refl (λ e. cc) refl refl

abbrev forest : Forest
forest =
    cons
      (node (account "root" none root) (pos 0) (pos 0)
        (cons (node assets (pos 0) (pos 0) (cons (node savings (pos 0) (pos 0) nil) nil)) nil))
      nil

lists_indented :
    map {B = String × ℕ} (λ x. (x.account.guid, x.depth)) (flatten_accounts 0 [] forest)
    ≡ ("assets", 0) ∷ ("savings", 1) ∷ []
unfolding flatten_accounts root_rows
lists_indented = refl

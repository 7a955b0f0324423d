-- ===== src/Accounts/Breadcrumbs.antt =====
-- frontend/src/components/AccountBreadcrumbs.tsx: the path from the top to an account.
--
-- `build_path` takes fuel for the `while` loop, and gives `none` where that runs out.
use antimoney.Prelude.{
  ℕ, zero, suc, ◌<◌, ◌≡◌, ◌≢◌, refl, inl, inr, false, ◌==◌, eq_iff, Option, none, some, List, [],
  ◌∷◌, find, arith, Bool-cases, Option-cases, if◌then◌else◌,
}
use antimoney.Types.{Account, is_root}

-- `curr.parent_guid` and the parent that the loop goes on with.
unfoldable pub step_up : List Account → Account → Option Account
step_up accounts a = elim a.parent_guid [
  | none ↦ none
  | some p ↦ if p == "" then none else elim (find (λ x. x.guid == p) accounts) [
    | none ↦ none
    | some parent ↦ if is_root parent.account_type then none else some parent
  ]
]

-- The loop: `path` is what has been collected, `curr` its first account.
unfoldable pub climb : ℕ → List Account → Account → List Account → Option (List Account)
climb zero accounts curr path = none
climb (suc fuel) accounts curr path = elim (step_up accounts curr) [
  | none ↦ some path
  | some parent ↦ climb fuel accounts parent (parent ∷ path)
]

unfoldable pub build_path : ℕ → List Account → Account → Option (List Account)
unfolding climb
build_path fuel accounts a = climb fuel accounts a (a ∷ [])

-- The accounts are in order: every parent that the loop finds has a smaller rank.
abbrev pub IsRanked : List Account → (Account → ℕ) → Type 0
IsRanked accounts rank = (a p : Account) → step_up accounts a ≡ some p → rank p < rank a

-- Each account's parent stands before it, and the first one has no parent to go on with.
abbrev pub IsPath : List Account → List Account → Type 0
IsPath accounts [] = Unit
IsPath accounts (a ∷ []) = Unit
IsPath accounts (p ∷ a ∷ l) = (step_up accounts a ≡ some p) × IsPath accounts (a ∷ l)

abbrev pub StartsAtTop : List Account → List Account → Type 0
StartsAtTop accounts [] = Unit
StartsAtTop accounts (a ∷ l) = step_up accounts a ≡ none

abbrev pub EndsWith : Account → List Account → Type 0
EndsWith a [] = ⊥
EndsWith a (x ∷ []) = x ≡ a
EndsWith a (x ∷ y ∷ l) = EndsWith a (y ∷ l)

pub record IsClimbed (accounts : List Account) (a : Account) (path : List Account) : Type 0 where
  pub chain : IsPath accounts path
  pub top : StartsAtTop accounts path
  pub bottom : EndsWith a path

climb_lem :
    (fuel : ℕ) (accounts : List Account) (rank : Account → ℕ) (a curr : Account)
    (path : List Account)
    → IsRanked accounts rank
    → rank curr < fuel
    → IsPath accounts (curr ∷ path)
    → EndsWith a (curr ∷ path)
    → (result : List Account) × (climb fuel accounts curr (curr ∷ path) ≡ some result)
      × IsClimbed accounts a result
unfolding climb
climb_lem zero accounts rank a curr path ranked h chain bottom = absurd (omega arith)
climb_lem (suc fuel) accounts rank a curr path ranked h chain bottom =
    elim (Option-cases (step_up accounts curr)) [
      | inl top ↦
          (curr ∷ path, rw (top, climb), record { chain = chain; top = top; bottom = bottom })
      | inr (p, up) ↦
          let below : rank p < fuel = omega (arith, ranked curr p up) in
          let (result, e, good) =
            climb_lem fuel accounts rank a p (curr ∷ path) ranked below (up, chain) bottom in
          (result, rw (up, climb) e, good)
    ]

-- Where every parent that the loop finds has a smaller rank, and the fuel is above the rank of the
-- account, the loop ends with the chain of parents: it ends with the account, each account's
-- parent stands before it, and the first has no parent to show.
pub build_path-IsClimbed :
    (accounts : List Account) (rank : Account → ℕ) (a : Account) (fuel : ℕ)
    → IsRanked accounts rank
    → rank a < fuel
    → (path : List Account) × (build_path fuel accounts a ≡ some path) × IsClimbed accounts a path
unfolding build_path
build_path-IsClimbed accounts rank a fuel ranked h =
    climb_lem fuel accounts rank a a [] ranked h tt refl

climb_forever :
    (fuel : ℕ) (accounts : List Account) (a : Account) (path : List Account)
    → step_up accounts a ≡ some a
    → climb fuel accounts a path ≡ none
unfolding climb
climb_forever zero accounts a path h = refl
climb_forever (suc fuel) accounts a path h =
    rw (h, climb) (climb_forever fuel accounts a (a ∷ path) h)

step_up_self :
    (accounts : List Account) (a : Account)
    → a.parent_guid ≡ some a.guid
    → a.guid ≢ ""
    → find (λ x. x.guid == a.guid) accounts ≡ some a
    → is_root a.account_type ≡ false
    → step_up accounts a ≡ some a
unfolding step_up
step_up_self accounts a parent named found not_root = elim (Bool-cases (a.guid == "")) [
  | inl empty ↦ absurd (named ((eq_iff a.guid "").0 empty))
  | inr full ↦ ground (arith, parent, full, found, not_root)
]

-- An account that is the first one listed with its id, is its own parent and is not the root makes
-- the loop run for ever: no amount of fuel is enough.
pub build_path_forever :
    (fuel : ℕ) (accounts : List Account) (a : Account)
    → a.parent_guid ≡ some a.guid
    → a.guid ≢ ""
    → find (λ x. x.guid == a.guid) accounts ≡ some a
    → is_root a.account_type ≡ false
    → build_path fuel accounts a ≡ none
unfolding build_path
build_path_forever fuel accounts a parent named found not_root =
    climb_forever fuel accounts a (a ∷ []) (step_up_self accounts a parent named found not_root)

-- ===== src/Dashboard/NetWorth.antt =====
-- frontend/src/pages/Dashboard.tsx: the net worth that the page shows.
use antimoney.Prelude.{
  ◌≡◌, refl, ◌∙◌, inl, inr, Bool, true, false, some, List, arith, Bool-cases, if◌then◌else◌,
}
use antimoney.Prelude.Int.{pos, abs, ◌+ℤ◌, ◌-ℤ◌, leb_ℤ, int_laws, negsuc}
use antimoney.Types.{Amount, Account, is_liability}
use antimoney.Dashboard.{compute_dashboard}
use antimoney.Dashboard.Sums.{sum_over, is_asset_type, compute_dashboard_sums}
use antimoney.Dashboard.Page.{State, View, view, figures}

-- The balance that the toggle selects.
abbrev pub shown_balance : Bool → Account → Amount
shown_balance reconciled a = if reconciled then a.reconciled_balance else a.balance

abbrev pub asset_sum : State → Amount
asset_sum s = sum_over is_asset_type (shown_balance s.show_reconciled) s.accounts

abbrev pub liability_sum : State → Amount
liability_sum s = sum_over is_liability (shown_balance s.show_reconciled) s.accounts

sub_abs : (a l : Amount) → a -ℤ pos (abs l) ≡ (if leb_ℤ l (pos 0) then a +ℤ l else a -ℤ l)
sub_abs a (pos n) = elim (Bool-cases (leb_ℤ (pos n) (pos 0))) [
  | inl owed ↦ let none_owed : n ≡ 0 = ground (arith, owed) in rw (owed, none_owed) (omega int_laws)
  | inr owned ↦ rw owned (omega int_laws)
]
sub_abs a (negsuc n) = elim (Bool-cases (leb_ℤ (negsuc n) (pos 0))) [
  | inl owed ↦ rw owed (omega int_laws)
  | inr owned ↦ absurd (ground (arith, owned))
]

net_worth_of :
    (reconciled : Bool) (l : List Account)
    → let a = sum_over is_asset_type (shown_balance reconciled) l in
      let b = sum_over is_liability (shown_balance reconciled) l in
      (figures reconciled (compute_dashboard l)).net_worth
      ≡ (if leb_ℤ b (pos 0) then a +ℤ b else a -ℤ b)
net_worth_of true l =
    let (_, _, _, assets, liabilities, _) = compute_dashboard_sums l in
    (λ i. assets i -ℤ pos (liabilities i))
    ∙ sub_abs (sum_over is_asset_type (shown_balance true) l)
        (sum_over is_liability (shown_balance true) l)
net_worth_of false l =
    let (assets, liabilities, _, _, _, _) = compute_dashboard_sums l in
    (λ i. assets i -ℤ pos (liabilities i))
    ∙ sub_abs (sum_over is_asset_type (shown_balance false) l)
        (sum_over is_liability (shown_balance false) l)

-- Once the accounts are there, the net worth that is shown is the sum of the balances of the
-- assets and of the liabilities, whole or reconciled, where the liabilities are owed, that is
-- their sum is not above zero; where it is above zero, the page takes it away instead.
pub view_net_worth :
    (s : State)
    → s.loading ≡ false
    → (v : View) × (view s ≡ some v)
      × (v.net_worth ≡ (
          if leb_ℤ (liability_sum s) (pos 0)
          then asset_sum s +ℤ liability_sum s
          else asset_sum s -ℤ liability_sum s))
unfolding view
view_net_worth s shows = (
  figures s.show_reconciled (compute_dashboard s.accounts),
  rw shows refl,
  net_worth_of s.show_reconciled s.accounts,
)

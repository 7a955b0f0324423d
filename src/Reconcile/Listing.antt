-- ===== src/Reconcile/Listing.antt =====
-- frontend/src/components/ReconcileWizard.tsx: what the wizard lists when it starts.
use Prim.Native.String
use mathlib.Core.List.{Perm}
use mathlib.Core.List.Perm
use antimoney.Prelude.{
  ℕ, ◌≤◌, ◌≡◌, ◌≢◌, String, Option, some, List, [], ◌∷◌, ◌++◌, map, filter, All, contains,
}
use antimoney.Types.{RegisterEntry}
use antimoney.Reconcile.{State}
use antimoney.Reconcile.Entries.{is_cleared}

module _ (time : String → Option ℕ) where
  -- The first text is a date no later than the second.
  abbrev pub IsBy : String → String → Type 0
  IsBy day limit = (a b : ℕ) × ((time day ≡ some a) × (time limit ≡ some b) × (a ≤ b))

  -- The entry is for the statement of the date: not reconciled yet, and dated no later than the
  -- last second of that day.
  abbrev pub IsWanted : String → RegisterEntry → Type 0
  IsWanted date e = (e.reconcile_state ≢ "y") × IsBy e.post_date (String.◌++◌ date "T23:59:59Z")

  -- No entry stands before one of an earlier date.
  abbrev pub AreInOrder : List RegisterEntry → Type 0
  AreInOrder [] = Unit
  AreInOrder (e ∷ es) = All (λ x. IsBy e.post_date x.post_date) es × AreInOrder es

  -- What the wizard lists after its start.
  pub record IsListing (date : String) (flat : List RegisterEntry) (s : State) : Type 0 where
    -- the entries of the registers that are not listed
    pub left_out : List RegisterEntry
    pub parted : Perm (s.entries ++ left_out) flat
    pub wanted : All (IsWanted date) s.entries
    pub unwanted : All (λ e. ¬ IsWanted date e) left_out
    pub in_order : AreInOrder s.entries
    pub chosen :
        (k : String)
        → contains k s.selected ≡ contains k (map (λ e. e.split_guid) (filter is_cleared s.entries))

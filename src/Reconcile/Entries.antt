-- ===== src/Reconcile/Entries.antt =====
-- The entries that the wizard lists, its suggestion for the ending balance, and its selection.
use antimoney.Prelude.{
  ℕ, ◌≡◌, refl, inl, inr, Bool, false, not, ◌||◌, ◌==◌, eq_iff, String, Option, none, List, [], ◌∷◌,
  map, filter, All, arith, Bool-cases, contains, contains-add, contains-delete, add, if◌then◌else◌,
  ◌≢◌,
}
use antimoney.Prelude.Sorting.{sort, sort-All, IsSorted, IsConsistentOn, sort-IsSorted_on, Le}
use antimoney.Prelude.Int.{pos}
use antimoney.Types.{Amount, RegisterEntry}
use antimoney.Reconcile.{
  State, toggle_entry, select_all, to_set, pre_selected, in_statement, compare_dates, last_balance,
}

-- A click on a row changes whether that split is selected, and no other.
pub toggle_entry-selected :
    (guid k : String) (s : State)
    → contains k (toggle_entry guid s).selected
      ≡ (if k == guid then not (contains k s.selected) else contains k s.selected)
unfolding toggle_entry
toggle_entry-selected guid k s =
    ground (arith, eq_iff k guid, contains-delete guid k s.selected, contains-add guid k s.selected)

contains-to_set :
    (k : String) (acc xs : List String)
    → contains k (to_set acc xs) ≡ (contains k acc || contains k xs)
contains-to_set k acc [] = ground arith
contains-to_set k acc (x ∷ xs) =
    ground (arith, contains-to_set k (add x acc) xs, contains-add x k acc)

-- "Select all" selects exactly the listed splits.
pub select_all-selected :
    (k : String) (s : State)
    → contains k (select_all s).selected ≡ contains k (map (λ e. e.split_guid) s.entries)
unfolding select_all
select_all-selected k s = contains-to_set k [] (map (λ e. e.split_guid) s.entries)

abbrev pub is_cleared : RegisterEntry → Bool
is_cleared e = e.reconcile_state == "c"

pub contains-pre_selected :
    (k : String) (acc : List String) (es : List RegisterEntry)
    → contains k (pre_selected acc es)
      ≡ (contains k acc || contains k (map (λ e. e.split_guid) (filter is_cleared es)))
contains-pre_selected k acc [] = ground arith
contains-pre_selected k acc (e ∷ es) = elim (Bool-cases (is_cleared e)) [
  | inl yes_c ↦ rw yes_c (
      ground
        (arith, contains-pre_selected k (add e.split_guid acc) es, contains-add e.split_guid k acc))
  | inr not_c ↦ rw not_c (contains-pre_selected k acc es)
]

module _ (time : String → Option ℕ) where
  abbrev pub IsDated : RegisterEntry → Type 0
  IsDated e = time e.post_date ≢ none

  out_of_statement :
      (limit : Option ℕ) (e x : RegisterEntry)
      → IsDated e
      → IsDated x
      → Le (compare_dates time) e x
      → in_statement time limit e ≡ false
      → in_statement time limit x ≡ false
  out_of_statement limit e x de dx le h = ground (arith, de, dx)

  pub compare_dates-IsConsistentOn : IsConsistentOn (compare_dates time) IsDated
  compare_dates-IsConsistentOn = record {
    swap = λ x y dx dy. ground (arith, dx, dy);
    trans = λ x y z dx dy dz le le'. ground (arith, dx, dy, dz);
  }

  -- The balance of the last entry, if there is one.
  abbrev pub balance_at_end : Amount → List RegisterEntry → Amount
  balance_at_end acc [] = acc
  balance_at_end acc (e ∷ es) = balance_at_end e.balance es

  none_in_statement :
      (limit : Option ℕ) (e : RegisterEntry) (es : List RegisterEntry)
      → IsDated e
      → All IsDated es
      → All (Le (compare_dates time) e) es
      → in_statement time limit e ≡ false
      → filter (in_statement time limit) es ≡ []
  none_in_statement limit e [] d ds le h = refl
  none_in_statement limit e (x ∷ es) d ds le h =
      rw (out_of_statement limit e x d ds.0 le.0 h) (none_in_statement limit e es d ds.1 le.1 h)

  last_balance_of_IsSorted :
      (limit : Option ℕ) (acc : Amount) (es : List RegisterEntry)
      → All IsDated es
      → IsSorted (compare_dates time) es
      → last_balance time limit acc es ≡ balance_at_end acc (filter (in_statement time limit) es)
  unfolding last_balance
  last_balance_of_IsSorted limit acc [] d h = refl
  last_balance_of_IsSorted limit acc (e ∷ es) d h = elim (Bool-cases (in_statement time limit e)) [
    | inl inside ↦ rw inside (last_balance_of_IsSorted limit e.balance es d.1 h.1)
    | inr outside ↦ rw (outside, none_in_statement limit e es d.0 d.1 h.0 outside)
  ]

  -- Where the entries have dates, the loop with its early exit finds the balance of the last entry
  -- of the statement's period, in the order of the dates, and 0 where there is none.
  suggestion_lem :
      (limit : Option ℕ) (flat : List RegisterEntry)
      → All IsDated flat
      → last_balance time limit (pos 0) (sort (compare_dates time) flat)
        ≡ balance_at_end (pos 0) (filter (in_statement time limit) (sort (compare_dates time) flat))
  suggestion_lem limit flat d =
      last_balance_of_IsSorted limit (pos 0) (sort (compare_dates time) flat)
        (sort-All (compare_dates time) IsDated flat d)
        (sort-IsSorted_on (compare_dates time) compare_dates-IsConsistentOn flat d)

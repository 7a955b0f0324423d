-- ===== src/Reconcile/Finish.antt =====
-- What the wizard sends when it is finished, whatever was done in it before.
use antimoney.Prelude.{
  ℕ, ◌≤◌, ◌≡◌, inl, inr, Bool, true, false, not, ◌==◌, String, Option, none, some, List, [], ◌∷◌,
  filter, filter-All, All, All-append, All-map, arith, Bool-cases, contains, Distinct,
}
use antimoney.Prelude.Int.{abs, ◌-ℤ◌}
use antimoney.Prelude.Sorting.{sort-All}
use antimoney.Types.{Amount, AccountType, RegisterEntry}
use antimoney.Reconcile.{
  State, display, internal_balance, ending_num, difference, finish_start, finish_done, toggle_entry,
  select_all, deselect_all, suggest, compare_dates, cutoff, is_open, open_entries, start_reconcile,
  is_blank, start_done, balances_done,
}
use antimoney.Reconcile.Selection.{
  ids, Distinct-append, Distinct-delete, Distinct-to_set, Distinct-pre_selected, All-to_set,
  All-pre_selected, listed_itself,
}

pub data Event : Type 0 where
  date_typed ending_typed : String → Event
  balances_came : List Amount → Event
  suggested : List RegisterEntry → Event
  start_asked : Event
  started : Option (List RegisterEntry) → Event
  toggled : String → Event
  all_selected none_selected : Event
  finish_failed : Event

-- Texts that all are ids of the entries.
abbrev pub AreListed : List RegisterEntry → List String → Type 0
AreListed es guids = All (λ g. contains g (ids es) ≡ true) guids

filter_passes :
    (p : RegisterEntry → Bool) (es : List RegisterEntry) → All (λ e. p e ≡ true) (filter p es)
filter_passes p [] = tt
filter_passes p (e ∷ es) = elim (Bool-cases (p e)) [
  | inl passes ↦ rw passes (passes, filter_passes p es)
  | inr fails ↦ rw fails (filter_passes p es)
]

abbrev pub IsUnreconciled : RegisterEntry → Type 0
IsUnreconciled e = (e.reconcile_state == "y") ≡ false

record IsValid (entries : List RegisterEntry) (selected : List String) : Type 0 where
  unreconciled : All IsUnreconciled entries
  listed : AreListed entries selected
  distinct : Distinct selected

-- The parameters are those of the wizard, and the type it is opened with.
module _ (time : String → Option ℕ) (to_fixed : Amount → String) (ty : Option AccountType) where
  unfoldable pub step : Event → State → State
  step (date_typed date) s = record s { statement_date = date }
  step (ending_typed text) s = record s { ending_balance = text }
  step (balances_came balances) s = balances_done balances s
  step (suggested flat) s = suggest time to_fixed ty flat s
  step start_asked s = (start_reconcile time s).0
  step (started answer) s = start_done time answer s
  step (toggled guid) s = toggle_entry guid s
  step all_selected s = select_all s
  step none_selected s = deselect_all s
  step finish_failed s = (finish_done false s).0

  abbrev pub run : List Event → State → State
  run [] s = s
  run (e ∷ es) s = run es (step e s)

  -- The rows that can be clicked are those of the entries.
  abbrev IsShown : Event → State → Type 0
  IsShown (toggled guid) s = contains guid (ids s.entries) ≡ true
  IsShown _ s = Unit

  abbrev pub AreShown : List Event → State → Type 0
  AreShown [] s = Unit
  AreShown (e ∷ es) s = IsShown e s × AreShown es (step e s)

  opened-IsUnreconciled :
      (limit : Option ℕ) (flat : List RegisterEntry)
      → All IsUnreconciled (open_entries time limit flat)
  opened-IsUnreconciled limit flat =
      sort-All (compare_dates time) IsUnreconciled (filter (is_open time limit) flat) (
        All-map (λ e. is_open time limit e ≡ true) IsUnreconciled (filter (is_open time limit) flat)
          (λ e h. ground (arith, h)) (filter_passes (is_open time limit) flat))

  step-IsValid :
      (e : Event) (s : State)
      → IsShown e s
      → IsValid s.entries s.selected
      → IsValid (step e s).entries (step e s).selected
  unfolding step balances_done suggest start_reconcile start_done toggle_entry select_all
      deselect_all finish_done
  step-IsValid (date_typed date) s shown v = v
  step-IsValid (ending_typed text) s shown v = v
  step-IsValid (balances_came balances) s shown v = v
  step-IsValid (suggested flat) s shown v = v
  step-IsValid start_asked s shown v = elim (Bool-cases (is_blank s.ending_balance)) [
    | inl blank ↦ rw (blank, step) v
    | inr typed ↦ rw (typed, step) v
  ]
  step-IsValid (started none) s shown v = v
  step-IsValid (started (some flat)) s shown v =
      let opened = open_entries time (cutoff time s.statement_date) flat in
      record {
        unreconciled = opened-IsUnreconciled (cutoff time s.statement_date) flat;
        listed =
            All-pre_selected (λ g. contains g (ids opened) ≡ true) [] opened tt
              (listed_itself (ids opened));
        distinct = Distinct-pre_selected [] opened tt;
      }
  step-IsValid (toggled guid) s shown v = elim (Bool-cases (contains guid s.selected)) [
    | inl selected ↦ rw selected (record {
      unreconciled = v.unreconciled;
      listed =
          filter-All (λ g. contains g (ids s.entries) ≡ true) (λ x. not (x == guid)) s.selected
            v.listed;
      distinct = Distinct-delete guid s.selected v.distinct;
    })
    | inr other ↦ rw other (record {
      unreconciled = v.unreconciled;
      listed =
          All-append (λ g. contains g (ids s.entries) ≡ true) s.selected (guid ∷ []) v.listed
            (shown, tt);
      distinct = Distinct-append guid s.selected v.distinct other;
    })
  ]
  step-IsValid all_selected s shown v = record {
    unreconciled = v.unreconciled;
    listed =
        All-to_set (λ g. contains g (ids s.entries) ≡ true) [] (ids s.entries) tt
          (listed_itself (ids s.entries));
    distinct = Distinct-to_set [] (ids s.entries) tt;
  }
  step-IsValid none_selected s shown v = record {
    unreconciled = v.unreconciled;
    listed = tt;
    distinct = tt;
  }
  step-IsValid finish_failed s shown v = v

  run-IsValid_lem :
      (es : List Event) (s : State)
      → AreShown es s
      → IsValid s.entries s.selected
      → IsValid (run es s).entries (run es s).selected
  run-IsValid_lem [] s shown v = v
  run-IsValid_lem (e ∷ es) s shown v =
      run-IsValid_lem es (step e s) shown.1 (step-IsValid e s shown.0 v)

  -- What is done in the wizard ends well: where nothing is listed or selected at first and only
  -- listed rows are clicked, the ids that the wizard sends when it is finished are those that are
  -- selected, each once, and ids of listed entries, none of which was reconciled before; and the
  -- typed ending balance is less than half a hundredth away from the balance that it shows.
  pub finish_start_sends :
      (parse_float : String → Option Amount) (es : List Event) (s : State) (guids : List String)
      → s.entries ≡ []
      → s.selected ≡ []
      → AreShown es s
      → (finish_start parse_float ty (run es s)).1 ≡ some guids
      → (guids ≡ (run es s).selected)
        × Distinct guids
        × AreListed (run es s).entries guids
        × All IsUnreconciled (run es s).entries
        × (abs (ending_num parse_float (run es s) -ℤ display ty (internal_balance ty (run es s)))
            ≤ 4)
  unfolding finish_start difference
  finish_start_sends parse_float es s guids no_entries none_chosen shown sent =
      let t = run es s in
      let v =
        run-IsValid_lem es s shown (
          rw (no_entries, none_chosen)
            (record { unreconciled = tt; listed = tt; distinct = tt })) in
      let same : guids ≡ t.selected = ground (arith, sent) in
      (same, rw same v.distinct, rw same v.listed, v.unreconciled, ground (arith, sent))

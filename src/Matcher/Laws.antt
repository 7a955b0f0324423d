-- ===== src/Matcher/Laws.antt =====
-- What the review sends, and what it leaves.
use antimoney.Prelude.{
  ℕ, zero, suc, ◌≡◌, ◌≢◌, ◌↔◌, refl, ap, Bool, true, false, not, ◌&&◌, ◌==◌, eq_iff, String, none,
  some, List, [], ◌∷◌, map, filter, modify, arith, contains,
}
use antimoney.Types.{SyncSuggestion}
use antimoney.Matcher.{
  Row, State, ImportRow, ImportResult, dismiss_done, is_other, set_category, flip_row,
  toggle_included, included_rows, import_row, confirm_start, confirm_done, is_interrupted,
  count_failed, can_confirm,
}

abbrev pub ids : List Row → List String
ids = map (λ row. row.suggestion.transaction_id)

-- The suggestions under review, whatever their rows hold.
abbrev pub suggestions : State → List SyncSuggestion
suggestions s = map (λ row. row.suggestion) s.rows

ids-filter_other :
    (k id : String) (rows : List Row)
    → contains k (ids (filter (is_other id) rows)) ≡ (contains k (ids rows) && not (k == id))
ids-filter_other k id [] = refl
ids-filter_other k id (row ∷ rows) = ground (
  arith,
  eq_iff row.suggestion.transaction_id id,
  eq_iff k row.suggestion.transaction_id,
  eq_iff k id,
  ids-filter_other k id rows,
)

-- A dismissed suggestion is gone and every other one stays; a dismissal that fails removes none.
pub dismiss_done_lem :
    (id k : String) (success : Bool) (s : State)
    → contains k (ids (dismiss_done id success s).rows)
      ≡ (contains k (ids s.rows) && not (success && k == id))
unfolding dismiss_done
dismiss_done_lem id k true s = ids-filter_other k id s.rows
dismiss_done_lem id k false s = ground arith

suggestions-modify :
    (idx : ℕ) (f : Row → Row) (rows : List Row)
    → ((row : Row) → (f row).suggestion ≡ row.suggestion)
    → map (λ row. row.suggestion) (modify idx f rows) ≡ map (λ row. row.suggestion) rows
suggestions-modify idx f [] h = refl
suggestions-modify zero f (row ∷ rows) h = ap (λ x. x ∷ map (λ r. r.suggestion) rows) (h row)
suggestions-modify (suc idx) f (row ∷ rows) h =
    ap (◌∷◌ row.suggestion) (suggestions-modify idx f rows h)

-- Editing a row's category or its check mark changes no suggestion.
pub edits_keep_suggestions :
    (idx : ℕ) (guid : String) (s : State)
    → (suggestions (set_category idx guid s) ≡ suggestions s)
      × (suggestions (toggle_included idx s) ≡ suggestions s)
unfolding set_category toggle_included
edits_keep_suggestions idx guid s = (
  suggestions-modify idx (λ row. record row { category_guid = guid }) s.rows (λ row. refl),
  suggestions-modify idx flip_row s.rows (λ row. refl),
)

flip_twice : (row : Row) → flip_row (flip_row row) ≡ row
flip_twice row = ground arith

modify_twice :
    (idx : ℕ) (f : Row → Row) (rows : List Row)
    → ((row : Row) → f (f row) ≡ row)
    → modify idx f (modify idx f rows) ≡ rows
modify_twice idx f [] h = refl
modify_twice zero f (row ∷ rows) h = ap (λ x. x ∷ rows) (h row)
modify_twice (suc idx) f (row ∷ rows) h = ap (◌∷◌ row) (modify_twice idx f rows h)

-- Two clicks on a check mark restore the review.
pub toggle_included_twice : (idx : ℕ) (s : State) → toggle_included idx (toggle_included idx s) ≡ s
unfolding toggle_included
toggle_included_twice idx s =
    ap (λ rows. record s { rows = rows }) (modify_twice idx flip_row s.rows flip_twice)

-- The review reports success exactly where the answer has neither an error nor a failed row;
-- otherwise it shows an error. The rows stay in every case, so that a retry is possible.
confirm_done_lem :
    (r : ImportResult) (s : State)
    → (((confirm_done (some r) s).1 ≡ some r.imported)
        ↔ ((is_interrupted r ≡ false) × (count_failed r ≡ 0)))
      × ((confirm_done (some r) s).1 ≡ none → (confirm_done (some r) s).0.error ≢ none)
      × ((confirm_done (some r) s).0.rows ≡ s.rows)
      × ((confirm_done (some r) s).0.importing ≡ false)
unfolding confirm_done
confirm_done_lem r s = (
  (λ h. (ground (arith, h), ground (arith, h)), λ h. ground (arith, h)),
  λ h e. ground (arith, h, e),
  ground arith,
  ground arith,
)

-- The button is enabled only where the handler goes ahead with at least one row.
pub can_confirm_lem :
    (s : State)
    → can_confirm s ≡ true
    → (payload : List ImportRow) × ((confirm_start s).1 ≡ some payload) × (payload ≢ [])
unfolding can_confirm confirm_start
can_confirm_lem s h =
    (map import_row (included_rows s), ground (arith, h), λ e. ground (arith, h, e))

-- ===== src/Server/Books/Marked.antt =====
-- backend/internal/services/transaction_service.go: what a batch reconciles.
use antimoney.Prelude.{
  ◌≡◌, refl, sym, ap, ◌∙◌, inl, inr, ◌==◌, String, List, [], ◌∷◌, map, contains, Bool-cases,
  if◌then◌else◌,
}
use antimoney.Types.{Split}
use antimoney.Server.Books.{TxRow, Store}
use antimoney.Server.Books.Requests.{set_states, set_state, batch_reconcile_splits}

-- A split whose id is among the given ones becomes reconciled.
abbrev pub mark : List String → Split → Split
mark guids x = if contains x.guid guids then record x { reconcile_state = "y" } else x

mark_twice :
    (guid : String) (guids : List String) (x : Split)
    → mark guids (set_state guid "y" x) ≡ mark (guid ∷ guids) x
mark_twice guid guids x = elim (Bool-cases (x.guid == guid)) [
  | inl this ↦ elim (Bool-cases (contains x.guid guids)) [
    | inl again ↦ rw (this, again) refl
    | inr once ↦ rw (this, once) refl
  ]
  | inr other ↦ rw other refl
]

map-mark_twice :
    (guid : String) (guids : List String) (xs : List Split)
    → map (mark guids) (map (set_state guid "y") xs) ≡ map (mark (guid ∷ guids)) xs
map-mark_twice guid guids [] = refl
map-mark_twice guid guids (x ∷ xs) = λ i. mark_twice guid guids x i ∷ map-mark_twice guid guids xs i

set_states_twice :
    (book guid : String) (guids : List String) (l : List TxRow)
    → set_states book (mark guids) (set_states book (set_state guid "y") l)
      ≡ set_states book (mark (guid ∷ guids)) l
set_states_twice book guid guids [] = refl
set_states_twice book guid guids (t ∷ l) = elim (Bool-cases (t.book_guid == book)) [
  | inl this ↦
      rw (this, this)
        (λ i.
          record t { splits = map-mark_twice guid guids t.splits i }
          ∷ set_states_twice book guid guids l i)
  | inr other ↦ rw (other, other) (ap (◌∷◌ t) (set_states_twice book guid guids l))
]

map-mark_none : (xs : List Split) → map (mark []) xs ≡ xs
map-mark_none [] = refl
map-mark_none (x ∷ xs) = ap (◌∷◌ x) (map-mark_none xs)

set_states_none : (book : String) (l : List TxRow) → set_states book (mark []) l ≡ l
set_states_none book [] = refl
set_states_none book (t ∷ l) = elim (Bool-cases (t.book_guid == book)) [
  | inl this ↦
      rw this (λ i. record t { splits = map-mark_none t.splits i } ∷ set_states_none book l i)
  | inr other ↦ rw other (ap (◌∷◌ t) (set_states_none book l))
]

-- The reconciliation of a batch of ids, one after the other, makes reconciled exactly the splits
-- of the user's book with these ids, and changes nothing else.
pub batch_reconcile_splits_lem :
    (book : String) (guids : List String) (s : Store)
    → batch_reconcile_splits book guids s
      ≡ record s { transactions = set_states book (mark guids) s.transactions }
unfolding batch_reconcile_splits
batch_reconcile_splits_lem book [] s =
    λ i. record s { transactions = sym (set_states_none book s.transactions) i }
batch_reconcile_splits_lem book (guid ∷ guids) s =
    batch_reconcile_splits_lem book guids
      (record s { transactions = set_states book (set_state guid "y") s.transactions })
    ∙ (λ i. record s { transactions = set_states_twice book guid guids s.transactions i })

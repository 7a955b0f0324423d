-- ===== src/Reconcile/Selection.antt =====
-- Sets of split ids: no id stands in one twice, and what holds of its members.
use antimoney.Prelude.{
  ◌≡◌, refl, inl, inr, true, false, ◌==◌, eq_iff, String, List, [], ◌∷◌, ◌++◌, map, All, All-append,
  arith, Bool-cases, contains, contains-append, Distinct, add, delete, contains-delete,
}
use antimoney.Types.{RegisterEntry}
use antimoney.Reconcile.{to_set, pre_selected}

abbrev pub ids : List RegisterEntry → List String
ids es = map (λ e. e.split_guid) es

pub Distinct-append :
    (k : String) (s : List String) → Distinct s → contains k s ≡ false → Distinct (s ++ (k ∷ []))
Distinct-append k [] d h = (refl, tt)
Distinct-append k (x ∷ s) d h = (
  ground (arith, contains-append x s (k ∷ []), eq_iff x k, eq_iff k x, h, d.0),
  Distinct-append k s d.1 (ground (arith, h)),
)

Distinct-add : (k : String) (s : List String) → Distinct s → Distinct (add k s)
Distinct-add k s d = elim (Bool-cases (contains k s)) [
  | inl here ↦ rw here d
  | inr new ↦ rw new (Distinct-append k s d new)
]

pub Distinct-delete : (k : String) (s : List String) → Distinct s → Distinct (delete k s)
Distinct-delete k [] d = tt
Distinct-delete k (x ∷ s) d = elim (Bool-cases (x == k)) [
  | inl same ↦ rw same (Distinct-delete k s d.1)
  | inr other ↦ rw other (ground (arith, contains-delete k x s, d.0), Distinct-delete k s d.1)
]

pub Distinct-to_set : (acc xs : List String) → Distinct acc → Distinct (to_set acc xs)
Distinct-to_set acc [] d = d
Distinct-to_set acc (x ∷ xs) d = Distinct-to_set (add x acc) xs (Distinct-add x acc d)

pub Distinct-pre_selected :
    (acc : List String) (es : List RegisterEntry) → Distinct acc → Distinct (pre_selected acc es)
Distinct-pre_selected acc [] d = d
Distinct-pre_selected acc (e ∷ es) d = elim (Bool-cases (e.reconcile_state == "c")) [
  | inl cleared ↦
      rw cleared (Distinct-pre_selected (add e.split_guid acc) es (Distinct-add e.split_guid acc d))
  | inr other ↦ rw other (Distinct-pre_selected acc es d)
]

module _ (P : String → Type 0) where
  All-add : (k : String) (s : List String) → P k → All P s → All P (add k s)
  All-add k s p h = elim (Bool-cases (contains k s)) [
    | inl here ↦ rw here h
    | inr new ↦ rw new (All-append P s (k ∷ []) h (p, tt))
  ]

  pub All-to_set : (acc xs : List String) → All P acc → All P xs → All P (to_set acc xs)
  All-to_set acc [] h k = h
  All-to_set acc (x ∷ xs) h k = All-to_set (add x acc) xs (All-add x acc k.0 h) k.1

  pub All-pre_selected :
      (acc : List String) (es : List RegisterEntry)
      → All P acc
      → All P (ids es)
      → All P (pre_selected acc es)
  All-pre_selected acc [] h k = h
  All-pre_selected acc (e ∷ es) h k = elim (Bool-cases (e.reconcile_state == "c")) [
    | inl cleared ↦
        rw cleared (All-pre_selected (add e.split_guid acc) es (All-add e.split_guid acc k.0 h) k.1)
    | inr other ↦ rw other (All-pre_selected acc es h k.1)
  ]

listed_more :
    (g : String) (more : List String) (l : List String)
    → All (λ k. contains k l ≡ true) more
    → All (λ k. contains k (g ∷ l) ≡ true) more
listed_more g [] l h = tt
listed_more g (k ∷ more) l h = (ground (arith, h.0), listed_more g more l h.1)

pub listed_itself : (l : List String) → All (λ k. contains k l ≡ true) l
listed_itself [] = tt
listed_itself (g ∷ l) = (ground (arith, eq_iff g g), listed_more g l l (listed_itself l))

-- ===== src/Tree/Stands.antt =====
-- How often an account stands in the forest that is read from the store.
use antimoney.Prelude.{
  ℕ, zero, suc, ◌+◌, ◌≤◌, ◌≡◌, refl, sym, ap, ◌∙◌, inl, inr, Bool, true, false, ◌==◌, eq_iff,
  String, Option, none, some, List, [], ◌∷◌, ◌++◌, arith, Bool-cases, Option-cases, occurrences,
  occurrences-append, if◌then◌else◌,
}
use antimoney.Types.{Account}
use antimoney.Tree.{
  children_of, Node, Store, is_node, get, has, read_forest, collect_children, collect_guids,
}
use antimoney.Tree.Links.{account_of}
use antimoney.Tree.Built.{HasId, IsBuilt}

-- How often an id stands in the forest that is read.
abbrev pub stands : Store → String → ℕ → List String → ℕ
stands m k fuel l = occurrences k (collect_children (read_forest fuel m l))

-- Where the node of an id is found it is counted, then what hangs under it, then the rest.
stands-found :
    (m : Store) (k : String) (fuel : ℕ) (i : String) (l : List String) (n : Node)
    → get i m ≡ some n
    → n.account.guid ≡ i
    → stands m k (suc fuel) (i ∷ l)
      ≡ (if k == i then 1 else 0) + stands m k fuel n.children + stands m k (suc fuel) l
unfolding read_forest collect_guids
stands-found m k fuel i l n found guid = rw (found, guid) (by_test (k == i))
  where
    by_test :
        (b : Bool)
        → (if b
            then suc (
                occurrences k (
                  collect_children (read_forest fuel m n.children)
                  ++ collect_children (read_forest (suc fuel) m l)))
            else occurrences k (
                collect_children (read_forest fuel m n.children)
                ++ collect_children (read_forest (suc fuel) m l)))
          ≡ (if b then 1 else 0) + stands m k fuel n.children + stands m k (suc fuel) l
    by_test b = ground (
      arith,
      occurrences-append k (collect_children (read_forest fuel m n.children))
          (collect_children (read_forest (suc fuel) m l)),
    )

stands-missing :
    (m : Store) (k : String) (fuel : ℕ) (i : String) (l : List String)
    → get i m ≡ none
    → stands m k fuel (i ∷ l) ≡ stands m k fuel l
unfolding read_forest
stands-missing m k zero i l missing = refl
stands-missing m k (suc fuel) i l missing = rw missing refl

stands-zero : (m : Store) (k : String) (l : List String) → stands m k zero l ≡ 0
unfolding read_forest collect_guids
stands-zero m k l = refl

stands_nil : (m : Store) (k : String) (fuel : ℕ) → stands m k fuel [] ≡ 0
unfolding read_forest collect_guids
stands_nil m k zero = refl
stands_nil m k (suc fuel) = refl

ne_of_missing : (m : Store) (k i : String) → has k m ≡ true → get i m ≡ none → (k == i) ≡ false
ne_of_missing m k i known missing = elim (Bool-cases (k == i)) [
  | inl same ↦
      let absent : has k m ≡ false = rw ((eq_iff k i).0 same) (ap is_node missing) in
      absurd (ground (arith, known, absent))
  | inr other ↦ other
]

ne_of_found :
    (m : Store) (k i : String) (n : Node) → has k m ≡ false → get i m ≡ some n → (k == i) ≡ false
ne_of_found m k i n absent found = elim (Bool-cases (k == i)) [
  | inl same ↦
      let known : has k m ≡ true = rw ((eq_iff k i).0 same) (ap is_node found) in
      absurd (ground (arith, known, absent))
  | inr other ↦ other
]

HasId-found :
    (i : String) (o : Option Node) (n : Node)
    → o ≡ some n
    → HasId i (account_of o)
    → n.account.guid ≡ i
HasId-found i none n e h = cc
HasId-found i (some o) n e h = ground (arith, h, e)

module _ (accounts : List Account) (m : Store) (roots : List String)
    (built : IsBuilt accounts m roots) where
  found_id : (i : String) (n : Node) → get i m ≡ some n → n.account.guid ≡ i
  found_id i n found = HasId-found i (get i m) n found (built.ids i)

  kids_found :
      (i : String) (n : Node) (k : String) (c : ℕ)
      → get i m ≡ some n
      → occurrences k (children_of (get i m)) ≡ c
      → occurrences k n.children ≡ c
  kids_found i n k c found h = ap (λ o. occurrences k (children_of o)) (sym found) ∙ h

  -- An id whose account has the parent `p` stands where the list has it, and once under each `p`.
  pub stands-under :
      (k p : String) (fuel : ℕ) (l : List String)
      → has k m ≡ true
      → ((i : String) → occurrences k (children_of (get i m)) ≡ (if p == i then 1 else 0))
      → stands m k (suc fuel) l ≡ occurrences k l + stands m p fuel l
  stands-under k p fuel [] known kids =
      omega (arith, stands_nil m k (suc fuel), stands_nil m p fuel)
  stands-under k p zero (i ∷ l) known kids = elim (Option-cases (get i m)) [
    | inl missing ↦
        rw (stands-missing m k 1 i l missing, ne_of_missing m k i known missing)
          (omega
            (arith, stands-under k p zero l known kids, stands-zero m p l, stands-zero m p (i ∷ l)))
    | inr (n, found) ↦ ground (
      arith,
      stands-found m k zero i l n found (found_id i n found),
      stands-zero m k n.children,
      stands-under k p zero l known kids,
      stands-zero m p l,
      stands-zero m p (i ∷ l),
    )
  ]
  stands-under k p (suc fuel) (i ∷ l) known kids = elim (Option-cases (get i m)) [
    | inl missing ↦
        rw
          (
            stands-missing m k (suc (suc fuel)) i l missing,
            stands-missing m p (suc fuel) i l missing,
            ne_of_missing m k i known missing,
          )
          (stands-under k p (suc fuel) l known kids)
    | inr (n, found) ↦ ground (
      arith,
      stands-found m k (suc fuel) i l n found (found_id i n found),
      stands-found m p fuel i l n found (found_id i n found),
      stands-under k p fuel n.children known kids,
      kids_found i n k (if p == i then 1 else 0) found (kids i),
      stands-under k p (suc fuel) l known kids,
    )
  ]

  kids_zero :
      (k : String) (fuel : ℕ) (l : List String)
      → has k m ≡ true
      → ((i : String) → occurrences k (children_of (get i m)) ≡ 0)
      → stands m k fuel l ≤ occurrences k l
  kids_zero k zero l known kids = omega (arith, stands-zero m k l)
  kids_zero k (suc fuel) [] known kids = omega (arith, stands_nil m k (suc fuel))
  kids_zero k (suc fuel) (i ∷ l) known kids = elim (Option-cases (get i m)) [
    | inl missing ↦
        rw (stands-missing m k (suc fuel) i l missing, ne_of_missing m k i known missing)
          (kids_zero k (suc fuel) l known kids)
    | inr (n, found) ↦ ground (
      arith,
      stands-found m k fuel i l n found (found_id i n found),
      kids_zero k fuel n.children known kids,
      kids_found i n k 0 found (kids i),
      kids_zero k (suc fuel) l known kids,
    )
  ]

  -- An id that stands in no child list stands only where the list has it.
  pub stands-top :
      (k : String) (fuel : ℕ) (l : List String)
      → has k m ≡ true
      → ((i : String) → occurrences k (children_of (get i m)) ≡ 0)
      → stands m k (suc fuel) l ≡ occurrences k l
  stands-top k fuel [] known kids = stands_nil m k (suc fuel)
  stands-top k fuel (i ∷ l) known kids = elim (Option-cases (get i m)) [
    | inl missing ↦
        rw (stands-missing m k (suc fuel) i l missing, ne_of_missing m k i known missing)
          (stands-top k fuel l known kids)
    | inr (n, found) ↦ ground (
      arith,
      stands-found m k fuel i l n found (found_id i n found),
      kids_zero k fuel n.children known kids,
      kids_found i n k 0 found (kids i),
      stands-top k fuel l known kids,
    )
  ]

  pub stands-absent :
      (k : String) (fuel : ℕ) (l : List String) → has k m ≡ false → stands m k fuel l ≡ 0
  stands-absent k zero l absent = stands-zero m k l
  stands-absent k (suc fuel) [] absent = stands_nil m k (suc fuel)
  stands-absent k (suc fuel) (i ∷ l) absent = elim (Option-cases (get i m)) [
    | inl missing ↦ stands-missing m k (suc fuel) i l missing ∙ stands-absent k (suc fuel) l absent
    | inr (n, found) ↦ ground (
      arith,
      stands-found m k fuel i l n found (found_id i n found),
      ne_of_found m k i n absent found,
      stands-absent k fuel n.children absent,
      stands-absent k (suc fuel) l absent,
    )
  ]

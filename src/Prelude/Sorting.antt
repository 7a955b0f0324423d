-- ===== src/Prelude/Sorting.antt =====
-- `Array.prototype.sort` with a comparator: the stable sort, by insertion. The comparator's
-- number is read by its sign alone, so it is an `Ordering` here.
use mathlib.Core.List.{Perm}
use mathlib.Core.List.Perm
use antimoney.Prelude.{
  String, Ordering, ◌≡◌, refl, inl, inr, Bool, true, false, ◌||◌, ◌==◌, List, [], ◌∷◌, map, All,
  ◌∙◌, eq_iff, contains, Distinct, arith, Bool-cases, if◌then◌else◌,
}

abbrev pub is_gt : Ordering → Bool
is_gt Ordering.gt = true
is_gt _ = false

-- The order seen from the other side.
abbrev pub flip : Ordering → Ordering
flip Ordering.lt = Ordering.gt
flip Ordering.eq = Ordering.eq
flip Ordering.gt = Ordering.lt

module _ {ℓ} {A : Type ℓ} (cmp : A → A → Ordering) where
  -- Before the first element that is not smaller.
  unfoldable pub insert : A → List A → List A
  insert x [] = x ∷ []
  insert x (y ∷ ys) = if is_gt (cmp x y) then y ∷ insert x ys else x ∷ y ∷ ys

  unfoldable pub sort : List A → List A
  unfolding insert
  sort [] = []
  sort (x ∷ xs) = insert x (sort xs)

  -- `cmp(x, y) <= 0`
  abbrev pub Le : A → A → Type 0
  Le x y = is_gt (cmp x y) ≡ false

  abbrev pub IsSorted : List A → Type 0
  IsSorted [] = Unit
  IsSorted (x ∷ xs) = All (Le x) xs × IsSorted xs

  -- A comparator that `sort` is specified for.
  pub record IsConsistent : Type ℓ where
    pub swap : (x y : A) → cmp y x ≡ flip (cmp x y)
    pub trans : (x y z : A) → Le x y → Le y z → Le x z

  pub insert-perm : (x : A) (xs : List A) → Perm (insert x xs) (x ∷ xs)
  unfolding insert
  insert-perm x [] = Perm.refl _
  insert-perm x (y ∷ ys) =
      elim (is_gt (cmp x y))
        as (λ b. Perm (if b then y ∷ insert x ys else x ∷ y ∷ ys) (x ∷ y ∷ ys)) [
          | true ↦ Perm.trans (Perm.cons y (insert-perm x ys)) (Perm.swap x y ys)
          | false ↦ Perm.refl _
        ]

  pub sort-perm : (xs : List A) → Perm (sort xs) xs
  unfolding sort
  sort-perm [] = Perm.refl _
  sort-perm (x ∷ xs) = Perm.trans (insert-perm x (sort xs)) (Perm.cons x (sort-perm xs))

  pub insert-All {κ} : (P : A → Type κ) (x : A) (xs : List A) → P x → All P xs → All P (insert x xs)
  unfolding insert
  insert-All P x [] p h = (p, tt)
  insert-All P x (y ∷ ys) p h = elim (Bool-cases (is_gt (cmp x y))) [
    | inl later ↦ rw later (h.0, insert-All P x ys p h.1)
    | inr here ↦ rw here (p, h)
  ]

  pub sort-All {κ} : (P : A → Type κ) (xs : List A) → All P xs → All P (sort xs)
  unfolding sort
  sort-All P [] h = tt
  sort-All P (x ∷ xs) h = insert-All P x (sort xs) h.0 (sort-All P xs h.1)

  -- The same among the elements of a predicate.
  pub record IsConsistentOn {κ} (P : A → Type κ) : Type (ℓ ⊔ κ) where
    pub swap : (x y : A) → P x → P y → cmp y x ≡ flip (cmp x y)
    pub trans : (x y z : A) → P x → P y → P z → Le x y → Le y z → Le x z

  module _ {κ} {P : A → Type κ} (consistent : IsConsistentOn P) where
    Le_of_gt : (x y : A) → P x → P y → is_gt (cmp x y) ≡ true → Le y x
    Le_of_gt x y px py h = ground (arith, consistent.swap x y px py)

    Le-All : (x y : A) (ys : List A) → P x → P y → All P ys → Le x y → All (Le y) ys → All (Le x) ys
    Le-All x y [] px py p le h = tt
    Le-All x y (z ∷ ys) px py p le h =
        (consistent.trans x y z px py p.0 le h.0, Le-All x y ys px py p.1 le h.1)

    insert-IsSorted_on :
        (x : A) (xs : List A) → P x → All P xs → IsSorted xs → IsSorted (insert x xs)
    unfolding insert
    insert-IsSorted_on x [] px p h = (tt, tt)
    insert-IsSorted_on x (y ∷ ys) px p h = elim (Bool-cases (is_gt (cmp x y))) [
      | inl later ↦ rw later (
        insert-All (Le y) x ys (Le_of_gt x y px p.0 later) h.0,
        insert-IsSorted_on x ys px p.1 h.1,
      )
      | inr here ↦ rw here ((here, Le-All x y ys px p.0 p.1 here h.0), h)
    ]

    pub sort-IsSorted_on : (xs : List A) → All P xs → IsSorted (sort xs)
    unfolding sort
    sort-IsSorted_on [] p = tt
    sort-IsSorted_on (x ∷ xs) p =
        insert-IsSorted_on x (sort xs) p.0 (sort-All P xs p.1) (sort-IsSorted_on xs p.1)

  All-Unit : (xs : List A) → All (λ _. Unit {0}) xs
  All-Unit [] = tt
  All-Unit (x ∷ xs) = (tt, All-Unit xs)

  pub sort-IsSorted : IsConsistent → (xs : List A) → IsSorted (sort xs)
  sort-IsSorted c xs =
      sort-IsSorted_on {P = λ _. Unit {0}}
        (record {
          swap = λ x y _ _. c.swap x y;
          trans = λ x y z _ _ _ le le'. c.trans x y z le le';
        })
        xs (All-Unit xs)

  -- A sorted list is left as it is: the sort is stable.
  insert_of_All : (x : A) (xs : List A) → All (Le x) xs → insert x xs ≡ x ∷ xs
  unfolding insert
  insert_of_All x [] h = refl
  insert_of_All x (y ∷ ys) h = rw h.0

  pub sort_of_IsSorted : (xs : List A) → IsSorted xs → sort xs ≡ xs
  unfolding sort
  sort_of_IsSorted [] h = refl
  sort_of_IsSorted (x ∷ xs) h = rw (sort_of_IsSorted xs h.1) (insert_of_All x xs h.0)

  module _ (key : A → String) where
    contains-insert :
        (k : String) (x : A) (xs : List A)
        → contains k (map key (insert x xs)) ≡ (k == key x || contains k (map key xs))
    unfolding insert
    contains-insert k x [] = refl
    contains-insert k x (y ∷ ys) = ground (arith, contains-insert k x ys)

    pub contains-sort :
        (k : String) (xs : List A) → contains k (map key (sort xs)) ≡ contains k (map key xs)
    unfolding sort
    contains-sort k [] = refl
    contains-sort k (x ∷ xs) = ground (arith, contains-insert k x (sort xs), contains-sort k xs)

    insert-Distinct :
        (x : A) (xs : List A)
        → contains (key x) (map key xs) ≡ false
        → Distinct (map key xs)
        → Distinct (map key (insert x xs))
    unfolding insert
    insert-Distinct x [] n h = (n, tt)
    insert-Distinct x (y ∷ ys) n h = elim (Bool-cases (is_gt (cmp x y))) [
      | inl later ↦ rw later (
        ground (
          arith,
          contains-insert (key y) x ys,
          eq_iff (key x) (key y),
          eq_iff (key y) (key x),
          n,
          h.0,
        ),
        insert-Distinct x ys (ground (arith, n)) h.1,
      )
      | inr here ↦ rw here (n, h)
    ]

    pub sort-Distinct : (xs : List A) → Distinct (map key xs) → Distinct (map key (sort xs))
    unfolding sort
    sort-Distinct [] h = tt
    sort-Distinct (x ∷ xs) h =
        insert-Distinct x (sort xs) (contains-sort (key x) xs ∙ h.0) (sort-Distinct xs h.1)

-- The second comparator decides where the first finds no difference.
abbrev pub then_by : Ordering → Ordering → Ordering
then_by Ordering.lt o = Ordering.lt
then_by Ordering.eq o = o
then_by Ordering.gt o = Ordering.gt

pub then_by-IsConsistent {ℓ} :
    {A : Type ℓ} (c d : A → A → Ordering)
    → IsConsistent c
    → IsConsistent d
    → IsConsistent (λ x y. then_by (c x y) (d x y))
then_by-IsConsistent c d hc hd = record {
  swap = λ x y. ground (arith, hc.swap x y, hd.swap x y);
  trans = λ x y z. ground (
    arith,
    hc.swap x y,
    hc.swap y z,
    hc.swap x z,
    hc.trans x y z,
    hc.trans z x y,
    hc.trans y z x,
    hd.trans x y z,
  );
}

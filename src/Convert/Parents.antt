-- ===== src/Convert/Parents.antt =====
-- scripts/convert_csv.js: the order in which the accounts are written.
use mathlib.Core.List.{Perm}
use mathlib.Core.List.Perm
use antimoney.Prelude.{
  ℕ, zero, suc, ◌+◌, ◌-◌, ◌≤◌, ◌≡◌, ◌≢◌, refl, ap, ◌∙◌, subst, inl, inr, true, some, List, [], ◌∷◌,
  ◌++◌, map, All, length, take, get_elem?, length-take, arith, Bool-cases, eqb, ltb,
}
use antimoney.Prelude.Sorting.{Le, sort, IsSorted, IsConsistent, sort-IsSorted, sort-perm}
use antimoney.Register.Search.{Text}
use antimoney.Convert.{Host, colon, push, split, join, or_empty}
use antimoney.Convert.Chart.{
  Account, parent_name, account_of, accounts_of, compare_depth, chart, account_named,
}

HasNoColon : Text → Type 0
HasNoColon = All (λ c. c ≢ colon)

split-plain : (s : Text) → HasNoColon s → split s ≡ s ∷ []
unfolding split HasNoColon
split-plain [] h = refl
split-plain (c ∷ s) h = rw (split-plain s h.1) (ground (arith, h.0))

split-colon : (s t : Text) → HasNoColon s → split (s ++ (colon ∷ t)) ≡ s ∷ split t
unfolding split HasNoColon
split-colon [] t h = refl
split-colon (c ∷ s) t h = rw (split-colon s t h.1) (ground (arith, h.0))

split-join : (x : Text) (l : List Text) → All HasNoColon (x ∷ l) → split (join (x ∷ l)) ≡ x ∷ l
unfolding join
split-join x [] h = split-plain x h.0
split-join x (y ∷ l) h = split-colon x (join (y ∷ l)) h.0 ∙ ap (◌∷◌ x) (split-join y l h.1)

push-HasNoColon : (c : ℕ) (l : List Text) → c ≢ colon → All HasNoColon l → All HasNoColon (push c l)
unfolding HasNoColon
push-HasNoColon c [] n h = ((n, tt), tt)
push-HasNoColon c (w ∷ ws) n h = ((n, h.0), h.1)

split-HasNoColon : (s : Text) → All HasNoColon (split s)
unfolding split HasNoColon
split-HasNoColon [] = (tt, tt)
split-HasNoColon (c ∷ s) = elim (Bool-cases (eqb c colon)) [
  | inl marked ↦ rw marked (tt, split-HasNoColon s)
  | inr other ↦ rw other (push-HasNoColon c (split s) (ground (arith, other)) (split-HasNoColon s))
]

take-All : (k : ℕ) (l : List Text) → All HasNoColon l → All HasNoColon (take k l)
take-All zero l h = tt
take-All (suc k) [] h = tt
take-All (suc k) (x ∷ l) h = (h.0, take-All k l h.1)

split-join-take :
    (k : ℕ) (l : List Text)
    → All HasNoColon l
    → 1 ≤ k
    → k ≤ length l
    → split (join (take k l)) ≡ take k l
split-join-take zero l h one le = absurd (omega arith)
split-join-take (suc k) [] h one le = absurd (omega arith)
split-join-take (suc k) (x ∷ l) h one le = split-join x (take k l) (take-All (suc k) (x ∷ l) h)

length-split_init :
    (l : List Text)
    → All HasNoColon l
    → ltb 1 (length l) ≡ true
    → length l ≡ length (split (join (take (length l - 1) l))) + 1
length-split_init l h more =
    let count : 2 ≤ length l = ground (arith, more) in
    rw (split-join-take (length l - 1) l h (omega (arith, count)) (omega arith))
      (omega (arith, length-take (length l - 1) l (omega arith), count))

-- a parent is one level above
length-split_parent :
    (full p : Text) → parent_name full ≡ some p → length (split full) ≡ length (split p) + 1
unfolding parent_name
length-split_parent full p h = elim (Bool-cases (ltb 1 (length (split full)))) [
  | inl more ↦
      let name : join (take (length (split full) - 1) (split full)) ≡ p = cc in
      subst (λ q. length (split full) ≡ length (split q) + 1) name
        (length-split_init (split full) (split-HasNoColon full) more)
  | inr single ↦ absurd (cc)
]

-- No account stands before its parent, nor is it its own.
abbrev pub ParentsFirst : List Account → Type 0
ParentsFirst [] = Unit
ParentsFirst (a ∷ l) =
    All (λ b. parent_name a.full_name ≢ some b.full_name) (a ∷ l) × ParentsFirst l

compare_depth-IsConsistent : IsConsistent compare_depth
compare_depth-IsConsistent = record { swap = λ x y. ground arith; trans = λ x y z. ground arith }

later-ParentsFirst :
    (a : Account) (l : List Account)
    → All (Le compare_depth a) l
    → All (λ b. parent_name a.full_name ≢ some b.full_name) l
later-ParentsFirst a [] h = tt
later-ParentsFirst a (b ∷ l) h = (
  λ e. ground (arith, h.0, length-split_parent a.full_name b.full_name e),
  later-ParentsFirst a l h.1,
)

IsSorted-ParentsFirst : (l : List Account) → IsSorted compare_depth l → ParentsFirst l
IsSorted-ParentsFirst [] h = tt
IsSorted-ParentsFirst (a ∷ l) h =
    (later-ParentsFirst a (a ∷ l) (ground arith, h.0), IsSorted-ParentsFirst l h.1)

-- A row has a full name.
abbrev pub IsNamed : List Text → Type 0
IsNamed cols = 2 ≤ length cols

abbrev pub full_name_of : List Text → Text
full_name_of cols = or_empty (get_elem? cols 1)

accounts_of-total :
    (host : Host) (rs : List (List Text))
    → All IsNamed rs
    → (l : List Account) × (accounts_of host rs ≡ some l)
      × (map (λ a. a.full_name) l ≡ map full_name_of rs)
unfolding accounts_of account_of
accounts_of-total host [] h = ([], refl, refl)
accounts_of-total host ([] ∷ rs) h = absurd (omega (arith, h.0))
accounts_of-total host ((x ∷ []) ∷ rs) h = absurd (omega (arith, h.0))
accounts_of-total host ((x ∷ y ∷ r) ∷ rs) h =
    let (l, read, names) = accounts_of-total host rs h.1 in
    (account_named host (x ∷ y ∷ r) y ∷ l, rw read refl, ap (◌∷◌ y) names)

-- Where every row has a full name, the accounts are written, each row's account once, and no
-- account stands before the one that its name makes its parent.
pub chart-ParentsFirst :
    (host : Host) (rs : List (List Text))
    → All IsNamed rs
    → (l : List Account) × (chart host rs ≡ some l)
      × ParentsFirst l
      × Perm (map (λ a. a.full_name) l) (map full_name_of rs)
unfolding chart
chart-ParentsFirst host rs h =
    let (l, read, names) = accounts_of-total host rs h in
    (
      sort compare_depth l,
      rw read refl,
      IsSorted-ParentsFirst (sort compare_depth l)
          (sort-IsSorted compare_depth compare_depth-IsConsistent l),
      subst (Perm (map (λ a. a.full_name) (sort compare_depth l))) names
          (Perm.map (λ a. a.full_name) (sort-perm compare_depth l)),
    )

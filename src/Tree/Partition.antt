-- ===== src/Tree/Partition.antt =====
-- Every account stands in the tree exactly once.
use antimoney.Prelude.{
  ℕ, zero, suc, ◌≤◌, ◌<◌, ◌≡◌, refl, sym, ap, ◌∙◌, inl, inr, Bool, true, false, ◌&&◌, ◌==◌, eq_iff,
  String, some, List, [], ◌∷◌, length, arith, All, Bool-cases, Option-cases, contains, Distinct,
  occurrences, occurrences-of_absent, occurrences-of_Distinct, if◌then◌else◌,
}
use antimoney.Types.{Account}
use antimoney.Tree.{
  children_of, Store, Forest, get, has, read_forest, collect_children, set_nodes, build_nodes,
  build_tree, aggregate_roots,
}
use antimoney.Tree.Links.{hangs_under, hangs_nowhere, count_where, has_of_parent_of}
use antimoney.Tree.Built.{ids_of, parent_among, IsBuilt, build_nodes-IsBuilt, has-set_nodes}
use antimoney.Tree.Totals.{aggregate_roots-HaveTotals, collect_children-eq-map}
use antimoney.Tree.Stands.{stands, stands-under, stands-top, stands-absent}

-- The account that has an id of the list, where no id stands twice: a count of accounts with
-- that id is a test of this one.
IsOwner : List Account → String → (Account → Type 0) → Account → Type 0
IsOwner l k P x =
    (x.guid ≡ k)
    × P x
    × ((q : Account → Bool) → count_where (λ a. k == a.guid && q a) l ≡ (if q x then 1 else 0))

count_where-of_absent :
    (k : String) (q : Account → Bool) (l : List Account)
    → contains k (ids_of l) ≡ false
    → count_where (λ a. k == a.guid && q a) l ≡ 0
count_where-of_absent k q [] h = refl
count_where-of_absent k q (a ∷ l) h = ground (arith, h, count_where-of_absent k q l)

owner :
    (l : List Account) (k : String) (P : Account → Type 0)
    → Distinct (ids_of l)
    → All P l
    → contains k (ids_of l) ≡ true
    → (x : Account) × IsOwner l k P x
unfolding IsOwner
owner [] k P d all h = cc
owner (a ∷ l) k P d all h = elim (Bool-cases (k == a.guid)) [
  | inl here ↦
      let same = (eq_iff k a.guid).0 here in
      (a, (sym same, all.0, λ q. ground (arith, here, count_where-of_absent k q l (rw same d.0))))
  | inr later ↦
      let (x, (guid, px, counts)) = owner l k P d.1 all.1 (ground (arith, h, later)) in
      (x, (guid, px, λ q. ground (arith, later, counts q)))
]

-- The ids are different, and every account ranks above its listed parent, with no rank above the
-- number of accounts: so no account is its own ancestor.
pub record IsAcyclic (accounts : List Account) (rank : String → ℕ) : Type 0 where
  pub distinct : Distinct (ids_of accounts)
  pub climbs :
      All (λ a. (p : String) → parent_among accounts a ≡ some p → rank p < rank a.guid) accounts
  pub bounded : All (λ a. rank a.guid ≤ length accounts) accounts

module _ (accounts : List Account) (m : Store) (roots : List String)
    (built : IsBuilt accounts m roots) (rank : String → ℕ) (acyclic : IsAcyclic accounts rank) where
  listed_of_parent :
      (x : Account) (p : String)
      → parent_among accounts x ≡ some p
      → contains p (ids_of accounts) ≡ true
  unfolding get
  listed_of_parent x p up = ground (
    arith,
    has_of_parent_of (set_nodes accounts []) x.parent_guid p up,
    has-set_nodes accounts [] p,
  )

  stands_once :
      (fuel : ℕ) (k : String)
      → contains k (ids_of accounts) ≡ true
      → rank k < fuel
      → stands m k fuel roots ≡ 1
  unfolding IsOwner
  stands_once zero k listed h = absurd (omega (arith, h))
  stands_once (suc fuel) k listed h =
      let known : has k m ≡ true = built.known k ∙ listed in
      let (x, (guid, climbs, counts)) =
        owner accounts k
          (λ a. (p : String) → parent_among accounts a ≡ some p → rank p < rank a.guid)
          acyclic.distinct acyclic.climbs listed in
      elim (Option-cases (parent_among accounts x)) [
        | inl top ↦
            let kids : (i : String) → occurrences k (children_of (get i m)) ≡ 0 = λ i.
              built.children i k
              ∙ counts (λ a. hangs_under i (parent_among accounts a))
              ∙ rw top refl in
            stands-top accounts m roots built k fuel roots known kids
            ∙ built.top k
            ∙ counts (λ a. hangs_nowhere (parent_among accounts a))
            ∙ rw top refl
        | inr (p, up) ↦
            let kids : (i : String)
                → occurrences k (children_of (get i m)) ≡ (if p == i then 1 else 0) =
              λ i.
                built.children i k
                ∙ counts (λ a. hangs_under i (parent_among accounts a))
                ∙ rw up refl in
            let none_above : occurrences k roots ≡ 0 =
              built.top k ∙ counts (λ a. hangs_nowhere (parent_among accounts a)) ∙ rw up refl in
            let parent_listed : contains p (ids_of accounts) ≡ true = listed_of_parent x p up in
            let below : rank p < fuel = omega (arith, h, climbs p up, ap rank guid) in
            omega (
              arith,
              stands-under accounts m roots built k p fuel roots known kids,
              none_above,
              stands_once fuel p parent_listed below,
            )
      ]

rank_at :
    (rank : String → ℕ) (n : ℕ) (l : List Account) (k : String)
    → contains k (ids_of l) ≡ true
    → All (λ a. rank a.guid ≤ n) l
    → rank k ≤ n
rank_at rank n [] k h all = cc
rank_at rank n (a ∷ l) k h all = elim (Bool-cases (k == a.guid)) [
  | inl here ↦ rw ((eq_iff k a.guid).0 here) all.0
  | inr later ↦ rank_at rank n l k (ground (arith, h, later)) all.1
]

collected-aggregate :
    (k : String) (f : Forest)
    → occurrences k (collect_children (aggregate_roots f)) ≡ occurrences k (collect_children f)
collected-aggregate k f = ap (occurrences k) (
    collect_children-eq-map (aggregate_roots f)
    ∙ ap ids_of (aggregate_roots-HaveTotals f).1
    ∙ sym (collect_children-eq-map f))

-- Where no account is its own ancestor and no id stands twice, every account stands exactly once
-- in the tree that is built, at whatever depth, and nothing else does.
pub build_tree-occurrences :
    (accounts : List Account) (rank : String → ℕ) (k : String)
    → IsAcyclic accounts rank
    → occurrences k (collect_children (build_tree accounts)) ≡ occurrences k (ids_of accounts)
unfolding build_tree
build_tree-occurrences accounts rank k acyclic =
    let (m, roots) = build_nodes accounts in
    let read = read_forest (suc (length accounts)) m roots in
    let built = build_nodes-IsBuilt accounts in
    collected-aggregate k read ∙ elim (Bool-cases (contains k (ids_of accounts))) [
      | inl listed ↦
          stands_once accounts m roots built rank acyclic (suc (length accounts)) k listed
            (omega (arith, rank_at rank (length accounts) accounts k listed acyclic.bounded))
          ∙ sym (occurrences-of_Distinct k (ids_of accounts) acyclic.distinct listed)
      | inr other ↦
          stands-absent accounts m roots built k (suc (length accounts)) roots
            (built.known k ∙ other)
          ∙ sym (occurrences-of_absent k (ids_of accounts) other)
    ]

-- ===== src/Tree/Links.antt =====
-- What the second loop of `buildTree` adds to the store: each node has the ids of the accounts
-- that name it as their parent, and the roots are the others.
use antimoney.Prelude.{
  ℕ, suc, ◌+◌, ◌≡◌, refl, sym, ap, ◌∙◌, inl, inr, Bool, true, false, ◌&&◌, ◌==◌, eq_iff, String,
  Option, none, some, List, [], ◌∷◌, arith, Bool-cases, occurrences, occurrences-append,
  if◌then◌else◌,
}
use antimoney.Types.{Account}
use antimoney.Tree.{
  children_of, Node, Store, get, put, has, is_node, parent_of, add_child, parent_in, link_under,
  link_nodes,
}

abbrev pub is_known : Option Account → Bool
is_known none = false
is_known (some a) = true

abbrev pub account_of : Option Node → Option Account
account_of none = none
account_of (some n) = some n.account

-- Whether the account hangs under the node of that id, and whether under none.
abbrev pub hangs_under : String → Option String → Bool
hangs_under i none = false
hangs_under i (some p) = p == i

abbrev pub hangs_nowhere : Option String → Bool
hangs_nowhere none = true
hangs_nowhere (some p) = false

abbrev pub count_where : (Account → Bool) → List Account → ℕ
count_where p [] = 0
count_where p (a ∷ l) = if p a then suc (count_where p l) else count_where p l

pub get-put :
    (i k : String) (n : Node) (m : Store) → get i (put k n m) ≡ (if k == i then some n else get i m)
unfolding get put
get-put i k n [] = refl
get-put i k n ((j, o) ∷ m) = ground (arith, eq_iff j k, eq_iff k i, eq_iff j i, get-put i k n m)

account-add_child :
    (i p c : String) (m : Store) → account_of (get i (add_child p c m)) ≡ account_of (get i m)
unfolding get add_child
account-add_child i p c [] = refl
account-add_child i p c ((j, n) ∷ m) = ground (arith, account-add_child i p c m)

children-add_child :
    (i p c k : String) (m : Store)
    → has p m ≡ true
    → occurrences k (children_of (get i (add_child p c m)))
      ≡ occurrences k (children_of (get i m)) + (if p == i && k == c then 1 else 0)
unfolding get add_child
children-add_child i p c k [] h = cc
children-add_child i p c k ((j, n) ∷ m) h = elim (Bool-cases (j == p)) [
  | inl here ↦ elim (Bool-cases (j == i)) [
    | inl mine ↦
        let pi : (p == i) ≡ true = rw (← (eq_iff j p).0 here) mine in
        rw (here, mine, pi) (occurrences-append k n.children (c ∷ []))
    | inr other ↦
        let pi : (p == i) ≡ false = rw (← (eq_iff j p).0 here) other in
        rw (here, other, pi) (omega arith)
  ]
  | inr later ↦ elim (Bool-cases (j == i)) [
    | inl mine ↦
        let pi : (p == i) ≡ false =
          ground (arith, later, mine, eq_iff j i, eq_iff p i, eq_iff j p) in
        rw (later, mine, pi) (omega arith)
    | inr other ↦ rw (later, other) (children-add_child i p c k m (ground (arith, h, later)))
  ]
]

pub is_node_account : (o : Option Node) → is_node o ≡ is_known (account_of o)
is_node_account none = refl
is_node_account (some n) = refl

has-add_child : (i p c : String) (m : Store) → has i (add_child p c m) ≡ has i m
has-add_child i p c m =
    is_node_account (get i (add_child p c m))
    ∙ ap is_known (account-add_child i p c m)
    ∙ sym (is_node_account (get i m))

-- The parent of an account depends only on which ids the store has.
parent_of-congr :
    (m m' : Store) (o : Option String)
    → ((i : String) → has i m' ≡ has i m)
    → parent_of m' o ≡ parent_of m o
parent_of-congr m m' none h = refl
parent_of-congr m m' (some p) h = ground (arith, h p)

pub has_of_parent_of :
    (m : Store) (o : Option String) (p : String) → parent_of m o ≡ some p → has p m ≡ true
has_of_parent_of m none p h = cc
has_of_parent_of m (some q) p h = ground (arith, h)

-- What one account adds.
under-account :
    (o : Option String) (a : Account) (m : Store) (roots : List String) (i : String)
    → account_of (get i (link_under o a m roots).0) ≡ account_of (get i m)
under-account none a m roots i = refl
under-account (some p) a m roots i = account-add_child i p a.guid m

under-children :
    (o : Option String) (a : Account) (m : Store) (roots : List String) (i k : String)
    → ((p : String) → o ≡ some p → has p m ≡ true)
    → occurrences k (children_of (get i (link_under o a m roots).0))
      ≡ occurrences k (children_of (get i m)) + (if k == a.guid && hangs_under i o then 1 else 0)
under-children none a m roots i k known = ground arith
under-children (some p) a m roots i k known =
    ground (arith, children-add_child i p a.guid k m (known p refl))

under-roots :
    (o : Option String) (a : Account) (m : Store) (roots : List String) (k : String)
    → occurrences k (link_under o a m roots).1
      ≡ occurrences k roots + (if k == a.guid && hangs_nowhere o then 1 else 0)
under-roots none a m roots k = ground (arith, occurrences-append k roots (a.guid ∷ []))
under-roots (some p) a m roots k = ground arith

count_where-congr :
    (p q : Account → Bool) (l : List Account)
    → ((a : Account) → p a ≡ q a)
    → count_where p l ≡ count_where q l
count_where-congr p q [] h = refl
count_where-congr p q (a ∷ l) h = ground (arith, h a, count_where-congr p q l h)

count_where-cons :
    (p : Account → Bool) (a : Account) (l : List Account)
    → count_where p (a ∷ l) ≡ (if p a then 1 else 0) + count_where p l
count_where-cons p a l = ground arith

-- The second loop keeps the accounts, and adds to each node and to the roots the ids of the
-- accounts that hang there.
pub record IsLinked (accounts : List Account) (m m' : Store) (roots roots' : List String)
    : Type 0 where
  pub account : (i : String) → account_of (get i m') ≡ account_of (get i m)
  pub children :
      (i k : String)
      → occurrences k (children_of (get i m'))
        ≡ occurrences k (children_of (get i m))
          + count_where (λ a. k == a.guid && hangs_under i (parent_in m a)) accounts
  pub top :
      (k : String)
      → occurrences k roots'
        ≡ occurrences k roots
          + count_where (λ a. k == a.guid && hangs_nowhere (parent_in m a)) accounts

has-under :
    (o : Option String) (a : Account) (m : Store) (roots : List String) (i : String)
    → has i (link_under o a m roots).0 ≡ has i m
has-under none a m roots i = refl
has-under (some p) a m roots i = has-add_child i p a.guid m

IsLinked-cons :
    (a : Account) (as' : List Account) (m m' : Store) (roots roots' : List String)
    → let (m1, roots1) = link_under (parent_in m a) a m roots in
      IsLinked as' m1 m' roots1 roots' → IsLinked (a ∷ as') m m' roots roots'
IsLinked-cons a as' m m' roots roots' rest =
    let o = parent_in m a in
    let m1 = (link_under o a m roots).0 in
    let same = λ (x : Account). parent_of-congr m m1 x.parent_guid (has-under o a m roots) in
    record {
      account = λ i. rest.account i ∙ under-account o a m roots i;
      children = λ i k. omega (
        arith,
        rest.children i k,
        under-children o a m roots i k (λ p. has_of_parent_of m a.parent_guid p),
        count_where-congr (λ x. k == x.guid && hangs_under i (parent_in m1 x))
            (λ x. k == x.guid && hangs_under i (parent_in m x)) as'
            (λ x. ap (λ y. k == x.guid && hangs_under i y) (same x)),
        count_where-cons (λ x. k == x.guid && hangs_under i (parent_in m x)) a as',
      );
      top = λ k. omega (
        arith,
        rest.top k,
        under-roots o a m roots k,
        count_where-congr (λ x. k == x.guid && hangs_nowhere (parent_in m1 x))
            (λ x. k == x.guid && hangs_nowhere (parent_in m x)) as'
            (λ x. ap (λ y. k == x.guid && hangs_nowhere y) (same x)),
        count_where-cons (λ x. k == x.guid && hangs_nowhere (parent_in m x)) a as',
      );
    }

pub link_nodes-IsLinked :
    (accounts : List Account) (m : Store) (roots : List String)
    → IsLinked accounts m (link_nodes accounts m roots).0 roots (link_nodes accounts m roots).1
unfolding link_nodes
link_nodes-IsLinked [] m roots = record {
  account = λ i. refl;
  children = λ i k. omega arith;
  top = λ k. omega arith;
}
link_nodes-IsLinked (a ∷ as') m roots =
    let (m1, roots1) = link_under (parent_in m a) a m roots in
    IsLinked-cons a as' m (link_nodes as' m1 roots1).0 roots (link_nodes as' m1 roots1).1
      (link_nodes-IsLinked as' m1 roots1)

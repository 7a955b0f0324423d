-- ===== src/Editor/Projected.antt =====
-- The balance that the form projects for an account.
use antimoney.Prelude.{
  ◌≡◌, ◌≢◌, refl, ap, ◌∙◌, inl, inr, All, true, false, ◌==◌, eq_iff, eq_refl, String, some, List,
  [], ◌∷◌, map, arith, Bool-cases, if◌then◌else◌,
}
use antimoney.Prelude.Int.{pos, ◌+ℤ◌, int_laws, add_assoc}
use antimoney.Types.{Amount, Account, Split, Transaction, signed}
use antimoney.Register.Search.{Text}
use antimoney.Editor.{
  sanitize, to_fixed, evaluate_sanitized, State, Numbers, read, evaluate_math, add_to, original,
  split_value, initial_map, input_of, load_done, loaded, total_for, projected_balance,
}

original-add_to_same :
    (k : String) (x : Amount) (m : List (String × Amount))
    → original k (add_to k x m) ≡ original k m +ℤ x
unfolding original add_to
original-add_to_same k x [] = rw (eq_refl k) (omega int_laws)
original-add_to_same k x ((j, y) ∷ m) = elim (Bool-cases (j == k)) [
  | inl here ↦ rw (here, here) refl
  | inr later ↦ rw (later, later) (original-add_to_same k x m)
]

original-add_to_other :
    (k j : String) (x : Amount) (m : List (String × Amount))
    → (j == k) ≡ false
    → original k (add_to j x m) ≡ original k m
unfolding original add_to
original-add_to_other k j x [] h = rw h refl
original-add_to_other k j x ((i, y) ∷ m) h = elim (Bool-cases (i == j)) [
  | inl here ↦ ground (arith, h, eq_iff i j, here)
  | inr later ↦ ground (arith, h, later, original-add_to_other k j x m h)
]

original-add_to :
    (k j : String) (x : Amount) (m : List (String × Amount))
    → original k (add_to j x m) ≡ (if j == k then original k m +ℤ x else original k m)
original-add_to k j x m = elim (Bool-cases (j == k)) [
  | inl same ↦
      rw same
        (ap (λ i. original k (add_to i x m)) ((eq_iff j k).0 same) ∙ original-add_to_same k x m)
  | inr other ↦ rw other (original-add_to_other k j x m other)
]

module _ (n : Numbers) where
  -- The browser reads the number that it has printed, also as an expression, and the number has
  -- no fractions of a cent.
  pub record IsPlain (x : Amount) : Type 0 where
    pub reads : read n (n.show x) ≡ some x
    pub runs : n.run (sanitize (n.show x)) ≡ some x
    pub cents : to_fixed x ≡ x

  abbrev pub ArePlain : List Split → Type 0
  ArePlain = All (λ x. IsPlain (split_value n x))

  evaluate_plain : (x : Amount) → IsPlain x → read n (evaluate_math n (n.show x)) ≡ some x
  unfolding evaluate_math
  evaluate_plain x plain = as_run (sanitize (n.show x)) plain.runs
    where
      as_run : (s : Text) → n.run s ≡ some x → read n (evaluate_sanitized n (n.show x) s) ≡ some x
      as_run [] h = plain.reads
      as_run (c ∷ s) h = rw h (ap (λ y. read n (n.show y)) plain.cents ∙ plain.reads)

  abbrev sum_for : String → List Split → Amount
  sum_for k [] = pos 0
  sum_for k (x ∷ xs) = if x.account_guid == k then split_value n x +ℤ sum_for k xs else sum_for k xs

  total_for-input_of :
      (k : String) (xs : List Split)
      → ArePlain xs
      → total_for n k (map (input_of n) xs) ≡ sum_for k xs
  unfolding total_for
  total_for-input_of k [] plain = refl
  total_for-input_of k (x ∷ xs) plain =
      rw (evaluate_plain (split_value n x) plain.0, total_for-input_of k xs plain.1) refl

  step :
      (k : String) (x : Split) (xs : List Split) (m : List (String × Amount))
      → original k (add_to x.account_guid (split_value n x) m) +ℤ sum_for k xs
        ≡ original k m +ℤ sum_for k (x ∷ xs)
  step k x xs m = elim (Bool-cases (x.account_guid == k)) [
    | inl same ↦
        rw (original-add_to k x.account_guid (split_value n x) m, same)
          (add_assoc (original k m) (split_value n x) (sum_for k xs))
    | inr other ↦ rw (original-add_to k x.account_guid (split_value n x) m, other) refl
  ]

  original-initial_map :
      (k : String) (xs : List Split) (m : List (String × Amount))
      → k ≢ ""
      → original k (initial_map n xs m) ≡ original k m +ℤ sum_for k xs
  unfolding initial_map
  original-initial_map k [] m h = omega int_laws
  original-initial_map k (x ∷ xs) m h = elim (Bool-cases (x.account_guid == "")) [
    | inl unnamed ↦
        let other : (x.account_guid == k) ≡ false =
          ground (arith, h, unnamed, eq_iff x.account_guid "", eq_iff x.account_guid k) in
        rw (unnamed, other) (original-initial_map k xs m h)
    | inr named ↦
        let m' = add_to x.account_guid (split_value n x) m in
        rw named (original-initial_map k xs m' h ∙ step k x xs m)
  ]

  -- A transaction that has just been opened for an edit, and whose amounts are whole cents that
  -- the browser prints, reads and computes alike, projects for every account with an id the
  -- balance that the account has.
  pub projected_balance-load_done :
      (day : String → String) (tx : Transaction) (s : State) (a : Account)
      → ArePlain tx.splits
      → a.guid ≢ ""
      → projected_balance n (load_done n true day (loaded tx) s) a ≡ signed a.account_type a.balance
  unfolding projected_balance load_done original
  projected_balance-load_done day tx s a plain named = ap (signed a.account_type) (
      rw (original-initial_map a.guid tx.splits [] named, total_for-input_of a.guid tx.splits plain)
        (omega int_laws))

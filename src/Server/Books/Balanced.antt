-- ===== src/Server/Books/Balanced.antt =====
-- backend/internal/services/transaction_service.go: every transaction that the server keeps is
-- balanced.
use antimoney.Prelude.{
  ℕ, zero, suc, ◌≤◌, ◌≡◌, ◌≢◌, refl, sym, ap, ◌∙◌, subst, inl, inr, true, false, ◌||◌, String, List,
  [], ◌∷◌, map, All, length, ltb, eqb, arith, Bool-cases,
}
use antimoney.Prelude.Int.{ℤ, pos, negsuc, neg}
use antimoney.Types.{Split, SplitRequest}
use antimoney.Editor.{is_exactly_zero}
use antimoney.Server.Numeric.{Numeric, sum, neg-neg, none_negated}
use antimoney.Server.Books.{
  TxRow, Ids, Result, ok, failed, ◌>>=◌, valid_splits, value_of, request_sum, split_rows,
}

abbrev pub split_value : Split → Numeric
split_value x = record { num = x.value_num; denom = x.value_denom }

-- At least two splits, none of which is empty, and whose values add up to nothing.
pub record IsBalanced (xs : List Split) : Type 0 where
  pub sums : (sum (map split_value xs)).num ≡ pos 0
  pub several : 2 ≤ length xs
  pub filled : All (λ x. x.value_num ≢ pos 0) xs

abbrev pub AreBalanced : List TxRow → Type 0
AreBalanced = All (λ t. IsBalanced t.splits)

pub bind_ok {ℓ κ} :
    {A : Type ℓ} {B : Type κ} (r : Result A) (f : A → Result B) (b : B)
    → (r >>= f) ≡ ok b
    → (a : A) × (r ≡ ok a) × (f a ≡ ok b)
bind_ok (ok a) f b h = (a, refl, h)
bind_ok (failed e) f b h = absurd (cc)

pub is_exactly_zero_iff : (x : ℤ) → is_exactly_zero x ≡ false → x ≢ pos 0
is_exactly_zero_iff x h e = absurd (subst (λ y. is_exactly_zero y ≢ false) (sym e) (λ q. cc) h)

pub zero_of_exactly : (x : ℤ) → is_exactly_zero x ≡ true → x ≡ pos 0
zero_of_exactly (pos zero) h = refl
zero_of_exactly (pos (suc n)) h = absurd (cc)
zero_of_exactly (negsuc n) h = absurd (cc)

abbrev pub AreFilled : List SplitRequest → Type 0
AreFilled = All (λ x. x.value_num ≢ pos 0)

pub valid_splits-AreFilled : (xs ys : List SplitRequest) → valid_splits xs ≡ ok ys → AreFilled ys
unfolding valid_splits
valid_splits-AreFilled [] ys h = let none_kept : [] ≡ ys = cc in subst AreFilled none_kept tt
valid_splits-AreFilled (x ∷ xs) ys h = elim (Bool-cases (is_exactly_zero x.value_num)) [
  | inl empty ↦ valid_splits-AreFilled xs ys (ground (arith, h, empty))
  | inr filled ↦ elim (Bool-cases (eqb x.value_denom 0 || eqb x.quantity_denom 0)) [
    | inl bad ↦ absurd (ground (arith, h, filled, bad))
    | inr good ↦
        let (zs, rest, joined) =
          bind_ok (valid_splits xs) (λ zs. ok (x ∷ zs)) ys (ground (arith, h, filled, good)) in
        let whole : x ∷ zs ≡ ys = cc in
        subst AreFilled whole
          (is_exactly_zero_iff x.value_num filled, valid_splits-AreFilled xs zs rest)
  ]
]

-- What is stored of some splits.
pub record IsReady (xs : List SplitRequest) : Type 0 where
  pub sums : (request_sum xs).num ≡ pos 0
  pub filled : AreFilled xs

pub neg_filled : (x : ℤ) → x ≢ pos 0 → neg x ≢ pos 0
neg_filled x h e = h (neg-neg x ∙ ap neg e ∙ none_negated)

split_rows-values :
    (ids : Ids) (tx : String) (i : ℕ) (xs : List SplitRequest)
    → map split_value (split_rows ids tx i xs) ≡ map value_of xs
unfolding split_rows
split_rows-values ids tx i [] = refl
split_rows-values ids tx i (x ∷ xs) = ap (◌∷◌ (value_of x)) (split_rows-values ids tx (suc i) xs)

length-split_rows :
    (ids : Ids) (tx : String) (i : ℕ) (xs : List SplitRequest)
    → length (split_rows ids tx i xs) ≡ length xs
unfolding split_rows
length-split_rows ids tx i [] = refl
length-split_rows ids tx i (x ∷ xs) = ap suc (length-split_rows ids tx (suc i) xs)

split_rows-filled :
    (ids : Ids) (tx : String) (i : ℕ) (xs : List SplitRequest)
    → AreFilled xs
    → All (λ x. x.value_num ≢ pos 0) (split_rows ids tx i xs)
unfolding split_rows
split_rows-filled ids tx i [] h = tt
split_rows-filled ids tx i (x ∷ xs) h = (h.0, split_rows-filled ids tx (suc i) xs h.1)

pub split_rows-IsBalanced :
    (ids : Ids) (tx : String) (xs : List SplitRequest)
    → IsReady xs
    → ltb (length xs) 2 ≡ false
    → IsBalanced (split_rows ids tx 0 xs)
split_rows-IsBalanced ids tx xs ready many = record {
  sums = ap (λ l. (sum l).num) (split_rows-values ids tx 0 xs) ∙ ready.sums;
  several = grind (arith, many, length-split_rows ids tx 0 xs);
  filled = split_rows-filled ids tx 0 xs ready.filled;
}

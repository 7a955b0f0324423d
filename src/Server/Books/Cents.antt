-- ===== src/Server/Books/Cents.antt =====
-- backend/internal/services/transaction_service.go: a request in hundredths that add up to
-- nothing needs no balancing and is not refused as unbalanced.
use antimoney.Prelude.{
  ◌≡◌, refl, sym, ap, ◌∙◌, inl, inr, Bool, true, false, not, String, Option, none, some, List, [],
  ◌∷◌, map, filter, any, length, All, ltb, Bool-cases,
}
use antimoney.Prelude.Int.{ℤ, pos, ◌+ℤ◌, int_laws}
use antimoney.Types.{SplitRequest, CreateTransactionRequest}
use antimoney.Editor.{is_exactly_zero}
use antimoney.Server.Numeric.Exact.{numerators, AreCents, sum_iff}
use antimoney.Server.Books.Balanced.{zero_of_exactly}
use antimoney.Server.Books.{
  Store, Ids, Result, ok, failed, AccountRow, account_check, check_accounts, enough, unbalanced,
  invalid_split, too_few, placeholder_account, unknown_account, no_root, not_found, invalid_state,
  ◌>>=◌, valid_splits, value_of, request_sum,
}
use antimoney.Server.Books.Requests.{update_transaction, is_tx}

-- a request in hundredths
abbrev pub InCents : SplitRequest → Type 0
InCents x = (x.value_denom ≡ 100) × (x.quantity_denom ≡ 100)

abbrev pub has_value : SplitRequest → Bool
has_value x = not (is_exactly_zero x.value_num)

pub valid_splits-InCents :
    (xs : List SplitRequest) → All InCents xs → valid_splits xs ≡ ok (filter has_value xs)
unfolding valid_splits
valid_splits-InCents [] h = refl
valid_splits-InCents (x ∷ xs) h =
    let rest = valid_splits-InCents xs h.1 in
    elim (Bool-cases (is_exactly_zero x.value_num)) [
      | inl empty ↦ rw (empty, rest) refl
      | inr filled ↦ rw (filled, h.0.0, h.0.1, rest) refl
    ]

abbrev pub cents : List SplitRequest → ℤ
cents xs = numerators (map value_of xs)

cents-filter : (xs : List SplitRequest) → cents (filter has_value xs) ≡ cents xs
cents-filter [] = refl
cents-filter (x ∷ xs) = elim (Bool-cases (is_exactly_zero x.value_num)) [
  | inl empty ↦ rw empty (
      cents-filter xs
      ∙ none_first (cents xs)
      ∙ ap (λ k. k +ℤ cents xs) (sym (zero_of_exactly x.value_num empty)))
  | inr filled ↦ rw filled (ap (◌+ℤ◌ x.value_num) (cents-filter xs))
]
  where
    none_first : (k : ℤ) → k ≡ pos 0 +ℤ k
    none_first k = omega int_laws

AreCents-filter :
    (xs : List SplitRequest) → All InCents xs → AreCents (map value_of (filter has_value xs))
AreCents-filter [] h = tt
AreCents-filter (x ∷ xs) h = elim (Bool-cases (is_exactly_zero x.value_num)) [
  | inl empty ↦ rw empty (AreCents-filter xs h.1)
  | inr filled ↦ rw filled (h.0.0, AreCents-filter xs h.1)
]

exactly_zero : (x : ℤ) → x ≡ pos 0 → is_exactly_zero x ≡ true
exactly_zero x e = ap is_exactly_zero e

-- what adds up to nothing is even for the server
pub even_of_cents :
    (xs : List SplitRequest)
    → All InCents xs
    → cents xs ≡ pos 0
    → is_exactly_zero (request_sum (filter has_value xs)).num ≡ true
even_of_cents xs h e =
    exactly_zero (request_sum (filter has_value xs)).num (
      (sum_iff (map value_of (filter has_value xs)) (AreCents-filter xs h)).1 (cents-filter xs ∙ e))

abbrev pub is_unbalanced {ℓ} : {A : Type ℓ} → Result A → Bool
is_unbalanced (failed unbalanced) = true
is_unbalanced _ = false

bind-even {ℓ κ} :
    {A : Type ℓ} {B : Type κ} (r : Result A) (f : A → Result B)
    → is_unbalanced r ≡ false
    → ((a : A) → is_unbalanced (f a) ≡ false)
    → is_unbalanced (r >>= f) ≡ false
bind-even (ok a) f h k = k a
bind-even (failed invalid_split) f h k = refl
bind-even (failed unbalanced) f h k = absurd (cc)
bind-even (failed too_few) f h k = refl
bind-even (failed placeholder_account) f h k = refl
bind-even (failed unknown_account) f h k = refl
bind-even (failed no_root) f h k = refl
bind-even (failed not_found) f h k = refl
bind-even (failed invalid_state) f h k = refl

account_check-even : (o : Option AccountRow) → is_unbalanced (account_check o) ≡ false
account_check-even none = refl
account_check-even (some a) = elim (Bool-cases a.placeholder) [
  | inl bad ↦ rw bad refl
  | inr good ↦ rw good refl
]

check_accounts-even :
    (book : String) (accounts : List AccountRow) (xs : List SplitRequest)
    → is_unbalanced (check_accounts book accounts xs) ≡ false
unfolding check_accounts
check_accounts-even book accounts [] = refl
check_accounts-even book accounts (x ∷ xs) =
    bind-even (account_check _) (λ _. check_accounts book accounts xs) (account_check-even _)
      (λ _. check_accounts-even book accounts xs)

enough-even : (xs : List SplitRequest) → is_unbalanced (enough xs) ≡ false
enough-even xs = elim (Bool-cases (ltb (length xs) 2)) [
  | inl few ↦ rw few refl
  | inr many ↦ rw many refl
]

pub update_transaction-even :
    (noon : String → String) (ids : Ids) (book guid : String) (req : CreateTransactionRequest)
    (s : Store) (ys : List SplitRequest)
    → valid_splits req.splits ≡ ok ys
    → is_exactly_zero (request_sum ys).num ≡ true
    → is_unbalanced (update_transaction noon ids book guid req s) ≡ false
unfolding update_transaction
update_transaction-even noon ids book guid req s ys kept even =
    elim (Bool-cases (any (is_tx guid book) s.transactions)) [
      | inl there ↦
          rw (there, kept, even)
            (bind-even (enough ys) _ (enough-even ys) (λ _.
              bind-even (check_accounts book s.accounts ys) _
                (check_accounts-even book s.accounts ys) (λ _. refl)))
      | inr missing ↦ rw missing refl
    ]

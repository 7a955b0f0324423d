-- ===== src/Server/Numeric/Words.antt =====
-- backend/internal/gnc/numeric.go: the sums in the 64-bit integers of `Numeric`.
--
-- Go leaves undefined what `Int64` of a `big.Int` makes of a number that is no 64-bit integer, so
-- `int64` is a parameter here.
use Prim.Native.Nat.{◌^◌}
use antimoney.Prelude.{suc, ◌<◌, ◌≡◌, refl, ap, ◌∙◌, List, [], ◌∷◌}
use antimoney.Prelude.Int.{ℤ, pos, negsuc, neg, abs}
use antimoney.Server.Numeric.{Numeric, no_amount, add, add_all, sum}

-- A 64-bit integer whose opposite is one too.
abbrev pub IsInt64 : ℤ → Type 0
IsInt64 n = abs n < 2 ^ 63

-- A fraction of such integers.
abbrev pub Fits : Numeric → Type 0
Fits x = IsInt64 x.num × IsInt64 (pos x.denom)

-- The exact sums of more and more of the numbers are such fractions.
abbrev pub SumsFit : Numeric → List Numeric → Type 0
SumsFit x [] = Unit
SumsFit x (y ∷ l) = Fits (add x y) × SumsFit (add x y) l

-- What the code relies on of `Int64`.
abbrev pub KeepsInt64 : (ℤ → ℤ) → Type 0
KeepsInt64 int64 = (n : ℤ) → IsInt64 n → int64 n ≡ n

module _ (int64 : ℤ → ℤ) where
  abbrev with_denom : ℤ → ℤ → Numeric
  with_denom num (pos d) = record { num = num; denom = d }
  with_denom num (negsuc d) = record { num = neg num; denom = suc d }

  -- `fromBigRat`
  unfoldable pub from_big_rat : Numeric → Numeric
  from_big_rat r = with_denom (int64 r.num) (int64 (pos r.denom))

  unfoldable pub add_all_in_words : Numeric → List Numeric → Numeric
  add_all_in_words x [] = x
  add_all_in_words x (y ∷ l) = add_all_in_words (from_big_rat (add x y)) l

  -- `Sum`, with `Add`
  unfoldable pub sum_in_words : List Numeric → Numeric
  sum_in_words l = add_all_in_words no_amount l

  from_big_rat-Fits : KeepsInt64 int64 → (x : Numeric) → Fits x → from_big_rat x ≡ x
  unfolding from_big_rat
  from_big_rat-Fits keeps x h = rw (keeps x.num h.0, keeps (pos x.denom) h.1) refl

  add_all_in_words-exact :
      KeepsInt64 int64
      → (x : Numeric) (l : List Numeric) → SumsFit x l
      → add_all_in_words x l ≡ add_all x l
  unfolding add_all_in_words add_all
  add_all_in_words-exact keeps x [] h = refl
  add_all_in_words-exact keeps x (y ∷ l) h =
      ap (λ t. add_all_in_words t l) (from_big_rat-Fits keeps (add x y) h.0)
      ∙ add_all_in_words-exact keeps (add x y) l h.1

  -- where the exact sums are fractions of 64-bit integers, they are what the server computes
  pub sum_in_words-exact :
      KeepsInt64 int64 → (l : List Numeric) → SumsFit no_amount l → sum_in_words l ≡ sum l
  unfolding sum_in_words sum
  sum_in_words-exact keeps l h = add_all_in_words-exact keeps no_amount l h

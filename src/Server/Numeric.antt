-- ===== src/Server/Numeric.antt =====
-- backend/internal/gnc/numeric.go: exact fractions, which the server adds up to see whether a
-- transaction is balanced. Their 64-bit integers are unbounded here, and a denominator is not
-- negative: the client sends none that is. Words has the sums in 64-bit integers, and when they are
-- the sums here.
pub mod Exact
pub mod Words
use mathlib.Core.WellFounded.{Acc}
use antimoney.Prelude.{
  ℕ, zero, suc, ◌*◌, ◌/◌, ◌%◌, ◌<◌, ◌≡◌, refl, sym, ap, ◌∙◌, List, [], ◌∷◌, ◌++◌, arith,
}
use antimoney.Prelude.Int.{ℤ, pos, negsuc, abs, neg, ◌+ℤ◌, int_laws}

pub record Numeric : Type 0 where
  pub num : ℤ
  pub denom : ℕ

abbrev pub no_amount : Numeric
no_amount = record { num = pos 0; denom = 1 }

acc_below : (k n : ℕ) → n < k → Acc ◌<◌ n
acc_below zero n h = absurd (omega arith)
acc_below (suc k) n h = Acc.intro n λ m hm. acc_below k m (omega arith)

accessible : (n : ℕ) → Acc ◌<◌ n
unfolding acc_below
accessible n = acc_below (suc n) n (omega arith)

mod-lt : (a b : ℕ) → a % suc b < suc b
mod-lt a b = omega arith

gcd_loop : (a b : ℕ) → Acc ◌<◌ b → ℕ
gcd_loop a b (Acc.intro zero _) = a
gcd_loop a b (Acc.intro (suc c) smaller) =
    gcd_loop (suc c) (a % suc c) (smaller (a % suc c) (mod-lt a c))

-- `gcd`
unfoldable pub gcd : ℕ → ℕ → ℕ
unfolding gcd_loop accessible mod-lt
gcd a b = gcd_loop a b (accessible b)

abbrev pub times : ℤ → ℕ → ℤ
times (pos n) d = pos (n * d)
times (negsuc n) d = neg (pos (suc n * d))

abbrev pub over : ℤ → ℕ → ℤ
over (pos n) g = pos (n / g)
over (negsuc n) g = neg (pos (suc n / g))

-- A fraction in lowest terms, as `big.Rat` keeps it.
unfoldable pub reduced : ℤ → ℕ → Numeric
reduced n d = let g = gcd (abs n) d in record { num = over n g; denom = d / g }

-- `Add`
unfoldable pub add : Numeric → Numeric → Numeric
add x y = reduced (times x.num y.denom +ℤ times y.num x.denom) (x.denom * y.denom)

-- `Neg`
unfoldable pub negated : Numeric → Numeric
negated x = record x { num = neg x.num }

unfoldable pub add_all : Numeric → List Numeric → Numeric
add_all x [] = x
add_all x (y ∷ l) = add_all (add x y) l

-- `Sum`
unfoldable pub sum : List Numeric → Numeric
sum l = add_all no_amount l

zero_times : (d : ℕ) → 0 * d ≡ 0
zero_times d = omega arith

pub neg_pos : (n : ℕ) → neg (pos (suc n)) ≡ negsuc n
unfolding neg
neg_pos n = ground arith

neg_negsuc : (n : ℕ) → neg (negsuc n) ≡ pos (suc n)
unfolding neg
neg_negsuc n = ground arith

pub neg-neg : (a : ℤ) → a ≡ neg (neg a)
neg-neg a = omega int_laws

pub none_negated : neg (pos 0) ≡ pos 0
unfolding neg
none_negated = refl

times-neg : (a : ℤ) (d : ℕ) → times (neg a) d ≡ neg (times a d)
times-neg (pos zero) d =
    ap (λ t. times t d) none_negated
    ∙ ap pos (zero_times d)
    ∙ sym none_negated
    ∙ ap (λ t. neg (pos t)) (sym (zero_times d))
times-neg (pos (suc n)) d = rw (neg_pos n) refl
times-neg (negsuc n) d = rw (neg_negsuc n) (neg-neg (pos (suc n * d)))

add-neg_zero : (a : ℤ) → a +ℤ neg a ≡ pos 0
add-neg_zero a = omega int_laws

zero_over : (g : ℕ) → 0 / g ≡ 0
zero_over zero = refl
zero_over (suc g) = grind arith

reduced_zero : (d : ℕ) → (reduced (pos 0) d).num ≡ pos 0
unfolding reduced
reduced_zero d = ap pos (zero_over (gcd 0 d))

-- a fraction and its opposite make nothing
pub add-negated : (x : Numeric) → (add x (negated x)).num ≡ pos 0
unfolding add negated
add-negated x =
    let none_left : times x.num x.denom +ℤ times (neg x.num) x.denom ≡ pos 0 =
      ap (◌+ℤ◌ (times x.num x.denom)) (times-neg x.num x.denom)
      ∙ add-neg_zero (times x.num x.denom) in
    ap (λ t. (reduced t (x.denom * x.denom)).num) none_left ∙ reduced_zero (x.denom * x.denom)

add_all-append :
    (x y : Numeric) (l : List Numeric) → add_all x (l ++ (y ∷ [])) ≡ add (add_all x l) y
unfolding add_all
add_all-append x y [] = refl
add_all-append x y (z ∷ l) = add_all-append (add x z) y l

-- what is missing makes the sum zero
pub sum-balanced : (l : List Numeric) → (sum (l ++ (negated (sum l) ∷ []))).num ≡ pos 0
unfolding sum
sum-balanced l =
    ap (λ t. t.num) (add_all-append no_amount (negated (add_all no_amount l)) l)
    ∙ add-negated (add_all no_amount l)

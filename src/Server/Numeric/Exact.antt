-- ===== src/Server/Numeric/Exact.antt =====
-- backend/internal/gnc/numeric.go: the sum of fractions is the exact sum, on hundredths.
use Prim.Native.Nat.{◌∣◌}
use native.Mathlib.Nat
use mathlib.Core.WellFounded.{Acc}
use antimoney.Prelude.{
  ℕ, zero, suc, ◌+◌, ◌*◌, ◌/◌, ◌%◌, ◌<◌, ◌≤◌, ◌≡◌, ◌↔◌, refl, sym, ap, ◌∙◌, subst, List, [], ◌∷◌,
  All, arith,
}
use antimoney.Prelude.Int.{
  ℤ, pos, negsuc, abs, neg, pos_part, neg_part, ◌+ℤ◌, +ℤ_parts, eq_of_parts, int_laws, add_assoc,
}
use antimoney.Server.Numeric.{
  Numeric, no_amount, gcd, gcd_loop, accessible, mod-lt, times, over, reduced, add, add_all, sum,
}

gcd_loop-dvd : (a b : ℕ) (w : Acc ◌<◌ b) → (gcd_loop a b w ∣ a) × (gcd_loop a b w ∣ b)
unfolding gcd_loop
gcd_loop-dvd a b (Acc.intro zero _) = (Nat.dvd_refl a, Nat.dvd-zero a)
gcd_loop-dvd a b (Acc.intro (suc c) smaller) =
    let (first, second) = gcd_loop-dvd (suc c) (a % suc c) (smaller (a % suc c) (mod-lt a c)) in
    ((Nat.dvd-mod_iff _ first).0 second, first)

gcd-dvd : (a b : ℕ) → (gcd a b ∣ a) × (gcd a b ∣ b)
unfolding gcd
gcd-dvd a b = gcd_loop-dvd a b (accessible b)

-- dividing both by a common divisor
cross-div : (g k m : ℕ) → g ∣ k → g ∣ m → k / g * m ≡ k * (m / g)
cross-div g k m hk hm =
    ap (λ t. k / g * t) (sym (Nat.div-mul_cancel g hm))
    ∙ ap (λ t. k / g * t) (Nat.mul_comm (m / g) g)
    ∙ sym (Nat.mul_assoc (k / g) g (m / g))
    ∙ ap (λ t. t * (m / g)) (Nat.div-mul_cancel g hk)

div_pos : (g m : ℕ) → g ∣ m → 1 ≤ m → 1 ≤ m / g
div_pos g m h p = grind (arith, Nat.div-mul_cancel g h)

neg_pos_parts : (n : ℕ) → (pos_part (neg (pos n)) ≡ 0) × (neg_part (neg (pos n)) ≡ n)
unfolding neg
neg_pos_parts n = (ground arith, ground arith)

pub times_parts :
    (a : ℤ) (d : ℕ)
    → (pos_part (times a d) ≡ pos_part a * d) × (neg_part (times a d) ≡ neg_part a * d)
times_parts (pos n) d = (refl, omega arith)
times_parts (negsuc n) d =
    ((neg_pos_parts (suc n * d)).0 ∙ omega arith, (neg_pos_parts (suc n * d)).1)

over_parts :
    (a : ℤ) (g : ℕ)
    → (pos_part (over a g) ≡ pos_part a / g) × (neg_part (over a g) ≡ neg_part a / g)
over_parts (pos n) g = (refl, sym (Nat.zero-div g))
over_parts (negsuc n) g =
    ((neg_pos_parts (suc n / g)).0 ∙ sym (Nat.zero-div g), (neg_pos_parts (suc n / g)).1)

pub eq_by_parts : (a b : ℤ) → pos_part a ≡ pos_part b → neg_part a ≡ neg_part b → a ≡ b
eq_by_parts a b p n = eq_of_parts a b (omega (arith, p, n))

times-times : (a : ℤ) (c d : ℕ) → times (times a c) d ≡ times a (c * d)
times-times a c d =
    eq_by_parts (times (times a c) d) (times a (c * d))
      ((times_parts (times a c) d).0
        ∙ ap (λ t. t * d) (times_parts a c).0
        ∙ Nat.mul_assoc (pos_part a) c d
        ∙ sym (times_parts a (c * d)).0)
      ((times_parts (times a c) d).1
        ∙ ap (λ t. t * d) (times_parts a c).1
        ∙ Nat.mul_assoc (neg_part a) c d
        ∙ sym (times_parts a (c * d)).1)

cancel : (k l d : ℕ) → 1 ≤ d → k * d ≡ l * d → k ≡ l
cancel k l d p e = sym (Nat.mul-div_cancel k p) ∙ ap (λ t. t / d) e ∙ Nat.mul-div_cancel l p

times-cancel : (a b : ℤ) (d : ℕ) → 1 ≤ d → times a d ≡ times b d → a ≡ b
times-cancel a b d p e =
    eq_by_parts a b
      (cancel (pos_part a) (pos_part b) d p
        (sym (times_parts a d).0 ∙ ap (λ t. pos_part t) e ∙ (times_parts b d).0))
      (cancel (neg_part a) (neg_part b) d p
        (sym (times_parts a d).1 ∙ ap (λ t. neg_part t) e ∙ (times_parts b d).1))

pub times-add : (a b : ℤ) (d : ℕ) → times (a +ℤ b) d ≡ times a d +ℤ times b d
times-add a b d = eq_of_parts (times (a +ℤ b) d) (times a d +ℤ times b d) (
    omega (
      arith,
      ap (λ (t : ℕ). t * d) (+ℤ_parts a b),
      (times_parts (a +ℤ b) d).0,
      (times_parts (a +ℤ b) d).1,
      (times_parts a d).0,
      (times_parts a d).1,
      (times_parts b d).0,
      (times_parts b d).1,
      +ℤ_parts (times a d) (times b d),
    ))

no_more : (k : ℕ) → k + 0 ≡ k
no_more k = omega arith

none_more : (k : ℕ) → 0 + k ≡ k
none_more k = omega arith

dvd_parts : (n : ℤ) (g : ℕ) → g ∣ abs n → (g ∣ pos_part n) × (g ∣ neg_part n)
dvd_parts (pos k) g h = (subst (λ t. g ∣ t) (no_more k) h, Nat.dvd-zero g)
dvd_parts (negsuc k) g h = (Nat.dvd-zero g, subst (λ t. g ∣ t) (none_more (suc k)) h)

over-cross : (n : ℤ) (g m : ℕ) → g ∣ abs n → g ∣ m → times (over n g) m ≡ times n (m / g)
over-cross n g m hn hm =
    let (hp, hq) = dvd_parts n g hn in
    eq_by_parts (times (over n g) m) (times n (m / g))
      ((times_parts (over n g) m).0
        ∙ ap (λ t. t * m) (over_parts n g).0
        ∙ cross-div g (pos_part n) m hp hm
        ∙ sym (times_parts n (m / g)).0)
      ((times_parts (over n g) m).1
        ∙ ap (λ t. t * m) (over_parts n g).1
        ∙ cross-div g (neg_part n) m hq hm
        ∙ sym (times_parts n (m / g)).1)

reduced-cross :
    (n : ℤ) (m : ℕ)
    → 1 ≤ m
    → (times (reduced n m).num m ≡ times n (reduced n m).denom) × (1 ≤ (reduced n m).denom)
unfolding reduced
reduced-cross n m p =
    let (first, second) = gcd-dvd (abs n) m in
    (over-cross n (gcd (abs n) m) m first second, div_pos (gcd (abs n) m) m second p)

-- The fraction is this many hundredths.
record IsCents (t : ℤ) (x : Numeric) : Type 0 where
  cross : times x.num 100 ≡ times t x.denom
  positive : 1 ≤ x.denom

times_comm : (a : ℤ) (c d : ℕ) → times (times a c) d ≡ times (times a d) c
times_comm a c d = times-times a c d ∙ ap (times a) (Nat.mul_comm c d) ∙ sym (times-times a d c)

add-IsCents : (t : ℤ) (x y : Numeric) → IsCents t x → y.denom ≡ 100 → IsCents (t +ℤ y.num) (add x y)
unfolding add
add-IsCents t x y h e =
    let n = times x.num y.denom +ℤ times y.num x.denom in
    let m = x.denom * y.denom in
    let more = t +ℤ y.num in
    let p : 1 ≤ m = subst (λ c. 1 ≤ x.denom * c) (sym e) (omega (arith, h.positive)) in
    let (across, positive) = reduced-cross n m p in
    let r = reduced n m in
    let whole : n ≡ times more x.denom =
      ap (λ c. times x.num c +ℤ times y.num x.denom) e
      ∙ ap (λ k. k +ℤ times y.num x.denom) h.cross
      ∙ sym (times-add t y.num x.denom) in
    let size : 100 * x.denom ≡ m = Nat.mul_comm 100 x.denom ∙ ap (λ c. x.denom * c) (sym e) in
    record {
      cross = times-cancel (times r.num 100) (times more r.denom) x.denom h.positive (
          times-times r.num 100 x.denom
          ∙ ap (times r.num) size
          ∙ across
          ∙ ap (λ k. times k r.denom) whole
          ∙ times_comm more x.denom r.denom);
      positive = positive;
    }

no_change : (t : ℤ) → t ≡ t +ℤ pos 0
no_change t = omega int_laws

none_first : (t : ℤ) → pos 0 +ℤ t ≡ t
none_first t = omega int_laws

-- The sum of the numerators.
abbrev pub numerators : List Numeric → ℤ
numerators [] = pos 0
numerators (y ∷ l) = y.num +ℤ numerators l

abbrev pub AreCents : List Numeric → Type 0
AreCents = All (λ y. y.denom ≡ 100)

add_all-IsCents :
    (t : ℤ) (x : Numeric) (l : List Numeric)
    → IsCents t x
    → AreCents l
    → IsCents (t +ℤ numerators l) (add_all x l)
unfolding add_all
add_all-IsCents t x [] h c = subst (λ k. IsCents k x) (no_change t) h
add_all-IsCents t x (y ∷ l) h c =
    subst (λ k. IsCents k (add_all (add x y) l)) (add_assoc t y.num (numerators l))
      (add_all-IsCents (t +ℤ y.num) (add x y) l (add-IsCents t x y h c.0) c.1)

sum-IsCents : (l : List Numeric) → AreCents l → IsCents (numerators l) (sum l)
unfolding sum
sum-IsCents l c =
    subst (λ k. IsCents k (add_all no_amount l)) (none_first (numerators l))
      (add_all-IsCents (pos 0) no_amount l (record { cross = refl; positive = omega arith }) c)

zero_times : (c d : ℕ) → times (pos 0) d ≡ times (pos 0) c
zero_times c d = ap pos (omega arith)

zero_of_cross : (a b : ℤ) (c d : ℕ) → 1 ≤ c → times a c ≡ times b d → b ≡ pos 0 → a ≡ pos 0
zero_of_cross a b c d p e z =
    times-cancel a (pos 0) c p (e ∙ ap (λ k. times k d) z ∙ zero_times c d)

-- Fractions of hundredths add up to nothing exactly where their numerators do.
pub sum_iff : (l : List Numeric) → AreCents l → ((sum l).num ≡ pos 0) ↔ (numerators l ≡ pos 0)
sum_iff l c =
    let h = sum-IsCents l c in
    (
      zero_of_cross (numerators l) (sum l).num (sum l).denom 100 h.positive (sym h.cross),
      zero_of_cross (sum l).num (numerators l) 100 (sum l).denom (omega arith) h.cross,
    )

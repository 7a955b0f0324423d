-- ===== src/Prelude/TextOrder.antt =====
-- `<` on texts is a consistent comparator.
use antimoney.Prelude.{ℕ, ◌≡◌, refl, Bool, List, [], ◌∷◌, arith, codes, lex, compare_text}
use antimoney.Prelude.Sorting.{flip, is_gt, IsConsistent}

lex-swap : (xs ys : List ℕ) → lex ys xs ≡ flip (lex xs ys)
lex-swap [] [] = refl
lex-swap [] (y ∷ ys) = refl
lex-swap (x ∷ xs) [] = refl
lex-swap (x ∷ xs) (y ∷ ys) = ground (arith, lex-swap xs ys)

pub lex_trans :
    (xs ys zs : List ℕ)
    → is_gt (lex xs ys) ≡ Bool.false
    → is_gt (lex ys zs) ≡ Bool.false
    → is_gt (lex xs zs) ≡ Bool.false
lex_trans [] ys [] h k = refl
lex_trans [] ys (z ∷ zs) h k = refl
lex_trans (x ∷ xs) [] zs h k = cc
lex_trans (x ∷ xs) (y ∷ ys) [] h k = cc
lex_trans (x ∷ xs) (y ∷ ys) (z ∷ zs) h k = ground (arith, lex_trans xs ys zs)

pub compare_text-IsConsistent : IsConsistent compare_text
compare_text-IsConsistent = record {
  swap = λ s t. lex-swap (codes s) (codes t);
  trans = λ s t u. lex_trans (codes s) (codes t) (codes u);
}

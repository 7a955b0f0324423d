-- ===== src/Prelude/Unique.antt =====
-- A list that increases by a key is the only such list of its elements.
use mathlib.Core.Logic.{∥∥₁_elim}
use mathlib.Core.List.{Perm, Memᴰ, mem-cons_self}
use mathlib.Core.List.Perm
use antimoney.Prelude.Lists.{All}
use mathlib.Core.Path.{◌≡◌, sym, ap, subst, ◌∙◌}
use mathlib.Core.List.{List, [], ◌∷◌}
use Prim.Native.Nat.{ℕ, ◌<◌}
use native.Mathlib.Omega.{arith}

module _ {ℓ} {A : Type ℓ} (key : A → ℕ) where
  -- Each element's key is less than the keys behind it, so no two are the same.
  abbrev pub Increases : List A → Type ℓ
  Increases [] = Unit
  Increases (x ∷ xs) = All (λ y. key x < key y) xs × Increases xs

  All-lookup : (n : ℕ) (x : A) (l : List A) → All (λ y. n < key y) l → Memᴰ x l → n < key x
  All-lookup n x [] h d = elim d [ ]
  All-lookup n x (y ∷ l) h (Memᴰ.head e) = subst (λ z. n < key z) (sym e) h.0
  All-lookup n x (y ∷ l) h (Memᴰ.tail d) = All-lookup n x l h.1 d

  same_first :
      (x y : A) (xs ys : List A)
      → Increases (x ∷ xs)
      → Increases (y ∷ ys)
      → Memᴰ x (y ∷ ys)
      → Memᴰ y (x ∷ xs)
      → x ≡ y
  same_first x y xs ys h k (Memᴰ.head e) later = e
  same_first x y xs ys h k (Memᴰ.tail d) (Memᴰ.head e) = sym e
  same_first x y xs ys h k (Memᴰ.tail d) (Memᴰ.tail d') =
      absurd (omega (arith, All-lookup (key y) x ys k.0 d, All-lookup (key x) y xs h.0 d'))

  pub Increases-unique :
      IsSet A → (xs ys : List A) → Increases xs → Increases ys → Perm xs ys → xs ≡ ys
  Increases-unique A-set [] ys h k p = sym (Perm.eq-nil (Perm.symm p))
  Increases-unique A-set (x ∷ xs) [] h k p = Perm.eq-nil p
  Increases-unique A-set (x ∷ xs) (y ∷ ys) h k p =
      let first : x ≡ y = ∥∥₁_elim ((Perm.mem_iff p).0 mem-cons_self) (A-set x y) (λ d.
        ∥∥₁_elim ((Perm.mem_iff p).1 mem-cons_self) (A-set x y)
          (λ d'. same_first x y xs ys h k d d')) in
      let rest : Perm (x ∷ xs) (x ∷ ys) = subst (λ z. Perm (x ∷ xs) (z ∷ ys)) (sym first) p in
      ap (λ z. z ∷ xs) first
      ∙ ap (◌∷◌ y) (Increases-unique A-set xs ys h.1 k.1 (Perm.cons_inv rest))

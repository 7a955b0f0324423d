-- ===== src/Editor/Balance.antt =====
-- The two amounts of a plain transaction, which follow each other while one is typed.
use antimoney.Prelude.{ℕ, zero, suc, ◌<◌, ◌≡◌, refl, true, some, List, [], ◌∷◌, arith}
use antimoney.Prelude.Int.{pos, neg, ◌+ℤ◌, int_laws}
use antimoney.Types.{Amount}
use antimoney.Register.Search.{Text}
use antimoney.Editor.{
  State, SplitInput, Numbers, read, follows, mirrors, is_exactly_zero, set_amounts, set_amount,
  total,
}

module _ (n : Numbers) where
  -- Two splits, each of which follows the other.
  abbrev pub AreLinked : List SplitInput → Type 0
  AreLinked (a ∷ b ∷ []) = (follows n a b ≡ true) × (follows n b a ≡ true)
  AreLinked _ = ⊥

  -- The browser reads a number that it has printed.
  abbrev pub ReadsShown : Type 0
  ReadsShown = (x : Amount) → read n (n.show x) ≡ some x

  is_exactly_zero_refl : (x : Amount) → x ≡ pos 0 → is_exactly_zero x ≡ true
  is_exactly_zero_refl x h = rw h refl

  mirrors-neg : (x : Amount) → mirrors n (some x) (some (neg x)) ≡ true
  mirrors-neg x = is_exactly_zero_refl (x +ℤ neg x) (omega int_laws)

  mirrors-neg' : (x : Amount) → mirrors n (some (neg x)) (some x) ≡ true
  mirrors-neg' x = is_exactly_zero_refl (neg x +ℤ x) (omega int_laws)

  set_amounts-AreLinked :
      (index : ℕ) (value : Text) (x : Amount) (l : List SplitInput)
      → ReadsShown
      → index < 2
      → AreLinked l
      → read n value ≡ some x
      → (total n (set_amounts n index value l) ≡ pos 0) × AreLinked (set_amounts n index value l)
  unfolding set_amounts total
  set_amounts-AreLinked index value x [] shown h linked typed = absurd linked
  set_amounts-AreLinked index value x (a ∷ []) shown h linked typed = absurd linked
  set_amounts-AreLinked index value x (a ∷ b ∷ c ∷ l) shown h linked typed = absurd linked
  set_amounts-AreLinked zero value x (a ∷ b ∷ []) shown h linked typed =
      rw (linked.0, typed, shown (neg x))
        (omega int_laws, (ground (arith, mirrors-neg x), ground (arith, mirrors-neg' x)))
  set_amounts-AreLinked (suc zero) value x (a ∷ b ∷ []) shown h linked typed =
      rw (linked.1, typed, shown (neg x))
        (omega int_laws, (ground (arith, mirrors-neg' x), ground (arith, mirrors-neg x)))
  set_amounts-AreLinked (suc (suc k)) value x (a ∷ b ∷ []) shown h linked typed =
      absurd (omega (arith, h))

  -- Where the browser reads every number that it has printed, typing a number in one of two linked
  -- amounts, the first or the second, makes their total zero and leaves them linked, so that this
  -- goes on.
  pub set_amount-AreLinked :
      (index : ℕ) (value : Text) (x : Amount) (s : State)
      → ReadsShown
      → index < 2
      → AreLinked s.splits
      → read n value ≡ some x
      → (total n (set_amount n index value s).splits ≡ pos 0)
        × AreLinked (set_amount n index value s).splits
  unfolding set_amount
  set_amount-AreLinked index value x s shown h linked typed =
      set_amounts-AreLinked index value x s.splits shown h linked typed

-- ===== src/Register/Table/Focus.antt =====
-- The row that a register scrolls to.
use antimoney.Prelude.{
  ℕ, suc, ◌+◌, ◌-◌, ◌≡◌, ◌⊎◌, refl, sym, ap, subst, ◌∙◌, inl, inr, Ordering, false, String, some,
  List, [], ◌∷◌, length, take, drop, get_elem?, All, arith, codes, lex, compare_text,
}
use antimoney.Prelude.TextOrder.{lex_trans}
use antimoney.Prelude.Sorting.{is_gt, IsSorted, then_by}
use antimoney.Types.{RegisterEntry}
use antimoney.Register.Search.{Text}
use antimoney.Register.Order.{compare_entries}
use antimoney.Register.Table.{day_of, entry_day, pick, focus_from, focus_index}

-- Days of the same length are in the order of the dates that they begin.
lex-day_of :
    (a b : Text)
    → length (day_of a) ≡ length (day_of b)
    → is_gt (lex a b) ≡ false
    → is_gt (lex (day_of a) (day_of b)) ≡ false
lex-day_of [] b same h = ground (arith, same)
lex-day_of (x ∷ a) [] same h = cc
lex-day_of (x ∷ a) (y ∷ b) same h = ground (arith, lex-day_of a b, same, h)

-- The order of the entries by day.
abbrev day_order : RegisterEntry → RegisterEntry → Ordering
day_order a b = lex (entry_day a) (entry_day b)

-- A day is written YYYY-MM-DD.
abbrev pub HasDay : RegisterEntry → Type 0
HasDay e = length (entry_day e) ≡ 10

is_gt-then_by : (a b : Ordering) → is_gt (then_by a b) ≡ false → is_gt a ≡ false
is_gt-then_by Ordering.lt b h = refl
is_gt-then_by Ordering.eq b h = refl
is_gt-then_by Ordering.gt b h = h

module _ (locale_compare : String → String → Ordering) where
  days-Le :
      (x : RegisterEntry) (xs : List RegisterEntry)
      → HasDay x
      → All HasDay xs
      → All (λ y. is_gt (compare_entries locale_compare x y) ≡ false) xs
      → All (λ y. is_gt (day_order x y) ≡ false) xs
  unfolding compare_entries
  days-Le x [] day days h = tt
  days-Le x (y ∷ ys) day days h = (
    lex-day_of (codes x.post_date) (codes y.post_date) (day ∙ sym days.0) (
        is_gt-then_by (compare_text x.post_date y.post_date)
          (locale_compare x.custom_id y.custom_id) h.0),
    days-Le x ys day days.1 h.1,
  )

  -- The register's order is one of the days.
  days-IsSorted :
      (xs : List RegisterEntry)
      → All HasDay xs
      → IsSorted (compare_entries locale_compare) xs
      → IsSorted day_order xs
  days-IsSorted [] days h = tt
  days-IsSorted (x ∷ xs) days h = (days-Le x xs days.0 days.1 h.0, days-IsSorted xs days.1 h.1)

Ordering-cases : (o : Ordering) → (o ≡ Ordering.lt) ⊎ ((o ≡ Ordering.eq) ⊎ (o ≡ Ordering.gt))
Ordering-cases Ordering.lt = inl refl
Ordering-cases Ordering.eq = inr (inl refl)
Ordering-cases Ordering.gt = inr (inr refl)

module _ (target : Text) where
  abbrev pub IsEarlier : RegisterEntry → Type 0
  IsEarlier e = lex (entry_day e) target ≡ Ordering.lt

  abbrev pub IsOnDay : RegisterEntry → Type 0
  IsOnDay e = lex (entry_day e) target ≡ Ordering.eq

  abbrev pub IsLater : RegisterEntry → Type 0
  IsLater e = lex (entry_day e) target ≡ Ordering.gt

  -- The entry at `i` is the first of the day; or there is none, and it is the last before it.
  abbrev pub IsFocus : List RegisterEntry → ℕ → Type 0
  IsFocus es i =
      (e : RegisterEntry) × (get_elem? es i ≡ some e)
      × All IsEarlier (take i es)
      × (IsOnDay e ⊎ (IsEarlier e × All IsLater (drop (suc i) es)))

  IsLater-Le : (x y : RegisterEntry) → IsLater x → is_gt (day_order x y) ≡ false → IsLater y
  IsLater-Le x y later le = ground (arith, later, le, lex_trans (entry_day x) (entry_day y) target)

  All-IsLater :
      (x : RegisterEntry) (xs : List RegisterEntry)
      → IsLater x
      → All (λ y. is_gt (day_order x y) ≡ false) xs
      → All IsLater xs
  All-IsLater x [] later h = tt
  All-IsLater x (y ∷ ys) later h = (IsLater-Le x y later h.0, All-IsLater x ys later h.1)

  focus_step :
      (last i : ℕ) (e : RegisterEntry) (es : List RegisterEntry) {o : Ordering}
      → lex (entry_day e) target ≡ o
      → focus_from target last i (e ∷ es) ≡ pick o (focus_from target last (i + 1) es) i
  focus_step last i e es h = ap (λ o. pick o (focus_from target last (i + 1) es) i) h

  -- Past an entry before the day, at index `i`.
  IsFocus-past :
      (p : RegisterEntry) (es : List RegisterEntry) (i last : ℕ)
      → IsEarlier p
      → IsSorted day_order es
      → last ≡ i + length es
      → (f : ℕ) × (focus_from target last (i + 1) es ≡ i + f) × IsFocus (p ∷ es) f
  IsFocus-past p [] i last earlier sorted at_end =
      (0, omega (arith, at_end), (p, refl, tt, inr (earlier, tt)))
  IsFocus-past p (e ∷ es) i last earlier sorted at_end =
      elim (Ordering-cases (lex (entry_day e) target)) [
        | inl lt ↦
            let (f, found, (x, here, before, best)) =
              IsFocus-past e es (i + 1) last lt sorted.1 (omega (arith, at_end)) in
            (
              suc f,
              focus_step last (i + 1) e es lt ∙ found ∙ omega arith,
              (x, here, (earlier, before), best),
            )
        | inr (inl eq) ↦ (1, focus_step last (i + 1) e es eq, (e, refl, (earlier, tt), inl eq))
        | inr (inr gt) ↦ (
          0,
          focus_step last (i + 1) e es gt ∙ omega arith,
          (p, refl, tt, inr (earlier, (gt, All-IsLater e es gt sorted.0))),
        )
      ]

  -- The row that the table scrolls to, where the entries stand in the register's order and their
  -- dates begin with days of the same form: if some entry is of the target day, it is the first
  -- such entry; else it is the last entry before that day, with only later ones after it; and
  -- where all entries are later, it is the first entry.
  pub focus_index_lem :
      (locale_compare : String → String → Ordering) (e : RegisterEntry) (es : List RegisterEntry)
      → All HasDay (e ∷ es)
      → IsSorted (compare_entries locale_compare) (e ∷ es)
      → IsFocus (e ∷ es) (focus_index target (e ∷ es))
        ⊎ (All IsLater (e ∷ es) × (focus_index target (e ∷ es) ≡ 0))
  unfolding focus_index
  focus_index_lem locale_compare e es days register_order =
      let sorted = days-IsSorted locale_compare (e ∷ es) days register_order in
      let last = length (e ∷ es) - 1 in
      elim (Ordering-cases (lex (entry_day e) target)) [
        | inl lt ↦
            let (f, found, focus) = IsFocus-past e es 0 last lt sorted.1 (omega arith) in
            inl (
              subst (IsFocus (e ∷ es)) (sym (focus_step last 0 e es lt ∙ found ∙ omega arith))
                focus)
        | inr (inl eq) ↦
            inl (subst (IsFocus (e ∷ es)) (sym (focus_step last 0 e es eq)) (e, refl, tt, inl eq))
        | inr (inr gt) ↦ inr ((gt, All-IsLater e es gt sorted.0), focus_step last 0 e es gt)
      ]

-- ===== src/Dashboard/Drawn.antt =====
-- frontend/src/pages/Dashboard.tsx: the bars stay within their tracks, and the arcs of a ring
-- follow each other all the way round.
use antimoney.Prelude.{
  ◌≡◌, refl, sym, ap, ◌∙◌, subst, ◌↔◌, ◌⊎◌, inl, inr, Bool, true, some, List, [], ◌∷◌, map, All,
  arith, Bool-cases, zero, suc,
}
use antimoney.Prelude.Int.{ℤ, pos, negsuc, ◌+ℤ◌, ◌≤ℤ◌, int_laws, add_assoc}
use antimoney.Types.{Amount}
use antimoney.Editor.{is_exactly_zero}
use antimoney.Dashboard.{TopAccount, DashboardData, compute_dashboard}
use antimoney.Dashboard.Charts.{
  Share, Segment, Arc, ring, arcs, total, arcs_from, segment_donut, max, unit, BarItem, max_value,
  bar, horiz_bars, cash_flow_bars,
}
use antimoney.Dashboard.Page.{State, View, view, figures, top_item}

-- At least nothing, and at most the whole.
pub record IsWithin (s : Share) : Type 0 where
  pub at_least : pos 0 ≤ℤ s.num
  pub at_most : s.num ≤ℤ s.den
  pub whole : pos 1 ≤ℤ s.den

le-max_left : (a b : Amount) → a ≤ℤ max a b
le-max_left a b = ground arith

le-max_right : (a b : Amount) → b ≤ℤ max a b
le-max_right a b = ground arith

≤ℤ_trans : (a b c : ℤ) → a ≤ℤ b → b ≤ℤ c → a ≤ℤ c
≤ℤ_trans a b c h k = omega (arith, h, k)

max_value-unit : (l : List BarItem) → pos 1 ≤ℤ max_value l
unfolding max_value
max_value-unit [] = omega arith
max_value-unit (x ∷ l) =
    ≤ℤ_trans (pos 1) (max_value l) (max x.value (max_value l)) (max_value-unit l)
      (le-max_right x.value (max_value l))

bars-AreWithin :
    (l : List BarItem) (whole : Amount)
    → pos 1 ≤ℤ whole
    → max_value l ≤ℤ whole
    → All (λ x. pos 0 ≤ℤ x.value) l
    → All (λ b. IsWithin b.width) (map (bar whole) l)
unfolding max_value
bars-AreWithin [] whole one top h = tt
bars-AreWithin (x ∷ l) whole one top h =
    let rest = max_value l in
    (
      record {
        at_least = h.0;
        at_most = ≤ℤ_trans x.value (max x.value rest) whole (le-max_left x.value rest) top;
        whole = one;
      },
      bars-AreWithin l whole one
          (≤ℤ_trans rest (max x.value rest) whole (le-max_right x.value rest) top) h.1,
    )

top_items-AreSizes :
    (reconciled : Bool) (l : List TopAccount)
    → All (λ x. pos 0 ≤ℤ x.value) (map (top_item reconciled) l)
top_items-AreSizes reconciled [] = tt
top_items-AreSizes reconciled (x ∷ l) = (omega arith, top_items-AreSizes reconciled l)

horiz_bars-AreWithin :
    (l : List BarItem) → All (λ x. pos 0 ≤ℤ x.value) l → All (λ b. IsWithin b.width) (horiz_bars l)
unfolding horiz_bars
horiz_bars-AreWithin l h = bars-AreWithin l (max_value l) (max_value-unit l) (omega arith) h

income-IsWithin :
    (income expenses : Amount)
    → pos 0 ≤ℤ income
    → IsWithin (cash_flow_bars income expenses).income_width
unfolding cash_flow_bars
income-IsWithin a b h = record {
  at_least = h;
  at_most = le-max_left a (max b unit);
  whole = ground (arith);
}

expenses-IsWithin :
    (income expenses : Amount)
    → IsWithin (cash_flow_bars income expenses).expenses_width ↔ (pos 0 ≤ℤ expenses)
unfolding cash_flow_bars
expenses-IsWithin a b = (
  λ w. w.at_least,
  λ h. record { at_least = h; at_most = ground (arith); whole = ground (arith) },
)

Bars : View → Type 0
Bars v =
    All (λ b. IsWithin b.width) v.top_bars
    × IsWithin v.cash_flow.income_width
    × (IsWithin v.cash_flow.expenses_width ↔ (pos 0 ≤ℤ v.expenses))

figures-Bars : (reconciled : Bool) (d : DashboardData) → Bars (figures reconciled d)
unfolding Bars
figures-Bars reconciled d = (
  horiz_bars-AreWithin (map (top_item reconciled) d.top_accounts)
      (top_items-AreSizes reconciled d.top_accounts),
  income-IsWithin (figures reconciled d).income (figures reconciled d).expenses (omega arith),
  expenses-IsWithin (figures reconciled d).income (figures reconciled d).expenses,
)

-- Whatever is shown, the bars of the accounts and the bar of the income stay within their tracks,
-- of which each has a length; the bar of the expenses does so exactly where the expenses are not
-- negative.
pub view_bars-AreWithin :
    (s : State) (v : View)
    → view s ≡ some v
    → All (λ b. IsWithin b.width) v.top_bars
      × IsWithin v.cash_flow.income_width
      × (IsWithin v.cash_flow.expenses_width ↔ (pos 0 ≤ℤ v.expenses))
unfolding view Bars
view_bars-AreWithin s v shown = elim (Bool-cases s.loading) [
  | inl spins ↦ absurd (ground (arith, shown, spins))
  | inr shows ↦
      let d = compute_dashboard s.accounts in
      let same : figures s.show_reconciled d ≡ v = ground (arith, shown, shows) in
      subst Bars same (figures-Bars s.show_reconciled d)
]

-- The arcs begin at `start`, each one where the one before it ends, and end at the whole.
abbrev pub Tiles : Amount → Amount → List Arc → Type 0
Tiles whole start [] = start ≡ whole
Tiles whole start (a ∷ l) =
    (a.offset ≡ record { num = start; den = whole })
    × (a.length.den ≡ whole)
    × Tiles whole (start +ℤ a.length.num) l

none_after : (x : Amount) → x +ℤ pos 0 ≡ x
none_after x = omega int_laws

arcs_from-Tiles :
    (whole start : Amount) (l : List Segment)
    → start +ℤ total l ≡ whole
    → Tiles whole start (arcs_from whole start l)
unfolding arcs_from total
arcs_from-Tiles whole start [] h = sym (none_after start) ∙ h
arcs_from-Tiles whole start (x ∷ l) h =
    (refl, refl, arcs_from-Tiles whole (start +ℤ x.value) l (add_assoc start x.value (total l) ∙ h))

arcs_from-colors :
    (whole start : Amount) (l : List Segment)
    → map (λ a. a.color) (arcs_from whole start l) ≡ map (λ x. x.color) l
unfolding arcs_from
arcs_from-colors whole start [] = refl
arcs_from-colors whole start (x ∷ l) =
    ap (◌∷◌ x.color) (arcs_from-colors whole (start +ℤ x.value) l)

is_exactly_zero_eq : (x : Amount) → is_exactly_zero x ≡ true → x ≡ pos 0
is_exactly_zero_eq (pos zero) h = refl
is_exactly_zero_eq (pos (suc n)) h = absurd (cc)
is_exactly_zero_eq (negsuc n) h = absurd (cc)

none_before : (x : Amount) → pos 0 +ℤ x ≡ x
none_before x = omega int_laws

-- A ring of segments is either empty, and their values add up to nothing, or it has an arc for
-- each segment, in its colour, the arcs follow each other without a gap, and together they go
-- once round.
segment_donut-Tiles :
    (l : List Segment)
    → ((total l ≡ pos 0) × (segment_donut l ≡ ring))
      ⊎ ((as' : List Arc) × (segment_donut l ≡ arcs as')
          × Tiles (total l) (pos 0) as'
          × (map (λ a. a.color) as' ≡ map (λ x. x.color) l))
unfolding segment_donut
segment_donut-Tiles l = elim (Bool-cases (is_exactly_zero (total l))) [
  | inl empty ↦ inl (is_exactly_zero_eq (total l) empty, rw empty refl)
  | inr filled ↦ inr (
    arcs_from (total l) (pos 0) l,
    rw filled refl,
    arcs_from-Tiles (total l) (pos 0) l (none_before (total l)),
    arcs_from-colors (total l) (pos 0) l,
  )
]

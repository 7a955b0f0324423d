-- ===== src/Dashboard/Months.antt =====
-- frontend/src/pages/Dashboard.tsx: how the ranges of dates lie.
use antimoney.Prelude.{◌≡◌, refl, sym, ap, ◌∙◌, some}
use antimoney.Prelude.Int.{ℤ, pos, ◌+ℤ◌, ◌-ℤ◌, int_laws}
use antimoney.Dashboard.Range.{Clock, get_date_range}

-- A day ends a millisecond before the next one begins, the day after the 31st of December is the
-- first of a thirteenth month, and that is the first of the next January.
pub record IsCalendar (c : Clock) : Type 0 where
  pub next_day : (y m d : ℤ) → c.end_at y m d +ℤ pos 1 ≡ c.at y m (d +ℤ pos 1)
  pub december : (y : ℤ) → c.at y (pos 11) (pos 32) ≡ c.at y (pos 12) (pos 1)
  pub next_year : (y : ℤ) → c.at y (pos 12) (pos 1) ≡ c.at (y +ℤ pos 1) (pos 0) (pos 1)

one : pos 0 +ℤ pos 1 ≡ pos 1
unfolding ◌+ℤ◌
one = refl

thirty_two : pos 31 +ℤ pos 1 ≡ pos 32
unfolding ◌+ℤ◌
thirty_two = refl

year_after : (y : ℤ) → y -ℤ pos 1 +ℤ pos 1 ≡ y
year_after y = omega int_laws

start_of_month :
    (c : Clock) → IsCalendar c → (y m : ℤ) → c.at y m (pos 1) ≡ c.end_at y m (pos 0) +ℤ pos 1
start_of_month c h y m = sym (h.next_day y m (pos 0) ∙ ap (c.at y m) one)

start_of_year :
    (c : Clock)
    → IsCalendar c
    → (y : ℤ) → c.at y (pos 0) (pos 1) ≡ c.end_at (y -ℤ pos 1) (pos 11) (pos 31) +ℤ pos 1
start_of_year c h y =
    let before = y -ℤ pos 1 in
    sym (
      h.next_day before (pos 11) (pos 31)
      ∙ ap (c.at before (pos 11)) thirty_two
      ∙ h.december before
      ∙ h.next_year before
      ∙ ap (λ z. c.at z (pos 0) (pos 1)) (year_after y))

-- Where the browser's calendar is one, the ranges adjoin: the last month ends a millisecond before
-- this month begins, and the last year a millisecond before this year begins.
get_date_range-adjoin :
    (c : Clock)
    → IsCalendar c
    → ((end_month : ℤ) × ((get_date_range c "last_month").1 ≡ some (c.iso end_month))
        × ((get_date_range c "this_month").0 ≡ some (c.iso (end_month +ℤ pos 1))))
      × ((end_year : ℤ) × ((get_date_range c "last_year").1 ≡ some (c.iso end_year))
          × ((get_date_range c "this_year").0 ≡ some (c.iso (end_year +ℤ pos 1))))
unfolding get_date_range
get_date_range-adjoin c h = (
  (
    c.end_at c.year c.month (pos 0),
    refl,
    ap (λ t. some (c.iso t)) (start_of_month c h c.year c.month),
  ),
  (
    c.end_at (c.year -ℤ pos 1) (pos 11) (pos 31),
    refl,
    ap (λ t. some (c.iso t)) (start_of_year c h c.year),
  ),
)

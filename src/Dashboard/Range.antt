-- ===== src/Dashboard/Range.antt =====
-- frontend/src/pages/Dashboard.tsx: the dates between which the figures are taken.
use antimoney.Prelude.{◌==◌, String, Option, none, some, if◌then◌else◌}
use antimoney.Prelude.Int.{ℤ, pos, ◌+ℤ◌, ◌-ℤ◌}

-- The browser's `Date`. Months are counted from 0, and a month or a day out of range moves on to
-- the next year or month, or back.
pub record Clock : Type 0 where
  -- of `new Date()`
  pub year : ℤ
  pub month : ℤ
  -- `new Date(year, month, day)`, in milliseconds
  pub at : ℤ → ℤ → ℤ → ℤ
  -- `new Date(year, month, day, 23, 59, 59, 999)`
  pub end_at : ℤ → ℤ → ℤ → ℤ
  -- `toISOString`
  pub iso : ℤ → String

abbrev pub Range : Type 0
Range = Option String × Option String

abbrev between : Clock → ℤ → ℤ → Range
between c first last = (some (c.iso first), some (c.iso last))

-- `getDateRange`
unfoldable pub get_date_range : Clock → String → Range
get_date_range c range =
    if range == "this_month"
    then between c (c.at c.year c.month (pos 1)) (c.end_at c.year (c.month +ℤ pos 1) (pos 0))
    else if range == "last_month"
    then between c (c.at c.year (c.month -ℤ pos 1) (pos 1)) (c.end_at c.year c.month (pos 0))
    else if range == "this_year"
    then between c (c.at c.year (pos 0) (pos 1)) (c.end_at c.year (pos 11) (pos 31))
    else if range == "last_year"
    then between c (c.at (c.year -ℤ pos 1) (pos 0) (pos 1))
        (c.end_at (c.year -ℤ pos 1) (pos 11) (pos 31))
    else (none, none)

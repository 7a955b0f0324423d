-- ===== src/Dates.antt =====
-- frontend/src/utils/date.ts: the keys that move a date.
--
-- A date is the number of its day. `new Date` and `toISOString` are the parameters `day_of`, which
-- is `none` for a text that is no date, and `text_of`; `today` is the current day's text.
mod Tests
pub mod Moves
use antimoney.Prelude.{ℕ, Bool, true, false, ◌||◌, ◌==◌, String, Option, none, some, if◌then◌else◌}
use antimoney.Prelude.Int.{ℤ, pos, negsuc, ◌+ℤ◌}

pub record KeyPress : Type 0 where
  pub key : String
  pub shift_key : Bool

-- What the browser does with dates.
pub record Calendar : Type 0 where
  pub day_of : String → Option ℤ
  pub text_of : ℤ → String

abbrev pub moves_date : KeyPress → Bool
moves_date e = e.key == "+" || e.key == "=" || e.key == "-"

-- `days`, a week instead of a day with Shift.
abbrev pub days : KeyPress → ℤ
days e =
    if e.key == "-"
    then if e.shift_key then negsuc 6 else negsuc 0
    else if e.shift_key
    then pos 7
    else pos 1

abbrev pub date_or_today : String → String → String
date_or_today today value = if value == "" then today else value

module _ (c : Calendar) where
  abbrev pub moved : Option ℤ → ℤ → Option String
  moved none n = none
  moved (some d) n = some (c.text_of (d +ℤ n))

  -- The argument of `setValue`, where that is called.
  unfoldable pub handle_date_shortcut : String → KeyPress → String → Option String
  handle_date_shortcut today e value =
      if moves_date e then moved (c.day_of (date_or_today today value)) (days e) else none

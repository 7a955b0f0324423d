-- ===== src/Dates/Tests.antt =====
-- Dates of a small calendar.
use antimoney.Prelude.{zero, suc, ◌≡◌, refl, false, ◌==◌, none, some, if◌then◌else◌}
use antimoney.Prelude.Int.{pos, negsuc}
use antimoney.Dates.{Calendar, handle_date_shortcut}
use antimoney.Dates.Moves.{press}

-- Two days that are a week apart.
abbrev calendar : Calendar
calendar = record {
  day_of = λ s.
      if s == "2026-05-01" then some (pos 0) else if s == "2026-05-08" then some (pos 7) else none;
  text_of = λ d. elim d [ pos zero ↦ "2026-05-01" | pos (suc n) ↦ "2026-05-08" | negsuc n ↦ "" ];
}

stays_without_date : handle_date_shortcut calendar "2026-05-01" (press "+" false) "soon" ≡ none
unfolding handle_date_shortcut
stays_without_date = refl

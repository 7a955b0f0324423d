-- ===== src/Dashboard/PageTests.antt =====
-- frontend/src/pages/Dashboard.tsx: the page on a small book, and the theorems on it.
use antimoney.Prelude.{◌≡◌, refl, ◌↔◌, false, ◌==◌, String, some, List, [], ◌∷◌, All, if◌then◌else◌}
use antimoney.Prelude.Int.{ℤ, pos, ◌+ℤ◌, ◌-ℤ◌, ◌≤ℤ◌, leb_ℤ, int_laws}
use antimoney.Types.{Account}
use antimoney.Dashboard.{compute_dashboard}
use antimoney.Dashboard.Charts.{Segment}
use antimoney.Dashboard.Drawn.{IsWithin, view_bars-AreWithin}
use antimoney.Dashboard.Range.{Clock}
use antimoney.Dashboard.Months.{IsCalendar}
use antimoney.Dashboard.Page.{State, View, view, figures, Run, opened, answered, step}
use antimoney.Dashboard.NetWorth.{asset_sum, liability_sum, view_net_worth}
use antimoney.Dashboard.Answers.{Reach, Reach-accounts}
use antimoney.Dashboard.Tests.{book}

abbrev loaded : State
loaded = record { accounts = book; loading = false; show_reconciled = false; time_range = "all" }

abbrev shown_view : View
shown_view = figures false (compute_dashboard book)

shows : view loaded ≡ some shown_view
unfolding view
shows = refl

view_bars-AreWithin_example :
    All (λ b. IsWithin b.width) shown_view.top_bars
    × IsWithin shown_view.cash_flow.income_width
    × (IsWithin shown_view.cash_flow.expenses_width ↔ (pos 0 ≤ℤ shown_view.expenses))
view_bars-AreWithin_example = view_bars-AreWithin loaded shown_view shows

view_net_worth_example :
    (v : View) × (view loaded ≡ some v)
    × (v.net_worth ≡ (
        if leb_ℤ (liability_sum loaded) (pos 0)
        then asset_sum loaded +ℤ liability_sum loaded
        else asset_sum loaded -ℤ liability_sum loaded))
view_net_worth_example = view_net_worth loaded refl

abbrev segments : List Segment
segments =
    (record { value = pos 3000; color = "#ec4899"; label = "food" })
    ∷ (record { value = pos 1000; color = "#f43f5e"; label = "rent" })
    ∷ []

-- Every month has 31 days of a millisecond each.
abbrev day_number : ℤ → ℤ → ℤ → ℤ
day_number y m d =
    let y4 = y +ℤ y +ℤ (y +ℤ y) in
    let z = y4 +ℤ y4 +ℤ y4 +ℤ m in
    let z4 = z +ℤ z +ℤ (z +ℤ z) in let z16 = z4 +ℤ z4 +ℤ (z4 +ℤ z4) in z16 +ℤ z16 -ℤ z +ℤ d

abbrev clock : Clock
clock = record {
  year = pos 2024;
  month = pos 0;
  at = day_number;
  end_at = day_number;
  iso = λ t. if leb_ℤ t (pos 0) then "before" else "after";
}

clock-IsCalendar : IsCalendar clock
clock-IsCalendar = record {
  next_day = λ y m d. omega int_laws;
  december = λ y. omega int_laws;
  next_year = λ y. omega int_laws;
}

-- The server has accounts for the whole time alone.
abbrev server : String → List Account
server range = if range == "all" then book else []

abbrev settled : Run
settled = step (answered 0 (some (server "all"))) opened

settled-Reach : Reach server settled
settled-Reach = Reach.answer "all" [] refl Reach.here

settled_waits : settled.waiting ≡ []
unfolding step
settled_waits = refl

Reach-accounts_example :
    (settled.page.accounts ≡ server settled.page.time_range) × (settled.page.loading ≡ false)
Reach-accounts_example = Reach-accounts server settled-Reach settled_waits

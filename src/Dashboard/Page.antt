-- ===== src/Dashboard/Page.antt =====
-- frontend/src/pages/Dashboard.tsx: the page: its state, the requests for the accounts, and the
-- figures that it shows.
use antimoney.Prelude.{
  ℕ, Bool, true, false, ◌==◌, String, Option, none, some, List, [], ◌∷◌, ◌++◌, map, take, get_elem?,
  erase_at, if◌then◌else◌,
}
use antimoney.Prelude.Int.{pos, ◌-ℤ◌, leb_ℤ}
use antimoney.Types.{Amount, Account}
use antimoney.Register.Search.{Text}
use antimoney.Dashboard.{DashboardData, Slice, TopAccount, compute_dashboard}
use antimoney.Dashboard.Charts.{
  Segment, BarItem, Bar, Donut, CashFlow, Share, horiz_bars, segment_donut, cash_flow_bars,
  overview_bars, metric_card, toggle_group,
}

pub record State : Type 0 where
  pub accounts : List Account
  pub loading : Bool
  pub show_reconciled : Bool
  pub time_range : String

abbrev pub initial : State
initial = record { accounts = []; loading = true; show_reconciled = false; time_range = "all" }

-- The answer to a request, `none` where it failed.
unfoldable pub load_done : Option (List Account) → State → State
load_done none s = record s { loading = false }
load_done (some accounts) s = record s { accounts = accounts; loading = false }

-- The range's choice, with the effect that it runs: whether the accounts are asked for.
unfoldable pub choose_range : String → State → State × Bool
choose_range range s =
    if range == s.time_range
    then (s, false)
    else (record s { time_range = range; loading = true }, true)

unfoldable pub toggle : Bool → State → State
toggle value s = record s { show_reconciled = value }

-- The page and the ranges whose accounts it has asked for and not yet got, the oldest first.
pub record Run : Type 0 where
  pub page : State
  pub waiting : List String

abbrev pub opened : Run
opened = record { page = initial; waiting = "all" ∷ [] }

pub data Event : Type 0 where
  chosen : String → Event
  toggled : Bool → Event
  -- the answer to one of the requests that wait
  answered : ℕ → Option (List Account) → Event

abbrev asked : String → List String → State × Bool → Run
asked range waiting (s, true) = record { page = s; waiting = waiting ++ (range ∷ []) }
asked range waiting (s, false) = record { page = s; waiting = waiting }

-- An answer that nothing waits for does not come.
abbrev received : Option String → ℕ → Option (List Account) → Run → Run
received none n answer r = r
received (some range) n answer r = record {
  page = load_done answer r.page;
  waiting = erase_at n r.waiting;
}

unfoldable pub step : Event → Run → Run
step (chosen range) r = asked range r.waiting (choose_range range r.page)
step (toggled value) r = record r { page = toggle value r.page }
step (answered n answer) r = received (get_elem? r.waiting n) n answer r

pub record View : Type 0 where
  pub assets : Amount
  pub liabilities : Amount
  pub income : Amount
  pub expenses : Amount
  pub net_worth : Amount
  pub top_bars : List Bar
  pub cash_flow : CashFlow
  pub expense_donut : Option Donut
  pub legend : List (String × (String × Amount))
  pub overview_donut : Donut
  pub overview : (Share × Share) × (Share × Share)
  pub cards : List (String × Text)
  pub net_color : String
  pub buttons : (String × String) × (String × String)

-- The reconciled figure or the whole one.
abbrev pub choose {ℓ} : {A : Type ℓ} → Bool → A → A → A
choose reconciled whole r_whole = if reconciled then r_whole else whole

abbrev slice_value : Bool → Slice → Amount
slice_value reconciled e = pos (choose reconciled e.value e.r_value)

abbrev pub expense_segment : Bool → Slice → Segment
expense_segment reconciled e = record {
  value = slice_value reconciled e;
  color = e.color;
  label = e.name;
}

abbrev pub top_item : Bool → TopAccount → BarItem
top_item reconciled a = record {
  label = a.name;
  value = pos (choose reconciled a.value a.r_value);
  color = a.color;
  guid = some a.guid;
}

abbrev donut_of : List Segment → Option Donut
donut_of [] = none
donut_of (x ∷ xs) = some (segment_donut (x ∷ xs))

abbrev legend_row : Bool → Slice → String × (String × Amount)
legend_row reconciled e = (e.color, (e.name, slice_value reconciled e))

abbrev pub figures : Bool → DashboardData → View
figures reconciled d =
    let assets = choose reconciled d.assets d.r_assets in
    let liab : Amount = pos (choose reconciled d.liabilities d.r_liabilities) in
    let income : Amount = pos (choose reconciled d.income d.r_income) in
    let expenses = choose reconciled d.expenses d.r_expenses in
    record {
      assets = assets;
      liabilities = liab;
      income = income;
      expenses = expenses;
      net_worth = assets -ℤ liab;
      top_bars = horiz_bars (map (top_item reconciled) d.top_accounts);
      cash_flow = cash_flow_bars income expenses;
      expense_donut = donut_of (map (expense_segment reconciled) d.expense_accounts);
      legend = map (legend_row reconciled) (take 6 d.expense_accounts);
      overview_donut = segment_donut (
          (record { value = assets; color = "var(--color-income)"; label = "dashboard.assets" })
          ∷ (record {
            value = liab;
            color = "var(--color-expense)";
            label = "dashboard.liabilities";
          })
          ∷ []);
      overview = (overview_bars assets liab, overview_bars income expenses);
      cards =
          metric_card assets "asset"
          ∷ metric_card liab "liability"
          ∷ metric_card income "income"
          ∷ metric_card expenses "expense"
          ∷ [];
      net_color =
          if leb_ℤ (pos 0) (assets -ℤ liab) then "var(--color-income)" else "var(--color-expense)";
      buttons = toggle_group reconciled;
    }

-- What the page shows, or only the spinner.
unfoldable pub view : State → Option View
view s = if s.loading then none else some (figures s.show_reconciled (compute_dashboard s.accounts))

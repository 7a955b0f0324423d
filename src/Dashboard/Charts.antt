-- ===== src/Dashboard/Charts.antt =====
-- frontend/src/pages/Dashboard.tsx: the figures that its charts draw, as shares of a whole, and
-- the colours that depend on an amount.
use antimoney.Prelude.{
  ◌==◌, Bool, true, false, String, Option, none, some, List, [], ◌∷◌, ◌++◌, map, codes,
  if◌then◌else◌,
}
use antimoney.Prelude.Int.{pos, ◌+ℤ◌, ◌-ℤ◌, ltb_ℤ, leb_ℤ}
use antimoney.Types.{Amount, is_zero}
use antimoney.Editor.{is_exactly_zero}
use antimoney.Register.Search.{Text}

-- `num / den`
pub record Share : Type 0 where
  pub num : Amount
  pub den : Amount

pub record Segment : Type 0 where
  pub value : Amount
  pub color : String
  pub label : String

-- A segment of the ring: how long it is and where it begins, as shares of the circumference.
pub record Arc : Type 0 where
  pub color : String
  pub length : Share
  pub offset : Share

pub data Donut : Type 0 where
  ring : Donut
  arcs : List Arc → Donut

unfoldable pub total : List Segment → Amount
total [] = pos 0
total (x ∷ xs) = x.value +ℤ total xs

unfoldable pub arcs_from : Amount → Amount → List Segment → List Arc
arcs_from whole offset [] = []
arcs_from whole offset (x ∷ xs) =
    record {
      color = x.color;
      length = record { num = x.value; den = whole };
      offset = record { num = offset; den = whole };
    }
    ∷ arcs_from whole (offset +ℤ x.value) xs

-- `SegmentDonut`
unfoldable pub segment_donut : List Segment → Donut
segment_donut segments =
    let whole = total segments in
    if is_exactly_zero whole then ring else arcs (arcs_from whole (pos 0) segments)

-- `Math.max` of two numbers
abbrev pub max : Amount → Amount → Amount
max a b = if ltb_ℤ a b then b else a

-- the number 1
abbrev pub unit : Amount
unit = pos 1000

pub record BarItem : Type 0 where
  pub label : String
  pub value : Amount
  pub color : String
  pub guid : Option String

-- `color` is that of the bar, `text_color` that of the number.
pub record Bar : Type 0 where
  pub label : String
  pub link : Option Text
  pub width : Share
  pub color : String
  pub text_color : String

-- `Math.max(...items.map(i => i.value), 1)`
unfoldable pub max_value : List BarItem → Amount
max_value [] = unit
max_value (x ∷ xs) = max x.value (max_value xs)

-- A link for a guid that is not empty.
abbrev link_to : Option String → Option Text
link_to none = none
link_to (some guid) = if guid == "" then none else some (codes "/accounts/" ++ codes guid)

abbrev pub bar : Amount → BarItem → Bar
bar whole item = record {
  label = item.label;
  link = link_to item.guid;
  width = record { num = item.value; den = whole };
  color = item.color;
  text_color = if is_zero item.value then "var(--text-muted)" else "var(--text-primary)";
}

-- `HorizBars`; no bars stand for the text that there is nothing.
unfoldable pub horiz_bars : List BarItem → List Bar
horiz_bars items = map (bar (max_value items)) items

pub record CashFlow : Type 0 where
  pub income_width : Share
  pub income_color : String
  pub expenses_width : Share
  pub expenses_color : String
  pub net : Amount
  pub is_gain : Bool
  pub net_color : String

abbrev muted_or : Amount → String → String
muted_or x color = if is_zero x then "var(--text-muted)" else color

-- `CashFlowBars`
unfoldable pub cash_flow_bars : Amount → Amount → CashFlow
cash_flow_bars income expenses =
    let whole = max income (max expenses unit) in
    let net = income -ℤ expenses in
    let gain = leb_ℤ (pos 0) net in
    record {
      income_width = record { num = income; den = whole };
      income_color = muted_or income "var(--color-income)";
      expenses_width = record { num = expenses; den = whole };
      expenses_color = muted_or expenses "var(--color-expense)";
      net = net;
      is_gain = gain;
      net_color = muted_or net (if gain then "var(--color-income)" else "var(--color-expense)");
    }

-- The colour of the number of `MetricCard`, and that of its border.
unfoldable pub metric_card : Amount → String → String × Text
metric_card value color_var =
    if is_zero value then ("var(--text-muted)", codes "var(--border-color)") else (
      if leb_ℤ (pos 0) value then "var(--text-primary)" else "var(--color-expense)",
      codes "var(--color-" ++ (codes color_var ++ codes ")"),
    )

-- The background and the colour of a button of `ToggleGroup`.
unfoldable pub button_style : Bool → String × String
button_style true = ("var(--color-primary)", "#fff")
button_style false = ("transparent", "var(--text-muted)")

-- The two buttons of `ToggleGroup`.
unfoldable pub toggle_group : Bool → (String × String) × (String × String)
toggle_group true = (button_style false, button_style true)
toggle_group false = (button_style true, button_style false)

-- A bar of the balance overview: its share of the larger of two amounts, or of 1.
unfoldable pub overview_bars : Amount → Amount → Share × Share
overview_bars a b =
    let whole = max a (max b unit) in
    (record { num = a; den = whole }, record { num = b; den = whole })

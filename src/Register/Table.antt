-- ===== src/Register/Table.antt =====
-- frontend/src/components/Register.tsx: the table of a register.
--
-- `t` translates a key, `format_currency` formats an amount, `today` is the day that
-- `new Date()` shows. The measures of the scrolled box are numbers of pixels.
pub mod Focus
use antimoney.Prelude.{
  ℕ, ◌+◌, ◌-◌, Ordering, Bool, true, false, not, ◌&&◌, String, Option, none, some, List, [], ◌∷◌,
  ◌++◌, length, ltb, ◌==◌, codes, lex, eqb, if◌then◌else◌,
}
use antimoney.Prelude.Int.{ℤ, pos, leb_ℤ}
use antimoney.Types.{
  AccountType, Amount, is_liability, is_credit_normal, is_zero, signed, RegisterEntry,
}
use antimoney.Register.Search.{Text}
use antimoney.Register.Page.{Direction, before, after}

-- `s.split('T')[0]`
abbrev pub day_of : Text → Text
day_of [] = []
day_of (c ∷ s) = if eqb c b'T' then [] else c ∷ day_of s

-- What a table asks of the page that it stands in, or of the server.
pub data Request : Type 0 where
  load_more : Direction → Request
  edit_transaction : String → Request
  delete_transaction : String → Request
  -- `toggleSplitAcknowledge`
  toggle_acknowledge : String → String → Request
  reconcile_state_changed : String → String → Request
  -- the register of the account, at the day of the entry
  jump : String → Text → Request

-- Where the browser is to scroll, once.
pub record Scroll : Type 0 where
  pub has_scrolled : Bool
  pub timer : Bool

-- The effect of a change of the entries; `shown` tells whether the focused row stands in the
-- document. The clean-up of the last run has cleared its timer.
unfoldable pub entries_changed : Bool → Scroll → Scroll
entries_changed shown s = record s { timer = shown && not s.has_scrolled }

-- The timer's function.
unfoldable pub scroll_fired : Scroll → Scroll
scroll_fired s = record s { has_scrolled = true; timer = false }

unfoldable pub account_changed : Scroll → Scroll
account_changed s = record s { has_scrolled = false }

-- `scrollTop`, `scrollHeight` and `clientHeight`
pub record Container : Type 0 where
  pub top : ℕ
  pub height : ℕ
  pub shown : ℕ

-- `scrollTop + clientHeight > scrollHeight - 100`
abbrev pub is_near_end : Container → Bool
is_near_end c = ltb c.height (c.top + c.shown + 100)

abbrev request_if : Bool → Direction → List Request
request_if b dir = if b then load_more dir ∷ [] else []

-- `handleScroll`; `loads` tells whether the page has given an `onLoadMore`.
unfoldable pub handle_scroll : Bool → Bool → Bool → Bool → Container → List Request
handle_scroll has_before has_after loads true c = []
handle_scroll has_before has_after loads false c =
    request_if (ltb c.top 100 && has_before && loads) before
    ++ request_if (is_near_end c && has_after && loads) after

-- `scrollTop` once older rows are drawn; the browser keeps it at 0 or above.
abbrev pub scroll_kept : Container → ℕ → ℕ
scroll_kept c new_height = c.top + new_height - c.height

abbrev pub reconcile_icon : String → String
reconcile_icon state = if state == "y" then "●" else if state == "c" then "◐" else "○"

abbrev pub reconcile_color : String → String
reconcile_color state =
    if state == "y"
    then "var(--color-income)"
    else if state == "c"
    then "var(--color-info, #60a5fa)"
    else "var(--text-muted)"

abbrev pub reconcile_key : String → String
reconcile_key state =
    if state == "y"
    then "register.reconcile.tooltip.y"
    else if state == "c"
    then "register.reconcile.tooltip.c"
    else "register.reconcile.tooltip.n"

abbrev pub next_state : String → String
next_state current = if current == "n" then "c" else "n"

-- `handleReconcileClick` up to its call.
unfoldable pub reconcile_click : String → String → Request
reconcile_click guid current = toggle_acknowledge guid (next_state current)

-- And after it; a failure is only logged.
unfoldable pub reconcile_done : String → String → Bool → List Request
reconcile_done guid current true = reconcile_state_changed guid (next_state current) ∷ []
reconcile_done guid current false = []

abbrev pub is_liability_column : Option AccountType → Bool
is_liability_column none = false
is_liability_column (some ty) = is_liability ty

abbrev pub shows_negated : Option AccountType → Bool
shows_negated none = false
shows_negated (some ty) = is_credit_normal ty

abbrev pub deposit_key : Option AccountType → String
deposit_key ty = if is_liability_column ty then "register.decrease" else "register.deposit"

abbrev pub withdrawal_key : Option AccountType → String
withdrawal_key ty = if is_liability_column ty then "register.increase" else "register.withdrawal"

abbrev time_class : Ordering → String
time_class Ordering.lt = "row-past"
time_class Ordering.eq = "row-today"
time_class Ordering.gt = "row-future"

-- `getRowClass`
unfoldable pub row_class : Text → Text → Bool → List String
row_class today date hoverable =
    (if hoverable then "hoverable-row" ∷ [] else []) ++ time_class (lex (day_of date) today) ∷ []

abbrev pub entry_day : RegisterEntry → Text
entry_day e = day_of (codes e.post_date)

-- One round of the loop: go on before the target day, else stop.
abbrev pub pick : Ordering → ℕ → ℕ → ℕ
pick Ordering.lt rest i = rest
pick Ordering.eq rest i = i
pick Ordering.gt rest i = i - 1

-- The loop over the entries, from index `i` on.
abbrev pub focus_from : Text → ℕ → ℕ → List RegisterEntry → ℕ
focus_from target last i [] = last
focus_from target last i (e ∷ entries) =
    pick (lex (entry_day e) target) (focus_from target last (i + 1) entries) i

-- `focusIndex`, where there are entries.
unfoldable pub focus_index : Text → List RegisterEntry → ℕ
focus_index target entries = focus_from target (length entries - 1) 0 entries

abbrev pub display_balance : Option AccountType → Amount → Amount
display_balance none x = x
display_balance (some ty) x = signed ty x

-- `finalBalance`
unfoldable pub final_balance : Option AccountType → Amount → Amount
final_balance ty x = if is_zero (display_balance ty x) then pos 0 else display_balance ty x

unfoldable pub balance_color : Option AccountType → Amount → String
unfolding final_balance
balance_color ty x =
    if is_zero (display_balance ty x)
    then "var(--text-muted)"
    else if leb_ℤ (pos 0) (final_balance ty x)
    then "var(--color-income)"
    else "var(--color-expense)"

-- The links and buttons of a row.
abbrev pub jump_click : RegisterEntry → List Request
jump_click e =
    if e.transfer_account_guid == "" then [] else jump e.transfer_account_guid (entry_day e) ∷ []

abbrev pub row_click : Bool → RegisterEntry → List Request
row_click true e = edit_transaction e.transaction_guid ∷ []
row_click false e = []

-- `handleDelete`; `confirmed` is the answer to the question.
abbrev pub delete_click : Bool → Bool → RegisterEntry → List Request
delete_click true true e = delete_transaction e.transaction_guid ∷ []
delete_click can_delete confirmed e = []

module _ (format_currency : Amount → String) where
  abbrev amount_cell : Option Amount → String
  amount_cell none = ""
  amount_cell (some x) = format_currency x

  unfoldable pub deposit_cell : Option AccountType → RegisterEntry → String
  deposit_cell ty e =
      if is_liability_column ty then amount_cell e.withdrawal else amount_cell e.deposit

  unfoldable pub withdrawal_cell : Option AccountType → RegisterEntry → String
  withdrawal_cell ty e =
      if is_liability_column ty then amount_cell e.deposit else amount_cell e.withdrawal

-- ===== src/Editor/Controls.antt =====
-- frontend/src/components/TransactionForm.tsx: the keys and the buttons of the form.
use antimoney.Prelude.{
  Bool, true, false, not, ◌&&◌, ◌==◌, String, Option, none, some, List, [], ◌∷◌, ◌++◌, codes,
  length, leb, if◌then◌else◌,
}
use antimoney.Register.Search.{Text}
use antimoney.Shortcuts.{Shortcut}
use antimoney.Editor.{SplitInput, State, Numbers, is_balanced}

pub data FormAction : Type 0 where
  close submit : FormAction

-- The two calls of `useShortcut`; a registration has a handle.
unfoldable pub form_shortcuts : List (Shortcut FormAction)
form_shortcuts =
    (record {
      handle = 0;
      key = "Escape";
      ctrl = false;
      alt = false;
      shift = false;
      action = close;
      description = "shortcuts.close";
      scope = none;
    })
    ∷ (record {
      handle = 1;
      key = "Enter";
      ctrl = true;
      alt = false;
      shift = false;
      action = submit;
      description = "Submit form";
      scope = none;
    })
    ∷ []

-- Whether the effect on `loading` moves the focus to the date.
abbrev pub focuses_date : State → Bool
focuses_date s = not s.loading

-- The spinner stands for the form of a transaction that is not there yet.
abbrev pub shows_spinner : Bool → State → Bool
shows_spinner waits s = s.loading && waits

-- The button beside an account: where it leads, and then the form closes.
unfoldable pub jump : SplitInput → Option Text
jump x = if x.account_guid == "" then none else some (codes "/accounts/" ++ codes x.account_guid)

-- `disabled` of the button that removes a split.
unfoldable pub is_remove_disabled : State → Bool
is_remove_disabled s = leb (length s.splits) 1

-- The text of the button that submits, as a key.
unfoldable pub submit_label : Bool → State → String
submit_label edits s =
    if s.loading
    then (if edits then "common.saving" else "form.creating")
    else if edits
    then "common.save"
    else "form.create"

-- The colour and the text beside the total.
unfoldable pub balance_label : Numbers → State → String × String
balance_label n s =
    if is_balanced n s
    then ("var(--color-income)", "form.balanced")
    else ("var(--text-muted)", "form.unbalanced")

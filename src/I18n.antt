-- ===== src/I18n.antt =====
-- frontend/src/i18n.ts: the dictionaries, the current language and the lookup of a text.
--
-- A dictionary is the list of its entries in the source's order. `Intl.NumberFormat` is the
-- parameter `format` of `format_currency`. The names that a JavaScript object inherits are left
-- out.
mod English
mod EnglishMore
mod Portuguese
mod PortugueseMore
pub mod Complete
mod Tests
use antimoney.Prelude.{
  ℕ, ◌+◌, Bool, ◌==◌, String, Option, none, some, List, [], ◌∷◌, ◌++◌, if◌then◌else◌,
}
use antimoney.Prelude.Int.{pos}
use antimoney.Types.{Amount, is_zero}
use antimoney.I18n.English.{english_texts}
use antimoney.I18n.EnglishMore.{english_more_texts}
use antimoney.I18n.Portuguese.{portuguese_texts}
use antimoney.I18n.PortugueseMore.{portuguese_more_texts}

pub data Locale : Type 0 where
  en pt_br : Locale

abbrev pub Dictionary : Type 0
Dictionary = List (String × String)

unfoldable pub english : Dictionary
english = english_texts ++ english_more_texts

unfoldable pub portuguese : Dictionary
portuguese = portuguese_texts ++ portuguese_more_texts

unfoldable pub lookup : String → Dictionary → Option String
lookup k [] = none
lookup k ((j, text) ∷ d) = if k == j then some text else lookup k d

abbrev pub dictionary : Locale → Dictionary
dictionary en = english
dictionary pt_br = portuguese

abbrev pub locale_name : Locale → String
locale_name en = "en"
locale_name pt_br = "pt-BR"

-- `translations[saved]`, of which the source needs only whether it is there.
abbrev pub locale_named : String → Option Locale
locale_named name = if name == "en" then some en else if name == "pt-BR" then some pt_br else none

-- `currentLocale`, and what `localStorage` holds under `antimoney-locale`.
pub record Settings : Type 0 where
  pub current : Locale
  pub stored : Option String

unfoldable pub set_locale : Locale → Settings → Settings
set_locale l s = record { current = l; stored = some (locale_name l) }

abbrev stored_locale : Option String → Option Locale
stored_locale none = none
stored_locale (some name) = locale_named name

abbrev locale_or : Locale → Option Locale → Locale
locale_or l none = l
locale_or l (some saved) = saved

unfoldable pub init_locale : Settings → Settings
init_locale s = record s { current = locale_or s.current (stored_locale s.stored) }

-- `a || b` on a text that may be missing: an empty text counts as missing.
abbrev pub text_or : String → Option String → String
text_or rest none = rest
text_or rest (some text) = if text == "" then rest else text

unfoldable pub translate : Settings → String → String
translate s key = text_or (text_or key (lookup key english)) (lookup key (dictionary s.current))

unfoldable pub format_currency : (Locale → Amount → String) → Settings → Amount → String
format_currency format s value = format s.current (if is_zero value then pos 0 else value)

-- `String(n).padStart(2, '0')`, for the digits of the number.
abbrev pub pad_two : List ℕ → List ℕ
pad_two [] = 48 ∷ 48 ∷ []
pad_two (c ∷ []) = 48 ∷ c ∷ []
pad_two (c ∷ d ∷ s) = c ∷ d ∷ s

-- `formatDate`: the local year, month from 0, and day of a date are `parts_of`; `digits` is
-- `String` of a number.
unfoldable pub format_date : (String → ℕ × ℕ × ℕ) → (ℕ → List ℕ) → String → List ℕ
format_date parts_of digits date =
    let (year, month, day) = parts_of date in
    digits year ++ (45 ∷ (pad_two (digits (month + 1)) ++ (45 ∷ pad_two (digits day))))

-- `formatDateShort`, with `toLocaleDateString` for the chosen language.
abbrev pub format_date_short : (Locale → String → String) → Settings → String → String
format_date_short show s date = show s.current date

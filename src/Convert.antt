-- ===== src/Convert.antt =====
-- scripts/convert_csv.js: the script that turns two CSV files of GnuCash, accounts and
-- transactions, into the file that the client imports.
--
-- A text is the list of its code units. A column that a short line lacks is `undefined` in the
-- source and `none` here. The script's host is a parameter (`Host`). A line's columns are read in
-- Convert; Chart is the loop over the accounts, Journal the one over the transactions, Script
-- their composition.
pub mod Columns
pub mod Lines
pub mod Chart
pub mod Parents
pub mod Journal
mod Runs
pub mod Grouping
mod Script
mod Tests
use antimoney.Prelude.{
  ℕ, ◌+◌, Bool, true, false, not, ◌&&◌, Option, none, some, List, [], ◌∷◌, ◌++◌, map, filter, all,
  drop, take, codes, eqb, String, if◌then◌else◌,
}
use antimoney.Types.{Amount}
use antimoney.Register.Search.{Text, is_space}

pub record Host : Type 0 where
  -- `createHash('md5').update(s).digest('hex')`
  pub md5 : Text → Text
  -- `parseFloat`, `none` for what is not a number
  pub parse_float : Text → Option Amount
  -- a number in a text
  pub digits : ℕ → Text
  -- `new Date().toISOString().slice(0, 19).replace('T', ' ')`
  pub now : Text

abbrev pub quote : ℕ
quote = 34

abbrev pub comma : ℕ
comma = 44

abbrev pub colon : ℕ
colon = 58

abbrev pub dash : ℕ
dash = 45

abbrev pub backslash : ℕ
backslash = 92

-- `hash.substr(from, count)`
abbrev substr : Text → ℕ → ℕ → Text
substr s from count = take count (drop from s)

-- `uuid(str)`
unfoldable pub uuid : Host → Text → Text
uuid host s =
    let hash = host.md5 s in
    substr hash 0 8
    ++ (dash ∷ substr hash 8 4
        ++ (dash ∷ (52 ∷ substr hash 13 3)
            ++ (dash ∷ (56 ∷ substr hash 17 3) ++ (dash ∷ substr hash 20 12))))

abbrev pub push : ℕ → List Text → List Text
push c [] = (c ∷ []) ∷ []
push c (w ∷ ws) = (c ∷ w) ∷ ws

-- `s.split(':')`
unfoldable pub split : Text → List Text
split [] = [] ∷ []
split (c ∷ s) = let rest = split s in if eqb c colon then [] ∷ rest else push c rest

-- `pieces.join(':')`
unfoldable pub join : List Text → Text
join [] = []
join (x ∷ []) = x
join (x ∷ y ∷ r) = x ++ (colon ∷ join (y ∷ r))

-- A column in a text: `undefined` reads so.
abbrev pub shown : Option Text → Text
shown none = codes "undefined"
shown (some s) = s

-- `column || ''`
abbrev pub or_empty : Option Text → Text
or_empty none = []
or_empty (some s) = s

-- A prefix before a name, as in `'acc-' + name`.
abbrev pub named : String → Text → Text
named prefix s = codes prefix ++ s

-- The loop over the characters of a line: the columns before, the column that is read, and
-- whether a quotation is open.
pub record Scan : Type 0 where
  pub cols : List Text
  pub cur : Text
  pub in_quote : Bool

abbrev pub no_scan : Scan
no_scan = record { cols = []; cur = []; in_quote = false }

-- `line[i] === '"' && (i === 0 || line[i - 1] !== '\\')`
abbrev pub is_delimiter : Option ℕ → ℕ → Bool
is_delimiter none c = eqb c quote
is_delimiter (some before) c = eqb c quote && not (eqb before backslash)

unfoldable pub scan_step : Option ℕ → ℕ → Scan → Scan
scan_step before c s =
    if is_delimiter before c
    then record s { in_quote = not s.in_quote }
    else if eqb c comma && not s.in_quote
    then record s { cols = s.cols ++ (s.cur ∷ []); cur = [] }
    else record s { cur = s.cur ++ (c ∷ []) }

unfoldable pub scan : Option ℕ → Text → Scan → Scan
scan before [] s = s
scan before (c ∷ line) s = scan (some c) line (scan_step before c s)

-- The columns, the last one included.
unfoldable pub scanned : Scan → List Text
scanned s = s.cols ++ (s.cur ∷ [])

-- `c.replace(/^"|"$/g, '')`
abbrev pub strip_last : Text → Text
strip_last [] = []
strip_last (c ∷ []) = if eqb c quote then [] else c ∷ []
strip_last (c ∷ d ∷ s) = c ∷ strip_last (d ∷ s)

abbrev strip_first : Text → Text
strip_first [] = []
strip_first (c ∷ s) = if eqb c quote then s else c ∷ s

unfoldable pub strip : Text → Text
strip s = strip_last (strip_first s)

unfoldable pub columns : Text → List Text
columns line = map strip (scanned (scan none line no_scan))

-- `!line.trim()`
abbrev pub is_blank : Text → Bool
is_blank = all is_space

-- The rows of a file, from the lines that `readline` finds in it, which have no line break: those
-- without the header and the blank ones.
unfoldable pub rows : List Text → List (List Text)
rows lines = map columns (filter (λ l. not (is_blank l)) (drop 1 lines))

-- ===== src/Convert/Tests.antt =====
-- scripts/convert_csv.js: tests, and the theorems at concrete inputs.
use mathlib.Core.List.{Perm}
use antimoney.Prelude.{
  ℕ, ◌+◌, ◌*◌, ◌-◌, ◌≡◌, refl, ap, ◌∙◌, All, eqb, false, ◌++◌, ◌&&◌, Option, none, some, List, [],
  ◌∷◌, map, codes, filter, length, leb, String, arith, if◌then◌else◌,
}
use mathlib.Core.Option
use antimoney.Prelude.Sorting.{sort, insert}
use antimoney.Prelude.Int.{pos}
use antimoney.Types.{Amount}
use antimoney.Register.Search.{Text, is_space}
use antimoney.Convert.{Host, columns, rows, split, scan, scan_step, scanned, strip}
use antimoney.Convert.Lines
use antimoney.Convert.Columns.{Fields, print_line, all_fields, unquoted}
use antimoney.Convert.Lines.{IsLine, IsPrintable, ReadsLines, unlines}
use antimoney.Convert.Chart.{Account, chart, accounts_of, account_of, import_account}
use antimoney.Convert.Parents
use antimoney.Convert.Parents.{ParentsFirst, full_name_of}
use antimoney.Convert.Journal.{
  journal, initial, loop, step, begin_tx, push_split, flush_tx, make_split,
}
use antimoney.Convert.Grouping
use antimoney.Convert.Grouping.{tx_of}
use antimoney.Convert.Runs.{Row, runs, has_splits}
use antimoney.Convert.Script.{run}

-- whole amounts of at least 0
read_digits : ℕ → Text → Option Amount
read_digits n [] = some (pos (1000 * n))
read_digits n (c ∷ s) = if leb 48 c && leb c 57 then read_digits (10 * n + (c - 48)) s else none

read_number : Text → Option Amount
unfolding read_digits
read_number [] = none
read_number (c ∷ s) = read_digits 0 (c ∷ s)

abbrev host : Host
host = record { md5 = λ s. s; parse_float = read_number; digits = λ n. (48 + n) ∷ []; now = [] }

columns_quoted :
    columns (codes "\"a,b\",c,\"d \"\"e\"\"\"") ≡ codes "a,b" ∷ codes "c" ∷ codes "d e" ∷ []
unfolding columns scan scan_step scanned strip
columns_quoted = refl

abbrev two_rows : List Fields
two_rows =
    (record { first = codes "BANK"; others = codes "Assets:Cash, \"main\"" ∷ [] })
    ∷ (record { first = codes "ASSET"; others = codes "Assets" ∷ [] })
    ∷ []

-- The pieces of a text that end in a line feed.
abbrev begin : ℕ → List Text → List Text
begin c [] = (c ∷ []) ∷ []
begin c (l ∷ ls) = (c ∷ l) ∷ ls

abbrev read_lines : Text → List Text
read_lines [] = []
read_lines (c ∷ s) = let rest = read_lines s in if eqb c 10 then [] ∷ rest else begin c rest

read_line : (l : Text) (s : Text) → IsLine l → read_lines (l ++ (10 ∷ s)) ≡ l ∷ read_lines s
read_line [] s h = refl
read_line (c ∷ l) s h =
    let other : eqb c 10 ≡ false = ground (arith, h.0) in rw (other, read_line l s h.1) refl

read_lines-ReadsLines : ReadsLines read_lines
read_lines-ReadsLines [] h = refl
read_lines-ReadsLines (l ∷ ls) h =
    read_line l (unlines ls) h.0 ∙ ap (◌∷◌ l) (read_lines-ReadsLines ls h.1)

two_rows-IsPrintable : All IsPrintable two_rows
two_rows-IsPrintable = ground arith

rows-print_line_example :
    rows (read_lines (unlines (codes "Type,Name" ∷ map print_line two_rows)))
    ≡ map (λ r. map unquoted (all_fields r)) two_rows
rows-print_line_example =
    Lines.rows-print_line read_lines (codes "Type,Name") two_rows read_lines-ReadsLines
      (ground arith) two_rows-IsPrintable

abbrev account_rows : List (List Text)
account_rows =
    (codes "BANK" ∷ codes "Assets:Cash" ∷ codes "Cash" ∷ [])
    ∷ (codes "ASSET" ∷ codes "Assets" ∷ codes "Assets" ∷ [])
    ∷ []

chart-ParentsFirst_example :
    (l : List Account) × (chart host account_rows ≡ some l)
    × ParentsFirst l
    × Perm (map (λ a. a.full_name) l) (map full_name_of account_rows)
chart-ParentsFirst_example = Parents.chart-ParentsFirst host account_rows (omega arith)

abbrev row : String → String → Row
row id amount =
    codes "2024-01-02"
    ∷ codes id
    ∷ codes "7"
    ∷ codes "Lunch"
    ∷ []
    ∷ []
    ∷ []
    ∷ []
    ∷ codes "memo"
    ∷ codes "Assets"
    ∷ codes "Assets"
    ∷ []
    ∷ codes amount
    ∷ []
    ∷ []
    ∷ codes "y"
    ∷ []

abbrev tx_rows : List Row
tx_rows = row "t1" "12" ∷ row "t1" "" ∷ row "t1" "5" ∷ row "t2" "x" ∷ row "t1" "3" ∷ []

journal_lem_example : journal host tx_rows ≡ filter has_splits (map (tx_of host) (runs tx_rows))
journal_lem_example = Grouping.journal_lem host tx_rows (refl, (refl, (refl, (refl, (refl, tt)))))

-- the split of a row without an id is given to the next transaction
journal_leak : map (λ t. length t.splits) (journal host (row "" "1" ∷ row "t2" "2" ∷ [])) ≡ 2 ∷ []
unfolding journal initial loop step begin_tx push_split flush_tx make_split read_number read_digits
journal_leak = refl

run_accounts :
    Option.map
      (λ o. map (λ a. a.name) o.accounts)
      (run host (codes "h" ∷ codes "BANK,A:B,b" ∷ codes "ASSET,A,a" ∷ []) [])
    ≡ some (some (codes "a") ∷ some (codes "b") ∷ [])
unfolding run chart accounts_of account_of sort insert rows columns scan scan_step scanned strip
    is_space split journal flush_tx initial loop import_account
run_accounts = refl

-- ===== src/Convert/Lines.antt =====
-- scripts/convert_csv.js: what the reading of a file makes of rows that are written with each field
-- in quotation marks and the quotation marks in it doubled.
use antimoney.Prelude.{
  inl, inr, Bool-cases, ℕ, ◌≡◌, refl, ap, ◌∙◌, Bool, false, ◌||◌, List, [], ◌∷◌, ◌++◌, map, All,
  eqb,
}
use antimoney.Register.Search.{Text}
use antimoney.Convert.{quote, comma, rows}
use antimoney.Convert.Columns.{
  doubled, print_row, HasNoBackslash, unquoted, Fields, all_fields, print_line, printed_rows,
}

-- The characters that end a line for `readline`.
abbrev pub ends_line : ℕ → Bool
ends_line c = eqb c 10 || eqb c 13 || eqb c 0x2028 || eqb c 0x2029

abbrev pub IsLine : Text → Type 0
IsLine = All (λ c. ends_line c ≡ false)

-- A text of lines, each with a line feed behind it.
abbrev pub unlines : List Text → Text
unlines [] = []
unlines (l ∷ ls) = l ++ (10 ∷ unlines ls)

-- What the script relies on of `readline`: a text of lines is read as these lines.
abbrev pub ReadsLines : (Text → List Text) → Type 0
ReadsLines read_lines = (ls : List Text) → All IsLine ls → read_lines (unlines ls) ≡ ls

-- What the fields of a row may hold: no line break, and no backslash.
abbrev pub IsPrintable : Fields → Type 0
IsPrintable r = All IsLine (all_fields r) × All HasNoBackslash (all_fields r)

doubled-IsLine : (s rest : Text) → IsLine s → IsLine rest → IsLine (doubled s rest)
doubled-IsLine [] rest h k = k
doubled-IsLine (c ∷ s) rest h k = elim (Bool-cases (eqb c quote)) [
  | inl marked ↦ rw marked (refl, (refl, doubled-IsLine s rest h.1 k))
  | inr other ↦ rw other (h.0, doubled-IsLine s rest h.1 k)
]

print_row-IsLine : (f : Text) (gs : List Text) → All IsLine (f ∷ gs) → IsLine (print_row f gs)
print_row-IsLine f [] h = (refl, doubled-IsLine f (quote ∷ []) h.0 (refl, tt))
print_row-IsLine f (g ∷ gs) h = (
  refl,
  doubled-IsLine f (quote ∷ comma ∷ print_row g gs) h.0 (refl, (refl, print_row-IsLine g gs h.1)),
)

print_line-IsLine : (rs : List Fields) → All IsPrintable rs → All IsLine (map print_line rs)
print_line-IsLine [] h = tt
print_line-IsLine (r ∷ rs) h = (print_row-IsLine r.first r.others h.0.0, print_line-IsLine rs h.1)

without_backslash :
    (rs : List Fields) → All IsPrintable rs → All (λ r. All HasNoBackslash (all_fields r)) rs
without_backslash [] h = tt
without_backslash (r ∷ rs) h = (h.0.1, without_backslash rs h.1)

-- A file of a header and a line for each row, with every field in quotation marks and the
-- quotation marks in it doubled, is read as its rows, in their order and with all their fields,
-- commas and all, but without the quotation marks in the fields; this where neither the header nor
-- a field has a line break, no field has a backslash, and `readline` reads a text of lines as these
-- lines.
pub rows-print_line :
    (read_lines : Text → List Text) (header : Text) (rs : List Fields)
    → ReadsLines read_lines
    → IsLine header
    → All IsPrintable rs
    → rows (read_lines (unlines (header ∷ map print_line rs)))
      ≡ map (λ r. map unquoted (all_fields r)) rs
unfolding rows
rows-print_line read_lines header rs reads title plain =
    ap rows (reads (header ∷ map print_line rs) (title, print_line-IsLine rs plain))
    ∙ printed_rows rs (without_backslash rs plain)

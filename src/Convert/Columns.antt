-- ===== src/Convert/Columns.antt =====
-- scripts/convert_csv.js: what the reading of a file makes of rows that are written with each field
-- in quotation marks and the quotation marks in it doubled.
use mathlib.Core.List.{append-nil, append_assoc}
use antimoney.Prelude.{
  inl, inr, Bool-cases, eqb_iff, ℕ, ◌≡◌, ◌≢◌, refl, ap, ◌∙◌, Bool, true, false, not, Option, none,
  some, List, [], ◌∷◌, ◌++◌, map, filter, All, arith, eqb, if◌then◌else◌,
}
use antimoney.Register.Search.{Text, is_space}
use antimoney.Convert.{
  quote, comma, backslash, scan_step, scan, scanned, strip, strip_last, columns, is_blank,
}

-- A field with its quotation marks doubled, and `rest` behind it.
abbrev pub doubled : Text → Text → Text
doubled [] rest = rest
doubled (c ∷ s) rest = if eqb c quote then quote ∷ quote ∷ doubled s rest else c ∷ doubled s rest

abbrev pub print_field : Text → Text → Text
print_field s rest = quote ∷ doubled s (quote ∷ rest)

-- A row of fields.
abbrev pub print_row : Text → List Text → Text
print_row f [] = print_field f []
print_row f (g ∷ gs) = print_field f (comma ∷ print_row g gs)

abbrev pub HasNoBackslash : Text → Type 0
HasNoBackslash = All (λ c. c ≢ backslash)

-- What is left of a field.
abbrev pub unquoted : Text → Text
unquoted = filter (λ c. not (eqb c quote))

-- the character before does not make a quotation mark part of the text
abbrev IsOpen : Option ℕ → Type 0
IsOpen none = Unit
IsOpen (some b) = b ≢ backslash

step-quote :
    (p : Option ℕ) (cols : List Text) (cur : Text) (open_quote : Bool)
    → IsOpen p
    → scan_step p quote (record { cols = cols; cur = cur; in_quote = open_quote })
      ≡ record { cols = cols; cur = cur; in_quote = not open_quote }
unfolding scan_step
step-quote none cols cur q h = refl
step-quote (some b) cols cur q h = ground (arith, h)

step-text :
    (p : Option ℕ) (c : ℕ) (cols : List Text) (cur : Text)
    → c ≢ quote
    → scan_step p c (record { cols = cols; cur = cur; in_quote = true })
      ≡ record { cols = cols; cur = cur ++ (c ∷ []); in_quote = true }
unfolding scan_step
step-text none c cols cur h = ground (arith, h)
step-text (some b) c cols cur h = ground (arith, h)

quote-IsOpen : IsOpen (some quote)
quote-IsOpen = omega arith

scan-field :
    (s rest : Text) (b : ℕ) (cols : List Text) (cur : Text)
    → b ≢ backslash
    → HasNoBackslash s
    → scan (some b) (doubled s (quote ∷ rest)) (record { cols = cols; cur = cur; in_quote = true })
      ≡ scan (some quote) rest (record { cols = cols; cur = cur ++ unquoted s; in_quote = false })
unfolding scan
scan-field [] rest b cols cur h plain =
    rw (append-nil cur) (ap (scan (some quote) rest) (step-quote (some b) cols cur true h))
scan-field (c ∷ s) rest b cols cur h plain = elim (Bool-cases (eqb c quote)) [
  | inl marked ↦ rw marked (
      ap (λ t. scan (some quote) (doubled s (quote ∷ rest)) (scan_step (some quote) quote t))
        (step-quote (some b) cols cur true h)
      ∙ ap (scan (some quote) (doubled s (quote ∷ rest)))
          (step-quote (some quote) cols cur false quote-IsOpen)
      ∙ scan-field s rest quote cols cur quote-IsOpen plain.1)
  | inr other ↦ rw other (
      ap (scan (some c) (doubled s (quote ∷ rest)))
        (step-text (some b) c cols cur (ground (arith, other)))
      ∙ scan-field s rest c cols (cur ++ (c ∷ [])) plain.0 plain.1
      ∙ rw (append_assoc cur (c ∷ []) (unquoted s)) refl)
]

scan-print_field :
    (f rest : Text) (p : Option ℕ) (cols : List Text)
    → IsOpen p
    → HasNoBackslash f
    → scan p (print_field f rest) (record { cols = cols; cur = []; in_quote = false })
      ≡ scan (some quote) rest (record { cols = cols; cur = unquoted f; in_quote = false })
unfolding scan
scan-print_field f rest p cols h plain =
    ap (scan (some quote) (doubled f (quote ∷ rest))) (step-quote p cols [] false h)
    ∙ scan-field f rest quote cols [] quote-IsOpen plain

comma-IsOpen : IsOpen (some comma)
comma-IsOpen = omega arith

scan-comma :
    (rest : Text) (cols : List Text) (cur : Text)
    → scan (some quote) (comma ∷ rest) (record { cols = cols; cur = cur; in_quote = false })
      ≡ scan (some comma) rest (record { cols = cols ++ (cur ∷ []); cur = []; in_quote = false })
unfolding scan scan_step
scan-comma rest cols cur = refl

scan-row :
    (f : Text) (gs : List Text) (p : Option ℕ) (cols : List Text)
    → IsOpen p
    → All HasNoBackslash (f ∷ gs)
    → scanned (scan p (print_row f gs) (record { cols = cols; cur = []; in_quote = false }))
      ≡ cols ++ map unquoted (f ∷ gs)
unfolding scanned
scan-row f [] p cols h plain =
    ap scanned (scan-print_field f [] p cols h plain.0) ∙ unfold scan in refl
scan-row f (g ∷ gs) p cols h plain =
    ap scanned (scan-print_field f (comma ∷ print_row g gs) p cols h plain.0)
    ∙ ap scanned (scan-comma (print_row g gs) cols (unquoted f))
    ∙ scan-row g gs (some comma) (cols ++ (unquoted f ∷ [])) comma-IsOpen plain.1
    ∙ append_assoc cols (unquoted f ∷ []) (map unquoted (g ∷ gs))

HasNoQuote : Text → Type 0
HasNoQuote = All (λ c. c ≢ quote)

unquoted-HasNoQuote : (s : Text) → HasNoQuote (unquoted s)
unfolding HasNoQuote
unquoted-HasNoQuote [] = tt
unquoted-HasNoQuote (c ∷ s) = elim (Bool-cases (eqb c quote)) [
  | inl marked ↦ rw marked (unquoted-HasNoQuote s)
  | inr other ↦ rw other (ground (arith, other), unquoted-HasNoQuote s)
]

strip_last-HasNoQuote : (s : Text) → HasNoQuote s → strip_last s ≡ s
unfolding HasNoQuote
strip_last-HasNoQuote [] h = refl
strip_last-HasNoQuote (c ∷ []) h = ground (arith, h.0)
strip_last-HasNoQuote (c ∷ d ∷ s) h = ap (◌∷◌ c) (strip_last-HasNoQuote (d ∷ s) h.1)

strip-HasNoQuote : (s : Text) → HasNoQuote s → strip s ≡ s
unfolding strip HasNoQuote
strip-HasNoQuote [] h = refl
strip-HasNoQuote (c ∷ s) h = elim (Bool-cases (eqb c quote)) [
  | inl marked ↦ absurd (h.0 ((eqb_iff c quote).0 marked))
  | inr other ↦ rw other (strip_last-HasNoQuote (c ∷ s) h)
]

map-strip : (l : List Text) → map strip (map unquoted l) ≡ map unquoted l
map-strip [] = refl
map-strip (s ∷ l) = rw (strip-HasNoQuote (unquoted s) (unquoted-HasNoQuote s), map-strip l) refl

columns-print_row :
    (f : Text) (gs : List Text)
    → All HasNoBackslash (f ∷ gs)
    → columns (print_row f gs) ≡ map unquoted (f ∷ gs)
unfolding columns
columns-print_row f gs plain = ap (map strip) (scan-row f gs none [] tt plain) ∙ map-strip (f ∷ gs)

-- The fields of a row, of which there is at least one.
pub record Fields : Type 0 where
  pub first : Text
  pub others : List Text

abbrev pub all_fields : Fields → List Text
all_fields r = r.first ∷ r.others

abbrev pub print_line : Fields → Text
print_line r = print_row r.first r.others

print_row-not_blank : (f : Text) (gs : List Text) → is_blank (print_row f gs) ≡ false
unfolding is_space
print_row-not_blank f [] = refl
print_row-not_blank f (g ∷ gs) = refl

pub printed_rows :
    (rs : List Fields)
    → All (λ r. All HasNoBackslash (all_fields r)) rs
    → map columns (filter (λ l. not (is_blank l)) (map print_line rs))
      ≡ map (λ r. map unquoted (all_fields r)) rs
printed_rows [] plain = refl
printed_rows (r ∷ rs) plain =
    rw (print_row-not_blank r.first r.others, printed_rows rs plain.1)
      (ap (λ x. x ∷ map (λ q. map unquoted (all_fields q)) rs)
        (columns-print_row r.first r.others plain.0))

-- ===== src/Prelude/Text.antt =====
-- Texts as the lists of their code points, and their order.
use Prim.Native.Char.{code}
use Prim.Native.Nat.{ℕ, compare, Ordering}
use Prim.Native.String.{String}
use mathlib.Core.List.{List, [], ◌∷◌}

-- The code points of a text. JavaScript compares UTF-16 units, which is the same order for all
-- that the client compares by `<`: dates of the form YYYY-MM-DD.
abbrev pub codes : String → List ℕ
codes String.[] = []
codes (String.◌∷◌ c s) = code c ∷ codes s

-- The order by which `<` and `>` compare texts.
abbrev pub lex : List ℕ → List ℕ → Ordering
lex [] [] = Ordering.eq
lex [] (y ∷ ys) = Ordering.lt
lex (x ∷ xs) [] = Ordering.gt
lex (x ∷ xs) (y ∷ ys) = elim (compare x y) [
  | Ordering.lt ↦ Ordering.lt
  | Ordering.gt ↦ Ordering.gt
  | Ordering.eq ↦ lex xs ys
]

abbrev pub compare_text : String → String → Ordering
compare_text s t = lex (codes s) (codes t)

-- ===== src/Editor/Amounts.antt =====
-- frontend/src/components/TransactionForm.tsx: amounts as texts, and their rounding.
use antimoney.Prelude.{
  ℕ, zero, suc, ◌+◌, ◌*◌, ◌/◌, Bool, true, false, ◌&&◌, ◌||◌, String, Option, none, some, [], ◌∷◌,
  eqb, leb, filter, map, if◌then◌else◌,
}
use antimoney.Prelude.Int.{ℤ, pos, negsuc, neg}
use antimoney.Types.{Amount}
use antimoney.Register.Search.{Text}

-- What the browser does with numbers and dates.
pub record Numbers : Type 0 where
  -- `parseFloat`
  pub parse : Text → Option Amount
  -- `toString`
  pub show : Amount → Text
  -- `/`
  pub quotient : ℤ → ℕ → Amount
  -- `new Function('return (' + s + ')')()`
  pub run : Text → Option Amount
  pub trim : Text → Text
  -- `new Date(d + 'T11:00:00Z').toISOString()`
  pub noon : String → String

-- `s.replace(',', '.')`: the first comma.
unfoldable pub first_comma : Text → Text
first_comma [] = []
first_comma (c ∷ s) = if eqb c 44 then 46 ∷ s else c ∷ first_comma s

-- The characters of `[-()\d/*+., ]`.
abbrev pub is_arithmetic : ℕ → Bool
is_arithmetic c =
    eqb c 45
    || eqb c 40
    || eqb c 41
    || leb 48 c && leb c 57
    || eqb c 47
    || eqb c 42
    || eqb c 43
    || eqb c 46
    || eqb c 44
    || eqb c 32

abbrev comma_to_dot : ℕ → ℕ
comma_to_dot c = if eqb c 44 then 46 else c

unfoldable pub sanitize : Text → Text
sanitize s = map comma_to_dot (filter is_arithmetic s)

abbrev pub same_text : Text → Text → Bool
same_text [] [] = true
same_text [] (d ∷ t) = false
same_text (c ∷ s) [] = false
same_text (c ∷ s) (d ∷ t) = eqb c d && same_text s t

abbrev pub is_exactly_zero : Amount → Bool
is_exactly_zero (pos zero) = true
is_exactly_zero (pos (suc _)) = false
is_exactly_zero (negsuc _) = false

-- `parseFloat(x.toFixed(2))`: a half is rounded away from zero.
unfoldable pub to_fixed : Amount → Amount
to_fixed (pos n) = pos ((n + 5) / 10 * 10)
to_fixed (negsuc n) = neg (pos ((n + 6) / 10 * 10))

-- `Math.round(x * 100)`: a half is rounded up.
unfoldable pub round_cents : Amount → ℤ
round_cents (pos n) = pos ((n + 5) / 10)
round_cents (negsuc n) = neg (pos ((n + 5) / 10))

abbrev evaluated : Numbers → Text → Option Amount → Text
evaluated n expr none = expr
evaluated n expr (some x) = n.show (to_fixed x)

-- The value of the sanitized text, if there is one.
abbrev pub evaluate_sanitized : Numbers → Text → Text → Text
evaluate_sanitized n expr [] = expr
evaluate_sanitized n expr (c ∷ s) = evaluated n expr (n.run (c ∷ s))

-- `evaluateMath`
unfoldable pub evaluate_math : Numbers → Text → Text
evaluate_math n expr = evaluate_sanitized n expr (sanitize expr)

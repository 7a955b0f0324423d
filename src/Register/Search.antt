-- ===== src/Register/Search.antt =====
-- frontend/src/utils/registerSearch.ts: the search of a register.
--
-- A text is the list of its code points. `toLowerCase` and `toFixed` are the browser's, and
-- parameters here.
pub mod Laws
pub mod Apart
pub mod Words
use antimoney.Prelude.{
  ℕ, Bool, true, false, ◌&&◌, ◌||◌, Option, none, some, List, [], ◌∷◌, ◌++◌, eqb, leb, codes,
  filter, all, if◌then◌else◌,
}
use antimoney.Prelude.Int.{abs}
use antimoney.Types.{Amount, RegisterEntry}

abbrev pub Text : Type 0
Text = List ℕ

-- The characters of `\s`.
unfoldable pub is_space : ℕ → Bool
is_space c =
    leb 9 c && leb c 13
    || eqb c 32
    || eqb c 160
    || eqb c 0x1680
    || leb 0x2000 c && leb c 0x200a
    || eqb c 0x2028
    || eqb c 0x2029
    || eqb c 0x202f
    || eqb c 0x205f
    || eqb c 0x3000
    || eqb c 0xfeff

-- The test of `filter(Boolean)` on texts.
abbrev pub is_present : Text → Bool
is_present [] = false
is_present (_ ∷ _) = true

-- `pieces.join(' ')`
unfoldable pub join : List Text → Text
join [] = []
join (x ∷ []) = x
join (x ∷ y ∷ r) = x ++ (32 ∷ join (y ∷ r))

abbrev pub starts_with_space : Text → Bool
starts_with_space [] = false
starts_with_space (c ∷ _) = is_space c

abbrev pub push : ℕ → List Text → List Text
push c [] = (c ∷ []) ∷ []
push c (w ∷ ws) = (c ∷ w) ∷ ws

-- `s.split(/\s+/)`: the last character of a run of spaces separates.
unfoldable pub split : Text → List Text
split [] = [] ∷ []
split (c ∷ s) =
    let rest = split s in
    if is_space c then (if starts_with_space s then rest else [] ∷ rest) else push c rest

abbrev pub is_prefix : Text → Text → Bool
is_prefix [] s = true
is_prefix (c ∷ t) [] = false
is_prefix (c ∷ t) (d ∷ s) = eqb c d && is_prefix t s

-- `haystack.includes(token)`
unfoldable pub includes : Text → Text → Bool
includes [] token = is_prefix token []
includes (c ∷ s) token = is_prefix token (c ∷ s) || includes s token

-- `deposit ?? withdrawal`
abbrev pub amount_of : RegisterEntry → Option Amount
amount_of e = elim e.deposit [ some a ↦ some a | none ↦ e.withdrawal ]

-- The tokens of a query, in lower case.
unfoldable pub tokenize : (Text → Text) → Text → List Text
tokenize lower query = filter is_present (split (lower query))

module _ (lower : Text → Text) (to_fixed : ℕ → Text) where
  abbrev pub amount_text : Option Amount → Text
  amount_text none = []
  amount_text (some a) = to_fixed (abs a)

  unfoldable pub entry_haystack : RegisterEntry → Text
  entry_haystack e = lower (
      join (
        filter is_present (
          codes e.description
          ∷ codes e.transfer_account
          ∷ codes e.split_memo
          ∷ codes e.custom_id
          ∷ amount_text (amount_of e)
          ∷ [])))

  unfoldable pub matches_tokens : RegisterEntry → List Text → Bool
  matches_tokens e [] = true
  matches_tokens e (token ∷ tokens) = all (includes (entry_haystack e)) (token ∷ tokens)

  unfoldable pub entry_matches_query : RegisterEntry → Text → Bool
  entry_matches_query e query = matches_tokens e (tokenize lower query)

  abbrev pub filter_by : List RegisterEntry → List Text → List RegisterEntry
  filter_by entries [] = entries
  filter_by entries (token ∷ tokens) = filter (λ e. matches_tokens e (token ∷ tokens)) entries

  unfoldable pub filter_register_entries : List RegisterEntry → Text → List RegisterEntry
  filter_register_entries entries query = filter_by entries (tokenize lower query)

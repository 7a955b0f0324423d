-- ===== src/Register/Search/Laws.antt =====
-- What the search of a register finds.
use antimoney.Prelude.{
  ℕ, ◌≡◌, refl, sym, ap, ◌∙◌, ◌↔◌, inl, inr, Bool, true, false, ◌&&◌, List, [], ◌∷◌, ◌++◌, arith,
  Bool-cases, eqb_iff, filter, all, if◌then◌else◌,
}
use antimoney.Types.{RegisterEntry}
use antimoney.Register.Search.{
  Text, is_space, is_present, starts_with_space, push, split, is_prefix, includes, entry_haystack,
  tokenize, matches_tokens, entry_matches_query, filter_by, filter_register_entries,
}

-- The text occurs in the other.
abbrev pub Occurs : Text → Text → Type 0
Occurs t s = (before : Text) × (after : Text) × (s ≡ before ++ (t ++ after))

is_prefix_sound : (t s : Text) → is_prefix t s ≡ true → (after : Text) × (s ≡ t ++ after)
is_prefix_sound [] s h = (s, refl)
is_prefix_sound (c ∷ t) [] h = cc
is_prefix_sound (c ∷ t) (d ∷ s) h = elim (Bool-cases (is_prefix t s)) [
  | inl ih ↦ let (after, e) = is_prefix_sound t s ih in (after, ground (arith, eqb_iff c d, e))
  | inr other ↦ absurd (ground arith)
]

is_prefix-append : (t after : Text) → is_prefix t (t ++ after) ≡ true
is_prefix-append [] after = refl
is_prefix-append (c ∷ t) after = ground (arith, is_prefix-append t after)

includes_sound : (s t : Text) → includes s t ≡ true → Occurs t s
unfolding includes
includes_sound [] t h = let (after, e) = is_prefix_sound t [] h in ([], after, e)
includes_sound (c ∷ s) t h = elim (Bool-cases (is_prefix t (c ∷ s))) [
  | inl here ↦ let (after, e) = is_prefix_sound t (c ∷ s) here in ([], after, e)
  | inr later ↦
      let (before, after, e) = includes_sound s t (ground arith) in
      (c ∷ before, after, ap (◌∷◌ c) e)
]

includes-append : (before t after : Text) → includes (before ++ (t ++ after)) t ≡ true
unfolding includes
includes-append [] [] [] = refl
includes-append [] [] (d ∷ after) = refl
includes-append [] (c ∷ t) after = ground (arith, is_prefix-append (c ∷ t) after)
includes-append (c ∷ before) t after = ground (arith, includes-append before t after)

pub includes_iff : (s t : Text) → (includes s t ≡ true) ↔ Occurs t s
includes_iff s t = (includes_sound s t, λ o. rw o.2 (includes-append o.0 t o.1))

pub all-append : (p : Text → Bool) (xs ys : List Text) → all p (xs ++ ys) ≡ (all p xs && all p ys)
all-append p [] ys = refl
all-append p (x ∷ xs) ys = ground (arith, all-append p xs ys)

-- The pieces that `filter(Boolean)` leaves.
abbrev pub words : List Text → List Text
words = filter is_present

abbrev first : List Text → Text
first [] = []
first (w ∷ ws) = w

abbrev others : List Text → List Text
others [] = []
others (w ∷ ws) = words ws

words-push : (c : ℕ) (ws : List Text) → words (push c ws) ≡ (c ∷ first ws) ∷ others ws
words-push c [] = refl
words-push c (w ∷ ws) = refl

-- A leading space adds no word.
words-split_space : (c : ℕ) (s : Text) → is_space c ≡ true → words (split (c ∷ s)) ≡ words (split s)
unfolding split
words-split_space c s h = ground arith

first-split_space : (s : Text) → starts_with_space s ≡ true → first (split s) ≡ []
unfolding split
first-split_space [] h = refl
first-split_space (c ∷ s) h = elim (Bool-cases (starts_with_space s)) [
  | inl more ↦ ground (arith, first-split_space s more)
  | inr done ↦ ground arith
]

others_of_first : (ws : List Text) → first ws ≡ [] → others ws ≡ words ws
others_of_first [] h = refl
others_of_first (w ∷ ws) h = rw h

words_parts :
    (ws : List Text)
    → words ws ≡ (if is_present (first ws) then first ws ∷ others ws else others ws)
words_parts [] = refl
words_parts (w ∷ ws) = refl

-- Two lists of pieces with the same first piece, where the second goes on with `more`.
abbrev Extends : List Text → List Text → List Text → Type 0
Extends longer ws more = (first longer ≡ first ws) × (others longer ≡ others ws ++ more)

words_of_Extends :
    (longer ws more : List Text) → Extends longer ws more → words longer ≡ words ws ++ more
words_of_Extends longer ws more h = ground (arith, words_parts longer, words_parts ws, h.0, h.1)

first-push : (c : ℕ) (ws : List Text) → first (push c ws) ≡ c ∷ first ws
first-push c [] = refl
first-push c (w ∷ ws) = refl

others-push : (c : ℕ) (ws : List Text) → others (push c ws) ≡ others ws
others-push c [] = refl
others-push c (w ∷ ws) = refl

push-Extends :
    (c : ℕ) (longer ws more : List Text)
    → Extends longer ws more
    → Extends (push c longer) (push c ws) more
push-Extends c longer ws more h = (
  cc (first-push c longer, first-push c ws, h.0),
  cc (others-push c longer, others-push c ws, h.1),
)

split_solid : (c : ℕ) (s : Text) → is_space c ≡ false → split (c ∷ s) ≡ push c (split s)
unfolding split
split_solid c s h = rw h

split_blank :
    (c : ℕ) (s : Text)
    → is_space c ≡ true
    → (first (split (c ∷ s)) ≡ []) × (others (split (c ∷ s)) ≡ words (split s))
split_blank c s h =
    let none_first = first-split_space (c ∷ s) h in
    (none_first, others_of_first (split (c ∷ s)) none_first ∙ words-split_space c s h)

split_apart : (s t : Text) → Extends (split (s ++ (32 ∷ t))) (split s) (words (split t))
unfolding is_space
split_apart [] t = unfold split in split_blank 32 t refl
split_apart (c ∷ s) t = elim (Bool-cases (is_space c)) [
  | inl blank ↦
      let longer = split_blank c (s ++ (32 ∷ t)) blank in
      let shorter = split_blank c s blank in
      let ih =
        words_of_Extends (split (s ++ (32 ∷ t))) (split s) (words (split t)) (split_apart s t) in
      (longer.0 ∙ sym shorter.0, cc (longer.1, shorter.1, ih))
  | inr solid ↦
      rw (split_solid c (s ++ (32 ∷ t)) solid, split_solid c s solid)
        (push-Extends c (split (s ++ (32 ∷ t))) (split s) (words (split t)) (split_apart s t))
]

module _ (lower : Text → Text) where
  -- Lower case goes character by character where the texts are joined by a space.
  abbrev pub Splits : Type 0
  Splits = (a b : Text) → lower (a ++ (32 ∷ b)) ≡ lower a ++ (32 ∷ lower b)

  pub tokenize-append :
      Splits → (a b : Text) → tokenize lower (a ++ (32 ∷ b)) ≡ tokenize lower a ++ tokenize lower b
  unfolding tokenize
  tokenize-append h a b = rw (h a b) (
      words_of_Extends (split (lower a ++ (32 ∷ lower b))) (split (lower a))
        (words (split (lower b))) (split_apart (lower a) (lower b)))

module _ (lower : Text → Text) (to_fixed : ℕ → Text) where
  pub matches_tokens-eq-all :
      (e : RegisterEntry) (tokens : List Text)
      → matches_tokens lower to_fixed e tokens
        ≡ all (includes (entry_haystack lower to_fixed e)) tokens
  unfolding matches_tokens
  matches_tokens-eq-all e [] = refl
  matches_tokens-eq-all e (x ∷ xs) = refl

  -- The query that joins two queries by a space is matched by exactly the entries that match both.
  entry_matches_query_and :
      Splits lower
      → (e : RegisterEntry) (a b : Text)
      → entry_matches_query lower to_fixed e (a ++ (32 ∷ b))
        ≡ (entry_matches_query lower to_fixed e a && entry_matches_query lower to_fixed e b)
  unfolding entry_matches_query
  entry_matches_query_and h e a b =
      let hay = includes (entry_haystack lower to_fixed e) in
      let ta = tokenize lower a in
      let tb = tokenize lower b in
      cc (
        tokenize-append lower h a b,
        matches_tokens-eq-all e (ta ++ tb),
        matches_tokens-eq-all e ta,
        matches_tokens-eq-all e tb,
        all-append hay ta tb,
      )

  filter_true :
      (entries : List RegisterEntry)
      → filter (λ e. matches_tokens lower to_fixed e []) entries ≡ entries
  unfolding matches_tokens
  filter_true [] = refl
  filter_true (e ∷ entries) = ap (◌∷◌ e) (filter_true entries)

  -- Filtering with the query tokenized once keeps exactly the entries that match the query, in
  -- their order, also where the query has no token.
  filter_register_entries-eq-filter :
      (entries : List RegisterEntry) (query : Text)
      → filter_register_entries lower to_fixed entries query
        ≡ filter (λ e. entry_matches_query lower to_fixed e query) entries
  unfolding filter_register_entries entry_matches_query
  filter_register_entries-eq-filter entries query = by_tokens (tokenize lower query)
    where
      by_tokens :
          (tokens : List Text)
          → filter_by lower to_fixed entries tokens
            ≡ filter (λ e. matches_tokens lower to_fixed e tokens) entries
      by_tokens [] = sym (filter_true entries)
      by_tokens (x ∷ xs) = refl

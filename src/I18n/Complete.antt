-- ===== src/I18n/Complete.antt =====
-- The two dictionaries, and what a language that is not complete shows.
use antimoney.Prelude.{
  ◌≡◌, ◌≢◌, refl, inl, inr, ◌⊎◌, Bool, true, false, not, ◌==◌, ◌||◌, eq_iff, String, Option, none,
  some, List, [], ◌∷◌, all, contains, map, arith, Bool-cases, Option-cases,
}
use antimoney.I18n.{
  Locale, en, pt_br, Dictionary, dictionary, english, portuguese, lookup, Settings, set_locale,
  init_locale, translate, text_or,
}

abbrev pub keys : Dictionary → List String
keys d = map (λ (k, text). k) d

abbrev is_covered : Dictionary → Dictionary → Bool
is_covered d c = all (λ k. contains k (keys c)) (keys d)

english_covers : is_covered portuguese english ≡ true
unfolding english portuguese
english_covers = refl

lookup-contains : (k : String) (d : Dictionary) → contains k (keys d) ≡ false → lookup k d ≡ none
unfolding lookup
lookup-contains k [] h = refl
lookup-contains k ((j, text) ∷ d) h = ground (arith, lookup-contains k d, h)

contains_of_lookup :
    (k : String) (d : Dictionary) (text : String)
    → lookup k d ≡ some text
    → contains k (keys d) ≡ true
unfolding lookup
contains_of_lookup k [] text h = cc
contains_of_lookup k ((j, x) ∷ d) text h = ground (arith, contains_of_lookup k d text, h)

all_at :
    (p : String → Bool) (k : String) (l : List String)
    → all p l ≡ true
    → contains k l ≡ true
    → p k ≡ true
all_at p k [] h e = cc
all_at p k (x ∷ l) h e = elim (Bool-cases (k == x)) [
  | inl here ↦ rw ((eq_iff k x).0 here) (ground (arith, h))
  | inr later ↦ all_at p k l (ground (arith, h)) (ground (arith, later, e))
]

none_of_contains : (k : String) (d : Dictionary) → contains k (keys d) ≡ true → lookup k d ≢ none
unfolding lookup
none_of_contains k [] h e = cc
none_of_contains k ((j, text) ∷ d) h e = ground (arith, none_of_contains k d, h, e)

-- A key that the English dictionary does not have is in no dictionary.
lookup-dictionary :
    (l : Locale) (key : String) → lookup key english ≡ none → lookup key (dictionary l) ≡ none
lookup-dictionary en key h = h
lookup-dictionary pt_br key h = elim (Option-cases (lookup key portuguese)) [
  | inl missing ↦ missing
  | inr (text, found) ↦
      let listed = contains_of_lookup key portuguese text found in
      let known =
        all_at (λ k. contains k (keys english)) key (keys portuguese) english_covers listed in
      absurd (none_of_contains key english known h)
]

abbrev is_shown : Dictionary → Bool
is_shown d = all (λ (k, text). not (text == "")) d

english-is_shown : is_shown english ≡ true
unfolding english
english-is_shown = refl

nonempty_of_lookup :
    (k text : String) (d : Dictionary)
    → is_shown d ≡ true
    → lookup k d ≡ some text
    → (text == "") ≡ false
unfolding lookup
nonempty_of_lookup k text [] h e = cc
nonempty_of_lookup k text ((j, x) ∷ d) h e = ground (arith, nonempty_of_lookup k text d, h, e)

-- What is shown for an English text, whatever the current language has.
text_or_lem :
    (key text : String) (o : Option String)
    → (text == "") ≡ false
    → (text_or (text_or key (some text)) o ≢ "")
      × ((text_or (text_or key (some text)) o ≡ text)
          ⊎ (o ≡ some (text_or (text_or key (some text)) o)))
text_or_lem key text none h = (λ e. ground (arith, eq_iff text "", h, e), inl (rw h refl))
text_or_lem key text (some own) h = elim (Bool-cases (own == "")) [
  | inl empty ↦ (λ e. ground (arith, eq_iff text "", h, empty, e), inl (rw (empty, h) refl))
  | inr full ↦ (λ e. ground (arith, eq_iff own "", full, e), inr (rw full refl))
]

-- A key without an English text is shown as it is, in every language. A key with one is shown as
-- a text of the current language or as the English one, and never as an empty text.
pub translate_lem :
    (s : Settings) (key : String)
    → (lookup key english ≡ none → translate s key ≡ key)
      × ((text : String)
          → lookup key english ≡ some text
          → (translate s key ≢ "")
            × ((translate s key ≡ text)
                ⊎ (lookup key (dictionary s.current) ≡ some (translate s key))))
unfolding translate
translate_lem s key = (
  λ h. rw (h, lookup-dictionary s.current key h) refl,
  λ text h. rw h (
      text_or_lem key text (lookup key (dictionary s.current))
        (nonempty_of_lookup key text english english-is_shown h)),
)

-- The keys that only the English dictionary has.
abbrev pub only_english : List String
only_english = "form.save" ∷ "form.common.save" ∷ []

portuguese_covers :
    all (λ k. contains k (keys portuguese) || contains k only_english) (keys english) ≡ true
unfolding english portuguese
portuguese_covers = refl

-- Every key that has an English text has a Portuguese one, but for the two of `only_english`.
pub portuguese_complete :
    (key text : String)
    → lookup key english ≡ some text
    → contains key only_english ≡ false
    → lookup key portuguese ≢ none
portuguese_complete key text h other =
    let listed = contains_of_lookup key english text h in
    let found =
      all_at (λ k. contains k (keys portuguese) || contains k only_english) key (keys english)
        portuguese_covers listed in
    none_of_contains key portuguese (ground (arith, found, other))

-- The language that is chosen is the one that the next visit begins with, whatever that visit
-- would have begun with.
pub init_locale-set_locale :
    (l other : Locale) (s : Settings)
    → (init_locale (record (set_locale l s) { current = other })).current ≡ l
unfolding init_locale set_locale
init_locale-set_locale en other s = refl
init_locale-set_locale pt_br other s = refl

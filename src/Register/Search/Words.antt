-- ===== src/Register/Search/Words.antt =====
-- frontend/src/utils/registerSearch.ts: what a query of several words finds.
use antimoney.Prelude.{
  ℕ, ◌≡◌, refl, sym, ap, ◌∙◌, ◌↔◌, inl, inr, Bool, true, ◌||◌, List, [], ◌∷◌, map, arith,
  Bool-cases, Option-cases, none, some, codes, filter, all, any, All,
}
use antimoney.Prelude.Int.{abs}
use antimoney.Types.{Amount, RegisterEntry}
use antimoney.Register.Search.{
  Text, is_present, split, includes, join, entry_haystack, tokenize, amount_of, amount_text,
  matches_tokens, entry_matches_query,
}
use antimoney.Register.Search.Apart.{
  IsWord, split_word, words_one, includes_apart, includes_nothing,
}
use antimoney.Register.Search.Laws.{
  Occurs, Splits, includes_iff, tokenize-append, matches_tokens-eq-all,
}

module _ (lower : Text → Text) (to_fixed : ℕ → Text) where
  -- The texts of an entry that a search looks at.
  pub data IsSearched (e : RegisterEntry) : Text → Type 0 where
    described : IsSearched e (codes e.description)
    transferred : IsSearched e (codes e.transfer_account)
    noted : IsSearched e (codes e.split_memo)
    numbered : IsSearched e (codes e.custom_id)
    deposited : (a : Amount) → e.deposit ≡ some a → IsSearched e (to_fixed (abs a))
    withdrawn :
        (a : Amount) → e.deposit ≡ none → e.withdrawal ≡ some a → IsSearched e (to_fixed (abs a))

  -- The word occurs in one of these, whatever the case of its letters.
  abbrev pub IsInField : RegisterEntry → Text → Type 0
  IsInField e w = (field : Text) × (IsSearched e field × Occurs (lower w) (lower field))

  abbrev searched : RegisterEntry → List Text
  searched e =
      codes e.description
      ∷ codes e.transfer_account
      ∷ codes e.split_memo
      ∷ codes e.custom_id
      ∷ amount_text lower to_fixed (amount_of e)
      ∷ []

  abbrev hits : Text → Text → Bool
  hits t field = includes (lower field) t

  module _ (splits : Splits lower) (empty : lower [] ≡ []) where
    includes-join :
        (t : Text) (fields : List Text)
        → IsWord t
        → includes (lower (join fields)) t ≡ any (hits t) fields
    unfolding join
    includes-join t [] h = rw (empty, includes_nothing t h.0) refl
    includes-join t (x ∷ []) h = ground arith
    includes-join t (x ∷ y ∷ r) h =
        rw (splits x (join (y ∷ r)), includes_apart (lower x) (lower (join (y ∷ r))) t h)
          (ap (λ b. hits t x || b) (includes-join t (y ∷ r) h))

    any-present :
        (t : Text) (fields : List Text)
        → IsWord t
        → any (hits t) (filter is_present fields) ≡ any (hits t) fields
    any-present t [] h = refl
    any-present t ([] ∷ r) h = rw (empty, includes_nothing t h.0) (any-present t r h)
    any-present t ((c ∷ x) ∷ r) h = ap (λ b. hits t (c ∷ x) || b) (any-present t r h)

    tokenize_word : (w : Text) → IsWord (lower w) → tokenize lower w ≡ lower w ∷ []
    unfolding tokenize
    tokenize_word w h = rw (split_word (lower w) h.1) (words_one (lower w) h.0)

    tokenize-join :
        (ws : List Text) → All (λ w. IsWord (lower w)) ws → tokenize lower (join ws) ≡ map lower ws
    unfolding join
    tokenize-join [] h = unfold tokenize split in rw empty refl
    tokenize-join (w ∷ []) h = tokenize_word w h.0
    tokenize-join (w ∷ x ∷ r) h =
        tokenize-append lower splits w (join (x ∷ r))
        ∙ rw (tokenize_word w h.0, tokenize-join (x ∷ r) h.1) refl

    hits_iff : (t field : Text) → (hits t field ≡ true) ↔ Occurs t (lower field)
    hits_iff t field = includes_iff (lower field) t

    -- the text of the amount that an entry shows
    amount_of_deposit :
        (e : RegisterEntry) (a : Amount)
        → e.deposit ≡ some a
        → amount_text lower to_fixed (amount_of e) ≡ to_fixed (abs a)
    amount_of_deposit e a d = rw d refl

    amount_of_withdrawal :
        (e : RegisterEntry) (a : Amount)
        → e.deposit ≡ none
        → e.withdrawal ≡ some a
        → amount_text lower to_fixed (amount_of e) ≡ to_fixed (abs a)
    amount_of_withdrawal e a n d = rw (n, d) refl

    no_amount :
        (e : RegisterEntry)
        → e.deposit ≡ none
        → e.withdrawal ≡ none
        → amount_text lower to_fixed (amount_of e) ≡ []
    no_amount e n m = rw (n, m) refl

    amount_of_hit :
        (e : RegisterEntry) (w : Text)
        → IsWord (lower w)
        → hits (lower w) (amount_text lower to_fixed (amount_of e)) ≡ true
        → IsInField e w
    amount_of_hit e w h found = elim (Option-cases e.deposit) [
      | inr (a, d) ↦ (
        to_fixed (abs a),
        (
          deposited a d,
          (hits_iff (lower w) (to_fixed (abs a))).0
              (sym (ap (hits (lower w)) (amount_of_deposit e a d)) ∙ found),
        ),
      )
      | inl n ↦ elim (Option-cases e.withdrawal) [
        | inr (a, d) ↦ (
          to_fixed (abs a),
          (
            withdrawn a n d,
            (hits_iff (lower w) (to_fixed (abs a))).0
                (sym (ap (hits (lower w)) (amount_of_withdrawal e a n d)) ∙ found),
          ),
        )
        | inl m ↦ absurd (
            cc (
              ap (hits (lower w)) (no_amount e n m),
              ap (λ s. includes s (lower w)) empty,
              includes_nothing (lower w) h.0,
              found,
            ))
      ]
    ]

    field_of_hit :
        (e : RegisterEntry) (w : Text)
        → IsWord (lower w)
        → any (hits (lower w)) (searched e) ≡ true
        → IsInField e w
    field_of_hit e w h found = elim (Bool-cases (hits (lower w) (codes e.description))) [
      | inl here ↦
          (codes e.description, (described, (hits_iff (lower w) (codes e.description)).0 here))
      | inr d ↦ elim (Bool-cases (hits (lower w) (codes e.transfer_account))) [
        | inl here ↦ (
          codes e.transfer_account,
          (transferred, (hits_iff (lower w) (codes e.transfer_account)).0 here),
        )
        | inr t ↦ elim (Bool-cases (hits (lower w) (codes e.split_memo))) [
          | inl here ↦
              (codes e.split_memo, (noted, (hits_iff (lower w) (codes e.split_memo)).0 here))
          | inr m ↦ elim (Bool-cases (hits (lower w) (codes e.custom_id))) [
            | inl here ↦
                (codes e.custom_id, (numbered, (hits_iff (lower w) (codes e.custom_id)).0 here))
            | inr i ↦ amount_of_hit e w h (ground (arith, found, d, t, m, i))
          ]
        ]
      ]
    ]

    hit_of_field :
        (e : RegisterEntry) (w : Text) → IsInField e w → any (hits (lower w)) (searched e) ≡ true
    hit_of_field e w (_, (described, o)) =
        ground (arith, (hits_iff (lower w) (codes e.description)).1 o)
    hit_of_field e w (_, (transferred, o)) =
        ground (arith, (hits_iff (lower w) (codes e.transfer_account)).1 o)
    hit_of_field e w (_, (noted, o)) = ground (arith, (hits_iff (lower w) (codes e.split_memo)).1 o)
    hit_of_field e w (_, (numbered, o)) =
        ground (arith, (hits_iff (lower w) (codes e.custom_id)).1 o)
    hit_of_field e w (_, (deposited a d, o)) =
        let amount =
          ap (hits (lower w)) (amount_of_deposit e a d)
          ∙ (hits_iff (lower w) (to_fixed (abs a))).1 o in
        ground (arith, amount)
    hit_of_field e w (_, (withdrawn a n d, o)) =
        let amount =
          ap (hits (lower w)) (amount_of_withdrawal e a n d)
          ∙ (hits_iff (lower w) (to_fixed (abs a))).1 o in
        ground (arith, amount)

    any_iff :
        (e : RegisterEntry) (w : Text)
        → IsWord (lower w)
        → (includes (entry_haystack lower to_fixed e) (lower w) ≡ true) ↔ IsInField e w
    unfolding entry_haystack
    any_iff e w h =
        let same =
          includes-join (lower w) (filter is_present (searched e)) h
          ∙ any-present (lower w) (searched e) h in
        (λ k. field_of_hit e w h (sym same ∙ k), λ k. same ∙ hit_of_field e w k)

    all_words_iff :
        (e : RegisterEntry) (ws : List Text)
        → All (λ w. IsWord (lower w)) ws
        → (all (includes (entry_haystack lower to_fixed e)) (map lower ws) ≡ true)
          ↔ All (IsInField e) ws
    all_words_iff e [] h = (λ _. tt, λ _. refl)
    all_words_iff e (w ∷ ws) h =
        let ih = all_words_iff e ws h.1 in
        let now = any_iff e w h.0 in
        (
          λ k. (now.0 (ground (arith, k)), ih.0 (ground (arith, k))),
          λ k. rw (now.1 k.0, ih.1 k.1) refl,
        )

    -- A query of words, joined by spaces, is matched by exactly the entries each word of the query
    -- occurs in, in lower case: in the description, the transfer account, the memo, the number or
    -- the amount, which is the deposit's or, where there is none, the withdrawal's, in lower case.
    -- This where the conversion to lower case keeps words words, goes on from one word to the
    -- next by itself, and makes nothing of nothing.
    pub entry_matches_query_iff :
        (e : RegisterEntry) (ws : List Text)
        → All (λ w. IsWord (lower w)) ws
        → (entry_matches_query lower to_fixed e (join ws) ≡ true) ↔ All (IsInField e) ws
    unfolding entry_matches_query
    entry_matches_query_iff e ws h =
        let same =
          ap (matches_tokens lower to_fixed e) (tokenize-join ws h)
          ∙ matches_tokens-eq-all lower to_fixed e (map lower ws) in
        let all_found = all_words_iff e ws h in
        (λ k. all_found.0 (sym same ∙ k), λ k. same ∙ all_found.1 k)

-- ===== src/Register/Page/Patch.antt =====
-- What a change of a reconcile state does to the entries, and what it shows.
use mathlib.Core.Option
use antimoney.Prelude.{
  ℕ, Ordering, ◌≡◌, refl, ap, ◌∙◌, inl, inr, Bool, true, false, ◌==◌, String, Option, none, some,
  List, [], ◌∷◌, map, arith, all, Bool-cases, All, if◌then◌else◌,
}
use antimoney.Prelude.Sorting.{is_gt, IsSorted, Le}
use antimoney.Types.{RegisterEntry}
use antimoney.Register.Order.{compare_entries}
use antimoney.Register.Search.{
  Text, tokenize, entry_haystack, matches_tokens, includes, filter_by, filter_register_entries,
}
use antimoney.Register.Page.{
  State, guids, patch, handle_reconcile_state_changed, is_searching, display_entries,
}

pub guids-patch :
    (guid state : String) (l : List RegisterEntry) → guids (map (patch guid state) l) ≡ guids l
guids-patch guid state [] = refl
guids-patch guid state (x ∷ l) = ground (arith, guids-patch guid state l)

module _ (locale_compare : String → String → Ordering) where
  compare_entries-patch :
      (guid state : String) (x y : RegisterEntry)
      → compare_entries locale_compare (patch guid state x) (patch guid state y)
        ≡ compare_entries locale_compare x y
  unfolding compare_entries
  compare_entries-patch guid state x y = elim (Bool-cases (x.split_guid == guid)) [
    | inl hx ↦ elim (Bool-cases (y.split_guid == guid)) [
      | inl hy ↦ rw (hx, hy)
      | inr hy ↦ rw (hx, hy)
    ]
    | inr hx ↦ elim (Bool-cases (y.split_guid == guid)) [
      | inl hy ↦ rw (hx, hy)
      | inr hy ↦ rw (hx, hy)
    ]
  ]

  patch-Le :
      (guid state : String) (x : RegisterEntry) (l : List RegisterEntry)
      → All (Le (compare_entries locale_compare) x) l
      → All (Le (compare_entries locale_compare) (patch guid state x)) (map (patch guid state) l)
  patch-Le guid state x [] h = tt
  patch-Le guid state x (y ∷ l) h =
      (ap is_gt (compare_entries-patch guid state x y) ∙ h.0, patch-Le guid state x l h.1)

  pub patch-IsSorted :
      (guid state : String) (l : List RegisterEntry)
      → IsSorted (compare_entries locale_compare) l
      → IsSorted (compare_entries locale_compare) (map (patch guid state) l)
  patch-IsSorted guid state [] h = tt
  patch-IsSorted guid state (x ∷ l) h =
      (patch-Le guid state x l h.0, patch-IsSorted guid state l h.1)

module _ (lower : Text → Text) (to_fixed : ℕ → Text) (guid state : String) where
  haystack-patch :
      (e : RegisterEntry)
      → entry_haystack lower to_fixed (patch guid state e) ≡ entry_haystack lower to_fixed e
  unfolding entry_haystack
  haystack-patch e = elim (Bool-cases (e.split_guid == guid)) [ inl h ↦ rw h | inr h ↦ rw h ]

  matches_tokens-patch :
      (e : RegisterEntry) (tokens : List Text)
      → matches_tokens lower to_fixed (patch guid state e) tokens
        ≡ matches_tokens lower to_fixed e tokens
  unfolding matches_tokens
  matches_tokens-patch e [] = refl
  matches_tokens-patch e (x ∷ xs) = ap (λ h. all (includes h) (x ∷ xs)) (haystack-patch e)

  filter_by-patch :
      (l : List RegisterEntry) (tokens : List Text)
      → filter_by lower to_fixed (map (patch guid state) l) tokens
        ≡ map (patch guid state) (filter_by lower to_fixed l tokens)
  filter_by-patch l [] = refl
  filter_by-patch [] (x ∷ xs) = refl
  filter_by-patch (e ∷ l) (x ∷ xs) =
      ground (arith, matches_tokens-patch e (x ∷ xs), filter_by-patch l (x ∷ xs))

  shown-patch :
      (searching : Bool) (cache : Option (List RegisterEntry)) (entries : List RegisterEntry)
      (tokens : List Text)
      → (if searching
          then filter_by lower to_fixed
              (Option.get_or (Option.map (map (patch guid state)) cache) [])
              tokens
          else map (patch guid state) entries)
        ≡ map (patch guid state) (
            if searching then filter_by lower to_fixed (Option.get_or cache []) tokens else entries)
  shown-patch false cache entries tokens = refl
  shown-patch true none entries tokens = filter_by-patch [] tokens
  shown-patch true (some l) entries tokens = filter_by-patch l tokens

  -- A changed reconcile state shows at once in whatever rows are displayed: the rows after the
  -- change are the rows before it with the state of that split replaced, while searching too.
  pub display_entries-state_changed :
      (s : State)
      → display_entries lower to_fixed (handle_reconcile_state_changed guid state s)
        ≡ map (patch guid state) (display_entries lower to_fixed s)
  unfolding display_entries handle_reconcile_state_changed filter_register_entries
  display_entries-state_changed s =
      shown-patch (is_searching s) s.all_entries s.entries (tokenize lower s.debounced_search)

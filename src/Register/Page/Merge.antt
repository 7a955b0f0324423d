-- ===== src/Register/Page/Merge.antt =====
-- What loading one more page does to the list of entries.
use mathlib.Core.List.{Perm, append-nil}
use mathlib.Core.List.Perm
use antimoney.Prelude.{
  Ordering, ◌≡◌, refl, sym, ap, ◌∙◌, inl, inr, true, false, not, ◌&&◌, ◌||◌, eq_iff, String, List,
  [], ◌∷◌, ◌++◌, arith, Bool-cases, contains, contains-append, Distinct,
}
use antimoney.Prelude.Sorting.{
  IsConsistent, IsSorted, sort-IsSorted, sort-perm, contains-sort, sort-Distinct,
}
use antimoney.Types.{RegisterEntry}
use antimoney.Register.Order.{compare_entries, compare_entries-IsConsistent}
use antimoney.Register.Page.{
  Direction, before, after, guids, unique_entries, join_entries, merge_unique, merge_entries,
}

pub guids-append : (xs ys : List RegisterEntry) → guids (xs ++ ys) ≡ guids xs ++ guids ys
guids-append [] ys = refl
guids-append (x ∷ xs) ys = ap (◌∷◌ x.split_guid) (guids-append xs ys)

contains_unique :
    (k : String) (prev new : List RegisterEntry)
    → contains k (guids (unique_entries prev new))
      ≡ (contains k (guids new) && not (contains k (guids prev)))
contains_unique k prev [] = refl
contains_unique k prev (e ∷ new) = ground (arith, eq_iff k e.split_guid, contains_unique k prev new)

unique-Distinct :
    (prev new : List RegisterEntry)
    → Distinct (guids new)
    → Distinct (guids (unique_entries prev new))
unique-Distinct prev [] h = tt
unique-Distinct prev (e ∷ new) h = elim (Bool-cases (contains e.split_guid (guids prev))) [
  | inl old ↦ rw old (unique-Distinct prev new h.1)
  | inr fresh ↦
      rw fresh
        (ground (arith, contains_unique e.split_guid prev new, h.0), unique-Distinct prev new h.1)
]

-- Lists of different keys that share none.
append-Distinct :
    (xs ys : List String)
    → Distinct xs
    → Distinct ys
    → ((k : String) → contains k xs ≡ true → contains k ys ≡ false)
    → Distinct (xs ++ ys)
append-Distinct [] ys hx hy apart = hy
append-Distinct (x ∷ xs) ys hx hy apart = (
  rw contains-append (ground (arith, hx.0, apart x, eq_iff x x)),
  append-Distinct xs ys hx.1 hy (λ k h. apart k (ground (arith, h))),
)

module _ (dir : Direction) (prev new : List RegisterEntry) where
  contains-join :
      (k : String)
      → contains k (guids (join_entries dir (unique_entries prev new) prev))
        ≡ (contains k (guids prev) || contains k (guids new))
  contains-join k = by_direction dir
    where
      by_direction :
          (d : Direction)
          → contains k (guids (join_entries d (unique_entries prev new) prev))
            ≡ (contains k (guids prev) || contains k (guids new))
      by_direction before =
          rw (guids-append, contains-append) (ground (arith, contains_unique k prev new))
      by_direction after =
          rw (guids-append, contains-append) (ground (arith, contains_unique k prev new))

  join-Distinct :
      Distinct (guids prev)
      → Distinct (guids new)
      → Distinct (guids (join_entries dir (unique_entries prev new) prev))
  join-Distinct hp hn = by_direction dir
    where
      fresh :
          (k : String)
          → contains k (guids (unique_entries prev new)) ≡ true
          → contains k (guids prev) ≡ false
      fresh k h = ground (arith, contains_unique k prev new, h)

      by_direction :
          (d : Direction) → Distinct (guids (join_entries d (unique_entries prev new) prev))
      by_direction before = rw guids-append (
          append-Distinct (guids (unique_entries prev new)) (guids prev)
            (unique-Distinct prev new hn) hp fresh)
      by_direction after = rw guids-append (
          append-Distinct (guids prev) (guids (unique_entries prev new)) hp
            (unique-Distinct prev new hn) (λ k h. ground (arith, contains_unique k prev new, h)))

module _ (locale_compare : String → String → Ordering) where
  -- The new list holds the keys of the old one and of the page, whichever way it is loaded.
  pub contains-merge_entries :
      (dir : Direction) (prev new : List RegisterEntry) (k : String)
      → contains k (guids (merge_entries locale_compare dir prev new))
        ≡ (contains k (guids prev) || contains k (guids new))
  unfolding merge_entries
  contains-merge_entries dir prev new k = by_unique (unique_entries prev new) refl
    where
      by_unique :
          (u : List RegisterEntry)
          → unique_entries prev new ≡ u
          → contains k (guids (merge_unique locale_compare dir prev u))
            ≡ (contains k (guids prev) || contains k (guids new))
      by_unique [] e = ground (arith, contains_unique k prev new, ap (λ l. contains k (guids l)) e)
      by_unique (x ∷ u) e =
          contains-sort (compare_entries locale_compare) (λ r. r.split_guid) k
            (join_entries dir (x ∷ u) prev)
          ∙ ap (λ l. contains k (guids (join_entries dir l prev))) (sym e)
          ∙ contains-join dir prev new k

  -- The new list is a rearrangement of the old one and the page's entries that are new: an entry
  -- that was loaded is never replaced.
  pub merge_entries-perm :
      (dir : Direction) (prev new : List RegisterEntry)
      → Perm
          (merge_entries locale_compare dir prev new)
          (join_entries dir (unique_entries prev new) prev)
  unfolding merge_entries
  merge_entries-perm dir prev new = by_unique dir (unique_entries prev new)
    where
      by_unique :
          (d : Direction) (u : List RegisterEntry)
          → Perm (merge_unique locale_compare d prev u) (join_entries d u prev)
      by_unique before [] = Perm.refl prev
      by_unique after [] = rw append-nil (Perm.refl prev)
      by_unique d (x ∷ u) = sort-perm (compare_entries locale_compare) (join_entries d (x ∷ u) prev)

  -- The merged list is sorted and has no entry twice, where the old one does and the page too.
  pub merge_entries-IsSorted :
      IsConsistent locale_compare
      → (dir : Direction) (prev new : List RegisterEntry)
      → IsSorted (compare_entries locale_compare) prev
      → IsSorted (compare_entries locale_compare) (merge_entries locale_compare dir prev new)
  unfolding merge_entries
  merge_entries-IsSorted consistent dir prev new h = by_unique (unique_entries prev new)
    where
      by_unique :
          (u : List RegisterEntry)
          → IsSorted (compare_entries locale_compare) (merge_unique locale_compare dir prev u)
      by_unique [] = h
      by_unique (x ∷ u) =
          sort-IsSorted (compare_entries locale_compare)
            (compare_entries-IsConsistent locale_compare consistent) (join_entries dir (x ∷ u) prev)

  pub merge_entries-Distinct :
      (dir : Direction) (prev new : List RegisterEntry)
      → Distinct (guids prev)
      → Distinct (guids new)
      → Distinct (guids (merge_entries locale_compare dir prev new))
  unfolding merge_entries
  merge_entries-Distinct dir prev new hp hn =
      by_unique (unique_entries prev new) (join-Distinct dir prev new hp hn)
    where
      by_unique :
          (u : List RegisterEntry)
          → Distinct (guids (join_entries dir u prev))
          → Distinct (guids (merge_unique locale_compare dir prev u))
      by_unique [] h = hp
      by_unique (x ∷ u) h =
          sort-Distinct (compare_entries locale_compare) (λ r. r.split_guid)
            (join_entries dir (x ∷ u) prev) h

  unique_of_loaded :
      (prev new : List RegisterEntry)
      → ((k : String) → contains k (guids new) ≡ true → contains k (guids prev) ≡ true)
      → unique_entries prev new ≡ []
  unique_of_loaded prev [] h = refl
  unique_of_loaded prev (e ∷ new) h =
      rw (h e.split_guid (ground (arith, eq_iff e.split_guid e.split_guid)))
        (unique_of_loaded prev new (λ k m. h k (ground (arith, m))))

  -- A page that is loaded a second time changes nothing, whichever way it comes.
  pub merge_entries_twice :
      (dir dir' : Direction) (prev new : List RegisterEntry)
      → merge_entries locale_compare dir' (merge_entries locale_compare dir prev new) new
        ≡ merge_entries locale_compare dir prev new
  merge_entries_twice dir dir' prev new =
      let once = merge_entries locale_compare dir prev new in
      unfold merge_entries in
      ap (merge_unique locale_compare dir' once) (
        unique_of_loaded once new
          (λ k m. contains-merge_entries dir prev new k ∙ ground (arith, m)))

-- ===== src/Register/Page/Invariant.antt =====
-- The invariant of the register page over every sequence of its events.
use mathlib.Core.Option
use antimoney.Prelude.{
  Ordering, ◌≡◌, Bool, true, false, String, Option, none, some, List, [], ◌∷◌, map, arith, all,
  Distinct, All,
}
use antimoney.Prelude.Sorting.{IsConsistent, IsSorted, sort, sort-IsSorted, sort-Distinct}
use antimoney.Types.{Account, RegisterEntry, RegisterPage}
use antimoney.Register.Order.{compare_entries, compare_entries-IsConsistent}
use antimoney.Register.Search.{Text}
use antimoney.Register.Page.{
  Direction, before, after, State, guids, patch, load_initial_start, load_initial_done,
  load_more_start, load_more_done, refresh_current_page, take_entries,
  handle_reconcile_state_changed, handle_data_changed, delete_transaction_done, clear_search,
  debounce_fired, account_changed, search_start, search_done, merge_entries,
}
use antimoney.Register.Page.Patch.{guids-patch, patch-IsSorted}
use antimoney.Register.Page.Merge.{merge_entries-IsSorted, merge_entries-Distinct}

-- What can happen to the page: a handler's first part, or the answer to its call.
pub data Event : Type 0 where
  initial_started : Option String → String → Option String → Event
  initial_done : Option (Account × RegisterPage × List Account) → Event
  more_started : Option String → Bool → Direction → Event
  more_done : Direction → Option RegisterPage → Event
  state_changed : String → String → Event
  changed : Option String → String → Event
  deleted : Option String → String → Bool → Event
  search_cleared : Event
  debounced : Text → Event
  account_left : Event
  search_started : Option String → Event
  search_answered : Bool → Option (List RegisterEntry) → Event

module _ (locale_compare : String → String → Ordering) where
  unfoldable pub step : Event → State → State
  step (initial_started id today cursor) s = (load_initial_start id today cursor s).0
  step (initial_done answer) s = load_initial_done locale_compare answer s
  step (more_started id busy dir) s = (load_more_start id busy dir s).0
  step (more_done dir answer) s = load_more_done locale_compare dir answer s
  step (state_changed guid state) s = handle_reconcile_state_changed guid state s
  step (changed id today) s = (handle_data_changed id today s).0
  step (deleted id today success) s = (delete_transaction_done id today success s).0
  step search_cleared s = clear_search s
  step (debounced text) s = debounce_fired text s
  step account_left s = account_changed s
  step (search_started id) s = (search_start id s).0
  step (search_answered cancelled answer) s = search_done locale_compare cancelled answer s

  unfoldable pub run : List Event → State → State
  run [] s = s
  run (e ∷ es) s = run es (step e s)

  -- A list of entries in the register's order, with no split twice.
  abbrev pub IsRegister : List RegisterEntry → Type 0
  IsRegister l = IsSorted (compare_entries locale_compare) l × Distinct (guids l)

  abbrev pub IsCache : Option (List RegisterEntry) → Type 0
  IsCache none = Unit
  IsCache (some l) = IsRegister l

  pub record IsValid (s : State) : Type 0 where
    pub window : IsRegister s.entries
    pub cache : IsCache s.all_entries

  -- The server sends no split twice in one answer.
  abbrev pub IsFair : Event → Type 0
  IsFair (initial_done (some (acc, page, all))) = Distinct (guids page.entries)
  IsFair (more_done dir (some page)) = Distinct (guids page.entries)
  IsFair (search_answered cancelled (some all)) = Distinct (guids all)
  IsFair _ = Unit

  patch-IsRegister :
      (guid state : String) (l : List RegisterEntry)
      → IsRegister l
      → IsRegister (map (patch guid state) l)
  patch-IsRegister guid state l h =
      (patch-IsSorted locale_compare guid state l h.0, rw (guids-patch guid state l) h.1)

  module _ (consistent : IsConsistent locale_compare) where
    sort-IsRegister :
        (l : List RegisterEntry)
        → Distinct (guids l)
        → IsRegister (sort (compare_entries locale_compare) l)
    sort-IsRegister l h = (
      sort-IsSorted (compare_entries locale_compare)
          (compare_entries-IsConsistent locale_compare consistent) l,
      sort-Distinct (compare_entries locale_compare) (λ r. r.split_guid) l h,
    )

    merge-IsRegister :
        (dir : Direction) (prev new : List RegisterEntry)
        → IsRegister prev
        → Distinct (guids new)
        → IsRegister (merge_entries locale_compare dir prev new)
    merge-IsRegister dir prev new h n = (
      merge_entries-IsSorted locale_compare consistent dir prev new h.0,
      merge_entries-Distinct locale_compare dir prev new h.1 n,
    )

    -- Only the window and the cache matter.
    keep-IsValid :
        (s s' : State)
        → s'.entries ≡ s.entries
        → s'.all_entries ≡ s.all_entries
        → IsValid s
        → IsValid s'
    keep-IsValid s s' e c v = record { window = rw e v.window; cache = rw c v.cache }

    initial_started-IsValid :
        (id : Option String) (today : String) (cursor : Option String) (s : State)
        → IsValid s
        → IsValid (load_initial_start id today cursor s).0
    unfolding load_initial_start
    initial_started-IsValid none today cursor s v = v
    initial_started-IsValid (some id) today cursor s v = record {
      window = v.window;
      cache = v.cache;
    }

    changed-IsValid :
        (id : Option String) (today : String) (s : State)
        → IsValid s
        → IsValid (handle_data_changed id today s).0
    unfolding handle_data_changed refresh_current_page
    changed-IsValid id today s v =
        initial_started-IsValid id today (some s.page_cursor) (record s { all_entries = none })
          (record { window = v.window; cache = tt })

    more_started-IsValid :
        (id : Option String) (busy : Bool) (dir : Direction) (s : State)
        → IsValid s
        → IsValid (load_more_start id busy dir s).0
    more_started-IsValid id busy dir s v =
        unfold load_more_start in
        keep-IsValid s (load_more_start id busy dir s).0 (ground arith) (ground arith) v

    search_started-IsValid :
        (id : Option String) (s : State) → IsValid s → IsValid (search_start id s).0
    search_started-IsValid id s v =
        unfold search_start in keep-IsValid s (search_start id s).0 (ground arith) (ground arith) v

    patched-IsCache :
        (guid state : String) (cache : Option (List RegisterEntry))
        → IsCache cache
        → IsCache (Option.map (map (patch guid state)) cache)
    patched-IsCache guid state none h = tt
    patched-IsCache guid state (some l) h = patch-IsRegister guid state l h

    more_done-IsValid :
        (dir : Direction) (page : RegisterPage) (s : State)
        → Distinct (guids page.entries)
        → IsValid s
        → IsValid (load_more_done locale_compare dir (some page) s)
    unfolding load_more_done
    more_done-IsValid before page s n v = by_page page.entries
      where
        by_page : (l : List RegisterEntry) → IsValid (take_entries locale_compare before l page s)
        by_page [] = record { window = v.window; cache = v.cache }
        by_page (e ∷ new) = record {
          window = merge-IsRegister before s.entries page.entries v.window n;
          cache = v.cache;
        }
    more_done-IsValid after page s n v = by_page page.entries
      where
        by_page : (l : List RegisterEntry) → IsValid (take_entries locale_compare after l page s)
        by_page [] = record { window = v.window; cache = v.cache }
        by_page (e ∷ new) = record {
          window = merge-IsRegister after s.entries page.entries v.window n;
          cache = v.cache;
        }

    -- Every event keeps the window and the search cache sorted and free of duplicates.
    pub step-IsValid : (e : Event) (s : State) → IsFair e → IsValid s → IsValid (step e s)
    unfolding step load_initial_done load_more_done handle_reconcile_state_changed
        delete_transaction_done clear_search debounce_fired account_changed search_done
    step-IsValid (initial_started id today cursor) s f v =
        initial_started-IsValid id today cursor s v
    step-IsValid (initial_done none) s f v = record { window = v.window; cache = v.cache }
    step-IsValid (initial_done (some (acc, page, all))) s f v = record {
      window = sort-IsRegister page.entries f;
      cache = v.cache;
    }
    step-IsValid (more_started id busy dir) s f v = more_started-IsValid id busy dir s v
    step-IsValid (more_done dir none) s f v = record { window = v.window; cache = v.cache }
    step-IsValid (more_done dir (some page)) s f v = more_done-IsValid dir page s f v
    step-IsValid (state_changed guid state) s f v = record {
      window = patch-IsRegister guid state s.entries v.window;
      cache = patched-IsCache guid state s.all_entries v.cache;
    }
    step-IsValid (changed id today) s f v = changed-IsValid id today s v
    step-IsValid (deleted id today true) s f v = changed-IsValid id today s v
    step-IsValid (deleted id today false) s f v = v
    step-IsValid search_cleared s f v = record { window = v.window; cache = v.cache }
    step-IsValid (debounced text) s f v = record { window = v.window; cache = v.cache }
    step-IsValid account_left s f v = record { window = v.window; cache = tt }
    step-IsValid (search_started id) s f v = search_started-IsValid id s v
    step-IsValid (search_answered true answer) s f v = v
    step-IsValid (search_answered false none) s f v = record { window = v.window; cache = v.cache }
    step-IsValid (search_answered false (some all)) s f v = record {
      window = v.window;
      cache = sort-IsRegister all f;
    }

    -- From a valid state, after any sequence of events whose answers have no split twice, the
    -- page's lists are in order and free of duplicates, where `localeCompare` is a consistent
    -- comparator.
    pub run-IsValid : (es : List Event) (s : State) → All IsFair es → IsValid s → IsValid (run es s)
    unfolding run
    run-IsValid [] s f v = v
    run-IsValid (e ∷ es) s f v = run-IsValid es (step e s) f.1 (step-IsValid e s f.0 v)

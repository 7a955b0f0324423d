-- ===== src/Register/Page/Queries.antt =====
-- The page and the server together, where the server orders the rows anew for each query.
--
-- The rows of the queries are a sequence of lists. PostgreSQL promises of each that its rows stand
-- in the order of their post date, custom id and enter date; of rows that agree in the three it
-- promises nothing. The place of a row in that order is the number `key`.
use text.Mathlib.TextEquality.{IsScalar-prop}
use mathlib.Core.List.{Perm}
use antimoney.Prelude.{
  ℕ, zero, suc, Ordering, ◌+◌, ◌*◌, ◌≤◌, ◌≡◌, refl, sym, ap, ◌∙◌, subst, false, String, some, List,
  length, Distinct,
}
use antimoney.Prelude.Unique.{Increases, Increases-unique}
use antimoney.Types.{Account, RegisterEntry}
use antimoney.Server.Paging.{around_page}
use antimoney.Register.Page.{Direction, before, after, State, guids, load_initial_done, page_size}
use antimoney.Register.Page.Window.{load_more}
use antimoney.Register.Page.Complete.{load_times, load_times-perm}

RegisterEntry-IsSet : IsSet RegisterEntry
RegisterEntry-IsSet = hlevel (IsScalar-prop)

abbrev pub Rows : Type 0
Rows = List RegisterEntry

module _ (locale_compare : String → String → Ordering) (id : String) where
  -- Loads in one direction, each with the rows of its own query.
  abbrev pub load_all : (ℕ → Rows) → ℕ → Direction → State → State
  load_all rows zero dir s = s
  load_all rows (suc n) dir s =
      load_all (λ i. rows (suc i)) n dir (load_more locale_compare (rows 0) id dir s)

  load_all-same :
      (all : Rows) (rows : ℕ → Rows) (n : ℕ) (dir : Direction) (s : State)
      → ((i : ℕ) → rows i ≡ all)
      → load_all rows n dir s ≡ load_times locale_compare all id n dir s
  load_all-same all rows zero dir s same = refl
  load_all-same all rows (suc n) dir s same =
      ap (λ l. load_all (λ i. rows (suc i)) n dir (load_more locale_compare l id dir s)) (same 0)
      ∙ load_all-same all (λ i. rows (suc i)) n dir (load_more locale_compare all id dir s)
          (λ i. same (suc i))

  -- However the first page was placed, as many loads in both directions as the register has pages
  -- show all of it: when the register is not empty and its split ids are distinct, no two of its
  -- rows agree in post date, custom id and enter date, so that the order of each query's rows
  -- leaves no choice, the rows stay the same between the queries, and the server finds `count` of
  -- them before the date of the first page, then after `n` loads of older entries and `n` of newer
  -- ones, where `n` pages hold the register, the page holds exactly the entries of the register,
  -- each as often as the register does, and offers no more in either direction.
  pub load_all-perm :
      (key : RegisterEntry → ℕ) (rows : ℕ → Rows) (acc : Account) (accounts : List Account)
      (count n : ℕ) (s : State)
      → ((i : ℕ) → Perm (rows i) (rows 0))
      → ((i : ℕ) → Increases key (rows i))
      → Distinct (guids (rows 0))
      → 1 ≤ length (rows 0)
      → count ≤ length (rows 0)
      → length (rows 0) ≤ n * page_size
      → let first =
          load_initial_done locale_compare
            (some (acc, around_page (rows 0) count page_size, accounts))
            s in
        let older = load_all (λ i. rows (1 + i)) n before first in
        let last = load_all (λ i. rows (1 + n + i)) n after older in
        Perm last.entries (rows 0) × (last.has_before ≡ false) × (last.has_after ≡ false)
  load_all-perm key rows acc accounts count n s kept ordered distinct some_entry in_range enough =
      let all = rows 0 in
      let same : (i : ℕ) → rows i ≡ all = λ i.
        Increases-unique key RegisterEntry-IsSet (rows i) all (ordered i) (ordered 0) (kept i) in
      let first =
        load_initial_done locale_compare (some (acc, around_page all count page_size, accounts))
          s in
      subst (λ t. Perm t.entries all × (t.has_before ≡ false) × (t.has_after ≡ false))
        (sym (
          ap (load_all (λ i. rows (1 + n + i)) n after)
            (load_all-same all (λ i. rows (1 + i)) n before first (λ i. same (1 + i)))
          ∙ load_all-same all (λ i. rows (1 + n + i)) n after
              (load_times locale_compare all id n before first) (λ i. same (1 + n + i))))
        (load_times-perm locale_compare all id acc accounts count n s distinct some_entry in_range
          enough)

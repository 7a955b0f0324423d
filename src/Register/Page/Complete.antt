-- ===== src/Register/Page/Complete.antt =====
-- The page and the server together, where the server forms one list of rows for all its queries:
-- enough loads show the whole register.
use mathlib.Core.List.{Perm, append_assoc, append-nil}
use antimoney.Prelude.{
  ℕ, zero, suc, Ordering, ◌+◌, ◌-◌, ◌*◌, ◌≤◌, ◌/◌, ◌≡◌, sym, ap, subst, ◌∙◌, false, String, some,
  List, [], ◌∷◌, ◌++◌, length, ltb, take, drop, take-drop, length-take, length-take-drop,
  length-take_pos, length-drop, arith, Distinct,
}
use antimoney.Prelude.Sorting.{sort-perm, contains-sort}
use antimoney.Register.Order.{compare_entries}
use antimoney.Types.{Account, RegisterEntry}
use antimoney.Server.Paging.{around_page, end_offset}
use antimoney.Register.Page.{Direction, before, after, State, guids, load_initial_done, page_size}
use antimoney.Register.Page.Window.{
  IsWindow, load_more, front, back, length-front, query_page_lem, end_offset_lem,
}
use antimoney.Register.Page.Window.Older.{load_more_before-IsWindow}
use antimoney.Register.Page.Window.Newer.{load_more_after-IsWindow}

ltb_rest : (a n total : ℕ) → total ≡ a + n → ltb a total ≡ ltb 0 n
ltb_rest a n total parts = ground (arith, parts)

module _ (locale_compare : String → String → Ordering) (all : List RegisterEntry)
    (id : String) where
  abbrev pub load_times : ℕ → Direction → State → State
  load_times zero dir s = s
  load_times (suc n) dir s = load_times n dir (load_more locale_compare all id dir s)

  load_times_before :
      (n : ℕ) (A W B : List RegisterEntry) (s : State)
      → Distinct (guids all)
      → IsWindow all A W B s
      → length A ≤ n * page_size
      → IsWindow all [] (A ++ W) B (load_times n before s)
  load_times_before zero [] W B s distinct window enough = window
  load_times_before zero (a ∷ A) W B s distinct window enough = absurd (omega (arith, enough))
  load_times_before (suc n) A W B s distinct window enough =
      rw
        (sym (
          sym (append_assoc (front page_size A) (back page_size A) W)
          ∙ ap (λ l. l ++ W) (take-drop (length A - page_size) A)))
        (load_times_before n (front page_size A) (back page_size A ++ W) B
          (load_more locale_compare all id before s) distinct
          (load_more_before-IsWindow locale_compare all id A W B s distinct window)
          (omega (arith, length-front page_size A, enough)))

  load_times_after :
      (n : ℕ) (A W B : List RegisterEntry) (s : State)
      → Distinct (guids all)
      → IsWindow all A W B s
      → length B ≤ n * page_size
      → IsWindow all A (W ++ B) [] (load_times n after s)
  load_times_after zero A W [] s distinct window enough = rw (append-nil W) window
  load_times_after zero A W (b ∷ B) s distinct window enough = absurd (omega (arith, enough))
  load_times_after (suc n) A W B s distinct window enough =
      rw
        (sym (
          append_assoc W (take page_size B) (drop page_size B)
          ∙ ap (λ l. W ++ l) (take-drop page_size B)))
        (load_times_after n A (W ++ take page_size B) (drop page_size B)
          (load_more locale_compare all id after s) distinct
          (load_more_after-IsWindow locale_compare all id A W B s distinct window)
          (omega (arith, length-drop page_size B, enough)))

  -- The first page, around the date with `count` entries before it.
  around-IsWindow :
      (acc : Account) (accounts : List Account) (count : ℕ) (s : State)
      → 1 ≤ length all
      → count ≤ length all
      → let at = count - page_size * 3 / 4 in
        IsWindow all (take at all) (take page_size (drop at all)) (drop page_size (drop at all)) (
          load_initial_done locale_compare
            (some (acc, around_page all count page_size, accounts))
            s)
  unfolding load_initial_done around_page
  around-IsWindow acc accounts count s some_entry in_range =
      let at = count - page_size * 3 / 4 in
      let W = take page_size (drop at all) in
      let rest : length (drop at all) ≡ length all - at = length-drop at all in
      let before : length (take at all) ≡ at = length-take at all (omega (arith, in_range)) in
      let window : 1 ≤ length W =
        length-take_pos page_size (drop at all) (omega arith)
          (omega (arith, rest, in_range, some_entry)) in
      let ends : end_offset at W + 1 ≡ at + length W = end_offset_lem at W window in
      let after : length W + length (drop page_size (drop at all)) ≡ length (drop at all) =
        length-take-drop page_size (drop at all) in
      rw
        (query_page_lem all (take at all) (drop at all) at page_size (sym (take-drop at all))
          (sym before) (omega arith))
        (record {
          parts =
              sym
                (ap (λ l. take at all ++ l) (take-drop page_size (drop at all)) ∙ take-drop at all);
          nonempty = window;
          shown = sort-perm (compare_entries locale_compare) W;
          keys = λ k.
              contains-sort (compare_entries locale_compare) (λ (e : RegisterEntry). e.split_guid) k
                W;
          first = ap some (sym before);
          last = ap some (omega (arith, ends, before));
          more_before = ap (ltb 0) (sym before);
          more_after =
              ap (λ x. ltb x (length all)) ends
              ∙ ltb_rest (at + length W) (length (drop page_size (drop at all))) (length all)
                  (omega (arith, rest, after, in_range));
        })

  -- With one list of rows for all queries: `n` loads in both directions, where `n` pages hold it,
  -- show exactly this list.
  pub load_times-perm :
      (acc : Account) (accounts : List Account) (count n : ℕ) (s : State)
      → Distinct (guids all)
      → 1 ≤ length all
      → count ≤ length all
      → length all ≤ n * page_size
      → let first =
          load_initial_done locale_compare
            (some (acc, around_page all count page_size, accounts))
            s in
        let last = load_times n after (load_times n before first) in
        Perm last.entries all × (last.has_before ≡ false) × (last.has_after ≡ false)
  load_times-perm acc accounts count n s distinct some_entry in_range enough =
      let at = count - page_size * 3 / 4 in
      let A = take at all in
      let W = take page_size (drop at all) in
      let B = drop page_size (drop at all) in
      let first =
        load_initial_done locale_compare (some (acc, around_page all count page_size, accounts))
          s in
      let window = around-IsWindow acc accounts count s some_entry in_range in
      let older =
        load_times_before n A W B first distinct window
          (omega (arith, length-take at all (omega (arith, in_range)), in_range, enough)) in
      let last = load_times n after (load_times n before first) in
      let newer =
        load_times_after n [] (A ++ W) B (load_times n before first) distinct older
          (omega (arith, length-drop page_size (drop at all), length-drop at all, enough)) in
      (
        subst (Perm last.entries) (sym (newer.parts ∙ append-nil ((A ++ W) ++ B))) newer.shown,
        newer.more_before,
        newer.more_after,
      )

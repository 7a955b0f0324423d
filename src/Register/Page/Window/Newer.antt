-- ===== src/Register/Page/Window/Newer.antt =====
-- Loading newer entries: the window grows by the page after it.
use mathlib.Core.List.{perm_append_comm, append_assoc, append-nil}
use mathlib.Core.List.Perm
use antimoney.Prelude.{
  ℕ, Ordering, ◌+◌, ◌-◌, ◌≤◌, ◌≡◌, refl, sym, ap, ◌∙◌, inl, inr, true, false, String, some, List,
  [], ◌∷◌, ◌++◌, length, take, drop, take-drop, length-append, arith, Bool-cases, contains,
  Distinct,
}
use antimoney.Types.{RegisterEntry, RegisterPage}
use antimoney.Server.Paging.{after_page, page_with, end_offset}
use antimoney.Register.Page.{
  after, State, guids, request_more, load_more_start, load_more_done, page_size, take_entries,
  take_page,
}
use antimoney.Register.Page.Merge.{contains-merge_entries}
use antimoney.Register.Page.Window.{
  query_page_lem, end_offset_lem, finish, load_more, take_entries-nonempty, merge-apart,
  apart-right, contains-guids, IsWindow,
}

module _ (locale_compare : String → String → Ordering) (all : List RegisterEntry)
    (id : String) where
  load_more_after :
      (s : State) (at : ℕ)
      → s.last_offset ≡ some at
      → load_more locale_compare all id after s
        ≡ take_entries locale_compare after
            (after_page all at page_size).entries
            (after_page all at page_size)
            (record s { loading_more = true })
  unfolding load_more load_more_start load_more_done
  load_more_after s at h =
      ap
        (λ o.
          finish locale_compare all id after (request_more id after o s).1
            (request_more id after o s).0)
        h

  apart-after :
      (A W K R : List RegisterEntry)
      → Distinct (guids all)
      → all ≡ A ++ (W ++ (K ++ R))
      → (k : String) → contains k (guids K) ≡ true
      → contains k (guids W) ≡ false
  apart-after A W K R distinct parts k h = elim (Bool-cases (contains k (guids W))) [
    | inl both ↦ absurd (
        ground (arith, h, contains-guids k K R, apart-right all A W (K ++ R) distinct parts k both))
    | inr only ↦ only
  ]

  after-IsWindow :
      (A W B K R : List RegisterEntry) (at : ℕ) (s : State)
      → Distinct (guids all)
      → IsWindow all A W B s
      → all ≡ A ++ (W ++ (K ++ R))
      → at ≡ length A + length W
      → 1 ≤ length K
      → IsWindow all A (W ++ K) R (
          take_page locale_compare after
            (page_with (length all) at K)
            (record s { loading_more = true }))
  after-IsWindow A W B K R at s distinct window parts here some_page =
      let apart : (k : String)
          → contains k (guids K) ≡ true
          → contains k (guids s.entries) ≡ false =
        λ k h. window.keys k ∙ apart-after A W K R distinct parts k h in
      let total : length all ≡ length A + (length W + (length K + length R)) =
        ap length parts
        ∙ omega
            (arith, length-append A (W ++ (K ++ R)), length-append W (K ++ R), length-append K R) in
      let ends : end_offset at K + 1 ≡ at + length K = end_offset_lem at K some_page in
      record {
        parts = parts ∙ ap (λ l. A ++ l) (sym (append_assoc W K R));
        nonempty = omega (arith, length-append W K, some_page);
        shown =
            Perm.trans (merge-apart locale_compare all id after s.entries W K window.shown apart)
              (perm_append_comm K W);
        keys = λ k. ground (
          arith,
          contains-merge_entries locale_compare after s.entries K k,
          window.keys k,
          contains-guids k W K,
        );
        first = window.first;
        last = ap some (omega (arith, ends, here, length-append W K));
        more_before = window.more_before;
        more_after = ground (arith, ends, here, total);
      }

  abbrev after_answer : State → RegisterPage → State
  after_answer s page =
      take_entries locale_compare after page.entries page (record s { loading_more = true })

  after_page_lem :
      (A W B : List RegisterEntry) {s : State}
      → IsWindow all A W B s
      → after_page all (length A + length W - 1) page_size
        ≡ page_with (length all) (length A + length W - 1 + 1) (take page_size B)
  unfolding after_page
  after_page_lem A W B window =
      query_page_lem all (A ++ W) B (length A + length W - 1 + 1) page_size
        (window.parts ∙ sym (append_assoc A W B))
        (omega (arith, window.nonempty, length-append A W)) (omega arith)

  -- Loading newer entries moves the end of the window on by a page.
  pub load_more_after-IsWindow :
      (A W B : List RegisterEntry) (s : State)
      → Distinct (guids all)
      → IsWindow all A W B s
      → IsWindow all A
          (W ++ take page_size B)
          (drop page_size B)
          (load_more locale_compare all id after s)
  load_more_after-IsWindow A W [] s distinct window =
      let at = length A + length W - 1 in
      rw (load_more_after s at window.last ∙ ap (after_answer s) (after_page_lem A W [] window))
        (record {
          parts = rw (append-nil W) window.parts;
          nonempty = rw (append-nil W) window.nonempty;
          shown = rw (append-nil W) window.shown;
          keys = rw (append-nil W) window.keys;
          first = window.first;
          last = rw (append-nil W) window.last;
          more_before = window.more_before;
          more_after = refl;
        })
  load_more_after-IsWindow A W (b ∷ B) s distinct window =
      let K = take page_size (b ∷ B) in
      let R = drop page_size (b ∷ B) in
      let at = length A + length W - 1 in
      let here : at + 1 ≡ length A + length W = omega (arith, window.nonempty) in
      let some_page : 1 ≤ length K = omega (arith) in
      rw
        (load_more_after s at window.last
          ∙ ap (after_answer s) (after_page_lem A W (b ∷ B) window)
          ∙ take_entries-nonempty locale_compare all id after K (page_with (length all) (at + 1) K)
              (record s { loading_more = true }) some_page)
        (after-IsWindow A W (b ∷ B) K R (at + 1) s distinct window
          (window.parts ∙ ap (λ l. A ++ (W ++ l)) (sym (take-drop page_size (b ∷ B)))) here
          some_page)

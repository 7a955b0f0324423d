-- ===== src/Register/Page/Window/Older.antt =====
-- Loading older entries: the window grows by the page before it.
use mathlib.Core.List.{append_assoc}
use antimoney.Prelude.{
  ℕ, Ordering, ◌+◌, ◌-◌, ◌≤◌, ◌≡◌, refl, sym, ap, ◌∙◌, inl, inr, true, false, String, some, List,
  [], ◌∷◌, ◌++◌, length, leb, take, take-drop, take-append, length-append, arith, Bool-cases,
  contains, Distinct,
}
use antimoney.Types.{RegisterEntry}
use antimoney.Server.Paging.{before_page, query_page, page_with}
use antimoney.Register.Page.{
  before, State, guids, request_more, load_more_start, load_more_done, page_size, take_entries,
  take_page,
}
use antimoney.Register.Page.Merge.{contains-merge_entries}
use antimoney.Register.Page.Window.{
  front, back, length-front, length-back, query_page_lem, finish, load_more, take_entries-nonempty,
  merge-apart, apart-right, contains-guids, IsWindow,
}

query_whole :
    (all F K R : List RegisterEntry) (at limit : ℕ)
    → all ≡ F ++ (K ++ R)
    → at ≡ length F
    → limit ≡ length K
    → 1 ≤ length K
    → query_page all at limit ≡ page_with (length all) (length F) K
query_whole all F K R at limit parts here whole some_limit =
    query_page_lem all F (K ++ R) at limit parts here (omega (arith, whole, some_limit))
    ∙ ap (λ x. page_with (length all) x (take limit (K ++ R))) here
    ∙ ap (λ x. page_with (length all) (length F) (take x (K ++ R))) whole
    ∙ ap (page_with (length all) (length F)) (take-append K R)

-- The parts of the register around the page before `A ++ R`.
before_parts :
    (all A R : List RegisterEntry) (n : ℕ) → all ≡ A ++ R → all ≡ front n A ++ (back n A ++ R)
before_parts all A R n parts =
    parts
    ∙ ap (λ l. l ++ R) (sym (take-drop (length A - n) A))
    ∙ append_assoc (front n A) (back n A) R

before_page_lem :
    (all A R : List RegisterEntry) (limit : ℕ)
    → all ≡ A ++ R
    → 1 ≤ length A
    → 1 ≤ limit
    → before_page all (length A) limit
      ≡ page_with (length all) (length (front limit A)) (back limit A)
unfolding before_page
before_page_lem all A R limit parts some_before some_limit =
    let split = before_parts all A R limit parts in
    let fl = length-front limit A in
    let bl = length-back limit A in
    elim (Bool-cases (leb limit (length A))) [
      | inl enough ↦
          let le : limit ≤ length A = ground (arith, enough) in
          rw enough (
            query_whole all (front limit A) (back limit A) R (length A - limit) limit split (sym fl)
              (omega (arith, bl, le)) (omega (arith, bl, le, some_limit)))
      | inr short ↦
          let lt : length A ≤ limit = ground (arith, short) in
          rw short (
            query_whole all (front limit A) (back limit A) R 0 (length A) split
              (omega (arith, fl, lt)) (omega (arith, bl, lt)) (omega (arith, bl, lt, some_before)))
    ]

module _ (locale_compare : String → String → Ordering) (all : List RegisterEntry)
    (id : String) where
  load_more_before :
      (s : State) (at : ℕ)
      → s.first_offset ≡ some at
      → load_more locale_compare all id before s
        ≡ take_entries locale_compare before
            (before_page all at page_size).entries
            (before_page all at page_size)
            (record s { loading_more = true })
  unfolding load_more load_more_start load_more_done
  load_more_before s at h =
      ap
        (λ o.
          finish locale_compare all id before (request_more id before o s).1
            (request_more id before o s).0)
        h

  apart-window :
      (F K W B : List RegisterEntry)
      → Distinct (guids all)
      → all ≡ F ++ (K ++ (W ++ B))
      → (k : String) → contains k (guids K) ≡ true
      → contains k (guids W) ≡ false
  apart-window F K W B distinct parts k h =
      ground (arith, contains-guids k W B, apart-right all F K (W ++ B) distinct parts k h)

  before-IsWindow :
      (A F K W B : List RegisterEntry) (s : State)
      → Distinct (guids all)
      → IsWindow all A W B s
      → all ≡ F ++ (K ++ (W ++ B))
      → length A ≡ length F + length K
      → 1 ≤ length K
      → IsWindow all F (K ++ W) B (
          take_page locale_compare before
            (page_with (length all) (length F) K)
            (record s { loading_more = true }))
  before-IsWindow A F K W B s distinct window parts whole some_page =
      let apart : (k : String)
          → contains k (guids K) ≡ true
          → contains k (guids s.entries) ≡ false =
        λ k h. window.keys k ∙ apart-window F K W B distinct parts k h in
      record {
        parts = parts ∙ ap (λ l. F ++ l) (sym (append_assoc K W B));
        nonempty = omega (arith, length-append K W, some_page);
        shown = merge-apart locale_compare all id before s.entries W K window.shown apart;
        keys = λ k. ground (
          arith,
          contains-merge_entries locale_compare before s.entries K k,
          window.keys k,
          contains-guids k K W,
        );
        first = refl;
        last = window.last ∙ ap some (omega (arith, whole, length-append K W));
        more_before = refl;
        more_after = window.more_after;
      }

  -- Loading older entries moves the start of the window back by a page.
  pub load_more_before-IsWindow :
      (A W B : List RegisterEntry) (s : State)
      → Distinct (guids all)
      → IsWindow all A W B s
      → IsWindow all
          (front page_size A)
          (back page_size A ++ W)
          B
          (load_more locale_compare all id before s)
  unfolding before_page query_page
  load_more_before-IsWindow [] W B s distinct window =
      rw (load_more_before s 0 window.first) (record {
        parts = window.parts;
        nonempty = window.nonempty;
        shown = window.shown;
        keys = window.keys;
        first = window.first;
        last = window.last;
        more_before = refl;
        more_after = window.more_after;
      })
  load_more_before-IsWindow (a ∷ A) W B s distinct window =
      let F = front page_size (a ∷ A) in
      let K = back page_size (a ∷ A) in
      let some_page : 1 ≤ length K = omega (arith, length-back page_size (a ∷ A)) in
      rw
        (load_more_before s (length (a ∷ A)) window.first
          ∙ ap
              (λ page.
                take_entries locale_compare before page.entries page
                  (record s { loading_more = true }))
              (before_page_lem all (a ∷ A) (W ++ B) page_size window.parts (omega arith)
                (omega arith))
          ∙ take_entries-nonempty locale_compare all id before K
              (page_with (length all) (length F) K) (record s { loading_more = true }) some_page)
        (before-IsWindow (a ∷ A) F K W B s distinct window
          (before_parts all (a ∷ A) (W ++ B) page_size window.parts)
          (omega (arith, length-front page_size (a ∷ A), length-back page_size (a ∷ A))) some_page)
